-- ===== src/Db.antt =====
-- The database that the program keeps its state in: the tables of internal/db/migrations, the
-- transactions of internal/db/gen/db.go, and the statements of internal/db/queries as sqlc renders
-- them in internal/db/gen.
pub mod Schema
pub mod Session
pub mod Keeps
pub mod Occupancy
pub mod Bookings
pub mod Payments
pub mod Queue
pub mod Ensures
pub mod Availability
pub mod Nights
pub mod Departures
pub mod Reservations
pub mod Accounts
pub mod Enrollments
pub mod Subscriptions
pub mod Devices

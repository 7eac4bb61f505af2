-- ===== src/Kept.antt =====
-- Invariants of the tables: what every statement keeps, every operation of the program keeps.
pub mod Interface
pub mod Payments
pub mod Balances
pub mod Jobs
pub mod Checkout
pub mod Push
pub mod Delivery
pub mod Bookings
pub mod Console

-- ===== src/Booking.antt =====
-- internal/booking: a chosen room becomes a held booking, and what is not paid for is given back.
pub mod Link
pub mod Signed
pub mod Request
pub mod Create
pub mod Refusals
pub mod Sweeper
pub mod Swept
pub mod Checkout
pub mod Reminded

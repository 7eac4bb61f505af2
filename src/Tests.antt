-- ===== src/Tests.antt =====
-- Runs of the program on a small inn, and the theorems at those inputs.
mod Inn
mod Runs
mod Sums
mod Phones
mod Stays
mod Departures
mod Notices

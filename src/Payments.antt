-- ===== src/Payments.antt =====
-- internal/payments
pub mod Ledger
pub mod Allocation
pub mod Charge
pub mod Letters
pub mod Rooms
pub mod Record
pub mod Gateway
pub mod Cancel
pub mod Refunding
pub mod Open
pub mod Balances
pub mod Replay
pub mod Gone
pub mod Returned

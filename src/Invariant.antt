-- ===== src/Invariant.antt =====
-- What holds of the tables in every state that the program reaches.
pub mod Exclusive
pub mod Rooms
pub mod Money
pub mod Paid
pub mod Fresh
pub mod Created
pub mod Sound

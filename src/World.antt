-- ===== src/World.antt =====
-- What the world server keeps of a character.
pub mod Accounts
pub mod Bars
pub mod Combat
pub mod Entries
pub mod Objects
pub mod Packets
mod Tests

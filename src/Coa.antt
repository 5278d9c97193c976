-- ===== src/Coa.antt =====
-- server/coa_mode.py: the Conquest-of-Azeroth classes of the bridge.
pub mod CharEnum
pub mod Essence
pub mod State
pub mod Create
mod Tests

-- ===== src/Importer.antt =====
-- tools/character-importer/: restoring a character from a checkpoint.
pub mod Equip
pub mod Items

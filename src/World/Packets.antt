-- ===== src/World/Packets.antt =====
-- Packet bodies of server/world_server.py, as the fields that `struct.pack` and `bytes` write in turn.
pub mod Auras
pub mod Chat
pub mod Builds
mod Tests
use ascension_preservation.Common.{ℕ, ◌%◌, List, [], ◌∷◌, ◌++◌, map, Result, ok, ◌>>=◌}
use ascension_preservation.Common.Bytes.{Bytes, pack}

-- `u8` is `bytes([v & 0xFF])`, the others are the formats `H`, `I` and `Q`; `raw` is bytes that are there.
pub data Field : Type 0 where
  u8 u16 u32 u64 : ℕ → Field
  raw : Bytes → Field

unfoldable pub write_field : Field → Result Bytes
write_field (u8 v) = ok (v % 256 ∷ [])
write_field (u16 v) = pack 2 v
write_field (u32 v) = pack 4 v
write_field (u64 v) = pack 8 v
write_field (raw b) = ok b

unfoldable pub write_fields : List Field → Result Bytes
write_fields [] = ok []
write_fields (f ∷ fs) = do b ← write_field f; bs ← write_fields fs; ok (b ++ bs)

-- `.encode("utf-8") + b"\x00"` of a text that is given by its bytes.
abbrev pub cstring : Bytes → Field
cstring s = raw (s ++ 0 ∷ [])

-- ===== src/Wire/Frame/Header.antt =====
-- The header that `frame_pkt` builds, in plain arithmetic.
use ascension_preservation.Common.{
  ℕ, ◌+◌, ◌*◌, ◌/◌, ◌%◌, ◌≤◌, ◌<◌, ◌≡◌, true, false, [], ◌∷◌, arith, bit_or, bit_and, ◌==◌,
}
use ascension_preservation.Common.Bits.{
  bit_or-fields, bit_or-fields_low, bit_and-low_bits, bit_and-top, bit_or-top,
}
use ascension_preservation.Wire.Frame.{s2c_header, ◌<<<◌}

-- The largest size that the three size bytes hold beside the flag.
abbrev pub size_limit : ℕ
size_limit = 0x80_0000

pub s2c_header_short :
    (opcode size : ℕ)
    → size ≤ 0x7fff
    → s2c_header opcode size
      ≡ (size / 256) ∷ (size % 256) ∷ (opcode % 256) ∷ (opcode / 256 % 256) ∷ []
unfolding s2c_header
s2c_header_short opcode size h = ground arith

pub s2c_header_long :
    (opcode size : ℕ)
    → 0x7fff < size
    → size < size_limit
    → s2c_header opcode size
      ≡ (128 + size / 65536)
        ∷ (size / 256 % 256)
        ∷ (size % 256)
        ∷ (opcode % 256)
        ∷ (opcode / 256 % 256)
        ∷ []
unfolding s2c_header
s2c_header_long opcode size h lt = ground (arith, bit_or-top (size / 65536 % 256))

-- Two bytes, and three, put together by shifts and `|`.
pub two_bytes : (hi lo : ℕ) → lo < 256 → bit_or (hi <<< 8) lo ≡ hi * 256 + lo
two_bytes hi lo h = bit_or-fields 8 hi lo h

pub three_bytes :
    (top hi lo : ℕ)
    → hi < 256
    → lo < 256
    → bit_or (bit_or (top <<< 16) (hi <<< 8)) lo ≡ top * 65536 + hi * 256 + lo
three_bytes top hi lo hh hl = ground (
  arith,
  bit_or-fields 16 top (hi * 256) (omega arith),
  bit_or-fields 8 (top * 256 + hi) lo (omega arith),
)

pub low_first : (hi lo : ℕ) → lo < 256 → bit_or lo (hi <<< 8) ≡ hi * 256 + lo
low_first hi lo h = bit_or-fields_low 8 hi lo h

-- The test of the flag, and the size bits beside it.
pub flag_clear : (b : ℕ) → b < 128 → (bit_and b 0x80 == 0) ≡ true
flag_clear b h = ground (arith, bit_and-top b (omega arith))

pub flag_set : (b : ℕ) → b < 128 → (bit_and (128 + b) 0x80 == 0) ≡ false
flag_set b h = ground (arith, bit_and-top (128 + b) (omega arith))

pub beside_flag : (b : ℕ) → b < 128 → bit_and (128 + b) 0x7f ≡ b
beside_flag b h = bit_and-low_bits b h

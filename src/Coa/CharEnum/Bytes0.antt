-- ===== src/Coa/CharEnum/Bytes0.antt =====
-- The fields of `UNIT_FIELD_BYTES_0`.
use ascension_preservation.Common.{ℕ, ◌+◌, ◌*◌, ◌%◌, ◌^◌, ◌≡◌, [], ◌∷◌, arith}
use ascension_preservation.Common.Bytes.{un_le}
use ascension_preservation.Common.Bits.{bit_or-fields_low}
use ascension_preservation.Coa.CharEnum.{bytes0_for}

-- The dword is the little-endian number of its four bytes: the race, the class, the gender and the power,
-- each cut to a byte.
pub bytes0_for-un_le :
    (race clas gender power : ℕ)
    → bytes0_for race clas gender power
      ≡ un_le (race % 256 ∷ clas % 256 ∷ gender % 256 ∷ power % 256 ∷ [])
unfolding bytes0_for
bytes0_for-un_le race clas gender power =
    let first = bit_or-fields_low 8 (clas % 256) (race % 256) (omega arith) in
    let low = clas % 256 * 2 ^ 8 + race % 256 in
    let second =
      bit_or-fields_low 16 (gender % 256) (clas % 256 * 2 ^ 8 + race % 256) (omega arith) in
    let third =
      bit_or-fields_low 24 (power % 256) (gender % 256 * 2 ^ 16 + (clas % 256 * 2 ^ 8 + race % 256))
        (omega arith) in
    rw (first, second, third) (omega arith)

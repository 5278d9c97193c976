-- ===== src/World/Objects.antt =====
-- Object ids and fields on the wire, in server/world_server.py: `next_guid`, `pack_guid`,
-- `build_values_block`, `build_values_update` and `parse_spell_targets`.
pub mod Guids
mod Tests
use ascension_preservation.Common.{
  ℕ, zero, suc, ◌+◌, ◌*◌, ◌/◌, ◌%◌, ◌^◌, Bool, Option, none, some, List, [], ◌∷◌, ◌++◌, length,
  take, drop, max, get_or, set, replicate, bit_and, bit_or, ◌||◌, ltb, leb, ◌==◌, if◌then◌else◌,
  Result, ok, err, value_error, ◌>>=◌,
}
use ascension_preservation.Common.Bytes.{Bytes, le, un_le, pack}
use ascension_preservation.Common.Dict.{Dict, sort}

-- The guids of one account's characters, and of all of them.
pub highest : ℕ → List ℕ → ℕ
highest hi [] = hi
highest hi (g ∷ gs) = highest (max hi g) gs

pub highest_of_all : ℕ → List (List ℕ) → ℕ
highest_of_all hi [] = hi
highest_of_all hi (chars ∷ db) = highest_of_all (highest hi chars) db

pub next_guid : List (List ℕ) → ℕ
next_guid db = highest_of_all 0 db + 1

-- The mask and the bytes of `n` more bytes of a guid, from byte `i` on; `g` is the guid shifted
-- down to there.
unfoldable pub guid_parts : ℕ → ℕ → ℕ → ℕ × Bytes
guid_parts zero i g = (0, [])
guid_parts (suc n) i g =
    let (mask, parts) = guid_parts n (i + 1) (g / 256) in
    if g % 256 == 0 then (mask, parts) else (bit_or (2 ^ i) mask, (g % 256) ∷ parts)

unfoldable pub pack_guid : ℕ → Bytes
pack_guid guid = let (mask, parts) = guid_parts 8 0 guid in mask ∷ parts

-- The loop of `parse_spell_targets`; `none` where the bytes run out.
pub read_part : Bytes → (ℕ → Bytes → Option ℕ) → Option ℕ
read_part [] more = none
read_part (x ∷ blob) more = more x blob

pub read_parts : ℕ → ℕ → ℕ → Bytes → ℕ → Option ℕ
read_parts zero i bits blob guid = some guid
read_parts (suc n) i bits blob guid =
    let absent = read_parts n (i + 1) bits blob guid in
    let present =
      read_part blob (λ x rest. read_parts n (i + 1) bits rest (bit_or guid (x * 2 ^ (8 * i)))) in
    if bit_and bits (2 ^ i) == 0 then absent else present

abbrev pub packed_first : ℕ
packed_first = 0x1_8a02

abbrev pub or_zero : Option ℕ → ℕ
or_zero none = 0
or_zero (some g) = g

pub read_target : Bytes → ℕ
read_target [] = 0
read_target (bits ∷ blob) = or_zero (read_parts 8 0 bits blob 0)

pub parse_spell_targets : Bytes → ℕ × ℕ
parse_spell_targets blob =
    let mask = un_le (take 4 blob) in
    if ltb (length blob) 4
    then (0, 0)
    else if bit_and mask packed_first == 0
    then (mask, 0)
    else (mask, read_target (drop 4 blob))

-- `mask[idx // 32] |= (1 << (idx % 32))` for each field.
pub field_mask : Dict Bytes → List ℕ → List ℕ
field_mask [] mask = mask
field_mask ((idx, v) ∷ fields) mask =
    field_mask fields (set mask (idx / 32) (bit_or (get_or mask (idx / 32) 0) (2 ^ (idx % 32))))

pub pack_masks : List ℕ → Result Bytes
pack_masks [] = ok []
pack_masks (m ∷ ms) = do b ← pack 4 m; rest ← pack_masks ms; ok (b ++ rest)

pub join_values : Dict Bytes → Bytes
join_values [] = []
join_values ((idx, v) ∷ fields) = v ++ join_values fields

pub max_field : Dict Bytes → ℕ
max_field [] = 0
max_field ((idx, v) ∷ fields) = max idx (max_field fields)

-- `max` of no fields raises, and so does a block count over 255.
pub build_values_block : Dict Bytes → ℕ → Result Bytes
build_values_block fields field_count =
    let nblocks = max (max_field fields / 32 + 1) ((field_count + 31) / 32) in
    let body = (do
      masks ← pack_masks (field_mask fields (replicate nblocks 0))
      ok (nblocks ∷ (masks ++ join_values (sort fields)))) in
    if length fields == 0 || ltb 255 nblocks then err value_error else body

-- One UPDATETYPE_VALUES block.
pub build_values_update : ℕ → Dict Bytes → ℕ → Result Bytes
build_values_update guid fields field_count = do
  block ← build_values_block fields field_count
  ok (le 4 1 ++ (0 ∷ (pack_guid guid ++ block)))

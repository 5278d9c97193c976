-- ===== src/World/Packets/Auras.antt =====
-- Auras, periodic ticks, damage, healing and casts. Times are in milliseconds.
pub mod Length
use ascension_preservation.Common.{
  ℕ, ◌+◌, ◌-◌, ◌%◌, ◌^◌, Bool, true, false, Option, none, some, List, [], ◌∷◌, ◌++◌, length, take,
  drop, get_or, max, bit_and, ltb, ◌==◌, not, if◌then◌else◌, Result, ok, ◌>>=◌,
}
use ascension_preservation.Common.Bytes.{Bytes, un_le}
use ascension_preservation.World.Combat.{Aura}
use ascension_preservation.World.Combat.Effects.{Kind, inert, harm, help, power, kind_of}
use ascension_preservation.World.Objects.{pack_guid}
use ascension_preservation.World.Packets.{Field, u8, u32, u64, raw, write_fields}

unfoldable pub smsg_spell_damage_log : ℕ → ℕ → ℕ → ℕ → ℕ → ℕ → Result Bytes
smsg_spell_damage_log target caster spell damage overkill school_mask = write_fields (
    raw (pack_guid target)
    ∷ raw (pack_guid caster)
    ∷ u32 spell
    ∷ u32 damage
    ∷ u32 overkill
    ∷ u8 school_mask
    ∷ u32 0
    ∷ u32 0
    ∷ u8 0
    ∷ u8 0
    ∷ u32 0
    ∷ u32 0
    ∷ u8 0
    ∷ [])

unfoldable pub smsg_spell_heal_log : ℕ → ℕ → ℕ → ℕ → ℕ → Result Bytes
smsg_spell_heal_log target caster spell heal overheal = write_fields (
    raw (pack_guid target)
    ∷ raw (pack_guid caster)
    ∷ u32 spell
    ∷ u32 heal
    ∷ u32 overheal
    ∷ u32 0
    ∷ u8 0
    ∷ u8 0
    ∷ [])

abbrev pub aflag_caster : ℕ
aflag_caster = 8

abbrev pub aflag_duration : ℕ
aflag_duration = 32

unfoldable pub aura_remaining_ms : ℕ → Aura → ℕ
aura_remaining_ms now a = remaining a.expires
  where
    remaining : Option ℕ → ℕ
    remaining none = a.maxdur_ms
    remaining (some e) = e - now

unfoldable pub caster_tail : Aura → List Field
caster_tail a = if bit_and a.flags aflag_caster == 0 then raw (pack_guid a.caster) ∷ [] else []

unfoldable pub duration_tail : ℕ → Aura → List Field
duration_tail now a =
    if bit_and a.flags aflag_duration == 0
    then []
    else u32 a.maxdur_ms ∷ u32 (aura_remaining_ms now a) ∷ []

-- `removing` is `aura.get("removing")`.
unfoldable pub smsg_aura_update : ℕ → ℕ → Bool → Aura → Result Bytes
smsg_aura_update now target removing a =
    if removing
    then write_fields (raw (pack_guid target) ∷ u8 a.slot ∷ u32 0 ∷ [])
    else write_fields (
        (raw (pack_guid target)
          ∷ u8 a.slot
          ∷ u32 a.spell
          ∷ u8 a.flags
          ∷ u8 a.level
          ∷ u8 (max 1 a.stacks)
          ∷ [])
        ++ (caster_tail a ++ duration_tail now a))

-- What follows the type of the aura; an aura of another type is not logged.
unfoldable pub periodic_tail : Kind → ℕ → ℕ → ℕ → Option (List Field)
periodic_tail harm amount overflow school_mask =
    some (u32 amount ∷ u32 overflow ∷ u32 school_mask ∷ u32 0 ∷ u32 0 ∷ u8 0 ∷ [])
periodic_tail help amount overflow school_mask =
    some (u32 amount ∷ u32 overflow ∷ u32 0 ∷ u8 0 ∷ [])
periodic_tail power amount overflow school_mask = some (u32 0 ∷ u32 amount ∷ [])
periodic_tail inert amount overflow school_mask = none

unfoldable pub with_tail : List Field → Option (List Field) → Result Bytes
with_tail head none = ok []
with_tail head (some tail) = write_fields (head ++ tail)

unfoldable pub smsg_periodic_aura_log : ℕ → ℕ → ℕ → ℕ → ℕ → ℕ → ℕ → Result Bytes
smsg_periodic_aura_log target caster spell aura_type amount overflow school_mask =
    with_tail
      (raw (pack_guid target) ∷ raw (pack_guid caster) ∷ u32 spell ∷ u32 1 ∷ u32 aura_type ∷ [])
      (periodic_tail (kind_of aura_type) amount overflow school_mask)

-- The number of casts, the spell, the flags and the targets.
unfoldable pub parse_cmsg_cast_spell : Bytes → ℕ × ℕ × ℕ × Bytes
parse_cmsg_cast_spell body =
    if ltb (length body) 6
    then (0, 0, 0, [])
    else (get_or body 0 0, un_le (take 4 (drop 1 body)), get_or body 5 0, drop 6 body)

-- Nobody is hit by guid 0; no targets are an empty mask.
unfoldable pub smsg_spell_go : ℕ → ℕ → ℕ → ℕ → Bytes → ℕ → Result Bytes
smsg_spell_go now guid cast_count spell targets hit = write_fields (
    raw (pack_guid guid)
    ∷ raw (pack_guid guid)
    ∷ u8 cast_count
    ∷ u32 spell
    ∷ u32 0x100
    ∷ u32 (now % 2 ^ 32)
    ∷ u8 1
    ∷ u64 (if hit == 0 then guid else hit)
    ∷ u8 0
    ∷ (if length targets == 0 then u32 0 else raw targets)
    ∷ [])

unfoldable pub smsg_cast_failed : ℕ → ℕ → ℕ → Result Bytes
smsg_cast_failed cast_count spell result = write_fields (u8 cast_count ∷ u32 spell ∷ u8 result ∷ [])

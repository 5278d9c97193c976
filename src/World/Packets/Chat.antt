-- ===== src/World/Packets/Chat.antt =====
-- Messages, names, the realm and its configuration. A text is given by its UTF-8 bytes, a float by the
-- number whose 32 bits it has.
pub mod Configs
use ascension_preservation.Common.{
  ℕ, ◌+◌, ◌%◌, ◌^◌, Bool, true, false, List, [], ◌∷◌, ◌++◌, length, map, replicate, take, ◌-◌,
  if◌then◌else◌, Result, ok, ◌>>=◌,
}
use ascension_preservation.Common.Bytes.{Bytes, pack}
use ascension_preservation.World.Objects.{pack_guid}
use ascension_preservation.World.Packets.{Field, u8, u16, u32, u64, raw, cstring, write_fields}

unfoldable pub smsg_system_message : Bytes → Result Bytes
smsg_system_message text =
    write_fields
      (u8 0 ∷ u32 0 ∷ u64 0 ∷ u32 0 ∷ u64 0 ∷ u32 (length text + 1) ∷ cstring text ∷ u8 0 ∷ [])

-- 7 is `CHAT_MSG_WHISPER`; the language is `LANG_ADDON`.
unfoldable pub smsg_addon_whisper : ℕ → Bytes → Result Bytes
smsg_addon_whisper guid text = write_fields (
    u8 7
    ∷ u32 0xffff_ffff
    ∷ u64 guid
    ∷ u32 0
    ∷ u64 guid
    ∷ u32 (length text + 1)
    ∷ cstring text
    ∷ u8 0
    ∷ [])

unfoldable pub smsg_motd : List Bytes → Result Bytes
smsg_motd lines = write_fields (u32 (length lines) ∷ map cstring lines)

unfoldable pub smsg_name_query_response : ℕ → Bytes → ℕ → ℕ → ℕ → Result Bytes
smsg_name_query_response guid name race gender class =
    write_fields (
      raw (pack_guid guid)
      ∷ u8 0
      ∷ cstring name
      ∷ u8 0
      ∷ u8 race
      ∷ u8 gender
      ∷ u8 class
      ∷ u8 0
      ∷ [])

abbrev zeros : ℕ → Field
zeros n = raw (replicate n 0)

-- `flags` are the eight bytes of the realm's flavour, cut or filled up.
unfoldable pub smsg_realm_info : Bytes → ℕ → ℕ → ℕ → Bytes → ℕ → ℕ → Result Bytes
smsg_realm_info realm_name realm_type gate valid_tag flags field18 trailing = write_fields (
    u32 valid_tag
    ∷ u32 realm_type
    ∷ zeros 12
    ∷ u32 field18
    ∷ zeros 8
    ∷ u32 0
    ∷ raw (take 8 flags ++ replicate (8 - length flags) 0)
    ∷ cstring realm_name
    ∷ u8 0
    ∷ u8 gate
    ∷ u32 trailing
    ∷ [])

module _ {V : Type 0} (pack_value : V → Field) where
  unfoldable pub config_entries : List (Bytes × V) → List Field
  config_entries [] = []
  config_entries ((key, v) ∷ es) = u32 (length key) ∷ raw key ∷ pack_value v ∷ config_entries es

  -- `_config_section`
  unfoldable pub config_section : List (Bytes × V) → Result Bytes
  config_section entries = write_fields (u32 (length entries) ∷ config_entries entries)

-- An `int` or the bits of a float.
abbrev pub int_value : ℕ → Field
int_value v = u32 (v % 2 ^ 32)

abbrev pub bool_value : Bool → Field
bool_value b = u8 (if b then 1 else 0)

unfoldable pub smsg_update_configs :
    List (Bytes × ℕ) → List (Bytes × Bool) → List (Bytes × ℕ) → List (Bytes × ℕ) → Result Bytes
smsg_update_configs ints bools floats floats2 = do
  a ← config_section int_value ints
  b ← config_section bool_value bools
  c ← config_section int_value floats
  d ← config_section int_value floats2
  ok (a ++ (b ++ (c ++ d)))

-- `spells` are those that `ca_known_spells` lists.
unfoldable pub spell_fields : List ℕ → List Field
spell_fields [] = []
spell_fields (s ∷ ss) = u32 s ∷ u16 0 ∷ spell_fields ss

unfoldable pub smsg_initial_spells : List ℕ → Result Bytes
smsg_initial_spells spells =
    write_fields (u8 0 ∷ u16 (length spells) ∷ (spell_fields spells ++ u16 0 ∷ []))

unfoldable pub smsg_learned_spell : ℕ → Result Bytes
smsg_learned_spell spell = write_fields (u32 spell ∷ u16 0 ∷ [])

unfoldable pub smsg_removed_spell : ℕ → Result Bytes
smsg_removed_spell spell = write_fields (u32 spell ∷ [])

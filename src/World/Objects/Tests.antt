-- ===== src/World/Objects/Tests.antt =====
-- A cast at a dummy, and two accounts.
use ascension_preservation.Common.{◌≡◌, refl, [], ◌∷◌, ◌++◌, arith}
use ascension_preservation.Common.Bytes.{le}
use ascension_preservation.World.Objects.{pack_guid, parse_spell_targets}
use ascension_preservation.World.Objects.Guids.{parse_spell_targets-pack_guid}

parse_spell_targets-pack_guid_example :
    parse_spell_targets (le 4 2 ++ (pack_guid 0xf130_0000_0000_0001 ++ (9 ∷ [])))
    ≡ (2, 0xf130_0000_0000_0001)
parse_spell_targets-pack_guid_example =
    parse_spell_targets-pack_guid 2 0xf130_0000_0000_0001 (9 ∷ []) (omega arith) (omega arith) refl

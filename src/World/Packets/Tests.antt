-- ===== src/World/Packets/Tests.antt =====
-- Concrete packets.
use ascension_preservation.Common.{◌≡◌, refl, true, false, some, List, [], ◌∷◌}
use ascension_preservation.Common.Bytes.{Bytes, pack}
use ascension_preservation.World.Combat.{Aura}
use ascension_preservation.World.Packets.{write_field, write_fields}
use ascension_preservation.World.Packets.Builds.{ClassType}
use ascension_preservation.World.Packets.Chat.{smsg_update_configs, config_section, config_entries}
use ascension_preservation.World.Packets.Chat.Configs.{
  read_configs, cut, read_configs-smsg_update_configs,
}

read_configs_example :
    read_configs (
      1 ∷ 0 ∷ 0 ∷ 0 ∷ 1 ∷ 0 ∷ 0 ∷ 0 ∷ 65 ∷ 7 ∷ 0 ∷ 0 ∷ 0 ∷ 1 ∷ 0 ∷ 0 ∷ 0 ∷ 1 ∷ 0 ∷ 0 ∷ 0 ∷ 66 ∷ 1
      ∷ 0 ∷ 0 ∷ 0 ∷ 0 ∷ 0 ∷ 0 ∷ 0 ∷ 0 ∷ [])
    ≡ some (cut ((65 ∷ [], 7) ∷ []), (66 ∷ [], true) ∷ [], cut [], cut [], [])
unfolding smsg_update_configs config_section write_fields write_field pack config_entries
read_configs_example =
    read_configs-smsg_update_configs ((65 ∷ [], 7) ∷ []) ((66 ∷ [], true) ∷ []) [] []
      (1 ∷ 0 ∷ 0 ∷ 0 ∷ 1 ∷ 0 ∷ 0 ∷ 0 ∷ 65 ∷ 7 ∷ 0 ∷ 0 ∷ 0 ∷ 1 ∷ 0 ∷ 0 ∷ 0 ∷ 1 ∷ 0 ∷ 0 ∷ 0 ∷ 66 ∷ 1
        ∷ 0 ∷ 0 ∷ 0 ∷ 0 ∷ 0 ∷ 0 ∷ 0 ∷ 0 ∷ [])
      refl

abbrev a_renewal : Aura
a_renewal = record {
  spell = 139;
  slot = 0;
  caster = 7;
  target = 9;
  flags = 0x31;
  level = 80;
  stacks = 1;
  maxdur_ms = 15000;
  school = 2;
  expires = some 20000;
  ticks = [];
}

abbrev sent_update : Bytes
sent_update =
    1 ∷ 9 ∷ 0 ∷ 139 ∷ 0 ∷ 0 ∷ 0 ∷ 0x31 ∷ 80 ∷ 1 ∷ 1 ∷ 7 ∷ 0x98 ∷ 0x3a ∷ 0 ∷ 0 ∷ 0x10 ∷ 0x27 ∷ 0 ∷ 0
    ∷ []

abbrev sent_tick : Bytes
sent_tick =
    1 ∷ 9 ∷ 1 ∷ 7 ∷ 139 ∷ 0 ∷ 0 ∷ 0 ∷ 1 ∷ 0 ∷ 0 ∷ 0 ∷ 24 ∷ 0 ∷ 0 ∷ 0 ∷ 0 ∷ 0 ∷ 0 ∷ 0 ∷ 50 ∷ 0 ∷ 0
    ∷ 0 ∷ []

abbrev some_types : List ClassType
some_types =
    record { type_id = 3; required = 28; classic = false }
    ∷ record { type_id = 4; required = 0; classic = true }
    ∷ []

-- ===== src/World/Combat/Tests.antt =====
-- A mage of level 10 with a periodic aura, and a dummy.
use ascension_preservation.Common.{◌≡◌, refl, false, some, [], ◌∷◌, arith, All}
use ascension_preservation.Common.Dict.{get}
use ascension_preservation.World.Combat.{Character, Combat, Tick, Aura, max_pools, power_for}
use ascension_preservation.World.Combat.Auras.{
  SpellInfo, free_aura_slot, own_slot, reuse, lowest_free, first_free,
}
use ascension_preservation.World.Combat.Auras.Slots.{Placed, free_aura_slot_lem}
use ascension_preservation.World.Combat.Auras.Clock.{
  run_ticks, is_due, aura_tick, run_ticks-settles,
}
use ascension_preservation.World.Combat.Within.{IsWithin}
use ascension_preservation.World.Combat.Within.Clocked.{aura_tick-IsWithin}

abbrev mage : Character
mage = record { guid = 1; level = 10; class = 8 }

abbrev burn : Tick
burn = record { index = 0; aura = 3; amount = 40; period = 1000; next = 1500 }

abbrev burning : Aura
burning = record {
  spell = 133;
  slot = 0;
  caster = 1;
  target = 7;
  flags = 0xa1;
  level = 10;
  stacks = 1;
  maxdur_ms = 8000;
  school = 4;
  expires = some 8500;
  ticks = burn ∷ [];
}

abbrev test_combat : Combat
test_combat = record {
  units = (1, record { hp = 300; power = 20 }) ∷ [];
  dummies = (7, record { hp = 100; maxhp = 200; hit = 0 }) ∷ [];
  dummy_seq = 1;
  auras = (7, (0, burning) ∷ []) ∷ [];
  last_tick = 0;
}

abbrev bomb : SpellInfo
bomb = record {
  id = 801005;
  school_mask = 4;
  stack_amount = 0;
  duration_ms = 6000;
  no_duration_display = false;
  effects =
      record { effect = 2; aura = 0; amplitude = 0; amount = 150 }
      ∷ record { effect = 6; aura = 3; amplitude = 2000; amount = 10 }
      ∷ [];
}

test_combat-IsWithin : IsWithin mage test_combat
test_combat-IsWithin = record {
  dummies = (omega arith, tt);
  own = unfold get max_pools power_for in (omega arith, omega arith);
}

aura_tick-IsWithin_example : IsWithin mage (aura_tick 4000 mage test_combat).1
aura_tick-IsWithin_example = aura_tick-IsWithin 4000 mage test_combat test_combat-IsWithin

run_ticks-settles_example :
    All (λ t. is_due 4000 burning t ≡ false) (run_ticks 4000 mage burning (burn ∷ []) test_combat).1
run_ticks-settles_example =
    run_ticks-settles 4000 mage burning (burn ∷ []) test_combat (omega arith, tt)

-- Another spell takes the slot after it.
next_slot : free_aura_slot 801005 1 ((0, burning) ∷ []) ≡ some 1
unfolding free_aura_slot own_slot reuse lowest_free first_free get
next_slot = refl

-- The same spell again takes the slot it has.
free_aura_slot_example : Placed 133 1 ((0, burning) ∷ []) (free_aura_slot 133 1 ((0, burning) ∷ []))
free_aura_slot_example = free_aura_slot_lem 133 1 ((0, burning) ∷ []) (unfold get in (refl, tt))

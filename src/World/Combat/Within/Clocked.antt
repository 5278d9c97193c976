-- ===== src/World/Combat/Within/Clocked.antt =====
-- The bounds through whole operations: a cast, the clock of the auras, regeneration and the dummies.
use ascension_preservation.Common.{
  ℕ, zero, suc, ◌+◌, ◌≡◌, refl, Bool, true, false, ◌&&◌, not, Option, none, some, List, [], ◌∷◌,
  ltb, leb, ◌==◌, arith, Bool-cases, inl, inr,
}
use ascension_preservation.Common.Dict.{Dict, get}
use ascension_preservation.World.Combat.{
  Character, Combat, Tick, Aura, max_pools, unit_state, regen_tick,
}
use ascension_preservation.World.Combat.Effects.{aura_periodic_apply, kind_of}
use ascension_preservation.World.Combat.Auras.{
  SpellInfo, Effect, apply_aura, place_aura, remove_aura, take_off, aura_effects,
}
use ascension_preservation.World.Combat.Auras.Clock.{
  catch_up, run_ticks, store_aura, advance_aura, advance_target, advance_all, aura_tick, is_past,
  is_over,
}
use ascension_preservation.World.Combat.Cast.{run_effects, apply_spell_effects}
use ascension_preservation.World.Combat.Within.{
  IsWithin, apply_tick-IsWithin, direct_damage-IsWithin, direct_heal-IsWithin, unit_state-IsWithin,
  send_power_update-IsWithin,
}

-- The auras do not matter to the bounds.
auras-IsWithin :
    (c : Character) (w : Combat) (held : Dict (Dict Aura))
    → IsWithin c w
    → IsWithin c (record w { auras = held })
auras-IsWithin c w held h = record { dummies = h.dummies; own = h.own }

place_aura-IsWithin :
    (now : ℕ) (c : Character) (info : SpellInfo) (tgt : ℕ) (held : Dict Aura) (o : Option ℕ)
    (w : Combat)
    → IsWithin c w
    → IsWithin c (place_aura now c info tgt held o w).1
unfolding place_aura
place_aura-IsWithin now c info tgt held none w h = auras-IsWithin c w _ h
place_aura-IsWithin now c info tgt held (some slot) w h = auras-IsWithin c w _ h

apply_aura-IsWithin :
    (now : ℕ) (c : Character) (info : SpellInfo) (target_guid : ℕ) (w : Combat)
    → IsWithin c w
    → IsWithin c (apply_aura now c info target_guid w).1
unfolding apply_aura
apply_aura-IsWithin now c info target_guid w h =
    elim (Bool-cases ((aura_effects 0 info.effects).0 == 0)) [
      | inl nothing ↦ rw nothing h
      | inr auras ↦ rw auras (place_aura-IsWithin now c info _ _ _ w h)
    ]

take_off-IsWithin :
    (c : Character) (tgt slot : ℕ) (held : Dict Aura) (o : Option Aura) (w : Combat)
    → IsWithin c w
    → IsWithin c (take_off tgt slot held o w).1
unfolding take_off
take_off-IsWithin c tgt slot held none w h = h
take_off-IsWithin c tgt slot held (some a) w h = auras-IsWithin c w _ h

remove_aura-IsWithin :
    (c : Character) (tgt slot : ℕ) (w : Combat)
    → IsWithin c w
    → IsWithin c (remove_aura tgt slot w).1
unfolding remove_aura
remove_aura-IsWithin c tgt slot w h = take_off-IsWithin c tgt slot _ _ w h

run_effects-IsWithin :
    (now : ℕ) (c : Character) (info : SpellInfo) (tgt : ℕ) (aura_done : Bool) (es : List Effect)
    (w : Combat)
    → IsWithin c w
    → IsWithin c (run_effects now c info tgt aura_done es w).1
unfolding run_effects
run_effects-IsWithin now c info tgt aura_done [] w h = h
run_effects-IsWithin now c info tgt aura_done (e ∷ es) w h =
    let hurt = direct_damage-IsWithin now c info tgt (get tgt w.dummies) e.amount w refl h in
    let healed = direct_heal-IsWithin c info tgt (get tgt w.dummies) e.amount w refl h in
    elim (Bool-cases (e.effect == 2 && not (e.amount == 0))) [
      | inl damage ↦ rw damage (run_effects-IsWithin now c info tgt aura_done es _ hurt)
      | inr not_damage ↦ elim (Bool-cases (e.effect == 6 && not aura_done)) [
        | inl aura ↦
            rw (not_damage, aura)
              (run_effects-IsWithin now c info tgt true es _
                (apply_aura-IsWithin now c info tgt w h))
        | inr not_aura ↦ elim (Bool-cases (e.effect == 10 && not (e.amount == 0))) [
          | inl heals ↦
              rw (not_damage, not_aura, heals)
                (run_effects-IsWithin now c info tgt aura_done es _ healed)
          | inr none_ ↦
              rw (not_damage, not_aura, none_)
                (run_effects-IsWithin now c info tgt aura_done es w h)
        ]
      ]
    ]

-- Whatever a spell does, on whatever target, no dummy then has more health than its maximum, and
-- the character has no more health and power than his pools.
pub apply_spell_effects-IsWithin :
    (now : ℕ) (c : Character) (info : Option SpellInfo) (tgt : ℕ) (w : Combat)
    → IsWithin c w
    → IsWithin c (apply_spell_effects now c info tgt w).1
unfolding apply_spell_effects
apply_spell_effects-IsWithin now c none tgt w h = h
apply_spell_effects-IsWithin now c (some info) tgt w h =
    run_effects-IsWithin now c info tgt false info.effects w h

aura_periodic_apply-IsWithin :
    (now : ℕ) (c : Character) (a : Aura) (t : Tick) (w : Combat)
    → IsWithin c w
    → IsWithin c (aura_periodic_apply now c a t w).1
unfolding aura_periodic_apply
aura_periodic_apply-IsWithin now c a t w h =
    apply_tick-IsWithin (kind_of t.aura) now c a t w (get a.target w.dummies) refl h

catch_up-IsWithin :
    (fuel now : ℕ) (c : Character) (a : Aura) (t : Tick) (w : Combat)
    → IsWithin c w
    → IsWithin c (catch_up fuel now c a t w).2
unfolding catch_up
catch_up-IsWithin zero now c a t w h = h
catch_up-IsWithin (suc fuel) now c a t w h =
    elim (Bool-cases (leb t.next now && not (is_past a.expires t.next))) [
      | inl due ↦
          rw due (catch_up-IsWithin fuel now c a _ _ (aura_periodic_apply-IsWithin now c a t w h))
      | inr not_due ↦ rw not_due h
    ]

run_ticks-IsWithin :
    (now : ℕ) (c : Character) (a : Aura) (ts : List Tick) (w : Combat)
    → IsWithin c w
    → IsWithin c (run_ticks now c a ts w).2
unfolding run_ticks
run_ticks-IsWithin now c a [] w h = h
run_ticks-IsWithin now c a (t ∷ ts) w h =
    run_ticks-IsWithin now c a ts _ (catch_up-IsWithin (suc now) now c a t w h)

advance_aura-IsWithin :
    (now : ℕ) (c : Character) (tgt slot : ℕ) (a : Aura) (w : Combat)
    → IsWithin c w
    → IsWithin c (advance_aura now c tgt slot a w).1
unfolding advance_aura store_aura
advance_aura-IsWithin now c tgt slot a w h =
    let stored = auras-IsWithin c _ _ (run_ticks-IsWithin now c a a.ticks w h) in
    elim (Bool-cases (is_over now a.expires)) [
      | inl over ↦ rw over (remove_aura-IsWithin c tgt slot _ stored)
      | inr lasts ↦ rw lasts stored
    ]

advance_target-IsWithin :
    (now : ℕ) (c : Character) (tgt : ℕ) (held : Dict Aura) (w : Combat)
    → IsWithin c w
    → IsWithin c (advance_target now c tgt held w).1
unfolding advance_target
advance_target-IsWithin now c tgt [] w h = h
advance_target-IsWithin now c tgt ((slot, a) ∷ held) w h =
    advance_target-IsWithin now c tgt held _ (advance_aura-IsWithin now c tgt slot a w h)

advance_all-IsWithin :
    (now : ℕ) (c : Character) (table : Dict (Dict Aura)) (w : Combat)
    → IsWithin c w
    → IsWithin c (advance_all now c table w).1
unfolding advance_all
advance_all-IsWithin now c [] w h = h
advance_all-IsWithin now c ((tgt, held) ∷ rest) w h =
    advance_all-IsWithin now c rest _ (advance_target-IsWithin now c tgt held w h)

-- However many ticks are due, of whatever kind, the same holds after `aura_tick`.
pub aura_tick-IsWithin :
    (now : ℕ) (c : Character) (w : Combat) → IsWithin c w → IsWithin c (aura_tick now c w).1
unfolding aura_tick
aura_tick-IsWithin now c w h = elim (Bool-cases (ltb now (w.last_tick + 100))) [
  | inl soon ↦ rw soon h
  | inr due ↦
      rw due (advance_all-IsWithin now c w.auras _ (record { dummies = h.dummies; own = h.own }))
]

leb-ltb : (m n : ℕ) → leb n m ≡ true → false ≡ ltb m n
leb-ltb m n h = ground (arith, h)

not_leb-ltb : (m n : ℕ) → leb n m ≡ false → true ≡ ltb m n
not_leb-ltb m n h = ground (arith, h)

-- Regeneration keeps the bounds too, and its answer is whether power was missing.
pub regen_tick-IsWithin :
    (c : Character) (w : Combat)
    → IsWithin c w
    → IsWithin c (regen_tick c w).2
      × ((regen_tick c w).0 ≡ ltb (unit_state c w).0.power (max_pools c).1)
unfolding regen_tick
regen_tick-IsWithin c w h =
    let (hs, hw) = unit_state-IsWithin c w h.dummies in
    elim (Bool-cases (leb (max_pools c).1 (unit_state c w).0.power)) [
      | inl full ↦ rw full (hw, leb-ltb _ _ full)
      | inr missing ↦
          rw missing (send_power_update-IsWithin c _ hw.dummies, not_leb-ltb _ _ missing)
    ]

-- ===== src/World/Combat/Within.antt =====
-- Health and power stay within their bounds.
pub mod Clocked
use ascension_preservation.Common.{
  ℕ, ◌+◌, ◌-◌, ◌*◌, ◌/◌, ◌≤◌, ◌≡◌, refl, sym, ap, ◌∙◌, Bool, true, false, Option, none, some, List,
  [], ◌∷◌, min, max, ltb, leb, ◌==◌, if◌then◌else◌, arith, All, Bool-cases, Option-cases, inl, inr,
  ==_iff,
}
use ascension_preservation.Common.Dict.{Dict, get, put, get_default, get-put}
use ascension_preservation.World.Combat.{
  Character, Combat, Pools, Dummy, Packet, Tick, Aura, max_pools, unit_state, send_power_update,
  regen_tick, spawn_dummy, despawn_dummies, reset_dummies, dummy_tick,
}
use ascension_preservation.World.Combat.Effects.{
  hurt_dummy, heal_dummy, change_self, hurt_self, heal_self, gain_power, Kind, harm, help, power,
  inert, apply_tick, aura_periodic_apply, kind_of,
}
use ascension_preservation.World.Combat.Cast.{
  direct_damage, direct_heal, run_effects, apply_spell_effects,
}
use ascension_preservation.World.Combat.Auras.{
  apply_aura, place_aura, aura_effects, free_aura_slot, aura_target, SpellInfo, Effect,
}

-- Every entry of a dictionary.
All-put :
    {V : Type 0} (P : V → Type 0) (k : ℕ) (v : V) (d : Dict V)
    → All (λ e. P e.1) d
    → P v
    → All (λ e. P e.1) (put k v d)
unfolding put
All-put P k v [] h hv = (hv, tt)
All-put P k v ((j, u) ∷ d) (hu, h) hv = elim (Bool-cases (j == k)) [
  | inl same ↦ rw same (hv, h)
  | inr other ↦ rw other (hu, All-put P k v d h hv)
]

All-get :
    {V : Type 0} (P : V → Type 0) (k : ℕ) (d : Dict V) {v : V}
    → All (λ e. P e.1) d
    → get k d ≡ some v
    → P v
unfolding get
All-get P k [] {v} h e = cc
All-get P k ((j, u) ∷ d) {v} (hu, h) e = elim (Bool-cases (j == k)) [
  | inl same ↦ (let f : some u ≡ some v = rw same at e in let g : u ≡ v = cc f in rw (← g) hu)
  | inr other ↦ All-get P k d h (rw other at e)
]

-- A dummy has no more health than its maximum.
abbrev pub IsWhole : Dummy → Type 0
IsWhole d = d.hp ≤ d.maxhp

-- The character has no more than his pools.
abbrev pub IsFull : Character → Pools → Type 0
IsFull c st = (st.hp ≤ (max_pools c).0) × (st.power ≤ (max_pools c).1)

abbrev full : Character → Pools
full c = record { hp = (max_pools c).0; power = (max_pools c).1 }

-- Every dummy, and the character as he is entered.
pub record IsWithin (c : Character) (w : Combat) : Type 0 where
  pub dummies : All (λ e. IsWhole e.1) w.dummies
  pub own : IsFull c (get_default (get c.guid w.units) (full c))

put_own :
    (c : Character) (st : Pools) (w : Combat)
    → All (λ e. IsWhole e.1) w.dummies
    → IsFull c st
    → IsWithin c (record w { units = put c.guid st w.units })
put_own c st w h hs = record {
  dummies = h;
  own = rw (get-put c.guid c.guid st w.units, (==_iff c.guid c.guid).1 refl) hs;
}

pub unit_state-IsWithin :
    (c : Character) (w : Combat)
    → All (λ e. IsWhole e.1) w.dummies
    → IsFull c (unit_state c w).0 × IsWithin c (unit_state c w).1
unfolding unit_state
unit_state-IsWithin c w h = ((omega arith, omega arith), put_own c _ w h (omega arith, omega arith))

pub send_power_update-IsWithin :
    (c : Character) (w : Combat)
    → All (λ e. IsWhole e.1) w.dummies
    → IsWithin c (send_power_update c w).1
unfolding send_power_update
send_power_update-IsWithin c w h = let (hs, hw) = unit_state-IsWithin c w h in hw

pub change_self-IsWithin :
    (report : Packet) (st : Pools) (c : Character) (w : Combat)
    → All (λ e. IsWhole e.1) w.dummies
    → IsWithin c (change_self report st c w).1
unfolding change_self
change_self-IsWithin report st c w h =
    send_power_update-IsWithin c (record w { units = put c.guid st w.units }) h

pub hurt_self-IsWithin :
    (report : ℕ → Packet) (c : Character) (amount : ℕ) (w : Combat)
    → IsWithin c w
    → IsWithin c (hurt_self report c amount w).1
unfolding hurt_self
hurt_self-IsWithin report c amount w h =
    let (hs, hw) = unit_state-IsWithin c w h.dummies in change_self-IsWithin _ _ c _ hw.dummies

pub heal_self-IsWithin :
    (report : ℕ → Packet) (c : Character) (amount : ℕ) (w : Combat)
    → IsWithin c w
    → IsWithin c (heal_self report c amount w).1
unfolding heal_self
heal_self-IsWithin report c amount w h =
    let (hs, hw) = unit_state-IsWithin c w h.dummies in change_self-IsWithin _ _ c _ hw.dummies

pub gain_power-IsWithin :
    (report : Packet) (c : Character) (amount : ℕ) (w : Combat)
    → IsWithin c w
    → IsWithin c (gain_power report c amount w).1
unfolding gain_power
gain_power-IsWithin report c amount w h =
    let (hs, hw) = unit_state-IsWithin c w h.dummies in change_self-IsWithin _ _ c _ hw.dummies

pub hurt_dummy-IsWithin :
    (report : ℕ → Packet) (now guid : ℕ) (d : Dummy) (amount : ℕ) (c : Character) (w : Combat)
    → IsWithin c w
    → get guid w.dummies ≡ some d
    → IsWithin c (hurt_dummy report now guid d amount w).1
unfolding hurt_dummy
hurt_dummy-IsWithin report now guid d amount c w h e =
    let hd : d.hp ≤ d.maxhp = All-get IsWhole guid w.dummies h.dummies e in
    record { dummies = All-put IsWhole guid _ w.dummies h.dummies (omega arith); own = h.own }

pub heal_dummy-IsWithin :
    (report : ℕ → Packet) (guid : ℕ) (d : Dummy) (amount : ℕ) (c : Character) (w : Combat)
    → IsWithin c w
    → get guid w.dummies ≡ some d
    → IsWithin c (heal_dummy report guid d amount w).1
unfolding heal_dummy
heal_dummy-IsWithin report guid d amount c w h e =
    let hd : d.hp ≤ d.maxhp = All-get IsWhole guid w.dummies h.dummies e in
    record { dummies = All-put IsWhole guid _ w.dummies h.dummies (omega arith); own = h.own }

pub apply_tick-IsWithin :
    (kind : Kind) (now : ℕ) (c : Character) (a : Aura) (t : Tick) (w : Combat) (o : Option Dummy)
    → get a.target w.dummies ≡ o
    → IsWithin c w
    → IsWithin c (apply_tick kind o now c a t w).1
unfolding apply_tick
apply_tick-IsWithin help now c a t w none e h = heal_self-IsWithin _ c t.amount w h
apply_tick-IsWithin help now c a t w (some d) e h =
    heal_dummy-IsWithin _ a.target d t.amount c w h e
apply_tick-IsWithin harm now c a t w none e h = hurt_self-IsWithin _ c t.amount w h
apply_tick-IsWithin harm now c a t w (some d) e h =
    hurt_dummy-IsWithin _ now a.target d t.amount c w h e
apply_tick-IsWithin power now c a t w o e h = gain_power-IsWithin _ c t.amount w h
apply_tick-IsWithin inert now c a t w o e h = h

-- The same for the direct effects of a spell.
pub direct_damage-IsWithin :
    (now : ℕ) (c : Character) (info : SpellInfo) (tgt : ℕ) (o : Option Dummy) (amount : ℕ)
    (w : Combat)
    → get tgt w.dummies ≡ o
    → IsWithin c w
    → IsWithin c (direct_damage now c info tgt o amount w).1
unfolding direct_damage
direct_damage-IsWithin now c info tgt (some d) amount w e h =
    hurt_dummy-IsWithin _ now tgt d amount c w h e
direct_damage-IsWithin now c info tgt none amount w e h = elim (Bool-cases (tgt == c.guid)) [
  | inl self ↦ rw self (hurt_self-IsWithin _ c amount w h)
  | inr nobody ↦ rw nobody h
]

pub direct_heal-IsWithin :
    (c : Character) (info : SpellInfo) (tgt : ℕ) (o : Option Dummy) (amount : ℕ) (w : Combat)
    → get tgt w.dummies ≡ o
    → IsWithin c w
    → IsWithin c (direct_heal c info tgt o amount w).1
unfolding direct_heal
direct_heal-IsWithin c info tgt (some d) amount w e h = heal_dummy-IsWithin _ tgt d amount c w h e
direct_heal-IsWithin c info tgt none amount w e h = heal_self-IsWithin _ c amount w h

-- ===== src/World/Combat/Effects.antt =====
-- Damage and healing: the direct effects of a spell, and one tick of a periodic aura.
use ascension_preservation.Common.{
  ℕ, ◌+◌, ◌-◌, ◌||◌, Option, none, some, List, [], ◌∷◌, min, ◌==◌, if◌then◌else◌,
}
use ascension_preservation.Common.Dict.{get, put}
use ascension_preservation.World.Combat.{
  Character, Combat, Pools, Dummy, Packet, Tick, Aura, max_pools, unit_state, send_power_update,
  dummy_health, periodic_log,
}

-- `damage` and `heal` of a dummy and of the character: what is left, and how much was in excess.
-- The packet that reports it is `report excess`.
unfoldable pub hurt_dummy : (ℕ → Packet) → ℕ → ℕ → Dummy → ℕ → Combat → List Packet × Combat
hurt_dummy report now guid d amount w =
    let d' : Dummy = record d { hp = d.hp - amount; hit = now } in
    (
      report (amount - d.hp) ∷ dummy_health guid d'.hp ∷ [],
      record w { dummies = put guid d' w.dummies },
    )

unfoldable pub heal_dummy : (ℕ → Packet) → ℕ → Dummy → ℕ → Combat → List Packet × Combat
heal_dummy report guid d amount w =
    let healed = min amount (d.maxhp - d.hp) in
    let d' : Dummy = record d { hp = d.hp + healed } in
    (
      report (amount - healed) ∷ dummy_health guid d'.hp ∷ [],
      record w { dummies = put guid d' w.dummies },
    )

-- The character's own state set to `st`, the packet that reports it, and the update.
unfoldable pub change_self : Packet → Pools → Character → Combat → List Packet × Combat
change_self report st c w =
    let (sent, w') = send_power_update c (record w { units = put c.guid st w.units }) in
    (report ∷ sent, w')

unfoldable pub hurt_self : (ℕ → Packet) → Character → ℕ → Combat → List Packet × Combat
hurt_self report c amount w =
    let (st, w') = unit_state c w in
    change_self (report (amount - st.hp)) (record st { hp = st.hp - amount }) c w'

unfoldable pub heal_self : (ℕ → Packet) → Character → ℕ → Combat → List Packet × Combat
heal_self report c amount w =
    let (st, w') = unit_state c w in
    let healed = min amount ((max_pools c).0 - st.hp) in
    change_self (report (amount - healed)) (record st { hp = st.hp + healed }) c w'

unfoldable pub gain_power : Packet → Character → ℕ → Combat → List Packet × Combat
gain_power report c amount w =
    let (st, w') = unit_state c w in
    let gained = min amount ((max_pools c).1 - st.power) in
    change_self report (record st { power = st.power + gained }) c w'

-- `AURA_PERIODIC_HARM`, `AURA_PERIODIC_HELP` and `AURA_PERIODIC_POWER`.
pub data Kind : Type 0 where
  harm help power inert : Kind

unfoldable pub kind_of : ℕ → Kind
kind_of atype =
    if atype == 8 || atype == 20
    then help
    else if atype == 3 || (atype == 53 || atype == 89)
    then harm
    else if atype == 24 || atype == 21
    then power
    else inert

-- One tick, by its kind and by whether its target is a dummy.
unfoldable pub apply_tick :
    Kind → Option Dummy → ℕ → Character → Aura → Tick → Combat → List Packet × Combat
apply_tick help (some d) now c a t w =
    heal_dummy (λ over. periodic_log a.target a.caster a.spell t.aura t.amount over a.school)
      a.target d t.amount w
apply_tick help none now c a t w =
    heal_self (λ over. periodic_log a.target a.caster a.spell t.aura t.amount over a.school) c
      t.amount w
apply_tick harm (some d) now c a t w =
    hurt_dummy (λ over. periodic_log a.target a.caster a.spell t.aura t.amount over a.school) now
      a.target d t.amount w
apply_tick harm none now c a t w =
    hurt_self (λ over. periodic_log a.target a.caster a.spell t.aura t.amount over a.school) c
      t.amount w
apply_tick power d now c a t w =
    gain_power (periodic_log a.target a.caster a.spell t.aura t.amount 0 a.school) c t.amount w
apply_tick inert d now c a t w = ([], w)

unfoldable pub aura_periodic_apply : ℕ → Character → Aura → Tick → Combat → List Packet × Combat
aura_periodic_apply now c a t w = apply_tick (kind_of t.aura) (get a.target w.dummies) now c a t w

-- ===== src/World/Combat/Cast.antt =====
-- `apply_spell_effects`: what a cast that lands does.
use ascension_preservation.Common.{
  ℕ, ◌&&◌, Bool, true, false, not, Option, none, some, List, [], ◌∷◌, ◌++◌, ◌==◌, if◌then◌else◌,
}
use ascension_preservation.Common.Dict.{get}
use ascension_preservation.World.Combat.{Character, Combat, Dummy, Packet, damage_log, heal_log}
use ascension_preservation.World.Combat.Effects.{hurt_dummy, heal_dummy, hurt_self, heal_self}
use ascension_preservation.World.Combat.Auras.{Effect, SpellInfo, apply_aura}

-- Damage to a dummy that was aimed at, or to the caster, who aimed at himself; else none.
unfoldable pub direct_damage :
    ℕ → Character → SpellInfo → ℕ → Option Dummy → ℕ → Combat → List Packet × Combat
direct_damage now c info tgt (some d) amount w =
    hurt_dummy (λ over. damage_log tgt c.guid info.id amount over info.school_mask) now tgt d amount
      w
direct_damage now c info tgt none amount w =
    if tgt == c.guid
    then hurt_self (λ over. damage_log c.guid c.guid info.id amount over info.school_mask) c amount
        w
    else ([], w)

-- Healing of a dummy, or of the caster.
unfoldable pub direct_heal :
    Character → SpellInfo → ℕ → Option Dummy → ℕ → Combat → List Packet × Combat
direct_heal c info tgt (some d) amount w =
    heal_dummy (λ over. heal_log tgt c.guid info.id amount over) tgt d amount w
direct_heal c info tgt none amount w =
    heal_self (λ over. heal_log c.guid c.guid info.id amount over) c amount w

-- The loop over the effects; `aura_done` is whether the aura of the spell was applied. A dummy does
-- not come or go meanwhile, but its health changes.
unfoldable pub run_effects :
    ℕ → Character → SpellInfo → ℕ → Bool → List Effect → Combat → List Packet × Combat
run_effects now c info tgt aura_done [] w = ([], w)
run_effects now c info tgt aura_done (e ∷ es) w =
    let d = get tgt w.dummies in
    let (hurt, w1) = direct_damage now c info tgt d e.amount w in
    let (after_hurt, w1') = run_effects now c info tgt aura_done es w1 in
    let (aura, w2) = apply_aura now c info tgt w in
    let (after_aura, w2') = run_effects now c info tgt true es w2 in
    let (heal, w3) = direct_heal c info tgt d e.amount w in
    let (after_heal, w3') = run_effects now c info tgt aura_done es w3 in
    let skip = run_effects now c info tgt aura_done es w in
    if e.effect == 2 && not (e.amount == 0)
    then (hurt ++ after_hurt, w1')
    else if e.effect == 6 && not aura_done
    then (aura ++ after_aura, w2')
    else if e.effect == 10 && not (e.amount == 0)
    then (heal ++ after_heal, w3')
    else skip

unfoldable pub apply_spell_effects :
    ℕ → Character → Option SpellInfo → ℕ → Combat → List Packet × Combat
apply_spell_effects now c none tgt w = ([], w)
apply_spell_effects now c (some info) tgt w = run_effects now c info tgt false info.effects w

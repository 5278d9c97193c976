-- ===== src/World/Combat/Auras.antt =====
-- Auras: the slot they take, applying and removing them, and the clock that advances them.
pub mod Slots
pub mod Clock
use ascension_preservation.Common.{
  ℕ, zero, suc, ◌+◌, ◌-◌, ◌*◌, ◌^◌, Bool, true, false, ◌&&◌, ◌||◌, not, Option, none, some, List,
  [], ◌∷◌, ◌++◌, length, min, max, bit_or, ltb, leb, ◌==◌, if◌then◌else◌,
}
use ascension_preservation.Common.Dict.{Dict, get, put, del, get_default}
use ascension_preservation.World.Combat.{
  Character, Combat, Dummy, Packet, Tick, Aura, aura_update, aura_remove, damage_log, heal_log,
}
use ascension_preservation.World.Combat.Effects.{
  hurt_dummy, heal_dummy, hurt_self, heal_self, Kind, inert, kind_of, aura_periodic_apply,
}

-- The lowest slot from `slot` on, of the `n` next, that is not held.
unfoldable pub first_free : Option Aura → ℕ → Option ℕ → Option ℕ
first_free none slot later = some slot
first_free (some a) slot later = later

unfoldable pub lowest_free : ℕ → ℕ → Dict Aura → Option ℕ
lowest_free zero slot held = none
lowest_free (suc n) slot held = first_free (get slot held) slot (lowest_free n (slot + 1) held)

-- The slot of the caster's own aura of this spell.
unfoldable pub own_slot : ℕ → ℕ → Dict Aura → Option ℕ
own_slot spell caster [] = none
own_slot spell caster ((slot, a) ∷ held) =
    let later = own_slot spell caster held in
    if a.spell == spell && a.caster == caster then some slot else later

abbrev pub archive_max_aura_slots : ℕ
archive_max_aura_slots = 56

unfoldable pub reuse : Option ℕ → Option ℕ → Option ℕ
reuse (some slot) lowest = some slot
reuse none lowest = lowest

unfoldable pub free_aura_slot : ℕ → ℕ → Dict Aura → Option ℕ
free_aura_slot spell caster held =
    reuse (own_slot spell caster held) (lowest_free archive_max_aura_slots 0 held)

-- One effect of a spell. `amount` is what `max(0, effect_amount(e))` comes to in this cast: the
-- roll is random.
pub record Effect : Type 0 where
  pub effect : ℕ
  pub aura : ℕ
  pub amplitude : ℕ
  pub amount : ℕ

pub record SpellInfo : Type 0 where
  pub id : ℕ
  pub school_mask : ℕ
  pub stack_amount : ℕ
  pub duration_ms : ℕ
  pub no_duration_display : Bool
  pub effects : List Effect

abbrev is_inert : Kind → Bool
is_inert inert = true
is_inert _ = false

-- The mask of the aura effects, from effect `n` on, and their types.
unfoldable pub aura_effects : ℕ → List Effect → ℕ × List ℕ
aura_effects n [] = (0, [])
aura_effects n (e ∷ es) =
    let (mask, types) = aura_effects (n + 1) es in
    if e.effect == 6 then (bit_or (2 ^ n) mask, e.aura ∷ types) else (mask, types)

-- The periodic ones, the first tick one period from now.
unfoldable pub aura_ticks : ℕ → ℕ → List Effect → List Tick
aura_ticks now n [] = []
aura_ticks now n (e ∷ es) =
    let more = aura_ticks now (n + 1) es in
    let tick : Tick = record {
      index = n;
      aura = e.aura;
      amount = e.amount;
      period = e.amplitude;
      next = now + e.amplitude;
    } in
    if e.effect == 6
      && (ltb 0 e.amplitude && (not (is_inert (kind_of e.aura)) && not (e.amount == 0)))
    then tick ∷ more
    else more

-- `AURA_TYPES_NEGATIVE`
unfoldable pub is_negative : ℕ → Bool
is_negative t =
    t == 3
    || (t == 53
        || (t == 64
            || (t == 89
                || (t == 5
                    || (t == 7 || (t == 12 || (t == 25 || (t == 26 || (t == 27 || t == 33)))))))))

unfoldable pub any_negative : List ℕ → Bool
any_negative [] = false
any_negative (t ∷ ts) = is_negative t || any_negative ts

unfoldable pub aura_positive : List ℕ → ℕ
aura_positive types = if any_negative types then 0x80 else 0x10

abbrev is_dummy : Option Dummy → Bool
is_dummy none = false
is_dummy (some d) = true

-- Who an aura lands on: a dummy that was aimed at, else the caster.
unfoldable pub aura_target : ℕ → ℕ → Combat → ℕ
aura_target caster target_guid w =
    if not (target_guid == 0) && is_dummy (get target_guid w.dummies) then target_guid else caster

-- The flag that the aura has a countdown.
unfoldable pub shows_duration : SpellInfo → Bool
shows_duration info = ltb 0 info.duration_ms && not info.no_duration_display

-- The stacks after this application, on what the slot held.
unfoldable pub next_stacks : SpellInfo → Option Aura → ℕ
next_stacks info none = 1
next_stacks info (some prev) =
    if prev.spell == info.id && not (info.stack_amount == 0)
    then min info.stack_amount (prev.stacks + 1)
    else 1

unfoldable pub new_aura : ℕ → Character → SpellInfo → ℕ → ℕ → Option Aura → Aura
new_aura now c info tgt slot prev =
    let (mask, types) = aura_effects 0 info.effects in
    let own = if tgt == c.guid then bit_or mask 0x08 else mask in
    let signed = bit_or own (aura_positive types) in
    let timed = shows_duration info in
    record {
      spell = info.id;
      slot = slot;
      caster = c.guid;
      target = tgt;
      flags = if timed then bit_or signed 0x20 else signed;
      level = max 1 c.level;
      stacks = next_stacks info prev;
      maxdur_ms = info.duration_ms;
      school = info.school_mask;
      expires = if timed then some (now + info.duration_ms) else none;
      ticks = aura_ticks now 0 info.effects;
    }

-- The aura put in its slot; where there is none, only the target's (empty) entry is made.
unfoldable pub place_aura :
    ℕ → Character → SpellInfo → ℕ → Dict Aura → Option ℕ → Combat → List Packet × Combat
place_aura now c info tgt held none w = ([], record w { auras = put tgt held w.auras })
place_aura now c info tgt held (some slot) w =
    let aura = new_aura now c info tgt slot (get slot held) in
    (aura_update tgt aura ∷ [], record w { auras = put tgt (put slot aura held) w.auras })

unfoldable pub apply_aura : ℕ → Character → SpellInfo → ℕ → Combat → List Packet × Combat
apply_aura now c info target_guid w =
    let tgt = aura_target c.guid target_guid w in
    let held = get_default (get tgt w.auras) [] in
    let placed = place_aura now c info tgt held (free_aura_slot info.id c.guid held) w in
    if (aura_effects 0 info.effects).0 == 0 then ([], w) else placed

-- `held.pop(slot, None)`, and the packet that removes the icon where there was an aura.
unfoldable pub take_off : ℕ → ℕ → Dict Aura → Option Aura → Combat → List Packet × Combat
take_off tgt slot held none w = ([], w)
take_off tgt slot held (some a) w =
    (aura_remove tgt slot ∷ [], record w { auras = put tgt (del slot held) w.auras })

unfoldable pub remove_aura : ℕ → ℕ → Combat → List Packet × Combat
remove_aura tgt slot w =
    let held = get_default (get tgt w.auras) [] in take_off tgt slot held (get slot held) w

-- ===== src/World/Combat/Auras/Clock.antt =====
-- `aura_tick`: the ticks that are due, caught up with, and the auras whose time is over.
use ascension_preservation.Common.{
  ℕ, zero, suc, ◌+◌, ◌<◌, ◌≡◌, inl, inr, Bool, false, ◌&&◌, not, Option, none, some, List, [], ◌∷◌,
  ◌++◌, ltb, leb, ◌==◌, if◌then◌else◌, arith, Bool-cases, All,
}
use ascension_preservation.Common.Dict.{Dict, get, put, get_default}
use ascension_preservation.World.Combat.{Character, Combat, Packet, Tick, Aura}
use ascension_preservation.World.Combat.Effects.{aura_periodic_apply, kind_of}
use ascension_preservation.World.Combat.Auras.{remove_aura, aura_ticks, Effect, is_inert}

-- `tick["next"] > aura["expires"]`
abbrev pub is_past : Option ℕ → ℕ → Bool
is_past none next = false
is_past (some e) next = ltb e next

-- `now >= aura["expires"]`
abbrev pub is_over : ℕ → Option ℕ → Bool
is_over now none = false
is_over now (some e) = leb e now

-- The `while` loop of one tick.
unfoldable pub catch_up : ℕ → ℕ → Character → Aura → Tick → Combat → List Packet × Tick × Combat
catch_up zero now c a t w = ([], t, w)
catch_up (suc fuel) now c a t w =
    let (sent, w') = aura_periodic_apply now c a t w in
    let (more, t', w'') = catch_up fuel now c a (record t { next = t.next + t.period }) w' in
    if leb t.next now && not (is_past a.expires t.next) then (sent ++ more, t', w'') else ([], t, w)

-- Every round moves `next` on by a period, so `now + 1` rounds are enough.
unfoldable pub run_ticks :
    ℕ → Character → Aura → List Tick → Combat → List Packet × List Tick × Combat
run_ticks now c a [] w = ([], [], w)
run_ticks now c a (t ∷ ts) w =
    let (sent, t', w') = catch_up (suc now) now c a t w in
    let (more, ts', w'') = run_ticks now c a ts w' in (sent ++ more, t' ∷ ts', w'')

-- The ticks are the aura's own, so that the table has them as they are afterwards.
unfoldable pub store_aura : ℕ → ℕ → Aura → Combat → Combat
store_aura tgt slot a w = record w {
  auras = put tgt (put slot a (get_default (get tgt w.auras) [])) w.auras;
}

unfoldable pub advance_aura : ℕ → Character → ℕ → ℕ → Aura → Combat → List Packet × Combat
advance_aura now c tgt slot a w =
    let (sent, ts, w') = run_ticks now c a a.ticks w in
    let stored = store_aura tgt slot (record a { ticks = ts }) w' in
    let (off, removed) = remove_aura tgt slot stored in
    if is_over now a.expires then (sent ++ off, removed) else (sent, stored)

unfoldable pub advance_target : ℕ → Character → ℕ → Dict Aura → Combat → List Packet × Combat
advance_target now c tgt [] w = ([], w)
advance_target now c tgt ((slot, a) ∷ held) w =
    let (sent, w') = advance_aura now c tgt slot a w in
    let (more, w'') = advance_target now c tgt held w' in (sent ++ more, w'')

unfoldable pub advance_all : ℕ → Character → Dict (Dict Aura) → Combat → List Packet × Combat
advance_all now c [] w = ([], w)
advance_all now c ((tgt, held) ∷ rest) w =
    let (sent, w') = advance_target now c tgt held w in
    let (more, w'') = advance_all now c rest w' in (sent ++ more, w'')

-- At most every 100 ms.
unfoldable pub aura_tick : ℕ → Character → Combat → List Packet × Combat
aura_tick now c w =
    let start : Combat = record w { last_tick = now } in
    if ltb now (w.last_tick + 100) then ([], w) else advance_all now c w.auras start

-- What the loop leaves of a tick is not due: it lies after `now`, or after the end of the aura.
abbrev pub is_due : ℕ → Aura → Tick → Bool
is_due now a t = leb t.next now && not (is_past a.expires t.next)

catch_up_fuel :
    (fuel now : ℕ) (c : Character) (a : Aura) (t : Tick) (w : Combat)
    → 0 < t.period
    → now < t.next + fuel
    → is_due now a (catch_up fuel now c a t w).1 ≡ false
unfolding catch_up
catch_up_fuel zero now c a t w hp h = ground arith
catch_up_fuel (suc fuel) now c a t w hp h = elim (Bool-cases (is_due now a t)) [
  | inl due ↦ rw due (catch_up_fuel fuel now c a _ _ hp (omega arith))
  | inr not_due ↦ rw not_due not_due
]

-- The catch-up loop ends with every tick settled: after `run_ticks` no tick of the aura is due,
-- where each has a period. So the fuel of its loop is enough.
pub run_ticks-settles :
    (now : ℕ) (c : Character) (a : Aura) (ts : List Tick) (w : Combat)
    → All (λ t. 0 < t.period) ts
    → All (λ t. is_due now a t ≡ false) (run_ticks now c a ts w).1
unfolding run_ticks
run_ticks-settles now c a [] w h = tt
run_ticks-settles now c a (t ∷ ts) w (hp, h) =
    (catch_up_fuel (suc now) now c a t w hp (omega arith), run_ticks-settles now c a ts _ h)

-- The ticks that `apply_aura` makes have a period.
pub aura_ticks-period :
    (now n : ℕ) (es : List Effect) → All (λ t. 0 < t.period) (aura_ticks now n es)
unfolding aura_ticks
aura_ticks-period now n [] = tt
aura_ticks-period now n (e ∷ es) =
    elim (Bool-cases (
      e.effect == 6
      && (ltb 0 e.amplitude && (not (is_inert (kind_of e.aura)) && not (e.amount == 0))))) [
        | inl periodic ↦ rw periodic (ground arith, aura_ticks-period now (n + 1) es)
        | inr other ↦ rw other (aura_ticks-period now (n + 1) es)
      ]

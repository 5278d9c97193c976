-- ===== src/World/Combat/Auras/Slots.antt =====
-- The slot of a new aura.
use ascension_preservation.Common.{
  ℕ, zero, suc, ◌+◌, ◌≤◌, ◌<◌, ◌≡◌, ◌≢◌, ◌⊎◌, refl, ap, ◌&&◌, All, false, Option, none, some, [],
  ◌∷◌, ◌==◌, arith, Bool-cases, Option-cases, inl, inr, ==_iff,
}
use ascension_preservation.Common.Dict.{Dict, get}
use ascension_preservation.Common.Dict.Sorted.{Distinct}
use ascension_preservation.World.Combat.{Aura}
use ascension_preservation.World.Combat.Auras.{
  lowest_free, own_slot, free_aura_slot, first_free, reuse, archive_max_aura_slots,
}

-- What a slot found among the free ones is: in range, free, and the lowest.
pub record IsLowest (n from slot : ℕ) (held : Dict Aura) : Type 0 where
  pub above : from ≤ slot
  pub below : slot < from + n
  pub free : get slot held ≡ none
  pub lowest : (s : ℕ) → from ≤ s → s < slot → get s held ≢ none

-- No slot of the range is free.
pub record IsFull (n from : ℕ) (held : Dict Aura) : Type 0 where
  pub taken : (s : ℕ) → from ≤ s → s < from + n → get s held ≢ none

first_free-IsLowest :
    (n from : ℕ) (held : Dict Aura) (o : Option Aura) {slot : ℕ}
    → get from held ≡ o
    → ((s : ℕ) → lowest_free n (from + 1) held ≡ some s → IsLowest n (from + 1) s held)
    → first_free o from (lowest_free n (from + 1) held) ≡ some slot
    → IsLowest (suc n) from slot held
unfolding first_free
first_free-IsLowest n from held none {slot} e ih h =
    let same : from ≡ slot = cc h in
    record {
      above = omega (arith, same);
      below = omega (arith, same);
      free = rw (← same) e;
      lowest = λ s hs lt. absurd (omega (arith, same));
    }
first_free-IsLowest n from held (some a) {slot} e ih h =
    let next = ih slot h in
    record {
      above = omega (arith, next.above);
      below = omega (arith, next.below);
      free = next.free;
      lowest = λ s hs lt. elim (Bool-cases (from == s)) [
        | inl here ↦ λ free. cc (e, free, ap (λ (k : ℕ). get k held) ((==_iff from s).0 here))
        | inr later ↦ next.lowest s (ground (arith, later)) lt
      ];
    }

lowest_free-IsLowest :
    (n from : ℕ) (held : Dict Aura) {slot : ℕ}
    → lowest_free n from held ≡ some slot
    → IsLowest n from slot held
unfolding lowest_free
lowest_free-IsLowest zero from held h = cc
lowest_free-IsLowest (suc n) from held h =
    first_free-IsLowest n from held (get from held) refl
      (λ s hs. lowest_free-IsLowest n (from + 1) held hs) h

first_free-IsFull :
    (n from : ℕ) (held : Dict Aura) (o : Option Aura)
    → get from held ≡ o
    → (lowest_free n (from + 1) held ≡ none → IsFull n (from + 1) held)
    → first_free o from (lowest_free n (from + 1) held) ≡ none
    → IsFull (suc n) from held
unfolding first_free
first_free-IsFull n from held none e ih h = cc h
first_free-IsFull n from held (some a) e ih h =
    let next = ih h in
    record {
      taken = λ s hs lt. elim (Bool-cases (from == s)) [
        | inl here ↦ λ free. cc (e, free, ap (λ (k : ℕ). get k held) ((==_iff from s).0 here))
        | inr later ↦ next.taken s (ground (arith, later)) (omega (arith, lt))
      ];
    }

lowest_free-IsFull :
    (n from : ℕ) (held : Dict Aura) → lowest_free n from held ≡ none → IsFull n from held
unfolding lowest_free
lowest_free-IsFull zero from held h = record { taken = λ s hs lt. absurd (omega arith) }
lowest_free-IsFull (suc n) from held h =
    first_free-IsFull n from held (get from held) refl (lowest_free-IsFull n (from + 1) held) h

-- The slot holds an aura of this spell by this caster.
abbrev pub HoldsOwn : ℕ → ℕ → ℕ → Dict Aura → Type 0
HoldsOwn spell caster slot held =
    (a : Aura) × (get slot held ≡ some a) × (a.spell ≡ spell) × (a.caster ≡ caster)

own_slot_holds :
    (spell caster : ℕ) (held : Dict Aura) {slot : ℕ}
    → Distinct held
    → own_slot spell caster held ≡ some slot
    → HoldsOwn spell caster slot held
unfolding own_slot get
own_slot_holds spell caster [] d h = cc
own_slot_holds spell caster ((j, a) ∷ held) {slot} (fresh, d) h =
    elim (Bool-cases (a.spell == spell && a.caster == caster)) [
      | inl own ↦
          let here : some j ≡ some slot = rw own at h in
          let same : j ≡ slot = cc here in
          (a, rw ((==_iff j slot).1 same) refl, ground (arith, own), ground (arith, own))
      | inr other ↦
          let (b, found, spells, casters) = own_slot_holds spell caster held d (rw other at h) in
          elim (Bool-cases (j == slot)) [
            | inl same ↦ cc (fresh, found, ap (λ (k : ℕ). get k held) ((==_iff j slot).0 same))
            | inr ne ↦ (b, rw ne found, spells, casters)
          ]
    ]

-- None of the auras is of this spell by this caster.
abbrev pub NoneOwn : ℕ → ℕ → Dict Aura → Type 0
NoneOwn spell caster held = All (λ e. (e.1.spell == spell && e.1.caster == caster) ≡ false) held

own_slot-NoneOwn :
    (spell caster : ℕ) (held : Dict Aura)
    → own_slot spell caster held ≡ none
    → NoneOwn spell caster held
unfolding own_slot
own_slot-NoneOwn spell caster [] h = tt
own_slot-NoneOwn spell caster ((j, a) ∷ held) h =
    elim (Bool-cases (a.spell == spell && a.caster == caster)) [
      | inl own ↦ let found : some j ≡ none = rw own at h in cc found
      | inr other ↦ (other, own_slot-NoneOwn spell caster held (rw other at h))
    ]

-- What the slot of a new aura may be.
abbrev pub Placed : ℕ → ℕ → Dict Aura → Option ℕ → Type 0
Placed spell caster held (some slot) =
    HoldsOwn spell caster slot held
    ⊎ NoneOwn spell caster held × IsLowest archive_max_aura_slots 0 slot held
Placed spell caster held none = NoneOwn spell caster held × IsFull archive_max_aura_slots 0 held

lowest_free-Placed :
    (spell caster : ℕ) (held : Dict Aura) (o : Option ℕ)
    → NoneOwn spell caster held
    → lowest_free archive_max_aura_slots 0 held ≡ o
    → Placed spell caster held o
lowest_free-Placed spell caster held (some slot) h e = inr (h, lowest_free-IsLowest 56 0 held e)
lowest_free-Placed spell caster held none h e = (h, lowest_free-IsFull 56 0 held e)

-- Where the slots are all different: a new aura takes the slot of the caster's own aura of the spell if there is
-- one. Otherwise it takes the lowest of the 56 slots that is free, or none, and then all of them are taken.
pub free_aura_slot_lem :
    (spell caster : ℕ) (held : Dict Aura)
    → Distinct held
    → Placed spell caster held (free_aura_slot spell caster held)
unfolding free_aura_slot
free_aura_slot_lem spell caster held d = elim (Option-cases (own_slot spell caster held)) [
  | inl none_own ↦ rw none_own (
      unfold reuse in
      lowest_free-Placed spell caster held (lowest_free 56 0 held)
        (own_slot-NoneOwn spell caster held none_own) refl)
  | inr (s, own) ↦ rw own (unfold reuse in inl (own_slot_holds spell caster held d own))
]

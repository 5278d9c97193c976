-- ===== src/Common/Assoc.antt =====
-- A dictionary with keys of any type, in order of insertion. `same` is the equality of keys.
use mathlib.Core.Path.{◌≡◌, refl}
use mathlib.Core.Logic.{◌↔◌, inl, inr}
use mathlib.Core.Bool.{Bool, true, false}
use mathlib.Core.Option.{Option, none, some}
use mathlib.Core.List.{List, [], ◌∷◌}
use ascension_preservation.Common.Tests.{if◌then◌else◌, Bool-cases}

module _ {ℓ κ} {K : Type ℓ} {V : Type κ} (same : K → K → Bool) where
  -- `d.get(k)`
  unfoldable pub find : K → List (K × V) → Option V
  find k [] = none
  find k ((j, v) ∷ d) = let rest = find k d in if same j k then some v else rest

  -- `d[k] = v`: a new key comes last.
  unfoldable pub store : K → V → List (K × V) → List (K × V)
  store k v [] = (k, v) ∷ []
  store k v ((j, w) ∷ d) = let rest = store k v d in if same j k then (j, v) ∷ d else (j, w) ∷ rest

  module _ (same_iff : (j k : K) → (same j k ≡ true) ↔ (j ≡ k)) where
    pub find-store :
        (k j : K) (v : V) (d : List (K × V))
        → find j (store k v d) ≡ (if same k j then some v else find j d)
    unfolding find store
    find-store k j v [] = refl
    find-store k j v ((i, w) ∷ d) = elim (Bool-cases (same i k)) [
      | inl here ↦ rw here (
          rw ((same_iff i k).0 here)
            (elim (Bool-cases (same k j)) [ inl e ↦ rw e refl | inr e ↦ rw e refl ]))
      | inr not_here ↦ elim (Bool-cases (same k j)) [
        | inl e ↦
            let elsewhere : same i j ≡ false = rw ((same_iff k j).0 e) at not_here in
            rw (not_here, elsewhere, find-store k j v d, e) refl
        | inr e ↦ rw (not_here, find-store k j v d, e) refl
      ]
    ]

    -- What is there already is stored to no effect.
    pub store-find : (k : K) (v : V) (d : List (K × V)) → find k d ≡ some v → store k v d ≡ d
    unfolding find store
    store-find k v [] h = cc h
    store-find k v ((j, w) ∷ d) h = elim (Bool-cases (same j k)) [
      | inl e ↦
          let found : some w ≡ some v = rw e at h in
          let equal : w ≡ v = cc found in rw (e, equal) refl
      | inr e ↦ rw (e, store-find k v d (rw e at h)) refl
    ]

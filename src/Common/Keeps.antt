-- ===== src/Common/Keeps.antt =====
-- A dictionary that grew out of another: what was there is still there, related by `R` to what it was.
use mathlib.Core.Path.{◌≡◌, sym, ◌∙◌}
use mathlib.Core.Logic.{◌↔◌, inl, inr}
use mathlib.Core.Bool.{Bool, true}
use mathlib.Core.Option.{some}
use mathlib.Core.List.{List}
use ascension_preservation.Common.Tests.{if◌then◌else◌, Bool-cases}
use ascension_preservation.Common.Assoc.{find, store, find-store}

module _ {ℓ κ μ} {K : Type ℓ} {V : Type κ} (same : K → K → Bool) (R : V → V → Type μ) where
  abbrev pub Keeps : List (K × V) → List (K × V) → Type (ℓ ⊔ κ ⊔ μ)
  Keeps d d' =
      (k : K) (v : V) → find same k d ≡ some v → (w : V) × (find same k d' ≡ some w) × R v w

  pub Keeps-refl : ((v : V) → R v v) → (d : List (K × V)) → Keeps d d
  Keeps-refl R_refl d k v e = (v, e, R_refl v)

  pub Keeps-trans :
      ((u v w : V) → R u v → R v w → R u w)
      → (d d' d'' : List (K × V)) → Keeps d d'
      → Keeps d' d''
      → Keeps d d''
  Keeps-trans R_trans d d' d'' h h' k v e =
      let mid = h k v e in
      let end = h' k (mid.0) (mid.1) in (end.0, end.1, R_trans v (mid.0) (end.0) (mid.2) (end.2))

  pub Keeps-store :
      ((j k : K) → (same j k ≡ true) ↔ (j ≡ k))
      → ((v : V) → R v v)
      → (k : K) (v : V) (d : List (K × V)) → ((old : V) → find same k d ≡ some old → R old v)
      → Keeps d (store same k v d)
  Keeps-store same_iff R_refl k v d replaces j old e =
      let found : find same j (store same k v d) ≡ (if same k j then some v else find same j d) =
        find-store same same_iff k j v d in
      elim (Bool-cases (same k j)) [
        | inl here ↦ (v, rw here at found, replaces old (rw (sym ((same_iff k j).0 here)) at e))
        | inr elsewhere ↦ (old, (rw elsewhere at found) ∙ e, R_refl old)
      ]

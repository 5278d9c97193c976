-- ===== src/Common/Dict.antt =====
-- Python's `dict` with numbers for keys, in order of insertion. Look-ups go by the laws below.
pub mod Sorted
use Prim.Native.Nat.{ℕ, zero, suc, ◌≤◌, ◌+◌}
use mathlib.Core.Path.{◌≡◌, refl, ◌∙◌}
use mathlib.Core.Bool.{Bool, true, false}
use mathlib.Core.Option.{Option, none, some}
use mathlib.Core.List.{List, [], ◌∷◌}
use native.Mathlib.Omega.{arith}
use ascension_preservation.Common.Tests.{leb, ◌==◌, if◌then◌else◌}
use ascension_preservation.Common.Lists.{length}

abbrev pub Dict {ℓ} : Type ℓ → Type ℓ
Dict V = List (ℕ × V)

module _ {ℓ} {V : Type ℓ} where
  -- `d.get(k)`
  unfoldable pub get : ℕ → Dict V → Option V
  get k [] = none
  get k ((j, v) ∷ d) = if j == k then some v else get k d

  -- `d[k] = v`: a new key comes last.
  unfoldable pub put : ℕ → V → Dict V → Dict V
  put k v [] = (k, v) ∷ []
  put k v ((j, w) ∷ d) = if j == k then (k, v) ∷ d else (j, w) ∷ put k v d

  -- `del d[k]`, or `d.pop(k, None)`
  unfoldable pub del : ℕ → Dict V → Dict V
  del k [] = []
  del k ((j, w) ∷ d) = let rest = del k d in if j == k then rest else (j, w) ∷ rest

  pub get-put :
      (k j : ℕ) (v : V) (d : Dict V) → get j (put k v d) ≡ (if k == j then some v else get j d)
  unfolding get put
  get-put k j v [] = refl
  get-put k j v ((i, w) ∷ d) = ground (arith, get-put k j v d)

  pub get-del : (k j : ℕ) (d : Dict V) → get j (del k d) ≡ (if k == j then none else get j d)
  unfolding get del
  get-del k j [] = ground arith
  get-del k j ((i, w) ∷ d) = ground (arith, get-del k j d)

  unfoldable pub insert : ℕ × V → Dict V → Dict V
  insert (e, p) [] = (e, p) ∷ []
  insert (e, p) ((d, q) ∷ ws) = if leb e d then (e, p) ∷ (d, q) ∷ ws else (d, q) ∷ insert (e, p) ws

  -- `sorted(d.items())`, or `sorted(d)` with the values kept beside.
  unfoldable pub sort : Dict V → Dict V
  unfolding insert
  sort [] = []
  sort (w ∷ ws) = insert w (sort ws)

  pub get-insert :
      (k j : ℕ) (v : V) (d : Dict V)
      → get j (insert (k, v) d) ≡ (if k == j then some v else get j d)
  unfolding get insert
  get-insert k j v [] = refl
  get-insert k j v ((i, w) ∷ d) = ground (arith, get-insert k j v d)

  -- Sorting does not change what a look-up finds.
  pub get-sort : (j : ℕ) (d : Dict V) → get j (sort d) ≡ get j d
  unfolding sort
  get-sort j [] = refl
  get-sort j ((k, v) ∷ d) = get-insert k j v (sort d) ∙ rw (get-sort j d) (unfold get in refl)

-- `d.get(k, default)`
abbrev pub get_default {ℓ} : {V : Type ℓ} → Option V → V → V
get_default none d = d
get_default (some v) d = v

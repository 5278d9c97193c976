-- ===== src/Common/Dict/Sorted.antt =====
-- A dictionary in the order of its keys: the same entries.
use Prim.Native.Nat.{ℕ, suc, ◌≤◌}
use mathlib.Core.Path.{◌≡◌, refl, ap, ◌∙◌}
use mathlib.Core.Logic.{inl, inr}
use mathlib.Core.Option.{none, some}
use mathlib.Core.List.{[], ◌∷◌}
use native.Mathlib.Omega.{arith}
use ascension_preservation.Common.Tests.{leb, ◌==◌, Bool-cases}
use ascension_preservation.Common.Lists.{length, All}
use ascension_preservation.Common.Dict.{
  Dict, get, put, del, insert, sort, get-put, get-del, get-insert, get-sort,
}

module _ {ℓ} {V : Type ℓ} where
  -- The keys of a dictionary are distinct.
  abbrev pub Distinct : Dict V → Type ℓ
  Distinct [] = Unit
  Distinct ((e, p) ∷ ws) = (get e ws ≡ none) × Distinct ws

  -- Entries in order, none twice, all of them at least `lo`.
  abbrev pub Ascending : ℕ → Dict V → Type 0
  Ascending lo [] = Unit
  Ascending lo ((e, p) ∷ ws) = (lo ≤ e) × Ascending e ws

  length-insert : (w : ℕ × V) (ws : Dict V) → length (insert w ws) ≡ suc (length ws)
  unfolding insert
  length-insert (e, p) [] = refl
  length-insert (e, p) ((d, q) ∷ ws) = ground (arith, length-insert (e, p) ws)

  pub length-sort : (ws : Dict V) → length (sort ws) ≡ length ws
  unfolding sort
  length-sort [] = refl
  length-sort (w ∷ ws) = length-insert w (sort ws) ∙ ap suc (length-sort ws)

  module _ (P : ℕ × V → Type ℓ) where
    All-insert : (w : ℕ × V) (ws : Dict V) → P w → All P ws → All P (insert w ws)
    unfolding insert
    All-insert (e, p) [] h hs = (h, tt)
    All-insert (e, p) ((d, q) ∷ ws) h hs = elim (Bool-cases (leb e d)) [
      | inl le ↦ rw le (h, hs)
      | inr gt ↦ rw gt (hs.0, All-insert (e, p) ws h hs.1)
    ]

    pub All-sort : (ws : Dict V) → All P ws → All P (sort ws)
    unfolding sort
    All-sort [] h = tt
    All-sort (w ∷ ws) h = All-insert w (sort ws) h.0 (All-sort ws h.1)

  insert-Ascending :
      (w : ℕ × V) (lo : ℕ) (ws : Dict V) → lo ≤ w.0 → Ascending lo ws → Ascending lo (insert w ws)
  unfolding insert
  insert-Ascending (e, p) lo [] h a = (h, tt)
  insert-Ascending (e, p) lo ((d, q) ∷ ws) h (hd, a) = elim (Bool-cases (leb e d)) [
    | inl le ↦ rw le (h, (ground arith, a))
    | inr gt ↦ rw gt (hd, insert-Ascending (e, p) d ws (ground arith) a)
  ]

  pub sort-Ascending : (ws : Dict V) → Ascending 0 (sort ws)
  unfolding sort
  sort-Ascending [] = tt
  sort-Ascending (w ∷ ws) = insert-Ascending w 0 (sort ws) (omega arith) (sort-Ascending ws)

  -- Each entry of a dictionary is what a look-up of its entry finds.
  Found : Dict V → ℕ × V → Type ℓ
  Found ws w = get w.0 ws ≡ some w.1

  Found-cons :
      (e : ℕ) (p : V) (ws xs : Dict V)
      → get e ws ≡ none
      → All (Found ws) xs
      → All (Found ((e, p) ∷ ws)) xs
  unfolding Found get
  Found-cons e p ws [] fresh h = tt
  Found-cons e p ws ((d, q) ∷ xs) fresh (h, hs) = (ground (arith, h), Found-cons e p ws xs fresh hs)

  pub All-Found : (ws : Dict V) → Distinct ws → All (λ w. get w.0 ws ≡ some w.1) ws
  unfolding Found
  All-Found [] d = tt
  All-Found ((e, p) ∷ ws) (fresh, d) =
      (unfold get in ground arith, Found-cons e p ws ws fresh (All-Found ws d))

  pub put-Distinct : (k : ℕ) (v : V) (d : Dict V) → Distinct d → Distinct (put k v d)
  unfolding put
  put-Distinct k v [] h = (unfold get in refl, tt)
  put-Distinct k v ((j, w) ∷ d) (fresh, h) = elim (Bool-cases (j == k)) [
    | inl same ↦ rw same (ground (arith, fresh), h)
    | inr other ↦ rw other (get-put k j v d ∙ ground (arith, fresh), put-Distinct k v d h)
  ]

  pub del-Distinct : (k : ℕ) (d : Dict V) → Distinct d → Distinct (del k d)
  unfolding del
  del-Distinct k [] h = tt
  del-Distinct k ((j, w) ∷ d) (fresh, h) = elim (Bool-cases (j == k)) [
    | inl same ↦ rw same (del-Distinct k d h)
    | inr other ↦ rw other (get-del k j d ∙ ground (arith, fresh), del-Distinct k d h)
  ]

  insert-Distinct :
      (k : ℕ) (v : V) (d : Dict V) → get k d ≡ none → Distinct d → Distinct (insert (k, v) d)
  unfolding insert
  insert-Distinct k v [] new h = (unfold get in refl, tt)
  insert-Distinct k v ((j, w) ∷ d) new (fresh, h) = elim (Bool-cases (leb k j)) [
    | inl le ↦ rw le (new, (fresh, h))
    | inr gt ↦ rw gt (
      get-insert k j v d ∙ ground (arith, fresh),
      insert-Distinct k v d (unfold get in ground (arith, new)) h,
    )
  ]

  pub sort-Distinct : (d : Dict V) → Distinct d → Distinct (sort d)
  unfolding sort
  sort-Distinct [] h = tt
  sort-Distinct ((k, v) ∷ d) (fresh, h) =
      insert-Distinct k v (sort d) (get-sort k d ∙ fresh) (sort-Distinct d h)

-- ===== src/Coa/Essence/Budget.antt =====
-- The budget of a level is a row of the family's curve.
use mathlib.Core.Path.{subst}
use ascension_preservation.Common.{
  ℕ, ◌≤◌, ◌<◌, ◌≡◌, ◌⊎◌, refl, Bool, true, false, Bool-cases, inl, inr, none, some, List, [], ◌∷◌,
  ltb, ltb→lt, ◌==◌, if◌then◌else◌, arith, All, ap, ==_iff,
}
use ascension_preservation.Common.Dict.{Dict, get}
use ascension_preservation.Coa.Essence.{
  Row, curve, lowest_key, highest_key, clamped, at_level, budget,
}

abbrev IsKey : ℕ → Dict (ℕ × ℕ) → Type 0
IsKey x c = (w : ℕ × ℕ) × (get x c ≡ some w)

later-IsKey : (x j : ℕ) (v : ℕ × ℕ) (c : Dict (ℕ × ℕ)) → (x ≡ j) ⊎ IsKey x c → IsKey x ((j, v) ∷ c)
unfolding get
later-IsKey x j v c h = elim (Bool-cases (j == x)) [
  | inl e ↦ (v, rw e refl)
  | inr e ↦ elim h [
    | inl same ↦ absurd (ground (arith, e, same))
    | inr below ↦ (below.0, rw e (below.1))
  ]
]

-- The key that is kept is the first one or another.
kept-IsKey :
    (k j : ℕ) (v : ℕ × ℕ) (c : Dict (ℕ × ℕ)) (test : Bool) (x : ℕ)
    → (x ≡ (if test then j else k)) ⊎ IsKey x c
    → (x ≡ k) ⊎ IsKey x ((j, v) ∷ c)
kept-IsKey k j v c true x (inl e) = inr (later-IsKey x j v c (inl e))
kept-IsKey k j v c false x (inl e) = inl e
kept-IsKey k j v c test x (inr h) = inr (later-IsKey x j v c (inr h))

lowest_key-IsKey : (k : ℕ) (c : Dict (ℕ × ℕ)) → (lowest_key k c ≡ k) ⊎ IsKey (lowest_key k c) c
unfolding lowest_key
lowest_key-IsKey k [] = inl refl
lowest_key-IsKey k ((j, v) ∷ c) =
    kept-IsKey k j v c (ltb j k) (lowest_key (if ltb j k then j else k) c)
      (lowest_key-IsKey (if ltb j k then j else k) c)

highest_key-IsKey : (k : ℕ) (c : Dict (ℕ × ℕ)) → (highest_key k c ≡ k) ⊎ IsKey (highest_key k c) c
unfolding highest_key
highest_key-IsKey k [] = inl refl
highest_key-IsKey k ((j, v) ∷ c) =
    kept-IsKey k j v c (ltb k j) (highest_key (if ltb k j then j else k) c)
      (highest_key-IsKey (if ltb k j then j else k) c)

clamped-IsKey :
    (level k : ℕ) (v : ℕ × ℕ) (c : Dict (ℕ × ℕ)) → IsKey (clamped level k c) ((k, v) ∷ c)
unfolding clamped
clamped-IsKey level k v c = elim (Bool-cases (ltb (highest_key k c) level)) [
  | inl above ↦ rw above (later-IsKey (highest_key k c) k v c (highest_key-IsKey k c))
  | inr within ↦ rw within (later-IsKey (lowest_key k c) k v c (lowest_key-IsKey k c))
]

lowest_first : (k : ℕ) (c : Dict (ℕ × ℕ)) → lowest_key k c ≤ k
unfolding lowest_key
lowest_first k [] = omega arith
lowest_first k ((j, v) ∷ c) = elim (Bool-cases (ltb j k)) [
  | inl e ↦ rw e (omega (arith, ltb→lt j k e, lowest_first j c))
  | inr e ↦ rw e (lowest_first k c)
]

highest_first : (k : ℕ) (c : Dict (ℕ × ℕ)) → k ≤ highest_key k c
unfolding highest_key
highest_first k [] = omega arith
highest_first k ((j, v) ∷ c) = elim (Bool-cases (ltb k j)) [
  | inl e ↦ rw e (omega (arith, ltb→lt k j e, highest_first j c))
  | inr e ↦ rw e (highest_first k c)
]

-- The lowest key is below the others, and the highest above them.
lowest_bounds : (k : ℕ) (c : Dict (ℕ × ℕ)) → All (λ e. lowest_key k c ≤ e.0) c
unfolding lowest_key
lowest_bounds k [] = tt
lowest_bounds k ((j, v) ∷ c) =
    let start = lowest_first (if ltb j k then j else k) c in
    (ground (arith, start), lowest_bounds (if ltb j k then j else k) c)

highest_bounds : (k : ℕ) (c : Dict (ℕ × ℕ)) → All (λ e. e.0 ≤ highest_key k c) c
unfolding highest_key
highest_bounds k [] = tt
highest_bounds k ((j, v) ∷ c) =
    let start = highest_first (if ltb k j then j else k) c in
    (ground (arith, start), highest_bounds (if ltb k j then j else k) c)

all_below :
    (x level : ℕ) (c : Dict (ℕ × ℕ)) → x < level → All (λ e. e.0 ≤ x) c → All (λ e. e.0 < level) c
all_below x level [] lt h = tt
all_below x level (e ∷ c) lt (he, h) = (omega arith, all_below x level c lt h)

-- A level of the curve above the asked one.
abbrev pub AnyAbove : ℕ → Dict (ℕ × ℕ) → Type 0
AnyAbove level c = (j : ℕ) × (w : ℕ × ℕ) × (get j c ≡ some w) × (level < j)

highest-AnyAbove :
    (level k : ℕ) (v : ℕ × ℕ) (c : Dict (ℕ × ℕ))
    → get level ((k, v) ∷ c) ≡ none
    → ltb (highest_key k c) level ≡ false
    → AnyAbove level ((k, v) ∷ c)
highest-AnyAbove level k v c e within =
    let (w, found) = later-IsKey (highest_key k c) k v c (highest_key-IsKey k c) in
    elim (Bool-cases (highest_key k c == level)) [
      | inl same ↦
          cc
            (found, e, ap (λ (x : ℕ). get x ((k, v) ∷ c)) ((==_iff (highest_key k c) level).0 same))
      | inr other ↦ (highest_key k c, w, found, ground (arith, within, other))
    ]

-- The level is that of the end of the curve on the side of the asked one.
abbrev pub IsEnd : ℕ → Dict (ℕ × ℕ) → ℕ → Type 0
IsEnd level c x =
    All (λ e. e.0 < level) c × All (λ e. e.0 ≤ x) c ⊎ AnyAbove level c × All (λ e. x ≤ e.0) c

clamped-IsEnd :
    (level k : ℕ) (v : ℕ × ℕ) (c : Dict (ℕ × ℕ))
    → get level ((k, v) ∷ c) ≡ none
    → IsEnd level ((k, v) ∷ c) (clamped level k c)
clamped-IsEnd level k v c e = elim (Bool-cases (ltb (highest_key k c) level)) [
  | inl above ↦
      let below : All (λ e. e.0 ≤ highest_key k c) ((k, v) ∷ c) =
        (highest_first k c, highest_bounds k c) in
      let same : highest_key k c ≡ clamped level k c = unfold clamped in rw above refl in
      let lt = ltb→lt (highest_key k c) level above in
      subst (IsEnd level ((k, v) ∷ c)) same
        (inl (all_below (highest_key k c) level ((k, v) ∷ c) lt below, below))
  | inr within ↦
      let same : lowest_key k c ≡ clamped level k c = unfold clamped in rw within refl in
      subst (IsEnd level ((k, v) ∷ c)) same
        (inr (highest-AnyAbove level k v c e within, (lowest_first k c, lowest_bounds k c)))
]

-- On a curve that is not empty, a level that it does not have gets the entry of an end of the curve: of its highest
-- level if the asked one is above them all, and of its lowest level if some level is above the asked one.
pub budget_clamps :
    (family level : ℕ) (rows : List Row) (k : ℕ) (v : ℕ × ℕ) (c : Dict (ℕ × ℕ))
    → curve family rows ≡ (k, v) ∷ c
    → get level (curve family rows) ≡ none
    → (x : ℕ) × (get x (curve family rows) ≡ some (budget family level rows))
      × IsEnd level (curve family rows) x
unfolding budget
budget_clamps family level rows k v c e h =
    let missing : get level ((k, v) ∷ c) ≡ none = rw e at h in
    (
      clamped level k c,
      rw (h, e) (unfold at_level in rw ((clamped-IsKey level k v c).1) refl),
      rw e (clamped-IsEnd level k v c missing),
    )

-- ===== src/Importer/Items/Slots.antt =====
-- No slot is given twice.
use mathlib.Core.Path.{subst}
use ascension_preservation.Common.{
  ℕ, zero, suc, ◌+◌, ◌≡◌, refl, sym, ap, ap₂, ◌∙◌, Bool, true, false, not, ◌&&◌, ◌||◌, inl, inr,
  Bool-cases, none, some, List, [], ◌∷◌, ◌++◌, append_assoc, append-nil, length, take, ◌==◌, ==_iff,
  ltb, leb, arith,
}
use ascension_preservation.Importer.Items.{
  ItemRecord, Placing, skipped, placed, unwearable, homeless, Placement, Pass, has_slot, add_slot,
  free_slots, free_backpack, relocate, mailed_of, verdict, place, first_pass, start,
  plan_placements,
}

-- The slots of the rows in `character_inventory`.
unfoldable pub slots_of : List Placement → List ℕ
slots_of [] = []
slots_of ((r, none) ∷ ps) = slots_of ps
slots_of ((r, some s) ∷ ps) = s ∷ slots_of ps

abbrev pub Unique : List ℕ → Type 0
Unique [] = Unit {0}
Unique (s ∷ ss) = (has_slot s ss ≡ false) × Unique ss

pub slots_of-append : (ps qs : List Placement) → slots_of (ps ++ qs) ≡ slots_of ps ++ slots_of qs
unfolding slots_of
slots_of-append [] qs = refl
slots_of-append ((r, none) ∷ ps) qs = slots_of-append ps qs
slots_of-append ((r, some s) ∷ ps) qs = ap (λ ss. s ∷ ss) (slots_of-append ps qs)

pub mailed_of-append :
    (ps qs : List Placement) → mailed_of (ps ++ qs) ≡ mailed_of ps ++ mailed_of qs
unfolding mailed_of
mailed_of-append [] qs = refl
mailed_of-append ((r, none) ∷ ps) qs = ap (λ rs. r ∷ rs) (mailed_of-append ps qs)
mailed_of-append ((r, some s) ∷ ps) qs = mailed_of-append ps qs

pub has_slot-append :
    (s : ℕ) (ss ts : List ℕ) → has_slot s (ss ++ ts) ≡ (has_slot s ss || has_slot s ts)
unfolding has_slot
has_slot-append s [] ts = refl
has_slot-append s (t ∷ ss) ts = rw (has_slot-append s ss ts) (ground arith)

has_slot-last : (s t : ℕ) (ss : List ℕ) → has_slot s (ss ++ t ∷ []) ≡ (t == s || has_slot s ss)
unfolding has_slot
has_slot-last s t ss = has_slot-append s ss (t ∷ []) ∙ ground arith

has_slot-add_slot : (s t : ℕ) (ss : List ℕ) → has_slot s (add_slot t ss) ≡ (t == s || has_slot s ss)
unfolding add_slot
has_slot-add_slot s t ss = elim (Bool-cases (has_slot t ss)) [
  | inl e ↦ elim (Bool-cases (t == s)) [
    | inl same ↦ rw (e, same) (rw ((==_iff t s).0 same) at e)
    | inr other ↦ rw (e, other) refl
  ]
  | inr e ↦ rw e (has_slot-last s t ss)
]

Unique-append :
    (ss ts : List ℕ)
    → Unique ss
    → Unique ts
    → ((s : ℕ) → has_slot s ss ≡ true → has_slot s ts ≡ false)
    → Unique (ss ++ ts)
unfolding has_slot
Unique-append [] ts u v apart = v
Unique-append (s ∷ ss) ts (new, u) v apart = (
  has_slot-append s ss ts ∙ rw (new, apart s (ground arith)) refl,
  Unique-append ss ts u v (λ t h. apart t (rw h (ground arith))),
)

has_slot-take : (s n : ℕ) (ss : List ℕ) → has_slot s ss ≡ false → has_slot s (take n ss) ≡ false
unfolding has_slot
has_slot-take s zero ss h = refl
has_slot-take s (suc n) [] h = refl
has_slot-take s (suc n) (t ∷ ss) h = ground (arith, has_slot-take s n ss)

Unique-take : (n : ℕ) (ss : List ℕ) → Unique ss → Unique (take n ss)
Unique-take zero ss u = tt
Unique-take (suc n) [] u = tt
Unique-take (suc n) (s ∷ ss) (new, u) = (has_slot-take s n ss new, Unique-take n ss u)

-- The free slots: those of the range that are not in use.
pub has_slot-free_slots :
    (s n a : ℕ) (used : List ℕ)
    → has_slot s (free_slots n a used) ≡ (leb a s && (ltb s (a + n) && not (has_slot s used)))
unfolding free_slots has_slot
has_slot-free_slots s zero a used = ground arith
has_slot-free_slots s (suc n) a used =
    let rest : has_slot s (free_slots n (suc a) used)
        ≡ (leb (suc a) s && (ltb s (suc a + n) && not (has_slot s used))) =
      has_slot-free_slots s n (suc a) used in
    elim (Bool-cases (has_slot a used)) [
      | inl e ↦ elim (Bool-cases (a == s)) [
        | inl same ↦
            let here : has_slot s used ≡ true = rw ((==_iff a s).0 same) at e in
            rw (e, rest, here) (ground arith)
        | inr other ↦ rw (e, rest) (ground arith)
      ]
      | inr e ↦ elim (Bool-cases (a == s)) [
        | inl same ↦
            let here : has_slot s used ≡ false = rw ((==_iff a s).0 same) at e in
            rw e (rw (same, here) (ground arith))
        | inr other ↦ rw e (rw (other, rest) (ground arith))
      ]
    ]

free_slots-Unique : (n a : ℕ) (used : List ℕ) → Unique (free_slots n a used)
unfolding free_slots
free_slots-Unique zero a used = tt
free_slots-Unique (suc n) a used = elim (Bool-cases (has_slot a used)) [
  | inl e ↦ rw e (free_slots-Unique n (suc a) used)
  | inr e ↦
      rw e (has_slot-free_slots a n (suc a) used ∙ ground arith, free_slots-Unique n (suc a) used)
]

take_nil : (n : ℕ) → take {A = ℕ} n [] ≡ []
take_nil zero = refl
take_nil (suc n) = refl

pub slots_of-relocate :
    (rs : List ItemRecord) (free : List ℕ) → slots_of (relocate rs free) ≡ take (length rs) free
unfolding relocate slots_of
slots_of-relocate [] free = refl
slots_of-relocate (r ∷ rs) [] = slots_of-relocate rs [] ∙ take_nil (length rs)
slots_of-relocate (r ∷ rs) (s ∷ free) = ap (λ ss. s ∷ ss) (slots_of-relocate rs free)

module _ (known : ℕ → Bool) (refused : ItemRecord → ℕ → Bool) where
  abbrev pub captured_in : Placing → List ℕ
  captured_in (placed slot) = slot ∷ []
  captured_in v = []

  -- The slots that the checkpoint itself gives to the records that keep theirs.
  unfoldable pub captured : List ItemRecord → List ℕ
  captured [] = []
  captured (r ∷ rs) = captured_in (verdict known refused r) ++ captured rs

  -- The slots in use are those of the records that keep theirs, the rows have no others, and none is mailed.
  unfoldable pub Follows : List ℕ → Pass → Type 0
  Follows ss p =
      (slots_of p.placements ≡ ss)
      × ((s : ℕ) → has_slot s p.used_slots ≡ has_slot s ss)
      × (mailed_of p.placements ≡ [])

  place-Follows :
      (v : Placing) (r : ItemRecord) (ss : List ℕ) (p : Pass)
      → Follows ss p
      → Follows (ss ++ captured_in v) (place known refused v r p)
  unfolding Follows place
  place-Follows skipped r ss p h = rw (append-nil ss) h
  place-Follows (unwearable slot) r ss p h = rw (append-nil ss) h
  place-Follows homeless r ss p h = rw (append-nil ss) h
  place-Follows (placed slot) r ss p (e, h, none_mailed) = (
    slots_of-append p.placements ((r, some slot) ∷ [])
        ∙ unfold slots_of in ap (λ ts. ts ++ slot ∷ []) e,
    λ s. has_slot-add_slot s slot p.used_slots ∙ rw (h s) (sym (has_slot-last s slot ss)),
    mailed_of-append p.placements ((r, some slot) ∷ [])
        ∙ unfold mailed_of in ap (λ ts. ts ++ []) none_mailed,
  )

  pub first_pass-Follows :
      (rs : List ItemRecord) (ss : List ℕ) (p : Pass)
      → Follows ss p
      → Follows (ss ++ captured rs) (first_pass known refused rs p)
  unfolding first_pass captured
  first_pass-Follows [] ss p h = subst (λ ts. Follows ts p) (sym (append-nil ss)) h
  first_pass-Follows (r ∷ rs) ss p h =
      let v : Placing = verdict known refused r in
      subst (λ ts. Follows ts (first_pass known refused rs (place known refused v r p)))
        (append_assoc ss (captured_in v) (captured rs))
        (first_pass-Follows rs (ss ++ captured_in v) (place known refused v r p)
          (place-Follows v r ss p h))

  pub start-Follows : Follows [] (start known refused)
  unfolding Follows slots_of mailed_of
  start-Follows = (refl, λ s. refl, refl)

  -- No slot of the character gets two items, where the records that keep their captured slots do not share one: the
  -- items that are moved to the backpack come to slots that no other item has.
  pub plan_placements-Unique :
      (rs : List ItemRecord)
      → Unique (captured rs)
      → Unique (slots_of (plan_placements known refused rs))
  unfolding plan_placements free_backpack Follows
  plan_placements-Unique rs u =
      let p : Pass = first_pass known refused rs (start known refused) in
      let free : List ℕ = free_slots 16 23 p.used_slots in
      let moved : List ItemRecord = p.unwearables ++ p.homeless_items in
      let follows : Follows (captured rs) p =
        first_pass-Follows rs [] (start known refused) start-Follows in
      let slots : slots_of (p.placements ++ relocate moved free)
          ≡ captured rs ++ take (length moved) free =
        slots_of-append p.placements (relocate moved free)
        ∙ ap₂ (λ ss ts. ss ++ ts) (follows.0) (slots_of-relocate moved free) in
      subst Unique (sym slots) (
        Unique-append (captured rs) (take (length moved) free) u
          (Unique-take (length moved) free (free_slots-Unique 16 23 p.used_slots))
          (λ s here.
            has_slot-take s (length moved) free
              (has_slot-free_slots s 16 23 p.used_slots ∙ rw (follows.1 s, here) (ground arith))))

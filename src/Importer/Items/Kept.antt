-- ===== src/Importer/Items/Kept.antt =====
-- No item is lost, and none is made twice.
use ascension_preservation.Common.{
  ℕ, suc, ◌+◌, ◌-◌, ◌≡◌, refl, ap, ◌∙◌, Bool, some, List, [], ◌∷◌, ◌++◌, length, if◌then◌else◌,
  arith,
}
use ascension_preservation.Importer.Items.{
  ItemRecord, Placing, skipped, placed, unwearable, homeless, Placement, Pass, free_backpack,
  relocate, mailed_of, verdict, place, first_pass, start, plan_placements,
}

-- How many of the records pass a test.
abbrev pub count : (ItemRecord → Bool) → List ItemRecord → ℕ
count test [] = 0
count test (r ∷ rs) = let rest = count test rs in if test r then suc rest else rest

abbrev pub records_of : List Placement → List ItemRecord
records_of [] = []
records_of ((r, slot) ∷ ps) = r ∷ records_of ps

abbrev pub keeps : Placing → ItemRecord → List ItemRecord
keeps skipped r = []
keeps v r = r ∷ []

count-append :
    (test : ItemRecord → Bool) (rs qs : List ItemRecord)
    → count test (rs ++ qs) ≡ count test rs + count test qs
count-append test [] qs = omega arith
count-append test (r ∷ rs) qs = ground (arith, count-append test rs qs)

records_of-append :
    (ps qs : List Placement) → records_of (ps ++ qs) ≡ records_of ps ++ records_of qs
records_of-append [] qs = refl
records_of-append ((r, slot) ∷ ps) qs = ap (λ rs. r ∷ rs) (records_of-append ps qs)

records_of-relocate : (rs : List ItemRecord) (free : List ℕ) → records_of (relocate rs free) ≡ rs
unfolding relocate
records_of-relocate [] free = refl
records_of-relocate (r ∷ rs) [] = ap (λ qs. r ∷ qs) (records_of-relocate rs [])
records_of-relocate (r ∷ rs) (s ∷ free) = ap (λ qs. r ∷ qs) (records_of-relocate rs free)

-- The mail takes what the free slots do not.
pub mailed_of-relocate :
    (rs : List ItemRecord) (free : List ℕ)
    → length (mailed_of (relocate rs free)) ≡ length rs - length free
unfolding relocate mailed_of
mailed_of-relocate [] free = omega arith
mailed_of-relocate (r ∷ rs) [] = omega (arith, mailed_of-relocate rs [])
mailed_of-relocate (r ∷ rs) (s ∷ free) = omega (arith, mailed_of-relocate rs free)

module _ (known : ℕ → Bool) (refused : ItemRecord → ℕ → Bool) where
  -- The records that are not skipped.
  unfoldable pub kept : List ItemRecord → List ItemRecord
  kept [] = []
  kept (r ∷ rs) = keeps (verdict known refused r) r ++ kept rs

  module _ (test : ItemRecord → Bool) where
    total : Pass → ℕ
    total p =
        count test (records_of p.placements)
        + (count test p.unwearables + count test p.homeless_items)

    place_counts :
        (v : Placing) (r : ItemRecord) (p : Pass)
        → total (place known refused v r p) ≡ total p + count test (keeps v r)
    unfolding total place
    place_counts skipped r p = omega arith
    place_counts (placed slot) r p = omega (
      arith,
      ap (count test) (records_of-append p.placements ((r, some slot) ∷ [])),
      count-append test (records_of p.placements) (r ∷ []),
    )
    place_counts (unwearable slot) r p = omega (arith, count-append test p.unwearables (r ∷ []))
    place_counts homeless r p = omega (arith, count-append test p.homeless_items (r ∷ []))

    first_pass_counts :
        (rs : List ItemRecord) (p : Pass)
        → total (first_pass known refused rs p) ≡ total p + count test (kept rs)
    unfolding first_pass kept
    first_pass_counts [] p = omega arith
    first_pass_counts (r ∷ rs) p =
        let v : Placing = verdict known refused r in
        omega (
          arith,
          first_pass_counts rs (place known refused v r p),
          place_counts v r p,
          count-append test (keeps v r) (kept rs),
        )

    -- Of the records that are not skipped, each gets a row, and as many rows as it stands in the checkpoint: whatever
    -- is counted, the rows have as many of it as those records. What is unwearable, or has lost its bag, is among them.
    pub plan_placements_counts :
        (rs : List ItemRecord)
        → count test (records_of (plan_placements known refused rs)) ≡ count test (kept rs)
    unfolding plan_placements total
    plan_placements_counts rs =
        let p : Pass = first_pass known refused rs (start known refused) in
        let moved : List ItemRecord = p.unwearables ++ p.homeless_items in
        let free : List ℕ = free_backpack p.used_slots in
        let items : records_of (p.placements ++ relocate moved free)
            ≡ records_of p.placements ++ moved =
          records_of-append p.placements (relocate moved free)
          ∙ ap (λ rs. records_of p.placements ++ rs) (records_of-relocate moved free) in
        omega (
          arith,
          ap (count test) items,
          count-append test (records_of p.placements) moved,
          count-append test p.unwearables p.homeless_items,
          first_pass_counts rs (start known refused),
        )

-- ===== src/Importer/Items/Full.antt =====
-- When items are mailed.
use ascension_preservation.Common.{
  ℕ, zero, suc, ◌≤◌, ◌<◌, ◌≡◌, refl, ap, ◌∙◌, Bool, true, List, [], ◌∷◌, ◌++◌, length, take, arith,
}
use ascension_preservation.Importer.Items.{
  ItemRecord, Pass, has_slot, free_slots, free_backpack, relocate, mailed_of, first_pass, start,
  plan_placements,
}
use ascension_preservation.Importer.Items.Slots.{
  slots_of, slots_of-append, slots_of-relocate, mailed_of-append, has_slot-append,
  has_slot-free_slots, captured, Follows, first_pass-Follows, start-Follows,
}
use ascension_preservation.Importer.Items.Kept.{mailed_of-relocate}

take_all : (n : ℕ) (ss : List ℕ) → length ss ≤ n → take n ss ≡ ss
take_all zero [] h = refl
take_all zero (s ∷ ss) h = absurd (omega arith)
take_all (suc n) [] h = refl
take_all (suc n) (s ∷ ss) h = ap (λ ts. s ∷ ts) (take_all n ss (omega arith))

module _ (known : ℕ → Bool) (refused : ItemRecord → ℕ → Bool) where
  -- Something is mailed only if the backpack is full: every one of its sixteen slots has an item then.
  pub plan_placements_full :
      (rs : List ItemRecord) (s : ℕ)
      → 1 ≤ length (mailed_of (plan_placements known refused rs))
      → 23 ≤ s
      → s < 39
      → has_slot s (slots_of (plan_placements known refused rs)) ≡ true
  unfolding plan_placements free_backpack Follows
  plan_placements_full rs s some_mailed low high =
      let p : Pass = first_pass known refused rs (start known refused) in
      let free : List ℕ = free_slots 16 23 p.used_slots in
      let moved : List ItemRecord = p.unwearables ++ p.homeless_items in
      let follows : Follows known refused (captured known refused rs) p =
        first_pass-Follows known refused rs [] (start known refused)
          (start-Follows known refused) in
      let mailed : mailed_of (p.placements ++ relocate moved free)
          ≡ mailed_of (relocate moved free) =
        mailed_of-append p.placements (relocate moved free)
        ∙ ap (λ ms. ms ++ mailed_of (relocate moved free)) (follows.2) in
      let all_free : length free ≤ length moved =
        omega (arith, some_mailed, ap length mailed, mailed_of-relocate moved free) in
      let slots : slots_of (p.placements ++ relocate moved free) ≡ slots_of p.placements ++ free =
        slots_of-append p.placements (relocate moved free)
        ∙ ap (λ ts. slots_of p.placements ++ ts)
            (slots_of-relocate moved free ∙ take_all (length moved) free all_free) in
      rw
        (
          slots,
          has_slot-append s (slots_of p.placements) free,
          has_slot-free_slots s 16 23 p.used_slots,
          follows.0,
          follows.1 s,
        )
        (ground arith)

-- ===== src/Cache/Winners/Best.antt =====
-- The winner of an entry.
use mathlib.Core.Path.{subst}
use ascension_preservation.Common.{
  ℕ, ◌≡◌, ◌⊎◌, refl, sym, ap, ◌∙◌, true, inl, inr, Bool-cases, Option, none, some, List, [], ◌∷◌,
  ◌++◌, append_assoc, append-nil, ◌==◌, ==_iff, if◌then◌else◌, arith,
}
use ascension_preservation.Common.Dict.{Dict, get, put, get-put}
use ascension_preservation.Common.Lex.{Order, lex, lex-Order}
use ascension_preservation.Common.Texts.{Text, text_leb, text_total, text_trans}
use ascension_preservation.Cache.Winners.{
  Observation, considered, bool_leb, later_first, key_le, winner_key, better, Group, add_to,
  collect_one, collect, best_of, choose_each, pick_winners,
}

key_le-Order : Order key_le
unfolding key_le
key_le-Order =
    lex-Order bool_leb (lex text_leb (lex later_first text_leb))
      (record { total = λ a b h. ground arith; trans = λ a b c h k. ground arith })
      (lex-Order text_leb (lex later_first text_leb)
        (record { total = text_total; trans = text_trans })
        (lex-Order later_first text_leb
          (record { total = λ a b h. ground arith; trans = λ a b c h k. ground arith })
          (record { total = text_total; trans = text_trans })))

-- A record among the others.
abbrev pub Among : Observation → List Observation → Type 0
Among x [] = ⊥
Among x (r ∷ rs) = (x ≡ r) ⊎ Among x rs

module _ (mode locale : Option Text) where
  -- `x` does not come before `w`.
  abbrev pub NotAfter : Observation → Observation → Type 0
  NotAfter x w = key_le (winner_key mode locale x) (winner_key mode locale w) ≡ true

  NotAfter-self : (x : Observation) → NotAfter x x
  NotAfter-self x =
      elim (Bool-cases (key_le (winner_key mode locale x) (winner_key mode locale x))) [
        | inl e ↦ e
        | inr e ↦ key_le-Order.total _ _ e
      ]

  NotAfter-trans : (x y z : Observation) → NotAfter x y → NotAfter y z → NotAfter x z
  NotAfter-trans x y z =
      key_le-Order.trans (winner_key mode locale x) (winner_key mode locale y)
        (winner_key mode locale z)

  better_lem :
      (best r : Observation)
      → NotAfter best (better mode locale best r)
        × NotAfter r (better mode locale best r)
        × ((better mode locale best r ≡ best) ⊎ (better mode locale best r ≡ r))
  unfolding better
  better_lem best r =
      elim (Bool-cases (key_le (winner_key mode locale r) (winner_key mode locale best))) [
        | inl e ↦ rw e (NotAfter-self best, e, inl refl)
        | inr e ↦ rw e (key_le-Order.total _ _ e, NotAfter-self r, inr refl)
      ]

  best_of_above :
      (best : Observation) (rs : List Observation) (x : Observation)
      → Among x (best ∷ rs)
      → NotAfter x (best_of mode locale best rs)
  unfolding best_of
  best_of_above best [] x (inl e) = subst (λ y. NotAfter y best) (sym e) (NotAfter-self best)
  best_of_above best [] x (inr h) = absurd h
  best_of_above best (r ∷ rs) x h =
      let next : Observation = better mode locale best r in
      let ours = better_lem best r in
      let rest : NotAfter next (best_of mode locale next rs) =
        best_of_above next rs next (inl refl) in
      elim h [
        | inl e ↦
            subst (λ y. NotAfter y (best_of mode locale next rs)) (sym e)
              (NotAfter-trans best next (best_of mode locale next rs) (ours.0) rest)
        | inr (inl e) ↦
            subst (λ y. NotAfter y (best_of mode locale next rs)) (sym e)
              (NotAfter-trans r next (best_of mode locale next rs) (ours.1) rest)
        | inr (inr k) ↦ best_of_above next rs x (inr k)
      ]

  best_of-Among :
      (best : Observation) (rs : List Observation) → Among (best_of mode locale best rs) (best ∷ rs)
  unfolding best_of
  best_of-Among best [] = inl refl
  best_of-Among best (r ∷ rs) =
      let next : Observation = better mode locale best r in
      let ours = better_lem best r in
      elim (best_of-Among next rs) [
        | inl e ↦ elim (ours.2) [ inl f ↦ inl (e ∙ f) | inr f ↦ inr (inl (e ∙ f)) ]
        | inr k ↦ inr (inr k)
      ]

  -- The winner of a group, if there is one.
  abbrev best_in : Option Group → Option Observation
  best_in none = none
  best_in (some (first, others)) = some (best_of mode locale first others)

  get-choose_each :
      (e : ℕ) (groups : Dict Group)
      → get e (choose_each mode locale groups) ≡ best_in (get e groups)
  unfolding get choose_each
  get-choose_each e [] = refl
  get-choose_each e ((f, (g, gs)) ∷ groups) = elim (Bool-cases (f == e)) [
    | inl h ↦ rw h refl
    | inr h ↦ rw (h, get-choose_each e groups) refl
  ]

  -- A record that is considered, if it is of the entry.
  abbrev pub candidate : ℕ → Option Observation → List Observation → List Observation
  candidate e none others = others
  candidate e (some r) others = if r.entry == e then r ∷ others else others

  -- The records that compete for an entry, in their order.
  abbrev pub candidates : ℕ → List Observation → List Observation
  candidates e [] = []
  candidates e (r ∷ recs) = candidate e (considered mode locale r) (candidates e recs)

  -- A group with more records behind it.
  abbrev extended : Option Group → List Observation → Option Group
  extended none [] = none
  extended none (r ∷ rs) = some (r, rs)
  extended (some (first, others)) rs = some (first, others ++ rs)

  extended-add_to :
      (o : Option Group) (r : Observation) (rs : List Observation)
      → extended (some (add_to o r)) rs ≡ extended o (r ∷ rs)
  unfolding add_to
  extended-add_to none r rs = refl
  extended-add_to (some (first, others)) r rs =
      ap (λ (xs : List Observation). some (first, xs)) (append_assoc others (r ∷ []) rs)

  get-collect_one :
      (e : ℕ) (o : Option Observation) (groups : Dict Group) (rs : List Observation)
      → extended (get e (collect_one o groups)) rs ≡ extended (get e groups) (candidate e o rs)
  unfolding collect_one
  get-collect_one e none groups rs = refl
  get-collect_one e (some r) groups rs =
      let found : get e (put r.entry (add_to (get r.entry groups) r) groups)
          ≡ (if r.entry == e then some (add_to (get r.entry groups) r) else get e groups) =
        get-put r.entry e (add_to (get r.entry groups) r) groups in
      elim (Bool-cases (r.entry == e)) [
        | inl h ↦
            let this : r.entry ≡ e = (==_iff r.entry e).0 h in
            rw (found, h, extended-add_to (get r.entry groups) r rs, this) refl
        | inr h ↦ rw (found, h) refl
      ]

  extended-nil : (o : Option Group) → extended o [] ≡ o
  extended-nil none = refl
  extended-nil (some (first, others)) =
      ap (λ (xs : List Observation). some (first, xs)) (append-nil others)

  get-collect :
      (e : ℕ) (recs : List Observation) (groups : Dict Group)
      → get e (collect mode locale recs groups) ≡ extended (get e groups) (candidates e recs)
  unfolding collect
  get-collect e [] groups = sym (extended-nil (get e groups))
  get-collect e (r ∷ recs) groups =
      get-collect e recs (collect_one (considered mode locale r) groups)
      ∙ get-collect_one e (considered mode locale r) groups (candidates e recs)

  best_in-extended :
      (x : Observation) (rs : List Observation)
      → Among x rs
      → (w : Observation) × (best_in (extended none rs) ≡ some w) × Among w rs × NotAfter x w
  best_in-extended x [] h = absurd h
  best_in-extended x (r ∷ rs) h =
      (best_of mode locale r rs, refl, best_of-Among r rs, best_of_above r rs x h)

  -- Each entry that has a candidate for the view, a record of the mode and the locale, has a winner: it is one of the
  -- candidates, and none of them comes after it in the order of the keys.
  pub pick_winners_lem :
      (recs : List Observation) (e : ℕ) (x : Observation)
      → Among x (candidates e recs)
      → (w : Observation) × (get e (pick_winners recs mode locale) ≡ some w)
        × Among w (candidates e recs)
        × NotAfter x w
  unfolding pick_winners
  pick_winners_lem recs e x h =
      let best = best_in-extended x (candidates e recs) h in
      let start : get {V = Group} e [] ≡ none = unfold get in refl in
      let grouped : get e (collect mode locale recs []) ≡ extended none (candidates e recs) =
        get-collect e recs [] ∙ ap (λ o. extended o (candidates e recs)) start in
      (
        best.0,
        get-choose_each e (collect mode locale recs []) ∙ ap best_in grouped ∙ best.1,
        best.2,
        best.3,
      )

-- ===== src/World/Packets/Builds/Votes.antt =====
-- The class of a build is one that most of its entries vote for.
use ascension_preservation.Common.{
  ℕ, ◌≤◌, ◌≡◌, sym, ◌∙◌, Bool-cases, Option-cases, All, ◌+◌, inl, inr, Option, none, some, List, [],
  ◌∷◌, ltb, ltb→lt, ◌==◌, if◌then◌else◌, arith,
}
use ascension_preservation.Common.Dict.{Dict, get, put, get_default, sort, get-sort}
use ascension_preservation.Common.Dict.Sorted.{Distinct, All-Found, put-Distinct, sort-Distinct}
use ascension_preservation.World.Packets.Builds.{
  ClassType, build_filter_class, add_vote, count_votes, most, voted, build_class_of,
}

-- How many votes the chosen one has.
pub most_votes : ℕ → Dict ℕ → ℕ
most_votes n [] = n
most_votes n ((c, v) ∷ votes) = if ltb n v then most_votes v votes else most_votes n votes

most_votes_least : (n : ℕ) (votes : Dict ℕ) → n ≤ most_votes n votes
unfolding most_votes
most_votes_least n [] = omega arith
most_votes_least n ((c, v) ∷ votes) = elim (Bool-cases (ltb n v)) [
  | inl e ↦ rw e (omega (arith, ltb→lt n v e, most_votes_least v votes))
  | inr e ↦ rw e (most_votes_least n votes)
]

most_votes_bound : (n j m : ℕ) (votes : Dict ℕ) → get j votes ≡ some m → m ≤ most_votes n votes
unfolding most_votes get
most_votes_bound n j m [] h = cc h
most_votes_bound n j m ((c, v) ∷ votes) h = elim (Bool-cases (c == j)) [
  | inl here ↦
      let same : some v ≡ some m = rw here at h in
      let equal : v ≡ m = cc same in
      elim (Bool-cases (ltb n v)) [
        | inl e ↦ rw e (omega (arith, equal, most_votes_least v votes))
        | inr e ↦ rw e (let low = most_votes_least n votes in ground (arith, equal, e, low))
      ]
  | inr later ↦
      let rest : get j votes ≡ some m = rw later at h in
      elim (Bool-cases (ltb n v)) [
        | inl e ↦ rw e (most_votes_bound v j m votes rest)
        | inr e ↦ rw e (most_votes_bound n j m votes rest)
      ]
]

most_holds :
    (P : ℕ × ℕ → Type 0) (c v : ℕ) (votes : Dict ℕ)
    → P (c, v)
    → All P votes
    → P (most c v votes, most_votes v votes)
unfolding most most_votes
most_holds P c v [] h hs = h
most_holds P c v ((d, w) ∷ votes) h hs = elim (Bool-cases (ltb v w)) [
  | inl e ↦ rw e (most_holds P d w votes (hs.0) (hs.1))
  | inr e ↦ rw e (most_holds P c v votes h (hs.1))
]

counted-Distinct :
    (cts : List ClassType) (ids : List ℕ) (votes : Dict ℕ)
    → Distinct votes
    → Distinct (count_votes cts ids votes)
unfolding count_votes add_vote
counted-Distinct cts [] votes h = h
counted-Distinct cts (id ∷ ids) votes h = elim (Option-cases (build_filter_class cts id)) [
  | inl none_for ↦ rw none_for (counted-Distinct cts ids votes h)
  | inr (c, some_for) ↦ rw some_for (
      counted-Distinct cts ids (put c (get_default (get c votes) 0 + 1) votes)
        (put-Distinct c (get_default (get c votes) 0 + 1) votes h))
]

bounded : (v j m c : ℕ) (votes : Dict ℕ) → get j ((c, v) ∷ votes) ≡ some m → m ≤ most_votes v votes
unfolding get
bounded v j m c votes h = elim (Bool-cases (c == j)) [
  | inl here ↦
      let same : some v ≡ some m = rw here at h in
      let equal : v ≡ m = cc same in omega (arith, equal, most_votes_least v votes)
  | inr later ↦ most_votes_bound v j m votes (rw later at h)
]

winner :
    (fallback : Option ℕ) (votes : Dict ℕ) (j m : ℕ)
    → Distinct votes
    → get j votes ≡ some m
    → (n : ℕ) × (get (voted fallback votes) votes ≡ some n) × (m ≤ n)
unfolding voted
winner fallback [] j m h e = unfold get in cc e
winner fallback ((c, v) ∷ votes) j m h e =
    let entries = All-Found ((c, v) ∷ votes) h in
    (
      most_votes v votes,
      most_holds (λ w. get (w.0) ((c, v) ∷ votes) ≡ some (w.1)) c v votes (entries.0) (entries.1),
      bounded v j m c votes e,
    )

-- Where the build does not fix its class, and at least one entry votes: the class that is chosen has votes,
-- and no class has more.
pub build_class_of_wins :
    (cts : List ClassType) (fallback : Option ℕ) (ids : List ℕ) (j m : ℕ)
    → get j (count_votes cts ids []) ≡ some m
    → (n : ℕ) × (get (build_class_of cts none fallback ids) (count_votes cts ids []) ≡ some n)
      × (m ≤ n)
unfolding build_class_of
build_class_of_wins cts fallback ids j m e =
    let votes = count_votes cts ids [] in
    let distinct = sort-Distinct votes (counted-Distinct cts ids [] tt) in
    let (n, found, most) = winner fallback (sort votes) j m distinct (get-sort j votes ∙ e) in
    (n, sym (get-sort (voted fallback (sort votes)) votes) ∙ found, most)

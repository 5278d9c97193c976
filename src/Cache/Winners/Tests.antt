-- ===== src/Cache/Winners/Tests.antt =====
-- Two records of an item, and one of another.
use ascension_preservation.Common.{ℕ, ◌≡◌, refl, none, some, inl, inr, List, [], ◌∷◌}
use ascension_preservation.Common.Bytes.{codes, eq_bytes}
use ascension_preservation.Common.Dict.{get, put}
use ascension_preservation.Common.Lex.{lex}
use ascension_preservation.Common.Texts.{Text, text_leb, later}
use ascension_preservation.Cache.Winners.{
  Observation, has_text, dates_of, latest, of_mode, first_id, first_observed, winner_date, in_mode,
  in_locale, considered, key_le, winner_key, better, add_to, collect_one, collect, best_of,
  choose_each, pick_winners,
}
use ascension_preservation.Cache.Winners.Best.{Among, candidates, NotAfter, pick_winners_lem}

abbrev seen_at : ℕ → Text → Observation
seen_at entry date = record {
  entry = entry;
  sha1 = 1 ∷ [];
  payload = [];
  modes = codes "a" ∷ [];
  locales = codes "enUS" ∷ [];
  sources = record { id = 4; slug = codes "a"; locale = codes "enUS"; captured = date } ∷ [];
  last_captured = date;
}

abbrev observed : List Observation
observed =
    seen_at 7 (codes "2026-01-02")
    ∷ seen_at 8 []
    ∷ seen_at 7 (codes "2026-03-01")
    ∷ seen_at 7 []
    ∷ []

newest :
    get 7 (pick_winners observed (some (codes "a")) none) ≡ some (seen_at 7 (codes "2026-03-01"))
unfolding get pick_winners choose_each collect collect_one add_to put considered in_mode in_locale
    has_text eq_bytes best_of better key_le lex text_leb winner_key winner_date latest dates_of
    of_mode first_observed first_id later
newest = refl

german : get 7 (pick_winners observed none (some (codes "deDE"))) ≡ none
unfolding get pick_winners choose_each collect collect_one considered in_mode in_locale has_text
    eq_bytes
german = refl

competes : Among (seen_at 7 []) (candidates (some (codes "a")) none 7 observed)
unfolding considered in_mode in_locale has_text eq_bytes
competes = inr (inr (inl refl))

pick_winners_example :
    (w : Observation) × (get 7 (pick_winners observed (some (codes "a")) none) ≡ some w)
    × Among w (candidates (some (codes "a")) none 7 observed)
    × NotAfter (some (codes "a")) none (seen_at 7 []) w
pick_winners_example = pick_winners_lem (some (codes "a")) none observed 7 (seen_at 7 []) competes

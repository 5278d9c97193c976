-- ===== src/Cache/Winners.antt =====
-- tools/cache-consolidator/tools/export.py and capture_dates.py: which of the records of an entry is published. A row
-- comes with the rows of its sources, and its modes and locales as lists.
pub mod Best
mod Tests
use ascension_preservation.Common.{
  ℕ, ◌+◌, ◌≤◌, Bool, true, false, not, ◌&&◌, ◌||◌, Option, none, some, List, [], ◌∷◌, ◌++◌, map,
  length, min, ◌==◌, leb, if◌then◌else◌,
}
use ascension_preservation.Common.Bytes.{Bytes, codes, eq_bytes}
use ascension_preservation.Common.Dict.{Dict, get, put, get_default}
use ascension_preservation.Common.Lex.{lex}
use ascension_preservation.Common.Texts.{Text, text_leb, earlier, later}

pub record SourceRow : Type 0 where
  pub id : ℕ
  pub slug : Text
  pub locale : Text
  pub captured : Text

pub record Observation : Type 0 where
  pub entry : ℕ
  pub sha1 : Text
  pub payload : Bytes
  pub modes : List Text
  pub locales : List Text
  pub sources : List SourceRow
  pub last_captured : Text

unfoldable pub has_text : Text → List Text → Bool
has_text t [] = false
has_text t (u ∷ us) = eq_bytes u t || has_text t us

-- The dates of a list of sources that have one.
unfoldable pub dates_of : List SourceRow → List Text
dates_of [] = []
dates_of (s ∷ ss) =
    let rest = dates_of ss in if eq_bytes s.captured [] then rest else s.captured ∷ rest

-- `max(dates, default="")`: no text comes before the empty one.
unfoldable pub latest : List Text → Text
latest [] = []
latest (d ∷ ds) = later d (latest ds)

-- The sources of a mode, or all of them: `none` is `*`.
unfoldable pub of_mode : Option Text → List SourceRow → List SourceRow
of_mode none ss = ss
of_mode (some mode) [] = []
of_mode (some mode) (s ∷ ss) =
    let rest = of_mode (some mode) ss in if eq_bytes s.slug mode then s ∷ rest else rest

-- `first.get(mode, 0)`
unfoldable pub first_id : List SourceRow → ℕ
first_id [] = 0
first_id (s ∷ []) = s.id
first_id (s ∷ t ∷ ss) = min s.id (first_id (t ∷ ss))

unfoldable pub first_observed : Option Text → Observation → ℕ
first_observed mode r = first_id (of_mode mode r.sources)

-- The rows here have their context attached, so that a mode has the date of its own sources.
unfoldable pub winner_date : Option Text → Observation → Text
winner_date none r = r.last_captured
winner_date (some mode) r = latest (dates_of (of_mode (some mode) r.sources))

-- `locale or "unknown"`
unfoldable pub locale_of : SourceRow → Text
locale_of s = if eq_bytes s.locale [] then codes "unknown" else s.locale

unfoldable pub is_of : Text → Option Text → SourceRow → Bool
is_of locale none s = eq_bytes (locale_of s) locale
is_of locale (some mode) s = eq_bytes (locale_of s) locale && eq_bytes s.slug mode

unfoldable pub of_locale : Text → Option Text → List SourceRow → List SourceRow
of_locale locale mode [] = []
of_locale locale mode (s ∷ ss) =
    let rest = of_locale locale mode ss in if is_of locale mode s then s ∷ rest else rest

-- `dict(r, ...)`, for the sources of the locale; the modes are a set, and stand in the order of the sources.
unfoldable pub slugs_of : List SourceRow → List Text
slugs_of [] = []
slugs_of (s ∷ ss) = let rest = slugs_of ss in if has_text s.slug rest then rest else s.slug ∷ rest

unfoldable pub restricted : Text → List SourceRow → Observation → Observation
restricted locale ss r = record r {
  modes = slugs_of ss;
  locales = locale ∷ [];
  sources = ss;
  last_captured = latest (dates_of ss);
}

unfoldable pub in_mode : Option Text → Observation → Bool
in_mode none r = true
in_mode (some mode) r = has_text mode r.modes

-- A record as the choice takes it, or nothing if it is passed over.
unfoldable pub in_locale : Option Text → Option Text → Observation → Option Observation
in_locale none mode r = some r
in_locale (some locale) mode r =
    if has_text locale r.locales
    then elim (of_locale locale mode r.sources) [
      | [] ↦ none
      | s ∷ ss ↦ some (restricted locale (s ∷ ss) r)
    ]
    else none

unfoldable pub considered : Option Text → Option Text → Observation → Option Observation
considered mode locale r = if in_mode mode r then in_locale locale mode r else none

-- The keys, compared as tuples: English first where no locale is asked for, then the date, then, undated, the
-- first source, then the digest.
abbrev pub WinnerKey : Type 0
WinnerKey = Bool × (Text × (ℕ × Text))

abbrev pub bool_leb : Bool → Bool → Bool
bool_leb a b = not a || b

-- `-first` in the order of numbers
abbrev pub later_first : ℕ → ℕ → Bool
later_first m n = leb n m

unfoldable pub key_le : WinnerKey → WinnerKey → Bool
key_le = lex bool_leb (lex text_leb (lex later_first text_leb))

abbrev pub is_english : Option Text → Observation → Bool
is_english none r = has_text (codes "enUS") r.locales
is_english (some locale) r = true

unfoldable pub winner_key : Option Text → Option Text → Observation → WinnerKey
winner_key mode locale r =
    let date = winner_date mode r in
    (is_english locale r, (date, (if eq_bytes date [] then first_observed mode r else 0, r.sha1)))

-- `max`, which keeps the first of equals.
unfoldable pub better : Option Text → Option Text → Observation → Observation → Observation
better mode locale best r =
    if key_le (winner_key mode locale r) (winner_key mode locale best) then best else r

-- What an entry has collected, which is never empty: the first record, and the others.
abbrev pub Group : Type 0
Group = Observation × List Observation

unfoldable pub add_to : Option Group → Observation → Group
add_to none r = (r, [])
add_to (some (first, others)) r = (first, others ++ r ∷ [])

unfoldable pub collect_one : Option Observation → Dict Group → Dict Group
collect_one none groups = groups
collect_one (some r) groups = put r.entry (add_to (get r.entry groups) r) groups

unfoldable pub collect : Option Text → Option Text → List Observation → Dict Group → Dict Group
collect mode locale [] groups = groups
collect mode locale (r ∷ recs) groups =
    collect mode locale recs (collect_one (considered mode locale r) groups)

unfoldable pub best_of : Option Text → Option Text → Observation → List Observation → Observation
best_of mode locale best [] = best
best_of mode locale best (r ∷ rs) = best_of mode locale (better mode locale best r) rs

unfoldable pub choose_each : Option Text → Option Text → Dict Group → Dict Observation
choose_each mode locale [] = []
choose_each mode locale ((entry, (first, others)) ∷ groups) =
    (entry, best_of mode locale first others) ∷ choose_each mode locale groups

unfoldable pub pick_winners : List Observation → Option Text → Option Text → Dict Observation
pick_winners recs mode locale = choose_each mode locale (collect mode locale recs [])

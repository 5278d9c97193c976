-- ===== src/Cache/Checkpoint/Overlay.antt =====
-- What an installed generation makes of the files, path by path.
use ascension_preservation.Common.{
  ℕ, ◌≡◌, refl, ap, ◌∙◌, Option, some, List, [], ◌∷◌, ◌==◌, if◌then◌else◌, All, Bool-cases, inl,
  inr,
}
use ascension_preservation.Common.Bytes.{Bytes}
use ascension_preservation.Common.Dict.{Dict, get, put, get_default, get-put}
use ascension_preservation.Cache.Checkpoint.{ReadyEntry}

abbrev pub content : ReadyEntry → Dict Bytes → Bytes
content e prepared = get_default (get e.file prepared) []

-- The files after every entry was installed.
unfoldable pub installed : List ReadyEntry → Dict Bytes → Dict Bytes → Dict Bytes
installed [] prepared files = files
installed (e ∷ es) prepared files = installed es prepared (put e.path (content e prepared) files)

-- The same for one path, whose file was `o`.
unfoldable pub latest : ℕ → List ReadyEntry → Dict Bytes → Option Bytes → Option Bytes
latest p [] prepared o = o
latest p (e ∷ es) prepared o =
    latest p es prepared (if e.path == p then some (content e prepared) else o)

pub get-installed :
    (p : ℕ) (es : List ReadyEntry) (prepared files : Dict Bytes)
    → get p (installed es prepared files) ≡ latest p es prepared (get p files)
unfolding installed latest
get-installed p [] prepared files = refl
get-installed p (e ∷ es) prepared files =
    get-installed p es prepared (put e.path (content e prepared) files)
    ∙ ap (latest p es prepared) (get-put e.path p (content e prepared) files)

-- Whatever stood at the path of an entry does not matter: the generation overwrites it.
abbrev pub Covers : List ReadyEntry → Dict Bytes → ReadyEntry → Type 0
Covers es prepared e =
    (p : ℕ) (c : Bytes) (o : Option Bytes)
    → latest p es prepared (if e.path == p then some c else o) ≡ latest p es prepared o

Covers-head :
    (e : ReadyEntry) (es : List ReadyEntry) (prepared : Dict Bytes) → Covers (e ∷ es) prepared e
unfolding latest
Covers-head e es prepared p c o = elim (Bool-cases (e.path == p)) [
  | inl same ↦ rw same
  | inr other ↦ rw other
]

Covers-cons :
    (e : ReadyEntry) (es : List ReadyEntry) (prepared : Dict Bytes) (f : ReadyEntry)
    → Covers es prepared f
    → Covers (e ∷ es) prepared f
unfolding latest
Covers-cons e es prepared f h p c o = elim (Bool-cases (e.path == p)) [
  | inl same ↦ rw same
  | inr other ↦ rw other (h p c o)
]

All-Covers-cons :
    (e : ReadyEntry) (es fs : List ReadyEntry) (prepared : Dict Bytes)
    → All (Covers es prepared) fs
    → All (Covers (e ∷ es) prepared) fs
All-Covers-cons e es [] prepared h = tt
All-Covers-cons e es (f ∷ fs) prepared (hf, h) =
    (Covers-cons e es prepared f hf, All-Covers-cons e es fs prepared h)

pub All-Covers : (es : List ReadyEntry) (prepared : Dict Bytes) → All (Covers es prepared) es
All-Covers [] prepared = tt
All-Covers (e ∷ es) prepared =
    (Covers-head e es prepared, All-Covers-cons e es es prepared (All-Covers es prepared))

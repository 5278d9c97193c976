-- ===== src/Cache/Checkpoint/Tables.antt =====
-- The preparation of a commit: numbered files, and the entries that stand for the tables.
use ascension_preservation.Common.{
  ℕ, ◌+◌, ◌<◌, ◌≡◌, ◌⊎◌, refl, sym, ap, ◌∙◌, Bool, true, false, Option, some, List, [], ◌∷◌, ◌++◌,
  ◌==◌, if◌then◌else◌, All, All-append, Bool-cases, inl, inr, arith, ==_iff, append_assoc,
  append-nil,
}
use ascension_preservation.Common.Bytes.{Bytes, eq_bytes_iff}
use ascension_preservation.Common.Dict.{Dict, get, put, get-put}
use ascension_preservation.Cache.Checkpoint.{
  ReadyEntry, Disk, apply, run, verify_entries, matches, prepare_tables, all_inside,
}
use ascension_preservation.Cache.Checkpoint.Overlay.{content, latest}
use ascension_preservation.Cache.Checkpoint.Recovery.{Always, Finished}

-- The specification: what the tables make of one path, all at once.
unfoldable pub over : ℕ → List (ℕ × Bytes) → Option Bytes → Option Bytes
over p [] o = o
over p ((path, b) ∷ tables) o = over p tables (if path == p then some b else o)

over-append :
    (p path : ℕ) (b : Bytes) (tables : List (ℕ × Bytes)) (o : Option Bytes)
    → over p (tables ++ (path, b) ∷ []) o ≡ (if path == p then some b else over p tables o)
unfolding over
over-append p path b [] o = refl
over-append p path b ((q, c) ∷ tables) o = over-append p path b tables _

latest-append :
    (p : ℕ) (es : List ReadyEntry) (e : ReadyEntry) (prepared : Dict Bytes) (o : Option Bytes)
    → latest p (es ++ e ∷ []) prepared o
      ≡ (if e.path == p then some (content e prepared) else latest p es prepared o)
unfolding latest
latest-append p [] e prepared o = refl
latest-append p (f ∷ es) e prepared o = latest-append p es e prepared _

-- A file with a new number changes nothing for the entries before.
latest-put :
    (p i : ℕ) (b : Bytes) (es : List ReadyEntry) (prepared : Dict Bytes) (o : Option Bytes)
    → All (λ e. e.file < i) es
    → latest p es (put i b prepared) o ≡ latest p es prepared o
unfolding latest
latest-put p i b [] prepared o h = refl
latest-put p i b (e ∷ es) prepared o (he, h) =
    let other : (i == e.file) ≡ false = ground arith in
    let same : get e.file (put i b prepared) ≡ get e.file prepared =
      get-put i e.file b prepared ∙ rw other refl in
    rw same (latest-put p i b es prepared _ h)

module _ (sha256 : Bytes → Bytes) (in_store in_txn : ℕ → Bool) where
  verify-put :
      (i : ℕ) (b : Bytes) (es : List ReadyEntry) (prepared : Dict Bytes)
      → All (λ e. e.file < i) es
      → verify_entries sha256 in_store in_txn es (put i b prepared)
        ≡ verify_entries sha256 in_store in_txn es prepared
  unfolding verify_entries
  verify-put i b [] prepared h = refl
  verify-put i b (e ∷ es) prepared (he, h) =
      let other : (i == e.file) ≡ false = ground arith in
      let same : get e.file (put i b prepared) ≡ get e.file prepared =
        get-put i e.file b prepared ∙ rw other refl in
      rw (same, verify-put i b es prepared h) refl

  verify-append :
      (es : List ReadyEntry) (e : ReadyEntry) (prepared : Dict Bytes)
      → verify_entries sha256 in_store in_txn es prepared ≡ true
      → in_store e.path ≡ true
      → in_txn e.path ≡ false
      → matches sha256 in_store in_txn (get e.file prepared) e.sha256 ≡ true
      → verify_entries sha256 in_store in_txn (es ++ e ∷ []) prepared ≡ true
  unfolding verify_entries
  verify-append [] e prepared h hi ht hm = rw (hi, ht, hm) refl
  verify-append (f ∷ es) e prepared h hi ht hm =
      ground (arith, verify-append es e prepared, h, hi, ht, hm)

  -- No table is for a file of the transaction directory.
  abbrev pub IsClear : List (ℕ × Bytes) → Type 0
  IsClear tables = All (λ t. in_txn t.0 ≡ false) tables

  -- The entries made so far stand for the tables done so far.
  pub record Prepared (i : ℕ) (done : List (ℕ × Bytes)) (es : List ReadyEntry)
      (prepared : Dict Bytes) : Type 0 where
    pub whole : verify_entries sha256 in_store in_txn es prepared ≡ true
    pub below : All (λ e. e.file < i) es
    pub means : (p : ℕ) (o : Option Bytes) → latest p es prepared o ≡ over p done o

  below_next :
      (i : ℕ) (es : List ReadyEntry) → All (λ e. e.file < i) es → All (λ e. e.file < i + 1) es
  below_next i [] h = tt
  below_next i (e ∷ es) (he, h) = (omega arith, below_next i es h)

  Prepared-next :
      (i path : ℕ) (b : Bytes) (done : List (ℕ × Bytes)) (es : List ReadyEntry)
      (prepared : Dict Bytes)
      → in_store path ≡ true
      → in_txn path ≡ false
      → Prepared i done es prepared
      → Prepared
          (i + 1)
          (done ++ (path, b) ∷ [])
          (es ++ record { path = path; file = i; sha256 = sha256 b } ∷ [])
          (put i b prepared)
  unfolding matches
  Prepared-next i path b done es prepared inside clear h =
      let e : ReadyEntry = record { path = path; file = i; sha256 = sha256 b } in
      let self : (i == i) ≡ true = (==_iff i i).1 refl in
      let found : get i (put i b prepared) ≡ some b = get-put i i b prepared ∙ rw self refl in
      let whole : verify_entries sha256 in_store in_txn es (put i b prepared) ≡ true =
        verify-put i b es prepared h.below ∙ h.whole in
      record {
        whole =
            verify-append es e (put i b prepared) whole inside clear
              (rw found ((eq_bytes_iff (sha256 b) (sha256 b)).1 refl));
        below =
            All-append (λ f. f.file < i + 1) es (e ∷ []) (below_next i es h.below)
              (omega arith, tt);
        means = λ p o.
            latest-append p es e (put i b prepared) o
            ∙ rw found (
                ap (λ (t : Option Bytes). if path == p then some b else t)
                  (latest-put p i b es prepared o h.below ∙ h.means p o))
            ∙ sym (over-append p path b done o);
      }

  -- The generation is ready, whole, and stands for the tables over `files`.
  pub record Published (tables : List (ℕ × Bytes)) (files : Dict Bytes) (d : Disk) : Type 0 where
    pub entries : List ReadyEntry
    pub ready : d.ready ≡ some entries
    pub whole : verify_entries sha256 in_store in_txn entries d.prepared ≡ true
    pub means : (p : ℕ) (o : Option Bytes) → latest p entries d.prepared o ≡ over p tables o
    pub kept : d.files ≡ files

  abbrev pub Prospect : List (ℕ × Bytes) → Dict Bytes → Disk → Type 0
  Prospect tables files d = Finished files d ⊎ Published tables files d

  pub prepare_tables-Always :
      (i : ℕ) (done tables all : List (ℕ × Bytes)) (es : List ReadyEntry) (files : Dict Bytes)
      (d : Disk)
      → IsClear tables
      → done ++ tables ≡ all
      → Prepared i done es d.prepared
      → Finished files d
      → Always (Prospect all files) (prepare_tables sha256 in_store in_txn i tables es) d
  unfolding prepare_tables apply
  prepare_tables-Always i done [] all es files d clear e h fin =
      let every : done ≡ all = sym (append-nil done) ∙ e in
      (
        inl fin,
        (
          inl (record { ready = fin.ready; same = fin.same }),
          inr (record {
            entries = es;
            ready = refl;
            whole = h.whole;
            means = λ p o. rw (← every) (h.means p o);
            kept = fin.same;
          }),
        ),
      )
  prepare_tables-Always i done ((path, b) ∷ tables) all es files d (clear, rest) e h fin =
      elim (Bool-cases (in_store path)) [
        | inr outside ↦ rw outside (inl fin)
        | inl inside ↦ rw inside (
          inl fin,
          prepare_tables-Always (i + 1) (done ++ (path, b) ∷ []) tables all _ files _ rest
              (append_assoc done ((path, b) ∷ []) tables ∙ e)
              (Prepared-next i path b done es d.prepared inside clear h)
              (record { ready = fin.ready; same = fin.same }),
        )
      ]

  -- Where every path is inside, the run ends with the generation ready.
  pub prepare_tables-ready :
      (i : ℕ) (tables : List (ℕ × Bytes)) (es : List ReadyEntry) (d : Disk)
      → all_inside sha256 in_store in_txn tables ≡ true
      → (entries : List ReadyEntry) × ((run
            (prepare_tables sha256 in_store in_txn i tables es)
            d).ready
          ≡ some entries)
  unfolding prepare_tables all_inside run apply
  prepare_tables-ready i [] es d h = (es, refl)
  prepare_tables-ready i ((path, b) ∷ tables) es d h =
      let inside : in_store path ≡ true = ground arith in
      rw inside (prepare_tables-ready (i + 1) tables _ _ (ground arith))

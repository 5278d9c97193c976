-- ===== src/Cache/Checkpoint/Recovery.antt =====
-- `recover`: every change keeps what the disk stands for, and at the end the files have it.
use ascension_preservation.Common.{
  ℕ, ◌≡◌, refl, sym, ap, ◌∙◌, Bool, true, Option, none, some, List, [], ◌∷◌, ◌++◌, ◌==◌, All,
  ==_iff,
}
use ascension_preservation.Common.Bytes.{Bytes}
use ascension_preservation.Common.Dict.{Dict, get, put, get_default, get-put}
use ascension_preservation.Cache.Checkpoint.{
  ReadyEntry, Disk, Action, unlink_ready, open_temp, copy, replace, apply, run, Cut, stop, step,
  install, clean_up, verify_entries, recover_ready, recover,
}
use ascension_preservation.Cache.Checkpoint.Overlay.{
  content, installed, latest, get-installed, Covers, All-Covers,
}

-- `P` holds wherever the run is cut.
abbrev pub Always : (Disk → Type 0) → List Action → Disk → Type 0
Always P [] d = P d
Always P (a ∷ acts) d = P d × Always P acts (apply a d)

pub Always-Cut :
    (P : Disk → Type 0) (acts : List Action) (d d' : Disk) → Always P acts d → Cut acts d d' → P d'
Always-Cut P [] d d' h stop = h
Always-Cut P (a ∷ acts) d d' h stop = h.0
Always-Cut P (a ∷ acts) d d' h (step c) = Always-Cut P acts (apply a d) d' h.1 c

pub Always-run :
    (P : Disk → Type 0) (acts : List Action) (d : Disk) → Always P acts d → P (run acts d)
unfolding run
Always-run P [] d h = h
Always-run P (a ∷ acts) d h = Always-run P acts (apply a d) h.1

pub Always-append :
    (P : Disk → Type 0) (first others : List Action) (d : Disk)
    → Always P first d
    → Always P others (run first d)
    → Always P (first ++ others) d
unfolding run
Always-append P [] others d h k = k
Always-append P (a ∷ first) others d h k = (h.0, Always-append P first others (apply a d) h.1 k)

pub Always-map :
    (P Q : Disk → Type 0) (acts : List Action) (d : Disk)
    → ((e : Disk) → P e → Q e)
    → Always P acts d
    → Always Q acts d
Always-map P Q [] d f h = f d h
Always-map P Q (a ∷ acts) d f h = (f d h.0, Always-map P Q acts (apply a d) f h.1)

pub run-append :
    (first others : List Action) (d : Disk) → run (first ++ others) d ≡ run others (run first d)
unfolding run
run-append [] others d = refl
run-append (a ∷ first) others d = run-append first others (apply a d)

-- What the disk stands for: the files, under the generation that is ready.
abbrev pub stands_for : Option (List ReadyEntry) → Dict Bytes → Dict Bytes → ℕ → Option Bytes
stands_for none prepared files p = get p files
stands_for (some es) prepared files p = latest p es prepared (get p files)

unfoldable pub meaning : Disk → ℕ → Option Bytes
meaning d p = stands_for d.ready d.prepared d.files p

-- Part of the installation: the generation is ready, and its files are covered by it.
record Installing (es : List ReadyEntry) (prepared files : Dict Bytes) (d : Disk) : Type 0 where
  ready : d.ready ≡ some es
  kept : d.prepared ≡ prepared
  covered : (p : ℕ) → latest p es prepared (get p d.files) ≡ latest p es prepared (get p files)

install-Installing :
    (es fs : List ReadyEntry) (prepared files : Dict Bytes) (d : Disk)
    → All (Covers es prepared) fs
    → Installing es prepared files d
    → Always (Installing es prepared files) (install fs) d
unfolding install apply
install-Installing es [] prepared files d hc h = h
install-Installing es (f ∷ fs) prepared files d (hf, hc) h = (
  h,
  (
    record { ready = h.ready; kept = h.kept; covered = h.covered },
    (
      record { ready = h.ready; kept = h.kept; covered = h.covered },
      install-Installing es fs prepared files _ hc (record {
        ready = h.ready;
        kept = h.kept;
        covered = λ p.
            ap (latest p es prepared) (get-put f.path p _ d.files)
            ∙ hf p _ (get p d.files)
            ∙ h.covered p;
      }),
    ),
  ),
)

files-install :
    (fs : List ReadyEntry) (d : Disk) → (run (install fs) d).files ≡ installed fs d.prepared d.files
unfolding run install apply installed
files-install [] d = refl
files-install (f ∷ fs) d =
    let c = content f d.prepared in
    let self : (f.path == f.path) ≡ true = (==_iff f.path f.path).1 refl in
    let copied : get f.path (put f.path c (put f.path [] d.recovering)) ≡ some c =
      get-put f.path f.path c (put f.path [] d.recovering) ∙ rw self refl in
    files-install fs
      (apply (replace f.path) (apply (copy f.path f.file) (apply (open_temp f.path) d)))
    ∙ ap (λ (o : Option Bytes). installed fs d.prepared (put f.path (get_default o []) d.files))
        copied

-- After `ready.json` is gone only the clean-up is left.
pub record Finished (files : Dict Bytes) (d : Disk) : Type 0 where
  pub ready : d.ready ≡ none
  pub same : d.files ≡ files

clean_up-Finished :
    (fs : List ReadyEntry) (files : Dict Bytes) (d : Disk)
    → Finished files d
    → Always (Finished files) (clean_up fs) d
unfolding clean_up apply
clean_up-Finished [] files d h = (h, record { ready = refl; same = h.same })
clean_up-Finished (f ∷ fs) files d h =
    (h, clean_up-Finished fs files _ (record { ready = h.ready; same = h.same }))

module _ (sha256 : Bytes → Bytes) (in_store in_txn : ℕ → Bool) where
  -- A generation that is ready is whole: its files are there, and have the hashes on record.
  abbrev pub Whole : Option (List ReadyEntry) → Dict Bytes → Type 0
  Whole none prepared = Unit {0}
  Whole (some es) prepared = verify_entries sha256 in_store in_txn es prepared ≡ true

  pub record IsSound (d : Disk) : Type 0 where
    pub whole : Whole d.ready d.prepared

  -- The disk is sound and stands for the same files as before.
  pub record Keeps (m : ℕ → Option Bytes) (d : Disk) : Type 0 where
    pub sound : IsSound d
    pub same : (p : ℕ) → meaning d p ≡ m p

  Keeps-Installing :
      (es : List ReadyEntry) (prepared files : Dict Bytes)
      → verify_entries sha256 in_store in_txn es prepared ≡ true
      → (d : Disk) → Installing es prepared files d
      → Keeps (λ p. latest p es prepared (get p files)) d
  unfolding meaning
  Keeps-Installing es prepared files ok d h = record {
    sound = record { whole = rw (h.ready, h.kept) ok };
    same = λ p. rw (h.ready, h.kept) (h.covered p);
  }

  pub Keeps-Finished :
      (m : ℕ → Option Bytes) (files : Dict Bytes)
      → ((p : ℕ) → get p files ≡ m p)
      → (d : Disk) → Finished files d
      → Keeps m d
  unfolding meaning
  Keeps-Finished m files e d h = record {
    sound = record { whole = rw h.ready tt };
    same = λ p. rw (h.ready, h.same) (e p);
  }

  -- The run of `recover` where a generation is ready.
  abbrev finish : List ReadyEntry → List Action
  finish es = install es ++ unlink_ready ∷ clean_up es

  finish-Always :
      (es : List ReadyEntry) (d : Disk)
      → d.ready ≡ some es
      → verify_entries sha256 in_store in_txn es d.prepared ≡ true
      → Always (Keeps (λ p. latest p es d.prepared (get p d.files))) (finish es) d
        × Finished (installed es d.prepared d.files) (run (finish es) d)
  unfolding run apply
  finish-Always es d ready ok =
      let P = Installing es d.prepared d.files in
      let Q = Keeps (λ p. latest p es d.prepared (get p d.files)) in
      let files = installed es d.prepared d.files in
      let d1 = run (install es) d in
      let start : P d = record { ready = ready; kept = refl; covered = λ p. refl } in
      let installing : Always P (install es) d =
        install-Installing es es d.prepared d.files d (All-Covers es d.prepared) start in
      let at_end : P d1 = Always-run P (install es) d installing in
      let gone : Finished files (apply unlink_ready d1) = record {
        ready = refl;
        same = files-install es d;
      } in
      let cleaning : Always (Finished files) (clean_up es) (apply unlink_ready d1) =
        clean_up-Finished es files (apply unlink_ready d1) gone in
      let keeps = Keeps-Installing es d.prepared d.files ok in
      let kept = Keeps-Finished _ files (λ p. get-installed p es d.prepared d.files) in
      (
        Always-append Q (install es) (unlink_ready ∷ clean_up es) d
            (Always-map P Q (install es) d keeps installing)
            (
              keeps d1 at_end,
              Always-map (Finished files) Q (clean_up es) (apply unlink_ready d1) kept cleaning,
            ),
        rw (run-append (install es) (unlink_ready ∷ clean_up es) d)
            (Always-run (Finished files) (clean_up es) (apply unlink_ready d1) cleaning),
      )

  Keeps-map : (m n : ℕ → Option Bytes) → ((p : ℕ) → m p ≡ n p) → (d : Disk) → Keeps m d → Keeps n d
  Keeps-map m n e d h = record { sound = h.sound; same = λ p. h.same p ∙ e p }

  -- A run of `recover`: what it keeps wherever it is cut, and where it ends.
  pub record Recovers (d : Disk) (acts : List Action) : Type 0 where
    pub keeps : Always (Keeps (meaning d)) acts d
    pub ready : (run acts d).ready ≡ none
    pub files : (p : ℕ) → get p (run acts d).files ≡ meaning d p

  run-Recovers :
      (d : Disk) (o : Option (List ReadyEntry))
      → d.ready ≡ o
      → IsSound d
      → (acts : List Action) × (recover sha256 in_store in_txn d ≡ some acts) × Recovers d acts
  unfolding recover recover_ready meaning run
  run-Recovers d none ready s = (
    [],
    rw ready refl,
    record {
      keeps = record { sound = s; same = λ p. refl };
      ready = ready;
      files = λ p. rw ready refl;
    },
  )
  run-Recovers d (some es) ready s =
      let ok : verify_entries sha256 in_store in_txn es d.prepared ≡ true = rw ready at s.whole in
      let (keeps, finished) = finish-Always es d ready ok in
      let means : (p : ℕ) → latest p es d.prepared (get p d.files) ≡ meaning d p =
        λ p. rw ready refl in
      (
        finish es,
        rw (ready, ok) refl,
        record {
          keeps =
              Always-map _ (Keeps (meaning d)) (finish es) d (Keeps-map _ (meaning d) means) keeps;
          ready = finished.ready;
          files = λ p. rw finished.same (get-installed p es d.prepared d.files ∙ means p);
        },
      )

  pub recovers :
      (d : Disk)
      → IsSound d
      → (acts : List Action) × (recover sha256 in_store in_txn d ≡ some acts) × Recovers d acts
  recovers d s = run-Recovers d d.ready refl s

  -- From a sound disk `recover` does not raise; run to its end it leaves no generation ready, and
  -- every path with what the disk stood for.
  pub recover_completes :
      (d : Disk)
      → IsSound d
      → (acts : List Action) × (recover sha256 in_store in_txn d ≡ some acts)
        × ((run acts d).ready ≡ none)
        × ((p : ℕ) → get p (run acts d).files ≡ meaning d p)
  recover_completes d s = let (acts, e, r) = recovers d s in (acts, e, r.ready, r.files)

  -- Wherever `recover` is interrupted, the disk is sound and stands for the same files: it may be
  -- run again.
  pub recover-Cut :
      (d d' : Disk) {acts : List Action}
      → IsSound d
      → recover sha256 in_store in_txn d ≡ some acts
      → Cut acts d d'
      → IsSound d' × ((p : ℕ) → meaning d' p ≡ meaning d p)
  recover-Cut d d' {acts} s e c =
      let (acts', e', r) = recovers d s in
      let same : some acts ≡ some acts' = sym e ∙ e' in
      let alike : acts ≡ acts' = cc same in
      let k = Always-Cut (Keeps (meaning d)) acts' d d' r.keeps (rw alike at c) in (k.sound, k.same)

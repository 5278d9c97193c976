-- ===== src/Cache/Checkpoint/Atomic.antt =====
-- `commit`: wherever it is interrupted, all of the tables are in effect or none.
use ascension_preservation.Common.{
  ℕ, ◌≡◌, ◌⊎◌, refl, sym, ap, ◌∙◌, Bool, true, false, Option, none, some, List, [], ◌∷◌, ◌++◌, inl,
  inr,
}
use ascension_preservation.Common.Bytes.{Bytes}
use ascension_preservation.Common.Dict.{Dict, get}
use ascension_preservation.Cache.Checkpoint.{
  Disk, Action, remove_txn, apply, run, Cut, verify_entries, prepare_tables, all_inside,
  recover_after, commit_after, commit,
}
use ascension_preservation.Cache.Checkpoint.Overlay.{latest}
use ascension_preservation.Cache.Checkpoint.Recovery.{
  Always, Always-Cut, Always-run, Always-append, Always-map, run-append, meaning, IsSound, Keeps,
  Keeps-Finished, Recovers, recovers,
}
use ascension_preservation.Cache.Checkpoint.Tables.{
  over, IsClear, Published, Prospect, prepare_tables-Always, prepare_tables-ready,
}

module _ (sha256 : Bytes → Bytes) (in_store in_txn : ℕ → Bool) where
  -- Sound, and with none of the tables in effect or all of them.
  pub record IsAtomic (tables : List (ℕ × Bytes)) (m : ℕ → Option Bytes) (d : Disk) : Type 0 where
    pub sound : IsSound sha256 in_store in_txn d
    pub effect : ((p : ℕ) → meaning d p ≡ m p) ⊎ ((p : ℕ) → meaning d p ≡ over p tables (m p))

  Published-IsSound :
      (tables : List (ℕ × Bytes)) (files : Dict Bytes) (d : Disk)
      → Published sha256 in_store in_txn tables files d
      → IsSound sha256 in_store in_txn d
  Published-IsSound tables files d h = record { whole = rw h.ready h.whole }

  Published-meaning :
      (tables : List (ℕ × Bytes)) (files : Dict Bytes) (d : Disk) (p : ℕ)
      → Published sha256 in_store in_txn tables files d
      → meaning d p ≡ over p tables (get p files)
  unfolding meaning
  Published-meaning tables files d p h = rw (h.ready, h.kept) (h.means p (get p files))

  Prospect-IsAtomic :
      (tables : List (ℕ × Bytes)) (m : ℕ → Option Bytes) (files : Dict Bytes)
      → ((p : ℕ) → get p files ≡ m p)
      → (d : Disk) → Prospect sha256 in_store in_txn tables files d
      → IsAtomic tables m d
  Prospect-IsAtomic tables m files e d (inl fin) =
      let k = Keeps-Finished sha256 in_store in_txn m files e d fin in
      record { sound = k.sound; effect = inl k.same }
  Prospect-IsAtomic tables m files e d (inr h) = record {
    sound = Published-IsSound tables files d h;
    effect = inr (λ p. Published-meaning tables files d p h ∙ ap (over p tables) (e p));
  }

  -- A run of `commit`: atomic wherever it is cut, and complete where every path is inside.
  record Commits (tables : List (ℕ × Bytes)) (d : Disk) (acts : List Action) : Type 0 where
    atomic : Always (IsAtomic tables (meaning d)) acts d
    complete :
        all_inside sha256 in_store in_txn tables ≡ true
        → ((run acts d).ready ≡ none)
          × ((p : ℕ) → get p (run acts d).files ≡ over p tables (meaning d p))

  body_of : List (ℕ × Bytes) → List Action
  body_of tables = remove_txn ∷ prepare_tables sha256 in_store in_txn 0 tables []

  body-Always :
      (tables : List (ℕ × Bytes)) (d : Disk)
      → IsClear sha256 in_store in_txn tables
      → d.ready ≡ none
      → Always (Prospect sha256 in_store in_txn tables d.files) (body_of tables) d
  unfolding body_of apply verify_entries latest over
  body-Always tables d clear ready = (
    inl (record { ready = ready; same = refl }),
    prepare_tables-Always sha256 in_store in_txn 0 [] tables tables [] d.files _ clear refl
        (record { whole = refl; below = tt; means = λ p o. refl })
        (record { ready = refl; same = refl }),
  )

  body-Published :
      (tables : List (ℕ × Bytes)) (d : Disk)
      → IsClear sha256 in_store in_txn tables
      → d.ready ≡ none
      → all_inside sha256 in_store in_txn tables ≡ true
      → Published sha256 in_store in_txn tables d.files (run (body_of tables) d)
  unfolding body_of run
  body-Published tables d clear ready inside =
      let (entries, some_ready) =
        prepare_tables-ready sha256 in_store in_txn 0 tables [] (apply remove_txn d) inside in
      elim (Always-run (Prospect sha256 in_store in_txn tables d.files) (body_of tables) d
        (body-Always tables d clear ready)) [ inl fin ↦ cc (fin.ready, some_ready) | inr h ↦ h ]

  -- After the first `recover`, cut anywhere.
  opening :
      (tables : List (ℕ × Bytes)) (d : Disk) (first : List Action)
      → IsClear sha256 in_store in_txn tables
      → Recovers sha256 in_store in_txn d first
      → Always (IsAtomic tables (meaning d)) (first ++ body_of tables) d
  opening tables d first clear r =
      Always-append (IsAtomic tables (meaning d)) first (body_of tables) d
        (Always-map (Keeps sha256 in_store in_txn (meaning d)) (IsAtomic tables (meaning d)) first d
          (λ e k. record { sound = k.sound; effect = inl k.same }) r.keeps)
        (Always-map (Prospect sha256 in_store in_txn tables (run first d).files)
          (IsAtomic tables (meaning d)) (body_of tables) (run first d)
          (Prospect-IsAtomic tables (meaning d) (run first d).files r.files)
          (body-Always tables (run first d) clear r.ready))

  run-Commits :
      (inside : Bool) (tables : List (ℕ × Bytes)) (d : Disk) (first : List Action)
      → IsClear sha256 in_store in_txn tables
      → all_inside sha256 in_store in_txn tables ≡ inside
      → Recovers sha256 in_store in_txn d first
      → Commits tables d (recover_after sha256 in_store in_txn inside (first ++ body_of tables) d)
  unfolding recover_after
  run-Commits false tables d first clear e r = record {
    atomic = opening tables d first clear r;
    complete = λ inside. cc (e, inside);
  }
  run-Commits true tables d first clear e r =
      let d2 = run (first ++ body_of tables) d in
      let published : Published sha256 in_store in_txn tables (run first d).files d2 =
        rw (run-append first (body_of tables) d)
          (body-Published tables (run first d) clear r.ready e) in
      let (second, found, s) =
        recovers sha256 in_store in_txn d2
          (Published-IsSound tables (run first d).files d2 published) in
      let means : (p : ℕ) → meaning d2 p ≡ over p tables (meaning d p) = λ p.
        Published-meaning tables (run first d).files d2 p published
        ∙ ap (over p tables) (r.files p) in
      rw found (record {
        atomic =
            Always-append (IsAtomic tables (meaning d)) (first ++ body_of tables) second d
              (opening tables d first clear r)
              (Always-map (Keeps sha256 in_store in_txn (meaning d2)) (IsAtomic tables (meaning d))
                second d2
                (λ e k. record { sound = k.sound; effect = inr (λ p. k.same p ∙ means p) })
                s.keeps);
        complete = λ inside.
            rw (run-append (first ++ body_of tables) second d) (s.ready, λ p. s.files p ∙ means p);
      })

  commits :
      (tables : List (ℕ × Bytes)) (d : Disk)
      → IsClear sha256 in_store in_txn tables
      → IsSound sha256 in_store in_txn d
      → (acts : List Action) × (commit sha256 in_store in_txn tables d ≡ some acts)
        × Commits tables d acts
  unfolding commit commit_after body_of
  commits tables d clear s =
      let (first, found, r) = recovers sha256 in_store in_txn d s in
      (
        recover_after sha256 in_store in_txn (all_inside sha256 in_store in_txn tables)
            (first ++ body_of tables) d,
        rw found refl,
        run-Commits (all_inside sha256 in_store in_txn tables) tables d first clear refl r,
      )

  -- Wherever a commit of tables none of which is for a file of the transaction directory is
  -- interrupted, from a sound disk, the disk is sound, and stands for the files as they were or for
  -- all of the tables over them. So a `recover` then completes the commit or undoes it.
  pub commit-IsAtomic :
      (tables : List (ℕ × Bytes)) (d d' : Disk) {acts : List Action}
      → IsClear sha256 in_store in_txn tables
      → IsSound sha256 in_store in_txn d
      → commit sha256 in_store in_txn tables d ≡ some acts
      → Cut acts d d'
      → IsAtomic tables (meaning d) d'
  commit-IsAtomic tables d d' {acts} clear s e c =
      let (acts', e', r) = commits tables d clear s in
      let same : some acts ≡ some acts' = sym e ∙ e' in
      let alike : acts ≡ acts' = cc same in
      Always-Cut (IsAtomic tables (meaning d)) acts' d d' r.atomic (rw alike at c)

  -- A commit that is not interrupted, from a sound disk and of tables whose paths are all inside the
  -- store and outside the transaction directory, leaves no generation ready and every path with the
  -- last table for it, or as it was.
  pub commit_completes :
      (tables : List (ℕ × Bytes)) (d : Disk)
      → IsClear sha256 in_store in_txn tables
      → IsSound sha256 in_store in_txn d
      → all_inside sha256 in_store in_txn tables ≡ true
      → (acts : List Action) × (commit sha256 in_store in_txn tables d ≡ some acts)
        × ((run acts d).ready ≡ none)
        × ((p : ℕ) → get p (run acts d).files ≡ over p tables (meaning d p))
  commit_completes tables d clear s inside =
      let (acts, e, r) = commits tables d clear s in
      let (ready, files) = r.complete inside in (acts, e, ready, files)

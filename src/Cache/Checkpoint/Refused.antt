-- ===== src/Cache/Checkpoint/Refused.antt =====
-- `commit` of a table for a file of the transaction directory: published, and then refused.
use ascension_preservation.Common.{
  ℕ, ◌+◌, ◌≡◌, refl, Bool, true, false, ◌||◌, none, some, List, [], ◌∷◌, ◌++◌, append-nil, arith,
}
use ascension_preservation.Common.Bytes.{Bytes}
use ascension_preservation.Common.Dict.{Dict}
use ascension_preservation.Cache.Checkpoint.{
  ReadyEntry, Disk, Action, remove_txn, apply, run, verify_entries, prepare_tables, all_inside,
  recover, recover_ready, recover_after, commit_after, commit,
}
use ascension_preservation.Cache.Checkpoint.Recovery.{IsSound, run-append, recovers}

module _ (sha256 : Bytes → Bytes) (in_store in_txn : ℕ → Bool) where
  -- Some table is for a file of the transaction directory.
  unfoldable pub any_in_txn : List (ℕ × Bytes) → Bool
  any_in_txn [] = false
  any_in_txn ((path, b) ∷ tables) = in_txn path || any_in_txn tables

  -- Some entry is.
  unfoldable unsafe : List ReadyEntry → Bool
  unsafe [] = false
  unsafe (e ∷ es) = in_txn e.path || unsafe es

  unsafe-append :
      (es : List ReadyEntry) (e : ReadyEntry) → unsafe (es ++ e ∷ []) ≡ (unsafe es || in_txn e.path)
  unfolding unsafe
  unsafe-append [] e = ground arith
  unsafe-append (f ∷ es) e = ground (arith, unsafe-append es e)

  -- No prepared file makes up for a path inside the transaction.
  verify-unsafe :
      (es : List ReadyEntry) (prepared : Dict Bytes)
      → unsafe es ≡ true
      → verify_entries sha256 in_store in_txn es prepared ≡ false
  unfolding unsafe verify_entries
  verify-unsafe [] prepared h = cc h
  verify-unsafe (e ∷ es) prepared h = ground (arith, verify-unsafe es prepared, h)

  prepare_tables-unsafe :
      (i : ℕ) (tables : List (ℕ × Bytes)) (es : List ReadyEntry) (d : Disk)
      → all_inside sha256 in_store in_txn tables ≡ true
      → (unsafe es || any_in_txn tables) ≡ true
      → (entries : List ReadyEntry) × ((run
            (prepare_tables sha256 in_store in_txn i tables es)
            d).ready
          ≡ some entries)
        × (unsafe entries ≡ true)
  unfolding prepare_tables all_inside run apply any_in_txn
  prepare_tables-unsafe i [] es d h u = (es, refl, ground (arith, u))
  prepare_tables-unsafe i ((path, b) ∷ tables) es d h u =
      let e : ReadyEntry = record { path = path; file = i; sha256 = sha256 b } in
      let inside : in_store path ≡ true = ground arith in
      let seen : (unsafe (es ++ e ∷ []) || any_in_txn tables) ≡ true =
        ground (arith, unsafe-append es e, u) in
      rw inside (prepare_tables-unsafe (i + 1) tables _ _ (ground arith) seen)

  refused :
      (d : Disk) (entries : List ReadyEntry)
      → d.ready ≡ some entries
      → unsafe entries ≡ true
      → recover sha256 in_store in_txn d ≡ none
  unfolding recover recover_ready
  refused d entries e u = rw (e, verify-unsafe entries d.prepared u) refl

  recover_after-refused :
      (acts : List Action) (d : Disk)
      → recover sha256 in_store in_txn (run acts d) ≡ none
      → recover_after sha256 in_store in_txn true acts d ≡ acts
  unfolding recover_after
  recover_after-refused acts d e = rw e (append-nil acts)

  -- A commit, from a sound disk, of tables whose paths are all inside the store but one of which is
  -- for a file of the transaction directory, leaves a generation ready, and `recover` raises on the
  -- disk that it leaves.
  pub commit_stays_ready :
      (tables : List (ℕ × Bytes)) (d : Disk)
      → IsSound sha256 in_store in_txn d
      → all_inside sha256 in_store in_txn tables ≡ true
      → any_in_txn tables ≡ true
      → (acts : List Action) × (entries : List ReadyEntry) × (commit sha256 in_store in_txn tables d
          ≡ some acts)
        × ((run acts d).ready ≡ some entries)
        × (recover sha256 in_store in_txn (run acts d) ≡ none)
  unfolding commit commit_after
  commit_stays_ready tables d s inside seen =
      let (first, found, r) = recovers sha256 in_store in_txn d s in
      let body : List Action = remove_txn ∷ prepare_tables sha256 in_store in_txn 0 tables [] in
      let (entries, made, u) =
        prepare_tables-unsafe 0 tables [] (apply remove_txn (run first d)) inside
          (unfold unsafe in seen) in
      let ready : (run (first ++ body) d).ready ≡ some entries =
        rw (run-append first body d) (unfold run in made) in
      let no : recover sha256 in_store in_txn (run (first ++ body) d) ≡ none =
        refused (run (first ++ body) d) entries ready u in
      (
        first ++ body,
        entries,
        rw (found, inside, recover_after-refused (first ++ body) d no) refl,
        ready,
        no,
      )

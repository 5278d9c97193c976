-- ===== src/Cache/Checkpoint/Tests.antt =====
-- A commit of one table, cut before the generation is ready and after.
use ascension_preservation.Common.{ℕ, ◌≡◌, refl, Bool, true, none, some, List, [], ◌∷◌, ◌==◌, take}
use ascension_preservation.Common.Bytes.{Bytes, eq_bytes}
use ascension_preservation.Common.Dict.{get, put}
use ascension_preservation.Cache.Checkpoint.{
  ReadyEntry, Disk, Action, open_temp, copy, replace, unlink_ready, remove_prepared, remove_txn,
  prepare, write_ready, publish, apply, run, stop, step, install, clean_up, verify_entries, matches,
  recover, recover_ready, prepare_tables, all_inside, recover_after, commit_after, commit,
}
use ascension_preservation.Cache.Checkpoint.Recovery.{IsSound, meaning, recover-Cut}
use ascension_preservation.Cache.Checkpoint.Tables.{over}
use ascension_preservation.Cache.Checkpoint.Atomic.{IsAtomic, commit-IsAtomic, commit_completes}
use ascension_preservation.Cache.Checkpoint.Refused.{any_in_txn, commit_stays_ready}

-- A hash that is no hash, but a function.
abbrev first_two : Bytes → Bytes
first_two b = take 2 b

-- Every path is in the store; 99 is in the transaction directory.
abbrev in_store : ℕ → Bool
in_store p = true

abbrev in_txn : ℕ → Bool
in_txn p = p == 99

abbrev test_disk : Disk
test_disk = record {
  files = (1, 9 ∷ []) ∷ (2, 8 ∷ []) ∷ [];
  recovering = [];
  prepared = [];
  ready_tmp = none;
  ready = none;
}

abbrev test_tables : List (ℕ × Bytes)
test_tables = (1, 5 ∷ 6 ∷ 7 ∷ []) ∷ []

abbrev test_entry : ReadyEntry
test_entry = record { path = 1; file = 0; sha256 = 5 ∷ 6 ∷ [] }

abbrev ready_disk : Disk
ready_disk = record test_disk {
  prepared = (0, 5 ∷ 6 ∷ 7 ∷ []) ∷ [];
  ready = some (test_entry ∷ []);
}

abbrev recovery : List Action
recovery = open_temp 1 ∷ copy 1 0 ∷ replace 1 ∷ unlink_ready ∷ remove_prepared 0 ∷ remove_txn ∷ []

test_disk-IsSound : IsSound first_two in_store in_txn test_disk
test_disk-IsSound = record { whole = tt }

ready_disk-IsSound : IsSound first_two in_store in_txn ready_disk
ready_disk-IsSound = record { whole = unfold verify_entries matches get eq_bytes in refl }

recover-ready_disk : recover first_two in_store in_txn ready_disk ≡ some recovery
unfolding recover recover_ready verify_entries matches get eq_bytes install clean_up
recover-ready_disk = refl

commit-test_disk :
    commit first_two in_store in_txn test_tables test_disk
    ≡ some (
        remove_txn
        ∷ prepare 0 (5 ∷ 6 ∷ 7 ∷ [])
        ∷ write_ready (test_entry ∷ [])
        ∷ publish
        ∷ recovery)
unfolding commit commit_after recover_after recover recover_ready verify_entries matches get put
    eq_bytes install clean_up prepare_tables all_inside run apply
commit-test_disk = refl

-- Interrupted while the new file is copied.
recover-Cut_example :
    IsSound first_two in_store in_txn (apply (open_temp 1) ready_disk)
    × ((p : ℕ) → meaning (apply (open_temp 1) ready_disk) p ≡ meaning ready_disk p)
recover-Cut_example =
    recover-Cut first_two in_store in_txn ready_disk (apply (open_temp 1) ready_disk)
      ready_disk-IsSound recover-ready_disk (step stop)

commit-IsAtomic_example :
    IsAtomic first_two in_store in_txn test_tables
      (meaning test_disk)
      (apply (prepare 0 (5 ∷ 6 ∷ 7 ∷ [])) (apply remove_txn test_disk))
commit-IsAtomic_example =
    commit-IsAtomic first_two in_store in_txn test_tables test_disk
      (apply (prepare 0 (5 ∷ 6 ∷ 7 ∷ [])) (apply remove_txn test_disk)) (refl, tt) test_disk-IsSound
      commit-test_disk (step (step stop))

commit_completes_example :
    (acts : List Action) × (commit first_two in_store in_txn test_tables test_disk ≡ some acts)
    × ((run acts test_disk).ready ≡ none)
    × ((p : ℕ) → get p (run acts test_disk).files ≡ over p test_tables (meaning test_disk p))
commit_completes_example =
    commit_completes first_two in_store in_txn test_tables test_disk (refl, tt) test_disk-IsSound
      (unfold all_inside in refl)

-- The second table is for a file of the transaction directory.
commit_stays_ready_example :
    (acts : List Action) × (entries : List ReadyEntry) × (commit first_two in_store in_txn
        ((1, 5 ∷ []) ∷ (99, 6 ∷ []) ∷ [])
        test_disk
      ≡ some acts)
    × ((run acts test_disk).ready ≡ some entries)
    × (recover first_two in_store in_txn (run acts test_disk) ≡ none)
commit_stays_ready_example =
    commit_stays_ready first_two in_store in_txn ((1, 5 ∷ []) ∷ (99, 6 ∷ []) ∷ []) test_disk
      test_disk-IsSound (unfold all_inside in refl) (unfold any_in_txn in refl)

-- ===== src/Cache/Checkpoint.antt =====
-- tools/cache-consolidator/tools/merge_checkpoint.py: the metadata of a merge, installed as one
-- generation. A run is the list of its changes to the disk, so that an interruption is a cut of that
-- list. Paths are numbers; `in_store` is whether a path resolves into the store, `in_txn` whether it
-- resolves into `.merge-transaction`. The hash is a parameter; flushing to the device is left out.
pub mod Overlay
pub mod Recovery
pub mod Tables
pub mod Atomic
pub mod Refused
mod Tests
use ascension_preservation.Common.{
  ℕ, zero, suc, ◌+◌, Bool, true, false, not, ◌&&◌, Option, none, some, List, [], ◌∷◌, ◌++◌,
  if◌then◌else◌,
}
use ascension_preservation.Common.Bytes.{Bytes, eq_bytes}
use ascension_preservation.Common.Dict.{Dict, get, put, del, get_default}

-- One member of `ready.json`.
pub record ReadyEntry : Type 0 where
  pub path : ℕ
  pub file : ℕ
  pub sha256 : Bytes

-- The store's files and their `.recovering` temporaries, and the transaction directory: the prepared
-- files, `ready.tmp` and `ready.json`.
pub record Disk : Type 0 where
  pub files : Dict Bytes
  pub recovering : Dict Bytes
  pub prepared : Dict Bytes
  pub ready_tmp : Option (List ReadyEntry)
  pub ready : Option (List ReadyEntry)

-- One change to the disk.
pub data Action : Type 0 where
  open_temp : ℕ → Action
  copy : ℕ → ℕ → Action
  replace : ℕ → Action
  unlink_ready : Action
  remove_prepared : ℕ → Action
  remove_txn : Action
  prepare : ℕ → Bytes → Action
  write_ready : List ReadyEntry → Action
  publish : Action

unfoldable pub apply : Action → Disk → Disk
apply (open_temp path) d = record d { recovering = put path [] d.recovering }
apply (copy path file) d = record d {
  recovering = put path (get_default (get file d.prepared) []) d.recovering;
}
apply (replace path) d = record d {
  files = put path (get_default (get path d.recovering) []) d.files;
  recovering = del path d.recovering;
}
apply unlink_ready d = record d { ready = none }
apply (remove_prepared file) d = record d { prepared = del file d.prepared }
apply remove_txn d = record d { prepared = []; ready_tmp = none; ready = none }
apply (prepare file b) d = record d { prepared = put file b d.prepared }
apply (write_ready entries) d = record d { ready_tmp = some entries }
apply publish d = record d { ready_tmp = none; ready = d.ready_tmp }

unfoldable pub run : List Action → Disk → Disk
run [] d = d
run (a ∷ acts) d = run acts (apply a d)

-- An interrupted run: some of the changes were made, from the first on.
pub data Cut : List Action → Disk → Disk → Type 0 where
  stop : {acts : List Action} {d : Disk} → Cut acts d d
  step :
      {a : Action} {acts : List Action} {d d' : Disk}
      → Cut acts (apply a d) d'
      → Cut (a ∷ acts) d d'

unfoldable pub install : List ReadyEntry → List Action
install [] = []
install (e ∷ es) = open_temp e.path ∷ copy e.path e.file ∷ replace e.path ∷ install es

-- `rmtree`: the files, then the directory.
unfoldable pub clean_up : List ReadyEntry → List Action
clean_up [] = remove_txn ∷ []
clean_up (e ∷ es) = remove_prepared e.file ∷ clean_up es

module _ (sha256 : Bytes → Bytes) (in_store in_txn : ℕ → Bool) where
  unfoldable pub matches : Option Bytes → Bytes → Bool
  matches none sha = false
  matches (some b) sha = eq_bytes (sha256 b) sha

  -- Every prepared file is checked before any member is installed.
  unfoldable pub verify_entries : List ReadyEntry → Dict Bytes → Bool
  verify_entries [] prepared = true
  verify_entries (e ∷ es) prepared =
      in_store e.path
      && (not (in_txn e.path) && matches (get e.file prepared) e.sha256)
      && verify_entries es prepared

  -- What `recover` does; `none` where it raises.
  unfoldable pub recover_ready : Option (List ReadyEntry) → Dict Bytes → Option (List Action)
  recover_ready none prepared = some []
  recover_ready (some entries) prepared =
      if verify_entries entries prepared
      then some (install entries ++ unlink_ready ∷ clean_up entries)
      else none

  unfoldable pub recover : Disk → Option (List Action)
  recover d = recover_ready d.ready d.prepared

  -- The prepared files of the tables, numbered from `i` on. `relative_to` raises on a path outside
  -- the store: then there is no more of the run. A path inside the transaction is let through here.
  unfoldable pub prepare_tables : ℕ → List (ℕ × Bytes) → List ReadyEntry → List Action
  prepare_tables i [] entries = write_ready entries ∷ publish ∷ []
  prepare_tables i ((path, b) ∷ tables) entries =
      let rest =
        prepare_tables (i + 1) tables
          (entries ++ record { path = path; file = i; sha256 = sha256 b } ∷ []) in
      if in_store path then prepare i b ∷ rest else []

  unfoldable pub all_inside : List (ℕ × Bytes) → Bool
  all_inside [] = true
  all_inside ((path, b) ∷ tables) = in_store path && all_inside tables

  -- The last `recover` of a commit, which may raise, where everything before it was done.
  unfoldable pub recover_after : Bool → List Action → Disk → List Action
  recover_after false acts d = acts
  recover_after true acts d = acts ++ get_default (recover (run acts d)) []

  unfoldable pub commit_after :
      List (ℕ × Bytes) → Option (List Action) → Disk → Option (List Action)
  commit_after tables none d = none
  commit_after tables (some first) d =
      some (recover_after (all_inside tables) (first ++ remove_txn ∷ prepare_tables 0 tables []) d)

  unfoldable pub commit : List (ℕ × Bytes) → Disk → Option (List Action)
  commit tables d = commit_after tables (recover d) d

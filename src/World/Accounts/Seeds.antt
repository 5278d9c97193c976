-- ===== src/World/Accounts/Seeds.antt =====
-- The default bindings are given once.
use ascension_preservation.Common.{
  ℕ, ◌≡◌, refl, true, Bool-cases, Option-cases, inl, inr, some, [], ◌==◌, arith,
}
use ascension_preservation.Common.Bytes.{Bytes, eq_bytes_iff}
use ascension_preservation.Common.Dict.{get, put, get-put}
use ascension_preservation.World.Accounts.{
  Stored, Accounts, is_global, bucket_of, with_bucket, acctdata_set, seed_stored, seed_type,
  acctdata_seed_bindings,
}
use ascension_preservation.World.Accounts.Kept.{same_owner, bucket_of-with_bucket}

seed_type-found :
    (now : ℕ) (account : Bytes) (guid : ℕ) (text : Bytes) (atype : ℕ) (db : Accounts) (s : Stored)
    → get atype (bucket_of account guid atype db) ≡ some s
    → seed_type now account guid text atype db ≡ ([], db)
unfolding seed_type
seed_type-found now account guid text atype db s e = rw e (unfold seed_stored in refl)

own_bucket : (account : Bytes) (guid atype : ℕ) → same_owner account guid account guid atype ≡ true
unfolding same_owner
own_bucket account guid atype = elim (Bool-cases (is_global atype)) [
  | inl e ↦ rw e ((eq_bytes_iff account account).1 refl)
  | inr e ↦ rw e (ground arith)
]

stored_after :
    (now : ℕ) (account : Bytes) (guid : ℕ) (text : Bytes) (atype : ℕ) (db : Accounts)
    → (s : Stored) × (get atype
          (bucket_of account guid atype ((seed_type now account guid text atype db).1))
        ≡ some s)
unfolding seed_type
stored_after now account guid text atype db =
    elim (Option-cases (get atype (bucket_of account guid atype db))) [
      | inl missing ↦
          let s : Stored = record { time = now; data_of = text } in
          let bucket = put atype s (bucket_of account guid atype db) in
          (
            s,
            rw missing (
                unfold seed_stored acctdata_set in
                rw
                  (
                    bucket_of-with_bucket account account guid guid atype bucket db,
                    own_bucket account guid atype,
                    get-put atype atype s (bucket_of account guid atype db),
                  )
                  (ground arith)),
          )
      | inr (s, found) ↦ (s, rw found (unfold seed_stored in found))
    ]

-- Seeding the bindings of the character leaves those of the account.
shared_kept :
    (now : ℕ) (account : Bytes) (guid : ℕ) (text : Bytes) (db : Accounts)
    → bucket_of account guid 2 ((seed_type now account guid text 3 db).1)
      ≡ bucket_of account guid 2 db
unfolding seed_type
shared_kept now account guid text db = elim (Option-cases (get 3 (bucket_of account guid 3 db))) [
  | inl missing ↦
      rw missing (unfold seed_stored acctdata_set with_bucket bucket_of is_global in refl)
  | inr (s, found) ↦ rw found (unfold seed_stored in refl)
]

-- Once the bindings of an account and a character have been seeded, seeding them again, whenever and with
-- whatever file, seeds nothing and changes nothing.
pub seeds_once :
    (now later : ℕ) (account : Bytes) (guid : ℕ) (text other : Bytes) (db : Accounts)
    → let once = (acctdata_seed_bindings now account guid (some text) db).1 in
      acctdata_seed_bindings later account guid (some other) once ≡ ([], once)
unfolding acctdata_seed_bindings
seeds_once now later account guid text other db = elim (Bool-cases (guid == 0)) [
  | inl nobody ↦
      let (s, first) = stored_after now account guid text 2 db in
      rw nobody (
        rw
          (seed_type-found later account guid other 2 ((seed_type now account guid text 2 db).1) s
            first)
          refl)
  | inr somebody ↦
      let db1 = (seed_type now account guid text 2 db).1 in
      let db2 = (seed_type now account guid text 3 db1).1 in
      let (s, first) = stored_after now account guid text 2 db in
      let (t, second) = stored_after now account guid text 3 db1 in
      let first' : get 2 (bucket_of account guid 2 db2) ≡ some s =
        rw (shared_kept now account guid text db1) first in
      rw somebody (
        rw
          (
            seed_type-found later account guid other 2 db2 s first',
            seed_type-found later account guid other 3 db2 t second,
          )
          refl)
]

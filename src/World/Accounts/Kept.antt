-- ===== src/World/Accounts/Kept.antt =====
-- What is stored for an account or a character is what is read, and nothing else changes.
use ascension_preservation.Common.{
  ℕ, ◌≡◌, refl, Bool, false, Bool-cases, inl, inr, List, [], ◌∷◌, ◌==◌, if◌then◌else◌, arith,
}
use ascension_preservation.Common.Bytes.{Bytes, eq_bytes, eq_bytes_iff}
use ascension_preservation.Common.Dict.{put, get-put}
use ascension_preservation.World.Accounts.{
  Stored, Bucket, Accounts, is_global, named_bucket, put_named, bucket_of, with_bucket,
  acctdata_get, acctdata_set,
}

named_bucket-put_named :
    (account other : Bytes) (bucket : Bucket) (bs : List (Bytes × Bucket))
    → named_bucket other (put_named account bucket bs)
      ≡ (if eq_bytes account other then bucket else named_bucket other bs)
unfolding named_bucket put_named
named_bucket-put_named account other bucket [] = refl
named_bucket-put_named account other bucket ((a, b) ∷ bs) = elim (Bool-cases (eq_bytes a account)) [
  | inl here ↦ rw here (
      rw ((eq_bytes_iff a account).0 here) (elim (Bool-cases (eq_bytes account other)) [
        | inl same ↦ rw same refl
        | inr differ ↦ rw differ refl
      ]))
  | inr later ↦ elim (Bool-cases (eq_bytes account other)) [
    | inl same ↦
        let equal = (eq_bytes_iff account other).0 same in
        let elsewhere : eq_bytes a other ≡ false = rw equal at later in
        rw (later, elsewhere, named_bucket-put_named account other bucket bs, same) refl
    | inr differ ↦ rw (later, named_bucket-put_named account other bucket bs, differ) refl
  ]
]

-- The two keys lead to one bucket.
unfoldable pub same_owner : Bytes → ℕ → Bytes → ℕ → ℕ → Bool
same_owner account guid other_account other atype =
    if is_global atype then eq_bytes account other_account else guid == other

pub bucket_of-with_bucket :
    (account other_account : Bytes) (guid other atype : ℕ) (bucket : Bucket) (db : Accounts)
    → bucket_of other_account other atype (with_bucket account guid atype bucket db) ≡ (
        if same_owner account guid other_account other atype
        then bucket
        else bucket_of other_account other atype db)
unfolding bucket_of with_bucket same_owner
bucket_of-with_bucket account other_account guid other atype bucket db =
    elim (Bool-cases (is_global atype)) [
      | inl shared ↦ rw shared (named_bucket-put_named account other_account bucket db.shared)
      | inr own ↦
          rw (own, get-put guid other bucket db.chars)
            (elim (Bool-cases (guid == other)) [ inl e ↦ rw e refl | inr e ↦ rw e refl ])
    ]

-- Of one type of data: after it is stored, the same account reads it back if the type is global, the same
-- character if it is not, and everybody else reads what they read before.
pub acctdata_get-acctdata_set :
    (account other_account : Bytes) (guid other atype : ℕ) (s : Stored) (db : Accounts)
    → acctdata_get other_account other atype (acctdata_set account guid atype s db) ≡ (
        if same_owner account guid other_account other atype
        then s
        else acctdata_get other_account other atype db)
unfolding acctdata_get acctdata_set
acctdata_get-acctdata_set account other_account guid other atype s db =
    let bucket = put atype s (bucket_of account guid atype db) in
    elim (Bool-cases (same_owner account guid other_account other atype)) [
      | inl same ↦
          rw
            (
              bucket_of-with_bucket account other_account guid other atype bucket db,
              same,
              get-put atype atype s (bucket_of account guid atype db),
            )
            (ground arith)
      | inr differ ↦
          rw (bucket_of-with_bucket account other_account guid other atype bucket db, differ) refl
    ]

-- ===== src/World/Accounts.antt =====
-- Account data of server/world_server.py: what `accountdata.json` holds, with a save taken as done and the
-- next load as returning it. An account is given by the bytes of its name.
pub mod Kept
pub mod Seeds
mod Tests
use ascension_preservation.Common.{
  ℕ, zero, suc, ◌+◌, ◌*◌, ◌/◌, ◌%◌, ◌^◌, Bool, true, false, ◌&&◌, not, Option, none, some, List, [],
  ◌∷◌, ◌++◌, length, ltb, ◌==◌, if◌then◌else◌, Result, ok, ◌>>=◌,
}
use ascension_preservation.Common.Bytes.{Bytes, pack, eq_bytes}
use ascension_preservation.Common.Dict.{Dict, get, put, get_default}

pub record Stored : Type 0 where
  pub time : ℕ
  pub data_of : Bytes

abbrev pub Bucket : Type 0
Bucket = Dict Stored

pub record Accounts : Type 0 where
  pub shared : List (Bytes × Bucket)
  pub chars : Dict Bucket

abbrev pub num_account_data_types : ℕ
num_account_data_types = 8

-- `GLOBAL_CACHE_MASK & (1 << atype)`
abbrev pub has_bit : ℕ → ℕ → Bool
has_bit mask i = mask / 2 ^ i % 2 == 1

abbrev pub global_cache_mask : ℕ
global_cache_mask = 0x15

unfoldable pub is_global : ℕ → Bool
is_global atype = has_bit global_cache_mask atype

unfoldable pub named_bucket : Bytes → List (Bytes × Bucket) → Bucket
named_bucket account [] = []
named_bucket account ((a, b) ∷ bs) = if eq_bytes a account then b else named_bucket account bs

unfoldable pub put_named : Bytes → Bucket → List (Bytes × Bucket) → List (Bytes × Bucket)
put_named account bucket [] = (account, bucket) ∷ []
put_named account bucket ((a, b) ∷ bs) =
    let rest = put_named account bucket bs in
    if eq_bytes a account then (a, bucket) ∷ bs else (a, b) ∷ rest

-- `_acct_bucket`: a bucket that is not there is an empty one.
unfoldable pub bucket_of : Bytes → ℕ → ℕ → Accounts → Bucket
bucket_of account guid atype db =
    if is_global atype then named_bucket account db.shared else get_default (get guid db.chars) []

-- The same with the bucket changed in place.
unfoldable pub with_bucket : Bytes → ℕ → ℕ → Bucket → Accounts → Accounts
with_bucket account guid atype bucket db =
    if is_global atype
    then record db { shared = put_named account bucket db.shared }
    else record db { chars = put guid bucket db.chars }

abbrev pub nothing_stored : Stored
nothing_stored = record { time = 0; data_of = [] }

unfoldable pub acctdata_get : Bytes → ℕ → ℕ → Accounts → Stored
acctdata_get account guid atype db =
    get_default (get atype (bucket_of account guid atype db)) nothing_stored

unfoldable pub acctdata_set : Bytes → ℕ → ℕ → Stored → Accounts → Accounts
acctdata_set account guid atype s db =
    with_bucket account guid atype (put atype s (bucket_of account guid atype db)) db

-- The types from `i` on, `n` of them, that the mask has.
unfoldable pub times_from : ℕ → ℕ → Bytes → ℕ → ℕ → Accounts → List ℕ
times_from zero i account guid mask db = []
times_from (suc n) i account guid mask db =
    let rest = times_from n (suc i) account guid mask db in
    if has_bit mask i then (acctdata_get account guid i db).time ∷ rest else rest

unfoldable pub acctdata_times : Bytes → ℕ → ℕ → Accounts → List ℕ
acctdata_times account guid mask db = times_from num_account_data_types 0 account guid mask db

abbrev pub global_bindings_cache : ℕ
global_bindings_cache = 2

abbrev pub per_character_bindings_cache : ℕ
per_character_bindings_cache = 3

-- One turn of the loop of `acctdata_seed_bindings`: the types seeded are listed.
unfoldable pub seed_stored :
    Option Stored → ℕ → Bytes → ℕ → Bytes → ℕ → Accounts → List ℕ × Accounts
seed_stored (some s) now account guid text atype db = ([], db)
seed_stored none now account guid text atype db =
    (atype ∷ [], acctdata_set account guid atype record { time = now; data_of = text } db)

unfoldable pub seed_type : ℕ → Bytes → ℕ → Bytes → ℕ → Accounts → List ℕ × Accounts
seed_type now account guid text atype db =
    seed_stored (get atype (bucket_of account guid atype db)) now account guid text atype db

-- Guid 0 is no character. `text` is the file of default bindings, if it can be read.
unfoldable pub acctdata_seed_bindings : ℕ → Bytes → ℕ → Option Bytes → Accounts → List ℕ × Accounts
acctdata_seed_bindings now account guid none db = ([], db)
acctdata_seed_bindings now account guid (some text) db =
    let (first, db') = seed_type now account guid text global_bindings_cache db in
    let (second, db'') = seed_type now account guid text per_character_bindings_cache db' in
    if guid == 0 then (first, db') else (first ++ second, db'')

-- `u32 gametime | u8 1 | u32 mask | u32 time` for each bit.
unfoldable pub pack_times : List ℕ → Result Bytes
pack_times [] = ok []
pack_times (t ∷ ts) = do b ← pack 4 t; bs ← pack_times ts; ok (b ++ bs)

unfoldable pub smsg_account_data_times : ℕ → ℕ → List ℕ → Result Bytes
smsg_account_data_times now mask times = do
  a ← pack 4 now
  b ← pack 4 mask
  bs ← pack_times times
  ok (a ++ 1 ∷ (b ++ bs))

-- `compress` is `zlib.compress(raw, 9)`.
unfoldable pub smsg_update_account_data : (Bytes → Bytes) → ℕ → ℕ → ℕ → Bytes → Result Bytes
smsg_update_account_data compress guid atype tstamp raw = do
  a ← pack 8 guid
  b ← pack 4 atype
  c ← pack 4 tstamp
  d ← pack 4 (length raw)
  ok (a ++ (b ++ (c ++ (d ++ (if length raw == 0 then [] else compress raw)))))

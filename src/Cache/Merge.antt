-- ===== src/Cache/Merge.antt =====
-- tools/cache-consolidator/tools/merge.py: the records of a source merged into the store of its cache. The
-- hash is a parameter; a source's id is its number, and a date is a text.
pub mod Stored
pub mod Twice
mod Tests
use ascension_preservation.Common.{
  ℕ, ◌+◌, Bool, true, false, ◌&&◌, Option, none, some, List, [], ◌∷◌, ◌++◌, length, take, drop,
  ◌==◌, if◌then◌else◌, Result, ok, ◌>>=◌,
}
use ascension_preservation.Common.Assoc.{find, store}
use ascension_preservation.Common.Bytes.{Bytes, pack, eq_bytes}
use ascension_preservation.Common.Texts.{Text, earlier, later}

-- An entry and the digest of its payload.
abbrev pub Key : Type 0
Key = ℕ × Bytes

abbrev pub same_key : Key → Key → Bool
same_key (e, s) (f, t) = e == f && eq_bytes s t

pub record Row : Type 0 where
  pub size : ℕ
  pub offset : ℕ
  pub modes : List Text
  pub srcs : List ℕ
  pub first_captured : Text
  pub last_captured : Text

-- The index of a cache and its `pack.bin`.
pub record CacheStore : Type 0 where
  pub index : List (Key × Row)
  pub packed : Bytes

-- The sets of modes and sources, in the order of their members' arrival.
unfoldable pub has_mode : Text → List Text → Bool
has_mode t [] = false
has_mode t (u ∷ us) = if eq_bytes u t then true else has_mode t us

unfoldable pub has_src : ℕ → List ℕ → Bool
has_src i [] = false
has_src i (j ∷ js) = if j == i then true else has_src i js

unfoldable pub add_mode : Text → List Text → List Text
add_mode t us = if has_mode t us then us else us ++ t ∷ []

unfoldable pub add_src : ℕ → List ℕ → List ℕ
add_src i js = if has_src i js then js else js ++ i ∷ []

-- A record as it stands in the pack.
unfoldable pub record_bytes : ℕ → Bytes → Result Bytes
record_bytes entry payload = do
  a ← pack 4 entry
  b ← pack 4 (length payload)
  ok (a ++ (b ++ payload))

-- `blob[off + 8 : off + 8 + size]`, the payload as `load_cache` of export.py reads it.
unfoldable pub payload_at : Bytes → Row → Bytes
payload_at blob r = take r.size (drop (r.offset + 8) blob)

module _ (sha1 : Bytes → Bytes) (slug : Text) (id : ℕ) (captured : Text) where
  unfoldable pub touch : Row → Row
  touch r = record r {
    modes = add_mode slug r.modes;
    srcs = add_src id r.srcs;
    first_captured = earlier r.first_captured captured;
    last_captured = later r.last_captured captured;
  }

  unfoldable pub new_row : ℕ → ℕ → Row
  new_row size offset = record {
    size = size;
    offset = offset;
    modes = [];
    srcs = [];
    first_captured = captured;
    last_captured = captured;
  }

  -- A payload that is there is not written again.
  unfoldable pub merge_found : Option Row → ℕ → Bytes → CacheStore → Result CacheStore
  merge_found (some r) entry payload st =
      ok (record st { index = store same_key (entry, sha1 payload) (touch r) st.index })
  merge_found none entry payload st = do
    b ← record_bytes entry payload
    ok record {
      index =
          store same_key (entry, sha1 payload) (touch (new_row (length payload) (length st.packed)))
            st.index;
      packed = st.packed ++ b;
    }

  unfoldable pub merge_record : ℕ → Bytes → CacheStore → Result CacheStore
  merge_record entry payload st =
      merge_found (find same_key (entry, sha1 payload) st.index) entry payload st

  unfoldable pub merge_records : List (ℕ × Bytes) → CacheStore → Result CacheStore
  merge_records [] st = ok st
  merge_records ((entry, payload) ∷ recs) st = do
    st' ← merge_record entry payload st
    merge_records recs st'

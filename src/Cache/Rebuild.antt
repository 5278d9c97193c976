-- ===== src/Cache/Rebuild.antt =====
-- tools/cache-consolidator/tools/rebuild.py: a mode's winners written as a client cache, and the
-- check of what was written. The winners are a dictionary;
-- of each value only the payload is kept, which is all that these functions use.
pub mod Verified
use ascension_preservation.Common.{
  ℕ, zero, suc, ◌+◌, Bool, true, false, ◌&&◌, not, Option, some, none, List, [], ◌∷◌, ◌++◌, length,
  replicate, leb, ◌==◌, if◌then◌else◌, Result, ok, err, ◌>>=◌,
}
use ascension_preservation.Common.Dict.{Dict, get, sort}
use ascension_preservation.Common.Bytes.{Bytes, pack, eq_bytes}
use ascension_preservation.Cache.Wdb.{Record, iter_records, inspect, WdbInfo}

abbrev pub Winners : Type 0
Winners = Dict Bytes

-- `struct.pack("<II", entry, len(payload)) + payload`, for each entry in turn.
pub pack_all : Winners → Result Bytes
pack_all [] = ok []
pack_all ((e, p) ∷ ws) = do
  entry ← pack 4 e
  size ← pack 4 (length p)
  rest ← pack_all ws
  ok ((entry ++ (size ++ p)) ++ rest)

pub build_wdb : Bytes → Winners → Result Bytes
unfolding pack_all
build_wdb header winners = do
  records ← pack_all (sort winners)
  ok (header ++ (records ++ replicate 8 0))

-- The `(ok, detail)` of `verify`, with each detail a constructor.
pub data Verdict : Type 0 where
  verified : Verdict
  header_not_recognised no_clean_terminator : Verdict
  record_count : ℕ → ℕ → Verdict
  not_in_source payload_mismatch : ℕ → Verdict

-- One record against what the winners have for its entry; `rest` is the rest of the loop.
pub compare_record : Option Bytes → Record → Verdict → Verdict
compare_record none r rest = not_in_source r.entry
compare_record (some want) r rest =
    if eq_bytes want r.payload then rest else payload_mismatch r.entry

pub compare_records : Winners → List Record → Verdict
unfolding compare_record
compare_records winners [] = verified
compare_records winners (r ∷ rs) =
    compare_record (get r.entry winners) r (compare_records winners rs)

pub verify : Bytes → Winners → Verdict
verify b winners =
    let info = inspect b in
    if not info.standard
    then header_not_recognised
    else if not (info.records == length winners)
    then record_count info.records (length winners)
    else if not info.clean_end
    then no_clean_terminator
    else compare_records winners (iter_records b)

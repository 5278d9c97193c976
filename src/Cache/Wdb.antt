-- ===== src/Cache/Wdb.antt =====
-- tools/cache-consolidator/tools/wdblib.py: the client's query caches, a 24-byte header and records
-- `[entry u32][size u32][payload]`. A loop keeps its offset and the bytes from there on.
pub mod Count
pub mod Layout
pub mod Lossless
pub mod File
use mathlib.Core.List.{reverse}
use ascension_preservation.Common.{
  ℕ, zero, suc, ◌+◌, ◌-◌, Bool, true, false, ◌&&◌, ◌||◌, not, Option, some, none, List, [], ◌∷◌,
  length, take, drop, ltb, leb, ◌==◌, if◌then◌else◌, Result, ok, err, struct_error,
}
use ascension_preservation.Common.Bytes.{Bytes, un_le, codes, eq_bytes}

-- The cache names of `MAGIC`.
pub data CacheKind : Type 0 where
  itemcache gameobjectcache creaturecache npccache questcache : CacheKind
  pagetextcache itemtextcache itemnamecache wowcache : CacheKind

abbrev pub magics : List (Bytes × CacheKind)
magics =
    (codes "WIDB", itemcache)
    ∷ (codes "WGOB", gameobjectcache)
    ∷ (codes "WMOB", creaturecache)
    ∷ (codes "WNPC", npccache)
    ∷ (codes "WQST", questcache)
    ∷ (codes "WPTX", pagetextcache)
    ∷ (codes "WITX", itemtextcache)
    ∷ (codes "WNDB", itemnamecache)
    ∷ (codes "WRDN", wowcache)
    ∷ []

unfoldable pub find_magic : Bytes → List (Bytes × CacheKind) → Option CacheKind
find_magic magic [] = none
find_magic magic ((m, kind) ∷ rest) = if eq_bytes m magic then some kind else find_magic magic rest

abbrev pub header_len : ℕ
header_len = 24

pub record Header : Type 0 where
  pub magic : Bytes
  pub build : ℕ
  pub locale : Bytes

-- The magic and the locale are stored backwards.
unfoldable pub header_fields : Bytes → Header
header_fields b = record {
  magic = reverse (take 4 b);
  build = un_le (take 4 (drop 4 b));
  locale = reverse (take 4 (drop 8 b));
}

-- `unpack_from("<I", b, 4)` raises where the build number is cut off.
pub read_header : Bytes → Result Header
unfolding header_fields
read_header b = if ltb (length b) 8 then err struct_error else ok (header_fields b)

abbrev pub max_size : ℕ
max_size = 5_000_000

-- What stands at the front of `rest`, where 8 bytes at least do.
abbrev pub entry_at : Bytes → ℕ
entry_at rest = un_le (take 4 rest)

abbrev pub size_at : Bytes → ℕ
size_at rest = un_le (take 4 (drop 4 rest))

-- The record at `off` is malformed: too large, or it runs past the end.
abbrev pub is_malformed : ℕ → ℕ → ℕ → Bool
is_malformed n off size = ltb max_size size || ltb n (off + 8 + size)

pub record Record : Type 0 where
  pub entry : ℕ
  pub size : ℕ
  pub payload : Bytes

-- The loop of `iter_records`: `n` is the length of the file, `rest` its bytes from `off` on.
pub iter_loop : ℕ → ℕ → ℕ → Bytes → List Record
iter_loop zero n off rest = []
iter_loop (suc fuel) n off rest =
    let entry = entry_at rest in
    let size = size_at rest in
    let more = iter_loop fuel n (off + 8 + size) (drop size (drop 8 rest)) in
    let here : Record = record { entry = entry; size = size; payload = take size (drop 8 rest) } in
    if ltb n (off + 8)
    then []
    else if entry == 0 && size == 0
    then []
    else if is_malformed n off size
    then []
    else here ∷ more

-- A record takes 8 bytes at least, so the length of the file is fuel enough.
pub iter_records : Bytes → List Record
unfolding iter_loop
iter_records b = iter_loop (length b) (length b) header_len (drop header_len b)

-- What the scan of `inspect` counts: records, payload bytes, and whether the file ends cleanly.
pub record Scan : Type 0 where
  pub records : ℕ
  pub payload_bytes : ℕ
  pub clean : Bool

pub scan_loop : ℕ → ℕ → ℕ → Bytes → ℕ → ℕ → Scan
scan_loop zero n off rest recs pay = record { records = recs; payload_bytes = pay; clean = false }
scan_loop (suc fuel) n off rest recs pay =
    let entry = entry_at rest in
    let size = size_at rest in
    let more =
      scan_loop fuel n (off + 8 + size) (drop size (drop 8 rest)) (recs + 1) (pay + size) in
    let stop : Bool → Scan =
      λ clean. record { records = recs; payload_bytes = pay; clean = clean } in
    if ltb n (off + 8)
    then stop (off == n)
    else if entry == 0 && size == 0
    then stop true
    else if is_malformed n off size
    then stop false
    else more

-- The report of `inspect`, without its path, magic, label and note.
pub record WdbInfo : Type 0 where
  pub standard : Bool
  pub cache : Option CacheKind
  pub build : ℕ
  pub locale : Bytes
  pub records : ℕ
  pub payload_bytes : ℕ
  pub clean_end : Bool

-- A file of 12 bytes at least: a standard header has a known magic and a plausible build.
pub inspect_header : Bytes → Header → Option CacheKind → WdbInfo
inspect_header b h known =
    let scan = scan_loop (suc (length b)) (length b) header_len (drop header_len b) 0 0 in
    let odd : WdbInfo = record {
      standard = false;
      cache = none;
      build = h.build;
      locale = h.locale;
      records = 0;
      payload_bytes = length b - 24;
      clean_end = false;
    } in
    let standard : WdbInfo = record {
      standard = true;
      cache = known;
      build = h.build;
      locale = h.locale;
      records = scan.records;
      payload_bytes = scan.payload_bytes;
      clean_end = scan.clean;
    } in
    elim known [
      | none ↦ odd
      | some kind ↦ if leb 1000 h.build && leb h.build 60000 then standard else odd
    ]

pub inspect : Bytes → WdbInfo
inspect b =
    let h = header_fields b in
    let tiny : WdbInfo = record {
      standard = false;
      cache = none;
      build = 0;
      locale = [];
      records = 0;
      payload_bytes = 0;
      clean_end = false;
    } in
    if ltb (length b) 12 then tiny else inspect_header b h (find_magic h.magic magics)

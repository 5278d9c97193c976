-- ===== src/World/Entries.antt =====
-- The known entries of a character: `smsg_ca_known_entries` and `parse_cmsg_ca_known_entries` of
-- server/world_server.py, of which server/coa_mode.py has a copy.
pub mod RoundTrip
mod Tests
use ascension_preservation.Common.{
  ℕ, zero, suc, ◌+◌, ◌-◌, ◌/◌, ◌%◌, List, [], ◌∷◌, ◌++◌, length, take, drop, get_or, min, ltb,
  if◌then◌else◌, Result, ok, ◌>>=◌,
}
use ascension_preservation.Common.Bytes.{Bytes, le, un_le, pack}

pub record Entry : Type 0 where
  pub entry_id : ℕ
  pub rank : ℕ
  pub unk0c : ℕ
  pub flag : ℕ
  pub unk18 : ℕ
  pub unk1c : ℕ

pub write_entry : Entry → Bytes
write_entry e =
    le 4 e.entry_id
    ++ (le 4 e.rank ++ (le 4 e.unk0c ++ ((e.flag % 256) ∷ (le 4 e.unk18 ++ le 4 e.unk1c))))

pub write_entries : List Entry → Bytes
write_entries [] = []
write_entries (e ∷ es) = write_entry e ++ write_entries es

pub smsg_ca_known_entries : List Entry → Result Bytes
smsg_ca_known_entries records = do
  count ← pack 4 (length records)
  ok (count ++ write_entries records)

pub read_entry : Bytes → Entry
read_entry b = record {
  entry_id = un_le (take 4 b);
  rank = un_le (take 4 (drop 4 b));
  unk0c = un_le (take 4 (drop 8 b));
  flag = get_or b 12 0;
  unk18 = un_le (take 4 (drop 13 b));
  unk1c = un_le (take 4 (drop 17 b));
}

pub read_entries : ℕ → Bytes → List Entry
read_entries zero b = []
read_entries (suc n) b = read_entry b ∷ read_entries n (drop 21 b)

pub parse_cmsg_ca_known_entries : Bytes → List Entry
parse_cmsg_ca_known_entries body =
    let count = un_le (take 4 body) in
    if ltb (length body) 4
    then []
    else read_entries (min count ((length body - 4) / 21)) (drop 4 body)

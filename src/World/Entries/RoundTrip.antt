-- ===== src/World/Entries/RoundTrip.antt =====
-- What is written is read back, whatever stands behind it.
use ascension_preservation.Common.{
  ℕ, ◌+◌, ◌-◌, ◌*◌, ◌/◌, ◌%◌, ◌^◌, ◌<◌, ◌≡◌, refl, ap, ◌∙◌, false, List, [], ◌∷◌, ◌++◌, length,
  drop, min, ltb, ok, All, arith, append_assoc, length-append, take-append, drop-append,
}
use ascension_preservation.Common.Bytes.{Bytes, le, un_le, un_le-le, length-le, pack-eq-ok}
use ascension_preservation.World.Entries.{
  Entry, write_entry, write_entries, smsg_ca_known_entries, read_entry, read_entries,
  parse_cmsg_ca_known_entries,
}

-- The fields that fit the record of 21 bytes.
pub record IsEntry (e : Entry) : Type 0 where
  pub entry_id_lt : e.entry_id < 2 ^ 32
  pub rank_lt : e.rank < 2 ^ 32
  pub unk0c_lt : e.unk0c < 2 ^ 32
  pub flag_lt : e.flag < 256
  pub unk18_lt : e.unk18 < 2 ^ 32
  pub unk1c_lt : e.unk1c < 2 ^ 32

read_entry-write_entry :
    (e : Entry) (rest : Bytes) → IsEntry e → read_entry (write_entry e ++ rest) ≡ e
unfolding read_entry write_entry
read_entry-write_entry e rest h =
    let flag : e.flag % 256 ≡ e.flag = omega (arith, h.flag_lt) in
    λ i. record {
      entry_id = un_le-le 4 e.entry_id h.entry_id_lt i;
      rank = un_le-le 4 e.rank h.rank_lt i;
      unk0c = un_le-le 4 e.unk0c h.unk0c_lt i;
      flag = flag i;
      unk18 = un_le-le 4 e.unk18 h.unk18_lt i;
      unk1c = un_le-le 4 e.unk1c h.unk1c_lt i;
    }

drop-write_entry : (e : Entry) (rest : Bytes) → drop 21 (write_entry e ++ rest) ≡ rest
unfolding write_entry
drop-write_entry e rest = refl

length-write_entry : (e : Entry) → length (write_entry e) ≡ 21
unfolding write_entry
length-write_entry e = refl

length-write_entries : (es : List Entry) → length (write_entries es) ≡ 21 * length es
unfolding write_entries
length-write_entries [] = refl
length-write_entries (e ∷ es) = omega (
  arith,
  length-append (write_entry e) (write_entries es),
  length-write_entry e,
  length-write_entries es,
)

read_entries-write_entries :
    (es : List Entry) (tail : Bytes)
    → All IsEntry es
    → read_entries (length es) (write_entries es ++ tail) ≡ es
unfolding read_entries write_entries
read_entries-write_entries [] tail h = refl
read_entries-write_entries (e ∷ es) tail (he, h) =
    rw
      (
        append_assoc (write_entry e) (write_entries es) tail,
        read_entry-write_entry e (write_entries es ++ tail) he,
        drop-write_entry e (write_entries es ++ tail),
      )
      (ap (λ (t : List Entry). e ∷ t) (read_entries-write_entries es tail h))

-- The parser on a count and what follows it.
parse_known_append :
    (front b : Bytes)
    → length front ≡ 4
    → parse_cmsg_ca_known_entries (front ++ b) ≡ read_entries (min (un_le front) (length b / 21)) b
unfolding parse_cmsg_ca_known_entries
parse_known_append front b e =
    let long : length (front ++ b) ≡ 4 + length b = omega (arith, length-append front b) in
    let enough : ltb (length (front ++ b)) 4 ≡ false = ground (arith, long) in
    let behind : length (front ++ b) - 4 ≡ length b = omega (arith, long) in
    rw (enough, behind, take-append 4 front b e, drop-append 4 front b e) refl

-- The entries that the server sends, where their fields and their number fit, are read back one for
-- one, and a ragged tail behind them is left out.
pub parse-smsg_ca_known_entries :
    (records : List Entry) (tail : Bytes)
    → All IsEntry records
    → length records < 2 ^ 32
    → (packet : Bytes) × (smsg_ca_known_entries records ≡ ok packet)
      × (parse_cmsg_ca_known_entries (packet ++ tail) ≡ records)
unfolding smsg_ca_known_entries
parse-smsg_ca_known_entries records tail h few =
    let body = write_entries records ++ tail in
    let room : min (length records) (length body / 21) ≡ length records =
      omega (arith, length-append (write_entries records) tail, length-write_entries records) in
    (
      le 4 (length records) ++ write_entries records,
      rw (pack-eq-ok 4 (length records) few) refl,
      parse_known_append (le 4 (length records)) body (length-le 4 (length records))
          ∙ ap (λ (n : ℕ). read_entries (min n (length body / 21)) body)
              (un_le-le 4 (length records) few)
          ∙ ap (λ (n : ℕ). read_entries n body) room
          ∙ read_entries-write_entries records tail h,
    )

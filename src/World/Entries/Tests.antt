-- ===== src/World/Entries/Tests.antt =====
-- Two entries and a ragged tail.
use ascension_preservation.Common.{ℕ, ◌<◌, ◌^◌, ◌≡◌, List, [], ◌∷◌, ◌++◌, ok, arith}
use ascension_preservation.Common.Bytes.{Bytes}
use ascension_preservation.World.Entries.{Entry, smsg_ca_known_entries, parse_cmsg_ca_known_entries}
use ascension_preservation.World.Entries.RoundTrip.{IsEntry, parse-smsg_ca_known_entries}

abbrev test_entries : List Entry
test_entries =
    record { entry_id = 680196; rank = 1; unk0c = 0; flag = 0; unk18 = 0; unk1c = 0 }
    ∷ record { entry_id = 801005; rank = 3; unk0c = 0; flag = 1; unk18 = 0; unk1c = 0 }
    ∷ []

known-IsEntry :
    (id rank flag : ℕ)
    → id < 2 ^ 32
    → rank < 2 ^ 32
    → flag < 256
    → IsEntry (record { entry_id = id; rank = rank; unk0c = 0; flag = flag; unk18 = 0; unk1c = 0 })
known-IsEntry id rank flag hi hr hf = record {
  entry_id_lt = hi;
  rank_lt = hr;
  unk0c_lt = omega arith;
  flag_lt = hf;
  unk18_lt = omega arith;
  unk1c_lt = omega arith;
}

parse-smsg_ca_known_entries_example :
    (packet : Bytes) × (smsg_ca_known_entries test_entries ≡ ok packet)
    × (parse_cmsg_ca_known_entries (packet ++ (5 ∷ 6 ∷ [])) ≡ test_entries)
parse-smsg_ca_known_entries_example =
    parse-smsg_ca_known_entries test_entries (5 ∷ 6 ∷ [])
      (
        known-IsEntry 680196 1 0 (omega arith) (omega arith) (omega arith),
        (known-IsEntry 801005 3 1 (omega arith) (omega arith) (omega arith), tt),
      )
      (omega arith)

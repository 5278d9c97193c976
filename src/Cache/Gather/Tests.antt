-- ===== src/Cache/Gather/Tests.antt =====
-- A file that agrees on one spot, disagrees on another, and has a new one.
use mathlib.Core.List.Memᴰ
use ascension_preservation.Common.{ℕ, ◌+◌, ◌≡◌, refl, ◌∙◌, Bool, true, List, [], ◌∷◌, length, All}
use ascension_preservation.Common.Assoc.{find, store}
use ascension_preservation.Common.Bytes.{codes, eq_bytes, eq_bytes_iff}
use ascension_preservation.Common.Texts.{Text}
use ascension_preservation.Lua.{Value, Pairs, int, table, no_values, no_pairs, pair}
use ascension_preservation.Cache.Gather.{
  Gathered, Tally, node_dbs, observed_prior, put_node, offer_node, merge_zone, merge_database,
  merge_global, merge_globals, merge_gathermate,
}
use ascension_preservation.Cache.Gather.Union.{NodesKept, merge_gathermate-NodesKept}
use ascension_preservation.Cache.Gather.Counts.{observed_nodes, Differs}
use ascension_preservation.Cache.Gather.Spots.{InState, first, later}
use ascension_preservation.Cache.Gather.Observed.{merge_gathermate_settles}

-- The numbers, printed and compared without their signs, which is enough here.
abbrev text_of : Value → Text
text_of (int sign n) = n ∷ []
text_of v = []

abbrev equal : Value → Value → Bool
equal u v = eq_bytes (text_of u) (text_of v)

equal_trans : (u v w : Value) → equal u v ≡ true → equal v w ≡ true → equal u w ≡ true
equal_trans u v w h k =
    (eq_bytes_iff (text_of u) (text_of w)).1 ((eq_bytes_iff _ _).0 h ∙ (eq_bytes_iff _ _).0 k)

abbrev node : ℕ → Value
node n = int true n

abbrev observed : List (Text × Value)
observed =
    (
      codes "GatherMate2HerbDB",
      table no_values (
          pair (node 4)
            (table no_values
              (pair (node 1) (node 7) (pair (node 2) (node 8) (pair (node 3) (node 9) no_pairs))))
            no_pairs),
    )
    ∷ []

abbrev before : Gathered
before = (codes "GatherMate2HerbDB", (4 ∷ [], (1 ∷ [], node 7) ∷ (2 ∷ [], node 6) ∷ []) ∷ []) ∷ []

abbrev merged : Gathered × Tally
merged = merge_gathermate text_of equal [] observed before

merged_nodes : merged ≡ (
  (
    codes "GatherMate2HerbDB",
    (4 ∷ [], (1 ∷ [], node 7) ∷ (2 ∷ [], node 6) ∷ (3 ∷ [], node 9) ∷ []) ∷ [],
  )
      ∷ [],
  record {
    conflicts =
        record {
          database = codes "GatherMate2HerbDB";
          zone = node 4;
          coord = node 2;
          previous = node 6;
          observed = node 8;
        }
        ∷ [];
    merged = 2;
  },
)
unfolding merge_gathermate merge_globals merge_global merge_database merge_zone offer_node put_node
    observed_prior find store eq_bytes
merged_nodes = refl

merge_gathermate-NodesKept_example : NodesKept equal before (merged.0)
merge_gathermate-NodesKept_example =
    merge_gathermate-NodesKept equal text_of equal_trans observed before

abbrev spots : Pairs
spots = pair (node 1) (node 7) (pair (node 2) (node 8) (pair (node 3) (node 9) no_pairs))

-- The spot on which the file disagrees.
merge_gathermate_settles_example :
    InState equal text_of equal_trans
      (codes "GatherMate2HerbDB")
      (node 4)
      (node 2)
      (node 8)
      (merged.0)
      (merged.1)
    × (merged.1.merged + length (merged.1.conflicts) ≡ observed_nodes observed node_dbs)
    × All (Differs text_of equal) (merged.1.conflicts)
merge_gathermate_settles_example =
    merge_gathermate_settles equal text_of equal_trans (codes "GatherMate2HerbDB") (node 4) (node 2)
      (node 8) observed no_values no_values (pair (node 4) (table no_values spots) no_pairs) spots
      before (Memᴰ.head refl) (unfold find eq_bytes in refl) first (later first) refl

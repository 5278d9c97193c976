-- ===== src/Cache/Gather.antt =====
-- tools/cache-consolidator/tools/luamerge.py: the nodes of GatherMate, merged into the state. What `str` makes of a
-- key, and whether Python takes two values for equal, are parameters.
pub mod Union
pub mod Counts
pub mod Spots
pub mod Observed
mod Tests
use ascension_preservation.Common.{
  ℕ, ◌+◌, Bool, true, false, not, ◌&&◌, Option, none, some, List, [], ◌∷◌, ◌++◌, if◌then◌else◌,
}
use ascension_preservation.Common.Assoc.{find, store}
use ascension_preservation.Common.Bytes.{codes, eq_bytes}
use ascension_preservation.Common.Texts.{Text}
use ascension_preservation.Lua.{
  Value, Values, Pairs, nil, bool, int, float, str, redacted, table, no_pairs, pair,
}

-- The tables of the state: coordinate, zone and database by their texts.
abbrev pub Zone : Type 0
Zone = List (Text × Value)

abbrev pub Database : Type 0
Database = List (Text × Zone)

abbrev pub Gathered : Type 0
Gathered = List (Text × Database)

-- A disagreement: where it is, what stands in the state, and what was observed.
pub record Conflict : Type 0 where
  pub database : Text
  pub zone : Value
  pub coord : Value
  pub previous : Value
  pub observed : Value

-- What a merge reports: the conflicts, and `n`.
pub record Tally : Type 0 where
  pub conflicts : List Conflict
  pub merged : ℕ

-- `_NODE_DBS`
abbrev pub node_dbs : List Text
node_dbs =
    codes "GatherMate2HerbDB"
    ∷ codes "GatherMate2MineDB"
    ∷ codes "GatherMate2FishDB"
    ∷ codes "GatherMate2GasDB"
    ∷ codes "GatherMate2TreeDB"
    ∷ codes "GatherMate2TreasureDB"
    ∷ []

abbrev pub is_table : Value → Bool
is_table (table vs ps) = true
is_table v = false

-- `d.setdefault(key, {})`, as a value
abbrev pub default_empty {ℓ} : {A : Type ℓ} → Option (List A) → List A
default_empty none = []
default_empty (some d) = d

abbrev pub find_text {ℓ} : {V : Type ℓ} → Text → List (Text × V) → Option V
find_text k d = find eq_bytes k d

abbrev pub store_text {ℓ} : {V : Type ℓ} → Text → V → List (Text × V) → List (Text × V)
store_text k v d = store eq_bytes k v d

module _ (key_text : Value → Text) (same_value : Value → Value → Bool) where
  -- `key in prior and node == prior[key]`
  unfoldable pub observed_prior : Option Value → Value → Bool
  observed_prior none node = false
  observed_prior (some v) node = same_value node v

  -- A node on a spot that has one, or none.
  unfoldable pub put_node :
      Option Value → Zone → Text → Value → Value → Value → Zone → Tally → Zone × Tally
  put_node none prior dbname zone coord node z tally =
      (store_text (key_text coord) node z, record tally { merged = tally.merged + 1 })
  put_node (some old) prior dbname zone coord node z tally =
      if same_value old node
      then (store_text (key_text coord) node z, record tally { merged = tally.merged + 1 })
      else (
        if observed_prior (find_text (key_text coord) prior) node
            then store_text (key_text coord) node z
            else z,
        record tally {
          conflicts =
              tally.conflicts
              ++ record {
                database = dbname;
                zone = zone;
                coord = coord;
                previous = old;
                observed = node;
              }
                ∷ [];
        },
      )

  unfoldable pub offer_node : Zone → Text → Value → Value → Value → Zone → Tally → Zone × Tally
  offer_node prior dbname zone coord node z tally =
      if is_table node
      then (z, tally)
      else put_node (find_text (key_text coord) z) prior dbname zone coord node z tally

  -- The nodes of a zone.
  unfoldable pub merge_zone : Zone → Text → Value → Pairs → Zone → Tally → Zone × Tally
  merge_zone prior dbname zone no_pairs z tally = (z, tally)
  merge_zone prior dbname zone (pair coord node nodes) z tally =
      let now : Zone × Tally = offer_node prior dbname zone coord node z tally in
      merge_zone prior dbname zone nodes (now.0) (now.1)

  -- The zones of a database; what is no table is passed over.
  unfoldable pub merge_database : Database → Text → Pairs → Database → Tally → Database × Tally
  merge_database prior dbname no_pairs db tally = (db, tally)
  merge_database prior dbname (pair zone (table vs nodes) zones) db tally =
      let key = key_text zone in
      let now : Zone × Tally =
        merge_zone (default_empty (find_text key prior)) dbname zone nodes
          (default_empty (find_text key db)) tally in
      merge_database prior dbname zones (store_text key (now.0) db) (now.1)
  merge_database prior dbname (pair zone other zones) db tally =
      merge_database prior dbname zones db tally

  -- A global that is missing, or no table, is passed over.
  unfoldable pub merge_global : Gathered → Text → Option Value → Gathered → Tally → Gathered × Tally
  merge_global prior dbname (some (table vs zones)) st tally =
      let now : Database × Tally =
        merge_database (default_empty (find_text dbname prior)) dbname zones
          (default_empty (find_text dbname st)) tally in
      (store_text dbname (now.0) st, now.1)
  merge_global prior dbname other st tally = (st, tally)

  unfoldable pub merge_globals :
      Gathered → List (Text × Value) → List Text → Gathered → Tally → Gathered × Tally
  merge_globals prior g [] st tally = (st, tally)
  merge_globals prior g (dbname ∷ dbnames) st tally =
      let now : Gathered × Tally = merge_global prior dbname (find_text dbname g) st tally in
      merge_globals prior g dbnames (now.0) (now.1)

  -- `prior` is the replayed state, which is empty outside a replay; the caller starts without conflicts.
  unfoldable pub merge_gathermate : Gathered → List (Text × Value) → Gathered → Gathered × Tally
  merge_gathermate prior g st =
      merge_globals prior g node_dbs st (record { conflicts = []; merged = 0 })

-- ===== src/Cache/Gather/Observed.antt =====
-- Each node that a file observes: what becomes of it.
use mathlib.Core.Path.{subst}
use mathlib.Core.List.{Memᴰ}
use ascension_preservation.Common.{
  ◌+◌, ◌≡◌, sym, Bool, true, false, All, Option, some, List, [], ◌∷◌, length,
}
use ascension_preservation.Common.Assoc.{find}
use ascension_preservation.Common.Texts.{Text}
use ascension_preservation.Lua.{
  Value, Values, Pairs, nil, bool, int, float, str, redacted, table, no_pairs, pair,
}
use ascension_preservation.Cache.Gather.{
  Zone, Database, Gathered, Tally, node_dbs, is_table, default_empty, find_text, store_text,
  merge_zone, merge_database, merge_global, merge_globals, merge_gathermate,
}
use ascension_preservation.Cache.Gather.Union.{merge_database_kept, merge_globals_kept}
use ascension_preservation.Cache.Gather.Spots.{
  Has, first, later, find_stored, InDatabase, InState, InDatabase-carried, InState-carried,
  merge_zone_settles,
}
use ascension_preservation.Cache.Gather.Counts.{
  Differs, merge_globals_counts, merge_database_counts, database_nodes, observed_nodes,
  merge_gathermate_counts,
}

module _ (same_value : Value → Value → Bool) (key_text : Value → Text)
    (same_trans : (u v w : Value)
      → same_value u v ≡ true
      → same_value v w ≡ true
      → same_value u w ≡ true) where
  module _ (dbname : Text) (zone coord node : Value) where
    merge_database_settles :
        (zones : Pairs) (vs : Values) (nodes : Pairs) (db : Database) (t : Tally)
        → Has zone (table vs nodes) zones
        → Has coord node nodes
        → is_table node ≡ false
        → InDatabase same_value key_text same_trans dbname zone coord node
            (merge_database key_text same_value [] dbname zones db t).0
            (merge_database key_text same_value [] dbname zones db t).1
    unfolding merge_database find
    merge_database_settles no_pairs vs nodes db t h has e = elim h [ ]
    merge_database_settles (pair k v zones) vs nodes db t first has e =
        let key : Text = key_text zone in
        let before : Zone = default_empty (find_text key db) in
        let now : Zone × Tally = merge_zone key_text same_value [] dbname zone nodes before t in
        let next : Database = store_text key (now.0) db in
        let done : InDatabase same_value key_text same_trans dbname zone coord node next (now.1) = (
          now.0,
          find_stored key (now.0) db,
          merge_zone_settles same_value key_text same_trans dbname zone coord node nodes before t
              has e,
        ) in
        InDatabase-carried same_value key_text same_trans dbname zone coord node
          (database_nodes zones) next
          ((merge_database key_text same_value [] dbname zones next (now.1)).0) (now.1)
          ((merge_database key_text same_value [] dbname zones next (now.1)).1)
          (merge_database_kept same_value key_text same_trans zones dbname next (now.1))
          (merge_database_counts key_text same_value [] zones dbname next (now.1)) done
    merge_database_settles (pair k (table us others) zones) vs nodes db t (later h) has e =
        let key : Text = key_text k in
        let now : Zone × Tally =
          merge_zone key_text same_value [] dbname k others (default_empty (find_text key db)) t in
        merge_database_settles zones vs nodes (store_text key (now.0) db) (now.1) h has e
    merge_database_settles (pair k nil zones) vs nodes db t (later h) has e =
        merge_database_settles zones vs nodes db t h has e
    merge_database_settles (pair k (bool b) zones) vs nodes db t (later h) has e =
        merge_database_settles zones vs nodes db t h has e
    merge_database_settles (pair k (int b n) zones) vs nodes db t (later h) has e =
        merge_database_settles zones vs nodes db t h has e
    merge_database_settles (pair k (float f) zones) vs nodes db t (later h) has e =
        merge_database_settles zones vs nodes db t h has e
    merge_database_settles (pair k (str f) zones) vs nodes db t (later h) has e =
        merge_database_settles zones vs nodes db t h has e
    merge_database_settles (pair k (redacted f) zones) vs nodes db t (later h) has e =
        merge_database_settles zones vs nodes db t h has e

    merge_global_settles :
        (vs us : Values) (zones nodes : Pairs) (st : Gathered) (t : Tally)
        → Has zone (table us nodes) zones
        → Has coord node nodes
        → is_table node ≡ false
        → InState same_value key_text same_trans dbname zone coord node
            (merge_global key_text same_value [] dbname (some (table vs zones)) st t).0
            (merge_global key_text same_value [] dbname (some (table vs zones)) st t).1
    unfolding merge_global find
    merge_global_settles vs us zones nodes st t has_zone has e =
        let before : Database = default_empty (find_text dbname st) in
        let now : Database × Tally = merge_database key_text same_value [] dbname zones before t in
        (
          now.0,
          find_stored dbname (now.0) st,
          merge_database_settles zones us nodes before t has_zone has e,
        )

    -- The global that comes first in the list of names.
    merge_first_settles :
        (g : List (Text × Value)) (dbnames : List Text) (vs us : Values) (zones nodes : Pairs)
        (st : Gathered) (t : Tally)
        → find_text dbname g ≡ some (table vs zones)
        → Has zone (table us nodes) zones
        → Has coord node nodes
        → is_table node ≡ false
        → InState same_value key_text same_trans dbname zone coord node
            (merge_globals key_text same_value [] g (dbname ∷ dbnames) st t).0
            (merge_globals key_text same_value [] g (dbname ∷ dbnames) st t).1
    unfolding merge_globals
    merge_first_settles g dbnames vs us zones nodes st t found has_zone has e =
        let step : Option Value → Gathered × Tally =
          λ o. merge_global key_text same_value [] dbname o st t in
        let end : Gathered × Tally → Gathered × Tally =
          λ now. merge_globals key_text same_value [] g dbnames (now.0) (now.1) in
        let now : Gathered × Tally = step (some (table vs zones)) in
        subst
          (λ o.
            InState same_value key_text same_trans dbname zone coord node (end (step o)).0
              (end (step o)).1)
          (sym found)
          (InState-carried same_value key_text same_trans dbname zone coord node
            (observed_nodes g dbnames) (now.0) ((end now).0) (now.1) ((end now).1)
            (merge_globals_kept same_value key_text same_trans g dbnames (now.0) (now.1))
            (merge_globals_counts key_text same_value [] g dbnames (now.0) (now.1))
            (merge_global_settles vs us zones nodes st t has_zone has e))

    merge_globals_settles :
        (g : List (Text × Value)) (dbnames : List Text) (vs us : Values) (zones nodes : Pairs)
        (st : Gathered) (t : Tally)
        → Memᴰ dbname dbnames
        → find_text dbname g ≡ some (table vs zones)
        → Has zone (table us nodes) zones
        → Has coord node nodes
        → is_table node ≡ false
        → InState same_value key_text same_trans dbname zone coord node
            (merge_globals key_text same_value [] g dbnames st t).0
            (merge_globals key_text same_value [] g dbnames st t).1
    unfolding merge_globals
    merge_globals_settles g [] vs us zones nodes st t h found has_zone has e = elim h [ ]
    merge_globals_settles g (name ∷ dbnames) vs us zones nodes st t (Memᴰ.head same) found has_zone
          has e =
        subst
          (λ n.
            InState same_value key_text same_trans dbname zone coord node
              (merge_globals key_text same_value [] g (n ∷ dbnames) st t).0
              (merge_globals key_text same_value [] g (n ∷ dbnames) st t).1)
          same (merge_first_settles g dbnames vs us zones nodes st t found has_zone has e)
    merge_globals_settles g (name ∷ dbnames) vs us zones nodes st t (Memᴰ.tail h) found has_zone has
          e =
        let now : Gathered × Tally =
          merge_global key_text same_value [] name (find_text name g) st t in
        merge_globals_settles g dbnames vs us zones nodes (now.0) (now.1) h found has_zone has e

    -- Outside a replay, where Python's equality of values is transitive, a node that a file has in a zone of one of the
    -- databases is in the state at its spot afterwards, or a value equal to it is, or else the node is among the
    -- reported conflicts, beside a value that is not equal to it and that the spot keeps. And what is counted as merged
    -- and what is reported add up to the nodes of the file, and no conflict is between values that are equal.
    pub merge_gathermate_settles :
        (g : List (Text × Value)) (vs us : Values) (zones nodes : Pairs) (st : Gathered)
        → Memᴰ dbname node_dbs
        → find_text dbname g ≡ some (table vs zones)
        → Has zone (table us nodes) zones
        → Has coord node nodes
        → is_table node ≡ false
        → InState same_value key_text same_trans dbname zone coord node
            (merge_gathermate key_text same_value [] g st).0
            (merge_gathermate key_text same_value [] g st).1
          × ((merge_gathermate key_text same_value [] g st).1.merged
                + length ((merge_gathermate key_text same_value [] g st).1.conflicts)
              ≡ observed_nodes g node_dbs)
          × All
              (Differs key_text same_value)
              ((merge_gathermate key_text same_value [] g st).1.conflicts)
    merge_gathermate_settles g vs us zones nodes st m found has_zone has e = (
      unfold merge_gathermate in
          merge_globals_settles g node_dbs vs us zones nodes st
            (record { conflicts = []; merged = 0 }) m found has_zone has e,
      (merge_gathermate_counts key_text same_value [] g st).0,
      (merge_gathermate_counts key_text same_value [] g st).1,
    )

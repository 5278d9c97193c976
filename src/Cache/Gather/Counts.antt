-- ===== src/Cache/Gather/Counts.antt =====
-- The tally of a merge.
use mathlib.Core.List.Memᴰ
use mathlib.Core.List.{Memᴰ}
use ascension_preservation.Common.{
  ℕ, ◌+◌, ◌≡◌, Bool, false, inl, inr, Bool-cases, All, All-append, Option, none, some, List, [],
  ◌∷◌, length, length-append, if◌then◌else◌, arith,
}
use ascension_preservation.Common.Texts.{Text}
use ascension_preservation.Lua.{
  Value, Pairs, nil, bool, int, float, str, redacted, table, no_pairs, pair,
}
use ascension_preservation.Cache.Gather.{
  Zone, Database, Gathered, Conflict, Tally, node_dbs, is_table, default_empty, find_text,
  store_text, put_node, offer_node, merge_zone, merge_database, merge_global, merge_globals,
  merge_gathermate,
}

-- How many nodes a file has, tables apart.
abbrev pub nodes_in : Pairs → ℕ
nodes_in no_pairs = 0
nodes_in (pair coord node nodes) = (if is_table node then 0 else 1) + nodes_in nodes

abbrev pub database_nodes : Pairs → ℕ
database_nodes no_pairs = 0
database_nodes (pair zone (table vs nodes) zones) = nodes_in nodes + database_nodes zones
database_nodes (pair zone other zones) = database_nodes zones

abbrev pub global_nodes : Option Value → ℕ
global_nodes (some (table vs zones)) = database_nodes zones
global_nodes other = 0

abbrev pub observed_nodes : List (Text × Value) → List Text → ℕ
observed_nodes g [] = 0
observed_nodes g (dbname ∷ dbnames) = global_nodes (find_text dbname g) + observed_nodes g dbnames

module _ (key_text : Value → Text) (same_value : Value → Value → Bool) where
  -- A conflict is between values that differ.
  abbrev pub Differs : Conflict → Type 0
  Differs c = same_value c.previous c.observed ≡ false

  abbrev seen : Tally → ℕ
  seen t = t.merged + length t.conflicts

  -- What a step that looks at `n` nodes makes of the tally; no conflict is forgotten.
  pub Tallied : ℕ → Tally → Tally → Type 0
  Tallied n t t' =
      (seen t' ≡ seen t + n)
      × (All Differs t.conflicts → All Differs t'.conflicts)
      × ((c : Conflict) → Memᴰ c t.conflicts → Memᴰ c t'.conflicts)

  pub Tallied-stays :
      (n : ℕ) (t t' : Tally) (c : Conflict)
      → Tallied n t t'
      → Memᴰ c t.conflicts
      → Memᴰ c t'.conflicts
  unfolding Tallied
  Tallied-stays n t t' c (e, h, g) = g c

  counts_none : (t : Tally) → Tallied 0 t t
  unfolding Tallied
  counts_none t = (omega arith, λ h. h, λ c k. k)

  counts_both :
      (m n : ℕ) (t t' t'' : Tally) → Tallied m t t' → Tallied n t' t'' → Tallied (m + n) t t''
  unfolding Tallied
  counts_both m n t t' t'' (e, h, g) (e', h', g') =
      (omega arith, λ d. h' (h d), λ c k. g' c (g c k))

  put_node_counts :
      (o : Option Value) (prior : Zone) (dbname : Text) (zone coord node : Value) (z : Zone)
      (t : Tally)
      → Tallied 1 t ((put_node key_text same_value o prior dbname zone coord node z t).1)
  unfolding put_node Tallied
  put_node_counts none prior dbname zone coord node z t = (omega arith, λ d. d, λ c k. k)
  put_node_counts (some old) prior dbname zone coord node z t =
      elim (Bool-cases (same_value old node)) [
        | inl e ↦ rw e (omega arith, λ d. d, λ c k. k)
        | inr e ↦
            let new : List Conflict =
              record {
                database = dbname;
                zone = zone;
                coord = coord;
                previous = old;
                observed = node;
              }
              ∷ [] in
            rw e (
              omega (arith, length-append t.conflicts new),
              λ d. All-append Differs t.conflicts new d (e, tt),
              λ c k. Memᴰ.append_left new k,
            )
      ]

  offer_node_counts :
      (prior : Zone) (dbname : Text) (zone coord node : Value) (z : Zone) (t : Tally)
      → Tallied
          (if is_table node then 0 else 1)
          t
          ((offer_node key_text same_value prior dbname zone coord node z t).1)
  unfolding offer_node
  offer_node_counts prior dbname zone coord node z t = elim (Bool-cases (is_table node)) [
    | inl e ↦ rw e (counts_none t)
    | inr e ↦ rw e (put_node_counts (find_text (key_text coord) z) prior dbname zone coord node z t)
  ]

  pub merge_zone_counts :
      (prior : Zone) (nodes : Pairs) (dbname : Text) (zone : Value) (z : Zone) (t : Tally)
      → Tallied (nodes_in nodes) t ((merge_zone key_text same_value prior dbname zone nodes z t).1)
  unfolding merge_zone
  merge_zone_counts prior no_pairs dbname zone z t = counts_none t
  merge_zone_counts prior (pair coord node nodes) dbname zone z t =
      let now : Zone × Tally = offer_node key_text same_value prior dbname zone coord node z t in
      counts_both (if is_table node then 0 else 1) (nodes_in nodes) t (now.1)
        ((merge_zone key_text same_value prior dbname zone nodes (now.0) (now.1)).1)
        (offer_node_counts prior dbname zone coord node z t)
        (merge_zone_counts prior nodes dbname zone (now.0) (now.1))

  pub merge_database_counts :
      (prior : Database) (zones : Pairs) (dbname : Text) (db : Database) (t : Tally)
      → Tallied
          (database_nodes zones)
          t
          ((merge_database key_text same_value prior dbname zones db t).1)
  unfolding merge_database
  merge_database_counts prior no_pairs dbname db t = counts_none t
  merge_database_counts prior (pair zone (table vs nodes) zones) dbname db t =
      let key : Text = key_text zone in
      let before : Zone = default_empty (find_text key db) in
      let its_prior : Zone = default_empty (find_text key prior) in
      let now : Zone × Tally =
        merge_zone key_text same_value its_prior dbname zone nodes before t in
      let next : Database = store_text key (now.0) db in
      counts_both (nodes_in nodes) (database_nodes zones) t (now.1)
        ((merge_database key_text same_value prior dbname zones next (now.1)).1)
        (merge_zone_counts its_prior nodes dbname zone before t)
        (merge_database_counts prior zones dbname next (now.1))
  merge_database_counts prior (pair zone nil zones) dbname db t =
      merge_database_counts prior zones dbname db t
  merge_database_counts prior (pair zone (bool b) zones) dbname db t =
      merge_database_counts prior zones dbname db t
  merge_database_counts prior (pair zone (int b n) zones) dbname db t =
      merge_database_counts prior zones dbname db t
  merge_database_counts prior (pair zone (float s) zones) dbname db t =
      merge_database_counts prior zones dbname db t
  merge_database_counts prior (pair zone (str s) zones) dbname db t =
      merge_database_counts prior zones dbname db t
  merge_database_counts prior (pair zone (redacted s) zones) dbname db t =
      merge_database_counts prior zones dbname db t

  merge_global_counts :
      (prior : Gathered) (v : Option Value) (dbname : Text) (st : Gathered) (t : Tally)
      → Tallied (global_nodes v) t ((merge_global key_text same_value prior dbname v st t).1)
  unfolding merge_global
  merge_global_counts prior none dbname st t = counts_none t
  merge_global_counts prior (some (table vs zones)) dbname st t =
      merge_database_counts (default_empty (find_text dbname prior)) zones dbname
        (default_empty (find_text dbname st)) t
  merge_global_counts prior (some nil) dbname st t = counts_none t
  merge_global_counts prior (some (bool b)) dbname st t = counts_none t
  merge_global_counts prior (some (int b n)) dbname st t = counts_none t
  merge_global_counts prior (some (float s)) dbname st t = counts_none t
  merge_global_counts prior (some (str s)) dbname st t = counts_none t
  merge_global_counts prior (some (redacted s)) dbname st t = counts_none t

  pub merge_globals_counts :
      (prior : Gathered) (g : List (Text × Value)) (dbnames : List Text) (st : Gathered) (t : Tally)
      → Tallied
          (observed_nodes g dbnames)
          t
          ((merge_globals key_text same_value prior g dbnames st t).1)
  unfolding merge_globals
  merge_globals_counts prior g [] st t = counts_none t
  merge_globals_counts prior g (dbname ∷ dbnames) st t =
      let now : Gathered × Tally =
        merge_global key_text same_value prior dbname (find_text dbname g) st t in
      counts_both (global_nodes (find_text dbname g)) (observed_nodes g dbnames) t (now.1)
        ((merge_globals key_text same_value prior g dbnames (now.0) (now.1)).1)
        (merge_global_counts prior (find_text dbname g) dbname st t)
        (merge_globals_counts prior g dbnames (now.0) (now.1))

  -- The tally, whatever is replayed: what is counted as merged and what is reported add up to the nodes of the file's
  -- tables. And what is reported are disagreements: the value that stands in the state and the one that was observed
  -- are not equal.
  pub merge_gathermate_counts :
      (prior : Gathered) (g : List (Text × Value)) (st : Gathered)
      → ((merge_gathermate key_text same_value prior g st).1.merged
            + length ((merge_gathermate key_text same_value prior g st).1.conflicts)
          ≡ observed_nodes g node_dbs)
        × All Differs ((merge_gathermate key_text same_value prior g st).1.conflicts)
  unfolding merge_gathermate Tallied
  merge_gathermate_counts prior g st =
      let counts : Tallied (observed_nodes g node_dbs) (record { conflicts = []; merged = 0 })
          ((merge_globals key_text same_value prior g node_dbs st
            (record { conflicts = []; merged = 0 })).1) =
        merge_globals_counts prior g node_dbs st (record { conflicts = []; merged = 0 }) in
      (omega (arith, counts.0), counts.1 tt)

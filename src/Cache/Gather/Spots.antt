-- ===== src/Cache/Gather/Spots.antt =====
-- A spot that a file observes, in a zone: what becomes of its node.
use mathlib.Core.List.Memᴰ
use mathlib.Core.List.{Memᴰ}
use ascension_preservation.Common.{
  ℕ, ◌≡◌, refl, ◌∙◌, Bool, true, false, inl, inr, Bool-cases, Option, none, some, List, [],
}
use ascension_preservation.Common.Assoc.{find, find-store}
use ascension_preservation.Common.Bytes.{eq_bytes, eq_bytes_iff}
use ascension_preservation.Common.Texts.{Text}
use ascension_preservation.Lua.{Value, Pairs, no_pairs, pair}
use ascension_preservation.Cache.Gather.{
  Zone, Database, Gathered, Tally, is_table, find_text, store_text, observed_prior, put_node,
  offer_node, merge_zone,
}
use ascension_preservation.Cache.Gather.Union.{
  Alike, ZoneKept, DatabaseKept, Alike-trans, merge_zone_kept, NodesKept,
}
use ascension_preservation.Cache.Gather.Counts.{nodes_in, Tallied, Tallied-stays, merge_zone_counts}

-- The table has the value under the key.
pub data Has (k v : Value) : Pairs → Type 0 where
  first : {ps : Pairs} → Has k v (pair k v ps)
  later : {j w : Value} {ps : Pairs} → Has k v ps → Has k v (pair j w ps)

pub find_stored :
    {V : Type 0} (k : Text) (v : V) (d : List (Text × V)) → find_text k (store_text k v d) ≡ some v
find_stored k v d =
    let same : eq_bytes k k ≡ true = (eq_bytes_iff k k).1 refl in
    find-store eq_bytes eq_bytes_iff k k v d ∙ rw same refl

module _ (same_value : Value → Value → Bool) (dbname : Text) (zone coord node : Value) where
  -- The spot has the value `w`. Either that is the observed node, or equal to it; or the node is
  -- reported, beside an earlier value of the spot, and the spot still has that one, or one equal to it.
  pub data Settled (w : Value) (t : Tally) : Type 0 where
    merged : Alike same_value node w → Settled w t
    reported :
        (old : Value)
        → Memᴰ
            (record {
              database = dbname;
              zone = zone;
              coord = coord;
              previous = old;
              observed = node;
            })
            t.conflicts
        → same_value old node ≡ false
        → Alike same_value old w
        → Settled w t

module _ (same_value : Value → Value → Bool) (key_text : Value → Text)
    (same_trans : (u v w : Value)
      → same_value u v ≡ true
      → same_value v w ≡ true
      → same_value u w ≡ true) where
  module _ (dbname : Text) (zone coord node : Value) where
    Settled-carried :
        (n : ℕ) (v w : Value) (t t' : Tally)
        → Alike same_value v w
        → Tallied key_text same_value n t t'
        → Settled same_value dbname zone coord node v t
        → Settled same_value dbname zone coord node w t'
    Settled-carried n v w t t' h k (merged e) =
        merged (Alike-trans same_value key_text same_trans node v w e h)
    Settled-carried n v w t t' h k (reported old c differs e) =
        reported old (Tallied-stays key_text same_value n t t' _ k c) differs
          (Alike-trans same_value key_text same_trans old v w e h)

    -- The spot is settled, in a zone, a database and the state.
    abbrev pub InZone : Zone → Tally → Type 0
    InZone z t =
        (w : Value) × (find_text (key_text coord) z ≡ some w)
        × Settled same_value dbname zone coord node w t

    abbrev pub InDatabase : Database → Tally → Type 0
    InDatabase db t = (z : Zone) × (find_text (key_text zone) db ≡ some z) × InZone z t

    abbrev pub InState : Gathered → Tally → Type 0
    InState st t = (db : Database) × (find_text dbname st ≡ some db) × InDatabase db t

    InZone-carried :
        (n : ℕ) (z z' : Zone) (t t' : Tally)
        → ZoneKept same_value z z'
        → Tallied key_text same_value n t t'
        → InZone z t
        → InZone z' t'
    InZone-carried n z z' t t' kept k (v, found, settled) =
        let (w, there, h) = kept (key_text coord) v found in
        (w, there, Settled-carried n v w t t' h k settled)

    pub InDatabase-carried :
        (n : ℕ) (db db' : Database) (t t' : Tally)
        → DatabaseKept same_value db db'
        → Tallied key_text same_value n t t'
        → InDatabase db t
        → InDatabase db' t'
    InDatabase-carried n db db' t t' kept k (z, found, settled) =
        let (z', there, h) = kept (key_text zone) z found in
        (z', there, InZone-carried n z z' t t' h k settled)

    pub InState-carried :
        (n : ℕ) (st st' : Gathered) (t t' : Tally)
        → NodesKept same_value st st'
        → Tallied key_text same_value n t t'
        → InState st t
        → InState st' t'
    InState-carried n st st' t t' kept k (db, found, settled) =
        let (db', there, h) = kept dbname db found in
        (db', there, InDatabase-carried n db db' t t' h k settled)

    put_node_settles :
        (o : Option Value) (z : Zone) (t : Tally)
        → find_text (key_text coord) z ≡ o
        → InZone
            (put_node key_text same_value o [] dbname zone coord node z t).0
            (put_node key_text same_value o [] dbname zone coord node z t).1
    unfolding put_node observed_prior
    put_node_settles none z t e = (node, find_stored (key_text coord) node z, merged (inl refl))
    put_node_settles (some old) z t e = elim (Bool-cases (same_value old node)) [
      | inl h ↦ rw h (node, find_stored (key_text coord) node z, merged (inl refl))
      | inr h ↦ rw h (
          unfold find in
          (old, e, reported old (Memᴰ.append_right t.conflicts (Memᴰ.head refl)) h (inl refl)))
    ]

    offer_node_settles :
        (z : Zone) (t : Tally)
        → is_table node ≡ false
        → InZone
            (offer_node key_text same_value [] dbname zone coord node z t).0
            (offer_node key_text same_value [] dbname zone coord node z t).1
    unfolding offer_node
    offer_node_settles z t e = rw e (put_node_settles (find_text (key_text coord) z) z t refl)

    pub merge_zone_settles :
        (nodes : Pairs) (z : Zone) (t : Tally)
        → Has coord node nodes
        → is_table node ≡ false
        → InZone
            (merge_zone key_text same_value [] dbname zone nodes z t).0
            (merge_zone key_text same_value [] dbname zone nodes z t).1
    unfolding merge_zone
    merge_zone_settles no_pairs z t h e = elim h [ ]
    merge_zone_settles (pair k v nodes) z t first e =
        let now : Zone × Tally = offer_node key_text same_value [] dbname zone coord node z t in
        InZone-carried (nodes_in nodes) (now.0)
          ((merge_zone key_text same_value [] dbname zone nodes (now.0) (now.1)).0) (now.1)
          ((merge_zone key_text same_value [] dbname zone nodes (now.0) (now.1)).1)
          (merge_zone_kept same_value key_text same_trans nodes dbname zone (now.0) (now.1))
          (merge_zone_counts key_text same_value [] nodes dbname zone (now.0) (now.1))
          (offer_node_settles z t e)
    merge_zone_settles (pair k v nodes) z t (later h) e =
        let now : Zone × Tally = offer_node key_text same_value [] dbname zone k v z t in
        merge_zone_settles nodes (now.0) (now.1) h e

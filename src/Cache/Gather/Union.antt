-- ===== src/Cache/Gather/Union.antt =====
-- The nodes of the state stay.
use mathlib.Core.Path.{subst}
use ascension_preservation.Common.{
  ◌≡◌, ◌⊎◌, refl, sym, ◌∙◌, Bool, true, inl, inr, Bool-cases, Option, none, some, List, [], ◌∷◌,
}
use ascension_preservation.Common.Assoc.{find, store}
use ascension_preservation.Common.Bytes.{eq_bytes, eq_bytes_iff}
use ascension_preservation.Common.Keeps.{Keeps, Keeps-refl, Keeps-trans, Keeps-store}
use ascension_preservation.Common.Texts.{Text}
use ascension_preservation.Lua.{
  Value, Pairs, nil, bool, int, float, str, redacted, table, no_pairs, pair,
}
use ascension_preservation.Cache.Gather.{
  Zone, Database, Gathered, Tally, node_dbs, is_table, default_empty, find_text, observed_prior,
  put_node, offer_node, merge_zone, merge_database, merge_global, merge_globals, merge_gathermate,
}

module _ (same_value : Value → Value → Bool) where
  -- The same value, or one that Python takes for equal.
  abbrev pub Alike : Value → Value → Type 0
  Alike u v = (u ≡ v) ⊎ (same_value u v ≡ true)

  abbrev pub ZoneKept : Zone → Zone → Type 0
  ZoneKept = Keeps eq_bytes Alike

  abbrev pub DatabaseKept : Database → Database → Type 0
  DatabaseKept = Keeps eq_bytes ZoneKept

  -- Each spot that has a node has one that is alike.
  abbrev pub NodesKept : Gathered → Gathered → Type 0
  NodesKept = Keeps eq_bytes DatabaseKept

  module _ (key_text : Value → Text)
      (same_trans : (u v w : Value)
        → same_value u v ≡ true
        → same_value v w ≡ true
        → same_value u w ≡ true) where
    pub Alike-trans : (u v w : Value) → Alike u v → Alike v w → Alike u w
    Alike-trans u v w (inl e) k = subst (λ x. Alike x w) (sym e) k
    Alike-trans u v w (inr h) (inl e) = inr (subst (λ x. same_value u x ≡ true) e h)
    Alike-trans u v w (inr h) (inr k) = inr (same_trans u v w h k)

    zone_refl : (z : Zone) → ZoneKept z z
    zone_refl = Keeps-refl eq_bytes Alike (λ v. inl refl)

    pub zone_trans : (z z' z'' : Zone) → ZoneKept z z' → ZoneKept z' z'' → ZoneKept z z''
    zone_trans = Keeps-trans eq_bytes Alike Alike-trans

    database_refl : (d : Database) → DatabaseKept d d
    database_refl = Keeps-refl eq_bytes ZoneKept zone_refl

    database_trans :
        (d d' d'' : Database) → DatabaseKept d d' → DatabaseKept d' d'' → DatabaseKept d d''
    database_trans = Keeps-trans eq_bytes ZoneKept zone_trans

    put_node_kept :
        (o : Option Value) (dbname : Text) (zone coord node : Value) (z : Zone) (tally : Tally)
        → find_text (key_text coord) z ≡ o
        → ZoneKept z ((put_node key_text same_value o [] dbname zone coord node z tally).0)
    unfolding put_node observed_prior
    put_node_kept none dbname zone coord node z tally e =
        Keeps-store eq_bytes Alike eq_bytes_iff (λ v. inl refl) (key_text coord) node z
          (λ old h. cc (sym e ∙ h))
    put_node_kept (some old) dbname zone coord node z tally e =
        elim (Bool-cases (same_value old node)) [
          | inl h ↦ rw h (
              Keeps-store eq_bytes Alike eq_bytes_iff (λ v. inl refl) (key_text coord) node z
                (λ other k.
                  let found : some old ≡ some other = sym e ∙ k in
                  let this : old ≡ other = cc found in subst (λ x. Alike x node) this (inr h)))
          | inr h ↦ rw h (unfold find in zone_refl z)
        ]

    -- What is put under a key is kept from what was there, or new.
    Keeps-default :
        {A : Type 0} (R : List A → List A → Type 0)
        → ((d : List A) → R d d)
        → (k : Text) (now : List A) (d : List (Text × List A))
        → R (default_empty (find eq_bytes k d)) now
        → Keeps eq_bytes R d (store eq_bytes k now d)
    Keeps-default R R_refl k now d h =
        Keeps-store eq_bytes R eq_bytes_iff R_refl k now d
          (λ old e. subst (λ o. R (default_empty o) now) e h)

    offer_node_kept :
        (dbname : Text) (zone coord node : Value) (z : Zone) (tally : Tally)
        → ZoneKept z ((offer_node key_text same_value [] dbname zone coord node z tally).0)
    unfolding offer_node
    offer_node_kept dbname zone coord node z tally = elim (Bool-cases (is_table node)) [
      | inl e ↦ rw e (zone_refl z)
      | inr e ↦
          rw e (put_node_kept (find_text (key_text coord) z) dbname zone coord node z tally refl)
    ]

    pub merge_zone_kept :
        (nodes : Pairs) (dbname : Text) (zone : Value) (z : Zone) (tally : Tally)
        → ZoneKept z ((merge_zone key_text same_value [] dbname zone nodes z tally).0)
    unfolding merge_zone
    merge_zone_kept no_pairs dbname zone z tally = zone_refl z
    merge_zone_kept (pair coord node nodes) dbname zone z tally =
        let now : Zone × Tally = offer_node key_text same_value [] dbname zone coord node z tally in
        zone_trans z (now.0)
          ((merge_zone key_text same_value [] dbname zone nodes (now.0) (now.1)).0)
          (offer_node_kept dbname zone coord node z tally)
          (merge_zone_kept nodes dbname zone (now.0) (now.1))

    pub merge_database_kept :
        (zones : Pairs) (dbname : Text) (db : Database) (tally : Tally)
        → DatabaseKept db ((merge_database key_text same_value [] dbname zones db tally).0)
    unfolding merge_database find
    merge_database_kept no_pairs dbname db tally = database_refl db
    merge_database_kept (pair zone (table vs nodes) zones) dbname db tally =
        let key : Text = key_text zone in
        let before : Zone = default_empty (find_text key db) in
        let now : Zone × Tally = merge_zone key_text same_value [] dbname zone nodes before tally in
        let next : Database = store eq_bytes key (now.0) db in
        database_trans db next ((merge_database key_text same_value [] dbname zones next (now.1)).0)
          (Keeps-default ZoneKept zone_refl key (now.0) db
            (merge_zone_kept nodes dbname zone before tally))
          (merge_database_kept zones dbname next (now.1))
    merge_database_kept (pair zone nil zones) dbname db tally =
        merge_database_kept zones dbname db tally
    merge_database_kept (pair zone (bool b) zones) dbname db tally =
        merge_database_kept zones dbname db tally
    merge_database_kept (pair zone (int b n) zones) dbname db tally =
        merge_database_kept zones dbname db tally
    merge_database_kept (pair zone (float t) zones) dbname db tally =
        merge_database_kept zones dbname db tally
    merge_database_kept (pair zone (str t) zones) dbname db tally =
        merge_database_kept zones dbname db tally
    merge_database_kept (pair zone (redacted t) zones) dbname db tally =
        merge_database_kept zones dbname db tally

    gathered_refl : (st : Gathered) → NodesKept st st
    gathered_refl = Keeps-refl eq_bytes DatabaseKept database_refl

    merge_global_kept :
        (v : Option Value) (dbname : Text) (st : Gathered) (tally : Tally)
        → NodesKept st ((merge_global key_text same_value [] dbname v st tally).0)
    unfolding merge_global find
    merge_global_kept none dbname st tally = gathered_refl st
    merge_global_kept (some (table vs zones)) dbname st tally =
        let before : Database = default_empty (find_text dbname st) in
        Keeps-default DatabaseKept database_refl dbname
          ((merge_database key_text same_value [] dbname zones before tally).0) st
          (merge_database_kept zones dbname before tally)
    merge_global_kept (some nil) dbname st tally = gathered_refl st
    merge_global_kept (some (bool b)) dbname st tally = gathered_refl st
    merge_global_kept (some (int b n)) dbname st tally = gathered_refl st
    merge_global_kept (some (float t)) dbname st tally = gathered_refl st
    merge_global_kept (some (str t)) dbname st tally = gathered_refl st
    merge_global_kept (some (redacted t)) dbname st tally = gathered_refl st

    pub merge_globals_kept :
        (g : List (Text × Value)) (dbnames : List Text) (st : Gathered) (tally : Tally)
        → NodesKept st ((merge_globals key_text same_value [] g dbnames st tally).0)
    unfolding merge_globals
    merge_globals_kept g [] st tally = gathered_refl st
    merge_globals_kept g (dbname ∷ dbnames) st tally =
        let now : Gathered × Tally =
          merge_global key_text same_value [] dbname (find_text dbname g) st tally in
        Keeps-trans eq_bytes DatabaseKept database_trans st (now.0)
          ((merge_globals key_text same_value [] g dbnames (now.0) (now.1)).0)
          (merge_global_kept (find_text dbname g) dbname st tally)
          (merge_globals_kept g dbnames (now.0) (now.1))

    -- Outside a replay, merging a file never takes a node away, and never puts another in its place: each spot of the
    -- state keeps its node, or one that Python takes for equal to it, provided that this equality is transitive.
    pub merge_gathermate-NodesKept :
        (g : List (Text × Value)) (st : Gathered)
        → NodesKept st ((merge_gathermate key_text same_value [] g st).0)
    unfolding merge_gathermate
    merge_gathermate-NodesKept g st =
        merge_globals_kept g node_dbs st (record { conflicts = []; merged = 0 })

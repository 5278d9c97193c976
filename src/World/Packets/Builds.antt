-- ===== src/World/Packets/Builds.antt =====
-- The records of the build creator. A text is given by its UTF-8 bytes, and a field of a stored build is
-- absent or there. The rows of a build's spells come from the tables of spells.
pub mod Votes
use ascension_preservation.Common.{
  ℕ, ◌+◌, ◌%◌, ◌^◌, Bool, true, false, ◌&&◌, ◌||◌, not, Option, none, some, List, [], ◌∷◌, ◌++◌,
  length, map, max, ltb, ◌==◌, if◌then◌else◌, Result, ok, ◌>>=◌,
}
use ascension_preservation.Common.Bytes.{Bytes}
use ascension_preservation.Common.Dict.{Dict, get, put, get_default, sort}
use ascension_preservation.World.Packets.{Field, u8, u32, u64, raw, cstring, write_fields}

-- `_bstr`
unfoldable pub bstr : Option Bytes → Field
bstr none = raw (0 ∷ [])
bstr (some s) = cstring s

-- A spell, the level it is taken at, and a comment.
pub record SpellRow : Type 0 where
  pub spell : ℕ
  pub level : ℕ
  pub comment : Bytes

abbrev word : ℕ → Field
word v = u32 (v % 2 ^ 32)

unfoldable pub build_spell_fields : ℕ → ℕ → Bytes → ℕ → List Field
build_spell_fields spell level comment flags =
    word spell ∷ word level ∷ u8 0 ∷ u8 0 ∷ u8 0 ∷ u8 0 ∷ word flags ∷ cstring comment ∷ []

unfoldable pub smsg_build_spell : ℕ → ℕ → Bytes → ℕ → Result Bytes
smsg_build_spell spell level comment flags =
    write_fields (build_spell_fields spell level comment flags)

-- A row of `CLASS_TYPES`.
pub record ClassType : Type 0 where
  pub type_id : ℕ
  pub required : ℕ
  pub classic : Bool

abbrev pub build_class_hero : ℕ
build_class_hero = 10

unfoldable pub build_filter_class : List ClassType → ℕ → Option ℕ
build_filter_class [] id = none
build_filter_class (ct ∷ cts) id =
    let later = build_filter_class cts id in
    let hero = if ct.classic then some build_class_hero else none in
    if not (ct.type_id == id) then later else if ct.required == 0 then hero else some ct.required

unfoldable pub add_vote : Option ℕ → Dict ℕ → Dict ℕ
add_vote none votes = votes
add_vote (some c) votes = put c (get_default (get c votes) 0 + 1) votes

-- `ids` are the class types of the entries that the index has.
unfoldable pub count_votes : List ClassType → List ℕ → Dict ℕ → Dict ℕ
count_votes cts [] votes = votes
count_votes cts (id ∷ ids) votes = count_votes cts ids (add_vote (build_filter_class cts id) votes)

-- `max(..., key=...)`: the first of those with the most.
unfoldable pub most : ℕ → ℕ → Dict ℕ → ℕ
most best n [] = best
most best n ((c, v) ∷ votes) = if ltb n v then most c v votes else most best n votes

unfoldable pub voted : Option ℕ → Dict ℕ → ℕ
voted fallback [] = get_default fallback build_class_hero % 2 ^ 32
voted fallback ((c, v) ∷ votes) = most c v votes

unfoldable pub build_class_of : List ClassType → Option ℕ → Option ℕ → List ℕ → ℕ
build_class_of cts (some pinned) fallback ids = pinned % 2 ^ 32
build_class_of cts none fallback ids = voted fallback (sort (count_votes cts ids []))

pub record Build : Type 0 where
  pub leveling_id : Option Bytes
  pub end_game_id_pve : Option Bytes
  pub end_game_id_pvp : Option Bytes
  pub class : Option ℕ
  pub author : Option Bytes
  pub name : Option Bytes
  pub subtext : Option Bytes
  pub description : Option Bytes
  pub icon : Option Bytes
  pub upvotes : Option ℕ
  pub created : Option ℕ
  pub updated : Option ℕ
  pub category : Option ℕ
  pub roles : Option ℕ
  pub primary_stat : Option ℕ
  pub flags : Option ℕ
  pub difficulty : Option ℕ
  pub class_types : List ℕ
  pub spell_rows : List SpellRow

unfoldable pub row_fields : List SpellRow → List Field
row_fields [] = []
row_fields (r ∷ rs) = build_spell_fields r.spell r.level r.comment 0 ++ row_fields rs

abbrev text_or : Option Bytes → Bytes → Field
text_or o d = cstring (get_default o d)

abbrev number_or : Option ℕ → ℕ → Field
number_or o d = word (get_default o d)

-- `icon` is `BUILD_DEFAULT_ICON`; 8 is `BUILD_DEFAULT_ROLE`.
unfoldable pub smsg_build_record :
    List ClassType → ℕ → Bytes → Bytes → Build → ℕ → Bytes → Option ℕ → Result Bytes
smsg_build_record cts now icon bid b category author clas = write_fields (
    (cstring bid
      ∷ text_or b.leveling_id []
      ∷ text_or b.end_game_id_pve []
      ∷ text_or b.end_game_id_pvp []
      ∷ u32 (build_class_of cts b.class clas b.class_types)
      ∷ text_or b.author author
      ∷ text_or b.name bid
      ∷ text_or b.subtext []
      ∷ text_or b.description []
      ∷ text_or b.icon icon
      ∷ number_or b.upvotes 0
      ∷ u64 (get_default b.created now)
      ∷ u64 (get_default b.updated now)
      ∷ number_or b.category category
      ∷ number_or b.roles 8
      ∷ number_or b.primary_stat 0
      ∷ u32 (length b.spell_rows)
      ∷ [])
    ++ (row_fields b.spell_rows
        ++ (u32 0 ∷ u32 0 ∷ u32 0 ∷ u8 0 ∷ number_or b.flags 0 ∷ number_or b.difficulty 0 ∷ [])))

-- The category that is asked for: `none` and 0 are all of them.
unfoldable pub is_wanted : Option ℕ → Build → Bool
is_wanted none b = true
is_wanted (some want) b = want == 0 || get_default b.category 0 == want

-- `builds` are those of the file, in the order of their ids.
unfoldable pub build_records_for :
    List ClassType
    → ℕ
    → Bytes
    → Option ℕ
    → Bytes
    → Option ℕ
    → List (Bytes × Build)
    → Result (List Bytes)
build_records_for cts now icon want author clas [] = ok []
build_records_for cts now icon want author clas ((bid, b) ∷ builds) =
    let others = build_records_for cts now icon want author clas builds in
    let sent = (do
      r ← smsg_build_record cts now icon bid b (get_default want 0) author clas
      rs ← others
      ok (r ∷ rs)) in
    if length b.spell_rows == 0 then others else if is_wanted want b then sent else others

unfoldable pub smsg_build_category_result : Bytes → List Bytes → ℕ → ℕ → Result Bytes
smsg_build_category_result category records chunk chunks =
    write_fields
      (cstring category ∷ u32 chunk ∷ u32 (max 1 chunks) ∷ u32 (length records) ∷ map raw records)

unfoldable pub smsg_build_active_build_update : ℕ → Option Bytes → ℕ → ℕ → Result Bytes
smsg_build_active_build_update spec build_id flag_a flag_b =
    write_fields (word spec ∷ bstr build_id ∷ u8 flag_a ∷ u8 flag_b ∷ [])

-- `smsg_build_result`, and `smsg_build_activate_result` with no record behind the status.
unfoldable pub smsg_build_result : Option Bytes → Bytes → Result Bytes
smsg_build_result status record_bytes = write_fields (bstr status ∷ raw record_bytes ∷ [])

unfoldable pub smsg_build_activate_result : Option Bytes → Result Bytes
smsg_build_activate_result status = write_fields (bstr status ∷ [])

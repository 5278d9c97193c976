-- ===== src/Coa/CharEnum/Same.antt =====
-- Whatever the packet holds, it keeps its length, and it changes only where a change is reported.
use ascension_preservation.Common.{
  ℕ, zero, suc, ◌+◌, ◌≡◌, refl, sym, ap, ◌∙◌, Option, none, some, List, [], ◌∷◌, ◌++◌, append-nil,
  append_assoc, length, take, drop, set, get_or, length-append, length-set, take-append-drop, ltb,
  ◌==◌, if◌then◌else◌, Result, ok, err, struct_error, value_error, ◌>>=◌, arith,
}
use ascension_preservation.Common.Bytes.{Bytes, un_le}
use ascension_preservation.Common.Dict.{put}
use ascension_preservation.Common.Returns.{
  Returns, Returns-bind, Returns-if, Returns-weaken, Returns-Any, Any,
}
use ascension_preservation.Coa.CharEnum.{
  Change, changed, Enumeration, index_nul, after_name, with_class, Projected, name_of,
  project_named, project_record, project_all, or_original, rewrite_char_enum,
}

module _ {ℓ} {Name : Type ℓ} (decode : Bytes → Name) (class_for_name : Name → Option ℕ) where
  -- What is written has the length of what was read, and is that where no change is reported.
  Keeps : Bytes → Bytes → List (Change Name) → Type ℓ
  Keeps before after changes = (length after ≡ length before) × (changes ≡ [] → after ≡ before)

  with_class-Keeps :
      (name : Name) (place : ℕ) (bytes : Bytes) (want : Option ℕ)
      → Returns
          (λ r. Keeps bytes (r.0) (r.1))
          (with_class decode class_for_name name place bytes want)
  unfolding with_class Keeps
  with_class-Keeps name place bytes none = (refl, λ e. refl)
  with_class-Keeps name place bytes (some want) =
      let was = get_or bytes place 0 in
      let P : Bytes × List (Change Name) → Type ℓ = λ r. Keeps bytes (r.0) (r.1) in
      let replaced : Result (Bytes × List (Change Name)) =
        ok (set bytes place want, changed name was want ∷ []) in
      Returns-if P (was == want) (ok (bytes, []))
        (if ltb want 256 then replaced else err value_error) (λ e. (refl, λ f. refl))
        (λ e.
          Returns-if P (ltb want 256) replaced (err value_error)
            (λ f. (length-set bytes place want, λ g. cc g)) (λ f. tt))

  Splits : Bytes → Projected decode class_for_name → Type ℓ
  Splits rest p = Keeps rest (p.bytes ++ p.others) p.change

  project_named-Splits :
      (rest : Bytes) (guid z : ℕ)
      → Returns (Splits rest) (project_named decode class_for_name rest guid z)
  unfolding project_named Splits Keeps
  project_named-Splits rest guid z =
      let size = 8 + z + 1 + after_name in
      let name = name_of decode class_for_name rest z in
      let whole = take-append-drop size rest in
      Returns-bind (λ r. Keeps (take size rest) (r.0) (r.1)) (Splits rest)
        (with_class decode class_for_name name (8 + z + 1 + 1) (take size rest)
          (class_for_name name))
        (λ r. ok record {
          guid = guid;
          name = name;
          look = (get_or rest (8 + z + 1) 0, get_or rest (8 + z + 1 + 2) 0);
          bytes = r.0;
          change = r.1;
          others = drop size rest;
        })
        (with_class-Keeps name (8 + z + 1 + 1) (take size rest) (class_for_name name))
        (λ r keeps. (
          length-append (r.0) (drop size rest)
              ∙ ap (λ n. n + length (drop size rest)) (keeps.0)
              ∙ sym (length-append (take size rest) (drop size rest))
              ∙ ap length whole,
          λ e. ap (λ b. b ++ drop size rest) (keeps.1 e) ∙ whole,
        ))

  project_record-Splits :
      (rest : Bytes) → Returns (Splits rest) (project_record decode class_for_name rest)
  unfolding project_record
  project_record-Splits rest =
      let short : Result ℕ =
        if ltb (length rest) 8 then err struct_error else ok (un_le (take 8 rest)) in
      let named = project_named decode class_for_name rest in
      let long = λ (z : ℕ). ltb (length rest) (8 + z + 1 + after_name) in
      Returns-bind Any (Splits rest) short
        (λ guid. do z ← index_nul (drop 8 rest); (if long z then err value_error else named guid z))
        (Returns-Any short)
        (λ guid u.
          Returns-bind Any (Splits rest) (index_nul (drop 8 rest))
            (λ z. if long z then err value_error else named guid z)
            (Returns-Any (index_nul (drop 8 rest)))
            (λ z v.
              Returns-if (Splits rest) (long z) (err value_error) (named guid z) (λ e. tt)
                (λ e. project_named-Splits rest guid z)))

  append_empty : (cs ds : List (Change Name)) → cs ++ ds ≡ [] → (cs ≡ []) × (ds ≡ [])
  append_empty [] ds e = (refl, e)
  append_empty (c ∷ cs) ds e = cc e

  -- `done` is what came of the packet before `rest`.
  Extends : Enumeration Name → Bytes → Enumeration Name → Type ℓ
  Extends done rest whole =
      (length whole.body ≡ length done.body + length rest)
      × (whole.changes ≡ [] → (done.changes ≡ []) × (whole.body ≡ done.body ++ rest))

  project_all-Extends :
      (count : ℕ) (rest : Bytes) (done : Enumeration Name)
      → Returns (Extends done rest) (project_all decode class_for_name count rest done)
  unfolding project_all Extends Splits Keeps
  project_all-Extends zero [] done = (omega arith, λ e. (e, sym (append-nil done.body)))
  project_all-Extends zero (b ∷ rest) done = tt
  project_all-Extends (suc count) rest done =
      let next : Projected decode class_for_name → Enumeration Name = λ p. record {
        body = done.body ++ p.bytes;
        changes = done.changes ++ p.change;
        roster = put p.guid p.name done.roster;
        looks = put p.guid p.look done.looks;
      } in
      Returns-bind (Splits rest) (Extends done rest) (project_record decode class_for_name rest)
        (λ p. project_all decode class_for_name count p.others (next p))
        (project_record-Splits rest)
        (λ p splits.
          Returns-weaken (Extends (next p) p.others) (Extends done rest)
            (project_all decode class_for_name count p.others (next p))
            (project_all-Extends count p.others (next p))
            (λ whole extends. (
              omega (
                arith,
                extends.0,
                splits.0,
                length-append done.body p.bytes,
                length-append p.bytes p.others,
              ),
              λ e.
                  let below = extends.1 e in
                  let parts = append_empty done.changes p.change (below.0) in
                  (
                    parts.0,
                    below.1
                        ∙ append_assoc done.body p.bytes p.others
                        ∙ ap (λ b. done.body ++ b) (splits.1 (parts.1)),
                  ),
            )))

  or_original-Extends :
      (count : ℕ) (rest : Bytes) (r : Result (Enumeration Name))
      → Returns (Extends record { body = count ∷ []; changes = []; roster = []; looks = [] } rest) r
      → Keeps
          (count ∷ rest)
          ((or_original decode class_for_name (count ∷ rest) r).body)
          ((or_original decode class_for_name (count ∷ rest) r).changes)
  unfolding or_original Keeps Extends
  or_original-Extends count rest (err e) h = (refl, λ f. refl)
  or_original-Extends count rest (ok whole) h = (omega (arith, h.0), λ e. (h.1 e).1)

  -- Whatever the packet holds and whatever classes the names have, the packet that is passed on has the
  -- length of the one that came, and it is that very packet if no change is reported.
  pub rewrite_keeps :
      (body : Bytes)
      → (length (rewrite_char_enum decode class_for_name body).body ≡ length body)
        × ((rewrite_char_enum decode class_for_name body).changes ≡ []
            → (rewrite_char_enum decode class_for_name body).body ≡ body)
  unfolding rewrite_char_enum Keeps
  rewrite_keeps [] = (refl, λ e. refl)
  rewrite_keeps (count ∷ rest) =
      let start : Enumeration Name = record {
        body = count ∷ [];
        changes = [];
        roster = [];
        looks = [];
      } in
      or_original-Extends count rest (project_all decode class_for_name count rest start)
        (project_all-Extends count rest start)

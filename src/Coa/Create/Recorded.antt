-- ===== src/Coa/Create/Recorded.antt =====
-- Which class is recorded for a name.
use ascension_preservation.Common.{
  ℕ, ◌≡◌, refl, true, false, ◌&&◌, inl, inr, Bool-cases, none, some, List, ◌∷◌, ◌++◌, ◌==◌,
  if◌then◌else◌,
}
use ascension_preservation.Common.Bytes.{Bytes, eq_bytes}
use ascension_preservation.Coa.State.{CoaState, get_class}
use ascension_preservation.Coa.State.Kept.{class_is_set}
use ascension_preservation.Coa.Create.{
  is_one_of, Pending, stage, fix_tail, fix_char_create, commit_pending, on_char_create,
}
use ascension_preservation.Coa.Create.Carrier.{IsName, fix_char_create-name}

module _ {Record : Type 0} (lower : Bytes → Bytes) where
  -- In CoA mode, a request for a CoA class that the core cannot build, and the core's answer to it: the class is
  -- recorded for the name if the answer is success, and otherwise nothing is; no other name's class changes, nothing
  -- stays staged, and what was staged before does not matter.
  pub on_char_create-fix_char_create :
      (fallback : ℕ) (valid coa_classes : List ℕ) (decode : Bytes → Bytes)
      → (name rest more first : Bytes) (race class code b : ℕ) (p : Pending) (s : CoaState Record)
        (other : Bytes)
      → IsName name
      → decode name ≡ b ∷ first
      → is_one_of class valid ≡ false
      → is_one_of class coa_classes ≡ true
      → ((on_char_create lower (code ∷ more) (
        (fix_char_create fallback valid true coa_classes decode
            (name ++ 0 ∷ race ∷ class ∷ rest)
            p).1,
        s,
      )).0
          ≡ none)
        × (get_class lower other (
              (on_char_create lower (code ∷ more) (
                (fix_char_create fallback valid true coa_classes decode
                    (name ++ 0 ∷ race ∷ class ∷ rest)
                    p).1,
                s,
              )).1)
            ≡ (if code == 0x2F && eq_bytes (lower (b ∷ first)) (lower other)
                then some class
                else get_class lower other s))
  unfolding on_char_create fix_tail
  on_char_create-fix_char_create fallback valid coa_classes decode name rest more first race class
        code b p s other h named not_valid coa =
      let staged : (fix_char_create fallback valid true coa_classes decode
            (name ++ 0 ∷ race ∷ class ∷ rest) p).1
          ≡ some (b ∷ first, class) =
        rw
          (
            fix_char_create-name fallback valid true coa_classes decode name rest race class p h,
            not_valid,
            named,
          )
          (unfold stage in rw coa refl) in
      (
        refl,
        rw staged (
            unfold commit_pending in
            elim (Bool-cases (code == 0x2F)) [
              | inl e ↦ rw (e, (class_is_set lower (b ∷ first) other class s).0) refl
              | inr e ↦ rw (e) refl
            ]),
      )

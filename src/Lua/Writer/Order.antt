-- ===== src/Lua/Writer/Order.antt =====
-- The order of the globals in the file does not depend on the order in which they were merged.
use ascension_preservation.Common.{
  ◌≡◌, ◌≢◌, refl, sym, ap, ◌∙◌, true, false, Bool-cases, inl, inr, List, [], ◌∷◌,
}
use ascension_preservation.Lua.{Text, Value}
use ascension_preservation.Common.Texts.{text_leb, text_total, text_antisym, text_trans}
use ascension_preservation.Lua.Writer.{insert_entry, sort_entries, Python, dumps}

module _ (x y : Text × Value) (le : text_leb (x.0) (y.0) ≡ true)
    (not_ge : text_leb (y.0) (x.0) ≡ false) where
  insert_lower :
      (es : List (Text × Value))
      → insert_entry text_leb x (insert_entry text_leb y es)
        ≡ insert_entry text_leb y (insert_entry text_leb x es)
  unfolding insert_entry
  insert_lower [] = rw (le, not_ge) refl
  insert_lower (e ∷ es) = elim (Bool-cases (text_leb (y.0) (e.0))) [
    | inl ye ↦ let xe = text_trans (x.0) (y.0) (e.0) le ye in rw (ye, xe, le, not_ge, ye) refl
    | inr not_ye ↦ elim (Bool-cases (text_leb (x.0) (e.0))) [
      | inl xe ↦ rw (not_ye, xe, not_ge, not_ye) refl
      | inr not_xe ↦ rw (not_ye, not_xe, not_ye) (ap (λ rest. e ∷ rest) (insert_lower es))
    ]
  ]

-- Entries with different names go in in either order.
insert_swap :
    (x y : Text × Value) (es : List (Text × Value))
    → x.0 ≢ y.0
    → insert_entry text_leb x (insert_entry text_leb y es)
      ≡ insert_entry text_leb y (insert_entry text_leb x es)
insert_swap x y es differ = elim (Bool-cases (text_leb (x.0) (y.0))) [
  | inl le ↦ elim (Bool-cases (text_leb (y.0) (x.0))) [
    | inl ge ↦ absurd (differ (text_antisym (x.0) (y.0) le ge))
    | inr not_ge ↦ insert_lower x y le not_ge es
  ]
  | inr not_le ↦ sym (insert_lower y x (text_total (x.0) (y.0) not_le) not_le es)
]

-- The same assignments in another order: the names of a dictionary differ.
pub data Reordered : List (Text × Value) → List (Text × Value) → Type 0 where
  same : {es : List (Text × Value)} → Reordered es es
  keep :
      {e : Text × Value} {es ds : List (Text × Value)}
      → Reordered es ds
      → Reordered (e ∷ es) (e ∷ ds)
  exchange :
      {x y : Text × Value} {es : List (Text × Value)}
      → x.0 ≢ y.0
      → Reordered (x ∷ y ∷ es) (y ∷ x ∷ es)
  chain : {es ds cs : List (Text × Value)} → Reordered es ds → Reordered ds cs → Reordered es cs

sort-Reordered :
    {es ds : List (Text × Value)}
    → Reordered es ds
    → sort_entries text_leb es ≡ sort_entries text_leb ds
unfolding sort_entries
sort-Reordered same = refl
sort-Reordered (keep {e} r) = ap (insert_entry text_leb e) (sort-Reordered r)
sort-Reordered (exchange {x} {y} {es} differ) = insert_swap x y (sort_entries text_leb es) differ
sort-Reordered (chain r q) = sort-Reordered r ∙ sort-Reordered q

-- The text that `dumps` writes does not depend on the order in which globals with different names were put
-- into the dictionary.
pub dumps-Reordered :
    (py : Python) (es ds : List (Text × Value)) → Reordered es ds → dumps py es ≡ dumps py ds
unfolding dumps
dumps-Reordered py es ds r = rw (sort-Reordered r) refl

-- ===== src/Cache/Tsv/Lines.antt =====
-- Lines and words, joined and split.
use ascension_preservation.Common.{
  ℕ, ◌≡◌, refl, sym, ap, ◌∙◌, false, ◌||◌, inl, inr, Bool-cases, List, [], ◌∷◌, ◌++◌, All, ◌==◌,
  ==_iff, arith,
}
use ascension_preservation.Common.Texts.{Text}
use ascension_preservation.Cache.Tsv.{
  newline, carriage_return, has_char, onto_first, split_on, join, universal_newlines,
  without_last_empty, lines,
}

has_char-append : (c : ℕ) (s t : Text) → has_char c (s ++ t) ≡ (has_char c s || has_char c t)
unfolding has_char
has_char-append c [] t = refl
has_char-append c (d ∷ s) t = rw (has_char-append c s t) (ground arith)

split_on_word :
    (sep : ℕ) (w t : Text)
    → has_char sep w ≡ false
    → split_on sep (w ++ sep ∷ t) ≡ w ∷ split_on sep t
unfolding has_char split_on onto_first
split_on_word sep [] t h = rw ((==_iff sep sep).1 refl) refl
split_on_word sep (c ∷ w) t h = elim (Bool-cases (c == sep)) [
  | inl e ↦ cc (sym h ∙ ap (λ b. b || has_char sep w) e)
  | inr e ↦ rw (e, split_on_word sep w t (rw e at h)) refl
]

split_on_last : (sep : ℕ) (w : Text) → has_char sep w ≡ false → split_on sep w ≡ w ∷ []
unfolding has_char split_on onto_first
split_on_last sep [] h = refl
split_on_last sep (c ∷ w) h = elim (Bool-cases (c == sep)) [
  | inl e ↦ cc (sym h ∙ ap (λ b. b || has_char sep w) e)
  | inr e ↦ rw (e, split_on_last sep w (rw e at h)) refl
]

abbrev pub Free : ℕ → Text → Type 0
Free c t = has_char c t ≡ false

pub split_on-join :
    (sep : ℕ) (w : Text) (ws : List Text)
    → All (Free sep) (w ∷ ws)
    → split_on sep (join sep (w ∷ ws)) ≡ w ∷ ws
unfolding join
split_on-join sep w [] (h, hs) = split_on_last sep w h
split_on-join sep w (v ∷ ws) (h, hs) =
    split_on_word sep w (join sep (v ∷ ws)) h ∙ ap (λ vs. w ∷ vs) (split_on-join sep v ws hs)

-- The lines of a text, each with its end.
unfoldable pub unlines : List Text → Text
unlines [] = []
unlines (l ∷ ls) = l ++ newline ∷ unlines ls

universal_newlines-Free : (t : Text) → Free carriage_return t → universal_newlines t ≡ t
unfolding has_char universal_newlines
universal_newlines-Free [] h = refl
universal_newlines-Free (c ∷ t) h = elim (Bool-cases (c == carriage_return)) [
  | inl e ↦ cc (sym h ∙ ap (λ b. b || has_char carriage_return t) e)
  | inr e ↦ rw (e, universal_newlines-Free t (rw e at h)) refl
]

split_on-unlines :
    (ls : List Text) → All (Free newline) ls → split_on newline (unlines ls) ≡ ls ++ [] ∷ []
unfolding unlines split_on
split_on-unlines [] h = refl
split_on-unlines (l ∷ ls) (h, hs) =
    split_on_word newline l (unlines ls) h ∙ ap (λ ws. l ∷ ws) (split_on-unlines ls hs)

without_last : (ls : List Text) → without_last_empty (ls ++ [] ∷ []) ≡ ls
unfolding without_last_empty
without_last [] = refl
without_last (l ∷ []) = refl
without_last (l ∷ m ∷ ls) = ap (λ ws. l ∷ ws) (without_last (m ∷ ls))

pub has_char-join :
    (c sep : ℕ) (ws : List Text) → (sep == c) ≡ false → All (Free c) ws → Free c (join sep ws)
unfolding join has_char
has_char-join c sep [] e h = refl
has_char-join c sep (w ∷ []) e (h, hs) = h
has_char-join c sep (w ∷ v ∷ ws) e (h, hs) =
    has_char-append c w (sep ∷ join sep (v ∷ ws)) ∙ rw (h, e) (has_char-join c sep (v ∷ ws) e hs)

has_char-unlines :
    (c : ℕ) (ls : List Text) → (newline == c) ≡ false → All (Free c) ls → Free c (unlines ls)
unfolding unlines has_char
has_char-unlines c [] e h = refl
has_char-unlines c (l ∷ ls) e (h, hs) =
    has_char-append c l (newline ∷ unlines ls) ∙ rw (h, e) (has_char-unlines c ls e hs)

-- The lines of a text whose lines have no line ends.
pub lines-unlines :
    (ls : List Text)
    → All (Free newline) ls
    → All (Free carriage_return) ls
    → lines (unlines ls) ≡ ls
unfolding lines
lines-unlines ls n r =
    ap (λ t. without_last_empty (split_on newline t))
      (universal_newlines-Free (unlines ls) (has_char-unlines carriage_return ls refl r))
    ∙ ap without_last_empty (split_on-unlines ls n)
    ∙ without_last ls

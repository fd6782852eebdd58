-- ===== src/SourceAnchors/Found.antt =====
-- What a found quote of SourceAnchors.antt means.
use legalise.Base.Text.{Text}
use legalise.Base.{
  List, ℕ, ◌≡◌, ◌≢◌, ◌↔◌, inl, inr, refl, sym, ap, ◌∙◌, Bool, true, false, [], ◌∷◌, ◌++◌, ◌==◌,
  ==_iff, ==_refl, if◌then◌else◌, Bool-cases, true-false, arith,
}
use legalise.SourceAnchors.Split.{IsSplit, split_words-IsSplit, join_words-filled}
use legalise.SourceAnchors.{
  join_words, is_prefix, occurs_in, is_blank, normalize_for_match, quote_found_in_source,
}

abbrev pub Stands : Text → Text → Type 0
Stands q text = (front : Text) × (back : Text) × (text ≡ front ++ (q ++ back))

prefix_of : (q text : Text) → is_prefix q text ≡ true → (back : Text) × (text ≡ q ++ back)
prefix_of [] text h = (text, refl)
prefix_of (c ∷ q) [] h = cc
prefix_of (c ∷ q) (d ∷ text) h = elim (Bool-cases (c == d)) [
  | inl same ↦
      let (back, split) = prefix_of q text (rw (same) at h) in
      (back, ap (λ x. x ∷ text) (sym ((==_iff c d).0 same)) ∙ ap (λ t. c ∷ t) split)
  | inr other ↦ absurd (true-false (sym (rw (other) at h)))
]

is_prefix-append : (q back : Text) → is_prefix q (q ++ back) ≡ true
is_prefix-append [] back = refl
is_prefix-append (c ∷ q) back = rw (==_refl c) (is_prefix-append q back)

occurs_in-Stands : (q text : Text) → occurs_in q text ≡ true → Stands q text
unfolding occurs_in
occurs_in-Stands q [] h = let (back, split) = prefix_of q [] h in ([], back, split)
occurs_in-Stands q (d ∷ text) h = elim (Bool-cases (is_prefix q (d ∷ text))) [
  | inl here ↦ let (back, split) = prefix_of q (d ∷ text) here in ([], back, split)
  | inr later ↦
      let (front, back, split) = occurs_in-Stands q text (rw (later) at h) in
      (d ∷ front, back, ap (λ t. d ∷ t) split)
]

occurs_in-append : (q front back : Text) → occurs_in q (front ++ (q ++ back)) ≡ true
unfolding occurs_in
occurs_in-append [] [] [] = refl
occurs_in-append [] [] (d ∷ back) = refl
occurs_in-append (c ∷ q) [] back = rw (==_refl c, is_prefix-append q back)
occurs_in-append q (d ∷ front) back = ground (arith, occurs_in-append q front back)

nonempty_of : (q : Text) → is_blank q ≡ false → q ≢ []
nonempty_of q h e = true-false (sym (ap is_blank e) ∙ h)

blank_of : (q : Text) → q ≢ [] → is_blank q ≡ false
blank_of [] n = absurd (n refl)
blank_of (c ∷ q) n = refl

module _ (is_space : ℕ → Bool) (lower : Text → Text) where
  split_found :
      (q text : Text)
      → (if is_blank q then false else occurs_in q text) ≡ true
      → (q ≢ []) × Stands q text
  split_found q text h = elim (Bool-cases (is_blank q)) [
    | inl blank ↦ absurd (true-false (sym (rw (blank) at h)))
    | inr filled ↦ (nonempty_of q filled, occurs_in-Stands q text (rw (filled) at h))
  ]

  found_split :
      (q text : Text)
      → (q ≢ []) × Stands q text
      → (if is_blank q then false else occurs_in q text) ≡ true
  found_split q text (filled, (front, back, split)) =
      rw (blank_of q filled, split) (occurs_in-append q front back)

-- The words with one space between any two.
abbrev later : List Text → Text
later [] = []
later (w ∷ ws) = 32 ∷ (w ++ later ws)

abbrev pub spaced : List Text → Text
spaced [] = []
spaced (w ∷ ws) = w ++ later ws

append_nil : (t : Text) → t ++ [] ≡ t
append_nil [] = refl
append_nil (c ∷ t) = ap (λ u. c ∷ u) (append_nil t)

join_words-spaced : (ws : List Text) → join_words ws ≡ spaced ws
unfolding join_words
join_words-spaced [] = refl
join_words-spaced (w ∷ []) = sym (append_nil w)
join_words-spaced (w ∷ v ∷ ws) = ap (λ t. w ++ 32 ∷ t) (join_words-spaced (v ∷ ws))

module _ (is_space : ℕ → Bool) (lower : Text → Text) where
  normalize_for_match-IsSplit :
      (t : Text) (ws : List Text)
      → IsSplit is_space (lower t) ws
      → normalize_for_match is_space lower t ≡ spaced ws
  unfolding normalize_for_match
  normalize_for_match-IsSplit t ws split =
      ap join_words (split_words-IsSplit is_space split) ∙ join_words-spaced ws

  -- Let the words of a text be its longest runs without white space. Then a quote is found exactly
  -- when, in lower case, it has a word and its words with single spaces between them stand somewhere
  -- in the words of the source written the same way. So the kind and
  -- the length of white space make no difference.
  pub quote_found_in_source-Stands :
      (quote body_text : Text) (q b : List Text)
      → IsSplit is_space (lower quote) q
      → IsSplit is_space (lower body_text) b
      → (quote_found_in_source is_space lower quote body_text ≡ true)
        ↔ ((q ≢ []) × Stands (spaced q) (spaced b))
  unfolding quote_found_in_source
  quote_found_in_source-Stands quote body_text q b quote_words body_words =
      let its = normalize_for_match-IsSplit quote q quote_words in
      let bodys = normalize_for_match-IsSplit body_text b body_words in
      rw (its, bodys)
        (
          (λ h.
              let (filled, stands) = split_found is_space lower (spaced q) (spaced b) h in
              ((λ e. filled (ap spaced e)), stands)),
          (λ h.
              found_split is_space lower (spaced q) (spaced b)
                ((λ e. join_words-filled is_space quote_words h.0 (join_words-spaced q ∙ e)), h.1)),
        )

-- ===== src/SourceAnchors/Split.antt =====
-- What the white space split of SourceAnchors.antt does to a text, as the documentation of `str.split`
-- has it.
use legalise.Base.Text.{Text}
use legalise.Base.{
  ℕ, ◌≡◌, ◌≢◌, refl, ap, ◌∙◌, Bool, true, false, List, [], ◌∷◌, ◌++◌, if◌then◌else◌, All,
}
use legalise.SourceAnchors.{split_words, join_words, join_head, goes_on}

module _ (is_space : ℕ → Bool) where
  abbrev pub Blank : Text → Type 0
  Blank t = All (λ c. is_space c ≡ true) t

  abbrev pub Solid : Text → Type 0
  Solid t = All (λ c. is_space c ≡ false) t

  -- The text is over, or white space comes next.
  abbrev pub Ends : Text → Type 0
  Ends [] = Unit
  Ends (c ∷ t) = is_space c ≡ true

  -- The words of a text: the longest runs without white space, in order.
  pub data IsSplit : Text → List Text → Type 0 where
    over : {gap : Text} → Blank gap → IsSplit gap []
    word :
        (gap rest : Text) (c : ℕ) (w : Text) {words : List Text}
        → Blank gap
        → Solid (c ∷ w)
        → Ends rest
        → IsSplit rest words
        → IsSplit (gap ++ ((c ∷ w) ++ rest)) ((c ∷ w) ∷ words)

  split_words-gap :
      (gap t : Text) → Blank gap → split_words is_space (gap ++ t) ≡ split_words is_space t
  unfolding split_words
  split_words-gap [] t h = refl
  split_words-gap (c ∷ gap) t h = rw (h.0) (split_words-gap gap t h.1)

  goes_on-Ends : (rest : Text) → Ends rest → goes_on is_space rest ≡ false
  goes_on-Ends [] h = refl
  goes_on-Ends (c ∷ rest) h = rw (h) refl

  split_words-cons :
      (c : ℕ) (t : Text)
      → split_words is_space (c ∷ t) ≡ (
          if is_space c
          then split_words is_space t
          else join_head (goes_on is_space t) c (split_words is_space t))
  unfolding split_words
  split_words-cons c t = refl

  split_words-word :
      (c : ℕ) (w rest : Text)
      → Solid (c ∷ w)
      → Ends rest
      → split_words is_space (c ∷ (w ++ rest)) ≡ (c ∷ w) ∷ split_words is_space rest
  split_words-word c [] rest h e = split_words-cons c rest ∙ rw (h.0, goes_on-Ends rest e) refl
  split_words-word c (d ∷ w) rest h e =
      split_words-cons c (d ∷ (w ++ rest)) ∙ rw (h.0, h.1.0, split_words-word d w rest h.1 e) refl

  split_words-Blank : (gap : Text) → Blank gap → split_words is_space gap ≡ []
  unfolding split_words
  split_words-Blank [] h = refl
  split_words-Blank (c ∷ gap) h = rw (h.0) (split_words-Blank gap h.1)

  -- Whatever words a text has, the split finds them.
  pub split_words-IsSplit :
      {t : Text} {words : List Text} → IsSplit t words → split_words is_space t ≡ words
  split_words-IsSplit (over {gap = gap} blank) = split_words-Blank gap blank
  split_words-IsSplit (word gap rest c w blank solid ends more) =
      split_words-gap gap ((c ∷ w) ++ rest) blank
      ∙ split_words-word c w rest solid ends
      ∙ ap (λ ws. (c ∷ w) ∷ ws) (split_words-IsSplit more)

  -- Words that a text has, joined, are empty only if there are none.
  pub join_words-filled :
      {t : Text} {words : List Text} → IsSplit t words → words ≢ [] → join_words words ≢ []
  unfolding join_words
  join_words-filled (over blank) n e = n refl
  join_words-filled (word gap rest c w {words = []} blank solid ends more) n e = cc
  join_words-filled (word gap rest c w {words = v ∷ vs} blank solid ends more) n e = cc

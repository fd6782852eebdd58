-- ===== src/Supervision/Visible.antt =====
-- When a note or a reasoning of Supervision/Review.antt is more than white space.
use legalise.Base.Text.{Text}
use legalise.Base.{
  ℕ, ◌≡◌, refl, ap, ◌∙◌, Bool, true, false, not, ◌&&◌, ◌||◌, [], ◌∷◌, Option, none, some, arith,
}
use legalise.Supervision.Review.{keep_front, lstrip, rstrip, clean, is_empty}

module _ (strips : ℕ → Bool) where
  abbrev pub has_visible : Text → Bool
  has_visible [] = false
  has_visible (c ∷ text) = not (strips c) || has_visible text

  -- Some character of the text, if there is one, is not stripped.
  abbrev pub shows : Option Text → Bool
  shows none = false
  shows (some text) = has_visible text

  has_visible-lstrip : (text : Text) → has_visible (lstrip strips text) ≡ has_visible text
  unfolding lstrip
  has_visible-lstrip [] = refl
  has_visible-lstrip (c ∷ text) = ground (arith, has_visible-lstrip text)

  is_empty-keep_front :
      (c : ℕ) (text : Text) (b : Bool) → is_empty (keep_front c text b) ≡ (is_empty text && b)
  is_empty-keep_front c [] true = refl
  is_empty-keep_front c [] false = refl
  is_empty-keep_front c (d ∷ text) b = refl

  is_empty-rstrip : (text : Text) → is_empty (rstrip strips text) ≡ not (has_visible text)
  unfolding rstrip
  is_empty-rstrip [] = refl
  is_empty-rstrip (c ∷ text) =
      rw (is_empty-keep_front c (rstrip strips text) (strips c), is_empty-rstrip text)
        (ground arith)

  pub is_empty-clean : (text : Option Text) → is_empty (clean strips text) ≡ not (shows text)
  unfolding clean
  is_empty-clean none = refl
  is_empty-clean (some text) =
      is_empty-rstrip (lstrip strips text) ∙ ap not (has_visible-lstrip text)

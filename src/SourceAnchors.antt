-- ===== src/SourceAnchors.antt =====
-- backend/app/core/source_anchors.py: what an output cites, and the check that a quoted text stands
-- in the document. Texts are lists of code points; `str.lower`, the white space of `str.split` and
-- SHA-256 of a text are parameters.
mod Split
mod Found
mod Tests
use legalise.Base.Text.{Text, codes, text_eq}
use legalise.Base.{
  ℕ, Bool, true, false, not, ◌&&◌, ◌||◌, List, [], ◌∷◌, ◌++◌, Option, none, some, ◌==◌,
  if◌then◌else◌,
}

-- `require_supported_source_type`; `false` is an UnsupportedSourceType.
unfoldable pub require_supported_source_type : Text → Bool
require_supported_source_type source_type = text_eq source_type (codes "document")

abbrev pub join_head : Bool → ℕ → List Text → List Text
join_head true c (word ∷ words) = (c ∷ word) ∷ words
join_head _ c words = (c ∷ []) ∷ words

-- `q in text`
abbrev pub is_prefix : Text → Text → Bool
is_prefix [] text = true
is_prefix (c ∷ q) [] = false
is_prefix (c ∷ q) (d ∷ text) = c == d && is_prefix q text

unfoldable pub occurs_in : Text → Text → Bool
occurs_in q [] = is_prefix q []
occurs_in q (d ∷ text) = is_prefix q (d ∷ text) || occurs_in q text

abbrev pub is_blank : Text → Bool
is_blank [] = true
is_blank (_ ∷ _) = false

-- `" ".join(words)`
unfoldable pub join_words : List Text → Text
join_words [] = []
join_words (word ∷ []) = word
join_words (word ∷ next ∷ words) = word ++ 32 ∷ join_words (next ∷ words)

module _ (is_space : ℕ → Bool) where
  abbrev pub goes_on : Text → Bool
  goes_on [] = false
  goes_on (c ∷ _) = not (is_space c)

  -- `text.split()`
  unfoldable pub split_words : Text → List Text
  split_words [] = []
  split_words (c ∷ text) =
      let words = split_words text in if is_space c then words else join_head (goes_on text) c words

  module _ (lower : Text → Text) where
    unfoldable pub normalize_for_match : Text → Text
    unfolding split_words join_words
    normalize_for_match text = join_words (split_words (lower text))

    unfoldable pub quote_found_in_source : Text → Text → Bool
    unfolding normalize_for_match occurs_in
    quote_found_in_source quote body_text =
        let q = normalize_for_match quote in
        if is_blank q then false else occurs_in q (normalize_for_match body_text)

-- The document as the server has loaded it.
pub record Document : Type 0 where
  pub id : Text
  pub filename : Text
  pub sha256 : Option Text
  pub body_text : Text

pub record Anchor : Type 0 where
  pub id : Text
  pub source_type : Text
  pub document_id : Text
  pub filename : Text
  pub sha256 : Option Text
  pub body_sha256 : Text
  pub label : Text
  pub quote : Option Text
  -- `none` where the key is absent
  pub quote_found : Option Bool

-- `f"Document · {filename}"`
abbrev pub document_label : Text → Text
document_label filename = codes "Document · " ++ filename

module _ (hash : Text → Text) (is_space : ℕ → Bool) (lower : Text → Text) where
  abbrev found_if_quoted : Text → Option Text → Option Bool
  found_if_quoted body_text none = none
  found_if_quoted body_text (some quote) =
      some (quote_found_in_source is_space lower quote body_text)

  unfoldable pub build_document_anchor : Text → Document → Option Text → Anchor
  unfolding quote_found_in_source
  build_document_anchor anchor_id d quote = record {
    id = anchor_id;
    source_type = codes "document";
    document_id = d.id;
    filename = d.filename;
    sha256 = d.sha256;
    body_sha256 = hash d.body_text;
    label = document_label d.filename;
    quote = quote;
    quote_found = found_if_quoted d.body_text quote;
  }

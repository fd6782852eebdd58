-- ===== src/SourceAnchors/Tests.antt =====
-- A quote that a line break and a second space run through.
use legalise.Base.Text.{Text, codes}
use legalise.Base.{◌++◌}
use legalise.Base.{ℕ, ◌≡◌, ◌≢◌, ◌↔◌, refl, Bool, true, false, ◌||◌, [], ◌∷◌, none, some, ◌==◌}
use legalise.SourceAnchors.Split.{IsSplit, over, word}
use legalise.SourceAnchors.{
  Document, require_supported_source_type, normalize_for_match, quote_found_in_source,
  build_document_anchor,
}
use legalise.SourceAnchors.Found.{Stands, spaced, quote_found_in_source-Stands}

abbrev white : ℕ → Bool
white c = c == 32 || c == 10

abbrev as_it_is : Text → Text
as_it_is t = t

abbrev lease : Document
lease = record {
  id = codes "d1";
  filename = codes "lease.pdf";
  sha256 = none;
  body_text = 10 ∷ codes "the  rent is due";
}

reflowed :
    (build_document_anchor as_it_is white as_it_is
      (codes "a1")
      lease
      (some (codes " rent  is"))).quote_found
    ≡ some true
unfolding build_document_anchor quote_found_in_source
reflowed = refl

nothing_quoted : quote_found_in_source white as_it_is (codes "  ") lease.body_text ≡ false
unfolding quote_found_in_source normalize_for_match
nothing_quoted = refl

statutes_unsupported : require_supported_source_type (codes "statute") ≡ false
unfolding require_supported_source_type
statutes_unsupported = refl

-- The words of a quote with a line break between them, and those of a source.
quote_words : IsSplit white (codes "rent" ++ 10 ∷ codes "is") (codes "rent" ∷ codes "is" ∷ [])
quote_words =
    word [] (10 ∷ codes "is") 114 (codes "ent") tt (refl, (refl, (refl, (refl, tt)))) refl
      (word (10 ∷ []) [] 105 (codes "s") (refl, tt) (refl, (refl, tt)) tt (over tt))

source_words : IsSplit white (codes "rent  is due") (codes "rent" ∷ codes "is" ∷ codes "due" ∷ [])
source_words =
    word [] (codes "  is due") 114 (codes "ent") tt (refl, (refl, (refl, (refl, tt)))) refl
      (word (codes "  ") (codes " due") 105 (codes "s") (refl, (refl, tt)) (refl, (refl, tt)) refl
        (word (codes " ") [] 100 (codes "ue") (refl, tt) (refl, (refl, (refl, tt))) tt (over tt)))

quote_found_in_source-Stands_example :
    (quote_found_in_source white as_it_is (codes "rent" ++ 10 ∷ codes "is") (codes "rent  is due")
      ≡ true)
    ↔ ((codes "rent" ∷ codes "is" ∷ [] ≢ [])
        × Stands
            (spaced (codes "rent" ∷ codes "is" ∷ []))
            (spaced (codes "rent" ∷ codes "is" ∷ codes "due" ∷ [])))
quote_found_in_source-Stands_example =
    quote_found_in_source-Stands white as_it_is (codes "rent" ++ 10 ∷ codes "is")
      (codes "rent  is due") (codes "rent" ∷ codes "is" ∷ [])
      (codes "rent" ∷ codes "is" ∷ codes "due" ∷ []) quote_words source_words

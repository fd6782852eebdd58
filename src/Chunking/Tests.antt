-- ===== src/Chunking/Tests.antt =====
-- Chunks of a short text.
use legalise.Base.{ℕ, ◌≡◌, refl, Bool, ◌||◌, List, [], ◌∷◌, map, none, some, ◌==◌}
use legalise.Base.Text.{Text, codes, pos}
use legalise.Chunking.{
  ChunkResult, value_error, chunks, chunk_text, chunk_loop, best_break, rfind, last_sentence_end,
  sentence_end,
}
use legalise.Chunking.Tiles.{Result, chunk_text-Tiles}

abbrev space : ℕ → Bool
space c = c == 32 || c == 10

abbrev sample : Text
sample = codes "One two. Three four."

abbrev ranges : ChunkResult → List (ℕ × ℕ)
ranges value_error = []
ranges (chunks none) = []
ranges (chunks (some cs)) = map (λ c. (c.char_start, c.char_end)) cs

-- The first chunk ends after the sentence and its space.
breaks_at_sentence :
    ranges (chunk_text space space sample (pos 12) (pos 2)) ≡ (0, 9) ∷ (7, 19) ∷ (17, 20) ∷ []
unfolding chunk_text best_break chunk_loop rfind last_sentence_end sentence_end
breaks_at_sentence = refl

zero_target : chunk_text space space sample (pos 0) (pos 2) ≡ value_error
unfolding chunk_text
zero_target = refl

chunk_text-Tiles_example :
    Result space sample (pos 12) (pos 2) (chunk_text space space sample (pos 12) (pos 2))
chunk_text-Tiles_example = chunk_text-Tiles space space sample (pos 12) (pos 2)

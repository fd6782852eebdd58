-- ===== src/Chunking.antt =====
-- Splitting a document's text into overlapping chunks (backend/app/core/chunking.py). The tests for
-- white space, of `str.strip` and of `\s`, are parameters.
pub mod Bounds
pub mod Tiles
mod Tests
use legalise.Base.{
  ℕ, zero, suc, ◌+◌, ◌-◌, ◌/◌, Bool, true, false, ◌&&◌, ◌||◌, List, [], ◌∷◌, Option, none, some,
  ltb, leb, ◌==◌, if◌then◌else◌, length, take, drop,
}
use legalise.Base.Text.{Text, codes, ℤ, pos, negsuc}

pub record Chunk : Type 0 where
  pub index : ℕ
  pub text : Text
  pub char_start : ℕ
  pub char_end : ℕ

abbrev pub starts_with : Text → Text → Bool
starts_with [] text = true
starts_with (c ∷ sub) [] = false
starts_with (c ∷ sub) (d ∷ text) = c == d && starts_with sub text

-- The last place at `lo + k` or before it, from `lo` on, where `sub` stands.
abbrev pub rfind_down : Text → Text → ℕ → ℕ → Option ℕ
rfind_down text sub lo zero = if starts_with sub (drop lo text) then some lo else none
rfind_down text sub lo (suc k) =
    let before = rfind_down text sub lo k in
    if starts_with sub (drop (lo + suc k) text) then some (lo + suc k) else before

-- `text.rfind(sub, lo, hi)`
unfoldable pub rfind : Text → Text → ℕ → ℕ → Option ℕ
rfind text sub lo hi =
    if ltb hi (lo + length sub) then none else rfind_down text sub lo (hi - lo - length sub)

-- `[.!?]` and `["')\]]`
abbrev pub is_terminator : ℕ → Bool
is_terminator c = c == 46 || c == 33 || c == 63

abbrev pub is_closing : ℕ → Bool
is_closing c = c == 34 || c == 39 || c == 41 || c == 93

module _ (is_space : ℕ → Bool) where
  abbrev pub starts_with_space : Text → Bool
  starts_with_space [] = false
  starts_with_space (c ∷ text) = is_space c

  abbrev pub closed_by : Text → Bool
  closed_by [] = false
  closed_by (d ∷ text) = is_closing d && starts_with_space text

  -- The length of a match of `_SENTENCE_END` at the head of the text.
  unfoldable pub sentence_end : Text → Option ℕ
  sentence_end [] = none
  sentence_end (c ∷ text) =
      if is_terminator c
      then if closed_by text then some 2 else if starts_with_space text then some 1 else none
      else none

  -- The end of the last match that `finditer` yields, for a text that stands at `at`. The first
  -- `skip` characters belong to the match before.
  unfoldable pub last_sentence_end : ℕ → ℕ → Text → Option ℕ
  unfolding sentence_end
  last_sentence_end skip place [] = none
  last_sentence_end (suc skip) place (c ∷ text) = last_sentence_end skip (suc place) text
  last_sentence_end zero place (c ∷ text) = elim (sentence_end (c ∷ text)) [
    | none ↦ last_sentence_end zero (suc place) text
    | some size ↦ elim (last_sentence_end (size - 1) (suc place) text) [
      | none ↦ some (place + size)
      | some later ↦ some later
    ]
  ]

  unfoldable pub best_break : Text → ℕ → ℕ → ℕ
  unfolding rfind last_sentence_end
  best_break text min_break hard_end =
      if leb hard_end min_break
      then hard_end
      else elim (rfind text (codes "\n\n") min_break hard_end) [
        | some i ↦ i + 2
        | none ↦ elim (rfind text (codes "\n") min_break hard_end) [
          | some i ↦ i + 1
          | none ↦
              elim (last_sentence_end 0 0 (take (hard_end - min_break) (drop min_break text))) [
                | some end ↦ min_break + end + 1
                | none ↦ hard_end
              ]
        ]
      ]

  -- The end of the chunk at `place`.
  unfoldable pub chunk_end : Text → ℕ → ℕ → ℕ
  unfolding best_break
  chunk_end text target place =
      let n = length text in
      if leb n (place + target) then n else best_break text (place + target / 2) (place + target)

  unfoldable pub next_place : ℕ → ℕ → ℕ → ℕ
  next_place overlap place end = if leb (end - overlap) place then place + 1 else end - overlap

  -- The `while` loop, in at most `fuel` rounds; `none` is a loop that is not over by then.
  unfoldable pub chunk_loop : ℕ → Text → ℕ → ℕ → ℕ → ℕ → Option (List Chunk)
  unfolding chunk_end next_place
  chunk_loop zero text target overlap place index = none
  chunk_loop (suc fuel) text target overlap place index =
      let end = chunk_end text target place in
      let rest = chunk_loop fuel text target overlap (next_place overlap place end) (suc index) in
      let chunk : Chunk = record {
        index = index;
        text = take (end - place) (drop place text);
        char_start = place;
        char_end = end;
      } in
      if ltb place (length text)
      then if leb (length text) end
        then some (chunk ∷ [])
        else elim rest [ none ↦ none | some chunks ↦ some (chunk ∷ chunks) ]
      else some []

-- Whether `text.strip()` is empty.
abbrev pub is_blank : (ℕ → Bool) → Text → Bool
is_blank strips [] = true
is_blank strips (c ∷ text) = strips c && is_blank strips text

pub data ChunkResult : Type 0 where
  value_error : ChunkResult
  chunks : Option (List Chunk) → ChunkResult

-- `max(0, min(overlap_chars, target_chars - 1))`
abbrev pub clamp : ℤ → ℕ → ℕ
clamp (negsuc o) target = 0
clamp (pos o) target = if ltb o target then o else target - 1

unfoldable pub chunk_text : (ℕ → Bool) → (ℕ → Bool) → Text → ℤ → ℤ → ChunkResult
unfolding chunk_loop
chunk_text strips is_space text (negsuc t) overlap_chars = value_error
chunk_text strips is_space text (pos zero) overlap_chars = value_error
chunk_text strips is_space text (pos (suc t)) overlap_chars =
    if is_blank strips text
    then chunks (some [])
    else if leb (length text) (suc t)
    then chunks
        (some (record { index = 0; text = text; char_start = 0; char_end = length text } ∷ []))
    else chunks (chunk_loop is_space (length text) text (suc t) (clamp overlap_chars (suc t)) 0 0)

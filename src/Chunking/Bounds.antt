-- ===== src/Chunking/Bounds.antt =====
-- Where a chunk can end, and where the next one can start.
use legalise.Base.{
  ℕ, zero, suc, ◌+◌, ◌-◌, ◌/◌, ◌≤◌, ◌<◌, ◌≡◌, inl, inr, Bool, [], ◌∷◌, some, leb, length, take,
  drop, length-take, arith, Bool-cases, Option-cases, eq_of_some_eq,
}
use legalise.Base.Text.{Text, codes}
use legalise.Chunking.{
  rfind_down, rfind, sentence_end, last_sentence_end, best_break, chunk_end, next_place,
}

rfind_down-bounds :
    (text sub : Text) (lo k i : ℕ) → rfind_down text sub lo k ≡ some i → (lo ≤ i) × (i ≤ lo + k)
rfind_down-bounds text sub lo zero i h = ground arith
rfind_down-bounds text sub lo (suc k) i h = ground (arith, rfind_down-bounds text sub lo k i)

rfind-bounds :
    (text sub : Text) (lo hi i : ℕ)
    → rfind text sub lo hi ≡ some i
    → (lo ≤ i) × (i + length sub ≤ hi)
unfolding rfind
rfind-bounds text sub lo hi i h =
    ground (arith, rfind_down-bounds text sub lo (hi - lo - length sub) i)

module _ (is_space : ℕ → Bool) where
  -- A match is followed by white space, so it ends before the text does.
  sentence_end-bounds :
      (text : Text) (size : ℕ)
      → sentence_end is_space text ≡ some size
      → (1 ≤ size) × (size < length text)
  unfolding sentence_end
  sentence_end-bounds [] size h = cc
  sentence_end-bounds (c ∷ []) size h = ground arith
  sentence_end-bounds (c ∷ d ∷ []) size h = ground arith
  sentence_end-bounds (c ∷ d ∷ e ∷ text) size h = ground arith

  last_sentence_end-bounds :
      (skip place : ℕ) (text : Text) (end : ℕ)
      → last_sentence_end is_space skip place text ≡ some end
      → (place < end) × (end < place + length text)
  unfolding last_sentence_end
  last_sentence_end-bounds skip place [] end h = cc
  last_sentence_end-bounds (suc skip) place (c ∷ text) end h =
      omega (arith, last_sentence_end-bounds skip (suc place) text end h)
  last_sentence_end-bounds zero place (c ∷ text) end h =
      elim (Option-cases (sentence_end is_space (c ∷ text))) [
        | inl no_match ↦
            let deeper : last_sentence_end is_space zero (suc place) text ≡ some end =
              rw (no_match, last_sentence_end) at h in
            omega (arith, last_sentence_end-bounds zero (suc place) text end deeper)
        | inr (size, match) ↦
            let sized = sentence_end-bounds (c ∷ text) size match in
            elim (Option-cases (last_sentence_end is_space (size - 1) (suc place) text)) [
              | inl last ↦
                  let here = eq_of_some_eq (rw (match, last, last_sentence_end) at h) in
                  omega (arith, here, sized)
              | inr (later, found) ↦
                  let here = eq_of_some_eq (rw (match, found, last_sentence_end) at h) in
                  omega
                    (arith, here, last_sentence_end-bounds (size - 1) (suc place) text later found)
            ]
      ]

  best_break-bounds :
      (text : Text) (min_break hard_end : ℕ)
      → min_break < hard_end
      → hard_end ≤ length text
      → (min_break < best_break is_space text min_break hard_end)
        × (best_break is_space text min_break hard_end ≤ hard_end)
  unfolding best_break
  best_break-bounds text min_break hard_end h k =
      elim (Option-cases (rfind text (codes "\n\n") min_break hard_end)) [
        | inr (i, found) ↦
            ground (arith, found, rfind-bounds text (codes "\n\n") min_break hard_end i found)
        | inl none_found ↦ elim (Option-cases (rfind text (codes "\n") min_break hard_end)) [
          | inr (i, found) ↦
              ground (
                arith,
                none_found,
                found,
                rfind-bounds text (codes "\n") min_break hard_end i found,
              )
          | inl none_line ↦
              let window = take (hard_end - min_break) (drop min_break text) in
              let wide : length window ≤ hard_end - min_break =
                omega (arith, length-take (hard_end - min_break) (drop min_break text)) in
              elim (Option-cases (last_sentence_end is_space 0 0 window)) [
                | inl no_sentence ↦ ground (arith, none_found, none_line, no_sentence)
                | inr (end, ended) ↦ ground (
                  arith,
                  none_found,
                  none_line,
                  ended,
                  wide,
                  last_sentence_end-bounds 0 0 window end ended,
                )
              ]
        ]
      ]

  -- A chunk's end lies after its start, within the text and within the target size.
  pub chunk_end-bounds :
      (text : Text) (target place : ℕ)
      → 1 ≤ target
      → place < length text
      → (place < chunk_end is_space text target place)
        × (chunk_end is_space text target place ≤ length text)
        × (chunk_end is_space text target place ≤ place + target)
  unfolding chunk_end
  chunk_end-bounds text target place h k = elim (Bool-cases (leb (length text) (place + target))) [
    | inl short ↦ rw short (k, omega arith, ground (arith, short))
    | inr long ↦
        let room : place + target < length text = ground (arith, long) in
        rw long (
          omega (
            arith,
            room,
            best_break-bounds text (place + target / 2) (place + target) (omega arith)
                (omega (arith, room)),
          ))
  ]

  pub next_place-bounds :
      (overlap place end : ℕ)
      → place < end
      → (place < next_place is_space overlap place end)
        × (next_place is_space overlap place end ≤ end)
        × (end ≤ next_place is_space overlap place end + overlap)
  unfolding next_place
  next_place-bounds overlap place end h = ground arith

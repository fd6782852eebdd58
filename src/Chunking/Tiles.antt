-- ===== src/Chunking/Tiles.antt =====
-- The chunks tile the text.
use legalise.Base.{
  ℕ, zero, suc, ◌+◌, ◌-◌, ◌≤◌, ◌<◌, ◌≡◌, refl, sym, subst, inl, inr, Bool, true, false, List, [],
  ◌∷◌, Option, none, some, ltb, leb, length, take, drop, arith, Bool-cases,
}
use legalise.Base.Text.{Text, ℤ, pos, negsuc}
use legalise.Chunking.{
  Chunk, chunk_end, next_place, chunk_loop, is_blank, ChunkResult, value_error, chunks, clamp,
  chunk_text,
}
use legalise.Chunking.Bounds.{chunk_end-bounds, next_place-bounds}

-- A chunk is the slice between its places, at most `target` long.
abbrev pub Piece : Text → ℕ → ℕ → ℕ → Chunk → Type 0
Piece text target index place c =
    (c.index ≡ index)
    × (c.char_start ≡ place)
    × (place < c.char_end)
    × (c.char_end ≤ length text)
    × (c.char_end ≤ place + target)
    × (c.text ≡ take (c.char_end - place) (drop place text))

-- The chunks from an index and a place on: each starts after the one before and not after its end,
-- with at most `overlap` characters shared, and the last one ends with the text.
abbrev pub Tiles : Text → ℕ → ℕ → ℕ → ℕ → List Chunk → Type 0
Tiles text target overlap index place [] = ⊥
Tiles text target overlap index place (c ∷ []) =
    Piece text target index place c × (c.char_end ≡ length text)
Tiles text target overlap index place (c ∷ d ∷ cs) =
    Piece text target index place c
    × ((place < d.char_start) × (d.char_start ≤ c.char_end) × (c.char_end ≤ d.char_start + overlap))
    × Tiles text target overlap (suc index) d.char_start (d ∷ cs)

-- A chunk in front of those that start at the next place.
lay :
    (text : Text) (target overlap index place next : ℕ) (c : Chunk) (cs : List Chunk)
    → Piece text target index place c
    → place < next
    → next ≤ c.char_end
    → c.char_end ≤ next + overlap
    → Tiles text target overlap (suc index) next cs
    → Tiles text target overlap index place (c ∷ cs)
lay text target overlap index place next c [] piece before inside shared tiles = elim tiles [ ]
lay text target overlap index place next c (d ∷ []) piece before inside shared tiles =
    let starts = tiles.0.1 in
    (
      piece,
      (omega (arith, starts), omega (arith, starts), omega (arith, starts)),
      subst (λ p. Tiles text target overlap (suc index) p (d ∷ [])) (sym starts) tiles,
    )
lay text target overlap index place next c (d ∷ e ∷ es) piece before inside shared tiles =
    let starts = tiles.0.1 in
    (
      piece,
      (omega (arith, starts), omega (arith, starts), omega (arith, starts)),
      subst (λ p. Tiles text target overlap (suc index) p (d ∷ e ∷ es)) (sym starts) tiles,
    )

abbrev Tiled : Text → ℕ → ℕ → ℕ → ℕ → Option (List Chunk) → Type 0
Tiled text target overlap index place none = ⊥
Tiled text target overlap index place (some cs) = Tiles text target overlap index place cs

module _ (is_space : ℕ → Bool) (text : Text) (target overlap : ℕ) (positive : 1 ≤ target) where
  extended :
      (index place : ℕ) (c : Chunk) (next : ℕ) (rest : Option (List Chunk))
      → Piece text target index place c
      → place < next
      → next ≤ c.char_end
      → c.char_end ≤ next + overlap
      → Tiled text target overlap (suc index) next rest
      → Tiled text target overlap index place
          (elim rest [ none ↦ none | some found ↦ some (c ∷ found) ])
  extended index place c next none piece before inside shared tiles = tiles
  extended index place c next (some cs) piece before inside shared tiles =
      lay text target overlap index place next c cs piece before inside shared tiles

  chunk_loop-Tiled :
      (fuel place index : ℕ)
      → place < length text
      → length text ≤ place + fuel
      → Tiled text target overlap index place
          (chunk_loop is_space fuel text target overlap place index)
  unfolding chunk_loop
  chunk_loop-Tiled zero place index h k = absurd (omega arith)
  chunk_loop-Tiled (suc fuel) place index h k =
      let end = chunk_end is_space text target place in
      let (after, within, sized) = chunk_end-bounds is_space text target place positive h in
      let (onward, inside, shared) = next_place-bounds is_space overlap place end after in
      let unfinished : ltb place (length text) ≡ true = ground (arith, h) in
      elim (Bool-cases (leb (length text) end)) [
        | inl last ↦
            rw (unfinished, last)
              ((refl, refl, after, within, sized, refl), ground (arith, last, within))
        | inr more ↦
            rw (unfinished, more)
              (extended index place _ (next_place is_space overlap place end) _
                (refl, refl, after, within, sized, refl) onward inside shared
                (chunk_loop-Tiled fuel (next_place is_space overlap place end) (suc index)
                  (ground (arith, more, inside)) (omega (arith, onward, k))))
      ]

-- What is promised of a result, by the target: nothing raised for a positive one, no loop that does
-- not end, no chunk of white space alone, and tiles for any other text.
abbrev pub Result : (ℕ → Bool) → Text → ℤ → ℤ → ChunkResult → Type 0
Result strips text target overlap value_error = ((t : ℕ) × (target ≡ pos (suc t))) → ⊥
Result strips text target overlap (chunks none) = ⊥
Result strips text (negsuc t) overlap (chunks (some cs)) = ⊥
Result strips text (pos t) overlap (chunks (some cs)) =
    (1 ≤ t)
    × (is_blank strips text ≡ true → cs ≡ [])
    × (is_blank strips text ≡ false → Tiles text t (clamp overlap t) 0 0 cs)

loop_result :
    (strips : ℕ → Bool) (text : Text) (t : ℕ) (overlap : ℤ) (positive : 1 ≤ t)
    (o : Option (List Chunk))
    → is_blank strips text ≡ false
    → Tiled text t (clamp overlap t) 0 0 o
    → Result strips text (pos t) overlap (chunks o)
loop_result strips text t overlap positive none content tiles = tiles
loop_result strips text t overlap positive (some cs) content tiles =
    (positive, (λ h. cc (content, h)), (λ _. tiles))

filled : (strips : ℕ → Bool) (text : Text) → is_blank strips text ≡ false → 0 < length text
filled strips [] h = cc
filled strips (c ∷ text) h = omega arith

take_all : (n : ℕ) (text : Text) → length text ≤ n → take n text ≡ text
take_all zero [] h = refl
take_all zero (c ∷ text) h = absurd (omega arith)
take_all (suc n) [] h = refl
take_all (suc n) (c ∷ text) h = rw (take_all n text (omega arith))

whole :
    (text : Text) (t overlap : ℕ)
    → 0 < length text
    → length text ≤ t
    → Tiles text t overlap 0 0
        (record { index = 0; text = text; char_start = 0; char_end = length text } ∷ [])
whole text t overlap h k = (
  (
    refl,
    refl,
    h,
    omega arith,
    omega (arith, k),
    sym (take_all (length text - 0) text (omega arith)),
  ),
  refl,
)

-- `chunk_text` raises exactly for a target that is not positive. A text that is only white space
-- has no chunks. For any other text the loop ends, within as many rounds as there are characters,
-- and the chunks tile the text: consecutive indices, the slices between their places, no longer
-- than the target, each starting after the one before and not after its end, sharing no more than
-- the clamped overlap, from the first character to the last.
pub chunk_text-Tiles :
    (strips is_space : ℕ → Bool) (text : Text) (target overlap : ℤ)
    → Result strips text target overlap (chunk_text strips is_space text target overlap)
unfolding chunk_text
chunk_text-Tiles strips is_space text (negsuc t) overlap = λ p. cc (p.1)
chunk_text-Tiles strips is_space text (pos zero) overlap = λ p. ground (arith, p.1)
chunk_text-Tiles strips is_space text (pos (suc t)) overlap =
    elim (Bool-cases (is_blank strips text)) [
      | inl blank ↦ rw blank (omega arith, (λ _. refl), (λ h. cc))
      | inr content ↦ rw content (elim (Bool-cases (leb (length text) (suc t))) [
        | inl short ↦ rw short (
            loop_result strips text (suc t) overlap (omega arith) (some _) content (
              whole text (suc t) (clamp overlap (suc t)) (filled strips text content)
                (ground (arith, short))))
        | inr long ↦ rw long (
            loop_result strips text (suc t) overlap (omega arith) _ content (
              chunk_loop-Tiled is_space text (suc t) (clamp overlap (suc t)) (omega arith)
                (length text) 0 0 (filled strips text content) (omega arith)))
      ])
    ]

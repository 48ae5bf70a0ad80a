-- ===== src/Planner/Ends.antt =====
-- Dividing a chunk, its children and theirs comes to an end, whatever limit there is on the depth.
use mathlib.Core.WellFounded.{Acc}
use code_astra.Base.{ℕ, zero, suc, ◌<◌, List, [], ◌∷◌, ◌≡◌, subst, sym, ◌⊎◌, inl, inr, arith}
use code_astra.Base.Lists.{All}
use code_astra.Domain.Chunks.{ReviewChunk}
use code_astra.Text.Breaks.{count_lines}
use code_astra.Planner.PythonChunks.{Tools}
use code_astra.Planner.{split}
use code_astra.Planner.Halves.{IsChild, Divides, split_keeps_lines}

abbrev pub Among : ReviewChunk → List ReviewChunk → Type 0
Among chunk [] = ⊥
Among chunk (item ∷ items) = (chunk ≡ item) ⊎ Among chunk items

All-Among :
    (P : ReviewChunk → Type 0) (chunk : ReviewChunk) (items : List ReviewChunk)
    → All P items
    → Among chunk items
    → P chunk
All-Among P chunk [] h among = absurd among
All-Among P chunk (item ∷ items) h (inl e) = subst P (sym e) h.0
All-Among P chunk (item ∷ items) h (inr among) = All-Among P chunk items h.1 among

-- The chunk is a child that `split` makes of the parent.
abbrev pub IsPart : Tools → ReviewChunk → ReviewChunk → Type 0
IsPart tools chunk parent = Among chunk (split tools parent)

module _ (tools : Tools) where
  smaller :
      (chunk parent : ReviewChunk)
      → IsPart tools chunk parent
      → count_lines chunk.target_code < count_lines parent.target_code
  smaller chunk parent = go (split tools parent) (split_keeps_lines tools parent)
    where
      go :
          (items : List ReviewChunk)
          → Divides parent items
          → Among chunk items
          → count_lines chunk.target_code < count_lines parent.target_code
      go [] h among = absurd among
      go (item ∷ items) h among = (All-Among (IsChild parent) chunk (item ∷ items) h.0 among).fewer

  ends_below :
      (n : ℕ) (chunk : ReviewChunk) → count_lines chunk.target_code < n → Acc (IsPart tools) chunk
  ends_below zero chunk h = absurd (omega (arith, h))
  ends_below (suc n) chunk h =
      Acc.intro chunk
        (λ part is_part. ends_below n part (omega (arith, smaller part chunk is_part, h)))

  -- There is no endless sequence of chunks, each a child that dividing the one before it makes.
  pub splits_end : (chunk : ReviewChunk) → Acc (IsPart tools) chunk
  splits_end chunk = ends_below (suc (count_lines chunk.target_code)) chunk (omega arith)

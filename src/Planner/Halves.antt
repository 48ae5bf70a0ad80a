-- ===== src/Planner/Halves.antt =====
-- What `split` makes of a chunk.
use code_astra.Base.{
  ℕ, ◌+◌, ◌-◌, ◌/◌, ◌≤◌, ◌<◌, String, Bool, false, ◌&&◌, ◌||◌, List, [], ◌∷◌, some, ltb, leb, ◌==◌,
  string_eq, ◌≡◌, refl, arith, Bool-cases, inl, inr,
}
use code_astra.Base.Lists.{take, drop, All}
use code_astra.Domain.Chunks.{ReviewChunk, ChunkStatus}
use code_astra.Text.{split_keepends, is_newline}
use code_astra.Text.Breaks.{count_lines, count-take, count-drop}
use code_astra.Coverage.{is_covered}
use code_astra.Planner.PythonChunks.{Tools}
use code_astra.Planner.{child, split}

-- The text of the chunk has no more lines than its range.
abbrev pub Sized : ReviewChunk → Type 0
Sized chunk = chunk.target_start_line + count_lines chunk.target_code ≤ chunk.target_end_line + 1

-- A chunk to review again, of this parent, with fewer lines than it.
pub record IsChild (parent chunk : ReviewChunk) : Type 0 where
  pub parent_id : chunk.parent_chunk_id ≡ some parent.chunk_id
  pub depth : chunk.split_depth ≡ parent.split_depth + 1
  pub waits : chunk.status ≡ ChunkStatus.pending
  pub fewer : count_lines chunk.target_code < count_lines parent.target_code

abbrev pub Divides : ReviewChunk → List ReviewChunk → Type 0
Divides chunk [] = count_lines chunk.target_code < 2
Divides chunk children =
    All (IsChild chunk) children
    × (Sized chunk
        → All Sized children
          × ((file_id : String) (line : ℕ)
              → is_covered file_id line children ≡ is_covered file_id line (chunk ∷ [])))

-- Two ranges that meet cover what their union covers.
two_ranges :
    (same : Bool) (start middle end line : ℕ)
    → start < middle
    → middle ≤ end
    → (same && (leb start line && leb line (middle - 1)))
        || ((same && (leb middle line && leb line end)) || false)
      ≡ (same && (leb start line && leb line end)) || false
two_ranges same start middle end line p q = ground arith

module _ (tools : Tools) where
  module _ (chunk : ReviewChunk) (m : ℕ) (some_lines : 0 < m)
      (fewer_lines : m < count_lines chunk.target_code) where
    abbrev first : ReviewChunk
    first =
        child tools chunk 0 chunk.target_start_line (chunk.target_start_line + m - 1)
          (take m (split_keepends chunk.target_code))

    abbrev second : ReviewChunk
    second =
        child tools chunk 1 (chunk.target_start_line + m) chunk.target_end_line
          (drop m (split_keepends chunk.target_code))

    first-count : count_lines first.target_code ≤ m
    unfolding child
    first-count = count-take is_newline m chunk.target_code

    second-count : count_lines second.target_code ≤ count_lines chunk.target_code - m
    unfolding child
    second-count = count-drop is_newline m chunk.target_code

    first-IsChild : IsChild chunk first
    unfolding child
    first-IsChild = record {
      parent_id = refl;
      depth = refl;
      waits = refl;
      fewer = omega (arith, first-count, fewer_lines);
    }

    second-IsChild : IsChild chunk second
    unfolding child
    second-IsChild = record {
      parent_id = refl;
      depth = refl;
      waits = refl;
      fewer = omega (arith, second-count, some_lines, fewer_lines);
    }

    first-Sized : Sized first
    unfolding child
    first-Sized = omega (arith, first-count, some_lines)

    second-Sized : Sized chunk → Sized second
    unfolding child
    second-Sized h = omega (arith, second-count, some_lines, fewer_lines, h)

    halves-cover :
        Sized chunk
        → (file_id : String) (line : ℕ)
        → is_covered file_id line (first ∷ second ∷ []) ≡ is_covered file_id line (chunk ∷ [])
    unfolding child is_covered
    halves-cover h file_id line =
        two_ranges (chunk.target_file_id == file_id) chunk.target_start_line
          (chunk.target_start_line + m) chunk.target_end_line line (omega (arith, some_lines))
          (omega (arith, h, fewer_lines))

    halves-Divides : Divides chunk (first ∷ second ∷ [])
    halves-Divides = (
      (first-IsChild, (second-IsChild, tt)),
      λ h. ((first-Sized, (second-Sized h, tt)), halves-cover h),
    )

  -- A chunk is divided unless its text has less than two lines. Each child waits, one level deeper,
  -- with fewer lines than its parent. If the text of the parent has no more lines than its range, so
  -- it is for the children, and together they cover exactly the lines that the parent covers.
  pub split_keeps_lines : (chunk : ReviewChunk) → Divides chunk (split tools chunk)
  unfolding split
  split_keeps_lines chunk = elim (Bool-cases (ltb (count_lines chunk.target_code) 2)) [
    | inl short ↦ rw short (ground arith)
    | inr long ↦
        rw long
          (halves-Divides chunk (count_lines chunk.target_code / 2) (ground arith) (ground arith))
  ]

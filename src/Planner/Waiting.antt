-- ===== src/Planner/Waiting.antt =====
-- The chunks of a new plan: they wait, and their texts have no more lines than their ranges.
use code_astra.Base.{
  ℕ, ◌+◌, ◌-◌, ◌≤◌, String, Bool, true, false, List, [], ◌∷◌, ◌++◌, map, Option, ◌≡◌, refl, arith,
}
use code_astra.Base.Lists.{All, All-append}
use code_astra.Base.Result.{Result, ok, err, Succeeds}
use code_astra.Domain.Chunks.{ReviewChunk, ChunkStatus}
use code_astra.Domain.Sources.{SourceFile, Statement}
use code_astra.Text.{is_newline}
use code_astra.Text.Breaks.{count-part}
use code_astra.Planner.PythonChunks.{
  Tools, or_else, least, greatest, statement_range, pending_range, ranges_of, make_chunk,
  chunk_ranges, split_parsed, split_python,
}
use code_astra.Planner.Halves.{Sized}

pub record IsWaiting (chunk : ReviewChunk) : Type 0 where
  pub waits : chunk.status ≡ ChunkStatus.pending
  pub sized : Sized chunk

-- A statement does not end before it starts.
abbrev pub IsOrdered : Statement → Type 0
IsOrdered statement = statement.lineno ≤ or_else statement.end_lineno statement.lineno

-- What the parser of Python gives is in order.
abbrev pub ParsesInOrder : Tools → Type 0
ParsesInOrder tools = (content : String) → Succeeds (All IsOrdered) (tools.parse content)

least-le : (n : ℕ) (l : List ℕ) → least n l ≤ n
least-le n [] = omega arith
least-le n (m ∷ l) = omega arith

greatest-ge : (n : ℕ) (l : List ℕ) → n ≤ greatest n l
greatest-ge n [] = omega arith
greatest-ge n (m ∷ l) = omega arith

abbrev InOrder : ℕ × ℕ → Type 0
InOrder (start, end) = start ≤ end

statement-InOrder : (s : Statement) → IsOrdered s → InOrder (statement_range s)
unfolding statement_range
statement-InOrder s h = omega (arith, h, least-le s.lineno s.decorator_linenos)

pending-InOrder : (l : List Statement) → All IsOrdered l → All InOrder (pending_range l)
unfolding pending_range
pending-InOrder [] h = tt
pending-InOrder (s ∷ l) h = (
  omega (
    arith,
    statement-InOrder s h.0,
    least-le (statement_range s).0 (map (λ (x : Statement). (statement_range x).0) l),
    greatest-ge (statement_range s).1 (map (λ (x : Statement). (statement_range x).1) l),
  ),
  tt,
)

ranges-InOrder :
    (pending l : List Statement)
    → All IsOrdered pending
    → All IsOrdered l
    → All InOrder (ranges_of pending l)
unfolding ranges_of
ranges-InOrder pending [] p h = pending-InOrder pending p
ranges-InOrder pending (s ∷ l) p h =
    go s.is_definition (ranges-InOrder [] l tt h.1)
      (ranges-InOrder (pending ++ s ∷ []) l (All-append IsOrdered pending (s ∷ []) p (h.0, tt)) h.1)
  where
    go :
        (b : Bool)
        → All InOrder (ranges_of [] l)
        → All InOrder (ranges_of (pending ++ s ∷ []) l)
        → All InOrder (elim b [
          | true ↦ pending_range pending ++ statement_range s ∷ ranges_of [] l
          | false ↦ ranges_of (pending ++ s ∷ []) l
        ])
    go true alone together =
        All-append InOrder (pending_range pending) (statement_range s ∷ ranges_of [] l)
          (pending-InOrder pending p) (statement-InOrder s h.0, alone)
    go false alone together = together

module _ (tools : Tools) where
  make-IsWaiting :
      (review_id : String) (source : SourceFile) (index : ℕ) (range : ℕ × ℕ)
      → InOrder range
      → IsWaiting (make_chunk tools review_id source index range)
  unfolding make_chunk
  make-IsWaiting review_id source index (start, end) h = record {
    waits = refl;
    sized = omega (arith, h, count-part is_newline (start - 1) (end - (start - 1)) source.content);
  }

  ranges-IsWaiting :
      (review_id : String) (source : SourceFile) (index : ℕ) (ranges : List (ℕ × ℕ))
      → All InOrder ranges
      → All IsWaiting (chunk_ranges tools review_id source index ranges)
  unfolding chunk_ranges
  ranges-IsWaiting review_id source index [] h = tt
  ranges-IsWaiting review_id source index (range ∷ ranges) h = (
    make-IsWaiting review_id source index range h.0,
    ranges-IsWaiting review_id source (index + 1) ranges h.1,
  )

  parsed-IsWaiting :
      (review_id : String) (source : SourceFile) (r : Result (Option ℕ) (List Statement))
      → Succeeds (All IsOrdered) r
      → Succeeds (All IsWaiting) (split_parsed tools review_id source r)
  parsed-IsWaiting review_id source (err lineno) h = tt
  parsed-IsWaiting review_id source (ok l) h =
      ranges-IsWaiting review_id source 0 (ranges_of [] l) (ranges-InOrder [] l tt h)

  pub python-IsWaiting :
      ParsesInOrder tools
      → (review_id : String) (source : SourceFile)
      → Succeeds (All IsWaiting) (split_python tools review_id source)
  unfolding split_python
  python-IsWaiting h review_id source =
      parsed-IsWaiting review_id source (tools.parse source.content) (h source.content)

-- ===== src/Planner/Accepted.antt =====
-- The plan of a review, worked off in whatever way, passes the checks of the aggregator.
use code_astra.Base.{
  ℕ, String, Bool, false, not, List, [], ◌∷◌, string_eq, if◌then◌else◌, ◌≡◌, refl, ap, subst, ◌∙◌,
  arith,
}
use code_astra.Base.Lists.{All}
use code_astra.Base.Dict.{Dict}
use code_astra.Base.Result.{ok, Succeeds}
use code_astra.Domain.Chunks.{ReviewChunk, ContextReference, is_superseded}
use code_astra.Domain.Sources.{SourceFile}
use code_astra.Coverage.{
  is_covered, leaf_chunks, missing_lines, unresolved, check_files, check_coverage,
}
use code_astra.Planner.PythonChunks.{Tools}
use code_astra.Planner.CppChunks.{CppParser}
use code_astra.Planner.{ReviewPlan, plan_review}
use code_astra.Planner.Acceptance.{Evolves, Fits, lines_stay_covered}
use code_astra.Planner.Waiting.{IsWaiting, ParsesInOrder}
use code_astra.Planner.Planned.{RowsHold, IsComplete, plan-IsComplete}

waiting_leaves : (chunks : List ReviewChunk) → All IsWaiting chunks → leaf_chunks chunks ≡ chunks
unfolding leaf_chunks
waiting_leaves [] h = refl
waiting_leaves (chunk ∷ chunks) h =
    kept_leaf (is_superseded chunk.status) (ap is_superseded h.0.waits)
    ∙ ap (λ l. chunk ∷ l) (waiting_leaves chunks h.1)
  where
    kept_leaf :
        (b : Bool)
        → b ≡ false
        → (if not b then chunk ∷ leaf_chunks chunks else leaf_chunks chunks)
          ≡ chunk ∷ leaf_chunks chunks
    kept_leaf b e = rw e refl

waiting-Fits : (chunks : List ReviewChunk) → All IsWaiting chunks → All Fits chunks
waiting-Fits [] h = tt
waiting-Fits (chunk ∷ chunks) h = ((λ _. h.0.sized), waiting-Fits chunks h.1)

missing_same :
    (k : String) (a b : List ReviewChunk)
    → ((line : ℕ) → is_covered k line a ≡ is_covered k line b)
    → (lines : List ℕ) → missing_lines k a lines ≡ missing_lines k b lines
unfolding missing_lines
missing_same k a b h [] = refl
missing_same k a b h (line ∷ lines) = rw (h line) (ground (arith, missing_same k a b h lines))

files_pass :
    (leaves chunks : List ReviewChunk) (entries : Dict String (List ℕ))
    → ((k : String) (line : ℕ) → is_covered k line leaves ≡ is_covered k line chunks)
    → All (λ (entry : String × List ℕ). missing_lines entry.0 chunks entry.1 ≡ []) entries
    → check_files leaves entries ≡ ok tt
unfolding check_files
files_pass leaves chunks [] same h = refl
files_pass leaves chunks ((k, v) ∷ entries) same h =
    rw (missing_same k leaves chunks (same k) v, h.0) (files_pass leaves chunks entries same h.1)

-- If the parser of Python gives no statement that ends before it starts, and no node of a C++ file at
-- hand that becomes a chunk has more lines than its rows, then, once `plan` has given a plan for the
-- files, the chunks may change and be divided in any way: when every chunk is superseded or
-- completed, the checks of the aggregator pass for the lines that the plan found significant.
pub finished_plans_pass :
    (tools : Tools) (cpp : CppParser)
    (resolve : ReviewChunk → List SourceFile → List ContextReference)
    → ParsesInOrder tools
    → (review_id : String) (files : List SourceFile) (plan : ReviewPlan) → All (RowsHold cpp) files
    → plan_review tools cpp resolve review_id files ≡ ok plan
    → (later : List ReviewChunk) → Evolves tools plan.chunks later
    → unresolved later ≡ []
    → check_coverage later plan.significant_lines ≡ ok tt
unfolding check_coverage
finished_plans_pass tools cpp resolve parses review_id files plan rows e later evolves done =
    rw done (
      files_pass (leaf_chunks later) plan.chunks plan.significant_lines
        (λ k line.
          lines_stay_covered tools plan.chunks later k line
            (waiting-Fits plan.chunks complete.chunks) evolves
          ∙ ap (is_covered k line) (waiting_leaves plan.chunks complete.chunks))
        complete.covers)
  where
    complete : IsComplete plan
    complete =
        subst (Succeeds IsComplete) e
          (plan-IsComplete tools cpp resolve parses review_id files rows)

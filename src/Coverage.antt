-- ===== src/Coverage.antt =====
-- When a review is complete: `ReviewPlan` of src/code_review/domain/review_chunks.py, and the checks
-- that `ReviewAggregator.aggregate` of src/code_review/application/review_aggregator.py makes before
-- it merges findings. A set of lines is a list. Once no line is missing the percentage is 100, and
-- the last check is not made here.
pub mod Complete
mod Tests
use code_astra.Base.{
  ℕ, ◌+◌, String, Bool, true, false, not, ◌&&◌, ◌||◌, List, [], ◌∷◌, map, Option, none, some, ltb,
  leb, ◌==◌, string_eq, if◌then◌else◌,
}
use code_astra.Base.Lists.{filter}
use code_astra.Base.Dict.{Dict}
use code_astra.Base.Sort.{sort_by}
use code_astra.Base.Result.{Result, ok, err}
use code_astra.Domain.Sources.{ReviewPlanningError}
use code_astra.Domain.Chunks.{ReviewChunk, is_superseded, is_completed}

unfoldable pub leaf_chunks : List ReviewChunk → List ReviewChunk
leaf_chunks = filter (λ (chunk : ReviewChunk). not (is_superseded chunk.status))

unfoldable pub unresolved : List ReviewChunk → List String
unfolding leaf_chunks
unresolved chunks =
    map (λ (chunk : ReviewChunk). chunk.chunk_id)
      (filter (λ (chunk : ReviewChunk). not (is_completed chunk.status)) (leaf_chunks chunks))

abbrev pub raise_unresolved :
    {A : Type 0} → List String → Result ReviewPlanningError A → Result ReviewPlanningError A
raise_unresolved [] rest = rest
raise_unresolved (chunk_id ∷ chunk_ids) rest = err (record {
  code = "coverage_incomplete";
  file_id = none;
  lines = [];
  chunk_ids = chunk_id ∷ chunk_ids;
})

unfoldable pub assert_complete : List ReviewChunk → Result ReviewPlanningError (Unit {0})
assert_complete chunks = raise_unresolved (unresolved chunks) (ok tt)

-- `line in covered`, for the chunks of the file
unfoldable pub is_covered : String → ℕ → List ReviewChunk → Bool
is_covered file_id line [] = false
is_covered file_id line (item ∷ items) =
    (item.target_file_id == file_id
      && (leb item.target_start_line line && leb line item.target_end_line))
    || is_covered file_id line items

-- `lines - covered`
unfoldable pub missing_lines : String → List ReviewChunk → List ℕ → List ℕ
missing_lines file_id leaves = filter (λ line. not (is_covered file_id line leaves))

abbrev pub raise_missing :
    String → List ℕ → Result ReviewPlanningError (Unit {0}) → Result ReviewPlanningError (Unit {0})
raise_missing file_id [] rest = rest
raise_missing file_id (line ∷ lines) rest = err (record {
  code = "coverage_incomplete";
  file_id = some file_id;
  lines = sort_by ltb (line ∷ lines);
  chunk_ids = [];
})

unfoldable pub check_files :
    List ReviewChunk → Dict String (List ℕ) → Result ReviewPlanningError (Unit {0})
check_files leaves [] = ok tt
check_files leaves ((file_id, lines) ∷ files) =
    raise_missing file_id (missing_lines file_id leaves lines) (check_files leaves files)

-- The checks of `aggregate`.
unfoldable pub check_coverage :
    List ReviewChunk → Dict String (List ℕ) → Result ReviewPlanningError (Unit {0})
check_coverage chunks significant_lines =
    raise_unresolved (unresolved chunks) (check_files (leaf_chunks chunks) significant_lines)

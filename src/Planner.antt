-- ===== src/Planner.antt =====
-- src/code_review/application/review_planner.py, `ReviewPlanner`. The parsers and the resolver of
-- dependencies are parameters.
pub mod Significant
pub mod PythonChunks
pub mod CppChunks
pub mod Halves
pub mod Ends
pub mod Acceptance
pub mod Waiting
pub mod Planned
pub mod Accepted
pub mod Comments
mod Tests
use code_astra.Base.{
  ℕ, suc, ◌+◌, ◌-◌, ◌/◌, String, Bool, true, false, not, ◌&&◌, List, [], ◌∷◌, ◌++◌, map, Option,
  none, some, ltb, ◌==◌, string_eq, if◌then◌else◌,
}
use code_astra.Base.Lists.{length, take, drop}
use code_astra.Base.Dict.{Dict, lookup, insert}
use code_astra.Base.Sort.{sort_by}
use code_astra.Base.Result.{Result, ok, err, ◌>>=◌, ◌>>◌}
use code_astra.Domain.Chunks.{Language, ReviewChunk, ChunkStatus, ContextReference}
use code_astra.Domain.Sources.{SourceFile, ReviewPlanningError}
use code_astra.Text.{split_keepends, concat, rstrip, is_newline}
use code_astra.Coverage.{missing_lines}
use code_astra.Planner.Significant.{significant_lines}
use code_astra.Planner.PythonChunks.{Tools, split_python}
use code_astra.Planner.CppChunks.{CppParser, split_cpp}

pub record ReviewPlan : Type 0 where
  pub review_id : String
  pub chunks : List ReviewChunk
  pub significant_lines : Dict String (List ℕ)
  pub zero_target_file_ids : List String

abbrev pub planning_error : {A : Type 0} → String → List ℕ → Result ReviewPlanningError A
planning_error file_id lines = err (record {
  code = "planning_error";
  file_id = some file_id;
  lines = sort_by ltb lines;
  chunk_ids = [];
})

-- The end of one pass of the loop over the files: a file of no chunks may have no line that counts.
abbrev pub add_chunks :
    SourceFile → ReviewPlan → List ReviewChunk → List ℕ → Result ReviewPlanningError ReviewPlan
add_chunks source plan [] [] =
    ok (record plan { zero_target_file_ids = plan.zero_target_file_ids ++ source.file_id ∷ [] })
add_chunks source plan [] (line ∷ lines) = planning_error source.file_id (line ∷ lines)
add_chunks source plan (chunk ∷ chunks) lines =
    ok (record plan { chunks = plan.chunks ++ chunk ∷ chunks })

-- `significant[source.file_id]`, which the first loop has set
abbrev pub lines_at : Option (List ℕ) → List ℕ
lines_at none = []
lines_at (some lines) = lines

abbrev pub require_none : String → List ℕ → Result ReviewPlanningError (Unit {0})
require_none file_id [] = ok tt
require_none file_id (line ∷ lines) = planning_error file_id (line ∷ lines)

module _ (tools : Tools) where
  -- One pass of the loop over `ranges` in `split`.
  unfoldable pub child : ReviewChunk → ℕ → ℕ → ℕ → List String → ReviewChunk
  child chunk index start end body =
      let code = rstrip is_newline (concat body) in
      record chunk {
        chunk_id = concat (chunk.chunk_id ∷ "." ∷ tools.digits (index + 1) ∷ []);
        target_start_line = start;
        target_end_line = end;
        target_code = code;
        content_fingerprint = tools.sha256 (
            concat (
              chunk.content_fingerprint
              ∷ ":"
              ∷ tools.digits start
              ∷ ":"
              ∷ tools.digits end
              ∷ ":"
              ∷ code
              ∷ []));
        parent_chunk_id = some chunk.chunk_id;
        split_depth = chunk.split_depth + 1;
        attempt_count = 0;
        status = ChunkStatus.pending;
        error_code = none;
        error_message = none;
      }

  abbrev pub halves : ReviewChunk → List String → ℕ → List ReviewChunk
  halves chunk lines middle =
      child chunk 0 chunk.target_start_line (chunk.target_start_line + middle - 1)
        (take middle lines)
      ∷ child chunk 1 (chunk.target_start_line + middle) chunk.target_end_line (drop middle lines)
      ∷ []

  unfoldable pub split : ReviewChunk → List ReviewChunk
  split chunk =
      let lines = split_keepends chunk.target_code in
      if ltb (length lines) 2 then [] else halves chunk lines (length lines / 2)

  module _ (cpp : CppParser) (resolve : ReviewChunk → List SourceFile → List ContextReference) where
    abbrev pub split_file :
        Language → String → SourceFile → Result ReviewPlanningError (List ReviewChunk)
    split_file Language.python review_id source = split_python tools review_id source
    split_file Language.cpp review_id source = split_cpp tools cpp review_id source

    unfoldable pub add_file :
        String → SourceFile → ReviewPlan → Result ReviewPlanningError ReviewPlan
    add_file review_id source plan = split_file source.language review_id source >>= λ file_chunks.
        add_chunks source
          (record plan {
            significant_lines =
                insert source.file_id (significant_lines source) plan.significant_lines;
          })
          file_chunks (significant_lines source)

    unfoldable pub add_files :
        String → List SourceFile → ReviewPlan → Result ReviewPlanningError ReviewPlan
    add_files review_id [] plan = ok plan
    add_files review_id (source ∷ files) plan =
        add_file review_id source plan >>= add_files review_id files

    unfoldable pub resolve_all : List SourceFile → List ReviewChunk → List ReviewChunk
    resolve_all files chunks =
        map (λ (chunk : ReviewChunk). record chunk { context_references = resolve chunk files })
          chunks

    -- The loop that checks every file.
    unfoldable pub check_plan : ReviewPlan → List SourceFile → Result ReviewPlanningError (Unit {0})
    check_plan plan [] = ok tt
    check_plan plan (source ∷ files) =
        require_none source.file_id (
          missing_lines source.file_id plan.chunks
            (lines_at (lookup source.file_id plan.significant_lines)))
        >> check_plan plan files

    abbrev pub checked : List SourceFile → ReviewPlan → Result ReviewPlanningError ReviewPlan
    checked files plan = check_plan plan files >> ok plan

    unfoldable pub plan_review : String → List SourceFile → Result ReviewPlanningError ReviewPlan
    plan_review review_id files =
        add_files review_id files (record {
          review_id = review_id;
          chunks = [];
          significant_lines = [];
          zero_target_file_ids = [];
        })
        >>= λ plan. checked files (record plan { chunks = resolve_all files plan.chunks })

-- ===== src/Coverage/Tests.antt =====
-- The checks of a review's completeness at concrete chunks.
use code_astra.Base.{ℕ, String, List, [], ◌∷◌, none, ◌≡◌, refl, string_eq}
use code_astra.Base.Dict.{Dict}
use code_astra.Base.Result.{ok}
use code_astra.Domain.Chunks.{ReviewChunk, Language, ChunkStatus}
use code_astra.Coverage.{
  check_coverage, check_files, unresolved, leaf_chunks, missing_lines, is_covered,
}

abbrev part : ℕ → ℕ → ChunkStatus → ReviewChunk
part first last status = record {
  chunk_id = "c";
  review_id = "r";
  language = Language.python;
  target_file_id = "f";
  target_path = "f.py";
  target_start_line = first;
  target_end_line = last;
  target_code = "y";
  content_fingerprint = "";
  context_references = [];
  prompt_tokens_estimate = 0;
  output_tokens_budget = 0;
  parent_chunk_id = none;
  split_depth = 0;
  attempt_count = 0;
  status = status;
  error_code = none;
  error_message = none;
}

abbrev split_chunks : List ReviewChunk
split_chunks =
    part 1 9 ChunkStatus.superseded
    ∷ part 1 4 ChunkStatus.completed
    ∷ part 5 9 ChunkStatus.completed
    ∷ []

abbrev significant : Dict String (List ℕ)
significant = ("f", 2 ∷ 4 ∷ 5 ∷ 9 ∷ []) ∷ []

passes : check_coverage split_chunks significant ≡ ok tt
unfolding check_coverage check_files unresolved leaf_chunks missing_lines is_covered string_eq
passes = refl

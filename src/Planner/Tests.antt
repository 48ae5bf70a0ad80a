-- ===== src/Planner/Tests.antt =====
-- Runs of the planner, and its theorems at concrete inputs.
use Prim.Native.String
use mathlib.Core.WellFounded.{Acc}
use code_astra.Base.{ℕ, String, ◌≡◌, refl, List, [], ◌∷◌, none, some, true, false, arith}
use code_astra.Base.Result.{ok}
use code_astra.Domain.Chunks.{Language, ReviewChunk, ChunkStatus, ContextReference}
use code_astra.Domain.Sources.{SourceFile}
use code_astra.Coverage.{check_coverage, unresolved, leaf_chunks}
use code_astra.Base.{string_eq, nat_eq}
use code_astra.Base.Dict.{insert, lookup}
use code_astra.Text.{
  split_lines, split_keepends, ends_line, is_break, concat, rstrip, lstrip, strip, is_space,
}
use code_astra.Coverage.{missing_lines, is_covered}
use code_astra.Planner.{
  split, child, plan_review, add_files, add_file, resolve_all, check_plan, ReviewPlan,
}
use code_astra.Planner.PythonChunks.{
  Tools, split_python, ranges_of, statement_range, pending_range, chunk_ranges, make_chunk,
}
use code_astra.Planner.Significant.{skip_comments, judge_line, cpp_lines, significant_lines}
use code_astra.Planner.Halves.{Divides, split_keeps_lines}
use code_astra.Planner.Ends.{IsPart, splits_end}
use code_astra.Planner.Acceptance.{Evolves, stays, moves, divides}
use code_astra.Planner.Waiting.{ParsesInOrder}
use code_astra.Planner.Accepted.{finished_plans_pass}
use code_astra.Planner.Planned.{RowsHold}
use code_astra.Planner.CppChunks.{
  CppParser, CppNode, tree, no_trees, more_trees, nodes_in, has_content, node_range, cpp_chunk,
  cpp_chunks, split_cpp, error_byte_ranges,
}
use code_astra.Planner.Comments.{Ended, skip_comments_ends}

-- A parser that finds one function of three lines, and a hash that is the text.
abbrev stub_tools : Tools
stub_tools = record {
  parse = λ content. ok (
      record { is_definition = true; lineno = 1; end_lineno = some 3; decorator_linenos = [] }
      ∷ []);
  sha256 = λ text. text;
  digits = λ n. "1";
}

-- The parser finds one function.
abbrev the_function : CppNode
the_function = record {
  is_error = false;
  is_missing = false;
  is_named = true;
  start_byte = 0;
  end_byte = 35;
  start_row = 0;
  end_row = 2;
  end_column = 15;
  text = "int f() {\n    // no\n    return 1; }";
}

abbrev one_function : CppParser
one_function = record {
  parse = λ content. tree the_function (more_trees (tree the_function no_trees) no_trees);
  has_error = λ content. false;
  utf8_length = λ content. 36;
  exceeds = λ error_bytes total. false;
}

abbrev no_references : ReviewChunk → List SourceFile → List ContextReference
no_references chunk files = []

abbrev three_lines : SourceFile
three_lines = record {
  file_id = "f";
  relative_path = "f.cpp";
  language = Language.cpp;
  content = "int f() {\n    // no\n    return 1; }\n";
  sha256 = "";
}

abbrev whole : ChunkStatus → ReviewChunk
whole status = record {
  chunk_id = "r:f:1-1:1";
  review_id = "r";
  language = Language.cpp;
  target_file_id = "f";
  target_path = "f.cpp";
  target_start_line = 1;
  target_end_line = 3;
  target_code = "int f() {\n    // no\n    return 1; }";
  content_fingerprint = ":1:1:int f() {\n    // no\n    return 1; }";
  context_references = [];
  prompt_tokens_estimate = 0;
  output_tokens_budget = 0;
  parent_chunk_id = none;
  split_depth = 0;
  attempt_count = 0;
  status = status;
  error_code = none;
  error_message = none;
}

abbrev small_plan : ReviewPlan
small_plan = record {
  review_id = "r";
  chunks = whole ChunkStatus.pending ∷ [];
  significant_lines = ("f", 1 ∷ 3 ∷ []) ∷ [];
  zero_target_file_ids = [];
}

three_lines-plan :
    plan_review stub_tools one_function no_references "r" (three_lines ∷ []) ≡ ok small_plan
unfolding split_cpp cpp_chunks cpp_chunk nodes_in has_content node_range error_byte_ranges cpp_lines
    judge_line skip_comments plan_review add_files add_file split_python ranges_of statement_range
    pending_range chunk_ranges make_chunk significant_lines split_lines split_keepends ends_line
    is_break concat rstrip lstrip strip is_space resolve_all check_plan missing_lines is_covered
    insert lookup string_eq nat_eq
three_lines-plan = refl

abbrev part : String → String → ℕ → ℕ → ChunkStatus → ReviewChunk
part chunk_id code start end status = record (whole status) {
  chunk_id = chunk_id;
  target_start_line = start;
  target_end_line = end;
  target_code = code;
  content_fingerprint = String.◌++◌ ":1:1:int f() {\n    // no\n    return 1; }:1:1:" code;
  parent_chunk_id = some "r:f:1-1:1";
  split_depth = 1;
}

abbrev upper : ChunkStatus → ReviewChunk
upper = part "r:f:1-1:1.1" "int f() {" 1 1

abbrev lower : ChunkStatus → ReviewChunk
lower = part "r:f:1-1:1.1" "    // no\n    return 1; }" 2 3

whole-split :
    split stub_tools (whole ChunkStatus.pending)
    ≡ upper ChunkStatus.pending ∷ lower ChunkStatus.pending ∷ []
unfolding split child concat split_keepends rstrip ends_line is_break nat_eq
whole-split = refl

-- The chunk is divided, and its halves are completed.
abbrev reviewed : List ReviewChunk
reviewed =
    whole ChunkStatus.superseded ∷ upper ChunkStatus.completed ∷ lower ChunkStatus.completed ∷ []

halves-done :
    Evolves stub_tools
      (whole ChunkStatus.superseded ∷ upper ChunkStatus.pending ∷ lower ChunkStatus.pending ∷ [])
      reviewed
halves-done =
    moves (whole ChunkStatus.superseded ∷ []) (lower ChunkStatus.pending ∷ [])
      (upper ChunkStatus.pending) (upper ChunkStatus.completed)
      (record {
        file = refl;
        start = refl;
        end = refl;
        code = refl;
        leaf_before = refl;
        leaf_after = refl;
      })
      (moves (whole ChunkStatus.superseded ∷ upper ChunkStatus.completed ∷ []) []
        (lower ChunkStatus.pending) (lower ChunkStatus.completed)
        (record {
          file = refl;
          start = refl;
          end = refl;
          code = refl;
          leaf_before = refl;
          leaf_after = refl;
        })
        stays)

whole-reviewed : Evolves stub_tools (whole ChunkStatus.pending ∷ []) reviewed
whole-reviewed =
    divides [] [] (whole ChunkStatus.pending) refl (rw whole-split (λ e. ground (arith, e)))
      (rw whole-split halves-done)

reviewed-done : unresolved reviewed ≡ []
unfolding unresolved leaf_chunks
reviewed-done = refl

stub_parses : ParsesInOrder stub_tools
stub_parses content = (omega arith, tt)

three_lines-rows : RowsHold one_function three_lines
unfolding nodes_in has_content node_range split_keepends ends_line is_break rstrip nat_eq
three_lines-rows _ = (omega arith, tt)

finished_plans_pass_example : check_coverage reviewed small_plan.significant_lines ≡ ok tt
finished_plans_pass_example =
    finished_plans_pass stub_tools one_function no_references stub_parses "r" (three_lines ∷ [])
      small_plan (three_lines-rows, tt) three_lines-plan reviewed whole-reviewed reviewed-done

split_keeps_lines_example :
    Divides (whole ChunkStatus.pending) (split stub_tools (whole ChunkStatus.pending))
split_keeps_lines_example = split_keeps_lines stub_tools (whole ChunkStatus.pending)

splits_end_example : Acc (IsPart stub_tools) (whole ChunkStatus.pending)
splits_end_example = splits_end stub_tools (whole ChunkStatus.pending)

skip_comments_ends_example : Ended (skip_comments 12 "/* a */ x")
skip_comments_ends_example = skip_comments_ends 12 "/* a */ x" (omega arith)

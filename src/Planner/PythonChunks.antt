-- ===== src/Planner/PythonChunks.antt =====
-- src/code_review/application/chunking/python_chunker.py, `PythonSyntaxChunker.split`. The parser and
-- the hash are parameters; a line number of the parser is 1 at least.
use code_astra.Base.{
  ℕ, zero, suc, ◌+◌, ◌-◌, min, max, String, true, false, List, [], ◌∷◌, ◌++◌, map, Option, none,
  some,
}
use code_astra.Base.Lists.{take, drop}
use code_astra.Base.Result.{Result, ok, err}
use code_astra.Domain.Chunks.{Language, ReviewChunk, ChunkStatus}
use code_astra.Domain.Sources.{SourceFile, Statement, ReviewPlanningError}
use code_astra.Text.{split_keepends, concat, rstrip, is_newline}

-- What the planner calls: `ast.parse`, which gives the line of a syntax error, `sha256` and the
-- digits of a number.
pub record Tools : Type 0 where
  pub parse : String → Result (Option ℕ) (List Statement)
  pub sha256 : String → String
  pub digits : ℕ → String

-- `number or default`
abbrev pub or_else : Option ℕ → ℕ → ℕ
or_else none default = default
or_else (some zero) default = default
or_else (some (suc n)) default = suc n

abbrev pub least : ℕ → List ℕ → ℕ
least n [] = n
least n (m ∷ ms) = min n (least m ms)

abbrev pub greatest : ℕ → List ℕ → ℕ
greatest n [] = n
greatest n (m ∷ ms) = max n (greatest m ms)

unfoldable pub statement_range : Statement → ℕ × ℕ
statement_range statement = (
  least statement.lineno statement.decorator_linenos,
  or_else statement.end_lineno statement.lineno,
)

unfoldable pub pending_range : List Statement → List (ℕ × ℕ)
pending_range [] = []
pending_range (item ∷ items) =
    (
      least (statement_range item).0 (map (λ statement. (statement_range statement).0) items),
      greatest (statement_range item).1 (map (λ statement. (statement_range statement).1) items),
    )
    ∷ []

-- The loop over the statements, with those that wait.
unfoldable pub ranges_of : List Statement → List Statement → List (ℕ × ℕ)
ranges_of pending [] = pending_range pending
ranges_of pending (statement ∷ statements) = elim statement.is_definition [
  | true ↦ pending_range pending ++ statement_range statement ∷ ranges_of [] statements
  | false ↦ ranges_of (pending ++ statement ∷ []) statements
]

module _ (tools : Tools) where
  abbrev pub lines_of : String → ℕ → ℕ → String
  lines_of content start end =
      rstrip is_newline
        (concat (take (end - (start - 1)) (drop (start - 1) (split_keepends content))))

  unfoldable pub make_chunk : String → SourceFile → ℕ → ℕ × ℕ → ReviewChunk
  make_chunk review_id source index (start, end) = record {
    chunk_id = concat (
        review_id
        ∷ ":"
        ∷ source.file_id
        ∷ ":"
        ∷ tools.digits start
        ∷ "-"
        ∷ tools.digits end
        ∷ ":"
        ∷ tools.digits index
        ∷ []);
    review_id = review_id;
    language = Language.python;
    target_file_id = source.file_id;
    target_path = source.relative_path;
    target_start_line = start;
    target_end_line = end;
    target_code = lines_of source.content start end;
    content_fingerprint = tools.sha256 (
        concat (
          source.sha256
          ∷ ":"
          ∷ tools.digits start
          ∷ ":"
          ∷ tools.digits end
          ∷ ":"
          ∷ lines_of source.content start end
          ∷ []));
    context_references = [];
    prompt_tokens_estimate = 0;
    output_tokens_budget = 0;
    parent_chunk_id = none;
    split_depth = 0;
    attempt_count = 0;
    status = ChunkStatus.pending;
    error_code = none;
    error_message = none;
  }

  -- `enumerate`
  unfoldable pub chunk_ranges : String → SourceFile → ℕ → List (ℕ × ℕ) → List ReviewChunk
  chunk_ranges review_id source index [] = []
  chunk_ranges review_id source index (range ∷ ranges) =
      make_chunk review_id source index range ∷ chunk_ranges review_id source (index + 1) ranges

  abbrev pub split_parsed :
      String
      → SourceFile
      → Result (Option ℕ) (List Statement)
      → Result ReviewPlanningError (List ReviewChunk)
  split_parsed review_id source (err lineno) = err (record {
    code = "planning_error";
    file_id = some source.file_id;
    lines = or_else lineno 1 ∷ [];
    chunk_ids = [];
  })
  split_parsed review_id source (ok statements) =
      ok (chunk_ranges review_id source 0 (ranges_of [] statements))

  unfoldable pub split_python : String → SourceFile → Result ReviewPlanningError (List ReviewChunk)
  split_python review_id source = split_parsed review_id source (tools.parse source.content)

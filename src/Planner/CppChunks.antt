-- ===== src/Planner/CppChunks.antt =====
-- src/code_review/infrastructure/chunking/cpp_chunker.py, `CppSyntaxChunker.split`. The parser,
-- tree-sitter, is a parameter, and so are the length of a text in UTF-8 and the test of the ratio of
-- two numbers against the highest one allowed.
use Prim.Native.Char.{Char, code}
use code_astra.Base.{
  ℕ, ◌+◌, ◌-◌, max, String, Bool, not, ◌&&◌, ◌||◌, List, [], ◌∷◌, ◌++◌, none, some, ltb, leb, ◌==◌,
  nat_eq, if◌then◌else◌,
}
use code_astra.Base.Lists.{weigh}
use code_astra.Base.Result.{Result, ok, err}
use code_astra.Domain.Chunks.{Language, ReviewChunk, ChunkStatus}
use code_astra.Domain.Sources.{SourceFile, ReviewPlanningError}
use code_astra.Text.{concat, rstrip, is_newline, is_empty}
use code_astra.Planner.PythonChunks.{Tools}

-- What the chunker reads of a node of tree-sitter; `text` is what its bytes decode to.
pub record CppNode : Type 0 where
  pub is_error : Bool
  pub is_missing : Bool
  pub is_named : Bool
  pub start_byte : ℕ
  pub end_byte : ℕ
  pub start_row : ℕ
  pub end_row : ℕ
  pub end_column : ℕ
  pub text : String

-- A node with its children.
mutual
  pub data CppTree : Type 0 where
    tree : CppNode → CppTrees → CppTree

  pub data CppTrees : Type 0 where
    no_trees : CppTrees
    more_trees : CppTree → CppTrees → CppTrees

-- The root's `has_error` and its children. `exceeds error_bytes total` is
-- `min(1.0, error_bytes / total) > maximum_error_ratio`.
pub record CppParser : Type 0 where
  pub parse : String → CppTree
  pub has_error : String → Bool
  pub utf8_length : String → ℕ
  pub exceeds : ℕ → ℕ → Bool

-- `_error_byte_ranges`
unfoldable mutual
  pub error_byte_ranges : CppTree → List (ℕ × ℕ)
  error_byte_ranges (tree node children) =
      let rest = error_ranges_each children in
      if node.is_error
      then (node.start_byte, node.end_byte) ∷ []
      else if node.is_missing
      then (node.start_byte, node.end_byte) ∷ rest
      else rest

  pub error_ranges_each : CppTrees → List (ℕ × ℕ)
  error_ranges_each no_trees = []
  error_ranges_each (more_trees child children) =
      error_byte_ranges child ++ error_ranges_each children

abbrev pub error_bytes : List (ℕ × ℕ) → ℕ
error_bytes = weigh (λ range. max 1 (range.1 - range.0))

-- The white space that `bytes.strip` takes away.
abbrev pub is_byte_space : Char → Bool
is_byte_space c = code c == 32 || (leb 9 (code c) && leb (code c) 13)

-- `_has_content`
unfoldable pub has_content : CppNode → Bool
has_content node = not (is_empty (rstrip is_byte_space node.text))

unfoldable pub nodes_in : CppTrees → List CppNode
nodes_in no_trees = []
nodes_in (more_trees (tree node children) trees) =
    let rest = nodes_in trees in if node.is_named && has_content node then node ∷ rest else rest

abbrev pub nodes_of : CppTree → List CppNode
nodes_of (tree root children) = nodes_in children

-- The numbers of the first and the last line.
unfoldable pub node_range : CppNode → ℕ × ℕ
node_range node =
    let start = node.start_row + 1 in
    let end = node.end_row + 1 in
    (start, (if node.end_column == 0 && ltb start end then end - 1 else end))

module _ (tools : Tools) where
  -- `_chunk`, as `split` is called by the planner
  unfoldable pub cpp_chunk : String → SourceFile → ℕ → CppNode → ReviewChunk
  cpp_chunk review_id source index node =
      let (start, end) = node_range node in
      record {
        chunk_id = concat (
            review_id
            ∷ ":"
            ∷ source.file_id
            ∷ ":"
            ∷ tools.digits start
            ∷ "-"
            ∷ tools.digits end
            ∷ ":"
            ∷ tools.digits index
            ∷ []);
        review_id = review_id;
        language = Language.cpp;
        target_file_id = source.file_id;
        target_path = source.relative_path;
        target_start_line = start;
        target_end_line = end;
        target_code = rstrip is_newline node.text;
        content_fingerprint = tools.sha256 (
            concat (
              source.sha256
              ∷ ":"
              ∷ tools.digits start
              ∷ ":"
              ∷ tools.digits end
              ∷ ":"
              ∷ node.text
              ∷ []));
        context_references = [];
        prompt_tokens_estimate = 0;
        output_tokens_budget = 0;
        parent_chunk_id = none;
        split_depth = 0;
        attempt_count = 0;
        status = ChunkStatus.pending;
        error_code = none;
        error_message = none;
      }

  unfoldable pub cpp_chunks : String → SourceFile → ℕ → List CppNode → List ReviewChunk
  cpp_chunks review_id source index [] = []
  cpp_chunks review_id source index (node ∷ nodes) =
      cpp_chunk review_id source index node ∷ cpp_chunks review_id source (index + 1) nodes

  unfoldable pub split_cpp :
      CppParser → String → SourceFile → Result ReviewPlanningError (List ReviewChunk)
  split_cpp cpp review_id source =
      let parsed = cpp.parse source.content in
      if cpp.has_error source.content
        && cpp.exceeds (error_bytes (error_byte_ranges parsed))
            (max 1 (cpp.utf8_length source.content))
      then err (record {
        code = "planning_error";
        file_id = some source.file_id;
        lines = [];
        chunk_ids = [];
      })
      else ok (cpp_chunks review_id source 0 (nodes_of parsed))

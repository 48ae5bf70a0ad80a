-- ===== src/Domain/Sources.antt =====
-- src/code_review/domain/review_models.py, `SourceFile`, without its line offsets; a statement at the
-- top of a module as Python's `ast` gives it; and `ReviewPlanningError` of review_chunks.py.
use code_astra.Base.{ℕ, String, Bool, List, Option}
use code_astra.Domain.Chunks.{Language}

pub record SourceFile : Type 0 where
  pub file_id : String
  pub relative_path : String
  pub language : Language
  pub content : String
  pub sha256 : String

pub record Statement : Type 0 where
  pub is_definition : Bool
  pub lineno : ℕ
  pub end_lineno : Option ℕ
  pub decorator_linenos : List ℕ

-- Without its message.
pub record ReviewPlanningError : Type 0 where
  pub code : String
  pub file_id : Option String
  pub lines : List ℕ
  pub chunk_ids : List String

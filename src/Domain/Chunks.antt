-- ===== src/Domain/Chunks.antt =====
-- src/code_review/domain/review_chunks.py. Times are natural numbers (microseconds).
use code_astra.Base.{ℕ, String, Bool, true, false, List, Option}

pub data Language : Type 0 where
  python cpp : Language

pub data ChunkStatus : Type 0 where
  pending queued running validating completed failed cancelled superseded : ChunkStatus

pub data ChunkErrorCode : Type 0 where
  planning_error context_overflow model_error invalid_output validation_error : ChunkErrorCode
  cancelled local_model_connection_refused local_model_timeout : ChunkErrorCode
  local_model_circuit_open : ChunkErrorCode

pub record ContextReference : Type 0 where
  pub file_id : String
  pub path : String
  pub start_line : ℕ
  pub end_line : ℕ
  pub code : String
  pub reason : String
  pub rank : ℕ

pub record ReviewChunk : Type 0 where
  pub chunk_id : String
  pub review_id : String
  pub language : Language
  pub target_file_id : String
  pub target_path : String
  pub target_start_line : ℕ
  pub target_end_line : ℕ
  pub target_code : String
  pub content_fingerprint : String
  pub context_references : List ContextReference
  pub prompt_tokens_estimate : ℕ
  pub output_tokens_budget : ℕ
  pub parent_chunk_id : Option String
  pub split_depth : ℕ
  pub attempt_count : ℕ
  pub status : ChunkStatus
  pub error_code : Option ChunkErrorCode
  pub error_message : Option String

abbrev pub is_superseded : ChunkStatus → Bool
is_superseded ChunkStatus.superseded = true
is_superseded _ = false

abbrev pub is_completed : ChunkStatus → Bool
is_completed ChunkStatus.completed = true
is_completed _ = false

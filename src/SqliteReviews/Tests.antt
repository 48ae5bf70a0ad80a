-- ===== src/SqliteReviews/Tests.antt =====
-- The theorems on the store over SQLite at concrete inputs.
use code_astra.Base.{ℕ, String, ◌≡◌, List, [], ◌∷◌, none, some, string_eq}
use code_astra.Domain.Chunks.{ReviewChunk, ChunkStatus, Language}
use code_astra.ReviewStore
use code_astra.ReviewStore.{ReviewSession, ReviewStatus, RecheckStatus, ReviewEventType}
use code_astra.SqliteReviews
use code_astra.SqliteReviews.{Tables, row_of}
use code_astra.SqliteReviews.Clients.{Call, memory, sqlite, session_with}
use code_astra.SqliteReviews.Refinement.{stores_agree}
use code_astra.SqliteReviews.Recovery.{RecoverySpec, interrupted_chunks_wait_again}

abbrev review : String → ReviewSession String
review owner_id = record {
  review_id = "r1";
  owner_id = owner_id;
  status = ReviewStatus.reviewing;
  created_at = 1;
  expires_at = 9;
  title = none;
  recheck_attempt_id = some "a1";
  recheck_attempt_status = some RecheckStatus.running;
  rest = "files";
}

-- The second creation and the stranger's save are refused.
abbrev mixed_calls : List (Call String String)
mixed_calls =
    Call.creates (review "ann")
    ∷ Call.publishes "r1" "ann" ReviewEventType.stage "planning"
    ∷ Call.creates (review "bob")
    ∷ Call.saves (review "bob")
    ∷ Call.renames "r1" "ann" "First"
    ∷ Call.moves_recheck (review "ann") "a1" ReviewEventType.progress "half"
    ∷ Call.reads_events "r1" "ann" 1
    ∷ Call.reads "r1" "ann"
    ∷ Call.deletes "r1" "ann"
    ∷ Call.reads_events "r1" "ann" 0
    ∷ []

stores_agree_example :
    (session_with (sqlite {F = ℕ} {A = ℕ}) mixed_calls SqliteReviews.init).0
    ≡ (session_with (memory {F = ℕ} {A = ℕ}) mixed_calls ReviewStore.init).0
stores_agree_example = stores_agree ℕ ℕ mixed_calls

abbrev interrupted : ChunkStatus → String → String × ReviewChunk
interrupted status key = (
  key,
  record {
    chunk_id = key;
    review_id = "r1";
    language = Language.python;
    target_file_id = "f";
    target_path = "f.py";
    target_start_line = 1;
    target_end_line = 4;
    target_code = "y";
    content_fingerprint = "";
    context_references = [];
    prompt_tokens_estimate = 0;
    output_tokens_budget = 0;
    parent_chunk_id = none;
    split_depth = 0;
    attempt_count = 1;
    status = status;
    error_code = none;
    error_message = none;
  },
)

abbrev stopped : Tables String ℕ String ℕ
stopped = record SqliteReviews.init {
  review_sessions = ("r1", row_of (review "ann")) ∷ [];
  review_chunks =
      interrupted ChunkStatus.running "c1" ∷ interrupted ChunkStatus.completed "c2" ∷ [];
}

interrupted_chunks_wait_again_example : RecoverySpec stopped
interrupted_chunks_wait_again_example = interrupted_chunks_wait_again stopped

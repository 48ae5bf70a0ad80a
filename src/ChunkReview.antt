-- ===== src/ChunkReview.antt =====
-- src/code_review/application/chunk_review_service.py, `ChunkReviewService`. Between two of its calls
-- other tasks may do anything: what a call answers is any function of what has happened before,
-- newest first. A call that raises changes nothing. The clock and the counters are left out.
pub mod Errors
pub mod Execute
pub mod Stale
pub mod After
pub mod Settling
pub mod Calls
pub mod Returning
mod Tests
use code_astra.Base.{
  ℕ, ◌+◌, String, Bool, true, false, not, ◌&&◌, ◌||◌, List, [], ◌∷◌, map, Option, none, some, ltb,
  if◌then◌else◌,
}
use code_astra.Base.Lists.{length}
use code_astra.Base.Result.{Result, ok, err}
use code_astra.Domain.Chunks.{ReviewChunk, ChunkStatus, ChunkErrorCode}
use code_astra.Domain.Sources.{ReviewPlanningError}
use code_astra.Text.{concat}
use code_astra.ContextBudget.{Encoding, ContextBudgeter}
use code_astra.ChunkPrompt.{InferenceRequest, build}
use code_astra.Planner.PythonChunks.{Tools}
use code_astra.Planner.{split}
use code_astra.ChunkReview.Errors.{
  Failure, FailureKind, failed_planning, error_code, sanitize_error,
}

-- What a call comes to: `asyncio.CancelledError` is no `Exception`.
pub data Outcome (A : Type 0) : Type 0 where
  returns : A → Outcome A
  raises : Failure → Outcome A
  cancels : Outcome A

pub data Strategy : Type 0 where
  original trim_context : Strategy

-- The data of an event.
pub data ChunkNews : Type 0 where
  started : ℕ → Strategy → ChunkNews
  validates : ChunkNews
  completes : ℕ → ChunkNews
  fails : ChunkErrorCode → ChunkNews
  superseded_by : List String → ChunkNews

-- A `ChunkAttempt`, without its times.
pub record Attempt : Type 0 where
  pub attempt_id : String
  pub review_id : String
  pub chunk_id : String
  pub attempt_number : ℕ
  pub strategy : Strategy
  pub request_id : String
  pub output_tokens_budget : ℕ
  pub is_finished : Bool
  pub error_code : Option ChunkErrorCode
  pub error_message : Option String

-- What the service does to the store and the models, and what it was told of the recheck.
pub data Event (F : Type 0) : Type 0 where
  asked : Bool → Event F
  moved : ReviewChunk → ChunkNews → Event F
  attempted : Attempt → Event F
  called : InferenceRequest → Event F
  judged : F → Event F
  saved : String → List F → Event F
  replaced : ReviewChunk → List ReviewChunk → Event F
  published : String → ChunkNews → Event F

-- `confident` is `confidence >= 0.7`.
pub record Verdict : Type 0 where
  pub accepted : Bool
  pub confident : Bool

-- What the service is given and what its calls answer. `judge_calls` reads the count of the review,
-- which other chunks of the review move too.
pub record Surroundings (F X : Type 0) : Type 0 where
  pub recheck_attempt : Option String
  pub still_current : List (Event F) → Outcome Bool
  pub accepts : Event F → List (Event F) → Outcome (Unit {0})
  pub answers : InferenceRequest → List (Event F) → Outcome (List X)
  pub validates : X → Outcome (Option F)
  pub is_llm : F → Bool
  pub has_judge : Bool
  pub judge_calls : List (Event F) → ℕ
  pub judges : F → List (Event F) → Outcome Verdict
  pub new_id : List (Event F) → String
  pub max_split_depth : ℕ

-- A call, with what has happened.
abbrev pub Task : Type 0 → Type 0 → Type 0
Task F A = List (Event F) → Outcome A × List (Event F)

module _ {F : Type 0} where
  abbrev pub follow :
      {A B : Type 0} → (A → Task F B) → Outcome A × List (Event F) → Outcome B × List (Event F)
  follow f (returns a, log) = f a log
  follow f (raises e, log) = (raises e, log)
  follow f (cancels, log) = (cancels, log)

  infixl 5 ◌then◌
  abbrev pub ◌then◌ : {A B : Type 0} → Task F A → (A → Task F B) → Task F B
  (m then f) log = follow f (m log)

  abbrev pub handle :
      {A : Type 0} → (Failure → Task F A) → Outcome A × List (Event F) → Outcome A × List (Event F)
  handle h (returns a, log) = (returns a, log)
  handle h (raises e, log) = h e log
  handle h (cancels, log) = (cancels, log)

  -- `try` and `except Exception`
  abbrev pub try : {A : Type 0} → Task F A → (Failure → Task F A) → Task F A
  try m h log = handle h (m log)

  abbrev pub give : {A : Type 0} → A → Task F A
  give a log = (returns a, log)

  -- A call that is in the log once it has returned.
  abbrev pub note : {A : Type 0} → Event F → Outcome A → Task F A
  note event (returns a) log = (returns a, event ∷ log)
  note event (raises e) log = (raises e, log)
  note event cancels log = (cancels, log)

  -- A call of a model is in the log also where it fails.
  abbrev pub note_call : {A : Type 0} → Event F → Outcome A → Task F A
  note_call event outcome log = (outcome, event ∷ log)

-- ===== src/ChunkPrompt.antt =====
-- src/code_review/application/chunk_prompt.py, `ChunkPromptBuilder.build`. The schema of the answer,
-- which pydantic prints, and the encoding of texts are parameters.
use code_astra.Base.{if◌then◌else◌, leb, ◌&&◌, ℕ, String, List, [], ◌∷◌, map, none}
use code_astra.Base.Result.{Result, ok, err}
use code_astra.Domain.Chunks.{ReviewChunk, ContextReference}
use code_astra.Domain.Sources.{ReviewPlanningError}
use code_astra.Text.{concat}
use code_astra.ContextBudget.{Encoding, ContextBudgeter, BudgetDecision, BudgetAction, fit}

-- Of `InferenceRequest`, what a chunk determines; the message of the system is fixed, and so is the
-- temperature.
pub record InferenceRequest : Type 0 where
  pub user : String
  pub max_output_tokens : ℕ
  pub request_id : String
  pub model_profile_id : String

-- What `build` raises: its own error, or that of the request's fields.
pub data PromptError : Type 0 where
  planning_failure : ReviewPlanningError → PromptError
  validation_error : PromptError

-- `InferenceRequest(…)`, whose `max_output_tokens` is from 128 to 32768.
unfoldable pub inference_request :
    String → ℕ → String → String → Result PromptError InferenceRequest
inference_request user max_output_tokens request_id model_profile_id =
    if leb 128 max_output_tokens && leb max_output_tokens 32768
    then ok (record {
      user = user;
      max_output_tokens = max_output_tokens;
      request_id = request_id;
      model_profile_id = model_profile_id;
    })
    else err validation_error

-- `separator.join(texts)`
unfoldable pub join_with : String → List String → String
join_with separator [] = ""
join_with separator (text ∷ []) = text
join_with separator (text ∷ next ∷ texts) =
    concat (text ∷ separator ∷ join_with separator (next ∷ texts) ∷ [])

-- `text or default`
abbrev pub or_text : List ContextReference → String → String → String
or_text [] default text = default
or_text (_ ∷ _) default text = text

module _ (x : Encoding) (budgeter : ContextBudgeter) (schema : String) where
  unfoldable pub show_reference : ContextReference → String
  show_reference item = concat (
      "["
      ∷ item.path
      ∷ ":"
      ∷ x.digits item.start_line
      ∷ "-"
      ∷ x.digits item.end_line
      ∷ "]\n"
      ∷ item.code
      ∷ [])

  unfoldable pub user_message : ReviewChunk → BudgetDecision → String
  user_message chunk decision = concat (
      "TARGET_CODE ["
      ∷ chunk.target_path
      ∷ ":"
      ∷ x.digits chunk.target_start_line
      ∷ "-"
      ∷ x.digits chunk.target_end_line
      ∷ "]\n"
      ∷ decision.target_code
      ∷ "\n\nCONTEXT_REFERENCES\n"
      ∷ or_text decision.references "无" (join_with "\n\n" (map show_reference decision.references))
      ∷ "\n\nRESPONSE_SCHEMA\n"
      ∷ schema
      ∷ [])

  abbrev pub request_for :
      BudgetAction
      → ReviewChunk
      → String
      → String
      → BudgetDecision
      → Result PromptError InferenceRequest
  request_for BudgetAction.split_target chunk attempt_id model_profile_id decision = err (
      planning_failure (record {
        code = "context_overflow";
        file_id = none;
        lines = [];
        chunk_ids = chunk.chunk_id ∷ [];
      }))
  request_for _ chunk attempt_id model_profile_id decision =
      inference_request (user_message chunk decision) decision.output_tokens
        (concat (chunk.review_id ∷ ":" ∷ chunk.chunk_id ∷ ":" ∷ attempt_id ∷ [])) model_profile_id

  -- With the profile that `execute` sets.
  unfoldable pub build : ReviewChunk → String → String → Result PromptError InferenceRequest
  unfolding inference_request
  build chunk attempt_id model_profile_id =
      request_for (fit x budgeter chunk).action chunk attempt_id model_profile_id
        (fit x budgeter chunk)

-- ===== src/ChunkReview/Errors.antt =====
-- src/code_review/application/chunk_review_service.py, `_error_code` and `_sanitize_error`.
use code_astra.Base.{
  String, Bool, true, false, List, [], ◌∷◌, Option, none, some, ◌==◌, string_eq, if◌then◌else◌,
}
use code_astra.Domain.Chunks.{ChunkErrorCode}
use code_astra.Domain.Sources.{ReviewPlanningError}
use code_astra.Text.{concat}
use text.Mathlib.Text.{starts_with}
use code_astra.ChunkPrompt.{PromptError, planning_failure, validation_error}

-- The classes of exceptions that the codes tell apart; a `ReviewPlanningError` has a code.
pub data FailureKind : Type 0 where
  context_window_exceeded all_instances_unavailable timed_out connect_error any_other : FailureKind
  planning : String → FailureKind

-- An exception: its class, the name of its type, and the classes of its causes, up to the first that
-- has none or comes again.
pub record Failure : Type 0 where
  pub kind : FailureKind
  pub type_name : String
  pub causes : List FailureKind

abbrev pub failed_planning : ReviewPlanningError → Failure
failed_planning error = record {
  kind = FailureKind.planning error.code;
  type_name = "ReviewPlanningError";
  causes = [];
}

-- pydantic's error comes from none of the classes that are told apart.
abbrev pub failed_prompt : PromptError → Failure
failed_prompt (planning_failure error) = failed_planning error
failed_prompt validation_error = record {
  kind = FailureKind.any_other;
  type_name = "ValidationError";
  causes = [];
}

-- The loop over the error and its causes, for a local model.
unfoldable pub code_of_causes : List FailureKind → ChunkErrorCode
code_of_causes [] = ChunkErrorCode.model_error
code_of_causes (FailureKind.all_instances_unavailable ∷ causes) =
    ChunkErrorCode.local_model_circuit_open
code_of_causes (FailureKind.timed_out ∷ causes) = ChunkErrorCode.local_model_timeout
code_of_causes (FailureKind.connect_error ∷ causes) = ChunkErrorCode.local_model_connection_refused
code_of_causes (_ ∷ causes) = code_of_causes causes

abbrev pub code_of_chain : Bool → FailureKind → List FailureKind → ChunkErrorCode
code_of_chain is_local FailureKind.context_window_exceeded causes = ChunkErrorCode.context_overflow
code_of_chain is_local (FailureKind.planning code) causes =
    let rest = if is_local then code_of_causes causes else ChunkErrorCode.model_error in
    if code == "context_overflow" then ChunkErrorCode.context_overflow else rest
code_of_chain is_local kind causes =
    if is_local then code_of_causes (kind ∷ causes) else ChunkErrorCode.model_error

unfoldable pub error_code : Option Failure → String → ChunkErrorCode
error_code none model_profile_id = ChunkErrorCode.model_error
error_code (some error) model_profile_id =
    code_of_chain (starts_with model_profile_id "local-") error.kind error.causes

abbrev pub is_local_code : ChunkErrorCode → Bool
is_local_code ChunkErrorCode.local_model_connection_refused = true
is_local_code ChunkErrorCode.local_model_timeout = true
is_local_code ChunkErrorCode.local_model_circuit_open = true
is_local_code _ = false

abbrev pub message_of : Option Failure → String
message_of none = "模型审查失败。"
message_of (some error) = concat ("模型审查失败（" ∷ error.type_name ∷ "）。" ∷ [])

unfoldable pub sanitize_error : Option Failure → String → String
sanitize_error error model_profile_id =
    if is_local_code (error_code error model_profile_id)
    then "本地模型服务未运行或正在恢复。"
    else message_of error

-- ===== src/ChunkReview/Execute.antt =====
-- src/code_review/application/chunk_review_service.py, `ChunkReviewService.execute`.
use code_astra.Base.{
  ℕ, ◌+◌, String, Bool, true, false, ◌&&◌, List, [], ◌∷◌, map, Option, none, some, ltb,
  if◌then◌else◌,
}
use code_astra.Base.Lists.{length}
use code_astra.Base.Result.{Result, ok, err}
use code_astra.Domain.Chunks.{ReviewChunk, ChunkStatus}
use code_astra.Text.{concat}
use code_astra.ContextBudget.{Encoding, ContextBudgeter}
use code_astra.ChunkPrompt.{InferenceRequest, PromptError, build}
use code_astra.Planner.PythonChunks.{Tools}
use code_astra.Planner.{split}
use code_astra.ChunkReview.Errors.{Failure, failed_prompt, error_code, sanitize_error}
use code_astra.ChunkReview.{
  Outcome, returns, raises, cancels, Strategy, original, trim_context, started, validates,
  completes, fails, superseded_by, Attempt, Event, asked, moved, attempted, called, judged, saved,
  replaced, published, Verdict, Surroundings, Task, ◌then◌, try, give, note, note_call,
}

-- What the service's collaborators are made of.
pub record Parts : Type 0 where
  pub encoding : Encoding
  pub budgeter : ContextBudgeter
  pub schema : String
  pub tools : Tools

abbrev pub raise_planning : {F A : Type 0} → Result PromptError A → Task F A
raise_planning (ok a) log = (returns a, log)
raise_planning (err e) log = (raises (failed_prompt e), log)

abbrev pub working_chunk : Strategy → ReviewChunk → ReviewChunk
working_chunk original chunk = chunk
working_chunk trim_context chunk = record chunk { context_references = [] }

abbrev pub as_running : ℕ → ReviewChunk → ReviewChunk
as_running number chunk = record chunk {
  status = ChunkStatus.running;
  attempt_count = number;
  error_code = none;
  error_message = none;
}

module _ {F X : Type 0} (around : Surroundings F X) where
  abbrev pub require_current : Bool → Task F (Unit {0})
  require_current true log = (returns tt, log)
  require_current false log = (cancels, log)

  abbrev pub ask : Outcome Bool → Task F (Unit {0})
  ask (returns current) log = require_current current (asked current ∷ log)
  ask (raises e) log = (raises e, log)
  ask cancels log = (cancels, log)

  abbrev pub ensure_for : Option String → Task F (Unit {0})
  ensure_for none log = (returns tt, log)
  ensure_for (some attempt_id) log = ask (around.still_current log) log

  -- `_ensure_current_recheck`
  unfoldable pub ensure_current_recheck : Task F (Unit {0})
  ensure_current_recheck = ensure_for around.recheck_attempt

  -- A call of the store.
  unfoldable pub write : Event F → Task F (Unit {0})
  write event log = note event (around.accepts event log) log

  unfoldable pub review : InferenceRequest → Task F (List X)
  review request log = note_call (called request) (around.answers request log) log

  unfoldable pub verify : F → Task F Verdict
  verify finding log = note_call (judged finding) (around.judges finding log) log

  abbrev pub keep_if_sure : F → Verdict → List F
  keep_if_sure finding verdict = if verdict.accepted && verdict.confident then finding ∷ [] else []

  -- Is the judge asked about the finding?
  unfoldable pub is_judged : F → List (Event F) → Bool
  is_judged finding log =
      around.is_llm finding && around.has_judge && ltb (around.judge_calls log) 8

  abbrev pub judge_if : Bool → F → Task F (List F)
  judge_if false finding log = (returns (finding ∷ []), log)
  judge_if true finding log =
      (verify finding then (λ verdict. give (keep_if_sure finding verdict))) log

  -- What becomes of one draft: no finding or one.
  abbrev pub judge_finding : Option F → Task F (List F)
  judge_finding none log = (returns [], log)
  judge_finding (some finding) log = judge_if (is_judged finding log) finding log

  abbrev pub validate : X → Task F (Option F)
  validate draft log = (around.validates draft, log)

  -- The loop over `response.findings`.
  unfoldable pub check_drafts : List X → Task F (List F)
  check_drafts [] = give []
  check_drafts (draft ∷ drafts) = validate draft then judge_finding then λ kept.
      check_drafts drafts then λ findings. give (mathlib.Core.List.◌++◌ kept findings)

  module _ (parts : Parts) (chunk : ReviewChunk) (model_profile_id : String) where
    -- The writes that complete the chunk.
    unfoldable pub save_review :
        ReviewChunk → Attempt → InferenceRequest → List F → Task F (Unit {0})
    save_review running attempt request findings = write (saved chunk.chunk_id findings) then λ _.
        write (
          attempted (record attempt {
            output_tokens_budget = request.max_output_tokens;
            is_finished = true;
          }))
        then λ _. write (
            moved
              (record running {
                status = ChunkStatus.completed;
                error_code = none;
                error_message = none;
              })
              (completes (length findings)))

    -- From the model's answer on.
    unfoldable pub validate_answer :
        ReviewChunk → Attempt → InferenceRequest → List X → Task F (Unit {0})
    validate_answer running attempt request drafts = ensure_current_recheck then λ _.
        write (moved (record running { status = ChunkStatus.validating }) validates) then λ _.
        check_drafts drafts then λ findings.
        ensure_current_recheck then λ _. save_review running attempt request findings

    -- The body of `try`.
    unfoldable pub review_chunk : ReviewChunk → Attempt → Task F (Unit {0})
    review_chunk running attempt =
        raise_planning (
          build parts.encoding parts.budgeter parts.schema running attempt.attempt_id
            model_profile_id)
        then λ request. review request then λ drafts. validate_answer running attempt request drafts

    -- The body of `except Exception`.
    unfoldable pub record_failure : Attempt → Failure → Task F (Option Failure)
    record_failure attempt error = ensure_current_recheck then λ _.
        write (
          attempted (record attempt {
            is_finished = true;
            error_code = some (error_code (some error) model_profile_id);
            error_message = some (sanitize_error (some error) model_profile_id);
          }))
        then λ _. give (some error)

    abbrev pub new_attempt : ℕ → Strategy → String → Attempt
    new_attempt number strategy attempt_id = record {
      attempt_id = attempt_id;
      review_id = chunk.review_id;
      chunk_id = chunk.chunk_id;
      attempt_number = number;
      strategy = strategy;
      request_id = concat (chunk.review_id ∷ ":" ∷ chunk.chunk_id ∷ ":" ∷ attempt_id ∷ []);
      output_tokens_budget = 0;
      is_finished = false;
      error_code = none;
      error_message = none;
    }

    abbrev pub draw_id : Task F String
    draw_id log = (returns (concat ("attempt-" ∷ around.new_id log ∷ [])), log)

    abbrev pub make_attempt : ReviewChunk → Attempt → Task F (Option Failure)
    make_attempt running attempt = write (attempted attempt) then λ _.
        try (review_chunk running attempt then λ _. give none) (record_failure attempt)

    -- One pass of the loop over the strategies: `none` where the chunk is completed.
    unfoldable pub attempt_strategy : ℕ → Strategy → Task F (Option Failure)
    attempt_strategy number strategy = ensure_current_recheck then λ _.
        write (moved (as_running number (working_chunk strategy chunk)) (started number strategy))
        then λ _. draw_id then λ attempt_id.
            make_attempt (as_running number (working_chunk strategy chunk))
              (new_attempt number strategy attempt_id)

    unfoldable pub fail_chunk : Option Failure → Task F (List ReviewChunk)
    fail_chunk last_error = ensure_current_recheck then λ _.
        write (
          moved
            (record chunk {
              status = ChunkStatus.failed;
              attempt_count = 2;
              error_code = some (error_code last_error model_profile_id);
              error_message = some (sanitize_error last_error model_profile_id);
            })
            (fails (error_code last_error model_profile_id)))
        then λ _. give []

    abbrev pub replace_or_fail : Option Failure → List ReviewChunk → Task F (List ReviewChunk)
    replace_or_fail last_error [] = fail_chunk last_error
    replace_or_fail last_error (child ∷ children) =
        write (replaced chunk (child ∷ children)) then λ _.
        write (
          published chunk.review_id
            (superseded_by (map (λ (item : ReviewChunk). item.chunk_id) (child ∷ children))))
        then λ _. give (child ∷ children)

    -- After the loop.
    unfoldable pub split_or_fail : Option Failure → Task F (List ReviewChunk)
    split_or_fail last_error =
        if ltb chunk.split_depth around.max_split_depth
        then (ensure_current_recheck then λ _. replace_or_fail last_error (split parts.tools chunk))
        else fail_chunk last_error

    abbrev pub unless_done :
        (Option Failure → Task F (List ReviewChunk)) → Option Failure → Task F (List ReviewChunk)
    unless_done next none = give []
    unless_done next (some error) = next (some error)

    -- The loop over the strategies, from a number on.
    unfoldable pub run_strategies : ℕ → List Strategy → Option Failure → Task F (List ReviewChunk)
    run_strategies number [] last_error = split_or_fail last_error
    run_strategies number (strategy ∷ strategies) last_error =
        attempt_strategy number strategy then unless_done (run_strategies (number + 1) strategies)

    unfoldable pub execute : Task F (List ReviewChunk)
    execute = run_strategies 1 (original ∷ trim_context ∷ []) none

-- ===== src/ChunkReview/Settling.antt =====
-- In what an execution that returns has ended.
use code_astra.Base.{
  ℕ, ◌+◌, ◌<◌, String, true, not, List, [], ◌∷◌, map, Option, none, some, ltb, if◌then◌else◌, ◌≡◌,
  ◌⊎◌, refl, arith, Bool-cases, inl, inr,
}
use code_astra.Base.Lists.{length}
use code_astra.Domain.Chunks.{ReviewChunk, ChunkStatus, ChunkErrorCode}
use code_astra.ChunkPrompt.{InferenceRequest, build}
use code_astra.Planner.PythonChunks.{Tools}
use code_astra.Planner.{split}
use code_astra.ChunkReview.Errors.{Failure, error_code, sanitize_error}
use code_astra.ChunkReview.{
  Strategy, original, trim_context, started, validates, completes, fails, superseded_by, Attempt,
  Event, moved, attempted, saved, replaced, published, Surroundings, ◌then◌, give,
}
use code_astra.ChunkReview.Execute.{
  Parts, raise_planning, ensure_current_recheck, write, review, check_drafts, working_chunk,
  as_running, review_chunk, validate_answer, save_review, record_failure, new_attempt, draw_id,
  make_attempt, attempt_strategy, fail_chunk, replace_or_fail, split_or_fail, unless_done,
  run_strategies, execute,
}
use code_astra.ChunkReview.After.{
  WhenReturned, after_then, after_knowing, after_try, after_write, last_write,
}

-- The findings are saved, then the attempt, and last the chunk, as completed.
pub record IsCompleted {F : Type 0} (chunk : ReviewChunk) (log : List (Event F)) : Type 0 where
  pub item : ReviewChunk
  pub attempt : Attempt
  pub findings : List F
  pub before : List (Event F)
  pub log_is :
      log
      ≡ moved item (completes (length findings))
        ∷ attempted attempt
        ∷ saved chunk.chunk_id findings
        ∷ before
  pub chunk_id : item.chunk_id ≡ chunk.chunk_id
  pub status : item.status ≡ ChunkStatus.completed
  pub finished : attempt.is_finished ≡ true

-- The chunk is last written as failed, with the code that is published.
pub record IsFailed {F : Type 0} (chunk : ReviewChunk) (log : List (Event F)) : Type 0 where
  pub item : ReviewChunk
  pub code : ChunkErrorCode
  pub before : List (Event F)
  pub log_is : log ≡ moved item (fails code) ∷ before
  pub chunk_id : item.chunk_id ≡ chunk.chunk_id
  pub status : item.status ≡ ChunkStatus.failed
  pub error : item.error_code ≡ some code

-- The chunk is replaced by the children, which dividing it gives, and that is published.
pub record IsDivided {F : Type 0} (tools : Tools) (max_depth : ℕ) (chunk : ReviewChunk)
    (children : List ReviewChunk) (log : List (Event F)) : Type 0 where
  pub before : List (Event F)
  pub log_is :
      log
      ≡ published chunk.review_id
          (superseded_by (map (λ (item : ReviewChunk). item.chunk_id) children))
        ∷ replaced chunk children
        ∷ before
  pub children_are : children ≡ split tools chunk
  pub may_divide : chunk.split_depth < max_depth

abbrev pub Settled :
    {F : Type 0} → Tools → ℕ → ReviewChunk → List ReviewChunk → List (Event F) → Type 0
Settled tools max_depth chunk [] log = IsCompleted chunk log ⊎ IsFailed chunk log
Settled tools max_depth chunk (child ∷ children) log =
    IsDivided tools max_depth chunk (child ∷ children) log

module _ {F X : Type 0} (around : Surroundings F X) where
  module _ (parts : Parts) (chunk : ReviewChunk) (profile : String) where
    module _ (running : ReviewChunk) (attempt : Attempt)
        (same : running.chunk_id ≡ chunk.chunk_id) where
      completed_lem :
          (request : InferenceRequest) (findings : List F) (log : List (Event F))
          → IsCompleted chunk (
              moved
                (record running {
                  status = ChunkStatus.completed;
                  error_code = none;
                  error_message = none;
                })
                (completes (length findings))
              ∷ attempted (record attempt {
                output_tokens_budget = request.max_output_tokens;
                is_finished = true;
              })
              ∷ saved chunk.chunk_id findings
              ∷ log)
      completed_lem request findings log = record {
        item = record running {
          status = ChunkStatus.completed;
          error_code = none;
          error_message = none;
        };
        attempt = record attempt {
          output_tokens_budget = request.max_output_tokens;
          is_finished = true;
        };
        findings = findings;
        before = log;
        log_is = refl;
        chunk_id = same;
        status = refl;
        finished = refl;
      }

      abbrev Done : Unit {0} → List (Event F) → Type 0
      Done _ log = IsCompleted chunk log

      save-IsCompleted :
          (request : InferenceRequest) (findings : List F) (log : List (Event F))
          → WhenReturned Done
              (save_review around parts chunk profile running attempt request findings log)
      unfolding save_review
      save-IsCompleted request findings log =
          after_write around Done (saved chunk.chunk_id findings) _ log (
            after_write around Done
              (attempted (record attempt {
                output_tokens_budget = request.max_output_tokens;
                is_finished = true;
              }))
              (λ _. write around (
                moved
                  (record running {
                    status = ChunkStatus.completed;
                    error_code = none;
                    error_message = none;
                  })
                  (completes (length findings))))
              (saved chunk.chunk_id findings ∷ log)
              (last_write around Done _ _ (completed_lem request findings log)))

      answer-IsCompleted :
          (request : InferenceRequest) (drafts : List X) (log : List (Event F))
          → WhenReturned Done
              (validate_answer around parts chunk profile running attempt request drafts log)
      unfolding validate_answer
      answer-IsCompleted request drafts = after_then Done (ensure_current_recheck around) _ (λ _.
          after_then Done
            (write around (moved (record running { status = ChunkStatus.validating }) validates)) _
            (λ _. after_then Done (check_drafts around drafts) _ (λ findings.
              after_then Done (ensure_current_recheck around)
                (λ _. save_review around parts chunk profile running attempt request findings)
                (λ _. save-IsCompleted request findings))))

      review-IsCompleted :
          (log : List (Event F))
          → WhenReturned Done (review_chunk around parts chunk profile running attempt log)
      unfolding review_chunk
      review-IsCompleted =
          after_then Done
            (raise_planning
              (build parts.encoding parts.budgeter parts.schema running attempt.attempt_id profile))
            _
            (λ request.
              after_then Done (review around request)
                (λ drafts.
                  validate_answer around parts chunk profile running attempt request drafts)
                (λ drafts. answer-IsCompleted request drafts))

      -- `none` is given only where the chunk is completed.
      abbrev DoneIfNone : Option Failure → List (Event F) → Type 0
      DoneIfNone none log = IsCompleted chunk log
      DoneIfNone (some e) log = Unit

      made-DoneIfNone :
          (log : List (Event F))
          → WhenReturned DoneIfNone (make_attempt around parts chunk profile running attempt log)
      unfolding record_failure
      made-DoneIfNone = after_then DoneIfNone (write around (attempted attempt)) _ (λ _.
          after_try DoneIfNone
            (review_chunk around parts chunk profile running attempt then λ _. give none)
            (record_failure around parts chunk profile attempt)
            (after_knowing Done DoneIfNone (review_chunk around parts chunk profile running attempt)
              (λ _. give none) review-IsCompleted (λ _ log h. h))
            (λ e. after_then DoneIfNone (ensure_current_recheck around) _ (λ _.
              after_then DoneIfNone
                (write around (
                  attempted (record attempt {
                    is_finished = true;
                    error_code = some (error_code (some e) profile);
                    error_message = some (sanitize_error (some e) profile);
                  })))
                (λ _. give (some e)) (λ _ log. tt))))

    same_id :
        (number : ℕ) (strategy : Strategy)
        → (as_running number (working_chunk strategy chunk)).chunk_id ≡ chunk.chunk_id
    same_id number original = refl
    same_id number trim_context = refl

    abbrev CompletedIfNone : Option Failure → List (Event F) → Type 0
    CompletedIfNone none log = IsCompleted chunk log
    CompletedIfNone (some e) log = Unit

    attempt-CompletedIfNone :
        (number : ℕ) (strategy : Strategy) (log : List (Event F))
        → WhenReturned CompletedIfNone
            (attempt_strategy around parts chunk profile number strategy log)
    unfolding attempt_strategy
    attempt-CompletedIfNone number strategy =
        after_then CompletedIfNone (ensure_current_recheck around) _ (λ _.
          after_then CompletedIfNone
            (write around
              (moved (as_running number (working_chunk strategy chunk)) (started number strategy)))
            _
            (λ _.
              after_then CompletedIfNone (draw_id around parts chunk profile)
                (λ attempt_id.
                  make_attempt around parts chunk profile
                    (as_running number (working_chunk strategy chunk))
                    (new_attempt around parts chunk profile number strategy attempt_id))
                (λ attempt_id.
                  made-DoneIfNone (as_running number (working_chunk strategy chunk))
                    (new_attempt around parts chunk profile number strategy attempt_id)
                    (same_id number strategy))))

    abbrev End : List ReviewChunk → List (Event F) → Type 0
    End = Settled parts.tools around.max_split_depth chunk

    fail-Settled :
        (error : Option Failure) (log : List (Event F))
        → WhenReturned End (fail_chunk around parts chunk profile error log)
    unfolding fail_chunk
    fail-Settled error = after_then End (ensure_current_recheck around) _ (λ _ log.
        after_write around End _ _ log (
          inr (record {
            item = record chunk {
              status = ChunkStatus.failed;
              attempt_count = 2;
              error_code = some (error_code error profile);
              error_message = some (sanitize_error error profile);
            };
            code = error_code error profile;
            before = log;
            log_is = refl;
            chunk_id = refl;
            status = refl;
            error = refl;
          })))

    replace-Settled :
        (error : Option Failure) (children : List ReviewChunk)
        → children ≡ split parts.tools chunk
        → chunk.split_depth < around.max_split_depth
        → (log : List (Event F))
        → WhenReturned End (replace_or_fail around parts chunk profile error children log)
    replace-Settled error [] e may log = fail-Settled error log
    replace-Settled error (child ∷ children) e may log =
        after_write around End (replaced chunk (child ∷ children)) _ log (
          after_write around End
            (published chunk.review_id
              (superseded_by (map (λ (item : ReviewChunk). item.chunk_id) (child ∷ children))))
            (λ _. give (child ∷ children)) (replaced chunk (child ∷ children) ∷ log)
            (record { before = log; log_is = refl; children_are = e; may_divide = may }))

    split-Settled :
        (error : Option Failure) (log : List (Event F))
        → WhenReturned End (split_or_fail around parts chunk profile error log)
    unfolding split_or_fail
    split-Settled error log = elim (Bool-cases (ltb chunk.split_depth around.max_split_depth)) [
      | inl may ↦ rw may (
          after_then End (ensure_current_recheck around)
            (λ _. replace_or_fail around parts chunk profile error (split parts.tools chunk))
            (λ _. replace-Settled error (split parts.tools chunk) refl (ground arith)) log)
      | inr not ↦ rw not (fail-Settled error log)
    ]

    run-Settled :
        (number : ℕ) (strategies : List Strategy) (error : Option Failure) (log : List (Event F))
        → WhenReturned End (run_strategies around parts chunk profile number strategies error log)
    unfolding run_strategies
    run-Settled number [] error = split-Settled error
    run-Settled number (strategy ∷ strategies) error =
        after_knowing CompletedIfNone End
          (attempt_strategy around parts chunk profile number strategy) _
          (attempt-CompletedIfNone number strategy)
          (λ r. next r (run-Settled (number + 1) strategies))
      where
        next :
            (r : Option Failure)
            → ((e : Option Failure) (log : List (Event F))
                → WhenReturned End
                    (run_strategies around parts chunk profile (number + 1) strategies e log))
            → (log : List (Event F)) → CompletedIfNone r log
            → WhenReturned End (
                unless_done around parts chunk profile
                  (run_strategies around parts chunk profile (number + 1) strategies)
                  r
                  log)
        next none h log done = inl done
        next (some e) h log done = h (some e) log

-- Whatever the store, the model and the judge answer: if an execution returns no children, then the
-- last it did was to save findings for the chunk, a finished attempt and the chunk as completed, or to
-- write the chunk as failed with the code that it published; if it returns children, they are what
-- dividing the chunk gives, the chunk's depth is below the limit, and the last it did was to replace
-- the chunk by them and to publish that.
pub execution_settles :
    {F X : Type 0} (around : Surroundings F X) (parts : Parts) (chunk : ReviewChunk)
    (model_profile_id : String)
    → WhenReturned
        (Settled parts.tools around.max_split_depth chunk)
        (execute around parts chunk model_profile_id [])
unfolding execute
execution_settles around parts chunk model_profile_id =
    run-Settled around parts chunk model_profile_id 1 (original ∷ trim_context ∷ []) none []

-- ===== src/ChunkReview/Calls.antt =====
-- How often an execution calls the inference service.
use code_astra.Base.{
  ℕ, ◌+◌, ◌≤◌, String, Bool, true, false, List, [], ◌∷◌, Option, none, some, ltb, if◌then◌else◌,
  ◌≡◌, refl, arith,
}
use code_astra.Base.Lists.{length, weigh}
use code_astra.Base.Result.{Result, ok, err}
use code_astra.Domain.Chunks.{ReviewChunk}
use code_astra.ChunkPrompt.{PromptError, InferenceRequest, build}
use code_astra.Planner.{split}
use code_astra.ChunkReview.Errors.{Failure}
use code_astra.ChunkReview.{
  Outcome, returns, raises, cancels, Strategy, original, trim_context, Attempt, Event, attempted,
  called, judged, Verdict, Surroundings, Task, follow, handle, ◌then◌, try, give, note, note_call,
}
use code_astra.ChunkReview.Execute.{
  Parts, raise_planning, ask, ensure_for, ensure_current_recheck, write, review, verify,
  keep_if_sure, is_judged, judge_if, judge_finding, validate, check_drafts, working_chunk,
  as_running, review_chunk, validate_answer, save_review, record_failure, new_attempt, draw_id,
  make_attempt, attempt_strategy, fail_chunk, replace_or_fail, split_or_fail, unless_done,
  run_strategies, execute,
}

abbrev pub is_call : {F : Type 0} → Event F → ℕ
is_call (called request) = 1
is_call _ = 0

-- The calls of the model that a log holds.
abbrev pub count_calls : {F : Type 0} → List (Event F) → ℕ
count_calls {F} log = weigh (λ (event : Event F). is_call event) log

abbrev Within : {F A : Type 0} → ℕ → Task F A → Type 0
Within {F} n m = (log : List (Event F)) → count_calls (m log).1 ≤ count_calls log + n

module _ {F : Type 0} where
  Within-then :
      {A B : Type 0} (n k : ℕ) (m : Task F A) (f : A → Task F B)
      → Within n m
      → ((a : A) → Within k (f a))
      → Within (n + k) (m then f)
  Within-then {A} {B} n k m f h g log = go (m log) (h log)
    where
      go :
          (r : Outcome A × List (Event F))
          → count_calls r.1 ≤ count_calls log + n
          → count_calls (follow f r).1 ≤ count_calls log + (n + k)
      go (returns a, log') le = omega (arith, g a log', le)
      go (raises e, log') le = omega (arith, le)
      go (cancels, log') le = omega (arith, le)

  Within-try :
      {A : Type 0} (n : ℕ) (m : Task F A) (f : Failure → Task F A)
      → Within n m
      → ((e : Failure) → Within 0 (f e))
      → Within n (try m f)
  Within-try {A} n m f h g log = go (m log) (h log)
    where
      go :
          (r : Outcome A × List (Event F))
          → count_calls r.1 ≤ count_calls log + n
          → count_calls (handle f r).1 ≤ count_calls log + n
      go (returns a, log') le = le
      go (raises e, log') le = omega (arith, g e log', le)
      go (cancels, log') le = le

module _ {F X : Type 0} (around : Surroundings F X) where
  Within-write : (event : Event F) → is_call event ≡ 0 → Within 0 (write around event)
  unfolding write
  Within-write event h log = go (around.accepts event log)
    where
      go : (o : Outcome (Unit {0})) → count_calls (note event o log).1 ≤ count_calls log + 0
      go (returns a) = omega (arith, h)
      go (raises e) = omega arith
      go cancels = omega arith

  Within-write_next :
      {B : Type 0} (n : ℕ) (event : Event F) (f : Unit {0} → Task F B)
      → is_call event ≡ 0
      → Within n (f tt)
      → Within n (write around event then f)
  Within-write_next n event f h k log =
      omega (arith, Within-then 0 n (write around event) f (Within-write event h) (λ _. k) log)

  Within-ensure : Within 0 (ensure_current_recheck around)
  unfolding ensure_current_recheck
  Within-ensure log = go around.recheck_attempt
    where
      answered : (o : Outcome Bool) → count_calls (ask around o log).1 ≤ count_calls log + 0
      answered (returns true) = omega arith
      answered (returns false) = omega arith
      answered (raises e) = omega arith
      answered cancels = omega arith

      go : (o : Option String) → count_calls (ensure_for around o log).1 ≤ count_calls log + 0
      go none = omega arith
      go (some attempt_id) = answered (around.still_current log)

  Within-ensure_next :
      {B : Type 0} (n : ℕ) (f : Unit {0} → Task F B)
      → Within n (f tt)
      → Within n (ensure_current_recheck around then f)
  Within-ensure_next n f k log =
      omega (arith, Within-then 0 n (ensure_current_recheck around) f Within-ensure (λ _. k) log)

  Within-judge : (o : Option F) → Within 0 (judge_finding around o)
  unfolding verify
  Within-judge none log = omega arith
  Within-judge (some finding) log = go (is_judged around finding log)
    where
      judged_lem :
          (o : Outcome Verdict)
          → count_calls
              (follow
                (λ (verdict : Verdict). give (keep_if_sure around finding verdict))
                (note_call (judged finding) o log)).1
            ≤ count_calls log + 0
      judged_lem (returns v) = omega arith
      judged_lem (raises e) = omega arith
      judged_lem cancels = omega arith

      go : (b : Bool) → count_calls (judge_if around b finding log).1 ≤ count_calls log + 0
      go false = omega arith
      go true = judged_lem (around.judges finding log)

  Within-drafts : (drafts : List X) → Within 0 (check_drafts around drafts)
  unfolding check_drafts
  Within-drafts [] = λ log. omega arith
  Within-drafts (draft ∷ drafts) =
      Within-then 0 0 _ _
        (Within-then 0 0 (validate around draft) (judge_finding around) (λ log. omega arith)
          Within-judge)
        (λ kept.
          Within-then 0 0 (check_drafts around drafts) _ (Within-drafts drafts)
            (λ findings log. omega arith))

  called-le : (request : InferenceRequest) → Within 1 (review around request)
  unfolding review
  called-le request log = omega arith

  module _ (parts : Parts) (chunk : ReviewChunk) (profile : String) where
    Within-review :
        (running : ReviewChunk) (attempt : Attempt)
        → Within 1 (review_chunk around parts chunk profile running attempt)
    unfolding review_chunk validate_answer save_review
    Within-review running attempt =
        Within-then 0 1 _ _
          (planned
            (build parts.encoding parts.budgeter parts.schema running attempt.attempt_id profile))
          (λ request. Within-then 1 0 (review around request) _ (called-le request) (λ drafts.
            Within-ensure_next 0 _ (
              Within-write_next 0 _ _ refl (
                Within-then 0 0 _ _ (Within-drafts drafts) (λ findings. Within-ensure_next 0 _ (
                  Within-write_next 0 _ _ refl
                    (Within-write_next 0 _ _ refl (Within-write _ refl))))))))
      where
        planned : (r : Result PromptError InferenceRequest) → Within 0 (raise_planning {F = F} r)
        planned (ok a) log = omega arith
        planned (err e) log = omega arith

    Within-failure :
        (attempt : Attempt) (error : Failure)
        → Within 0 (record_failure around parts chunk profile attempt error)
    unfolding record_failure
    Within-failure attempt error =
        Within-ensure_next 0 _ (Within-write_next 0 _ _ refl (λ log. omega arith))

    Within-made :
        (running : ReviewChunk) (attempt : Attempt)
        → Within 1 (make_attempt around parts chunk profile running attempt)
    Within-made running attempt = Within-write_next 1 (attempted attempt) _ refl (
        Within-try 1 (review_chunk around parts chunk profile running attempt then λ _. give none)
          (record_failure around parts chunk profile attempt)
          (Within-then 1 0 (review_chunk around parts chunk profile running attempt)
            (λ _. give none) (Within-review running attempt) (λ _ log. omega arith))
          (Within-failure attempt))

    Within-attempt :
        (number : ℕ) (strategy : Strategy)
        → Within 1 (attempt_strategy around parts chunk profile number strategy)
    unfolding attempt_strategy
    Within-attempt number strategy = Within-ensure_next 1 _ (
        Within-write_next 1 _ _ refl (
          Within-then 0 1 (draw_id around parts chunk profile)
            (λ attempt_id.
              make_attempt around parts chunk profile
                (as_running number (working_chunk strategy chunk))
                (new_attempt around parts chunk profile number strategy attempt_id))
            (λ log. omega arith) (λ attempt_id. Within-made _ _)))

    Within-fail : (error : Option Failure) → Within 0 (fail_chunk around parts chunk profile error)
    unfolding fail_chunk
    Within-fail error = Within-ensure_next 0 _ (Within-write_next 0 _ _ refl (λ log. omega arith))

    Within-replace :
        (error : Option Failure) (children : List ReviewChunk)
        → Within 0 (replace_or_fail around parts chunk profile error children)
    Within-replace error [] = Within-fail error
    Within-replace error (child ∷ children) =
        Within-write_next 0 _ _ refl (Within-write_next 0 _ _ refl (λ log. omega arith))

    Within-split :
        (error : Option Failure) → Within 0 (split_or_fail around parts chunk profile error)
    unfolding split_or_fail
    Within-split error log = go (ltb chunk.split_depth around.max_split_depth)
      where
        go :
            (b : Bool)
            → count_calls
                ((if b
                    then (ensure_current_recheck around then λ _.
                        replace_or_fail around parts chunk profile error (split parts.tools chunk))
                    else fail_chunk around parts chunk profile error)
                  log).1
              ≤ count_calls log + 0
        go true = Within-ensure_next 0 _ (Within-replace error (split parts.tools chunk)) log
        go false = Within-fail error log

    Within-run :
        (number : ℕ) (strategies : List Strategy) (error : Option Failure)
        → Within
            (length strategies)
            (run_strategies around parts chunk profile number strategies error)
    unfolding run_strategies
    Within-run number [] error log = Within-split error log
    Within-run number (strategy ∷ strategies) error log = omega (
      arith,
      Within-then 1 (length strategies)
          (attempt_strategy around parts chunk profile number strategy)
          (unless_done around parts chunk profile
            (run_strategies around parts chunk profile (number + 1) strategies))
          (Within-attempt number strategy) (λ r. next r (Within-run (number + 1) strategies)) log,
    )
      where
        next :
            (r : Option Failure)
            → ((e : Option Failure)
                → Within
                    (length strategies)
                    (run_strategies around parts chunk profile (number + 1) strategies e))
            → Within (length strategies) (
                unless_done around parts chunk profile
                  (run_strategies around parts chunk profile (number + 1) strategies)
                  r)
        next none h = λ log. omega arith
        next (some error) h = h (some error)

-- Whatever the store, the inference service and the judge answer, an execution calls `review` of the
-- inference service twice at most. The requests that the service itself sends to a model, in its own
-- retries, are not counted.
pub at_most_two_calls :
    {F X : Type 0} (around : Surroundings F X) (parts : Parts) (chunk : ReviewChunk)
    (model_profile_id : String)
    → count_calls (execute around parts chunk model_profile_id []).1 ≤ 2
unfolding execute
at_most_two_calls around parts chunk model_profile_id =
    omega (
      arith,
      Within-run around parts chunk model_profile_id 1 (original ∷ trim_context ∷ []) none [],
    )

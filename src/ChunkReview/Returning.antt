-- ===== src/ChunkReview/Returning.antt =====
-- When an execution returns.
use code_astra.Base.{
  ℕ, ◌+◌, String, Bool, true, false, List, [], ◌∷◌, Option, none, some, ltb, if◌then◌else◌, ◌≡◌,
}
use code_astra.Base.Result.{Result, ok, err}
use code_astra.Domain.Chunks.{ReviewChunk}
use code_astra.ChunkPrompt.{PromptError, InferenceRequest, build}
use code_astra.Planner.{split}
use code_astra.ChunkReview.Errors.{Failure}
use code_astra.ChunkReview.{
  Outcome, returns, raises, cancels, Strategy, original, trim_context, Attempt, Event, attempted,
  called, judged, Verdict, Surroundings, Task, follow, handle, ◌then◌, try, give, note_call,
}
use code_astra.ChunkReview.Execute.{
  Parts, raise_planning, ensure_for, ensure_current_recheck, write, review, verify, keep_if_sure,
  is_judged, judge_if, judge_finding, validate, check_drafts, working_chunk, as_running,
  review_chunk, validate_answer, save_review, record_failure, new_attempt, draw_id, make_attempt,
  attempt_strategy, fail_chunk, replace_or_fail, split_or_fail, unless_done, run_strategies,
  execute,
}

-- The call is not cancelled, and where `strict` does not raise.
abbrev Calm : {F A : Type 0} → Bool → Outcome A × List (Event F) → Type 0
Calm strict (returns a, log) = Unit
Calm true (raises e, log) = ⊥
Calm false (raises e, log) = Unit
Calm strict (cancels, log) = ⊥

abbrev IsCalm : {F A : Type 0} → Bool → Task F A → Type 0
IsCalm {F} strict m = (log : List (Event F)) → Calm strict (m log)

-- The outcome is that a value is returned.
abbrev pub HasReturned : {A : Type 0} → Outcome A → Type 0
HasReturned (returns a) = Unit
HasReturned (raises e) = ⊥
HasReturned cancels = ⊥

abbrev pub IsNotCancelled : {A : Type 0} → Outcome A → Type 0
IsNotCancelled (returns a) = Unit
IsNotCancelled (raises e) = Unit
IsNotCancelled cancels = ⊥

-- The store takes every write, the recheck stays current, and no call of a model is cancelled.
pub record AllGoesWell {F X : Type 0} (around : Surroundings F X) : Type 0 where
  pub current : (log : List (Event F)) → around.still_current log ≡ returns true
  pub accepts : (event : Event F) (log : List (Event F)) → around.accepts event log ≡ returns tt
  pub answers :
      (request : InferenceRequest) (log : List (Event F))
      → IsNotCancelled (around.answers request log)
  pub validates : (draft : X) → IsNotCancelled (around.validates draft)
  pub judges : (finding : F) (log : List (Event F)) → IsNotCancelled (around.judges finding log)

module _ {F : Type 0} where
  Calm-then :
      {A B : Type 0} (strict : Bool) (m : Task F A) (f : A → Task F B)
      → IsCalm strict m
      → ((a : A) → IsCalm strict (f a))
      → IsCalm strict (m then f)
  Calm-then {A} {B} strict m f h k log = go strict (m log) (h log) (λ a. k a)
    where
      go :
          (s : Bool) (r : Outcome A × List (Event F))
          → Calm s r
          → ((a : A) → IsCalm s (f a))
          → Calm s (follow f r)
      go s (returns a, log') c k = k a log'
      go true (raises e, log') c k = absurd c
      go false (raises e, log') c k = tt
      go s (cancels, log') c k = absurd c

  Calm-try :
      {A : Type 0} (m : Task F A) (f : Failure → Task F A)
      → IsCalm false m
      → ((e : Failure) → IsCalm true (f e))
      → IsCalm true (try m f)
  Calm-try {A} m f h k log = go (m log) (h log)
    where
      go : (r : Outcome A × List (Event F)) → Calm false r → Calm true (handle f r)
      go (returns a, log') c = tt
      go (raises e, log') c = k e log'
      go (cancels, log') c = absurd c

module _ {F X : Type 0} (around : Surroundings F X) (well : AllGoesWell around) where
  Calm-write : (strict : Bool) (event : Event F) → IsCalm strict (write around event)
  unfolding write
  Calm-write strict event log = rw (well.accepts event log) tt

  Calm-ensure : (strict : Bool) → IsCalm strict (ensure_current_recheck around)
  unfolding ensure_current_recheck
  Calm-ensure strict log = go around.recheck_attempt
    where
      go : (o : Option String) → Calm strict (ensure_for around o log)
      go none = tt
      go (some attempt_id) = rw (well.current log) tt

  called_lem :
      {A : Type 0} (o : Outcome A) (log : List (Event F)) → IsNotCancelled o → Calm false (o, log)
  called_lem (returns a) log h = tt
  called_lem (raises e) log h = tt
  called_lem cancels log h = absurd h

  Calm-judge : (o : Option F) → IsCalm false (judge_finding around o)
  unfolding verify
  Calm-judge none log = tt
  Calm-judge (some finding) log = go (is_judged around finding log)
    where
      judged_lem :
          (o : Outcome Verdict)
          → IsNotCancelled o
          → Calm false (
              follow
                (λ (verdict : Verdict). give (keep_if_sure around finding verdict))
                (note_call (judged finding) o log))
      judged_lem (returns v) h = tt
      judged_lem (raises e) h = tt
      judged_lem cancels h = absurd h

      go : (b : Bool) → Calm false (judge_if around b finding log)
      go false = tt
      go true = judged_lem (around.judges finding log) (well.judges finding log)

  Calm-drafts : (drafts : List X) → IsCalm false (check_drafts around drafts)
  unfolding check_drafts
  Calm-drafts [] = λ log. tt
  Calm-drafts (draft ∷ drafts) =
      Calm-then false _ _
        (Calm-then false (validate around draft) (judge_finding around)
          (λ log. called_lem (around.validates draft) log (well.validates draft)) Calm-judge)
        (λ kept.
          Calm-then false (check_drafts around drafts) _ (Calm-drafts drafts) (λ findings log. tt))

  module _ (parts : Parts) (chunk : ReviewChunk) (profile : String) where
    Calm-planning :
        (r : Result PromptError InferenceRequest) → IsCalm false (raise_planning {F = F} r)
    Calm-planning (ok a) log = tt
    Calm-planning (err e) log = tt

    Calm-call : (request : InferenceRequest) → IsCalm false (review around request)
    unfolding review
    Calm-call request log =
        called_lem (around.answers request log) (called request ∷ log) (well.answers request log)

    Calm-review :
        (running : ReviewChunk) (attempt : Attempt)
        → IsCalm false (review_chunk around parts chunk profile running attempt)
    unfolding review_chunk validate_answer save_review
    Calm-review running attempt =
        Calm-then false _ _
          (Calm-planning
            (build parts.encoding parts.budgeter parts.schema running attempt.attempt_id profile))
          (λ request. Calm-then false (review around request) _ (Calm-call request) (λ drafts.
            Calm-then false _ _ (Calm-ensure false) (λ _.
              Calm-then false _ _ (Calm-write false _) (λ _.
                Calm-then false _ _ (Calm-drafts drafts) (λ findings.
                  Calm-then false _ _ (Calm-ensure false) (λ _.
                    Calm-then false _ _ (Calm-write false _) (λ _.
                      Calm-then false _ _ (Calm-write false _) (λ _. Calm-write false _))))))))

    Calm-made :
        (running : ReviewChunk) (attempt : Attempt)
        → IsCalm true (make_attempt around parts chunk profile running attempt)
    unfolding record_failure
    Calm-made running attempt =
        Calm-then true (write around (attempted attempt)) _ (Calm-write true (attempted attempt))
          (λ _.
            Calm-try (review_chunk around parts chunk profile running attempt then λ _. give none)
              (record_failure around parts chunk profile attempt)
              (Calm-then false (review_chunk around parts chunk profile running attempt)
                (λ _. give none) (Calm-review running attempt) (λ _ log. tt))
              (λ e.
                Calm-then true _ _ (Calm-ensure true)
                  (λ _. Calm-then true _ _ (Calm-write true _) (λ _ log. tt))))

    Calm-attempt :
        (number : ℕ) (strategy : Strategy)
        → IsCalm true (attempt_strategy around parts chunk profile number strategy)
    unfolding attempt_strategy
    Calm-attempt number strategy = Calm-then true _ _ (Calm-ensure true) (λ _.
        Calm-then true _ _ (Calm-write true _) (λ _.
          Calm-then true (draw_id around parts chunk profile)
            (λ attempt_id.
              make_attempt around parts chunk profile
                (as_running number (working_chunk strategy chunk))
                (new_attempt around parts chunk profile number strategy attempt_id))
            (λ log. tt) (λ attempt_id. Calm-made _ _)))

    Calm-fail : (error : Option Failure) → IsCalm true (fail_chunk around parts chunk profile error)
    unfolding fail_chunk
    Calm-fail error =
        Calm-then true _ _ (Calm-ensure true)
          (λ _. Calm-then true _ _ (Calm-write true _) (λ _ log. tt))

    Calm-replace :
        (error : Option Failure) (children : List ReviewChunk)
        → IsCalm true (replace_or_fail around parts chunk profile error children)
    Calm-replace error [] = Calm-fail error
    Calm-replace error (child ∷ children) =
        Calm-then true _ _ (Calm-write true _)
          (λ _. Calm-then true _ _ (Calm-write true _) (λ _ log. tt))

    Calm-split :
        (error : Option Failure) → IsCalm true (split_or_fail around parts chunk profile error)
    unfolding split_or_fail
    Calm-split error log = go (ltb chunk.split_depth around.max_split_depth)
      where
        go :
            (b : Bool)
            → Calm true (
                (if b
                    then (ensure_current_recheck around then λ _.
                        replace_or_fail around parts chunk profile error (split parts.tools chunk))
                    else fail_chunk around parts chunk profile error)
                  log)
        go true =
            Calm-then true _ _ (Calm-ensure true)
              (λ _. Calm-replace error (split parts.tools chunk)) log
        go false = Calm-fail error log

    Calm-run :
        (number : ℕ) (strategies : List Strategy) (error : Option Failure)
        → IsCalm true (run_strategies around parts chunk profile number strategies error)
    unfolding run_strategies
    Calm-run number [] error = Calm-split error
    Calm-run number (strategy ∷ strategies) error =
        Calm-then true _ _ (Calm-attempt number strategy)
          (λ r. next r (Calm-run (number + 1) strategies))
      where
        next :
            (r : Option Failure)
            → ((e : Option Failure)
                → IsCalm true (run_strategies around parts chunk profile (number + 1) strategies e))
            → IsCalm true (
                unless_done around parts chunk profile
                  (run_strategies around parts chunk profile (number + 1) strategies)
                  r)
        next none h = λ log. tt
        next (some error) h = h (some error)

Calm-HasReturned : {F A : Type 0} (r : Outcome A × List (Event F)) → Calm true r → HasReturned r.0
Calm-HasReturned (returns a, log) c = tt
Calm-HasReturned (raises e, log) c = c
Calm-HasReturned (cancels, log) c = c

-- If the store takes every write, the recheck stays current, and no call of a model is cancelled, an
-- execution returns, whatever the models answer and however their calls fail.
pub executions_return :
    {F X : Type 0} (around : Surroundings F X) (parts : Parts) (chunk : ReviewChunk)
    (model_profile_id : String)
    → AllGoesWell around
    → HasReturned (execute around parts chunk model_profile_id []).0
unfolding execute
executions_return around parts chunk model_profile_id well =
    Calm-HasReturned (execute around parts chunk model_profile_id [])
      (Calm-run around well parts chunk model_profile_id 1 (original ∷ trim_context ∷ []) none [])

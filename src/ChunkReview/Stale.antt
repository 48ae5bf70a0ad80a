-- ===== src/ChunkReview/Stale.antt =====
-- An execution that is told that its recheck is no longer current stops there.
use code_astra.Base.{
  ℕ, ◌+◌, String, Bool, true, false, not, List, [], ◌∷◌, Option, none, some, ltb, if◌then◌else◌,
  ◌≡◌, refl,
}
use code_astra.Base.Lists.{All}
use code_astra.Base.Result.{Result, ok, err}
use code_astra.Domain.Chunks.{ReviewChunk}
use code_astra.ChunkPrompt.{PromptError}
use code_astra.Planner.{split}
use code_astra.ChunkReview.Errors.{Failure}
use code_astra.ChunkReview.{
  Outcome, returns, raises, cancels, Strategy, original, trim_context, Attempt, Event, asked,
  attempted, called, judged, Verdict, Surroundings, Task, follow, handle, ◌then◌, try, give, note,
  note_call,
}
use code_astra.ChunkReview.Execute.{
  Parts, raise_planning, ask, ensure_for, ensure_current_recheck, write, review, verify,
  keep_if_sure, is_judged, judge_if, judge_finding, validate, check_drafts, working_chunk,
  as_running, review_chunk, validate_answer, save_review, record_failure, new_attempt, draw_id,
  make_attempt, attempt_strategy, fail_chunk, replace_or_fail, split_or_fail, unless_done,
  run_strategies, execute,
}

-- The answer that the recheck is not current any more.
abbrev pub is_stale : {F : Type 0} → Event F → Bool
is_stale (asked current) = not current
is_stale _ = false

abbrev pub Fresh : {F : Type 0} → List (Event F) → Type 0
Fresh {F} log = All (λ (event : Event F). is_stale event ≡ false) log

-- Only the newest event may be that answer.
abbrev pub FreshBelow : {F : Type 0} → List (Event F) → Type 0
FreshBelow [] = Unit
FreshBelow (event ∷ log) = Fresh log

-- Without that answer, unless the execution is cancelled, and then nothing comes after it.
abbrev pub StopsWhenStale : {F A : Type 0} → Outcome A × List (Event F) → Type 0
StopsWhenStale (returns a, log) = Fresh log
StopsWhenStale (raises e, log) = Fresh log
StopsWhenStale (cancels, log) = FreshBelow log

Fresh-below : {F : Type 0} (log : List (Event F)) → Fresh log → FreshBelow log
Fresh-below [] h = tt
Fresh-below (event ∷ log) h = h.1

abbrev Keeps : {F A : Type 0} → Task F A → Type 0
Keeps {F} m = (log : List (Event F)) → Fresh log → StopsWhenStale (m log)

module _ {F : Type 0} where
  Keeps-then :
      {A B : Type 0} (m : Task F A) (f : A → Task F B)
      → Keeps m
      → ((a : A) → Keeps (f a))
      → Keeps (m then f)
  Keeps-then {A} {B} m f h k log fresh = go (m log) (h log fresh)
    where
      go : (r : Outcome A × List (Event F)) → StopsWhenStale r → StopsWhenStale (follow f r)
      go (returns a, log') s = k a log' s
      go (raises e, log') s = s
      go (cancels, log') s = s

  Keeps-try :
      {A : Type 0} (m : Task F A) (f : Failure → Task F A)
      → Keeps m
      → ((e : Failure) → Keeps (f e))
      → Keeps (try m f)
  Keeps-try {A} m f h k log fresh = go (m log) (h log fresh)
    where
      go : (r : Outcome A × List (Event F)) → StopsWhenStale r → StopsWhenStale (handle f r)
      go (returns a, log') s = s
      go (raises e, log') s = k e log' s
      go (cancels, log') s = s

  Keeps-note :
      {A : Type 0} (event : Event F) (o : Outcome A) → is_stale event ≡ false → Keeps (note event o)
  Keeps-note event (returns a) h log fresh = (h, fresh)
  Keeps-note event (raises e) h log fresh = fresh
  Keeps-note event cancels h log fresh = Fresh-below log fresh

  Keeps-call :
      {A : Type 0} (event : Event F) (o : Outcome A)
      → is_stale event ≡ false
      → Keeps (note_call event o)
  Keeps-call event (returns a) h log fresh = (h, fresh)
  Keeps-call event (raises e) h log fresh = (h, fresh)
  Keeps-call event cancels h log fresh = fresh

  Keeps-planning : {A : Type 0} (r : Result PromptError A) → Keeps (raise_planning {F = F} r)
  Keeps-planning (ok a) log fresh = fresh
  Keeps-planning (err e) log fresh = fresh

module _ {F X : Type 0} (around : Surroundings F X) where
  Keeps-write : (event : Event F) → is_stale event ≡ false → Keeps (write around event)
  unfolding write
  Keeps-write event h log fresh = Keeps-note event (around.accepts event log) h log fresh

  Keeps-write_next :
      {B : Type 0} (event : Event F) (f : Unit {0} → Task F B)
      → is_stale event ≡ false
      → Keeps (f tt)
      → Keeps (write around event then f)
  Keeps-write_next event f h k = Keeps-then (write around event) f (Keeps-write event h) (λ _. k)

  Keeps-ask : (o : Outcome Bool) → Keeps (ask around o)
  Keeps-ask (returns true) log fresh = (refl, fresh)
  Keeps-ask (returns false) log fresh = fresh
  Keeps-ask (raises e) log fresh = fresh
  Keeps-ask cancels log fresh = Fresh-below log fresh

  Keeps-ensure : Keeps (ensure_current_recheck around)
  unfolding ensure_current_recheck
  Keeps-ensure log fresh = go around.recheck_attempt
    where
      go : (o : Option String) → StopsWhenStale (ensure_for around o log)
      go none = fresh
      go (some attempt_id) = Keeps-ask (around.still_current log) log fresh

  Keeps-validate : (draft : X) → Keeps (validate around draft)
  Keeps-validate draft log fresh = go (around.validates draft)
    where
      go : (o : Outcome (Option F)) → StopsWhenStale (o, log)
      go (returns a) = fresh
      go (raises e) = fresh
      go cancels = Fresh-below log fresh

  Keeps-judge : (o : Option F) → Keeps (judge_finding around o)
  unfolding verify
  Keeps-judge none log fresh = fresh
  Keeps-judge (some finding) log fresh = go (is_judged around finding log)
    where
      go : (b : Bool) → StopsWhenStale (judge_if around b finding log)
      go false = fresh
      go true =
          Keeps-then (note_call (judged finding) (around.judges finding log))
            (λ (verdict : Verdict). give (keep_if_sure around finding verdict))
            (Keeps-call (judged finding) (around.judges finding log) refl)
            (λ verdict. λ log fresh. fresh) log fresh

  Keeps-drafts : (drafts : List X) → Keeps (check_drafts around drafts)
  unfolding check_drafts
  Keeps-drafts [] = λ log fresh. fresh
  Keeps-drafts (draft ∷ drafts) =
      Keeps-then _ _
        (Keeps-then (validate around draft) (judge_finding around) (Keeps-validate draft)
          Keeps-judge)
        (λ kept.
          Keeps-then (check_drafts around drafts) _ (Keeps-drafts drafts)
            (λ findings. λ log fresh. fresh))

  Keeps-ensure_next :
      {B : Type 0} (f : Unit {0} → Task F B)
      → Keeps (f tt)
      → Keeps (ensure_current_recheck around then f)
  Keeps-ensure_next f k = Keeps-then (ensure_current_recheck around) f Keeps-ensure (λ _. k)

  module _ (parts : Parts) (chunk : ReviewChunk) (profile : String) where
    Keeps-review :
        (running : ReviewChunk) (attempt : Attempt)
        → Keeps (review_chunk around parts chunk profile running attempt)
    unfolding review_chunk review validate_answer save_review
    Keeps-review running attempt = Keeps-then _ _ (Keeps-planning _) (λ request.
        Keeps-then _ _ (λ log. Keeps-call (called request) (around.answers request log) refl log)
          (λ drafts. Keeps-ensure_next _ (
            Keeps-write_next _ _ refl (
              Keeps-then _ _ (Keeps-drafts drafts) (λ findings.
                Keeps-ensure_next _
                  (Keeps-write_next _ _ refl (Keeps-write_next _ _ refl (Keeps-write _ refl))))))))

    Keeps-failure :
        (attempt : Attempt) (error : Failure)
        → Keeps (record_failure around parts chunk profile attempt error)
    unfolding record_failure
    Keeps-failure attempt error =
        Keeps-ensure_next _ (Keeps-write_next _ _ refl (λ log fresh. fresh))

    Keeps-made :
        (running : ReviewChunk) (attempt : Attempt)
        → Keeps (make_attempt around parts chunk profile running attempt)
    Keeps-made running attempt = Keeps-write_next (attempted attempt) _ refl (
        Keeps-try (review_chunk around parts chunk profile running attempt then λ _. give none)
          (record_failure around parts chunk profile attempt)
          (Keeps-then (review_chunk around parts chunk profile running attempt) (λ _. give none)
            (Keeps-review running attempt) (λ _ log fresh. fresh))
          (Keeps-failure attempt))

    Keeps-attempt :
        (number : ℕ) (strategy : Strategy)
        → Keeps (attempt_strategy around parts chunk profile number strategy)
    unfolding attempt_strategy
    Keeps-attempt number strategy = Keeps-ensure_next _ (
        Keeps-write_next _ _ refl (
          Keeps-then (draw_id around parts chunk profile)
            (λ attempt_id.
              make_attempt around parts chunk profile
                (as_running number (working_chunk strategy chunk))
                (new_attempt around parts chunk profile number strategy attempt_id))
            (λ log fresh. fresh) (λ attempt_id. Keeps-made _ _)))

    Keeps-fail : (error : Option Failure) → Keeps (fail_chunk around parts chunk profile error)
    unfolding fail_chunk
    Keeps-fail error = Keeps-ensure_next _ (Keeps-write_next _ _ refl (λ log fresh. fresh))

    Keeps-replace :
        (error : Option Failure) (children : List ReviewChunk)
        → Keeps (replace_or_fail around parts chunk profile error children)
    Keeps-replace error [] = Keeps-fail error
    Keeps-replace error (child ∷ children) =
        Keeps-write_next _ _ refl (Keeps-write_next _ _ refl (λ log fresh. fresh))

    Keeps-split : (error : Option Failure) → Keeps (split_or_fail around parts chunk profile error)
    unfolding split_or_fail
    Keeps-split error log fresh = go (ltb chunk.split_depth around.max_split_depth)
      where
        go :
            (b : Bool)
            → StopsWhenStale (
                (if b
                    then (ensure_current_recheck around then λ _.
                        replace_or_fail around parts chunk profile error (split parts.tools chunk))
                    else fail_chunk around parts chunk profile error)
                  log)
        go true = Keeps-ensure_next _ (Keeps-replace error (split parts.tools chunk)) log fresh
        go false = Keeps-fail error log fresh

    Keeps-run :
        (number : ℕ) (strategies : List Strategy) (error : Option Failure)
        → Keeps (run_strategies around parts chunk profile number strategies error)
    unfolding run_strategies
    Keeps-run number [] error = Keeps-split error
    Keeps-run number (strategy ∷ strategies) error =
        Keeps-then _ _ (Keeps-attempt number strategy)
          (λ r. next r (Keeps-run (number + 1) strategies))
      where
        next :
            (r : Option Failure)
            → ((e : Option Failure)
                → Keeps (run_strategies around parts chunk profile (number + 1) strategies e))
            → Keeps (
                unless_done around parts chunk profile
                  (run_strategies around parts chunk profile (number + 1) strategies)
                  r)
        next none h = λ log fresh. fresh
        next (some error) h = h (some error)

-- Whatever the store, the model and the judge answer, once the store has said that the recheck is not
-- current the execution is cancelled: it writes nothing more and calls no model.
pub stale_rechecks_stop :
    {F X : Type 0} (around : Surroundings F X) (parts : Parts) (chunk : ReviewChunk)
    (model_profile_id : String)
    → StopsWhenStale (execute around parts chunk model_profile_id [])
unfolding execute
stale_rechecks_stop around parts chunk model_profile_id =
    Keeps-run around parts chunk model_profile_id 1 (original ∷ trim_context ∷ []) none [] tt

-- ===== src/ReviewStore/Running.antt =====
-- What `_matches_running_recheck` of the review store tests.
use code_astra.Base.{String, Option, none, some, true, false, string_eq, ◌≡◌, ◌≢◌, refl, ap, arith}
use code_astra.ReviewStore.{ReviewSession, ReviewStatus, RecheckStatus}
use code_astra.ReviewStore.Rechecks.{matches_running_recheck, is_running, is_attempt, is_final}

is_running-eq : (o : Option RecheckStatus) → is_running o ≡ true → o ≡ some RecheckStatus.running
is_running-eq none h = absurd (ground arith)
is_running-eq (some RecheckStatus.running) h = refl
is_running-eq (some RecheckStatus.completed) h = absurd (ground arith)
is_running-eq (some RecheckStatus.failed) h = absurd (ground arith)
is_running-eq (some RecheckStatus.timed_out) h = absurd (ground arith)

is_attempt-eq :
    (attempt_id : String) (o : Option String) → is_attempt attempt_id o ≡ true → o ≡ some attempt_id
is_attempt-eq attempt_id none h = absurd (ground arith)
is_attempt-eq attempt_id (some id) h = ap some (ground arith)

not_final : (a b : ReviewStatus) → is_final b ≡ true → is_final a ≡ false → a ≢ b
not_final a b h k same = ground arith

is_final-cases :
    (a : ReviewStatus)
    → a ≢ ReviewStatus.completed
    → a ≢ ReviewStatus.cancelled
    → a ≢ ReviewStatus.failed
    → is_final a ≡ false
is_final-cases ReviewStatus.completed p q r = absurd (p refl)
is_final-cases ReviewStatus.cancelled p q r = absurd (q refl)
is_final-cases ReviewStatus.failed p q r = absurd (r refl)
is_final-cases ReviewStatus.planning p q r = refl
is_final-cases ReviewStatus.queued p q r = refl
is_final-cases ReviewStatus.analyzing p q r = refl
is_final-cases ReviewStatus.reviewing p q r = refl
is_final-cases ReviewStatus.validating p q r = refl
is_final-cases ReviewStatus.aggregating p q r = refl

module _ {B : Type 0} where
  -- The attempt is the running one, of a review that is not completed, cancelled or failed.
  pub record IsRunning (current : ReviewSession B) (attempt_id : String) : Type 0 where
    pub attempt : current.recheck_attempt_id ≡ some attempt_id
    pub runs : current.recheck_attempt_status ≡ some RecheckStatus.running
    pub not_completed : current.status ≢ ReviewStatus.completed
    pub not_cancelled : current.status ≢ ReviewStatus.cancelled
    pub not_failed : current.status ≢ ReviewStatus.failed

  module _ (current : ReviewSession B) (attempt_id : String) where
    pub matches-IsRunning :
        matches_running_recheck current attempt_id ≡ true → IsRunning current attempt_id
    matches-IsRunning h = record {
      attempt = is_attempt-eq attempt_id current.recheck_attempt_id (ground arith);
      runs = is_running-eq current.recheck_attempt_status (ground arith);
      not_completed = not_final current.status ReviewStatus.completed refl unfinished;
      not_cancelled = not_final current.status ReviewStatus.cancelled refl unfinished;
      not_failed = not_final current.status ReviewStatus.failed refl unfinished;
    }
      where
        unfinished : is_final current.status ≡ false
        unfinished = ground arith

    pub IsRunning-matches :
        IsRunning current attempt_id → matches_running_recheck current attempt_id ≡ true
    IsRunning-matches h =
        rw (h.attempt, h.runs)
          (ground
            (arith, is_final-cases current.status h.not_completed h.not_cancelled h.not_failed))

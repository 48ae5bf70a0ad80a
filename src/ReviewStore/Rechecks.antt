-- ===== src/ReviewStore/Rechecks.antt =====
-- src/code_review/application/review_store.py: the guarded transitions of a recheck, and the reviews
-- that a restart takes up again.
use code_astra.Base.{
  String, Bool, true, false, not, ◌&&◌, List, [], ◌∷◌, Option, none, some, ◌==◌, string_eq, nat_eq,
  pair_eq, if◌then◌else◌, text_lt,
}
use code_astra.Base.Dict.{Dict, lookup}
use code_astra.Base.Sort.{sort_by}
use code_astra.Base.Result.{Result, ok, err}
use code_astra.ReviewStore.{
  ReviewStore, ReviewSession, ReviewStatus, RecheckStatus, ReviewEventType, ReviewEvent, StoreError,
  key_error, require_owner, when_owned, persist, append_event,
}

abbrev pub is_final : ReviewStatus → Bool
is_final ReviewStatus.completed = true
is_final ReviewStatus.cancelled = true
is_final ReviewStatus.failed = true
is_final _ = false

abbrev pub is_running : Option RecheckStatus → Bool
is_running (some RecheckStatus.running) = true
is_running _ = false

abbrev pub is_attempt : String → Option String → Bool
is_attempt attempt_id none = false
is_attempt attempt_id (some id) = id == attempt_id

-- `_matches_running_recheck`
abbrev pub matches_running_recheck : {B : Type 0} → ReviewSession B → String → Bool
matches_running_recheck session attempt_id =
    is_attempt attempt_id session.recheck_attempt_id
    && (is_running session.recheck_attempt_status && not (is_final session.status))

-- The order of pairs of texts.
abbrev pub pair_lt : String × String → String × String → Bool
pair_lt a b = if text_lt a.0 b.0 then true else if text_lt b.0 a.0 then false else text_lt a.1 b.1

abbrev pub unfinished : {B : Type 0} → Dict String (ReviewSession B) → List (String × String)
unfinished [] = []
unfinished ((review_id, session) ∷ d) =
    let rest = unfinished d in
    if is_final session.status then rest else (review_id, session.owner_id) ∷ rest

abbrev pub asked : {B : Type 0} → String → Option (ReviewSession B) → Result StoreError Bool
asked attempt_id none = err key_error
asked attempt_id (some current) = ok (matches_running_recheck current attempt_id)

module _ {B F D A : Type 0} where
  unfoldable pub is_recheck_attempt_current :
      String → String → String → ReviewStore B F D A → Result StoreError Bool
  is_recheck_attempt_current review_id owner_id attempt_id s =
      asked attempt_id (require_owner review_id owner_id s)

  unfoldable pub save_review_if_recheck_attempt :
      ReviewSession B → String → ReviewStore B F D A → Result StoreError Bool × ReviewStore B F D A
  save_review_if_recheck_attempt session attempt_id s =
      when_owned (require_owner session.review_id session.owner_id s)
        (λ current.
          if matches_running_recheck current attempt_id
          then (ok true, persist session current s)
          else (ok false, s))
        s

  abbrev pub reports_true :
      Result StoreError (ReviewEvent D) × ReviewStore B F D A
      → Result StoreError Bool × ReviewStore B F D A
  reports_true (err e, s) = (err e, s)
  reports_true (ok _, s) = (ok true, s)

  unfoldable pub transition_review_if_recheck_attempt :
      ReviewSession B
      → String
      → ReviewEventType
      → D
      → ReviewStore B F D A
      → Result StoreError Bool × ReviewStore B F D A
  transition_review_if_recheck_attempt session attempt_id event data_of s =
      when_owned (require_owner session.review_id session.owner_id s)
        (λ current.
          let persisted = persist session current s in
          if matches_running_recheck current attempt_id
          then reports_true (
              append_event session.review_id event data_of
                (lookup session.review_id persisted.events) persisted)
          else (ok false, s))
        s

  unfoldable pub recoverable_reviews : ReviewStore B F D A → List (String × String)
  recoverable_reviews s = sort_by pair_lt (unfinished s.sessions)

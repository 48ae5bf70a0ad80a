-- ===== src/ReviewStore/Events.antt =====
-- Every call keeps the events numbered, and what a client that resumes reads.
use code_astra.Base.{
  ℕ, String, Bool, true, false, List, [], ◌∷◌, Option, none, some, string_eq, nat_eq, pair_eq,
  if◌then◌else◌, ◌≡◌, refl, ap, arith,
}
use code_astra.Base.Lists.{drop}
use code_astra.Base.Dict.{lookup}
use code_astra.Base.Result.{Result, ok, err}
use code_astra.Domain.Chunks.{ReviewChunk}
use code_astra.ReviewStore.{
  ReviewStore, ReviewSession, ReviewEvent, ReviewEventType, FollowupMessage, ChunkAttempt,
  StoreError, init, require_owner, save, update_title, publish, append_followup_exchange, persist,
  events_after,
}
use code_astra.ReviewStore.Enhanced.{
  delete, delete_review, is_owned, reset_review, save_chunks, save_chunk, replace_chunk,
  save_chunk_findings, save_findings_of, record_attempt, then_publish, transition_chunk,
  transition_review,
}
use code_astra.ReviewStore.Rechecks.{
  save_review_if_recheck_attempt, transition_review_if_recheck_attempt, reports_true,
}
use code_astra.ReviewStore.Isolation.{
  StoreCall, creates, saves, renames, publishes, exchanges, deletes, resets, saves_chunks, replaces,
  saves_findings, records, moves_chunk, moves_review, saves_recheck, moves_recheck, step, run,
}
use code_astra.ReviewStore.Numbering.{
  after-drop, Listed, IsNumbered, IsNumbered-Keeps, renamed-IsNumbered, persist-IsNumbered,
  append_event-IsNumbered, create-IsNumbered, delete_review-IsNumbered, when_owned-IsNumbered,
}

module _ {B F D A : Type 0} where
  module _ (s : ReviewStore B F D A) (h : IsNumbered s) where
    if-IsNumbered :
        {X : Type 0} (b : Bool) (v w : Result StoreError X × ReviewStore B F D A)
        → IsNumbered v.1
        → IsNumbered w.1
        → IsNumbered (if b then v else w).1
    if-IsNumbered true v w p q = p
    if-IsNumbered false v w p q = q

    save-IsNumbered : (session : ReviewSession B) → IsNumbered (save session s).1
    unfolding save
    save-IsNumbered session =
        when_owned-IsNumbered session.review_id session.owner_id s _ h
          (λ c at. persist-IsNumbered session c s at h)

    publish-IsNumbered :
        (id owner_id : String) (event : ReviewEventType) (data_of : D)
        → IsNumbered (publish id owner_id event data_of s).1
    unfolding publish
    publish-IsNumbered id owner_id event data_of =
        when_owned-IsNumbered id owner_id s _ h
          (λ c at. append_event-IsNumbered id event data_of s (lookup id s.events) refl h)

    rename-IsNumbered :
        (id owner_id title : String) → IsNumbered (update_title id owner_id title s).1
    unfolding update_title
    rename-IsNumbered id owner_id title =
        when_owned-IsNumbered id owner_id s _ h (λ c at. renamed-IsNumbered id _ c s at h)

    exchange-IsNumbered :
        (question answer : FollowupMessage) (owner_id key : String)
        → IsNumbered (append_followup_exchange question answer owner_id key s).1
    unfolding append_followup_exchange
    exchange-IsNumbered question answer owner_id key =
        if-IsNumbered _ _ _
          (when_owned-IsNumbered question.review_id owner_id s _ h
            (λ c at. if-IsNumbered _ _ _ (IsNumbered-Keeps s _ (refl, refl) h) h))
          h

    delete-IsNumbered : (id owner_id : String) → IsNumbered (delete id owner_id s).1
    unfolding delete
    delete-IsNumbered id owner_id = go (is_owned (require_owner id owner_id s))
      where
        go :
            (b : Bool)
            → IsNumbered
                (if◌then◌else◌ {A = Bool × ReviewStore B F D A} b
                  (true, delete_review id s)
                  (false, s)).1
        go true = delete_review-IsNumbered id s h
        go false = h

    reset-IsNumbered : (session : ReviewSession B) → IsNumbered (reset_review session s).1
    unfolding reset_review
    reset-IsNumbered session =
        when_owned-IsNumbered session.review_id session.owner_id s _ h (λ c at.
          IsNumbered-Keeps (persist session c s) _ (refl, refl)
            (persist-IsNumbered session c s at h))

    save_chunks-IsNumbered :
        (chunks : List ReviewChunk) (owner_id : String)
        → IsNumbered (save_chunks chunks owner_id s).1
    unfolding save_chunks
    save_chunks-IsNumbered chunks owner_id =
        if-IsNumbered _ _ _ (IsNumbered-Keeps s _ (refl, refl) h) h

    replace-IsNumbered :
        (parent : ReviewChunk) (children : List ReviewChunk) (owner_id : String)
        → IsNumbered (replace_chunk parent children owner_id s).1
    unfolding replace_chunk
    replace-IsNumbered parent children owner_id =
        if-IsNumbered _ _ _ (save_chunks-IsNumbered _ owner_id) h

    findings-IsNumbered :
        (chunk_id owner_id : String) (findings : List F)
        → IsNumbered (save_chunk_findings chunk_id owner_id findings s).1
    unfolding save_chunk_findings
    findings-IsNumbered chunk_id owner_id findings = go (lookup chunk_id s.chunks)
      where
        go :
            (o : Option ReviewChunk)
            → IsNumbered (save_findings_of o chunk_id owner_id findings s).1
        go none = h
        go (some chunk) =
            when_owned-IsNumbered chunk.review_id owner_id s _ h
              (λ c at. IsNumbered-Keeps s _ (refl, refl) h)

    attempt-IsNumbered :
        (attempt : ChunkAttempt A) (owner_id : String)
        → IsNumbered (record_attempt attempt owner_id s).1
    unfolding record_attempt
    attempt-IsNumbered attempt owner_id =
        when_owned-IsNumbered attempt.review_id owner_id s _ h
          (λ c at. if-IsNumbered _ _ _ (IsNumbered-Keeps s _ (refl, refl) h) h)

    recheck-IsNumbered :
        (session : ReviewSession B) (attempt_id : String)
        → IsNumbered (save_review_if_recheck_attempt session attempt_id s).1
    unfolding save_review_if_recheck_attempt
    recheck-IsNumbered session attempt_id =
        when_owned-IsNumbered session.review_id session.owner_id s _ h
          (λ c at. if-IsNumbered _ _ _ (persist-IsNumbered session c s at h) h)

    moved_recheck-IsNumbered :
        (session : ReviewSession B) (attempt_id : String) (event : ReviewEventType) (data_of : D)
        → IsNumbered (transition_review_if_recheck_attempt session attempt_id event data_of s).1
    unfolding transition_review_if_recheck_attempt
    moved_recheck-IsNumbered session attempt_id event data_of =
        when_owned-IsNumbered session.review_id session.owner_id s _ h (λ c at.
          if-IsNumbered _ _ _
            (reported _ (
              append_event-IsNumbered session.review_id event data_of (persist session c s)
                (lookup session.review_id s.events) refl (persist-IsNumbered session c s at h)))
            h)
      where
        reported :
            (v : Result StoreError (ReviewEvent D) × ReviewStore B F D A)
            → IsNumbered v.1
            → IsNumbered (reports_true v).1
        reported (ok _, t) u = u
        reported (err _, t) u = u

  published-IsNumbered :
      (v : Result StoreError (Unit {0}) × ReviewStore B F D A) (id owner_id : String)
      (event : ReviewEventType) (data_of : D)
      → IsNumbered v.1
      → IsNumbered (then_publish v (publish id owner_id event data_of)).1
  published-IsNumbered (err e, t) id owner_id event data_of u = u
  published-IsNumbered (ok _, t) id owner_id event data_of u =
      publish-IsNumbered t u id owner_id event data_of

  step-IsNumbered :
      (call : StoreCall B F D A) (s : ReviewStore B F D A) → IsNumbered s → IsNumbered (step call s)
  unfolding step transition_chunk transition_review save_chunk
  step-IsNumbered (creates session) s h = create-IsNumbered session s h
  step-IsNumbered (saves session) s h = save-IsNumbered s h session
  step-IsNumbered (renames id owner_id title) s h = rename-IsNumbered s h id owner_id title
  step-IsNumbered (publishes id owner_id event data_of) s h =
      publish-IsNumbered s h id owner_id event data_of
  step-IsNumbered (exchanges question answer owner_id key) s h =
      exchange-IsNumbered s h question answer owner_id key
  step-IsNumbered (deletes id owner_id) s h = delete-IsNumbered s h id owner_id
  step-IsNumbered (resets session) s h = reset-IsNumbered s h session
  step-IsNumbered (saves_chunks chunks owner_id) s h = save_chunks-IsNumbered s h chunks owner_id
  step-IsNumbered (replaces parent children owner_id) s h =
      replace-IsNumbered s h parent children owner_id
  step-IsNumbered (saves_findings chunk_id owner_id findings) s h =
      findings-IsNumbered s h chunk_id owner_id findings
  step-IsNumbered (records attempt owner_id) s h = attempt-IsNumbered s h attempt owner_id
  step-IsNumbered (moves_chunk chunk owner_id event data_of) s h =
      published-IsNumbered _ chunk.review_id owner_id event data_of
        (save_chunks-IsNumbered s h (chunk ∷ []) owner_id)
  step-IsNumbered (moves_review session event data_of) s h =
      published-IsNumbered _ session.review_id session.owner_id event data_of
        (save-IsNumbered s h session)
  step-IsNumbered (saves_recheck session attempt_id) s h = recheck-IsNumbered s h session attempt_id
  step-IsNumbered (moves_recheck session attempt_id event data_of) s h =
      moved_recheck-IsNumbered s h session attempt_id event data_of

  run-IsNumbered :
      (calls : List (StoreCall B F D A)) (s : ReviewStore B F D A)
      → IsNumbered s
      → IsNumbered (run calls s)
  unfolding run
  run-IsNumbered [] s h = h
  run-IsNumbered (call ∷ calls) s h = run-IsNumbered calls (step call s) (step-IsNumbered call s h)

init-IsNumbered : {B F D A : Type 0} → IsNumbered (init {B = B} {F = F} {D = D} {A = A})
unfolding init lookup
init-IsNumbered = record { listed = λ k. tt }

resume_lem :
    {B F D A : Type 0} (s : ReviewStore B F D A) (r owner_id : String) (after : ℕ)
    (c : ReviewSession B)
    → IsNumbered s
    → require_owner r owner_id s ≡ some c
    → (events : List (ReviewEvent D)) × (lookup r s.events ≡ some events)
      × (events_after r owner_id after s ≡ ok (drop after events))
unfolding events_after require_owner
resume_lem {B} {F} {D} {A} s r owner_id after c w h =
    go (lookup r s.sessions) (lookup r s.events) refl refl (w.listed r)
  where
    go :
        (o : Option (ReviewSession B)) (l : Option (List (ReviewEvent D)))
        → lookup r s.sessions ≡ o
        → lookup r s.events ≡ l
        → Listed o l
        → (events : List (ReviewEvent D)) × (lookup r s.events ≡ some events)
          × (events_after r owner_id after s ≡ ok (drop after events))
    go none l p q n = absurd (ground arith)
    go (some x) none p q n = absurd n
    go (some x) (some events) p q n =
        (events, q, rw (h, q) (ap ok (after-drop after 0 after events (omega arith) n)))

-- After any calls of owners from an empty store, a client that may read a review and resumes after the event
-- number `after` gets all its events but the first `after` of them, in order.
pub resume_misses_nothing :
    {B F D A : Type 0} (calls : List (StoreCall B F D A)) (r owner_id : String) (after : ℕ)
    (c : ReviewSession B)
    → require_owner r owner_id (run calls init) ≡ some c
    → (events : List (ReviewEvent D)) × (lookup r (run calls init).events ≡ some events)
      × (events_after r owner_id after (run calls init) ≡ ok (drop after events))
resume_misses_nothing calls r owner_id after c h =
    resume_lem (run calls init) r owner_id after c (run-IsNumbered calls init init-IsNumbered) h

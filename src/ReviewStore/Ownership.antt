-- ===== src/ReviewStore/Ownership.antt =====
-- A method that is called by another owner leaves a review alone.
use code_astra.Base.{
  String, Bool, true, false, Option, none, some, string_eq, nat_eq, pair_eq, if◌then◌else◌, ◌≡◌,
  ◌≢◌, refl, ap,
}
use code_astra.Base.Dict.{lookup, lookup-insert_ne}
use code_astra.Base.Result.{Result, ok, err}
use code_astra.ReviewStore.{
  ReviewStore, ReviewSession, ReviewEvent, ReviewEventType, FollowupMessage, StoreError,
  require_owner, save, update_title, publish, append_event, append_followup_exchange, persist,
}
use code_astra.ReviewStore.Enhanced.{delete, delete_review, drop_chunks, is_owned, reset_review}
use code_astra.ReviewStore.Rechecks.{
  save_review_if_recheck_attempt, transition_review_if_recheck_attempt, reports_true,
}
use code_astra.ReviewStore.Untouched.{
  Untouched, Untouched-refl, Untouched-trans, other_review, when_owned-Untouched,
}
use code_astra.ReviewStore.Isolation.{
  persist-Untouched, append_event-Untouched, drop_chunks-Untouched, delete_review-Untouched,
}

module _ {B F D A : Type 0} (r : String) (s : ReviewStore B F D A) (mine : ReviewSession B)
    (at : lookup r s.sessions ≡ some mine) where
  pub if-Untouched :
      {X : Type 0} (b : Bool) (v w : Result StoreError X × ReviewStore B F D A)
      → Untouched r s v.1
      → Untouched r s w.1
      → Untouched r s (if b then v else w).1
  if-Untouched true v w p q = p
  if-Untouched false v w p q = q

  pub save-Untouched :
      (session : ReviewSession B)
      → mine.owner_id ≢ session.owner_id
      → Untouched r s (save session s).1
  unfolding save
  save-Untouched session differs =
      when_owned-Untouched r s mine at session.review_id session.owner_id _ differs
        (λ c ne. persist-Untouched r session c s ne)

  pub publish-Untouched :
      (id owner_id : String) (event : ReviewEventType) (data_of : D)
      → mine.owner_id ≢ owner_id
      → Untouched r s (publish id owner_id event data_of s).1
  unfolding publish
  publish-Untouched id owner_id event data_of differs =
      when_owned-Untouched r s mine at id owner_id _ differs
        (λ c ne. append_event-Untouched r id event data_of (lookup id s.events) s ne)

  pub update_title-Untouched :
      (id owner_id title : String)
      → mine.owner_id ≢ owner_id
      → Untouched r s (update_title id owner_id title s).1
  unfolding update_title
  update_title-Untouched id owner_id title differs =
      when_owned-Untouched r s mine at id owner_id _ differs (λ c ne. record {
        sessions = lookup-insert_ne r id _ s.sessions ne;
        events = refl;
        followups = λ key. refl;
        chunks = refl;
        attempts = refl;
      })

  pub exchange-Untouched :
      (question answer : FollowupMessage) (owner_id key : String)
      → mine.owner_id ≢ owner_id
      → Untouched r s (append_followup_exchange question answer owner_id key s).1
  unfolding append_followup_exchange
  exchange-Untouched question answer owner_id key differs =
      if-Untouched _ _ _
        (when_owned-Untouched r s mine at question.review_id owner_id _ differs (λ c ne.
          if-Untouched _ _ _
            (record {
              sessions = refl;
              events = refl;
              followups = λ k.
                  lookup-insert_ne (r, k) (question.review_id, key) _ s.followups
                    (λ p. ne (ap (λ w. w.0) p));
              chunks = refl;
              attempts = refl;
            })
            (Untouched-refl r s)))
        (Untouched-refl r s)

  pub delete-Untouched :
      (id owner_id : String) → mine.owner_id ≢ owner_id → Untouched r s (delete id owner_id s).1
  unfolding delete
  delete-Untouched id owner_id differs = go (require_owner id owner_id s) refl
    where
      go :
          (o : Option (ReviewSession B))
          → require_owner id owner_id s ≡ o
          → Untouched r s
              (if◌then◌else◌ {A = Bool × ReviewStore B F D A}
                (is_owned o)
                (true, delete_review id s)
                (false, s)).1
      go none e = Untouched-refl r s
      go (some c) e =
          delete_review-Untouched r id s (other_review r s mine at id owner_id c differs e)

  pub reset-Untouched :
      (session : ReviewSession B)
      → mine.owner_id ≢ session.owner_id
      → Untouched r s (reset_review session s).1
  unfolding reset_review
  reset-Untouched session differs =
      when_owned-Untouched r s mine at session.review_id session.owner_id _ differs (λ c ne.
        Untouched-trans r s (persist session c s)
          (drop_chunks session.review_id (persist session c s)) (persist-Untouched r session c s ne)
          (drop_chunks-Untouched r session.review_id (persist session c s) ne))

  pub recheck-Untouched :
      (session : ReviewSession B) (attempt_id : String)
      → mine.owner_id ≢ session.owner_id
      → Untouched r s (save_review_if_recheck_attempt session attempt_id s).1
  unfolding save_review_if_recheck_attempt
  recheck-Untouched session attempt_id differs =
      when_owned-Untouched r s mine at session.review_id session.owner_id _ differs
        (λ c ne. if-Untouched _ _ _ (persist-Untouched r session c s ne) (Untouched-refl r s))

  pub moved_recheck-Untouched :
      (session : ReviewSession B) (attempt_id : String) (event : ReviewEventType) (data_of : D)
      → mine.owner_id ≢ session.owner_id
      → Untouched r s (transition_review_if_recheck_attempt session attempt_id event data_of s).1
  unfolding transition_review_if_recheck_attempt
  moved_recheck-Untouched session attempt_id event data_of differs =
      when_owned-Untouched r s mine at session.review_id session.owner_id _ differs
        (λ c ne. if-Untouched _ _ _ (appended c ne) (Untouched-refl r s))
    where
      reported :
          (v : Result StoreError (ReviewEvent D) × ReviewStore B F D A)
          → Untouched r s v.1
          → Untouched r s (reports_true v).1
      reported (ok _, t) u = u
      reported (err _, t) u = u

      appended :
          (c : ReviewSession B)
          → r ≢ session.review_id
          → Untouched r s
              (reports_true (
                append_event session.review_id event data_of
                  (lookup session.review_id s.events)
                  (persist session c s))).1
      appended c ne = reported _ (
          Untouched-trans r s (persist session c s) _ (persist-Untouched r session c s ne) (
            append_event-Untouched r session.review_id event data_of
              (lookup session.review_id s.events) (persist session c s) ne))

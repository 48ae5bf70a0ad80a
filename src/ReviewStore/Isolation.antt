-- ===== src/ReviewStore/Isolation.antt =====
-- The calls that a user makes, and the changes below them that leave another review alone.
use code_astra.Base.{
  String, List, [], ◌∷◌, Option, none, some, string_eq, nat_eq, pair_eq, ◌≡◌, ◌≢◌, refl, ap, subst,
  arith,
}
use code_astra.Base.Dict.{lookup, lookup-insert_ne, lookup-erase_ne}
use code_astra.Domain.Chunks.{ReviewChunk}
use code_astra.ReviewStore.{
  ReviewStore, ReviewSession, ReviewEvent, ReviewEventType, FollowupMessage, ChunkAttempt, create,
  create_new, save, update_title, publish, append_event, append_followup_exchange, persist,
}
use code_astra.ReviewStore.Enhanced.{
  delete, delete_review, drop_chunks, reset_review, save_chunks, replace_chunk, save_chunk_findings,
  record_attempt, transition_chunk, transition_review,
}
use code_astra.ReviewStore.Rechecks.{
  save_review_if_recheck_attempt, transition_review_if_recheck_attempt,
}
use code_astra.ReviewStore.Untouched.{
  values_of-keep_entries, lookup-keep_entries_ne, Untouched, Untouched-refl,
}

-- The calls that change the store on behalf of an owner.
pub data StoreCall (B F D A : Type 0) : Type 0 where
  creates : ReviewSession B → StoreCall B F D A
  saves : ReviewSession B → StoreCall B F D A
  renames : String → String → String → StoreCall B F D A
  publishes : String → String → ReviewEventType → D → StoreCall B F D A
  exchanges : FollowupMessage → FollowupMessage → String → String → StoreCall B F D A
  deletes : String → String → StoreCall B F D A
  resets : ReviewSession B → StoreCall B F D A
  saves_chunks : List ReviewChunk → String → StoreCall B F D A
  replaces : ReviewChunk → List ReviewChunk → String → StoreCall B F D A
  saves_findings : String → String → List F → StoreCall B F D A
  records : ChunkAttempt A → String → StoreCall B F D A
  moves_chunk : ReviewChunk → String → ReviewEventType → D → StoreCall B F D A
  moves_review : ReviewSession B → ReviewEventType → D → StoreCall B F D A
  saves_recheck : ReviewSession B → String → StoreCall B F D A
  moves_recheck : ReviewSession B → String → ReviewEventType → D → StoreCall B F D A

module _ {B F D A : Type 0} where
  abbrev pub caller : StoreCall B F D A → String
  caller (creates session) = session.owner_id
  caller (saves session) = session.owner_id
  caller (renames review_id owner_id title) = owner_id
  caller (publishes review_id owner_id event data_of) = owner_id
  caller (exchanges question answer owner_id key) = owner_id
  caller (deletes review_id owner_id) = owner_id
  caller (resets session) = session.owner_id
  caller (saves_chunks chunks owner_id) = owner_id
  caller (replaces parent children owner_id) = owner_id
  caller (saves_findings chunk_id owner_id findings) = owner_id
  caller (records attempt owner_id) = owner_id
  caller (moves_chunk chunk owner_id event data_of) = owner_id
  caller (moves_review session event data_of) = session.owner_id
  caller (saves_recheck session attempt_id) = session.owner_id
  caller (moves_recheck session attempt_id event data_of) = session.owner_id

  unfoldable pub step : StoreCall B F D A → ReviewStore B F D A → ReviewStore B F D A
  step (creates session) s = (create session s).1
  step (saves session) s = (save session s).1
  step (renames review_id owner_id title) s = (update_title review_id owner_id title s).1
  step (publishes review_id owner_id event data_of) s =
      (publish review_id owner_id event data_of s).1
  step (exchanges question answer owner_id key) s =
      (append_followup_exchange question answer owner_id key s).1
  step (deletes review_id owner_id) s = (delete review_id owner_id s).1
  step (resets session) s = (reset_review session s).1
  step (saves_chunks chunks owner_id) s = (save_chunks chunks owner_id s).1
  step (replaces parent children owner_id) s = (replace_chunk parent children owner_id s).1
  step (saves_findings chunk_id owner_id findings) s =
      (save_chunk_findings chunk_id owner_id findings s).1
  step (records attempt owner_id) s = (record_attempt attempt owner_id s).1
  step (moves_chunk chunk owner_id event data_of) s =
      (transition_chunk chunk owner_id event data_of s).1
  step (moves_review session event data_of) s = (transition_review session event data_of s).1
  step (saves_recheck session attempt_id) s =
      (save_review_if_recheck_attempt session attempt_id s).1
  step (moves_recheck session attempt_id event data_of) s =
      (transition_review_if_recheck_attempt session attempt_id event data_of s).1

  unfoldable pub run : List (StoreCall B F D A) → ReviewStore B F D A → ReviewStore B F D A
  run [] s = s
  run (call ∷ calls) s = run calls (step call s)

  pub persist-Untouched :
      (r : String) (session current : ReviewSession B) (s : ReviewStore B F D A)
      → r ≢ session.review_id
      → Untouched r s (persist session current s)
  persist-Untouched r session current s ne = record {
    sessions = lookup-insert_ne r session.review_id _ s.sessions ne;
    events = refl;
    followups = λ key. refl;
    chunks = refl;
    attempts = refl;
  }

  pub append_event-Untouched :
      (r id : String) (event : ReviewEventType) (data_of : D) (o : Option (List (ReviewEvent D)))
      (s : ReviewStore B F D A)
      → r ≢ id
      → Untouched r s (append_event id event data_of o s).1
  append_event-Untouched r id event data_of none s ne = Untouched-refl r s
  append_event-Untouched r id event data_of (some events) s ne = record {
    sessions = refl;
    events = lookup-insert_ne r id _ s.events ne;
    followups = λ key. refl;
    chunks = refl;
    attempts = refl;
  }

  pub drop_chunks-Untouched :
      (r id : String) (s : ReviewStore B F D A) → r ≢ id → Untouched r s (drop_chunks id s)
  drop_chunks-Untouched r id s ne = record {
    sessions = refl;
    events = refl;
    followups = λ key. refl;
    chunks = values_of-keep_entries (λ (c : ReviewChunk). c.review_id) r id s.chunks ne;
    attempts = values_of-keep_entries (λ (a : ChunkAttempt A). a.review_id) r id s.attempts ne;
  }

  pub delete_review-Untouched :
      (r id : String) (s : ReviewStore B F D A) → r ≢ id → Untouched r s (delete_review id s)
  unfolding delete_review
  delete_review-Untouched r id s ne = record {
    sessions = lookup-erase_ne r id s.sessions ne;
    events = lookup-erase_ne r id s.events ne;
    followups = λ key. lookup-keep_entries_ne r id key s.followups ne;
    chunks = values_of-keep_entries (λ (c : ReviewChunk). c.review_id) r id s.chunks ne;
    attempts = values_of-keep_entries (λ (a : ChunkAttempt A). a.review_id) r id s.attempts ne;
  }

  pub create-Untouched :
      (r : String) (session mine : ReviewSession B) (s : ReviewStore B F D A)
      → lookup r s.sessions ≡ some mine
      → Untouched r s (create session s).1
  unfolding create
  create-Untouched r session mine s at = go (lookup session.review_id s.sessions) refl
    where
      go :
          (o : Option (ReviewSession B))
          → lookup session.review_id s.sessions ≡ o
          → Untouched r s (create_new o session s).1
      go (some _) e = Untouched-refl r s
      go none e = record {
        sessions = lookup-insert_ne r session.review_id _ s.sessions ne;
        events = lookup-insert_ne r session.review_id _ s.events ne;
        followups = λ key.
            lookup-insert_ne (r, key) (session.review_id, "review") _ s.followups
              (λ p. ne (ap (λ w. w.0) p));
        chunks = refl;
        attempts = refl;
      }
        where
          ne : r ≢ session.review_id
          ne same = ground (arith, subst (λ k. lookup k s.sessions ≡ some mine) same at)

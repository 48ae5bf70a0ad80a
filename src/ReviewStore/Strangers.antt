-- ===== src/ReviewStore/Strangers.antt =====
-- One user's calls leave the reviews of the others alone.
use code_astra.Base.{String, List, [], ◌∷◌, some, string_eq, nat_eq, pair_eq, ◌≡◌, ◌≢◌, ◌∙◌}
use code_astra.Base.Lists.{All}
use code_astra.Base.Dict.{lookup}
use code_astra.Base.Result.{Result, ok, err}
use code_astra.ReviewStore.{ReviewStore, ReviewSession, ReviewEventType, StoreError, publish}
use code_astra.ReviewStore.Enhanced.{save_chunk, then_publish, transition_chunk, transition_review}
use code_astra.ReviewStore.Untouched.{Untouched, Untouched-refl, Untouched-trans}
use code_astra.ReviewStore.Isolation.{
  StoreCall, creates, saves, renames, publishes, exchanges, deletes, resets, saves_chunks, replaces,
  saves_findings, records, moves_chunk, moves_review, saves_recheck, moves_recheck, caller, step,
  run, create-Untouched,
}
use code_astra.ReviewStore.Ownership.{
  save-Untouched, publish-Untouched, update_title-Untouched, exchange-Untouched, delete-Untouched,
  reset-Untouched, recheck-Untouched, moved_recheck-Untouched,
}
use code_astra.ReviewStore.OwnedChunks.{
  save_chunks-Untouched, replace-Untouched, findings-Untouched, attempt-Untouched,
}

module _ {B F D A : Type 0} (r : String) (s : ReviewStore B F D A) (mine : ReviewSession B)
    (at : lookup r s.sessions ≡ some mine) where
  -- A call that is followed by a publication, by the same owner.
  published-Untouched :
      (v : Result StoreError (Unit {0}) × ReviewStore B F D A) (id owner_id : String)
      (event : ReviewEventType) (data_of : D)
      → mine.owner_id ≢ owner_id
      → Untouched r s v.1
      → Untouched r s (then_publish v (publish id owner_id event data_of)).1
  published-Untouched (err e, t) id owner_id event data_of differs u = u
  published-Untouched (ok _, t) id owner_id event data_of differs u =
      Untouched-trans r s t (publish id owner_id event data_of t).1 u
        (publish-Untouched r t mine (u.sessions ∙ at) id owner_id event data_of differs)

  pub step-Untouched :
      (call : StoreCall B F D A) → mine.owner_id ≢ caller call → Untouched r s (step call s)
  unfolding step transition_chunk transition_review save_chunk
  step-Untouched (creates session) differs = create-Untouched r session mine s at
  step-Untouched (saves session) differs = save-Untouched r s mine at session differs
  step-Untouched (renames id owner_id title) differs =
      update_title-Untouched r s mine at id owner_id title differs
  step-Untouched (publishes id owner_id event data_of) differs =
      publish-Untouched r s mine at id owner_id event data_of differs
  step-Untouched (exchanges question answer owner_id key) differs =
      exchange-Untouched r s mine at question answer owner_id key differs
  step-Untouched (deletes id owner_id) differs = delete-Untouched r s mine at id owner_id differs
  step-Untouched (resets session) differs = reset-Untouched r s mine at session differs
  step-Untouched (saves_chunks chunks owner_id) differs =
      save_chunks-Untouched r s mine at chunks owner_id differs
  step-Untouched (replaces parent children owner_id) differs =
      replace-Untouched r s mine at parent children owner_id differs
  step-Untouched (saves_findings chunk_id owner_id findings) differs =
      findings-Untouched r s mine at chunk_id owner_id findings differs
  step-Untouched (records attempt owner_id) differs =
      attempt-Untouched r s mine at attempt owner_id differs
  step-Untouched (moves_chunk chunk owner_id event data_of) differs =
      published-Untouched _ chunk.review_id owner_id event data_of differs
        (save_chunks-Untouched r s mine at (chunk ∷ []) owner_id differs)
  step-Untouched (moves_review session event data_of) differs =
      published-Untouched _ session.review_id session.owner_id event data_of differs
        (save-Untouched r s mine at session differs)
  step-Untouched (saves_recheck session attempt_id) differs =
      recheck-Untouched r s mine at session attempt_id differs
  step-Untouched (moves_recheck session attempt_id event data_of) differs =
      moved_recheck-Untouched r s mine at session attempt_id event data_of differs

-- Whatever calls other users make, in any order, a user's review that is in the store keeps its session, its events, its
-- follow-ups, its chunks and its attempts.
pub strangers_change_nothing :
    {B F D A : Type 0} (r : String) (calls : List (StoreCall B F D A)) (s : ReviewStore B F D A)
    (mine : ReviewSession B)
    → lookup r s.sessions ≡ some mine
    → All (λ call. mine.owner_id ≢ caller call) calls
    → Untouched r s (run calls s)
unfolding run
strangers_change_nothing r [] s mine at h = Untouched-refl r s
strangers_change_nothing r (call ∷ calls) s mine at (differs, h) =
    let first = step-Untouched r s mine at call differs in
    Untouched-trans r s (step call s) (run calls (step call s)) first
      (strangers_change_nothing r calls (step call s) mine (first.sessions ∙ at) h)

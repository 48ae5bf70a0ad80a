-- ===== src/SqliteReviews/Clients.antt =====
-- What a client of either store calls and is told.
use code_astra.Base.{ℕ, String, Bool, List, [], ◌∷◌, Option}
use code_astra.Base.Result.{Result, ok, err}
use code_astra.Domain.Chunks.{ReviewChunk}
use code_astra.ReviewStore.{
  ReviewStore, ReviewSession, ReviewEvent, ReviewEventType, create, save, update_title, publish,
  get, events_after,
}
use code_astra.ReviewStore.Enhanced.{reset_review, delete, transition_chunk, transition_review}
use code_astra.ReviewStore.Rechecks.{
  is_recheck_attempt_current, save_review_if_recheck_attempt, transition_review_if_recheck_attempt,
}
use code_astra.SqliteReviews.{Tables}
use code_astra.SqliteReviews.Sessions
use code_astra.SqliteReviews.Chunks

pub data Call (B D : Type 0) : Type 0 where
  creates : ReviewSession B → Call B D
  reads : String → String → Call B D
  saves : ReviewSession B → Call B D
  renames : String → String → String → Call B D
  resets : ReviewSession B → Call B D
  deletes : String → String → Call B D
  publishes : String → String → ReviewEventType → D → Call B D
  reads_events : String → String → ℕ → Call B D
  moves_chunk : ReviewChunk → String → ReviewEventType → D → Call B D
  moves_review : ReviewSession B → ReviewEventType → D → Call B D
  asks_recheck : String → String → String → Call B D
  saves_recheck : ReviewSession B → String → Call B D
  moves_recheck : ReviewSession B → String → ReviewEventType → D → Call B D

-- What comes back; an exception of either store is `refused`.
pub data Answer (B D : Type 0) : Type 0 where
  refused done : Answer B D
  found : Option (ReviewSession B) → Answer B D
  session : ReviewSession B → Answer B D
  event : ReviewEvent D → Answer B D
  events : List (ReviewEvent D) → Answer B D
  flag : Bool → Answer B D

abbrev pub tell : {B D E X : Type 0} → (X → Answer B D) → Result E X → Answer B D
tell f (ok x) = f x
tell f (err e) = refused

-- An answer and what the call leaves.
abbrev pub told : {B D E X S : Type 0} → (X → Answer B D) → Result E X × S → Answer B D × S
told f (r, s) = (tell f r, s)

abbrev pub flagged : {B D S : Type 0} → Bool × S → Answer B D × S
flagged (b, s) = (flag b, s)

module _ {B F D A : Type 0} where
  unfoldable pub memory : Call B D → ReviewStore B F D A → Answer B D × ReviewStore B F D A
  memory (creates x) s = told (λ _. done) (create x s)
  memory (reads id owner) s = (found (get id owner s), s)
  memory (saves x) s = told (λ _. done) (save x s)
  memory (renames id owner title) s = told session (update_title id owner title s)
  memory (resets x) s = told (λ _. done) (reset_review x s)
  memory (deletes id owner) s = flagged (delete id owner s)
  memory (publishes id owner e d) s = told event (publish id owner e d s)
  memory (reads_events id owner after) s = (tell events (events_after id owner after s), s)
  memory (moves_chunk c owner e d) s = told event (transition_chunk c owner e d s)
  memory (moves_review x e d) s = told event (transition_review x e d s)
  memory (asks_recheck id owner attempt) s =
      (tell flag (is_recheck_attempt_current id owner attempt s), s)
  memory (saves_recheck x attempt) s = told flag (save_review_if_recheck_attempt x attempt s)
  memory (moves_recheck x attempt e d) s =
      told flag (transition_review_if_recheck_attempt x attempt e d s)

  unfoldable pub sqlite : Call B D → Tables B F D A → Answer B D × Tables B F D A
  sqlite (creates x) t = told (λ _. done) (Sessions.create x t)
  sqlite (reads id owner) t = (found (Sessions.get id owner t), t)
  sqlite (saves x) t = told (λ _. done) (Sessions.save x t)
  sqlite (renames id owner title) t = told session (Sessions.update_title id owner title t)
  sqlite (resets x) t = told (λ _. done) (Sessions.reset_review x t)
  sqlite (deletes id owner) t = flagged (Sessions.delete id owner t)
  sqlite (publishes id owner e d) t = told event (Sessions.publish id owner e d t)
  sqlite (reads_events id owner after) t = (tell events (Sessions.events_after id owner after t), t)
  sqlite (moves_chunk c owner e d) t = told event (Chunks.transition_chunk c owner e d t)
  sqlite (moves_review x e d) t = told event (Sessions.transition_review x e d t)
  sqlite (asks_recheck id owner attempt) t =
      (tell flag (Sessions.is_recheck_attempt_current id owner attempt t), t)
  sqlite (saves_recheck x attempt) t =
      told flag (Sessions.save_review_if_recheck_attempt x attempt t)
  sqlite (moves_recheck x attempt e d) t =
      told flag (Sessions.transition_review_if_recheck_attempt x attempt e d t)

-- The answers to a list of calls, and what they leave.
unfoldable pub session_with :
    {B D S : Type 0} → (Call B D → S → Answer B D × S) → List (Call B D) → S → List (Answer B D) × S
session_with store [] s = ([], s)
session_with store (call ∷ calls) s =
    let (answer, s') = store call s in
    let (answers, s'') = session_with store calls s' in (answer ∷ answers, s'')

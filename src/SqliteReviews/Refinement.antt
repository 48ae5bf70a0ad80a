-- ===== src/SqliteReviews/Refinement.antt =====
-- The store over SQLite answers as the store in memory does.
use code_astra.Base.{String, List, [], ◌∷◌, Option, none, some, string_eq, ◌≡◌, refl, ap, arith}
use code_astra.Base.Dict.{lookup}
use code_astra.ReviewStore
use code_astra.ReviewStore.{
  ReviewStore, ReviewSession, ReviewEvent, ReviewEventType, StoreError, next_event, after_sequence,
}
use code_astra.SqliteReviews
use code_astra.SqliteReviews.{
  Tables, SessionRow, EventRow, SqlError, session_of, events_at, event_of, last_sequence, earlier,
  append_event, write_row, delete_session, row_of, update_all, update_status,
}
use code_astra.SqliteReviews.Sessions
use code_astra.SqliteReviews.Sessions.{read_session, preserve_title}
use code_astra.SqliteReviews.Clients.{Call, found, memory, sqlite, session_with}
use code_astra.SqliteReviews.Represents.{Represents}
use code_astra.SqliteReviews.Agreement.{Agrees}
use code_astra.SqliteReviews.Steps.{
  create-Agrees, save-Agrees, rename-Agrees, publish-Agrees, reset-Agrees, delete-Agrees,
  moved_review-Agrees, moved_chunk-Agrees, asked-Agrees, events-Agrees, saved_recheck-Agrees,
  moved_recheck-Agrees,
}

module _ {B F D A : Type 0} where
  get_lem :
      (t : Tables B F D A) (s : ReviewStore B F D A)
      → Represents t s
      → (id owner : String) → Sessions.get id owner t ≡ ReviewStore.get id owner s
  unfolding Sessions.get ReviewStore.get
  get_lem t s h id owner = go (lookup id t.review_sessions) (lookup id s.sessions) (h.sessions id)
    where
      go :
          (o : Option (SessionRow B)) (p : Option (ReviewSession B))
          → read_session o ≡ p
          → read_session (SqliteReviews.if_owner owner o) ≡ ReviewStore.if_owner owner p
      go none p e = rw (← e) refl
      go (some row) p e = rw (← e) (ground arith)

  pub step-Agrees :
      (call : Call B D) (t : Tables B F D A) (s : ReviewStore B F D A)
      → Represents t s
      → Agrees (sqlite call t) (memory call s)
  unfolding sqlite memory
  step-Agrees (Call.creates x) t s h = create-Agrees t s h x
  step-Agrees (Call.reads id owner) t s h = (ap found (get_lem t s h id owner), h)
  step-Agrees (Call.saves x) t s h = save-Agrees t s h x
  step-Agrees (Call.renames id owner title) t s h = rename-Agrees t s h id owner title
  step-Agrees (Call.resets x) t s h = reset-Agrees t s h x
  step-Agrees (Call.deletes id owner) t s h = delete-Agrees t s h id owner
  step-Agrees (Call.publishes id owner e d) t s h = publish-Agrees t s h id owner e d
  step-Agrees (Call.reads_events id owner after) t s h = (events-Agrees t s h id owner after, h)
  step-Agrees (Call.moves_chunk c owner e d) t s h = moved_chunk-Agrees t s h c owner e d
  step-Agrees (Call.moves_review x e d) t s h = moved_review-Agrees t s h x e d
  step-Agrees (Call.asks_recheck id owner attempt) t s h = (asked-Agrees t s h id owner attempt, h)
  step-Agrees (Call.saves_recheck x attempt) t s h = saved_recheck-Agrees t s h x attempt
  step-Agrees (Call.moves_recheck x attempt e d) t s h = moved_recheck-Agrees t s h x attempt e d

  run-Agrees :
      (calls : List (Call B D)) (t : Tables B F D A) (s : ReviewStore B F D A)
      → Represents t s
      → ((session_with sqlite calls t).0 ≡ (session_with memory calls s).0)
        × Represents (session_with sqlite calls t).1 (session_with memory calls s).1
  unfolding session_with
  run-Agrees [] t s h = (refl, h)
  run-Agrees (call ∷ calls) t s h =
      let (same, h') = step-Agrees call t s h in
      let (rest, h'') = run-Agrees calls (sqlite call t).1 (memory call s).1 h' in (cc, h'')

  init-Represents :
      Represents
        (SqliteReviews.init {B = B} {F = F} {D = D} {A = A})
        (ReviewStore.init {B = B} {F = F} {D = D} {A = A})
  unfolding SqliteReviews.init ReviewStore.init lookup
  init-Represents = record { sessions = λ k. refl; events = λ k. refl; chunks = refl }

-- From empty stores, the store over SQLite gives the same answers as the store in memory to any
-- sequence of calls on reviews, their events, their titles, their rechecks and transitions of their
-- chunks, where any exception is one answer, `refused`.
pub stores_agree :
    (F A : Type 0) {B D : Type 0} (calls : List (Call B D))
    → (session_with (sqlite {F = F} {A = A}) calls SqliteReviews.init).0
      ≡ (session_with (memory {F = F} {A = A}) calls ReviewStore.init).0
stores_agree F A calls =
    (run-Agrees {F = F} {A = A} calls SqliteReviews.init ReviewStore.init init-Represents).0

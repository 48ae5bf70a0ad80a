-- ===== src/SqliteReviews/Steps.antt =====
-- Each call on the store over SQLite agrees with the call on the store in memory.
use code_astra.Base.{
  ℕ, String, Bool, true, false, not, List, Option, none, some, ltb, ◌==◌, string_eq, if◌then◌else◌,
  ◌≡◌, refl, sym, ap, subst, ◌∙◌, arith, Bool-cases, inl, inr,
}
use code_astra.Base.Dict.{lookup, insert, keep_entries, lookup-insert_self}
use code_astra.Base.Result.{err}
use code_astra.Domain.Chunks.{ReviewChunk}
use code_astra.ReviewStore
use code_astra.ReviewStore.{
  ReviewStore, ReviewSession, ReviewEvent, ReviewEventType, StoreError, next_event, after_sequence,
}
use code_astra.ReviewStore.Enhanced
use code_astra.ReviewStore.Rechecks
use code_astra.ReviewStore.Rechecks.{matches_running_recheck}
use code_astra.SqliteReviews
use code_astra.SqliteReviews.{
  Tables, SessionRow, EventRow, SqlError, session_of, events_at, event_of, last_sequence, earlier,
  append_event, write_row, delete_session, row_of, update_all, update_status,
}
use code_astra.SqliteReviews.Sessions
use code_astra.SqliteReviews.Sessions.{read_session, preserve_title}
use code_astra.SqliteReviews.Chunks
use code_astra.SqliteReviews.Clients.{done, session, event, events, flag, tell, told, flagged}
use code_astra.SqliteReviews.Represents.{
  EventsAgree, Represents, Represents-write, Represents-create, Represents-delete, sort-Numbered,
}
use code_astra.ReviewStore.Transitions.{transition_review_lem, transition_chunk_lem}
use code_astra.SqliteReviews.Agreement.{Agrees, owned-Agrees, if-Agrees, append_lem}

module _ {B F D A : Type 0} (t : Tables B F D A) (s : ReviewStore B F D A)
    (h : Represents t s) where
  pub create-Agrees :
      (x : ReviewSession B)
      → Agrees (told (λ _. done) (Sessions.create x t)) (told (λ _. done) (ReviewStore.create x s))
  unfolding Sessions.create ReviewStore.create
  create-Agrees x =
      go (lookup x.review_id t.review_sessions) (lookup x.review_id s.sessions)
        (h.sessions x.review_id) refl
    where
      go :
          (o : Option (SessionRow B)) (p : Option (ReviewSession B))
          → read_session o ≡ p
          → lookup x.review_id s.sessions ≡ p
          → Agrees
              (told (λ _. done) (Sessions.create_new o x t))
              (told (λ _. done) (ReviewStore.create_new p x s))
      go (some row) p e at = rw (← e) (refl, h)
      go none p e at = rw (← e) (refl, Represents-create x t s h (at ∙ sym e))

  pub save-Agrees :
      (x : ReviewSession B)
      → Agrees (told (λ _. done) (Sessions.save x t)) (told (λ _. done) (ReviewStore.save x s))
  unfolding Sessions.save ReviewStore.save SqliteReviews.require_owner ReviewStore.require_owner
  save-Agrees x = owned-Agrees t s h _ _ x.review_id x.owner_id _ _ (λ row at owner. (
    refl,
    Represents-write x.review_id (update_all (preserve_title x row) row)
        (record x { title = row.payload.title }) (session_of row) t s h at (ground (arith, owner)),
  ))

  pub rename-Agrees :
      (id owner title : String)
      → Agrees
          (told session (Sessions.update_title id owner title t))
          (told session (ReviewStore.update_title id owner title s))
  unfolding Sessions.update_title ReviewStore.update_title SqliteReviews.require_owner
      ReviewStore.require_owner
  rename-Agrees id owner title = owned-Agrees t s h _ _ id owner _ _ (λ row at owner_is. (
    refl,
    Represents-write id (record row { payload = record (session_of row) { title = some title } })
        (record (session_of row) { title = some title }) (session_of row) t s h at refl,
  ))

  pub publish-Agrees :
      (id owner : String) (e : ReviewEventType) (d : D)
      → Agrees
          (told event (Sessions.publish id owner e d t))
          (told event (ReviewStore.publish id owner e d s))
  unfolding Sessions.publish ReviewStore.publish SqliteReviews.require_owner
      ReviewStore.require_owner
  publish-Agrees id owner e d = owned-Agrees t s h _ _ id owner _ _ (λ row at owner_is.
      let a = append_lem t s h id e d (session_of row) at in
      rw (a.at_review, a.same_event) (refl, a.represents))

  write_status :
      (x : ReviewSession B) (row : SessionRow B)
      → lookup x.review_id s.sessions ≡ some (session_of row)
      → row.owner_id ≡ x.owner_id
      → Represents
          (write_row x.review_id (update_status (preserve_title x row) row) t)
          (ReviewStore.persist x (session_of row) s)
  write_status x row at owner =
      Represents-write x.review_id (update_status (preserve_title x row) row)
        (record x { title = row.payload.title }) (session_of row) t s h at (ground (arith, owner))

  pub reset-Agrees :
      (x : ReviewSession B)
      → Agrees
          (told (λ _. done) (Sessions.reset_review x t))
          (told (λ _. done) (Enhanced.reset_review x s))
  unfolding Sessions.reset_review Enhanced.reset_review SqliteReviews.require_owner
      ReviewStore.require_owner
  reset-Agrees x = owned-Agrees t s h _ _ x.review_id x.owner_id _ _ (λ row at owner.
      let w =
        Represents-write x.review_id (update_all (preserve_title x row) row)
          (record x { title = row.payload.title }) (session_of row) t s h at
          (ground (arith, owner)) in
      (
        refl,
        record {
          sessions = w.sessions;
          events = w.events;
          chunks =
              ap (keep_entries (λ _ (chunk : ReviewChunk). not (chunk.review_id == x.review_id)))
                h.chunks;
        },
      ))

  pub delete-Agrees :
      (id owner : String)
      → Agrees (flagged (Sessions.delete id owner t)) (flagged (Enhanced.delete id owner s))
  unfolding Sessions.delete Enhanced.delete Enhanced.delete_review ReviewStore.require_owner
  delete-Agrees id owner = go (lookup id t.review_sessions) (lookup id s.sessions) (h.sessions id)
    where
      go :
          (o : Option (SessionRow B)) (p : Option (ReviewSession B))
          → read_session o ≡ p
          → Agrees (flagged (Sessions.delete_found (SqliteReviews.if_owner owner o) id t)) (
              flagged (
                if◌then◌else◌ {A = Bool × ReviewStore B F D A}
                  (Enhanced.is_owned (ReviewStore.if_owner owner p))
                  (true, Enhanced.delete_review id s)
                  (false, s)))
      go none p e = rw (← e) (refl, h)
      go (some row) p e = rw (← e) (elim (Bool-cases (row.owner_id == owner)) [
        | inl same ↦ rw same (
          refl,
          record {
            sessions = λ k. (Represents-delete id t s h k).0;
            events = λ k. (Represents-delete id t s h k).1;
            chunks =
                ap (keep_entries (λ _ (chunk : ReviewChunk). not (chunk.review_id == id))) h.chunks;
          },
        )
        | inr differs ↦ rw differs (refl, h)
      ])

  pub moved_review-Agrees :
      (x : ReviewSession B) (e : ReviewEventType) (d : D)
      → Agrees
          (told event (Sessions.transition_review x e d t))
          (told event (Enhanced.transition_review x e d s))
  unfolding Sessions.transition_review SqliteReviews.require_owner ReviewStore.require_owner
  moved_review-Agrees x e d = rw (transition_review_lem e d s x) (
      owned-Agrees t s h _ _ x.review_id x.owner_id _ _ (λ row at owner.
        let w = write_status x row at owner in
        let a =
          append_lem (write_row x.review_id (update_status (preserve_title x row) row) t)
            (ReviewStore.persist x (session_of row) s) w x.review_id e d
            (record x { title = row.payload.title })
            (lookup-insert_self x.review_id (record x { title = row.payload.title }) s.sessions) in
        rw (a.at_review, a.same_event) (refl, a.represents)))

  pub moved_chunk-Agrees :
      (c : ReviewChunk) (owner : String) (e : ReviewEventType) (d : D)
      → Agrees
          (told event (Chunks.transition_chunk c owner e d t))
          (told event (Enhanced.transition_chunk c owner e d s))
  unfolding Chunks.transition_chunk SqliteReviews.require_owner ReviewStore.require_owner
  moved_chunk-Agrees c owner e d = rw (transition_chunk_lem e d s c owner) (
      owned-Agrees t s h _ _ c.review_id owner _ _ (λ row at owner_is.
        subst
          (λ u.
            Agrees
              (told event (
                Chunks.move_chunk
                  (if Enhanced.same_review c.review_id (lookup c.chunk_id u)
                    then some (insert c.chunk_id c u)
                    else none)
                  c.review_id e d t))
              (told event (
                if Enhanced.same_review c.review_id (lookup c.chunk_id s.chunks)
                then ReviewStore.append_event c.review_id e d (lookup c.review_id s.events)
                    (record s { chunks = insert c.chunk_id c s.chunks })
                else (err ReviewStore.key_error, s))))
          (sym h.chunks)
          (go row at (Enhanced.same_review c.review_id (lookup c.chunk_id s.chunks)))))
    where
      rows :
          Represents
            (record t { review_chunks = insert c.chunk_id c s.chunks })
            (record s { chunks = insert c.chunk_id c s.chunks })
      rows = record { sessions = h.sessions; events = h.events; chunks = refl }

      go :
          (row : SessionRow B)
          → lookup c.review_id s.sessions ≡ some (session_of row)
          → (b : Bool)
          → Agrees
              (told event (
                Chunks.move_chunk
                  (if b then some (insert c.chunk_id c s.chunks) else none)
                  c.review_id
                  e
                  d
                  t))
              (told event (
                if b
                then ReviewStore.append_event c.review_id e d
                    (lookup c.review_id s.events)
                    (record s { chunks = insert c.chunk_id c s.chunks })
                else (err ReviewStore.key_error, s)))
      go row at false = (refl, h)
      go row at true =
          let a =
            append_lem (record t { review_chunks = insert c.chunk_id c s.chunks })
              (record s { chunks = insert c.chunk_id c s.chunks }) rows c.review_id e d
              (session_of row) at in
          rw (a.at_review, a.same_event) (refl, a.represents)

  pub asked-Agrees :
      (id owner attempt : String)
      → tell {B = B} {D = D} flag (Sessions.is_recheck_attempt_current id owner attempt t)
        ≡ tell flag (Rechecks.is_recheck_attempt_current id owner attempt s)
  unfolding Sessions.is_recheck_attempt_current Rechecks.is_recheck_attempt_current
      ReviewStore.require_owner
  asked-Agrees id owner attempt =
      go (lookup id t.review_sessions) (lookup id s.sessions) (h.sessions id)
    where
      go :
          (o : Option (SessionRow B)) (p : Option (ReviewSession B))
          → read_session o ≡ p
          → tell {B = B} {D = D} flag (Sessions.asked attempt (SqliteReviews.if_owner owner o))
            ≡ tell flag (Rechecks.asked attempt (ReviewStore.if_owner owner p))
      go none p e = rw (← e) refl
      go (some row) p e = rw (← e) (elim (Bool-cases (row.owner_id == owner)) [
        | inl same ↦ rw same refl
        | inr differs ↦ rw differs refl
      ])

  pub events-Agrees :
      (id owner : String) (after : ℕ)
      → tell {B = B} {D = D} events (Sessions.events_after id owner after t)
        ≡ tell events (ReviewStore.events_after id owner after s)
  unfolding Sessions.events_after ReviewStore.events_after ReviewStore.require_owner
      SqliteReviews.require_owner
  events-Agrees id owner after =
      go (lookup id t.review_sessions) (lookup id s.sessions) (h.sessions id) (lookup id s.events)
        (h.events id)
    where
      stored : List (ReviewEvent D)
      stored = events_at id t.review_events

      go :
          (o : Option (SessionRow B)) (p : Option (ReviewSession B))
          → read_session o ≡ p
          → (l : Option (List (ReviewEvent D))) → EventsAgree p l stored
          → tell {B = B} {D = D} events
              (Sessions.read_after after stored (SqliteReviews.if_owner owner o))
            ≡ tell events
                (ReviewStore.read_owned (ReviewStore.if_owner owner p) (after_sequence after l))
      go none p e l a = rw (← e) refl
      go (some row) p e l a =
          rw (← e) (found_row row l (subst (λ p. EventsAgree p l stored) (sym e) a))
        where
          found_row :
              (row : SessionRow B) (l : Option (List (ReviewEvent D)))
              → EventsAgree (some (session_of row)) l stored
              → tell {B = B} {D = D} events
                  (Sessions.read_after after stored (SqliteReviews.if_owner owner (some row)))
                ≡ tell events (
                    ReviewStore.read_owned
                      (ReviewStore.if_owner owner (some (session_of row)))
                      (after_sequence after l))
          found_row row none a = absurd a
          found_row row (some l) (same, n) = elim (Bool-cases (row.owner_id == owner)) [
            | inl is_owner ↦ rw is_owner (
                ap (λ es. events es)
                  (rw (← same)
                    (sort-Numbered 0 (λ (event : ReviewEvent D). ltb after event.sequence) l n)))
            | inr differs ↦ rw differs refl
          ]

  pub saved_recheck-Agrees :
      (x : ReviewSession B) (attempt : String)
      → Agrees
          (told flag (Sessions.save_review_if_recheck_attempt x attempt t))
          (told flag (Rechecks.save_review_if_recheck_attempt x attempt s))
  unfolding Sessions.save_review_if_recheck_attempt Rechecks.save_review_if_recheck_attempt
      ReviewStore.require_owner
  saved_recheck-Agrees x attempt =
      owned-Agrees t s h _ _ x.review_id x.owner_id _ _ (λ row at owner.
        if-Agrees t s h _ _ (matches_running_recheck (session_of row) attempt) _ _ _ _
          (refl, write_status x row at owner) (refl, h))

  pub moved_recheck-Agrees :
      (x : ReviewSession B) (attempt : String) (e : ReviewEventType) (d : D)
      → Agrees
          (told flag (Sessions.transition_review_if_recheck_attempt x attempt e d t))
          (told flag (Rechecks.transition_review_if_recheck_attempt x attempt e d s))
  unfolding Sessions.transition_review_if_recheck_attempt
      Rechecks.transition_review_if_recheck_attempt ReviewStore.require_owner
  moved_recheck-Agrees x attempt e d =
      owned-Agrees t s h _ _ x.review_id x.owner_id _ _ (λ row at owner.
        if-Agrees t s h _ _ (matches_running_recheck (session_of row) attempt) _ _ _ _
          (appended row (write_status x row at owner)) (refl, h))
    where
      appended :
          (row : SessionRow B)
          → Represents
              (write_row x.review_id (update_status (preserve_title x row) row) t)
              (ReviewStore.persist x (session_of row) s)
          → Agrees
              (told flag (
                Sessions.report_true (
                  append_event x.review_id e d
                    (write_row x.review_id (update_status (preserve_title x row) row) t))))
              (told flag (
                Rechecks.reports_true (
                  ReviewStore.append_event x.review_id e d
                    (lookup x.review_id s.events)
                    (ReviewStore.persist x (session_of row) s))))
      appended row w =
          let a =
            append_lem (write_row x.review_id (update_status (preserve_title x row) row) t)
              (ReviewStore.persist x (session_of row) s) w x.review_id e d
              (record x { title = row.payload.title })
              (lookup-insert_self x.review_id (record x { title = row.payload.title })
                s.sessions) in
          rw a.at_review (refl, a.represents)

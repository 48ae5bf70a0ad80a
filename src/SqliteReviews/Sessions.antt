-- ===== src/SqliteReviews/Sessions.antt =====
-- src/code_review/infrastructure/persistence/sqlite_review_store.py: the methods of
-- `SQLiteReviewStore` on sessions and events. A method is one transaction under the lock: where it
-- raises, the tables are as they were.
use code_astra.Base.{
  ℕ, String, Bool, true, false, not, List, [], ◌∷◌, map, Option, none, some, ltb, leb, ◌==◌,
  string_eq, nat_eq, if◌then◌else◌, text_lt,
}
use code_astra.Base.Lists.{filter, drop, take}
use code_astra.Base.Dict.{Dict, lookup, keep_entries, keys}
use code_astra.Base.Sort.{sort_by}
use code_astra.Base.Result.{Result, ok, err}
use code_astra.Domain.Chunks.{ReviewChunk}
use code_astra.ReviewStore.{ReviewSession, ReviewEvent, ReviewEventType}
use code_astra.ReviewStore.Rechecks.{matches_running_recheck}
use code_astra.SqliteReviews.{
  Tables, SessionRow, FindingRow, SqlError, key_error, integrity_error, session_of, row_of,
  if_owner, update_all, update_status, events_at, earlier, require_owner, append_event, write_row,
  delete_session,
}

-- `SELECT … WHERE expires_at <= ?`, the ids
abbrev pub expired_ids : {B : Type 0} → ℕ → Dict String (SessionRow B) → List String
expired_ids {B = B} now rows =
    keys (keep_entries (λ _ (row : SessionRow B). leb row.expires_at now) rows)

abbrev pub read_session : {B : Type 0} → Option (SessionRow B) → Option (ReviewSession B)
read_session none = none
read_session (some row) = some (session_of row)

-- `_preserve_title`
abbrev pub preserve_title : {B : Type 0} → ReviewSession B → SessionRow B → ReviewSession B
preserve_title session row = record session { title = (session_of row).title }

-- The order of `created_at DESC, review_id DESC`, over the rows with their keys.
abbrev pub newer_row : {B : Type 0} → String × SessionRow B → String × SessionRow B → Bool
newer_row a b =
    if ltb b.1.created_at a.1.created_at
    then true
    else if ltb a.1.created_at b.1.created_at
    then false
    else text_lt b.0 a.0

abbrev pub asked : {B : Type 0} → String → Option (SessionRow B) → Result SqlError Bool
asked attempt_id none = err key_error
asked attempt_id (some row) = ok (matches_running_recheck (session_of row) attempt_id)

abbrev pub read_after :
    {B D : Type 0}
    → ℕ
    → List (ReviewEvent D)
    → Option (SessionRow B)
    → Result SqlError (List (ReviewEvent D))
read_after {D = D} after events none = err key_error
read_after {D = D} after events (some _) =
    ok (sort_by earlier (filter (λ (event : ReviewEvent D). ltb after event.sequence) events))

module _ {B F D A : Type 0} where
  abbrev pub when_owned :
      {X : Type 0}
      → Option (SessionRow B)
      → (SessionRow B → Result SqlError X × Tables B F D A)
      → Tables B F D A
      → Result SqlError X × Tables B F D A
  when_owned none act t = (err key_error, t)
  when_owned (some row) act t = act row

  abbrev pub create_new :
      Option (SessionRow B)
      → ReviewSession B
      → Tables B F D A
      → Result SqlError (Unit {0}) × Tables B F D A
  create_new (some _) session t = (err integrity_error, t)
  create_new none session t = (ok tt, write_row session.review_id (row_of session) t)

  unfoldable pub create :
      ReviewSession B → Tables B F D A → Result SqlError (Unit {0}) × Tables B F D A
  create session t = create_new (lookup session.review_id t.review_sessions) session t

  unfoldable pub get : String → String → Tables B F D A → Option (ReviewSession B)
  get review_id owner_id t = read_session (if_owner owner_id (lookup review_id t.review_sessions))

  unfoldable pub save :
      ReviewSession B → Tables B F D A → Result SqlError (Unit {0}) × Tables B F D A
  save session t =
      when_owned (require_owner session.review_id session.owner_id t)
        (λ row.
          (ok tt, write_row session.review_id (update_all (preserve_title session row) row) t))
        t

  unfoldable pub update_title :
      String → String → String → Tables B F D A → Result SqlError (ReviewSession B) × Tables B F D A
  update_title review_id owner_id title t =
      when_owned (require_owner review_id owner_id t)
        (λ row.
          let renamed = record (session_of row) { title = some title } in
          (ok renamed, write_row review_id (record row { payload = renamed }) t))
        t

  unfoldable pub list_sessions : String → ℕ → ℕ → Tables B F D A → List (ReviewSession B)
  list_sessions owner_id limit offset t =
      map (λ (row : String × SessionRow B). session_of row.1)
        (take limit (
          drop offset (
            sort_by newer_row (
              filter (λ (row : String × SessionRow B). row.1.owner_id == owner_id)
                t.review_sessions))))

  unfoldable pub reset_review :
      ReviewSession B → Tables B F D A → Result SqlError (Unit {0}) × Tables B F D A
  reset_review session t =
      when_owned (require_owner session.review_id session.owner_id t)
        (λ row. (
          ok tt,
          record (write_row session.review_id (update_all (preserve_title session row) row) t) {
            review_findings =
                filter (λ (row : FindingRow F). not (row.review_id == session.review_id))
                  t.review_findings;
            chunk_attempts =
                keep_entries (λ _ attempt. not (attempt.review_id == session.review_id))
                  t.chunk_attempts;
            review_chunks =
                keep_entries (λ _ (chunk : ReviewChunk). not (chunk.review_id == session.review_id))
                  t.review_chunks;
            model_runs = filter (λ review_id. not (review_id == session.review_id)) t.model_runs;
          },
        ))
        t

  abbrev pub report_ok : {X : Type 0} → X × Tables B F D A → Result SqlError X × Tables B F D A
  report_ok (x, t) = (ok x, t)

  unfoldable pub publish :
      String
      → String
      → ReviewEventType
      → D
      → Tables B F D A
      → Result SqlError (ReviewEvent D) × Tables B F D A
  publish review_id owner_id event data_of t =
      when_owned (require_owner review_id owner_id t)
        (λ _. report_ok (append_event review_id event data_of t)) t

  unfoldable pub transition_review :
      ReviewSession B
      → ReviewEventType
      → D
      → Tables B F D A
      → Result SqlError (ReviewEvent D) × Tables B F D A
  transition_review session event data_of t =
      when_owned (require_owner session.review_id session.owner_id t)
        (λ row. report_ok (
          append_event session.review_id event data_of
            (write_row session.review_id (update_status (preserve_title session row) row) t)))
        t

  unfoldable pub is_recheck_attempt_current :
      String → String → String → Tables B F D A → Result SqlError Bool
  is_recheck_attempt_current review_id owner_id attempt_id t =
      asked attempt_id (if_owner owner_id (lookup review_id t.review_sessions))

  unfoldable pub save_review_if_recheck_attempt :
      ReviewSession B → String → Tables B F D A → Result SqlError Bool × Tables B F D A
  save_review_if_recheck_attempt session attempt_id t =
      when_owned (if_owner session.owner_id (lookup session.review_id t.review_sessions))
        (λ row.
          if matches_running_recheck (session_of row) attempt_id
          then (
            ok true,
            write_row session.review_id (update_status (preserve_title session row) row) t,
          )
          else (ok false, t))
        t

  abbrev pub report_true : {X : Type 0} → X × Tables B F D A → Result SqlError Bool × Tables B F D A
  report_true (_, t) = (ok true, t)

  unfoldable pub transition_review_if_recheck_attempt :
      ReviewSession B
      → String
      → ReviewEventType
      → D
      → Tables B F D A
      → Result SqlError Bool × Tables B F D A
  transition_review_if_recheck_attempt session attempt_id event data_of t =
      when_owned (if_owner session.owner_id (lookup session.review_id t.review_sessions))
        (λ row.
          if matches_running_recheck (session_of row) attempt_id
          then report_true (
              append_event session.review_id event data_of
                (write_row session.review_id (update_status (preserve_title session row) row) t))
          else (ok false, t))
        t

  unfoldable pub events_after :
      String → String → ℕ → Tables B F D A → Result SqlError (List (ReviewEvent D))
  events_after review_id owner_id after t =
      read_after after (events_at review_id t.review_events) (require_owner review_id owner_id t)

  abbrev pub delete_each : List String → Tables B F D A → Tables B F D A
  delete_each [] t = t
  delete_each (review_id ∷ review_ids) t = delete_each review_ids (delete_session review_id t)

  unfoldable pub delete_expired : ℕ → Tables B F D A → List String × Tables B F D A
  delete_expired now t =
      let review_ids = expired_ids now t.review_sessions in (review_ids, delete_each review_ids t)

  abbrev pub delete_found : Option (SessionRow B) → String → Tables B F D A → Bool × Tables B F D A
  delete_found none review_id t = (false, t)
  delete_found (some _) review_id t = (
    true,
    record (delete_session review_id t) {
      model_runs = filter (λ run. not (run == review_id)) t.model_runs;
    },
  )

  unfoldable pub delete : String → String → Tables B F D A → Bool × Tables B F D A
  delete review_id owner_id t =
      delete_found (if_owner owner_id (lookup review_id t.review_sessions)) review_id t

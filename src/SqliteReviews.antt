-- ===== src/SqliteReviews.antt =====
-- The tables of src/code_review/infrastructure/persistence/sqlite_review_store.py and the statements
-- that `SQLiteReviewStore` runs on sessions and events. A table with a text for its primary key is a
-- dictionary from the key to the rest of the row. What is written as JSON is the value itself: pydantic
-- reads back what it wrote, except that a session is written without its owner. The columns of a
-- chunk beside its payload are copies of the payload's fields.
pub mod Sessions
pub mod Chunks
pub mod Represents
pub mod Clients
pub mod Agreement
pub mod Steps
pub mod Refinement
pub mod Recovery
mod Tests
use code_astra.Base.{
  ℕ, ◌+◌, max, String, Bool, true, false, not, ◌&&◌, ◌||◌, List, [], ◌∷◌, ◌++◌, map, Option, none,
  some, ltb, leb, ◌==◌, string_eq, nat_eq, pair_eq, if◌then◌else◌, text_lt,
}
use code_astra.Base.Lists.{length, filter}
use code_astra.Base.Dict.{Dict, lookup, insert, erase, values, keep_entries, keys}
use code_astra.Base.Sort.{sort_by}
use code_astra.Domain.Chunks.{ReviewChunk}
use code_astra.ReviewStore.{
  ReviewSession, ReviewStatus, ReviewEvent, ReviewEventType, FollowupMessage, ChunkAttempt,
}

pub data SqlError : Type 0 where
  key_error value_error integrity_error : SqlError

pub record SessionRow (B : Type 0) : Type 0 where
  pub owner_id : String
  pub status : ReviewStatus
  pub created_at : ℕ
  pub expires_at : ℕ
  pub payload : ReviewSession B

pub record EventRow (D : Type 0) : Type 0 where
  pub review_id : String
  pub sequence : ℕ
  pub event : ReviewEventType
  pub data_of : D

pub record FindingRow (F : Type 0) : Type 0 where
  pub chunk_id : String
  pub review_id : String
  pub finding_id : String
  pub payload : F

-- Of `model_runs`, which nothing here writes, the reviews that its rows name.
pub record Tables (B F D A : Type 0) : Type 0 where
  pub review_sessions : Dict String (SessionRow B)
  pub review_chunks : Dict String ReviewChunk
  pub chunk_attempts : Dict String (ChunkAttempt A)
  pub review_findings : List (FindingRow F)
  pub review_events : List (EventRow D)
  pub model_runs : List String
  pub review_followups : Dict String FollowupMessage

-- `_session_from_row`: the owner comes from its column.
abbrev pub session_of : {B : Type 0} → SessionRow B → ReviewSession B
session_of row = record row.payload { owner_id = row.owner_id }

abbrev pub row_of : {B : Type 0} → ReviewSession B → SessionRow B
row_of session = record {
  owner_id = session.owner_id;
  status = session.status;
  created_at = session.created_at;
  expires_at = session.expires_at;
  payload = session;
}

-- A row whose owner is the one that asks.
abbrev pub if_owner : {B : Type 0} → String → Option (SessionRow B) → Option (SessionRow B)
if_owner owner_id none = none
if_owner owner_id (some row) = if row.owner_id == owner_id then some row else none

-- `UPDATE review_sessions SET status = ?, expires_at = ?, payload = ?`, and without the second
abbrev pub update_all : {B : Type 0} → ReviewSession B → SessionRow B → SessionRow B
update_all session row = record row {
  status = session.status;
  expires_at = session.expires_at;
  payload = session;
}

abbrev pub update_status : {B : Type 0} → ReviewSession B → SessionRow B → SessionRow B
update_status session row = record row { status = session.status; payload = session }

abbrev pub event_of : {D : Type 0} → EventRow D → ReviewEvent D
event_of row = record { sequence = row.sequence; event = row.event; data_of = row.data_of }

-- `WHERE review_id = ?`
abbrev pub events_at : {D : Type 0} → String → List (EventRow D) → List (ReviewEvent D)
events_at review_id [] = []
events_at review_id (row ∷ rows) =
    let rest = events_at review_id rows in
    if row.review_id == review_id then event_of row ∷ rest else rest

-- `COALESCE(MAX(sequence), 0)`
abbrev pub last_sequence : {D : Type 0} → List (ReviewEvent D) → ℕ
last_sequence [] = 0
last_sequence (event ∷ events) = max event.sequence (last_sequence events)

-- `ORDER BY sequence`
abbrev pub earlier : {D : Type 0} → ReviewEvent D → ReviewEvent D → Bool
earlier a b = ltb a.sequence b.sequence

module _ {B F D A : Type 0} where
  unfoldable pub init : Tables B F D A
  init = record {
    review_sessions = [];
    review_chunks = [];
    chunk_attempts = [];
    review_findings = [];
    review_events = [];
    model_runs = [];
    review_followups = [];
  }

  -- `_require_owner`; `none` is its KeyError.
  unfoldable pub require_owner : String → String → Tables B F D A → Option (SessionRow B)
  require_owner review_id owner_id t = if_owner owner_id (lookup review_id t.review_sessions)

  -- `_append_event`
  abbrev pub append_event :
      String → ReviewEventType → D → Tables B F D A → ReviewEvent D × Tables B F D A
  append_event review_id event data_of t =
      let sequence = last_sequence (events_at review_id t.review_events) + 1 in
      (
        record { sequence = sequence; event = event; data_of = data_of },
        record t {
          review_events =
              t.review_events
              ++ record {
                review_id = review_id;
                sequence = sequence;
                event = event;
                data_of = data_of;
              }
                ∷ [];
        },
      )

  abbrev pub write_row : String → SessionRow B → Tables B F D A → Tables B F D A
  write_row review_id row t = record t { review_sessions = insert review_id row t.review_sessions }

  -- `ON DELETE CASCADE`, from `review_sessions`
  abbrev pub delete_session : String → Tables B F D A → Tables B F D A
  delete_session review_id t = record t {
    review_sessions = erase review_id t.review_sessions;
    review_chunks =
        keep_entries (λ _ (chunk : ReviewChunk). not (chunk.review_id == review_id))
          t.review_chunks;
    chunk_attempts =
        keep_entries (λ _ (attempt : ChunkAttempt A). not (attempt.review_id == review_id))
          t.chunk_attempts;
    review_findings =
        filter (λ (row : FindingRow F). not (row.review_id == review_id)) t.review_findings;
    review_events = filter (λ (row : EventRow D). not (row.review_id == review_id)) t.review_events;
    review_followups =
        keep_entries (λ _ (item : FollowupMessage). not (item.review_id == review_id))
          t.review_followups;
  }

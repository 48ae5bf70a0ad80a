-- ===== src/SqliteReviews/Chunks.antt =====
-- src/code_review/infrastructure/persistence/sqlite_review_store.py: the methods of
-- `SQLiteReviewStore` on chunks, their attempts and findings, on follow-ups, and the recovery after a
-- restart.
use code_astra.Base.{
  String, Bool, true, false, not, ◌&&◌, ◌||◌, List, [], ◌∷◌, ◌++◌, map, Option, none, some, ltb,
  ◌==◌, string_eq, nat_eq, if◌then◌else◌, text_lt,
}
use code_astra.Base.Lists.{filter}
use code_astra.Base.Dict.{Dict, lookup, insert, values}
use code_astra.Base.Sort.{sort_by}
use code_astra.Base.Result.{Result, ok, err}
use code_astra.Domain.Chunks.{ReviewChunk, ChunkStatus}
use code_astra.ReviewStore.{
  ReviewEvent, ReviewEventType, FollowupMessage, ChunkAttempt, is_exchange,
}
use code_astra.ReviewStore.Enhanced.{same_review, has_chunk, of_review, all_of_review}
use code_astra.ReviewStore.Rechecks.{is_final}
use code_astra.SqliteReviews.{
  Tables, SessionRow, FindingRow, SqlError, key_error, value_error, integrity_error, require_owner,
  append_event,
}
use code_astra.SqliteReviews.Sessions.{when_owned, report_ok}

-- `_upsert_chunk`, on the table; `none` is its KeyError.
abbrev pub upsert_chunk : ReviewChunk → Dict String ReviewChunk → Option (Dict String ReviewChunk)
upsert_chunk chunk rows =
    if same_review chunk.review_id (lookup chunk.chunk_id rows)
    then some (insert chunk.chunk_id chunk rows)
    else none

abbrev pub bind_rows :
    Option (Dict String ReviewChunk)
    → (Dict String ReviewChunk → Option (Dict String ReviewChunk))
    → Option (Dict String ReviewChunk)
bind_rows none act = none
bind_rows (some rows) act = act rows

unfoldable pub upsert_all :
    List ReviewChunk → Dict String ReviewChunk → Option (Dict String ReviewChunk)
upsert_all [] rows = some rows
upsert_all (chunk ∷ chunks) rows = bind_rows (upsert_chunk chunk rows) (upsert_all chunks)

-- `_RECOVERABLE_CHUNK_STATUSES`
abbrev pub is_recoverable : ChunkStatus → Bool
is_recoverable ChunkStatus.queued = true
is_recoverable ChunkStatus.running = true
is_recoverable ChunkStatus.validating = true
is_recoverable _ = false

-- A chunk that is taken up again.
abbrev pub as_pending : ReviewChunk → ReviewChunk
as_pending chunk = record chunk {
  status = ChunkStatus.pending;
  error_code = none;
  error_message = none;
}

-- The inner loop of `recoverable_reviews`. Each row is written back under its own key.
unfoldable pub recover_chunks : String → Dict String ReviewChunk → Dict String ReviewChunk
recover_chunks review_id [] = []
recover_chunks review_id ((chunk_id, chunk) ∷ rows) =
    (
      chunk_id,
      (if chunk.review_id == review_id && is_recoverable chunk.status
          then as_pending chunk
          else chunk),
    )
    ∷ recover_chunks review_id rows

abbrev pub recover_each : List (String × String) → Dict String ReviewChunk → Dict String ReviewChunk
recover_each [] rows = rows
recover_each ((review_id, _) ∷ reviews) rows = recover_each reviews (recover_chunks review_id rows)

-- `ORDER BY created_at, review_id`
abbrev pub older_row : {B : Type 0} → String × SessionRow B → String × SessionRow B → Bool
older_row a b =
    if ltb a.1.created_at b.1.created_at
    then true
    else if ltb b.1.created_at a.1.created_at
    then false
    else text_lt a.0 b.0

-- `ORDER BY created_at, message_id`
abbrev pub message_lt : FollowupMessage → FollowupMessage → Bool
message_lt a b =
    if ltb a.created_at b.created_at
    then true
    else if ltb b.created_at a.created_at
    then false
    else text_lt a.message_id b.message_id

abbrev pub has_id : {F : Type 0} → String → List (FindingRow F) → Bool
has_id finding_id [] = false
has_id finding_id (row ∷ rows) = row.finding_id == finding_id || has_id finding_id rows

-- `INSERT INTO review_findings`, one after another; `none` where an id is there twice.
abbrev pub insert_findings :
    {F : Type 0}
    → (F → String)
    → String
    → String
    → List F
    → List (FindingRow F)
    → Option (List (FindingRow F))
insert_findings {F = F} finding_id chunk_id review_id [] rows = some []
insert_findings {F = F} finding_id chunk_id review_id (finding ∷ findings) rows =
    let row : FindingRow F = record {
      chunk_id = chunk_id;
      review_id = review_id;
      finding_id = finding_id finding;
      payload = finding;
    } in
    let rest = insert_findings finding_id chunk_id review_id findings (row ∷ rows) in
    if has_id (finding_id finding) rows
    then none
    else elim rest [ none ↦ none | some new ↦ some (row ∷ new) ]

-- `WHERE status NOT IN (…) ORDER BY created_at, review_id`
abbrev pub unfinished : {B : Type 0} → Dict String (SessionRow B) → List (String × String)
unfinished {B = B} rows =
    map (λ (row : String × SessionRow B). (row.0, row.1.owner_id))
      (sort_by older_row
        (filter (λ (row : String × SessionRow B). not (is_final row.1.status)) rows))

abbrev pub insert_message :
    FollowupMessage → Dict String FollowupMessage → Option (Dict String FollowupMessage)
insert_message item rows = elim (lookup item.message_id rows) [
  | none ↦ some (insert item.message_id item rows)
  | some _ ↦ none
]

module _ {B F D A : Type 0} where
  abbrev pub all_owned : String → List ReviewChunk → Tables B F D A → Bool
  all_owned owner_id [] t = true
  all_owned owner_id (chunk ∷ chunks) t = elim (require_owner chunk.review_id owner_id t) [
    | none ↦ false
    | some _ ↦ all_owned owner_id chunks t
  ]

  abbrev pub write_chunks :
      Option (Dict String ReviewChunk)
      → Tables B F D A
      → Result SqlError (Unit {0}) × Tables B F D A
  write_chunks none t = (err key_error, t)
  write_chunks (some rows) t = (ok tt, record t { review_chunks = rows })

  unfoldable pub save_chunks :
      List ReviewChunk → String → Tables B F D A → Result SqlError (Unit {0}) × Tables B F D A
  save_chunks chunks owner_id t =
      if all_owned owner_id chunks t
      then write_chunks (upsert_all chunks t.review_chunks) t
      else (err key_error, t)

  unfoldable pub chunks_of : String → String → Tables B F D A → Result SqlError (List ReviewChunk)
  chunks_of review_id owner_id t = elim (require_owner review_id owner_id t) [
    | none ↦ err key_error
    | some _ ↦ ok (
        sort_by (λ (a : ReviewChunk) (b : ReviewChunk). text_lt a.chunk_id b.chunk_id)
          (filter (λ (chunk : ReviewChunk). chunk.review_id == review_id) (values t.review_chunks)))
  ]

  unfoldable pub save_chunk :
      ReviewChunk → String → Tables B F D A → Result SqlError (Unit {0}) × Tables B F D A
  save_chunk chunk owner_id t = save_chunks (chunk ∷ []) owner_id t

  unfoldable pub replace_chunk :
      ReviewChunk
      → List ReviewChunk
      → String
      → Tables B F D A
      → Result SqlError (Unit {0}) × Tables B F D A
  replace_chunk parent children owner_id t =
      if all_of_review parent.review_id children
      then save_chunks (record parent { status = ChunkStatus.superseded } ∷ children) owner_id t
      else (err value_error, t)

  unfoldable pub record_attempt :
      ChunkAttempt A → String → Tables B F D A → Result SqlError (Unit {0}) × Tables B F D A
  record_attempt attempt owner_id t =
      when_owned (require_owner attempt.review_id owner_id t)
        (λ _.
          if has_chunk attempt.review_id (lookup attempt.chunk_id t.review_chunks)
            && of_review attempt.review_id (lookup attempt.attempt_id t.chunk_attempts)
          then (
            ok tt,
            record t { chunk_attempts = insert attempt.attempt_id attempt t.chunk_attempts },
          )
          else (err key_error, t))
        t

  abbrev pub write_findings :
      String
      → Option (List (FindingRow F))
      → Tables B F D A
      → Result SqlError (Unit {0}) × Tables B F D A
  write_findings chunk_id none t = (err integrity_error, t)
  write_findings chunk_id (some new) t = (
    ok tt,
    record t {
      review_findings =
          filter (λ (row : FindingRow F). not (row.chunk_id == chunk_id)) t.review_findings ++ new;
    },
  )

  abbrev pub save_findings_of :
      (F → String)
      → Option ReviewChunk
      → String
      → String
      → List F
      → Tables B F D A
      → Result SqlError (Unit {0}) × Tables B F D A
  save_findings_of finding_id none chunk_id owner_id findings t = (err key_error, t)
  save_findings_of finding_id (some chunk) chunk_id owner_id findings t =
      when_owned (require_owner chunk.review_id owner_id t)
        (λ _.
          write_findings chunk_id (insert_findings finding_id chunk_id chunk.review_id findings [])
            t)
        t

  unfoldable pub save_chunk_findings :
      (F → String)
      → String
      → String
      → List F
      → Tables B F D A
      → Result SqlError (Unit {0}) × Tables B F D A
  save_chunk_findings finding_id chunk_id owner_id findings t =
      save_findings_of finding_id (lookup chunk_id t.review_chunks) chunk_id owner_id findings t

  unfoldable pub chunk_findings : String → String → Tables B F D A → Result SqlError (List F)
  chunk_findings review_id owner_id t = elim (require_owner review_id owner_id t) [
    | none ↦ err key_error
    | some _ ↦ ok (
        map (λ (row : FindingRow F). row.payload)
          (sort_by (λ (a : FindingRow F) (b : FindingRow F). text_lt a.finding_id b.finding_id)
            (filter (λ (row : FindingRow F). row.review_id == review_id) t.review_findings)))
  ]

  abbrev pub move_chunk :
      Option (Dict String ReviewChunk)
      → String
      → ReviewEventType
      → D
      → Tables B F D A
      → Result SqlError (ReviewEvent D) × Tables B F D A
  move_chunk none review_id event data_of t = (err key_error, t)
  move_chunk (some rows) review_id event data_of t =
      report_ok (append_event review_id event data_of (record t { review_chunks = rows }))

  unfoldable pub transition_chunk :
      ReviewChunk
      → String
      → ReviewEventType
      → D
      → Tables B F D A
      → Result SqlError (ReviewEvent D) × Tables B F D A
  transition_chunk chunk owner_id event data_of t =
      when_owned (require_owner chunk.review_id owner_id t)
        (λ _. move_chunk (upsert_chunk chunk t.review_chunks) chunk.review_id event data_of t) t

  unfoldable pub recoverable_reviews : Tables B F D A → List (String × String) × Tables B F D A
  recoverable_reviews t =
      let reviews = unfinished t.review_sessions in
      (reviews, record t { review_chunks = recover_each reviews t.review_chunks })

  unfoldable pub followups :
      String → String → String → Tables B F D A → Result SqlError (List FollowupMessage)
  followups review_id owner_id context_key t = elim (require_owner review_id owner_id t) [
    | none ↦ err key_error
    | some _ ↦ ok (
        sort_by message_lt (
          filter
            (λ (item : FollowupMessage).
              item.review_id == review_id && item.context_key == context_key)
            (values t.review_followups)))
  ]

  abbrev pub insert_exchange :
      FollowupMessage
      → FollowupMessage
      → Tables B F D A
      → Result SqlError (Unit {0}) × Tables B F D A
  insert_exchange question answer t = elim (insert_message question t.review_followups) [
    | none ↦ (err integrity_error, t)
    | some rows ↦ elim (insert_message answer rows) [
      | none ↦ (err integrity_error, t)
      | some rows' ↦ (ok tt, record t { review_followups = rows' })
    ]
  ]

  unfoldable pub append_followup_exchange :
      FollowupMessage
      → FollowupMessage
      → String
      → String
      → Tables B F D A
      → Result SqlError (Unit {0}) × Tables B F D A
  append_followup_exchange question answer owner_id context_key t =
      if question.review_id == answer.review_id && is_exchange question.role answer.role
      then when_owned (require_owner question.review_id owner_id t)
          (λ _.
            if question.context_key == context_key && answer.context_key == context_key
            then insert_exchange question answer t
            else (err value_error, t))
          t
      else (err value_error, t)

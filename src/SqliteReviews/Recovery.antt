-- ===== src/SqliteReviews/Recovery.antt =====
-- What a restart finds: the reviews that are not finished, with their chunks pending again.
use code_astra.Base.{
  ℕ, String, Bool, true, false, not, ◌&&◌, ◌||◌, List, [], ◌∷◌, Option, none, some, ◌==◌, string_eq,
  if◌then◌else◌, ◌≡◌, refl, sym, ◌∙◌, arith,
}
use code_astra.Base.Dict.{Dict, lookup}
use code_astra.Domain.Chunks.{ReviewChunk, ChunkStatus}
use code_astra.ReviewStore.{ReviewStatus}
use code_astra.Base.{map}
use code_astra.Base.Lists.{filter, weigh}
use code_astra.Base.Sort.{sort_by, weigh-sort_by}
use code_astra.ReviewStore.Rechecks.{is_final}
use code_astra.SqliteReviews.{Tables, SessionRow}
use code_astra.SqliteReviews.Chunks.{
  older_row, is_recoverable, recover_chunks, recover_each, recoverable_reviews,
}

abbrev pub reported : String → List (String × String) → Bool
reported review_id [] = false
reported review_id (review ∷ reviews) = review_id == review.0 || reported review_id reviews

-- The states of a chunk that a crash interrupts.
abbrev pub was_interrupted : ChunkStatus → Bool
was_interrupted ChunkStatus.pending = false
was_interrupted ChunkStatus.queued = true
was_interrupted ChunkStatus.running = true
was_interrupted ChunkStatus.validating = true
was_interrupted ChunkStatus.completed = false
was_interrupted ChunkStatus.failed = false
was_interrupted ChunkStatus.cancelled = false
was_interrupted ChunkStatus.superseded = false

-- The states of a review that is finished.
abbrev pub has_ended : ReviewStatus → Bool
has_ended ReviewStatus.planning = false
has_ended ReviewStatus.queued = false
has_ended ReviewStatus.analyzing = false
has_ended ReviewStatus.reviewing = false
has_ended ReviewStatus.validating = false
has_ended ReviewStatus.aggregating = false
has_ended ReviewStatus.completed = true
has_ended ReviewStatus.cancelled = true
has_ended ReviewStatus.failed = true

is_recoverable_lem : (status : ChunkStatus) → is_recoverable status ≡ was_interrupted status
is_recoverable_lem ChunkStatus.pending = refl
is_recoverable_lem ChunkStatus.queued = refl
is_recoverable_lem ChunkStatus.running = refl
is_recoverable_lem ChunkStatus.validating = refl
is_recoverable_lem ChunkStatus.completed = refl
is_recoverable_lem ChunkStatus.failed = refl
is_recoverable_lem ChunkStatus.cancelled = refl
is_recoverable_lem ChunkStatus.superseded = refl

is_final_lem : (status : ReviewStatus) → is_final status ≡ has_ended status
is_final_lem ReviewStatus.planning = refl
is_final_lem ReviewStatus.queued = refl
is_final_lem ReviewStatus.analyzing = refl
is_final_lem ReviewStatus.reviewing = refl
is_final_lem ReviewStatus.validating = refl
is_final_lem ReviewStatus.aggregating = refl
is_final_lem ReviewStatus.completed = refl
is_final_lem ReviewStatus.cancelled = refl
is_final_lem ReviewStatus.failed = refl

-- What the recovery is to leave of a chunk, for the reviews that it reports.
abbrev pub recovered : List (String × String) → Option ReviewChunk → Option ReviewChunk
recovered reviews none = none
recovered reviews (some chunk) = some (
    if reported chunk.review_id reviews && was_interrupted chunk.status
    then record chunk { status = ChunkStatus.pending; error_code = none; error_message = none }
    else chunk)

lookup-recover_chunks :
    (review_id k : String) (rows : Dict String ReviewChunk)
    → lookup k (recover_chunks review_id rows) ≡ recovered ((review_id, "") ∷ []) (lookup k rows)
unfolding recover_chunks lookup
lookup-recover_chunks review_id k [] = refl
lookup-recover_chunks review_id k ((j, c) ∷ rows) =
    ground (arith, is_recoverable_lem c.status, lookup-recover_chunks review_id k rows)

recovered-cons :
    (review : String × String) (reviews : List (String × String)) (o : Option ReviewChunk)
    → recovered reviews (recovered ((review.0, "") ∷ []) o) ≡ recovered (review ∷ reviews) o
recovered-cons review reviews none = refl
recovered-cons review reviews (some chunk) = ground arith

recovered-nil : (o : Option ReviewChunk) → recovered [] o ≡ o
recovered-nil none = refl
recovered-nil (some chunk) = refl

lookup-recover_each :
    (k : String) (reviews : List (String × String)) (rows : Dict String ReviewChunk)
    → lookup k (recover_each reviews rows) ≡ recovered reviews (lookup k rows)
lookup-recover_each k [] rows = sym (recovered-nil (lookup k rows))
lookup-recover_each k (review ∷ reviews) rows =
    lookup-recover_each k reviews (recover_chunks review.0 rows)
    ∙ (rw (lookup-recover_chunks review.0 k rows) (recovered-cons review reviews (lookup k rows)))

weigh-unfinished :
    {B : Type 0} (f : String × String → ℕ) (rows : List (String × SessionRow B))
    → weigh f (map (λ (row : String × SessionRow B). (row.0, row.1.owner_id)) rows)
      ≡ weigh (λ (row : String × SessionRow B). f (row.0, row.1.owner_id)) rows
weigh-unfinished f [] = refl
weigh-unfinished f (row ∷ rows) = omega (arith, weigh-unfinished f rows)

weigh-kept :
    {B : Type 0} (f : String × SessionRow B → ℕ) (rows : List (String × SessionRow B))
    → weigh f (filter (λ (row : String × SessionRow B). not (is_final row.1.status)) rows)
      ≡ weigh (λ (row : String × SessionRow B). if has_ended row.1.status then 0 else f row) rows
weigh-kept f [] = refl
weigh-kept f (row ∷ rows) = ground (arith, is_final_lem row.1.status, weigh-kept f rows)

-- What the recovery reports and leaves.
pub record RecoverySpec {B F D A : Type 0} (t : Tables B F D A) : Type 0 where
  pub reports :
      (f : String × String → ℕ)
      → weigh f (recoverable_reviews t).0
        ≡ weigh
            (λ (row : String × SessionRow B).
              if has_ended row.1.status then 0 else f (row.0, row.1.owner_id))
            t.review_sessions
  pub chunks :
      (k : String)
      → lookup k (recoverable_reviews t).1.review_chunks
        ≡ recovered (recoverable_reviews t).0 (lookup k t.review_chunks)
  pub rest :
      (recoverable_reviews t).1
      ≡ record t { review_chunks = (recoverable_reviews t).1.review_chunks }

-- Recovery reports each review whose status is none of completed, cancelled and failed, once for
-- each row, with its owner. A chunk of a review that it reports, if its status was queued, running
-- or validating, becomes pending without an error code or message, its other fields kept; every
-- other chunk, and all else, is as it was.
pub interrupted_chunks_wait_again : {B F D A : Type 0} (t : Tables B F D A) → RecoverySpec t
unfolding recoverable_reviews
interrupted_chunks_wait_again {B = B} t = record {
  reports = λ f.
      weigh-unfinished f (
        sort_by older_row
          (filter (λ (row : String × SessionRow B). not (is_final row.1.status)) t.review_sessions))
      ∙ weigh-sort_by older_row (λ (row : String × SessionRow B). f (row.0, row.1.owner_id))
          (filter (λ (row : String × SessionRow B). not (is_final row.1.status)) t.review_sessions)
      ∙ weigh-kept (λ (row : String × SessionRow B). f (row.0, row.1.owner_id)) t.review_sessions;
  chunks = λ k. lookup-recover_each k (recoverable_reviews t).0 t.review_chunks;
  rest = refl;
}

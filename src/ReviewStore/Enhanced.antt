-- ===== src/ReviewStore/Enhanced.antt =====
-- src/code_review/application/review_store.py: what `EnhancedInMemoryReviewStore` adds and overrides.
-- `transition_chunk` and `transition_review` are two calls in a row, and each holds the lock alone.
use code_astra.Base.{
  ℕ, String, Bool, true, false, not, ◌&&◌, List, [], ◌∷◌, ◌++◌, Option, none, some, leb, ◌==◌,
  string_eq, nat_eq, pair_eq, if◌then◌else◌, text_lt,
}
use code_astra.Base.Lists.{filter}
use code_astra.Base.Dict.{Dict, lookup, insert, erase, values, keep_entries, keys}
use code_astra.Base.Sort.{sort_by}
use code_astra.Base.Result.{Result, ok, err}
use code_astra.Domain.Chunks.{ReviewChunk, ChunkStatus}
use code_astra.ReviewStore.{
  ReviewStore, ReviewSession, ReviewEventType, ReviewEvent, ChunkAttempt, StoreError, key_error,
  value_error, require_owner, when_owned, read_owned, persist, publish, save, or_empty,
}

-- `for key in ids: d.pop(key, None)`
unfoldable pub erase_all {ℓ} : {V : Type ℓ} → List String → Dict String V → Dict String V
erase_all [] d = d
erase_all (k ∷ ks) d = erase_all ks (erase k d)

abbrev pub chunk_ids_of : String → Dict String ReviewChunk → List String
chunk_ids_of review_id chunks =
    keys (keep_entries (λ _ (chunk : ReviewChunk). chunk.review_id == review_id) chunks)

-- `self._chunks[chunk.chunk_id] = chunk` for each chunk
unfoldable pub insert_chunks : List ReviewChunk → Dict String ReviewChunk → Dict String ReviewChunk
insert_chunks [] d = d
insert_chunks (chunk ∷ chunks) d = insert_chunks chunks (insert chunk.chunk_id chunk d)

abbrev pub same_review : String → Option ReviewChunk → Bool
same_review review_id none = true
same_review review_id (some existing) = existing.review_id == review_id

abbrev pub is_owned : {B : Type 0} → Option (ReviewSession B) → Bool
is_owned none = false
is_owned (some _) = true

abbrev pub all_of_review : String → List ReviewChunk → Bool
all_of_review review_id [] = true
all_of_review review_id (child ∷ children) =
    child.review_id == review_id && all_of_review review_id children

-- The ids are a set of strings, sorted.
abbrev pub findings_at : {F : Type 0} → List String → Dict String (List F) → List F
findings_at [] d = []
findings_at (chunk_id ∷ chunk_ids) d = or_empty (lookup chunk_id d) ++ findings_at chunk_ids d

abbrev pub of_review : {A : Type 0} → String → Option (ChunkAttempt A) → Bool
of_review review_id none = true
of_review review_id (some existing) = existing.review_id == review_id

abbrev pub has_chunk : String → Option ReviewChunk → Bool
has_chunk review_id none = false
has_chunk review_id (some chunk) = chunk.review_id == review_id

module _ {B F D A : Type 0} where
  -- The chunks that are popped are those of the review: the others stay.
  abbrev pub drop_chunks : String → ReviewStore B F D A → ReviewStore B F D A
  drop_chunks review_id s = record s {
    chunks = keep_entries (λ _ (chunk : ReviewChunk). not (chunk.review_id == review_id)) s.chunks;
    chunk_findings = erase_all (chunk_ids_of review_id s.chunks) s.chunk_findings;
    attempts =
        keep_entries (λ _ (attempt : ChunkAttempt A). not (attempt.review_id == review_id))
          s.attempts;
  }

  -- `_delete_review_locked`, with the lines of the class above
  unfoldable pub delete_review : String → ReviewStore B F D A → ReviewStore B F D A
  delete_review review_id s = drop_chunks review_id (record s {
    sessions = erase review_id s.sessions;
    events = erase review_id s.events;
    followups = keep_entries (λ key _. not (key.0 == review_id)) s.followups;
  })

  abbrev pub delete_each : List String → ReviewStore B F D A → ReviewStore B F D A
  delete_each [] s = s
  delete_each (review_id ∷ review_ids) s = delete_each review_ids (delete_review review_id s)

  unfoldable pub delete_expired : ℕ → ReviewStore B F D A → List String × ReviewStore B F D A
  delete_expired now s =
      let expired =
        keys
          (keep_entries (λ _ (session : ReviewSession B). leb session.expires_at now) s.sessions) in
      (expired, delete_each expired s)

  unfoldable pub delete : String → String → ReviewStore B F D A → Bool × ReviewStore B F D A
  delete review_id owner_id s =
      if is_owned (require_owner review_id owner_id s)
      then (true, delete_review review_id s)
      else (false, s)

  unfoldable pub reset_review :
      ReviewSession B → ReviewStore B F D A → Result StoreError (Unit {0}) × ReviewStore B F D A
  reset_review session s =
      when_owned (require_owner session.review_id session.owner_id s)
        (λ current. (ok tt, drop_chunks session.review_id (persist session current s))) s

  -- The first loop of `save_chunks`: no KeyError comes of it.
  unfoldable pub storable : String → List ReviewChunk → ReviewStore B F D A → Bool
  storable owner_id [] s = true
  storable owner_id (chunk ∷ chunks) s =
      is_owned (require_owner chunk.review_id owner_id s)
      && (same_review chunk.review_id (lookup chunk.chunk_id s.chunks)
          && storable owner_id chunks s)

  unfoldable pub save_chunks :
      List ReviewChunk
      → String
      → ReviewStore B F D A
      → Result StoreError (Unit {0}) × ReviewStore B F D A
  save_chunks chunks owner_id s =
      if storable owner_id chunks s
      then (ok tt, record s { chunks = insert_chunks chunks s.chunks })
      else (err key_error, s)

  unfoldable pub chunks_of :
      String → String → ReviewStore B F D A → Result StoreError (List ReviewChunk)
  chunks_of review_id owner_id s = read_owned (require_owner review_id owner_id s) (
      ok (
        filter (λ (chunk : ReviewChunk). chunk.review_id == review_id)
          (sort_by (λ (a : ReviewChunk) (b : ReviewChunk). text_lt a.chunk_id b.chunk_id)
            (values s.chunks))))

  unfoldable pub save_chunk :
      ReviewChunk
      → String
      → ReviewStore B F D A
      → Result StoreError (Unit {0}) × ReviewStore B F D A
  save_chunk chunk owner_id s = save_chunks (chunk ∷ []) owner_id s

  unfoldable pub replace_chunk :
      ReviewChunk
      → List ReviewChunk
      → String
      → ReviewStore B F D A
      → Result StoreError (Unit {0}) × ReviewStore B F D A
  replace_chunk parent children owner_id s =
      if all_of_review parent.review_id children
      then save_chunks (record parent { status = ChunkStatus.superseded } ∷ children) owner_id s
      else (err value_error, s)

  abbrev pub save_findings_of :
      Option ReviewChunk
      → String
      → String
      → List F
      → ReviewStore B F D A
      → Result StoreError (Unit {0}) × ReviewStore B F D A
  save_findings_of none chunk_id owner_id findings s = (err key_error, s)
  save_findings_of (some chunk) chunk_id owner_id findings s =
      when_owned (require_owner chunk.review_id owner_id s)
        (λ _. (ok tt, record s { chunk_findings = insert chunk_id findings s.chunk_findings })) s

  unfoldable pub save_chunk_findings :
      String
      → String
      → List F
      → ReviewStore B F D A
      → Result StoreError (Unit {0}) × ReviewStore B F D A
  save_chunk_findings chunk_id owner_id findings s =
      save_findings_of (lookup chunk_id s.chunks) chunk_id owner_id findings s

  unfoldable pub chunk_findings_of :
      String → String → ReviewStore B F D A → Result StoreError (List F)
  chunk_findings_of review_id owner_id s =
      read_owned (require_owner review_id owner_id s)
        (ok (findings_at (sort_by text_lt (chunk_ids_of review_id s.chunks)) s.chunk_findings))

  unfoldable pub record_attempt :
      ChunkAttempt A
      → String
      → ReviewStore B F D A
      → Result StoreError (Unit {0}) × ReviewStore B F D A
  record_attempt attempt owner_id s =
      when_owned (require_owner attempt.review_id owner_id s)
        (λ _.
          if has_chunk attempt.review_id (lookup attempt.chunk_id s.chunks)
            && of_review attempt.review_id (lookup attempt.attempt_id s.attempts)
          then (ok tt, record s { attempts = insert attempt.attempt_id attempt s.attempts })
          else (err key_error, s))
        s

  abbrev pub then_publish :
      Result StoreError (Unit {0}) × ReviewStore B F D A
      → (ReviewStore B F D A → Result StoreError (ReviewEvent D) × ReviewStore B F D A)
      → Result StoreError (ReviewEvent D) × ReviewStore B F D A
  then_publish (err e, s) act = (err e, s)
  then_publish (ok _, s) act = act s

  unfoldable pub transition_chunk :
      ReviewChunk
      → String
      → ReviewEventType
      → D
      → ReviewStore B F D A
      → Result StoreError (ReviewEvent D) × ReviewStore B F D A
  transition_chunk chunk owner_id event data_of s =
      then_publish (save_chunk chunk owner_id s) (publish chunk.review_id owner_id event data_of)

  unfoldable pub transition_review :
      ReviewSession B
      → ReviewEventType
      → D
      → ReviewStore B F D A
      → Result StoreError (ReviewEvent D) × ReviewStore B F D A
  transition_review session event data_of s =
      then_publish (save session s) (publish session.review_id session.owner_id event data_of)

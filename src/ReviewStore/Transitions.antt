-- ===== src/ReviewStore/Transitions.antt =====
-- The transitions that are a save and a publication, as one step below the question for the owner.
use code_astra.Base.{
  String, Bool, true, false, ◌&&◌, Option, none, some, string_eq, if◌then◌else◌, ◌≡◌, refl, arith,
}
use code_astra.Base.Dict.{lookup, insert, lookup-insert_self}
use code_astra.Base.Result.{ok, err}
use code_astra.Domain.Chunks.{ReviewChunk}
use code_astra.ReviewStore.{
  ReviewStore, ReviewSession, ReviewEventType, key_error, if_owner, require_owner, when_owned,
  persist, append_event, publish, save,
}
use code_astra.ReviewStore.Enhanced.{
  insert_chunks, same_review, is_owned, storable, save_chunks, save_chunk, then_publish,
  transition_chunk, transition_review,
}

module _ {B F D A : Type 0} (event : ReviewEventType) (data_of : D) (s : ReviewStore B F D A) where
  pub transition_review_lem :
      (x : ReviewSession B)
      → transition_review x event data_of s
        ≡ when_owned
            (require_owner x.review_id x.owner_id s)
            (λ current.
              append_event x.review_id event data_of
                (lookup x.review_id s.events)
                (persist x current s))
            s
  unfolding transition_review save publish require_owner
  transition_review_lem x = go (if_owner x.owner_id (lookup x.review_id s.sessions))
    where
      go :
          (o : Option (ReviewSession B))
          → then_publish
              (when_owned o (λ current. (ok tt, persist x current s)) s)
              (publish x.review_id x.owner_id event data_of)
            ≡ when_owned o
                (λ current.
                  append_event x.review_id event data_of
                    (lookup x.review_id s.events)
                    (persist x current s))
                s
      go none = refl
      go (some c) =
          rw (lookup-insert_self x.review_id (record x { title = c.title }) s.sessions)
            (ground arith)

  pub transition_chunk_lem :
      (chunk : ReviewChunk) (owner_id : String)
      → transition_chunk chunk owner_id event data_of s
        ≡ when_owned
            (require_owner chunk.review_id owner_id s)
            (λ _.
              if same_review chunk.review_id (lookup chunk.chunk_id s.chunks)
              then append_event chunk.review_id event data_of
                  (lookup chunk.review_id s.events)
                  (record s { chunks = insert chunk.chunk_id chunk s.chunks })
              else (err key_error, s))
            s
  unfolding transition_chunk save_chunk save_chunks storable insert_chunks publish require_owner
  transition_chunk_lem chunk owner_id =
      go (if_owner owner_id (lookup chunk.review_id s.sessions)) refl
        (same_review chunk.review_id (lookup chunk.chunk_id s.chunks)) refl
    where
      go :
          (o : Option (ReviewSession B))
          → if_owner owner_id (lookup chunk.review_id s.sessions) ≡ o
          → (b : Bool) → same_review chunk.review_id (lookup chunk.chunk_id s.chunks) ≡ b
          → then_publish
              (if is_owned (if_owner owner_id (lookup chunk.review_id s.sessions))
                  && (same_review chunk.review_id (lookup chunk.chunk_id s.chunks) && true)
                then (ok tt, record s { chunks = insert chunk.chunk_id chunk s.chunks })
                else (err key_error, s))
              (publish chunk.review_id owner_id event data_of)
            ≡ when_owned
                (if_owner owner_id (lookup chunk.review_id s.sessions))
                (λ _.
                  if same_review chunk.review_id (lookup chunk.chunk_id s.chunks)
                  then append_event chunk.review_id event data_of
                      (lookup chunk.review_id s.events)
                      (record s { chunks = insert chunk.chunk_id chunk s.chunks })
                  else (err key_error, s))
                s
      go none p b q = rw p refl
      go (some c) p true q = rw (p, q) (rw p refl)
      go (some c) p false q = rw (p, q) refl

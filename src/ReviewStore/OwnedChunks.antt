-- ===== src/ReviewStore/OwnedChunks.antt =====
-- A method on chunks that is called by another owner leaves a review alone.
use code_astra.Base.{
  String, true, List, [], ◌∷◌, Option, none, some, string_eq, nat_eq, pair_eq, ◌≡◌, ◌≢◌, refl, sym,
  arith, Bool-cases, inl, inr,
}
use code_astra.Base.Lists.{All}
use code_astra.Base.Dict.{lookup}
use code_astra.Domain.Chunks.{ReviewChunk}
use code_astra.ReviewStore.{ReviewStore, ReviewSession, ChunkAttempt, require_owner}
use code_astra.ReviewStore.Enhanced.{
  is_owned, save_chunks, storable, same_review, replace_chunk, save_chunk_findings,
  save_findings_of, record_attempt, of_review,
}
use code_astra.ReviewStore.Untouched.{
  Foreign, values_of-insert, values_of-insert_chunks, Untouched, Untouched-refl, other_review,
  when_owned-Untouched,
}
use code_astra.ReviewStore.Ownership.{if-Untouched}

module _ {B F D A : Type 0} (r : String) (s : ReviewStore B F D A) (mine : ReviewSession B)
    (at : lookup r s.sessions ≡ some mine) where
  storable-Foreign :
      (owner_id : String) (chunks : List ReviewChunk)
      → mine.owner_id ≢ owner_id
      → storable owner_id chunks s ≡ true
      → All
          (λ (c : ReviewChunk).
            (c.review_id ≢ r)
            × Foreign (λ (c : ReviewChunk). c.review_id) r (lookup c.chunk_id s.chunks))
          chunks
  unfolding storable
  storable-Foreign owner_id [] differs h = tt
  storable-Foreign owner_id (c ∷ chunks) differs h = (
    (not_mine, existing (lookup c.chunk_id s.chunks) (ground arith)),
    storable-Foreign owner_id chunks differs (ground arith),
  )
    where
      owned :
          (o : Option (ReviewSession B))
          → require_owner c.review_id owner_id s ≡ o
          → is_owned o ≡ true
          → c.review_id ≢ r
      owned none e p same = absurd (ground arith)
      owned (some x) e p same = other_review r s mine at c.review_id owner_id x differs e (sym same)

      not_mine : c.review_id ≢ r
      not_mine = owned (require_owner c.review_id owner_id s) refl (ground arith)

      existing :
          (o : Option ReviewChunk)
          → same_review c.review_id o ≡ true
          → Foreign (λ (c : ReviewChunk). c.review_id) r o
      existing none p = tt
      existing (some x) p = ground (arith, not_mine)

  pub save_chunks-Untouched :
      (chunks : List ReviewChunk) (owner_id : String)
      → mine.owner_id ≢ owner_id
      → Untouched r s (save_chunks chunks owner_id s).1
  unfolding save_chunks
  save_chunks-Untouched chunks owner_id differs = elim (Bool-cases (storable owner_id chunks s)) [
    | inl may ↦ rw may (record {
      sessions = refl;
      events = refl;
      followups = λ key. refl;
      chunks =
          values_of-insert_chunks r chunks s.chunks (storable-Foreign owner_id chunks differs may);
      attempts = refl;
    })
    | inr refused ↦ rw refused (Untouched-refl r s)
  ]

  pub replace-Untouched :
      (parent : ReviewChunk) (children : List ReviewChunk) (owner_id : String)
      → mine.owner_id ≢ owner_id
      → Untouched r s (replace_chunk parent children owner_id s).1
  unfolding replace_chunk
  replace-Untouched parent children owner_id differs =
      if-Untouched r s mine at _ _ _ (save_chunks-Untouched _ owner_id differs) (Untouched-refl r s)

  pub findings-Untouched :
      (chunk_id owner_id : String) (findings : List F)
      → mine.owner_id ≢ owner_id
      → Untouched r s (save_chunk_findings chunk_id owner_id findings s).1
  unfolding save_chunk_findings
  findings-Untouched chunk_id owner_id findings differs = go (lookup chunk_id s.chunks)
    where
      go :
          (o : Option ReviewChunk)
          → Untouched r s (save_findings_of o chunk_id owner_id findings s).1
      go none = Untouched-refl r s
      go (some chunk) = when_owned-Untouched r s mine at chunk.review_id owner_id _ differs (λ c ne.
          record {
            sessions = refl;
            events = refl;
            followups = λ key. refl;
            chunks = refl;
            attempts = refl;
          })

  pub attempt-Untouched :
      (attempt : ChunkAttempt A) (owner_id : String)
      → mine.owner_id ≢ owner_id
      → Untouched r s (record_attempt attempt owner_id s).1
  unfolding record_attempt
  attempt-Untouched attempt owner_id differs =
      when_owned-Untouched r s mine at attempt.review_id owner_id _ differs (λ c ne.
        elim (Bool-cases (of_review attempt.review_id (lookup attempt.attempt_id s.attempts))) [
          | inl free ↦
              if-Untouched r s mine at _ _ _
                (record {
                  sessions = refl;
                  events = refl;
                  followups = λ key. refl;
                  chunks = refl;
                  attempts =
                      values_of-insert (λ (a : ChunkAttempt A). a.review_id) r attempt.attempt_id
                        attempt s.attempts (λ p. ne (sym p))
                        (existing ne (lookup attempt.attempt_id s.attempts) free);
                })
                (Untouched-refl r s)
          | inr taken ↦ rw taken (ground (arith, Untouched-refl r s))
        ])
    where
      existing :
          r ≢ attempt.review_id
          → (o : Option (ChunkAttempt A)) → of_review attempt.review_id o ≡ true
          → Foreign (λ (a : ChunkAttempt A). a.review_id) r o
      existing ne none p = tt
      existing ne (some x) p = ground (arith, ne)

-- ===== src/ReviewStore/Untouched.antt =====
-- What it is for a change of the store to leave a review alone, and the changes that do.
use code_astra.Base.{
  String, not, List, [], ◌∷◌, Option, none, some, ◌==◌, string_eq, nat_eq, pair_eq, ◌≡◌, ◌≢◌, refl,
  subst, ◌∙◌, arith,
}
use code_astra.Base.Lists.{filter, All}
use code_astra.Base.Dict.{Dict, lookup, insert, values, keep_entries, lookup-insert}
use code_astra.Base.Result.{Result}
use code_astra.Domain.Chunks.{ReviewChunk}
use code_astra.ReviewStore.{
  ReviewStore, ReviewSession, ChunkAttempt, StoreError, require_owner, when_owned, if_owner,
}
use code_astra.ReviewStore.Enhanced.{insert_chunks}

-- The values of a dictionary that belong to the review `r`, in order.
abbrev pub values_of {ℓ} : {V : Type ℓ} → (V → String) → String → Dict String V → List V
values_of review r d = filter (λ v. review v == r) (values d)

abbrev pub Foreign {ℓ} : {V : Type ℓ} → (V → String) → String → Option V → Type 0
Foreign review r none = Unit
Foreign review r (some v) = review v ≢ r

pub Foreign-insert {ℓ} :
    {V : Type ℓ} (review : V → String) (r j k : String) (v : V) (d : Dict String V)
    → review v ≢ r
    → Foreign review r (lookup j d)
    → Foreign review r (lookup j (insert k v d))
Foreign-insert review r j k v d h f = rw (lookup-insert j k v d) (ground (arith, h, f))

pub values_of-insert {ℓ} :
    {V : Type ℓ} (review : V → String) (r k : String) (v : V) (d : Dict String V)
    → review v ≢ r
    → Foreign review r (lookup k d)
    → values_of review r (insert k v d) ≡ values_of review r d
unfolding insert lookup
values_of-insert review r k v [] h f = ground arith
values_of-insert review r k v ((j, w) ∷ d) h f = ground (arith, values_of-insert review r k v d h)

pub values_of-keep_entries {ℓ} :
    {V : Type ℓ} (review : V → String) (r other : String) (d : Dict String V)
    → r ≢ other
    → values_of review r (keep_entries (λ _ v. not (review v == other)) d) ≡ values_of review r d
values_of-keep_entries review r other [] h = refl
values_of-keep_entries review r other ((j, w) ∷ d) h =
    ground (arith, values_of-keep_entries review r other d h)

pub values_of-insert_chunks :
    (r : String) (chunks : List ReviewChunk) (d : Dict String ReviewChunk)
    → All
        (λ (c : ReviewChunk).
          (c.review_id ≢ r) × Foreign (λ (c : ReviewChunk). c.review_id) r (lookup c.chunk_id d))
        chunks
    → values_of (λ (c : ReviewChunk). c.review_id) r (insert_chunks chunks d)
      ≡ values_of (λ (c : ReviewChunk). c.review_id) r d
unfolding insert_chunks
values_of-insert_chunks r [] d h = refl
values_of-insert_chunks r (c ∷ chunks) d ((other, f), h) =
    values_of-insert_chunks r chunks (insert c.chunk_id c d) (still chunks h)
    ∙ values_of-insert (λ (c : ReviewChunk). c.review_id) r c.chunk_id c d other f
  where
    still :
        (l : List ReviewChunk)
        → All
            (λ (c : ReviewChunk).
              (c.review_id ≢ r)
              × Foreign (λ (c : ReviewChunk). c.review_id) r (lookup c.chunk_id d))
            l
        → All
            (λ (e : ReviewChunk).
              (e.review_id ≢ r)
              × Foreign
                  (λ (c : ReviewChunk). c.review_id)
                  r
                  (lookup e.chunk_id (insert c.chunk_id c d)))
            l
    still [] a = tt
    still (e ∷ l) ((o, g), a) = (
      (o, Foreign-insert (λ (c : ReviewChunk). c.review_id) r e.chunk_id c.chunk_id c d other g),
      still l a,
    )

pub lookup-keep_entries_ne {ℓ} :
    {V : Type ℓ} (r other key : String) (d : Dict (String × String) V)
    → r ≢ other
    → lookup (r, key) (keep_entries (λ k _. not (k.0 == other)) d) ≡ lookup (r, key) d
unfolding lookup
lookup-keep_entries_ne r other key [] h = refl
lookup-keep_entries_ne r other key ((j, w) ∷ d) h =
    ground (arith, lookup-keep_entries_ne r other key d h)

module _ {B F D A : Type 0} where
  -- The review's session, events and follow-ups are as they were, and so are its chunks and its
  -- attempts, in order.
  pub record Untouched (r : String) (s t : ReviewStore B F D A) : Type 0 where
    pub sessions : lookup r t.sessions ≡ lookup r s.sessions
    pub events : lookup r t.events ≡ lookup r s.events
    pub followups : (key : String) → lookup (r, key) t.followups ≡ lookup (r, key) s.followups
    pub chunks :
        values_of (λ (c : ReviewChunk). c.review_id) r t.chunks
        ≡ values_of (λ (c : ReviewChunk). c.review_id) r s.chunks
    pub attempts :
        values_of (λ (a : ChunkAttempt A). a.review_id) r t.attempts
        ≡ values_of (λ (a : ChunkAttempt A). a.review_id) r s.attempts

  pub Untouched-refl : (r : String) (s : ReviewStore B F D A) → Untouched r s s
  Untouched-refl r s = record {
    sessions = refl;
    events = refl;
    followups = λ key. refl;
    chunks = refl;
    attempts = refl;
  }

  pub Untouched-trans :
      (r : String) (s t u : ReviewStore B F D A)
      → Untouched r s t
      → Untouched r t u
      → Untouched r s u
  Untouched-trans r s t u a b = record {
    sessions = b.sessions ∙ a.sessions;
    events = b.events ∙ a.events;
    followups = λ key. b.followups key ∙ a.followups key;
    chunks = b.chunks ∙ a.chunks;
    attempts = b.attempts ∙ a.attempts;
  }

  module _ (r : String) (s : ReviewStore B F D A) (mine : ReviewSession B)
      (at : lookup r s.sessions ≡ some mine) where
    pub other_review :
        (id owner_id : String) (c : ReviewSession B)
        → mine.owner_id ≢ owner_id
        → require_owner id owner_id s ≡ some c
        → r ≢ id
    unfolding require_owner
    other_review id owner_id c differs h same = differs (
        owner (
          subst (λ o. if_owner owner_id o ≡ some c)
            (subst (λ k. lookup k s.sessions ≡ some mine) same at) h))
      where
        owner : if_owner owner_id (some mine) ≡ some c → mine.owner_id ≡ owner_id
        owner e = ground arith

    -- A method that asks for the owner leaves alone the review of another owner, if what it does
    -- below leaves alone every review but its own.
    pub when_owned-Untouched :
        {X : Type 0} (id owner_id : String)
        (act : ReviewSession B → Result StoreError X × ReviewStore B F D A)
        → mine.owner_id ≢ owner_id
        → ((c : ReviewSession B) → r ≢ id → Untouched r s (act c).1)
        → Untouched r s (when_owned (require_owner id owner_id s) act s).1
    when_owned-Untouched {X} id owner_id act differs keeps = go (require_owner id owner_id s) refl
      where
        go :
            (o : Option (ReviewSession B))
            → require_owner id owner_id s ≡ o
            → Untouched r s (when_owned o act s).1
        go none e = Untouched-refl r s
        go (some c) e = keeps c (other_review id owner_id c differs e)

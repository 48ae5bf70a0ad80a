-- ===== src/Scheduler/Invariant.antt =====
-- What the fields of a `ChunkScheduler` owe one another, kept by every method.
use code_astra.Base.{
  ℕ, ◌+◌, ◌≤◌, String, ◌≡◌, refl, ◌≢◌, not, List, [], ◌∷◌, ◌++◌, Option, none, some, arith, ◌==◌,
  string_eq, nat_eq, if◌then◌else◌,
}
use code_astra.Base.Lists.{length, filter}
use code_astra.Base.Dict.{Dict, lookup, NodupKeys}
use code_astra.Base.Sums.{sum_by}
use code_astra.Domain.Chunks.{ReviewChunk}
use code_astra.Scheduler.{ChunkScheduler, init}

-- How often a review stands in the rotation.
abbrev pub turns : String → List String → ℕ
turns k [] = 0
turns k (j ∷ r) = (if k == j then 1 else 0) + turns k r

pub turns-append : (k : String) (r t : List String) → turns k (r ++ t) ≡ turns k r + turns k t
turns-append k [] t = omega arith
turns-append k (j ∷ r) t = omega (arith, turns-append k r t)

pub turns-filter :
    (k j : String) (r : List String)
    → turns k (filter (λ item. not (item == j)) r) ≡ (if k == j then 0 else turns k r)
turns-filter k j [] = ground arith
turns-filter k j (i ∷ r) = ground (arith, turns-filter k j r)

abbrev pub one_if : Option (List ReviewChunk) → ℕ
one_if none = 0
one_if (some _) = 1

-- All chunks that wait.
abbrev pub total : Dict String (List ReviewChunk) → ℕ
total = sum_by length

-- Without a queue there is nothing to count.
pub total-zero :
    (d : Dict String (List ReviewChunk)) → ((k : String) → lookup k d ≡ none) → total d ≡ 0
unfolding lookup
total-zero [] h = refl
total-zero ((j, p) ∷ d) h = absurd (ground (arith, h j))

-- The rotation names each review with a queue once and no other, no queue is empty, and the size
-- is the number of waiting chunks and within the limit.
pub record IsWellFormed (s : ChunkScheduler) : Type 0 where
  pub distinct : NodupKeys s.queues
  pub rotates : (k : String) → turns k s.rotation ≡ one_if (lookup k s.queues)
  pub no_empty : (k : String) → lookup k s.queues ≢ some []
  pub counted : s.size ≡ total s.queues
  pub limited : s.size ≤ s.queue_limit

pub init-IsWellFormed : (limit : ℕ) → IsWellFormed (init limit)
unfolding init lookup
init-IsWellFormed limit = record {
  distinct = tt;
  rotates = λ k. refl;
  no_empty = λ k h. ground arith;
  counted = refl;
  limited = omega arith;
}

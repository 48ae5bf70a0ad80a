-- ===== src/Scheduler/Calls.antt =====
-- Calls in any order: what `put` and `cancel_review` do to the waiting chunks, and what a history
-- of calls keeps.
use code_astra.Base.{
  ℕ, ◌+◌, ◌≤◌, ◌<◌, String, ◌≡◌, refl, inl, inr, List, [], ◌∷◌, ◌++◌, Option, none, some, arith,
  leb, ◌==◌, string_eq, nat_eq, if◌then◌else◌, Option-cases, Bool-cases,
}
use native.Mathlib.Decide.{ℕ_discrete}
use code_astra.Base.Lists.{length, length-append, weigh, weigh-append}
use code_astra.Base.Dict.{lookup, lookup-insert, lookup-erase, NodupKeys}
use code_astra.Base.Result.{Result, ok, err}
use code_astra.Domain.Chunks.{ReviewChunk}
use code_astra.Scheduler.{
  ChunkScheduler, QueueError, init, put, get, cancel_review, enqueue, serve, take_turn, Turn, waits,
  returns, raises,
}
use code_astra.Base.Sums.{sum_by, sum_by-erase, sum_by-insert, sum_by-insert_new}
use code_astra.Scheduler.Invariant.{IsWellFormed, init-IsWellFormed}
use code_astra.Scheduler.Preservation.{put-IsWellFormed, cancel_review-IsWellFormed}
use code_astra.Scheduler.Turns.{waiting, get_cases}

-- What a client can ask.
pub data Call : Type 0 where
  puts : ReviewChunk → Call
  gets : Call
  cancels : String → Call

-- The chunks that the queue has taken in, given out and dropped so far, and the sum of what the
-- cancellations reported.
pub record Tally : Type 0 where
  pub accepted : List ReviewChunk
  pub served : List ReviewChunk
  pub dropped : List ReviewChunk
  pub reported : ℕ

abbrev after_put :
    ReviewChunk → Result QueueError ChunkScheduler → ChunkScheduler × Tally → ChunkScheduler × Tally
after_put c (ok t) (s, n) = (t, record n { accepted = c ∷ n.accepted })
after_put c (err e) (s, n) = (s, n)

abbrev after_get : Turn → ChunkScheduler × Tally → ChunkScheduler × Tally
after_get waits (s, n) = (s, n)
after_get (returns c t) (s, n) = (t, record n { served = c ∷ n.served })
after_get (raises e t) (s, n) = (t, n)

unfoldable pub step : Call → ChunkScheduler × Tally → ChunkScheduler × Tally
step (puts c) (s, n) = after_put c (put c s) (s, n)
step gets (s, n) = after_get (get s) (s, n)
step (cancels k) (s, n) =
    let (removed, t) = cancel_review k s in
    (t, record n { dropped = waiting s k ++ n.dropped; reported = n.reported + removed })

unfoldable pub run : List Call → ChunkScheduler × Tally → ChunkScheduler × Tally
run [] p = p
run (c ∷ cs) p = run cs (step c p)

module _ (c : ReviewChunk) (s : ChunkScheduler) where
  size-enqueue : (o : Option (List ReviewChunk)) → (enqueue c o s).size ≡ s.size + 1
  size-enqueue none = refl
  size-enqueue (some q) = refl

  waiting-enqueue :
      (o : Option (List ReviewChunk))
      → lookup c.review_id s.queues ≡ o
      → (j : String)
      → waiting (enqueue c o s) j
        ≡ (if j == c.review_id then waiting s j ++ c ∷ [] else waiting s j)
  unfolding waiting
  waiting-enqueue none e j = ground (arith, lookup-insert j c.review_id (c ∷ []) s.queues)
  waiting-enqueue (some q) e j = ground (arith, lookup-insert j c.review_id (q ++ c ∷ []) s.queues)

-- What `put` may do.
abbrev pub PutSpec : ReviewChunk → ChunkScheduler → Result QueueError ChunkScheduler → Type 0
PutSpec c s (err e) = s.queue_limit ≤ s.size
PutSpec c s (ok t) =
    (s.size < s.queue_limit)
    × (t.size ≡ s.size + 1)
    × ((j : String)
        → waiting t j ≡ (if j == c.review_id then waiting s j ++ c ∷ [] else waiting s j))

-- A full queue refuses the chunk, and no other does; an accepted chunk goes behind those of its
-- review, and no other review's chunks change.
pub put_effect : (c : ReviewChunk) (s : ChunkScheduler) → PutSpec c s (put c s)
unfolding put
put_effect c s = elim (Bool-cases (leb s.queue_limit s.size)) [
  | inl full ↦ rw full (ground arith)
  | inr room ↦ rw room (ground arith, size-enqueue c s found, waiting-enqueue c s found refl)
]
  where
    found : Option (List ReviewChunk)
    found = lookup c.review_id s.queues

-- In a well-formed scheduler, cancelling a review reports how many of its chunks waited and removes these, and no other
-- review's chunks change.
pub cancel_review_effect :
    (k : String) (s : ChunkScheduler)
    → IsWellFormed s
    → let (removed, t) = cancel_review k s in
      (removed ≡ length (waiting s k))
      × (t.size + removed ≡ s.size)
      × ((j : String) → waiting t j ≡ (if j == k then [] else waiting s j))
unfolding cancel_review waiting
cancel_review_effect k s w = elim (Option-cases (lookup k s.queues)) [
  | inl e ↦ rw e (refl, omega arith, λ j. ground arith)
  | inr (q, e) ↦ rw e (
    refl,
    omega (arith, w.counted, sum_by-erase length k q s.queues w.distinct e),
    λ j. ground (arith, lookup-erase j k s.queues),
  )
]

-- Each accepted chunk is once among the served, the dropped and the waiting ones: whatever the
-- chunks weigh, the sums agree. What was reported as removed is the number of the dropped ones.
abbrev pub Keeps : ChunkScheduler × Tally → Type 0
Keeps (s, n) =
    IsWellFormed s
    × (n.reported ≡ length n.dropped)
    × ((f : ReviewChunk → ℕ)
        → weigh f n.accepted ≡ weigh f n.served + weigh f n.dropped + sum_by (weigh f) s.queues)

module _ (f : ReviewChunk → ℕ) where
  weigh-enqueue :
      (c : ReviewChunk) (s : ChunkScheduler) (o : Option (List ReviewChunk))
      → lookup c.review_id s.queues ≡ o
      → sum_by (weigh f) (enqueue c o s).queues ≡ f c + sum_by (weigh f) s.queues
  weigh-enqueue c s none e =
      omega (arith, sum_by-insert_new (weigh f) c.review_id (c ∷ []) s.queues e)
  weigh-enqueue c s (some q) e = omega (
    arith,
    sum_by-insert (weigh f) c.review_id (q ++ c ∷ []) q s.queues e,
    weigh-append f q (c ∷ []),
  )

  weigh-put :
      (c : ReviewChunk) (s t : ChunkScheduler)
      → put c s ≡ ok t
      → sum_by (weigh f) t.queues ≡ f c + sum_by (weigh f) s.queues
  unfolding put
  weigh-put c s t h = ground (arith, weigh-enqueue c s (lookup c.review_id s.queues) refl)

  weigh-serve :
      (k : String) (rest : List String) (s t : ChunkScheduler) (c : ReviewChunk)
      (o : Option (List ReviewChunk))
      → NodupKeys s.queues
      → lookup k s.queues ≡ o
      → serve k o (record s { rotation = rest }) ≡ returns c t
      → sum_by (weigh f) s.queues ≡ f c + sum_by (weigh f) t.queues
  weigh-serve k rest s t c none w e h = absurd (ground arith)
  weigh-serve k rest s t c (some []) w e h = absurd (ground arith)
  weigh-serve k rest s t c (some (x ∷ [])) w e h =
      ground (arith, sum_by-erase (weigh f) k (x ∷ []) s.queues w e)
  weigh-serve k rest s t c (some (x ∷ y ∷ q)) w e h =
      ground (arith, sum_by-insert (weigh f) k (y ∷ q) (x ∷ y ∷ q) s.queues e)

  weigh-take_turn :
      (r : List String) (s t : ChunkScheduler) (c : ReviewChunk)
      → NodupKeys s.queues
      → take_turn r s ≡ returns c t
      → sum_by (weigh f) s.queues ≡ f c + sum_by (weigh f) t.queues
  weigh-take_turn [] s t c w h = absurd (ground arith)
  weigh-take_turn (k ∷ rest) s t c w h = weigh-serve k rest s t c (lookup k s.queues) w refl h

  weigh-get :
      (s t : ChunkScheduler) (c : ReviewChunk)
      → NodupKeys s.queues
      → get s ≡ returns c t
      → sum_by (weigh f) s.queues ≡ f c + sum_by (weigh f) t.queues
  unfolding get
  weigh-get s t c w h = ground (arith, weigh-take_turn s.rotation s t c w)

  weigh-cancel :
      (k : String) (s : ChunkScheduler)
      → NodupKeys s.queues
      → sum_by (weigh f) s.queues
        ≡ weigh f (waiting s k) + sum_by (weigh f) (cancel_review k s).1.queues
  unfolding cancel_review waiting
  weigh-cancel k s w = elim (Option-cases (lookup k s.queues)) [
    | inl e ↦ rw e (omega arith)
    | inr (q, e) ↦ rw e (omega (arith, sum_by-erase (weigh f) k q s.queues w e))
  ]

get-Keeps : (s : ChunkScheduler) (n : Tally) → Keeps (s, n) → Keeps (after_get (get s) (s, n))
get-Keeps s n (w, h, k) = elim (ℕ_discrete s.size 0) [
  | yes idle ↦ rw ((get_cases s w).0 idle) (w, h, k)
  | no busy ↦
      let (_, c, t, p, v) = (get_cases s w).1 busy in
      rw p (v.well_formed, h, λ f. omega (arith, k f, weigh-get f s t c w.distinct p))
]

put-Keeps :
    (c : ReviewChunk) (s : ChunkScheduler) (n : Tally) (r : Result QueueError ChunkScheduler)
    → put c s ≡ r
    → Keeps (s, n)
    → Keeps (after_put c r (s, n))
put-Keeps c s n (ok t) e (w, h, k) =
    (put-IsWellFormed c s e w, h, λ f. omega (arith, k f, weigh-put f c s t e))
put-Keeps c s n (err x) e h = h

cancel-Keeps :
    (j : String) (s : ChunkScheduler) (n : Tally) → Keeps (s, n) → Keeps (step (cancels j) (s, n))
unfolding step
cancel-Keeps j s n (w, h, k) = (
  cancel_review-IsWellFormed j s w,
  omega (arith, h, (cancel_review_effect j s w).0, length-append (waiting s j) n.dropped),
  λ f. omega (arith, k f, weigh-cancel f j s w.distinct, weigh-append f (waiting s j) n.dropped),
)

step-Keeps : (c : Call) (p : ChunkScheduler × Tally) → Keeps p → Keeps (step c p)
unfolding step
step-Keeps (puts c) (s, n) h = put-Keeps c s n (put c s) refl h
step-Keeps gets (s, n) h = get-Keeps s n h
step-Keeps (cancels k) (s, n) h = cancel-Keeps k s n h

run-Keeps : (cs : List Call) (p : ChunkScheduler × Tally) → Keeps p → Keeps (run cs p)
unfolding run
run-Keeps [] p h = h
run-Keeps (c ∷ cs) p h = run-Keeps cs (step c p) (step-Keeps c p h)

abbrev pub no_chunks : Tally
no_chunks = record { accepted = []; served = []; dropped = []; reported = 0 }

-- After any calls from an empty scheduler its fields agree with one another; the chunks that were
-- accepted are, each as often as it was accepted, those that were served, those that waited when
-- their review was cancelled, and those that still wait, since for every weight of the chunks the
-- sums agree; and the cancellations reported as many chunks as they dropped.
pub run_accounts :
    (limit : ℕ) (cs : List Call)
    → let (s, n) = run cs (init limit, no_chunks) in
      IsWellFormed s
      × (n.reported ≡ length n.dropped)
      × ((f : ReviewChunk → ℕ)
          → weigh f n.accepted ≡ weigh f n.served + weigh f n.dropped + sum_by (weigh f) s.queues)
run_accounts limit cs = run-Keeps cs _ (init-IsWellFormed limit, refl, λ f. unfold init in refl)

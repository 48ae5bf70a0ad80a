-- ===== src/Scheduler/Turns.antt =====
-- Whom `get` serves: it never raises, it serves the front of the rotation oldest chunk first, and
-- no waiting review is passed over.
use code_astra.Base.{
  ◌+◌, String, ◌≡◌, refl, ap, sym, ◌≢◌, List, [], ◌∷◌, ◌++◌, Option, none, some, arith, string_eq,
  nat_eq,
}
use code_astra.Base.Lists.{length}
use code_astra.Base.Dict.{
  lookup, lookup-insert_self, lookup-insert_ne, lookup-erase_self, lookup-erase_ne,
}
use mathlib.Core.List.{append-nil}
use code_astra.Domain.Chunks.{ReviewChunk}
use code_astra.Scheduler.{ChunkScheduler, get, take_turn, Turn, waits, returns, raises}
use native.Mathlib.Decide.{ℕ_discrete}
use code_astra.Base.Sums.{sum_by-insert, sum_by-erase}
use code_astra.Scheduler.Invariant.{turns, total-zero, IsWellFormed}
use code_astra.Scheduler.Preservation.{
  served_last, served_more, served_last-IsWellFormed, served_more-IsWellFormed,
}

-- The chunks of a review that wait, oldest first.
abbrev or_empty : Option (List ReviewChunk) → List ReviewChunk
or_empty none = []
or_empty (some q) = q

unfoldable pub waiting : ChunkScheduler → String → List ReviewChunk
waiting s k = or_empty (lookup k s.queues)

abbrev pub again : String → List ReviewChunk → List String
again k [] = []
again k (x ∷ q) = k ∷ []

-- A served turn: chunk `x` is the oldest of the review `k` at the front of the rotation, it alone
-- is gone, and the review goes behind the others if it has more.
pub record Serves (s : ChunkScheduler) (k : String) (x : ReviewChunk) (t : ChunkScheduler)
    : Type 0 where
  pub well_formed : IsWellFormed t
  pub rest : List String
  pub front : s.rotation ≡ k ∷ rest
  pub behind : t.rotation ≡ rest ++ again k (waiting t k)
  pub oldest : waiting s k ≡ x ∷ waiting t k
  pub others : (j : String) → j ≢ k → waiting t j ≡ waiting s j
  pub fewer : s.size ≡ t.size + 1

-- What `get` may do.
abbrev pub GetSpec : ChunkScheduler → Turn → Type 0
GetSpec s waits = s.size ≡ 0
GetSpec s (returns x t) = (s.size ≢ 0) × ((k : String) × Serves s k x t)
GetSpec s (raises e t) = ⊥

module _ (s : ChunkScheduler) (w : IsWellFormed s) where
  empty_rotation : s.rotation ≡ [] → s.size ≡ 0
  empty_rotation r = omega (arith, w.counted, total-zero s.queues (λ k. no_queue k))
    where
      no_queue : (k : String) → lookup k s.queues ≡ none
      no_queue k = ground (arith, w.rotates k, ap (turns k) r)

  module _ (k : String) (rest : List String) (r : s.rotation ≡ k ∷ rest) where
    front_queue : lookup k s.queues ≢ none
    front_queue h = ground (arith, w.rotates k, ap (turns k) r)

    Serves-last :
        (x : ReviewChunk) → lookup k s.queues ≡ some (x ∷ []) → Serves s k x (served_last k rest s)
    unfolding waiting
    Serves-last x e = record {
      well_formed = served_last-IsWellFormed k x rest s w r e;
      rest = rest;
      front = r;
      behind = rw (lookup-erase_self k s.queues) (sym (append-nil rest));
      oldest = rw (e, lookup-erase_self k s.queues);
      others = λ j h. rw (lookup-erase_ne j k s.queues h);
      fewer = omega (arith, w.counted, sum_by-erase length k (x ∷ []) s.queues w.distinct e);
    }

    Serves-more :
        (x y : ReviewChunk) (q : List ReviewChunk)
        → lookup k s.queues ≡ some (x ∷ y ∷ q)
        → Serves s k x (served_more k (y ∷ q) rest s)
    unfolding waiting
    Serves-more x y q e = record {
      well_formed = served_more-IsWellFormed k x rest s y q w r e;
      rest = rest;
      front = r;
      behind = rw (lookup-insert_self k (y ∷ q) s.queues);
      oldest = rw (e, lookup-insert_self k (y ∷ q) s.queues);
      others = λ j h. rw (lookup-insert_ne j k (y ∷ q) s.queues h);
      fewer = omega (arith, w.counted, sum_by-insert length k (y ∷ q) (x ∷ y ∷ q) s.queues e);
    }

    front-Serves :
        (q : List ReviewChunk)
        → lookup k s.queues ≡ some q
        → (x : ReviewChunk) × (t : ChunkScheduler) × (take_turn s.rotation s ≡ returns x t)
          × Serves s k x t
    front-Serves [] e = absurd (w.no_empty k e)
    front-Serves (x ∷ []) e = (x, served_last k rest s, rw (r, e), Serves-last x e)
    front-Serves (x ∷ y ∷ q) e = (x, served_more k (y ∷ q) rest s, rw (r, e), Serves-more x y q e)

  take_turn-Serves :
      s.size ≢ 0
      → (k : String) × (x : ReviewChunk) × (t : ChunkScheduler) × (take_turn s.rotation s
          ≡ returns x t)
        × Serves s k x t
  take_turn-Serves h = go s.rotation refl
    where
      with_queue :
          (k : String) (rest : List String)
          → s.rotation ≡ k ∷ rest
          → (o : Option (List ReviewChunk)) → lookup k s.queues ≡ o
          → (k : String) × (x : ReviewChunk) × (t : ChunkScheduler) × (take_turn s.rotation s
              ≡ returns x t)
            × Serves s k x t
      with_queue k rest r none e = absurd (front_queue k rest r e)
      with_queue k rest r (some q) e =
          let (x, t, p, v) = front-Serves k rest r q e in (k, x, t, p, v)

      go :
          (r : List String)
          → s.rotation ≡ r
          → (k : String) × (x : ReviewChunk) × (t : ChunkScheduler) × (take_turn s.rotation s
              ≡ returns x t)
            × Serves s k x t
      go [] r = absurd (h (empty_rotation r))
      go (k ∷ rest) r = with_queue k rest r (lookup k s.queues) refl

  pub get_cases :
      (s.size ≡ 0 → get s ≡ waits)
      × (s.size ≢ 0
          → (k : String) × (x : ReviewChunk) × (t : ChunkScheduler) × (get s ≡ returns x t)
            × Serves s k x t)
  unfolding get
  get_cases = (
    λ h. ground arith,
    λ h. let (k, x, t, p, v) = take_turn-Serves h in (k, x, t, ground arith, v),
  )

  -- From a well-formed scheduler `get` waits exactly when no chunk is queued. Otherwise it returns
  -- the oldest chunk of the review at the front of the rotation, removes that chunk alone, and
  -- puts the review behind the others if it has more; it never raises.
  pub get_serves : GetSpec s (get s)
  get_serves = elim (ℕ_discrete s.size 0) [
    | yes idle ↦ rw (get_cases.0 idle) idle
    | no busy ↦ let (k, x, t, p, v) = get_cases.1 busy in rw p (busy, (k, v))
  ]

-- ===== src/Scheduler/Fairness.antt =====
-- Reviews are served in rotation, so a waiting review is reached in as many calls as there are
-- reviews ahead of it.
use code_astra.Base.{
  ℕ, zero, suc, ◌≤◌, ◌<◌, String, ◌≡◌, refl, ap, ◌∙◌, ◌≢◌, List, [], ◌∷◌, ◌++◌, Option, none, some,
  arith, string_eq, nat_eq,
}
use mathlib.Core.List.{append_assoc}
use code_astra.Base.Lists.{length}
use code_astra.Base.Dict.{lookup}
use code_astra.Domain.Chunks.{ReviewChunk}
use code_astra.Scheduler.{ChunkScheduler, get, Turn, waits, returns, raises}
use code_astra.Base.Sums.{le-sum_by}
use code_astra.Scheduler.Invariant.{turns, turns-append, IsWellFormed, one_if}
use code_astra.Scheduler.Turns.{waiting, get_cases, again}

-- The call of `get` that comes after `n` others, with no other call between.
abbrev after : Turn → (ChunkScheduler → Turn) → Turn
after waits f = waits
after (returns c s) f = f s
after (raises e s) f = raises e s

unfoldable pub nth_get : ℕ → ChunkScheduler → Turn
nth_get zero s = get s
nth_get (suc n) s = after (get s) (nth_get n)

module _ (s : ChunkScheduler) (w : IsWellFormed s) (k : String) where
  not_idle : (x : ReviewChunk) (q : List ReviewChunk) → waiting s k ≡ x ∷ q → s.size ≢ 0
  unfolding waiting
  not_idle x q e z = go (lookup k s.queues) refl
    where
      go : (o : Option (List ReviewChunk)) → lookup k s.queues ≡ o → ⊥
      go none h = ground arith
      go (some p) h = omega (arith, w.counted, le-sum_by length k p s.queues h, long)
        where
          long : 0 < length p
          long = rw (ap length same) (omega arith)
            where
              same : p ≡ x ∷ q
              same = ground arith

  -- No review stands twice in the rotation.
  ahead_differs :
      (b : String) (before behind : List String) → s.rotation ≡ b ∷ (before ++ k ∷ behind) → k ≢ b
  ahead_differs b before behind r e =
      ground (arith, w.rotates k, ap (turns k) r, turns-append k before (k ∷ behind), at_most_one)
    where
      at_most_one : one_if (lookup k s.queues) ≤ 1
      at_most_one = ground arith

front_of :
    (s : ChunkScheduler) (w : IsWellFormed s) (b : String) (rest : List String)
    → s.rotation ≡ b ∷ rest
    → s.size ≢ 0
    → (c : ReviewChunk) × (t : ChunkScheduler) × (get s ≡ returns c t)
      × IsWellFormed t
      × (t.rotation ≡ rest ++ again b (waiting t b))
      × (waiting s b ≡ c ∷ waiting t b)
      × ((j : String) → j ≢ b → waiting t j ≡ waiting s j)
front_of s w b rest r h =
    let (k, c, t, p, v) = (get_cases s w).1 h in
    let same : k ≡ b = cc (r, v.front) in
    let tail : v.rest ≡ rest = cc (r, v.front) in
    (
      c,
      t,
      p,
      v.well_formed,
      rw (← same, ← tail) v.behind,
      rw (← same) v.oldest,
      rw (← same) v.others,
    )

-- In a well-formed scheduler, a waiting review with `before` ahead of it is served by the call after as many others, and what
-- comes is its oldest chunk.
pub served_in_turn :
    (before behind : List String) (s : ChunkScheduler) (k : String) (x : ReviewChunk)
    (q : List ReviewChunk)
    → IsWellFormed s
    → s.rotation ≡ before ++ k ∷ behind
    → waiting s k ≡ x ∷ q
    → (t : ChunkScheduler) × (nth_get (length before) s ≡ returns x t) × (waiting t k ≡ q)
unfolding nth_get
served_in_turn [] behind s k x q w r e =
    let (c, t, p, v, b, o, j) = front_of s w k behind r (not_idle s w k x q e) in (t, cc, cc)
served_in_turn (b ∷ before) behind s k x q w r e =
    let (c, t, p, v, f, o, j) = front_of s w b (before ++ k ∷ behind) r (not_idle s w k x q e) in
    rw p (
      served_in_turn before (behind ++ again b (waiting t b)) t k x q v
        (rw f (append_assoc before (k ∷ behind) (again b (waiting t b))))
        (j k (ahead_differs s w k b before behind r) ∙ e))

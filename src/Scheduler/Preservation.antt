-- ===== src/Scheduler/Preservation.antt =====
-- Every method of `ChunkScheduler` keeps its invariant, so a chain of calls does.
use code_astra.Base.{
  ◌-◌, ◌<◌, String, ◌≡◌, refl, ap, subst, ◌≢◌, inl, inr, false, List, [], ◌∷◌, ◌++◌, Option, none,
  some, arith, leb, string_eq, nat_eq, Option-cases, Bool-cases,
}
use code_astra.Base.Lists.{length, length-append}
use code_astra.Base.Dict.{
  lookup, insert, erase, lookup-insert, lookup-erase, insert-NodupKeys, erase-NodupKeys,
}
use code_astra.Base.Result.{ok}
use code_astra.Domain.Chunks.{ReviewChunk}
use code_astra.Scheduler.{ChunkScheduler, put, cancel_review, enqueue}
use code_astra.Base.Sums.{sum_by-insert, sum_by-insert_new, sum_by-erase}
use code_astra.Scheduler.Invariant.{turns, turns-append, turns-filter, IsWellFormed}

snoc-ne-nil : (q : List ReviewChunk) (c : ReviewChunk) → q ++ c ∷ [] ≢ []
snoc-ne-nil [] c h = ground arith
snoc-ne-nil (x ∷ q) c h = ground arith

enqueue-IsWellFormed :
    (c : ReviewChunk) (o : Option (List ReviewChunk)) (s : ChunkScheduler)
    → lookup c.review_id s.queues ≡ o
    → s.size < s.queue_limit
    → IsWellFormed s
    → IsWellFormed (enqueue c o s)
enqueue-IsWellFormed c none s e room w = record {
  distinct = insert-NodupKeys _ _ s.queues w.distinct;
  rotates = λ k. ground (
    arith,
    turns-append k s.rotation (c.review_id ∷ []),
    w.rotates k,
    lookup-insert k c.review_id (c ∷ []) s.queues,
  );
  no_empty = λ k h. ground (arith, w.no_empty k, lookup-insert k c.review_id (c ∷ []) s.queues);
  counted = omega (arith, w.counted, sum_by-insert_new length c.review_id (c ∷ []) s.queues e);
  limited = omega arith;
}
enqueue-IsWellFormed c (some q) s e room w = record {
  distinct = insert-NodupKeys _ _ s.queues w.distinct;
  rotates = λ k. ground (arith, w.rotates k, lookup-insert k c.review_id (q ++ c ∷ []) s.queues);
  no_empty = λ k h.
      ground
        (arith, w.no_empty k, lookup-insert k c.review_id (q ++ c ∷ []) s.queues, snoc-ne-nil q c);
  counted = omega (
    arith,
    w.counted,
    sum_by-insert length c.review_id (q ++ c ∷ []) q s.queues e,
    length-append q (c ∷ []),
  );
  limited = omega arith;
}

pub put-IsWellFormed :
    (c : ReviewChunk) (s : ChunkScheduler) {t : ChunkScheduler}
    → put c s ≡ ok t
    → IsWellFormed s
    → IsWellFormed t
unfolding put
put-IsWellFormed c s {t} h w = elim (Bool-cases (leb s.queue_limit s.size)) [
  | inl full ↦ absurd (ground arith)
  | inr room ↦
      subst IsWellFormed (accepted room)
        (enqueue-IsWellFormed c (lookup c.review_id s.queues) s refl (ground arith) w)
]
  where
    accepted : leb s.queue_limit s.size ≡ false → enqueue c (lookup c.review_id s.queues) s ≡ t
    accepted room = ground arith

-- What `get` leaves behind when the queue served has no other chunk, and when it has.
abbrev pub served_last : String → List String → ChunkScheduler → ChunkScheduler
served_last k rest s = record s { queues = erase k s.queues; rotation = rest; size = s.size - 1 }

abbrev pub served_more : String → List ReviewChunk → List String → ChunkScheduler → ChunkScheduler
served_more k q rest s = record s {
  queues = insert k q s.queues;
  rotation = rest ++ k ∷ [];
  size = s.size - 1;
}

module _ (k : String) (x : ReviewChunk) (rest : List String) (s : ChunkScheduler) where
  pub served_last-IsWellFormed :
      IsWellFormed s
      → s.rotation ≡ k ∷ rest
      → lookup k s.queues ≡ some (x ∷ [])
      → IsWellFormed (served_last k rest s)
  served_last-IsWellFormed w r e = record {
    distinct = erase-NodupKeys k s.queues w.distinct;
    rotates = λ j. ground (arith, w.rotates j, lookup-erase j k s.queues, ap (turns j) r);
    no_empty = λ j h. ground (arith, w.no_empty j, lookup-erase j k s.queues);
    counted = omega (arith, w.counted, sum_by-erase length k (x ∷ []) s.queues w.distinct e);
    limited = omega (arith, w.limited);
  }

  pub served_more-IsWellFormed :
      (y : ReviewChunk) (q : List ReviewChunk)
      → IsWellFormed s
      → s.rotation ≡ k ∷ rest
      → lookup k s.queues ≡ some (x ∷ y ∷ q)
      → IsWellFormed (served_more k (y ∷ q) rest s)
  served_more-IsWellFormed y q w r e = record {
    distinct = insert-NodupKeys k (y ∷ q) s.queues w.distinct;
    rotates = λ j. ground (
      arith,
      w.rotates j,
      lookup-insert j k (y ∷ q) s.queues,
      ap (turns j) r,
      turns-append j rest (k ∷ []),
    );
    no_empty = λ j h. ground (arith, w.no_empty j, lookup-insert j k (y ∷ q) s.queues);
    counted = omega (arith, w.counted, sum_by-insert length k (y ∷ q) (x ∷ y ∷ q) s.queues e);
    limited = omega (arith, w.limited);
  }

pub cancel_review-IsWellFormed :
    (k : String) (s : ChunkScheduler) → IsWellFormed s → IsWellFormed (cancel_review k s).1
unfolding cancel_review
cancel_review-IsWellFormed k s w = elim (Option-cases (lookup k s.queues)) [
  | inl e ↦ rw e w
  | inr (q, e) ↦ rw e (record {
    distinct = erase-NodupKeys k s.queues w.distinct;
    rotates =
        λ j. ground (arith, turns-filter j k s.rotation, w.rotates j, lookup-erase j k s.queues);
    no_empty = λ j h. ground (arith, w.no_empty j, lookup-erase j k s.queues);
    counted = omega (arith, w.counted, sum_by-erase length k q s.queues w.distinct e);
    limited = omega (arith, w.limited);
  })
]

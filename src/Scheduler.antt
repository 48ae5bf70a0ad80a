-- ===== src/Scheduler.antt =====
-- src/code_review/application/chunk_scheduler.py: `ChunkScheduler`, one method at a time. Each
-- method holds the condition's lock throughout, so that a call is one step; `get` that would wait
-- says so and changes nothing, and is tried again after a notification.
pub mod Invariant
pub mod Preservation
pub mod Turns
pub mod Calls
mod Tests
pub mod Fairness
use code_astra.Base.{
  ℕ, ◌+◌, ◌-◌, String, not, List, [], ◌∷◌, ◌++◌, Option, none, some, leb, ◌==◌, string_eq, nat_eq,
  if◌then◌else◌,
}
use code_astra.Base.Lists.{length, filter}
use code_astra.Base.Dict.{Dict, lookup, insert, erase}
use code_astra.Base.Result.{Result, ok, err}
use code_astra.Domain.Chunks.{ReviewChunk}

pub record ChunkScheduler : Type 0 where
  pub queue_limit : ℕ
  pub queues : Dict String (List ReviewChunk)
  pub rotation : List String
  pub size : ℕ

unfoldable pub init : ℕ → ChunkScheduler
init limit = record { queue_limit = limit; queues = []; rotation = []; size = 0 }

pub data QueueError : Type 0 where
  review_queue_full : QueueError

-- The lines of `put` below the guard: the queue of the review is made if it is not there.
abbrev pub enqueue : ReviewChunk → Option (List ReviewChunk) → ChunkScheduler → ChunkScheduler
enqueue chunk none s = record s {
  queues = insert chunk.review_id (chunk ∷ []) s.queues;
  rotation = s.rotation ++ chunk.review_id ∷ [];
  size = s.size + 1;
}
enqueue chunk (some queue) s = record s {
  queues = insert chunk.review_id (queue ++ chunk ∷ []) s.queues;
  size = s.size + 1;
}

unfoldable pub put : ReviewChunk → ChunkScheduler → Result QueueError ChunkScheduler
put chunk s =
    if leb s.queue_limit s.size
    then err review_queue_full
    else ok (enqueue chunk (lookup chunk.review_id s.queues) s)

-- How one pass of `get` ends. A raise is Python's own, of `popleft` or of a missing key.
pub data Fault : Type 0 where
  index_error key_error : Fault

pub data Turn : Type 0 where
  waits : Turn
  returns : ReviewChunk → ChunkScheduler → Turn
  raises : Fault → ChunkScheduler → Turn

abbrev pub serve : String → Option (List ReviewChunk) → ChunkScheduler → Turn
serve review_id none s = raises key_error s
serve review_id (some []) s = raises index_error s
serve review_id (some (chunk ∷ [])) s =
    returns chunk (record s { queues = erase review_id s.queues; size = s.size - 1 })
serve review_id (some (chunk ∷ next ∷ queue)) s = returns chunk (record s {
  queues = insert review_id (next ∷ queue) s.queues;
  rotation = s.rotation ++ review_id ∷ [];
  size = s.size - 1;
})

abbrev pub take_turn : List String → ChunkScheduler → Turn
take_turn [] s = raises index_error s
take_turn (review_id ∷ rest) s =
    serve review_id (lookup review_id s.queues) (record s { rotation = rest })

unfoldable pub get : ChunkScheduler → Turn
get s = if s.size == 0 then waits else take_turn s.rotation s

abbrev pub drop_review : String → Option (List ReviewChunk) → ChunkScheduler → ℕ × ChunkScheduler
drop_review review_id none s = (0, s)
drop_review review_id (some queue) s = (
  length queue,
  record s {
    queues = erase review_id s.queues;
    rotation = filter (λ item. not (item == review_id)) s.rotation;
    size = s.size - length queue;
  },
)

unfoldable pub cancel_review : String → ChunkScheduler → ℕ × ChunkScheduler
cancel_review review_id s = drop_review review_id (lookup review_id s.queues) s

-- ===== src/Scheduler/Tests.antt =====
-- Runs of the scheduler, and its theorems at concrete inputs.
use code_astra.Base.{
  ℕ, nat_eq, ◌+◌, String, ◌≡◌, refl, List, [], ◌∷◌, ◌++◌, none, ◌==◌, string_eq, if◌then◌else◌,
}
use code_astra.Base.Lists.{length, weigh}
use code_astra.Base.Sums.{sum_by}
use code_astra.Base.Dict.{lookup, insert, erase}
use code_astra.Domain.Chunks.{ReviewChunk, Language, ChunkStatus}
use code_astra.Scheduler.{ChunkScheduler, init, put, get, cancel_review, returns}
use code_astra.Scheduler.Invariant.{IsWellFormed}
use code_astra.Scheduler.Turns.{waiting, GetSpec, get_serves}
use code_astra.Scheduler.Fairness.{nth_get, served_in_turn}
use code_astra.Scheduler.Calls.{
  Call, puts, gets, cancels, no_chunks, step, run, put_effect, PutSpec, cancel_review_effect,
  run_accounts,
}

abbrev chunk : String → String → ReviewChunk
chunk review_id chunk_id = record {
  chunk_id = chunk_id;
  review_id = review_id;
  language = Language.python;
  target_file_id = "file-1";
  target_path = "src/app.py";
  target_start_line = 1;
  target_end_line = 4;
  target_code = "print(1)";
  content_fingerprint = "f";
  context_references = [];
  prompt_tokens_estimate = 0;
  output_tokens_budget = 0;
  parent_chunk_id = none;
  split_depth = 0;
  attempt_count = 0;
  status = ChunkStatus.queued;
  error_code = none;
  error_message = none;
}

-- Two chunks of one review, then one of another; a fourth is refused.
abbrev busy_calls : List Call
busy_calls =
    puts (chunk "a" "1") ∷ puts (chunk "a" "2") ∷ puts (chunk "b" "3") ∷ puts (chunk "b" "4") ∷ []

abbrev busy : ChunkScheduler
busy = (run busy_calls (init 3, no_chunks)).0

abbrev two_reviews : ChunkScheduler
two_reviews = record {
  queue_limit = 3;
  queues = ("a", chunk "a" "1" ∷ chunk "a" "2" ∷ []) ∷ ("b", chunk "b" "3" ∷ []) ∷ [];
  rotation = "a" ∷ "b" ∷ [];
  size = 3;
}

busy_is : busy ≡ two_reviews
unfolding run step put init lookup insert string_eq
busy_is = refl

two_reviews-IsWellFormed : IsWellFormed two_reviews
unfolding run step put init lookup insert string_eq
two_reviews-IsWellFormed = (run_accounts 3 busy_calls).0

-- The second review is not kept waiting by the first one's backlog.
alternates :
    nth_get 1 two_reviews
    ≡ returns (chunk "b" "3") (record two_reviews {
      queues = ("a", chunk "a" "2" ∷ []) ∷ [];
      rotation = "a" ∷ [];
      size = 1;
    })
unfolding nth_get get lookup insert erase string_eq nat_eq
alternates = refl

run_accounts_example :
    let (s, n) = run (busy_calls ++ gets ∷ cancels "a" ∷ []) (init 3, no_chunks) in
    IsWellFormed s
    × (n.reported ≡ length n.dropped)
    × ((f : ReviewChunk → ℕ)
        → weigh f n.accepted ≡ weigh f n.served + weigh f n.dropped + sum_by (weigh f) s.queues)
run_accounts_example = run_accounts 3 (busy_calls ++ gets ∷ cancels "a" ∷ [])

get_serves_example : GetSpec two_reviews (get two_reviews)
get_serves_example = get_serves two_reviews two_reviews-IsWellFormed

served_in_turn_example :
    (t : ChunkScheduler) × (nth_get (length {A = String} ("a" ∷ [])) two_reviews
      ≡ returns (chunk "b" "3") t)
    × (waiting t "b" ≡ [])
unfolding waiting lookup string_eq
served_in_turn_example =
    served_in_turn ("a" ∷ []) [] two_reviews "b" (chunk "b" "3") [] two_reviews-IsWellFormed refl
      refl

put_effect_example : PutSpec (chunk "c" "5") two_reviews (put (chunk "c" "5") two_reviews)
put_effect_example = put_effect (chunk "c" "5") two_reviews

cancel_review_effect_example :
    let (removed, t) = cancel_review "a" two_reviews in
    (removed ≡ length (waiting two_reviews "a"))
    × (t.size + removed ≡ two_reviews.size)
    × ((j : String) → waiting t j ≡ (if j == "a" then [] else waiting two_reviews j))
cancel_review_effect_example = cancel_review_effect "a" two_reviews two_reviews-IsWellFormed

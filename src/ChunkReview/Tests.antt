-- ===== src/ChunkReview/Tests.antt =====
-- The theorems on the execution of a chunk at concrete inputs.
use code_astra.Base.{ℕ, zero, suc, ◌≤◌, String, refl, List, [], ◌∷◌, none, some, true, false}
use code_astra.Base.Result.{ok}
use code_astra.Domain.Chunks.{Language, ReviewChunk, ChunkStatus}
use code_astra.ChunkReview.Errors.{FailureKind}
use code_astra.ChunkReview.{Outcome, Surroundings}
use code_astra.ChunkReview.Execute.{Parts, execute}
use code_astra.ChunkReview.Stale.{StopsWhenStale, stale_rechecks_stop}
use code_astra.ChunkReview.After.{WhenReturned}
use code_astra.ChunkReview.Settling.{Settled, execution_settles}
use code_astra.ChunkReview.Calls.{count_calls, at_most_two_calls}
use code_astra.ChunkReview.Returning.{HasReturned, IsNotCancelled, AllGoesWell, executions_return}

-- The first call of the model times out, the next finds one problem.
abbrev after_calls : ℕ → Outcome (List String)
after_calls zero =
    Outcome.raises (record { kind = FailureKind.timed_out; type_name = "ReadTimeout"; causes = [] })
after_calls (suc n) = Outcome.returns ("eval" ∷ [])

abbrev slow_model : Surroundings String String
slow_model = record {
  recheck_attempt = some "a1";
  still_current = λ log. Outcome.returns true;
  accepts = λ event log. Outcome.returns tt;
  answers = λ request log. after_calls (count_calls log);
  validates = λ draft. Outcome.returns (some draft);
  is_llm = λ finding. true;
  has_judge = true;
  judge_calls = λ log. 0;
  judges = λ finding log. Outcome.returns (record { accepted = true; confident = true });
  new_id = λ log. "0";
  max_split_depth = 3;
}

abbrev stub_parts : Parts
stub_parts = record {
  encoding = record { utf8_length = λ text. 8; digits = λ n. "1" };
  budgeter = record {
    context_tokens = 4000;
    safety_tokens = 100;
    minimum_output_tokens = 200;
    maximum_output_tokens = 800;
    fixed_prompt_tokens = 500;
  };
  schema = "{}";
  tools = record { parse = λ content. ok []; sha256 = λ text. text; digits = λ n. "1" };
}

abbrev queued_chunk : ReviewChunk
queued_chunk = record {
  chunk_id = "c";
  review_id = "r";
  language = Language.python;
  target_file_id = "f";
  target_path = "f.py";
  target_start_line = 1;
  target_end_line = 2;
  target_code = "a = 1\nb = eval(a)";
  content_fingerprint = "";
  context_references = [];
  prompt_tokens_estimate = 0;
  output_tokens_budget = 0;
  parent_chunk_id = none;
  split_depth = 0;
  attempt_count = 0;
  status = ChunkStatus.queued;
  error_code = none;
  error_message = none;
}

-- The recheck is replaced while the model answers.
abbrev replaced_recheck : Surroundings String String
replaced_recheck = record slow_model {
  still_current = λ log. Outcome.returns (elim (count_calls log) [ zero ↦ true | suc n ↦ false ]);
}

stale_rechecks_stop_example :
    StopsWhenStale (execute replaced_recheck stub_parts queued_chunk "local-qwen3-8b" [])
stale_rechecks_stop_example =
    stale_rechecks_stop replaced_recheck stub_parts queued_chunk "local-qwen3-8b"

execution_settles_example :
    WhenReturned
      (Settled stub_parts.tools 3 queued_chunk)
      (execute slow_model stub_parts queued_chunk "local-qwen3-8b" [])
execution_settles_example = execution_settles slow_model stub_parts queued_chunk "local-qwen3-8b"

at_most_two_calls_example :
    count_calls (execute slow_model stub_parts queued_chunk "local-qwen3-8b" []).1 ≤ 2
at_most_two_calls_example = at_most_two_calls slow_model stub_parts queued_chunk "local-qwen3-8b"

slow_model-well : AllGoesWell slow_model
slow_model-well = record {
  current = λ log. refl;
  accepts = λ event log. refl;
  answers = λ request log. not_cancelled (count_calls log);
  validates = λ draft. tt;
  judges = λ finding log. tt;
}
  where
    not_cancelled : (n : ℕ) → IsNotCancelled (after_calls n)
    not_cancelled zero = tt
    not_cancelled (suc n) = tt

executions_return_example :
    HasReturned (execute slow_model stub_parts queued_chunk "local-qwen3-8b" []).0
executions_return_example =
    executions_return slow_model stub_parts queued_chunk "local-qwen3-8b" slow_model-well

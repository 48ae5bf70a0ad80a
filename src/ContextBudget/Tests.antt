-- ===== src/ContextBudget/Tests.antt =====
-- A run of the budget, and its theorem at a concrete chunk.
use code_astra.Base.{ℕ, String, [], ◌∷◌, none, ◌≡◌, refl, text_lt}
use code_astra.Base.Sort.{sort_by, insert_by}
use code_astra.Domain.Chunks.{ContextReference, ReviewChunk, Language, ChunkStatus}
use code_astra.ContextBudget.{
  Encoding, ContextBudgeter, trim_context, ranked, estimate_text, reference_tokens, is_over, trim,
  base_tokens, fit,
}
use code_astra.ContextBudget.Keeping.{KeptSpec, fit_keeps_budget}

abbrev flat : Encoding
flat = record { utf8_length = λ _. 20; digits = λ _. "1" }

abbrev small : ContextBudgeter
small = record {
  context_tokens = 200;
  safety_tokens = 10;
  minimum_output_tokens = 20;
  maximum_output_tokens = 100;
  fixed_prompt_tokens = 50;
}

abbrev reference : String → ℕ → ContextReference
reference path rank = record {
  file_id = path;
  path = path;
  start_line = 1;
  end_line = 2;
  code = "x";
  reason = "import";
  rank = rank;
}

abbrev chunk : ReviewChunk
chunk = record {
  chunk_id = "c";
  review_id = "r";
  language = Language.python;
  target_file_id = "f";
  target_path = "f.py";
  target_start_line = 1;
  target_end_line = 2;
  target_code = "y";
  content_fingerprint = "";
  context_references = reference "b.py" 9 ∷ reference "a.py" 1 ∷ [];
  prompt_tokens_estimate = 0;
  output_tokens_budget = 0;
  parent_chunk_id = none;
  split_depth = 0;
  attempt_count = 0;
  status = ChunkStatus.pending;
  error_code = none;
  error_message = none;
}

-- The second reference is given up, and the output has what is left.
trims : fit flat small chunk ≡ record {
  action = trim_context;
  target_code = "y";
  references = reference "a.py" 1 ∷ [];
  prompt_tokens = 134;
  output_tokens = 56;
  total_tokens = 190;
}
unfolding fit trim base_tokens is_over reference_tokens estimate_text sort_by insert_by ranked
    text_lt
trims = refl

fit_keeps_budget_example :
    KeptSpec flat small chunk (fit flat small chunk) (fit flat small chunk).action
fit_keeps_budget_example = fit_keeps_budget flat small chunk

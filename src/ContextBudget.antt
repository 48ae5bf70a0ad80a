-- ===== src/ContextBudget.antt =====
-- src/code_review/application/context_budget.py: `ContextBudgeter.fit`. The length of a text in UTF-8
-- and the digits of a number, which Python computes, are parameters.
pub mod Fitting
pub mod Keeping
mod Tests
use Prim.Native.String
use code_astra.Base.{
  ℕ, ◌+◌, ◌-◌, ◌/◌, min, max, String, Bool, true, false, ◌&&◌, List, [], ◌∷◌, ltb, leb, ◌==◌,
  string_eq, nat_eq, if◌then◌else◌, text_lt,
}
use code_astra.Base.Lists.{length, weigh}
use code_astra.Base.Sort.{sort_by}
use code_astra.Domain.Chunks.{ContextReference, ReviewChunk}

pub record Encoding : Type 0 where
  pub utf8_length : String → ℕ
  pub digits : ℕ → String

pub data BudgetAction : Type 0 where
  split_target trim_context fits : BudgetAction

pub record BudgetDecision : Type 0 where
  pub action : BudgetAction
  pub target_code : String
  pub references : List ContextReference
  pub prompt_tokens : ℕ
  pub output_tokens : ℕ
  pub total_tokens : ℕ

pub record ContextBudgeter : Type 0 where
  pub context_tokens : ℕ
  pub safety_tokens : ℕ
  pub minimum_output_tokens : ℕ
  pub maximum_output_tokens : ℕ
  pub fixed_prompt_tokens : ℕ

-- The order of the tuples of rank, path and start line.
unfoldable pub ranked : ContextReference → ContextReference → Bool
ranked a b =
    if ltb a.rank b.rank
    then true
    else if ltb b.rank a.rank
    then false
    else if text_lt a.path b.path
    then true
    else if text_lt b.path a.path
    then false
    else ltb a.start_line b.start_line

module _ (x : Encoding) where
  -- `math.ceil` of half the length, and one at least
  unfoldable pub estimate_text : String → ℕ
  estimate_text content = max 1 ((x.utf8_length content + 1) / 2)

  abbrev pub metadata : ContextReference → String
  metadata reference = String.◌++◌ reference.path (
      String.◌++◌ ":" (
        String.◌++◌ (x.digits reference.start_line)
          (String.◌++◌ "-" (x.digits reference.end_line))))

  unfoldable pub reference_tokens : ContextReference → ℕ
  reference_tokens reference = estimate_text (String.◌++◌ (metadata reference) reference.code) + 32

  module _ (b : ContextBudgeter) where
    -- `prompt + self.minimum_output_tokens > available`, without the difference
    unfoldable pub is_over : ℕ → Bool
    is_over prompt = ltb b.context_tokens (prompt + b.minimum_output_tokens + b.safety_tokens)

    -- A reference is popped when those behind it have been and the prompt is still too long.
    abbrev pub pop_last : ContextReference → List ContextReference × ℕ → List ContextReference × ℕ
    pop_last first ([], prompt) =
        if is_over prompt then ([], prompt - reference_tokens first) else (first ∷ [], prompt)
    pop_last first (next ∷ kept, prompt) = (first ∷ next ∷ kept, prompt)

    -- The loop, which pops from the end.
    unfoldable pub trim : ℕ → List ContextReference → List ContextReference × ℕ
    trim prompt [] = ([], prompt)
    trim prompt (first ∷ references) = pop_last first (trim prompt references)

    abbrev pub decide : String → ℕ → List ContextReference × ℕ → BudgetDecision
    decide target_code original_count (references, prompt) =
        let output = min b.maximum_output_tokens (b.context_tokens - b.safety_tokens - prompt) in
        record {
          action = if ltb (length references) original_count then trim_context else fits;
          target_code = target_code;
          references = references;
          prompt_tokens = prompt;
          output_tokens = output;
          total_tokens = prompt + output;
        }

    unfoldable pub base_tokens : ReviewChunk → ℕ
    base_tokens chunk = b.fixed_prompt_tokens + (estimate_text chunk.target_code + 32)

    unfoldable pub fit : ReviewChunk → BudgetDecision
    fit chunk =
        let base = base_tokens chunk in
        let references = sort_by ranked chunk.context_references in
        if is_over base
        then record {
          action = split_target;
          target_code = chunk.target_code;
          references = [];
          prompt_tokens = base;
          output_tokens = 0;
          total_tokens = base;
        }
        else decide chunk.target_code (length references)
            (trim (base + weigh reference_tokens references) references)

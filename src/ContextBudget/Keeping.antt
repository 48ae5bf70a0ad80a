-- ===== src/ContextBudget/Keeping.antt =====
-- What a decision of the budget guarantees, in the budget's numbers alone.
use Prim.Native.String
use code_astra.Base.{
  ℕ, ◌+◌, ◌/◌, ◌≤◌, ◌<◌, min, max, true, false, List, [], ◌∷◌, ◌++◌, ◌≡◌, ◌≢◌, Bool-cases, inl, inr,
  refl, ap, sym, subst, ◌∙◌, ◌⊎◌, arith, text_lt,
}
use code_astra.Base.Lists.{length, weigh, weigh-append}
use code_astra.Base.TextOrder.{text_lt_trans, text_lt_irrefl}
use code_astra.Base.Sort.{sort_by, weigh-sort_by, InOrder, InOrder-sort_by}
use code_astra.Domain.Chunks.{ContextReference, ReviewChunk}
use code_astra.ContextBudget.{
  Encoding, BudgetAction, split_target, trim_context, fits, BudgetDecision, ContextBudgeter, ranked,
  reference_tokens, estimate_text, is_over, base_tokens, fit,
}
use code_astra.ContextBudget.Fitting.{NoRoom, Fitted, BudgetSpec, fit_lem}

-- `a` is not to be kept after `b`: its rank is lower, or as low and its path is first, or the path
-- is not after that of `b` and it starts no later.
abbrev pub GoesBefore : ContextReference → ContextReference → Type 0
GoesBefore a b =
    (a.rank < b.rank)
    ⊎ ((a.rank ≡ b.rank)
        × ((text_lt a.path b.path ≡ true)
            ⊎ ((text_lt b.path a.path ≡ false) × (a.start_line ≤ b.start_line))))

-- Each reference goes before the next one.
abbrev pub BestFirst : List ContextReference → Type 0
BestFirst [] = Unit
BestFirst (a ∷ []) = Unit
BestFirst (a ∷ b ∷ l) = GoesBefore a b × BestFirst (b ∷ l)

ranked_asym : (a b : ContextReference) → ranked a b ≡ true → ranked b a ≡ false
unfolding ranked
ranked_asym a b h = ground (arith, text_lt_trans a.path b.path a.path, text_lt_irrefl a.path)

not_ranked-GoesBefore : (a b : ContextReference) → ranked b a ≡ false → GoesBefore a b
unfolding ranked
not_ranked-GoesBefore a b h = ground arith

InOrder-BestFirst : (l : List ContextReference) → InOrder ranked l → BestFirst l
InOrder-BestFirst [] h = tt
InOrder-BestFirst (a ∷ []) h = tt
InOrder-BestFirst (a ∷ b ∷ l) h = (not_ranked-GoesBefore a b h.0, InOrder-BestFirst (b ∷ l) h.1)

-- A text of so many bytes: half of them, rounded up and one at least, and 32 for its frame.
abbrev pub cost : ℕ → ℕ
cost bytes = max 1 ((bytes + 1) / 2) + 32

module _ (x : Encoding) (b : ContextBudgeter) where
  -- A reference costs its code with its place, `path:start-end`, in front.
  abbrev pub reference_cost : ContextReference → ℕ
  reference_cost reference = cost (
      x.utf8_length (
        String.◌++◌
          (String.◌++◌ reference.path (
            String.◌++◌ ":" (
              String.◌++◌ (x.digits reference.start_line)
                (String.◌++◌ "-" (x.digits reference.end_line)))))
          reference.code))

  -- With this prompt, the least output and the safety margin do not fit the context.
  abbrev pub TooLong : ℕ → Type 0
  TooLong prompt = b.context_tokens < prompt + b.minimum_output_tokens + b.safety_tokens

  abbrev pub NextTooLong : ℕ → List ContextReference → Type 0
  NextTooLong prompt [] = Unit
  NextTooLong prompt (next ∷ dropped) = TooLong (prompt + reference_cost next)

  -- What a decision that keeps references promises.
  pub record Kept (chunk : ReviewChunk) (d : BudgetDecision) : Type 0 where
    pub target_fits : ¬ TooLong (b.fixed_prompt_tokens + cost (x.utf8_length chunk.target_code))
    pub dropped : List ContextReference
    pub same :
        (f : ContextReference → ℕ)
        → weigh f d.references + weigh f dropped ≡ weigh f chunk.context_references
    pub best_first : BestFirst (d.references ++ dropped)
    pub prompt :
        d.prompt_tokens
        ≡ b.fixed_prompt_tokens
          + cost (x.utf8_length chunk.target_code)
          + weigh reference_cost d.references
    pub total : d.total_tokens ≡ d.prompt_tokens + d.output_tokens
    pub within : d.total_tokens + b.safety_tokens ≤ b.context_tokens
    pub least_output : min b.minimum_output_tokens b.maximum_output_tokens ≤ d.output_tokens
    pub most_output : d.output_tokens ≤ b.maximum_output_tokens
    pub full : NextTooLong d.prompt_tokens dropped

  -- What a decision may be.
  abbrev pub KeptSpec : ReviewChunk → BudgetDecision → BudgetAction → Type 0
  KeptSpec chunk d split_target =
      TooLong (b.fixed_prompt_tokens + cost (x.utf8_length chunk.target_code)) × (d.references ≡ [])
  KeptSpec chunk d trim_context =
      (length d.references < length chunk.context_references) × Kept chunk d
  KeptSpec chunk d fits = (length d.references ≡ length chunk.context_references) × Kept chunk d

  is_over-TooLong : (prompt : ℕ) → is_over x b prompt ≡ true → TooLong prompt
  unfolding is_over
  is_over-TooLong prompt h = ground arith

  reference_tokens_lem :
      (reference : ContextReference) → reference_tokens x reference ≡ reference_cost reference
  unfolding reference_tokens estimate_text
  reference_tokens_lem reference = refl

  weigh-reference_tokens :
      (l : List ContextReference) → weigh (reference_tokens x) l ≡ weigh reference_cost l
  weigh-reference_tokens [] = refl
  weigh-reference_tokens (r ∷ l) = omega (arith, reference_tokens_lem r, weigh-reference_tokens l)

  base_tokens_lem :
      (chunk : ReviewChunk)
      → base_tokens x b chunk ≡ b.fixed_prompt_tokens + cost (x.utf8_length chunk.target_code)
  unfolding base_tokens estimate_text
  base_tokens_lem chunk = refl

  NoRoom-NextTooLong :
      (prompt : ℕ) (dropped : List ContextReference)
      → NoRoom x b prompt dropped
      → NextTooLong prompt dropped
  NoRoom-NextTooLong prompt [] h = tt
  NoRoom-NextTooLong prompt (next ∷ dropped) h =
      subst (λ n. TooLong (prompt + n)) (reference_tokens_lem next)
        (is_over-TooLong (prompt + reference_tokens x next) h)

  length-weigh : (l : List ContextReference) → length l ≡ weigh (λ _. 1) l
  length-weigh [] = refl
  length-weigh (r ∷ l) = omega (arith, length-weigh l)

  length-ranked : (l : List ContextReference) → length (sort_by ranked l) ≡ length l
  length-ranked l =
      length-weigh (sort_by ranked l) ∙ weigh-sort_by ranked (λ _. 1) l ∙ sym (length-weigh l)

  ends-fits :
      (chunk : ReviewChunk)
      → is_over x b (base_tokens x b chunk) ≡ false
      → ¬ TooLong (b.fixed_prompt_tokens + cost (x.utf8_length chunk.target_code))
  unfolding is_over base_tokens estimate_text
  ends-fits chunk h too_long = ground arith

  not_over :
      (chunk : ReviewChunk)
      → (fit x b chunk).action ≢ split_target
      → is_over x b (base_tokens x b chunk) ≡ false
  unfolding fit
  not_over chunk h = elim (Bool-cases (is_over x b (base_tokens x b chunk))) [
    | inl over ↦ absurd (ground arith)
    | inr ends ↦ ends
  ]

  Fitted-Kept :
      (chunk : ReviewChunk) (d : BudgetDecision)
      → is_over x b (base_tokens x b chunk) ≡ false
      → Fitted x b (base_tokens x b chunk) (sort_by ranked chunk.context_references) d
      → Kept chunk d
  Fitted-Kept chunk d ends h = record {
    target_fits = ends-fits chunk ends;
    dropped = h.dropped;
    same = λ f.
        sym (weigh-append f d.references h.dropped)
        ∙ ap (weigh f) (sym h.parts)
        ∙ weigh-sort_by ranked f chunk.context_references;
    best_first = InOrder-BestFirst (d.references ++ h.dropped) (
        subst (InOrder ranked) h.parts
          (InOrder-sort_by ranked ranked_asym chunk.context_references));
    prompt = omega (arith, h.prompt, base_tokens_lem chunk, weigh-reference_tokens d.references);
    total = h.total;
    within = h.within;
    least_output = h.least_output;
    most_output = h.most_output;
    full = NoRoom-NextTooLong d.prompt_tokens h.dropped h.full;
  }

  BudgetSpec-KeptSpec :
      (chunk : ReviewChunk) (d : BudgetDecision) (action : BudgetAction)
      → (action ≢ split_target → is_over x b (base_tokens x b chunk) ≡ false)
      → BudgetSpec x b chunk d action
      → KeptSpec chunk d action
  BudgetSpec-KeptSpec chunk d split_target ends (over, none_kept) = (
    subst TooLong (base_tokens_lem chunk) (is_over-TooLong (base_tokens x b chunk) over),
    none_kept,
  )
  BudgetSpec-KeptSpec chunk d trim_context ends (fewer, h) = (
    omega (arith, fewer, length-ranked chunk.context_references),
    Fitted-Kept chunk d (ends (λ e. ground (arith, e))) h,
  )
  BudgetSpec-KeptSpec chunk d fits ends (all, h) = (
    all ∙ length-ranked chunk.context_references,
    Fitted-Kept chunk d (ends (λ e. ground (arith, e))) h,
  )

  -- A decision splits the target exactly if the target alone, at half a token for each byte, with the
  -- fixed prompt, the least output and the safety margin, is longer than the context, and then it
  -- keeps no reference. Otherwise the references that it keeps, followed by those that it drops, are
  -- those of the chunk in the order of rank, path and start line; the first one dropped would have
  -- been too long; the prompt is the sum of its parts; prompt, output and safety margin are within
  -- the context; and the output has the least tokens asked for, unless the most is fewer, and no more
  -- than the most. It says that it trims if it drops some, and that all fits if it drops none.
  pub fit_keeps_budget :
      (chunk : ReviewChunk) → KeptSpec chunk (fit x b chunk) (fit x b chunk).action
  fit_keeps_budget chunk =
      BudgetSpec-KeptSpec chunk (fit x b chunk) (fit x b chunk).action (not_over chunk)
        (fit_lem x b chunk)

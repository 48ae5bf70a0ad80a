-- ===== src/ContextBudget/Fitting.antt =====
-- What a decision of the budget guarantees.
use code_astra.Base.{
  ℕ, ◌+◌, ◌-◌, ◌≤◌, ◌<◌, min, String, Bool, true, false, List, [], ◌∷◌, ◌++◌, ltb, if◌then◌else◌,
  ◌≡◌, refl, ap, subst, ◌∙◌, ◌⊎◌, inl, inr, arith, Bool-cases,
}
use code_astra.Base.Lists.{length, length-append, weigh}
use code_astra.Base.Sort.{sort_by}
use code_astra.Domain.Chunks.{ContextReference, ReviewChunk}
use code_astra.ContextBudget.{
  Encoding, BudgetAction, split_target, trim_context, fits, BudgetDecision, ContextBudgeter, ranked,
  reference_tokens, is_over, pop_last, trim, decide, base_tokens, fit,
}

module _ (x : Encoding) (b : ContextBudgeter) where
  -- The next reference would not have had room.
  abbrev pub NoRoom : ℕ → List ContextReference → Type 0
  NoRoom prompt [] = Unit
  NoRoom prompt (next ∷ dropped) = is_over x b (prompt + reference_tokens x next) ≡ true

  -- What the loop leaves, where `base` is the prompt without references.
  pub record Trimmed (base : ℕ) (references : List ContextReference)
      (left : List ContextReference × ℕ) : Type 0 where
    pub dropped : List ContextReference
    pub parts : references ≡ left.0 ++ dropped
    pub prompt : left.1 ≡ base + weigh (reference_tokens x) left.0
    pub room : (is_over x b left.1 ≡ false) ⊎ (left.0 ≡ [])
    pub full : NoRoom left.1 dropped

  restored : (base prompt n : ℕ) → prompt ≡ base + n + 0 → prompt ≡ prompt - n + n
  restored base prompt n h = omega (arith, h)

  pop-Trimmed :
      (base : ℕ) (first : ContextReference) (references : List ContextReference)
      (left : List ContextReference × ℕ)
      → Trimmed (base + reference_tokens x first) references left
      → Trimmed base (first ∷ references) (pop_last x b first left)
  pop-Trimmed base first references ([], prompt) h = elim (Bool-cases (is_over x b prompt)) [
    | inl over ↦ rw over (record {
      dropped = first ∷ h.dropped;
      parts = ap (λ l. first ∷ l) h.parts;
      prompt = omega (arith, h.prompt);
      room = inr refl;
      full =
          subst (λ p. is_over x b p ≡ true)
            (restored base prompt (reference_tokens x first) h.prompt) over;
    })
    | inr ends ↦ rw ends (record {
      dropped = h.dropped;
      parts = ap (λ l. first ∷ l) h.parts;
      prompt = omega (arith, h.prompt);
      room = inl ends;
      full = h.full;
    })
  ]
  pop-Trimmed base first references (next ∷ kept, prompt) h = record {
    dropped = h.dropped;
    parts = ap (λ l. first ∷ l) h.parts;
    prompt = omega (arith, h.prompt);
    room = elim h.room [ inl ends ↦ inl ends | inr none_left ↦ absurd (ground arith) ];
    full = h.full;
  }

  trim-Trimmed :
      (base : ℕ) (references : List ContextReference)
      → Trimmed base references (trim x b (base + weigh (reference_tokens x) references) references)
  unfolding trim
  trim-Trimmed base [] = record {
    dropped = [];
    parts = refl;
    prompt = refl;
    room = inr refl;
    full = tt;
  }
  trim-Trimmed base (first ∷ references) = pop-Trimmed base first references _ (
      subst (λ p. Trimmed (base + reference_tokens x first) references (trim x b p references))
        regroup (trim-Trimmed (base + reference_tokens x first) references))
    where
      regroup :
          base + reference_tokens x first + weigh (reference_tokens x) references
          ≡ base + (reference_tokens x first + weigh (reference_tokens x) references)
      regroup = omega arith

  -- What a decision that keeps references promises.
  pub record Fitted (base : ℕ) (references : List ContextReference) (d : BudgetDecision)
      : Type 0 where
    pub dropped : List ContextReference
    pub parts : references ≡ d.references ++ dropped
    pub prompt : d.prompt_tokens ≡ base + weigh (reference_tokens x) d.references
    pub total : d.total_tokens ≡ d.prompt_tokens + d.output_tokens
    pub within : d.total_tokens + b.safety_tokens ≤ b.context_tokens
    pub least_output : min b.minimum_output_tokens b.maximum_output_tokens ≤ d.output_tokens
    pub most_output : d.output_tokens ≤ b.maximum_output_tokens
    pub full : NoRoom d.prompt_tokens dropped

  -- What a decision may be.
  abbrev pub BudgetSpec : ReviewChunk → BudgetDecision → BudgetAction → Type 0
  BudgetSpec chunk d split_target =
      (is_over x b (base_tokens x b chunk) ≡ true) × (d.references ≡ [])
  BudgetSpec chunk d trim_context =
      (length d.references < length (sort_by ranked chunk.context_references))
      × Fitted (base_tokens x b chunk) (sort_by ranked chunk.context_references) d
  BudgetSpec chunk d fits =
      (length d.references ≡ length (sort_by ranked chunk.context_references))
      × Fitted (base_tokens x b chunk) (sort_by ranked chunk.context_references) d

  decide-Fitted :
      (target_code : String) (n base : ℕ) (references : List ContextReference)
      (left : List ContextReference × ℕ)
      → is_over x b base ≡ false
      → Trimmed base references left
      → Fitted base references (decide x b target_code n left)
  unfolding is_over
  decide-Fitted target_code n base references (kept, prompt) ends h = record {
    dropped = h.dropped;
    parts = h.parts;
    prompt = h.prompt;
    total = refl;
    within = omega (arith, room);
    least_output = omega (arith, room);
    most_output = omega arith;
    full = h.full;
  }
    where
      room : prompt + b.minimum_output_tokens + b.safety_tokens ≤ b.context_tokens
      room = elim h.room [
        | inl fitting ↦ ground (arith, fitting)
        | inr none_left ↦
            let bare : prompt ≡ base + 0 =
              subst (λ l. prompt ≡ base + weigh (reference_tokens x) l) none_left h.prompt in
            ground (arith, ends, bare)
      ]

  decide_lem :
      (chunk : ReviewChunk) (left : List ContextReference × ℕ)
      → is_over x b (base_tokens x b chunk) ≡ false
      → Trimmed (base_tokens x b chunk) (sort_by ranked chunk.context_references) left
      → let d =
          decide x b chunk.target_code (length (sort_by ranked chunk.context_references)) left in
        BudgetSpec chunk d d.action
  decide_lem chunk left ends h = go (ltb (length left.0) (length sorted)) refl
    where
      sorted : List ContextReference
      sorted = sort_by ranked chunk.context_references

      fitted :
          Fitted (base_tokens x b chunk) sorted (decide x b chunk.target_code (length sorted) left)
      fitted =
          decide-Fitted chunk.target_code (length sorted) (base_tokens x b chunk) sorted left ends h

      counted : length sorted ≡ length left.0 + length h.dropped
      counted = ap length h.parts ∙ length-append left.0 h.dropped

      same : ltb (length left.0) (length sorted) ≡ false → length left.0 ≡ length sorted
      same all = ground (arith, counted, all)

      go :
          (c : Bool)
          → ltb (length left.0) (length sorted) ≡ c
          → BudgetSpec chunk
              (decide x b chunk.target_code (length sorted) left)
              (if c then trim_context else fits)
      go true fewer = (ground (arith, fewer), fitted)
      go false all = (same all, fitted)

  -- A decision in the words of the tests that `fit` makes.
  pub fit_lem : (chunk : ReviewChunk) → BudgetSpec chunk (fit x b chunk) (fit x b chunk).action
  unfolding fit
  fit_lem chunk = elim (Bool-cases (is_over x b (base_tokens x b chunk))) [
    | inl over ↦ rw over (over, refl)
    | inr ends ↦ rw ends (
        decide_lem chunk _ ends
          (trim-Trimmed (base_tokens x b chunk) (sort_by ranked chunk.context_references)))
  ]

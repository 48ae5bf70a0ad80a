-- ===== src/Findings/Merging.antt =====
-- Merging loses no issue and makes none.
use code_astra.Base.{
  String, Bool, true, false, ◌||◌, List, [], ◌∷◌, ◌++◌, Option, none, some, string_eq,
  if◌then◌else◌, ◌≡◌, refl, sym, ap, ◌∙◌, arith, Bool-cases, inl, inr, ◌⊎◌,
}
use code_astra.Base.Sort.{sort_by, insert_by}
use code_astra.Findings.{
  Finding, is_static, same_symbol, comes_first, same_issue, same_problem, prefer, merge_one,
  merge_all, merge_findings,
}

same_symbol-eq : (a b : Option String) → same_symbol a b ≡ true → a ≡ b
same_symbol-eq none none h = refl
same_symbol-eq none (some b) h = absurd (ground (arith, h))
same_symbol-eq (some a) none h = absurd (ground (arith, h))
same_symbol-eq (some a) (some b) h = ap some (ground (arith, h))

same_symbol_refl : (a : Option String) → same_symbol a a ≡ true
same_symbol_refl none = refl
same_symbol_refl (some a) = ground arith

or_right : (a b : Bool) → a || b ≡ true → a ≡ false → b ≡ true
or_right a b h k = ground arith

or_true : (a b : Bool) → b ≡ true → a || b ≡ true
or_true a b h = ground arith

or_swap : (a b c : Bool) → a || (b || c) ≡ b || (a || c)
or_swap a b c = ground arith

or_assoc : (a b c : Bool) → a || (b || c) ≡ (a || b) || c
or_assoc a b c = ground arith

or_twice : (a b : Bool) → a || b ≡ (a || b) || a
or_twice a b = ground arith

module _ {R : Type 0} (normalize : String → String) where
  -- Some finding of the list is the same issue.
  unfoldable pub has_issue : Finding R → List (Finding R) → Bool
  has_issue issue [] = false
  has_issue issue (finding ∷ findings) =
      same_issue normalize finding issue || has_issue issue findings

  module _ (issue : Finding R) where
    same-left :
        (a b : Finding R)
        → same_issue normalize a b ≡ true
        → same_issue normalize a issue ≡ same_issue normalize b issue
    same-left a b h =
        let file : a.file_id ≡ b.file_id = ground (arith, h) in
        let rule : a.rule_id ≡ b.rule_id = ground (arith, h) in
        let symbol = same_symbol-eq a.symbol b.symbol (ground (arith, h)) in
        let evidence : normalize a.evidence ≡ normalize b.evidence = ground (arith, h) in
        rw (file, rule, symbol, evidence) refl

    problem-issue :
        (a b : Finding R) → same_problem normalize a b ≡ true → same_issue normalize a b ≡ true
    unfolding same_problem
    problem-issue a b h = ground (arith, h)

    prefer-issue :
        (a b : Finding R)
        → same_issue normalize a b ≡ true
        → same_issue normalize (prefer normalize a b) issue ≡ same_issue normalize b issue
    prefer-issue a b h = go (is_static a.source)
      where
        go :
            (s : Bool)
            → same_issue normalize (record (if s then a else b) { is_deduplicated = true }) issue
              ≡ same_issue normalize b issue
        go true = same-left a b h
        go false = refl

    has_issue-merge_one :
        (candidate : Finding R) (kept : List (Finding R))
        → has_issue issue (merge_one normalize candidate kept)
          ≡ has_issue issue kept || same_issue normalize candidate issue
    unfolding has_issue merge_one
    has_issue-merge_one candidate [] = ground arith
    has_issue-merge_one candidate (existing ∷ kept) =
        elim (Bool-cases (same_problem normalize existing candidate)) [
          | inl same ↦
              let e = problem-issue existing candidate same in
              rw (same, prefer-issue existing candidate e, same-left existing candidate e)
                (or_twice (same_issue normalize candidate issue) (has_issue issue kept))
          | inr differ ↦
              rw (differ, has_issue-merge_one candidate kept)
                (or_assoc (same_issue normalize existing issue) (has_issue issue kept)
                  (same_issue normalize candidate issue))
        ]

    has_issue-merge_all :
        (kept candidates : List (Finding R))
        → has_issue issue (merge_all normalize kept candidates)
          ≡ has_issue issue kept || has_issue issue candidates
    unfolding has_issue merge_all
    has_issue-merge_all kept [] = ground arith
    has_issue-merge_all kept (candidate ∷ candidates) =
        rw
          (
            has_issue-merge_all (merge_one normalize candidate kept) candidates,
            has_issue-merge_one candidate kept,
          )
          (sym (
            or_assoc (has_issue issue kept) (same_issue normalize candidate issue)
              (has_issue issue candidates)))

    has_issue-insert_by :
        (before : Finding R → Finding R → Bool) (finding : Finding R) (findings : List (Finding R))
        → has_issue issue (insert_by before finding findings)
          ≡ same_issue normalize finding issue || has_issue issue findings
    unfolding has_issue insert_by
    has_issue-insert_by before finding [] = refl
    has_issue-insert_by before finding (first ∷ findings) =
        go (before first finding) (has_issue-insert_by before finding findings)
      where
        go :
            (b : Bool)
            → has_issue issue (insert_by before finding findings)
              ≡ same_issue normalize finding issue || has_issue issue findings
            → has_issue issue (
                if b then first ∷ insert_by before finding findings else finding ∷ first ∷ findings)
              ≡ same_issue normalize finding issue
                || (same_issue normalize first issue || has_issue issue findings)
        go true h = rw h (
            or_swap (same_issue normalize first issue) (same_issue normalize finding issue)
              (has_issue issue findings))
        go false h = refl

    has_issue-sort_by :
        (before : Finding R → Finding R → Bool) (findings : List (Finding R))
        → has_issue issue (sort_by before findings) ≡ has_issue issue findings
    unfolding has_issue sort_by
    has_issue-sort_by before [] = refl
    has_issue-sort_by before (finding ∷ findings) =
        has_issue-insert_by before finding (sort_by before findings)
        ∙ ap (λ b. same_issue normalize finding issue || b) (has_issue-sort_by before findings)

    has_issue-append :
        (a b : List (Finding R)) → has_issue issue (a ++ b) ≡ has_issue issue a || has_issue issue b
    unfolding has_issue
    has_issue-append [] b = refl
    has_issue-append (finding ∷ a) b =
        rw (has_issue-append a b)
          (or_assoc (same_issue normalize finding issue) (has_issue issue a) (has_issue issue b))

  -- The finding is of the issue: the same file, rule and symbol, and evidence that normalizes to
  -- the same text.
  pub record IsOf (issue finding : Finding R) : Type 0 where
    pub file : finding.file_id ≡ issue.file_id
    pub rule : finding.rule_id ≡ issue.rule_id
    pub symbol : finding.symbol ≡ issue.symbol
    pub evidence : normalize finding.evidence ≡ normalize issue.evidence

  -- Some finding of the list is of the issue.
  abbrev pub HasIssue : Finding R → List (Finding R) → Type 0
  HasIssue issue [] = ⊥
  HasIssue issue (finding ∷ findings) = IsOf issue finding ⊎ HasIssue issue findings

  same_issue-IsOf :
      (issue finding : Finding R) → same_issue normalize finding issue ≡ true → IsOf issue finding
  same_issue-IsOf issue finding h = record {
    file = ground (arith, h);
    rule = ground (arith, h);
    symbol = same_symbol-eq finding.symbol issue.symbol (ground (arith, h));
    evidence = ground (arith, h);
  }

  IsOf-same_issue :
      (issue finding : Finding R) → IsOf issue finding → same_issue normalize finding issue ≡ true
  IsOf-same_issue issue finding h =
      rw (h.file, h.rule, h.symbol, h.evidence) (ground (arith, same_symbol_refl issue.symbol))

  has_issue-HasIssue :
      (issue : Finding R) (findings : List (Finding R))
      → has_issue issue findings ≡ true
      → HasIssue issue findings
  unfolding has_issue
  has_issue-HasIssue issue [] h = absurd (ground arith)
  has_issue-HasIssue issue (finding ∷ findings) h =
      elim (Bool-cases (same_issue normalize finding issue)) [
        | inl same ↦ inl (same_issue-IsOf issue finding same)
        | inr other ↦ inr (has_issue-HasIssue issue findings (or_right _ _ h other))
      ]

  HasIssue-has_issue :
      (issue : Finding R) (findings : List (Finding R))
      → HasIssue issue findings
      → has_issue issue findings ≡ true
  unfolding has_issue
  HasIssue-has_issue issue [] h = absurd h
  HasIssue-has_issue issue (finding ∷ findings) (inl same) =
      rw (IsOf-same_issue issue finding same) refl
  HasIssue-has_issue issue (finding ∷ findings) (inr later) =
      or_true _ _ (HasIssue-has_issue issue findings later)

  merged_issues :
      (issue : Finding R) (static_findings llm_findings : List (Finding R))
      → has_issue issue (merge_findings normalize static_findings llm_findings)
        ≡ has_issue issue static_findings || has_issue issue llm_findings
  unfolding merge_findings has_issue
  merged_issues issue static_findings llm_findings =
      has_issue-sort_by issue comes_first (merge_all normalize [] (static_findings ++ llm_findings))
      ∙ has_issue-merge_all issue [] (static_findings ++ llm_findings)
      ∙ has_issue-append issue static_findings llm_findings

  -- A finding with a given file, rule, symbol and normalized evidence is among the merged findings
  -- exactly if one is among the static findings or among the model's.
  pub merging_keeps_issues :
      (issue : Finding R) (static_findings llm_findings : List (Finding R))
      → (HasIssue issue (merge_findings normalize static_findings llm_findings)
          → HasIssue issue static_findings ⊎ HasIssue issue llm_findings)
        × (HasIssue issue static_findings ⊎ HasIssue issue llm_findings
            → HasIssue issue (merge_findings normalize static_findings llm_findings))
  merging_keeps_issues issue static_findings llm_findings = (
    λ h. elim (Bool-cases (has_issue issue static_findings)) [
      | inl found ↦ inl (has_issue-HasIssue issue static_findings found)
      | inr other ↦ inr (
          has_issue-HasIssue issue llm_findings
            (or_right _ _ (sym both ∙ HasIssue-has_issue issue _ h) other))
    ],
    λ h. has_issue-HasIssue issue _ (
        both ∙ elim h [
          | inl found ↦ rw (HasIssue-has_issue issue static_findings found) refl
          | inr found ↦ or_true _ _ (HasIssue-has_issue issue llm_findings found)
        ]),
  )
    where
      both :
          has_issue issue (merge_findings normalize static_findings llm_findings)
          ≡ has_issue issue static_findings || has_issue issue llm_findings
      both = merged_issues issue static_findings llm_findings

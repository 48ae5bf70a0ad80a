-- ===== src/Findings/Selecting.antt =====
-- Which findings a policy lets through, and as what, in the words of the policy.
use code_astra.Base.{
  String, Bool, true, false, not, ◌||◌, List, [], ◌∷◌, Option, none, some, ◌==◌, string_eq,
  if◌then◌else◌, ◌≡◌, refl, ◌⊎◌, inl, inr, Bool-cases,
}
use code_astra.Findings.{
  Finding, SeverityLevel, ReviewPolicyRule, ReviewPolicy, find_rule, is_in_scope, with_severity,
  revise, any, apply_rule, apply, add_visible, filter_findings,
}
use code_astra.Findings.Scope.{
  Some, any-Some, none-any, RuleFor, find_rule_lem, InScope, OutOfScope, in_scope_lem,
  out_of_scope_lem,
}

module _ {R : Type 0} (fnmatch : String → String → Bool) where
  -- A rule sets the severity, if it has one, and asks for a review of a fix that it does not allow.
  pub record Revised (rule : ReviewPolicyRule) (finding shown : Finding R) : Type 0 where
    pub severity :
        ((rule.severity ≡ none) × (shown.severity ≡ finding.severity))
        ⊎ (rule.severity ≡ some shown.severity)
    pub applicability :
        (Some (λ safety. safety == finding.fix_safety) rule.allowed_fix_safety
          × (shown.applicability ≡ finding.applicability))
        ⊎ ((¬ Some (λ safety. safety == finding.fix_safety) rule.allowed_fix_safety)
            × (shown.applicability ≡ "requires_review"))
    pub rest :
        shown ≡ record finding { severity = shown.severity; applicability = shown.applicability }

  revise-Revised :
      (rule : ReviewPolicyRule) (finding : Finding R)
      → Revised rule finding (revise fnmatch rule finding)
  revise-Revised rule finding = go rule.severity refl
    where
      allowed : Bool
      allowed = any (λ safety. safety == finding.fix_safety) rule.allowed_fix_safety

      go :
          (s : Option SeverityLevel)
          → rule.severity ≡ s
          → Revised rule finding (
              with_severity fnmatch s (
                if any (λ safety. safety == finding.fix_safety) rule.allowed_fix_safety
                then finding
                else record finding { applicability = "requires_review" }))
      go none e = elim (Bool-cases allowed) [
        | inl yes_ ↦ rw yes_ (record {
          severity = inl (e, refl);
          applicability = inl (any-Some _ rule.allowed_fix_safety yes_, refl);
          rest = refl;
        })
        | inr no_ ↦ rw no_ (record {
          severity = inl (e, refl);
          applicability = inr (none-any _ rule.allowed_fix_safety no_, refl);
          rest = refl;
        })
      ]
      go (some s) e = elim (Bool-cases allowed) [
        | inl yes_ ↦ rw yes_ (record {
          severity = inr e;
          applicability = inl (any-Some _ rule.allowed_fix_safety yes_, refl);
          rest = refl;
        })
        | inr no_ ↦ rw no_ (record {
          severity = inr e;
          applicability = inr (none-any _ rule.allowed_fix_safety no_, refl);
          rest = refl;
        })
      ]

  -- What a rule, or none, makes of a finding that it lets through.
  abbrev pub Shows : Option ReviewPolicyRule → Finding R → Finding R → Type 0
  Shows none finding shown = shown ≡ finding
  Shows (some rule) finding shown =
      (rule.is_enabled ≡ true) × InScope fnmatch rule finding × Revised rule finding shown

  -- A rule keeps a finding back: it is not enabled, or the finding is out of its scope.
  abbrev pub Hides : Option ReviewPolicyRule → Finding R → Type 0
  Hides none finding = ⊥
  Hides (some rule) finding = (rule.is_enabled ≡ false) ⊎ OutOfScope fnmatch rule finding

  -- What is reported of the findings, in their order.
  pub data Selected (policy : ReviewPolicy) : List (Finding R) → List (Finding R) → Type 0 where
    no_more : Selected policy [] []
    shows :
        {finding shown : Finding R} {findings report : List (Finding R)}
        (rule : Option ReviewPolicyRule)
        → RuleFor policy finding.rule_id rule
        → Shows rule finding shown
        → Selected policy findings report
        → Selected policy (finding ∷ findings) (shown ∷ report)
    hides :
        {finding : Finding R} {findings report : List (Finding R)} (rule : Option ReviewPolicyRule)
        → RuleFor policy finding.rule_id rule
        → Hides rule finding
        → Selected policy findings report
        → Selected policy (finding ∷ findings) report

  -- The decision on one finding.
  abbrev Decided : Option ReviewPolicyRule → Finding R → Option (Finding R) → Type 0
  Decided rule finding none = Hides rule finding
  Decided rule finding (some shown) = Shows rule finding shown

  apply_rule_lem :
      (rule : Option ReviewPolicyRule) (finding : Finding R)
      → Decided rule finding (apply_rule fnmatch rule finding)
  apply_rule_lem none finding = refl
  apply_rule_lem (some rule) finding =
      go rule.is_enabled (is_in_scope fnmatch rule finding) refl refl
    where
      go :
          (enabled scope : Bool)
          → rule.is_enabled ≡ enabled
          → is_in_scope fnmatch rule finding ≡ scope
          → Decided
              (some rule)
              finding
              (if not enabled || not scope then none else some (revise fnmatch rule finding))
      go false scope e s = inl e
      go true false e s = inr (out_of_scope_lem fnmatch rule finding s)
      go true true e s = (e, in_scope_lem fnmatch rule finding s, revise-Revised rule finding)

  pub filter-Selected :
      (policy : ReviewPolicy) (l : List (Finding R))
      → Selected policy l (filter_findings fnmatch policy l)
  unfolding filter_findings apply
  filter-Selected policy [] = no_more
  filter-Selected none (finding ∷ l) = shows none tt refl (filter-Selected none l)
  filter-Selected (some rules) (finding ∷ l) =
      go (apply_rule fnmatch (find_rule finding.rule_id rules) finding)
        (apply_rule_lem (find_rule finding.rule_id rules) finding) (filter-Selected (some rules) l)
    where
      rule : Option ReviewPolicyRule
      rule = find_rule finding.rule_id rules

      go :
          (o : Option (Finding R))
          → Decided rule finding o
          → Selected (some rules) l (filter_findings fnmatch (some rules) l)
          → Selected
              (some rules)
              (finding ∷ l)
              (add_visible fnmatch o (filter_findings fnmatch (some rules) l))
      go none h rest = hides rule (find_rule_lem finding.rule_id rules) h rest
      go (some shown) h rest = shows rule (find_rule_lem finding.rule_id rules) h rest

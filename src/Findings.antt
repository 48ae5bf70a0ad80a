-- ===== src/Findings.antt =====
-- Findings of a review: `merge_findings` of src/code_review/application/evidence_validation.py, the
-- policy of src/code_review/application/review_policy.py, and what `ReviewAggregator.aggregate` of
-- src/code_review/application/review_aggregator.py makes of them. The case folding and splitting of an
-- evidence and `fnmatch` are parameters.
pub mod Merging
pub mod Scope
pub mod Selecting
pub mod Reports
mod Tests
use code_astra.Base.{
  ℕ, zero, suc, ◌+◌, String, Bool, true, false, not, ◌&&◌, ◌||◌, List, [], ◌∷◌, ◌++◌, map, Option,
  none, some, ltb, leb, ◌==◌, string_eq, if◌then◌else◌, text_lt,
}
use code_astra.Base.Lists.{length, filter, weigh}
use code_astra.Base.Dict.{Dict}
use code_astra.Base.Sort.{sort_by}
use code_astra.Base.Result.{Result, ok, err, ◌>>◌}
use code_astra.Domain.Chunks.{ReviewChunk}
use code_astra.Domain.Sources.{ReviewPlanningError}
use code_astra.Text.{concat}
use code_astra.ChunkPrompt.{join_with}
use code_astra.Coverage.{check_coverage}

pub data FindingSource : Type 0 where
  static llm merged : FindingSource

pub data SeverityLevel : Type 0 where
  critical high medium low info : SeverityLevel

-- `rest` is what the merging and the policy only copy.
pub record Finding (R : Type 0) : Type 0 where
  pub source : FindingSource
  pub rule_id : String
  pub severity : SeverityLevel
  pub file_id : String
  pub relative_path : Option String
  pub start_line : ℕ
  pub start_column : ℕ
  pub end_line : ℕ
  pub evidence : String
  pub is_deduplicated : Bool
  pub applicability : String
  pub symbol : Option String
  pub fix_safety : String
  pub rest : R

abbrev pub is_static : FindingSource → Bool
is_static static = true
is_static _ = false

abbrev pub same_symbol : Option String → Option String → Bool
same_symbol none none = true
same_symbol none (some b) = false
same_symbol (some a) none = false
same_symbol (some a) (some b) = a == b

-- The order of the tuples of file, start and rule.
unfoldable pub comes_first : {R : Type 0} → Finding R → Finding R → Bool
comes_first a b =
    if text_lt a.file_id b.file_id
    then true
    else if text_lt b.file_id a.file_id
    then false
    else if ltb a.start_line b.start_line
    then true
    else if ltb b.start_line a.start_line
    then false
    else if ltb a.start_column b.start_column
    then true
    else if ltb b.start_column a.start_column
    then false
    else text_lt a.rule_id b.rule_id

module _ {R : Type 0} (normalize : String → String) where
  -- What makes an issue beside its lines: the file, the rule, the symbol and the evidence.
  abbrev pub same_issue : Finding R → Finding R → Bool
  same_issue left right =
      left.file_id == right.file_id
      && (left.rule_id == right.rule_id && same_symbol left.symbol right.symbol)
      && (normalize left.evidence == normalize right.evidence)

  -- `_same_problem`
  unfoldable pub same_problem : Finding R → Finding R → Bool
  same_problem left right =
      (leb left.start_line right.end_line && leb right.start_line left.end_line)
      && same_issue left right

  -- Of two findings of one problem, the one to keep.
  abbrev pub prefer : Finding R → Finding R → Finding R
  prefer existing candidate = record (if is_static existing.source then existing else candidate) {
    is_deduplicated = true;
  }

  -- One pass of the loop over the candidates.
  unfoldable pub merge_one : Finding R → List (Finding R) → List (Finding R)
  merge_one candidate [] = candidate ∷ []
  merge_one candidate (existing ∷ kept) =
      let rest = merge_one candidate kept in
      if same_problem existing candidate then prefer existing candidate ∷ kept else existing ∷ rest

  unfoldable pub merge_all : List (Finding R) → List (Finding R) → List (Finding R)
  merge_all kept [] = kept
  merge_all kept (candidate ∷ candidates) = merge_all (merge_one candidate kept) candidates

  -- The static findings come first.
  unfoldable pub merge_findings : List (Finding R) → List (Finding R) → List (Finding R)
  merge_findings static_findings llm_findings =
      sort_by comes_first (merge_all [] (static_findings ++ llm_findings))

pub record ReviewPolicyRule : Type 0 where
  pub rule_id : String
  pub is_enabled : Bool
  pub severity : Option SeverityLevel
  pub include_paths : List String
  pub exclude_paths : List String
  pub allowed_fix_safety : List String

-- The rules of a `ReviewPolicy`, where the engine has one.
abbrev pub ReviewPolicy : Type 0
ReviewPolicy = Option (List ReviewPolicyRule)

abbrev pub any : {A : Type 0} → (A → Bool) → List A → Bool
any p [] = false
any p (x ∷ xs) = p x || any p xs

abbrev pub or_file : Option String → String → String
or_file none file_id = file_id
or_file (some path) file_id = if path == "" then file_id else path

-- `next(…, None)`
abbrev pub find_rule : String → List ReviewPolicyRule → Option ReviewPolicyRule
find_rule rule_id [] = none
find_rule rule_id (rule ∷ rules) =
    let rest = find_rule rule_id rules in if rule.rule_id == rule_id then some rule else rest

module _ {R : Type 0} (fnmatch : String → String → Bool) where
  unfoldable pub is_in_scope : ReviewPolicyRule → Finding R → Bool
  is_in_scope rule finding =
      let path = or_file finding.relative_path finding.file_id in
      any (fnmatch path) rule.include_paths && not (any (fnmatch path) rule.exclude_paths)

  abbrev pub with_severity : Option SeverityLevel → Finding R → Finding R
  with_severity none finding = finding
  with_severity (some severity) finding = record finding { severity = severity }

  abbrev pub revise : ReviewPolicyRule → Finding R → Finding R
  revise rule finding = with_severity rule.severity (
      if any (λ safety. safety == finding.fix_safety) rule.allowed_fix_safety
      then finding
      else record finding { applicability = "requires_review" })

  -- `none` where the decision is that the finding is not visible.
  abbrev pub apply_rule : Option ReviewPolicyRule → Finding R → Option (Finding R)
  apply_rule none finding = some finding
  apply_rule (some rule) finding =
      if not rule.is_enabled || not (is_in_scope rule finding)
      then none
      else some (revise rule finding)

  unfoldable pub apply : ReviewPolicy → Finding R → Option (Finding R)
  apply none finding = some finding
  apply (some rules) finding = apply_rule (find_rule finding.rule_id rules) finding

  abbrev pub add_visible : Option (Finding R) → List (Finding R) → List (Finding R)
  add_visible none findings = findings
  add_visible (some finding) findings = finding ∷ findings

  -- `ReviewPolicyEngine.filter`
  unfoldable pub filter_findings : ReviewPolicy → List (Finding R) → List (Finding R)
  filter_findings policy [] = []
  filter_findings policy (finding ∷ findings) =
      add_visible (apply policy finding) (filter_findings policy findings)

abbrev pub is_level : SeverityLevel → SeverityLevel → ℕ
is_level critical critical = 1
is_level high high = 1
is_level medium medium = 1
is_level low low = 1
is_level info info = 1
is_level _ _ = 0

pub record ReviewSummary : Type 0 where
  pub total : ℕ
  pub critical_count : ℕ
  pub high_count : ℕ
  pub medium_count : ℕ
  pub low_count : ℕ
  pub info_count : ℕ
  pub text : String

unfoldable pub count_level : {R : Type 0} → SeverityLevel → List (Finding R) → ℕ
count_level {R} level = weigh (λ (finding : Finding R). is_level finding.severity level)

-- A level that has findings, in the text of the summary.
abbrev pub show_level : (ℕ → String) → String → ℕ → List String → List String
show_level digits label zero rest = rest
show_level digits label (suc n) rest = concat (label ∷ " " ∷ digits (suc n) ∷ " 项" ∷ []) ∷ rest

abbrev pub summary_text : {R : Type 0} → (ℕ → String) → List (Finding R) → String
summary_text digits [] = "审查完成，未发现通过证据校验的明确问题。"
summary_text digits (first ∷ findings) =
    let all = first ∷ findings in
    concat (
      "审查完成，共发现 "
      ∷ digits (length all)
      ∷ " 个明确问题（"
      ∷ join_with "、" (
          show_level digits "严重" (count_level critical all) (
            show_level digits "高危" (count_level high all) (
              show_level digits "中危" (count_level medium all) (
                show_level digits "低危" (count_level low all)
                  (show_level digits "提示" (count_level info all) [])))))
      ∷ "）。"
      ∷ [])

-- `_summary`
unfoldable pub summarise : {R : Type 0} → (ℕ → String) → List (Finding R) → ReviewSummary
summarise digits findings = record {
  total = length findings;
  critical_count = count_level critical findings;
  high_count = count_level high findings;
  medium_count = count_level medium findings;
  low_count = count_level low findings;
  info_count = count_level info findings;
  text = summary_text digits findings;
}

pub record AggregateResult (R : Type 0) : Type 0 where
  pub findings : List (Finding R)
  pub summary : ReviewSummary

-- `aggregate`; the percentage is 100 where it returns, and the counter is left out.
unfoldable pub aggregate :
    {R : Type 0}
    → (String → String)
    → (String → String → Bool)
    → (ℕ → String)
    → ReviewPolicy
    → List ReviewChunk
    → List (Finding R)
    → List (Finding R)
    → Dict String (List ℕ)
    → Result ReviewPlanningError (AggregateResult R)
aggregate normalize fnmatch digits policy chunks static_findings chunk_findings significant_lines =
    let findings =
      filter_findings fnmatch policy (merge_findings normalize static_findings chunk_findings) in
    check_coverage chunks significant_lines
    >> ok (record { findings = findings; summary = summarise digits findings })

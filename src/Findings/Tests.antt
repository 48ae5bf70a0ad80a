-- ===== src/Findings/Tests.antt =====
-- The theorems on findings at concrete inputs.
use code_astra.Base.{
  ℕ, String, Bool, true, false, ◌==◌, string_eq, List, ◌⊎◌, [], ◌∷◌, none, some, ◌≡◌, refl,
}
use code_astra.Domain.Chunks.{ReviewChunk, Language, ChunkStatus}
use code_astra.Findings.{
  Finding, FindingSource, SeverityLevel, ReviewPolicy, merge_findings, merge_all, merge_one,
  same_problem, aggregate,
}
use code_astra.Findings.Merging.{HasIssue, merging_keeps_issues}
use code_astra.Findings.Reports.{ReportSpec, reports_add_up}

abbrev problem : FindingSource → String → ℕ → Finding ℕ
problem source rule_id line = record {
  source = source;
  rule_id = rule_id;
  severity = SeverityLevel.medium;
  file_id = "f";
  relative_path = some "f.py";
  start_line = line;
  start_column = 1;
  end_line = line;
  evidence = "eval(a)";
  is_deduplicated = false;
  applicability = "requires_review";
  symbol = none;
  fix_safety = "requires_review";
  rest = 0;
}

abbrev same_text : String → String
same_text text = text

-- The model's finding on the same line is the static one.
same_line-merged :
    merge_all same_text []
      (problem FindingSource.static "r1" 3 ∷ problem FindingSource.llm "r1" 3 ∷ [])
    ≡ record (problem FindingSource.static "r1" 3) { is_deduplicated = true } ∷ []
unfolding merge_all merge_one same_problem string_eq
same_line-merged = refl

abbrev from_tools : List (Finding ℕ)
from_tools = problem FindingSource.static "r1" 3 ∷ []

abbrev from_model : List (Finding ℕ)
from_model = problem FindingSource.llm "r1" 3 ∷ problem FindingSource.llm "r2" 5 ∷ []

abbrev two_merged : List (Finding ℕ)
two_merged = merge_findings same_text from_tools from_model

merging_keeps_issues_example :
    (HasIssue same_text (problem FindingSource.llm "r2" 5) two_merged
      → HasIssue same_text (problem FindingSource.llm "r2" 5) from_tools
        ⊎ HasIssue same_text (problem FindingSource.llm "r2" 5) from_model)
    × (HasIssue same_text (problem FindingSource.llm "r2" 5) from_tools
          ⊎ HasIssue same_text (problem FindingSource.llm "r2" 5) from_model
        → HasIssue same_text (problem FindingSource.llm "r2" 5) two_merged)
merging_keeps_issues_example =
    merging_keeps_issues same_text (problem FindingSource.llm "r2" 5) from_tools from_model

-- One rule is out of use, and one is raised.
abbrev strict_policy : ReviewPolicy
strict_policy = some (
    record {
      rule_id = "r1";
      is_enabled = false;
      severity = none;
      include_paths = "**" ∷ [];
      exclude_paths = [];
      allowed_fix_safety = [];
    }
    ∷ record {
      rule_id = "r2";
      is_enabled = true;
      severity = some SeverityLevel.high;
      include_paths = "f.py" ∷ [];
      exclude_paths = [];
      allowed_fix_safety = [];
    }
    ∷ [])

abbrev same_path : String → String → Bool
same_path path pattern = path == pattern

abbrev reviewed : ReviewChunk
reviewed = record {
  chunk_id = "c";
  review_id = "r";
  language = Language.python;
  target_file_id = "f";
  target_path = "f.py";
  target_start_line = 1;
  target_end_line = 6;
  target_code = "y";
  content_fingerprint = "";
  context_references = [];
  prompt_tokens_estimate = 0;
  output_tokens_budget = 0;
  parent_chunk_id = none;
  split_depth = 0;
  attempt_count = 1;
  status = ChunkStatus.completed;
  error_code = none;
  error_message = none;
}

reports_add_up_example :
    ReportSpec same_path strict_policy
      (reviewed ∷ [])
      (("f", 3 ∷ 5 ∷ []) ∷ [])
      (merge_findings same_text
        (problem FindingSource.static "r1" 3 ∷ [])
        (problem FindingSource.llm "r2" 5 ∷ []))
      (aggregate same_text same_path
        (λ n. "1")
        strict_policy
        (reviewed ∷ [])
        (problem FindingSource.static "r1" 3 ∷ [])
        (problem FindingSource.llm "r2" 5 ∷ [])
        (("f", 3 ∷ 5 ∷ []) ∷ []))
reports_add_up_example =
    reports_add_up same_text same_path (λ n. "1") strict_policy (reviewed ∷ [])
      (problem FindingSource.static "r1" 3 ∷ []) (problem FindingSource.llm "r2" 5 ∷ [])
      (("f", 3 ∷ 5 ∷ []) ∷ [])

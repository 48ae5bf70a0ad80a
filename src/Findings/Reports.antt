-- ===== src/Findings/Reports.antt =====
-- What the aggregator reports.
use code_astra.Base.{
  ℕ, ◌<◌, String, Bool, true, false, List, [], ◌∷◌, string_eq, nat_eq, ◌≡◌, ◌≢◌, refl, ◌⊎◌, inl,
  inr, arith, Bool-cases,
}
use code_astra.Base.Lists.{length, All, weigh}
use code_astra.Base.Dict.{Dict}
use code_astra.Base.Result.{Result, ok, err, ◌>>◌}
use code_astra.Domain.Chunks.{ReviewChunk, is_superseded}
use code_astra.Domain.Sources.{ReviewPlanningError}
use code_astra.Coverage.{check_coverage, leaf_chunks, is_covered}
use code_astra.Coverage.Complete.{CoverageSpec, HasOpen, HasGap, HasUncovered, coverage_is_complete}
use code_astra.Findings.{
  Finding, SeverityLevel, critical, high, medium, low, info, ReviewPolicy, filter_findings,
  merge_findings, is_level, count_level, summarise, AggregateResult, aggregate,
}
use code_astra.Findings.Selecting.{Selected, filter-Selected}

-- The line of the file is in no chunk that counts.
abbrev pub InNoChunk : String → ℕ → List ReviewChunk → Type 0
InNoChunk file_id line = All (λ (chunk : ReviewChunk).
    (is_superseded chunk.status ≡ true)
    ⊎ (chunk.target_file_id ≢ file_id)
    ⊎ (line < chunk.target_start_line)
    ⊎ (chunk.target_end_line < line))

abbrev pub HasHole : List ReviewChunk → String → List ℕ → Type 0
HasHole chunks file_id [] = ⊥
HasHole chunks file_id (line ∷ lines) = InNoChunk file_id line chunks ⊎ HasHole chunks file_id lines

-- Some line of some file is in no chunk that counts.
abbrev pub HasHoles : List ReviewChunk → Dict String (List ℕ) → Type 0
HasHoles chunks [] = ⊥
HasHoles chunks ((file_id, lines) ∷ files) = HasHole chunks file_id lines ⊎ HasHoles chunks files

uncovered-InNoChunk :
    (file_id : String) (line : ℕ) (chunks : List ReviewChunk)
    → is_covered file_id line (leaf_chunks chunks) ≡ false
    → InNoChunk file_id line chunks
unfolding is_covered leaf_chunks
uncovered-InNoChunk file_id line [] h = tt
uncovered-InNoChunk file_id line (chunk ∷ chunks) h =
    elim (Bool-cases (is_superseded chunk.status)) [
      | inl gone ↦ (inl gone, uncovered-InNoChunk file_id line chunks (ground arith))
      | inr leaf ↦ (inr (ground arith), uncovered-InNoChunk file_id line chunks (ground arith))
    ]

uncovered-HasHole :
    (chunks : List ReviewChunk) (file_id : String) (lines : List ℕ)
    → HasUncovered file_id (leaf_chunks chunks) lines
    → HasHole chunks file_id lines
uncovered-HasHole chunks file_id [] h = h
uncovered-HasHole chunks file_id (line ∷ lines) (inl h) =
    inl (uncovered-InNoChunk file_id line chunks h)
uncovered-HasHole chunks file_id (line ∷ lines) (inr h) =
    inr (uncovered-HasHole chunks file_id lines h)

gap-HasHoles :
    (chunks : List ReviewChunk) (files : Dict String (List ℕ))
    → HasGap (leaf_chunks chunks) files
    → HasHoles chunks files
gap-HasHoles chunks [] h = h
gap-HasHoles chunks ((file_id, lines) ∷ files) (inl h) =
    inl (uncovered-HasHole chunks file_id lines h)
gap-HasHoles chunks ((file_id, lines) ∷ files) (inr h) = inr (gap-HasHoles chunks files h)

-- The value that stands for the level.
abbrev pub by_level : ℕ → ℕ → ℕ → ℕ → ℕ → SeverityLevel → ℕ
by_level a b c d e critical = a
by_level a b c d e high = b
by_level a b c d e medium = c
by_level a b c d e low = d
by_level a b c d e info = e

-- How many findings there are, when each level counts for so much.
abbrev pub level_sum : {R : Type 0} → ℕ → ℕ → ℕ → ℕ → ℕ → List (Finding R) → ℕ
level_sum {R} a b c d e = weigh (λ (finding : Finding R). by_level a b c d e finding.severity)

module _ {R : Type 0} where
  count-critical : (l : List (Finding R)) → count_level critical l ≡ level_sum 1 0 0 0 0 l
  unfolding count_level
  count-critical [] = refl
  count-critical (f ∷ l) = omega (arith, one f.severity, count-critical l)
    where
      one : (s : SeverityLevel) → is_level s critical ≡ by_level 1 0 0 0 0 s
      one critical = refl
      one high = refl
      one medium = refl
      one low = refl
      one info = refl

  count-high : (l : List (Finding R)) → count_level high l ≡ level_sum 0 1 0 0 0 l
  unfolding count_level
  count-high [] = refl
  count-high (f ∷ l) = omega (arith, one f.severity, count-high l)
    where
      one : (s : SeverityLevel) → is_level s high ≡ by_level 0 1 0 0 0 s
      one critical = refl
      one high = refl
      one medium = refl
      one low = refl
      one info = refl

  count-medium : (l : List (Finding R)) → count_level medium l ≡ level_sum 0 0 1 0 0 l
  unfolding count_level
  count-medium [] = refl
  count-medium (f ∷ l) = omega (arith, one f.severity, count-medium l)
    where
      one : (s : SeverityLevel) → is_level s medium ≡ by_level 0 0 1 0 0 s
      one critical = refl
      one high = refl
      one medium = refl
      one low = refl
      one info = refl

  count-low : (l : List (Finding R)) → count_level low l ≡ level_sum 0 0 0 1 0 l
  unfolding count_level
  count-low [] = refl
  count-low (f ∷ l) = omega (arith, one f.severity, count-low l)
    where
      one : (s : SeverityLevel) → is_level s low ≡ by_level 0 0 0 1 0 s
      one critical = refl
      one high = refl
      one medium = refl
      one low = refl
      one info = refl

  count-info : (l : List (Finding R)) → count_level info l ≡ level_sum 0 0 0 0 1 l
  unfolding count_level
  count-info [] = refl
  count-info (f ∷ l) = omega (arith, one f.severity, count-info l)
    where
      one : (s : SeverityLevel) → is_level s info ≡ by_level 0 0 0 0 1 s
      one critical = refl
      one high = refl
      one medium = refl
      one low = refl
      one info = refl

-- What a report says of the merged findings, or why there is none.
abbrev pub ReportSpec :
    {R : Type 0}
    → (String → String → Bool)
    → ReviewPolicy
    → List ReviewChunk
    → Dict String (List ℕ)
    → List (Finding R)
    → Result ReviewPlanningError (AggregateResult R)
    → Type 0
ReportSpec fnmatch policy chunks significant_lines merged (ok report) =
    CoverageSpec chunks significant_lines (ok tt)
    × Selected fnmatch policy merged report.findings
    × (report.summary.total ≡ length report.findings)
    × (report.summary.critical_count ≡ level_sum 1 0 0 0 0 report.findings)
    × (report.summary.high_count ≡ level_sum 0 1 0 0 0 report.findings)
    × (report.summary.medium_count ≡ level_sum 0 0 1 0 0 report.findings)
    × (report.summary.low_count ≡ level_sum 0 0 0 1 0 report.findings)
    × (report.summary.info_count ≡ level_sum 0 0 0 0 1 report.findings)
ReportSpec fnmatch policy chunks significant_lines merged (err e) =
    HasOpen chunks ⊎ HasHoles chunks significant_lines

-- The aggregator reports only if every chunk is superseded or completed and every significant line is
-- in a completed chunk of its file. The report has, in their order, exactly those merged findings
-- whose rule, the first of the policy with their id, is enabled and has them in its scope: a pattern
-- to include matches the path and no pattern to exclude does; or that have no rule. A rule sets the
-- severity, if it has one, and has a fix reviewed that it does not allow; nothing else of a finding
-- changes. The summary counts the findings and those of each level. The aggregator raises only if a
-- chunk is open or a significant line is in no chunk that counts.
pub reports_add_up :
    {R : Type 0} (normalize : String → String) (fnmatch : String → String → Bool)
    (digits : ℕ → String) (policy : ReviewPolicy) (chunks : List ReviewChunk)
    (static_findings chunk_findings : List (Finding R)) (significant_lines : Dict String (List ℕ))
    → ReportSpec fnmatch policy chunks significant_lines
        (merge_findings normalize static_findings chunk_findings)
        (aggregate normalize fnmatch digits policy chunks static_findings chunk_findings
          significant_lines)
unfolding aggregate summarise
reports_add_up {R} normalize fnmatch digits policy chunks static_findings chunk_findings
      significant_lines =
    go (check_coverage chunks significant_lines) (coverage_is_complete chunks significant_lines)
  where
    merged : List (Finding R)
    merged = merge_findings normalize static_findings chunk_findings

    findings : List (Finding R)
    findings =
        filter_findings fnmatch policy (merge_findings normalize static_findings chunk_findings)

    go :
        (r : Result ReviewPlanningError (Unit {0}))
        → CoverageSpec chunks significant_lines r
        → ReportSpec fnmatch policy chunks significant_lines
            (merge_findings normalize static_findings chunk_findings)
            (r >> ok (record { findings = findings; summary = summarise digits findings }))
    go (ok _) h = (
      h,
      filter-Selected fnmatch policy (merge_findings normalize static_findings chunk_findings),
      refl,
      count-critical findings,
      count-high findings,
      count-medium findings,
      count-low findings,
      count-info findings,
    )
    go (err e) (inl h) = inl h
    go (err e) (inr h) = inr (gap-HasHoles chunks significant_lines h)

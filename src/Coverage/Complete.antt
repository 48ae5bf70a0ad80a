-- ===== src/Coverage/Complete.antt =====
-- A review passes the checks exactly when it is complete.
use code_astra.Base.{
  ℕ, ◌≤◌, ◌≡◌, ◌≢◌, ◌⊎◌, inl, inr, refl, String, true, false, ◌||◌, List, [], ◌∷◌, string_eq, arith,
  Bool-cases,
}
use code_astra.Base.Lists.{All}
use code_astra.Base.Dict.{Dict}
use code_astra.Base.Result.{Result, ok, err}
use code_astra.Domain.Chunks.{ReviewChunk, is_superseded, is_completed}
use code_astra.Domain.Sources.{ReviewPlanningError}
use code_astra.Coverage.{
  leaf_chunks, unresolved, raise_unresolved, is_covered, missing_lines, raise_missing, check_files,
  check_coverage,
}

-- A completed chunk reviews the line of the file.
abbrev pub Reviewed : String → ℕ → List ReviewChunk → Type 0
Reviewed file_id line [] = ⊥
Reviewed file_id line (chunk ∷ chunks) =
    ((chunk.target_file_id ≡ file_id)
      × (chunk.target_start_line ≤ line)
      × (line ≤ chunk.target_end_line)
      × (is_completed chunk.status ≡ true))
    ⊎ Reviewed file_id line chunks

-- Some chunk is neither superseded nor completed.
abbrev pub HasOpen : List ReviewChunk → Type 0
HasOpen [] = ⊥
HasOpen (chunk ∷ chunks) =
    ((is_superseded chunk.status ≡ false) × (is_completed chunk.status ≡ false)) ⊎ HasOpen chunks

abbrev pub HasUncovered : String → List ReviewChunk → List ℕ → Type 0
HasUncovered file_id leaves [] = ⊥
HasUncovered file_id leaves (line ∷ lines) =
    (is_covered file_id line leaves ≡ false) ⊎ HasUncovered file_id leaves lines

-- Some line of some file is in no leaf.
abbrev pub HasGap : List ReviewChunk → Dict String (List ℕ) → Type 0
HasGap leaves [] = ⊥
HasGap leaves ((file_id, lines) ∷ files) = HasUncovered file_id leaves lines ⊎ HasGap leaves files

abbrev pub CoverageSpec :
    List ReviewChunk → Dict String (List ℕ) → Result ReviewPlanningError (Unit {0}) → Type 0
CoverageSpec chunks files (ok _) =
    All (λ (chunk : ReviewChunk). (is_superseded chunk.status || is_completed chunk.status) ≡ true)
      chunks
    × All (λ (file : String × List ℕ). All (λ line. Reviewed file.0 line chunks) file.1) files
CoverageSpec chunks files (err e) = HasOpen chunks ⊎ HasGap (leaf_chunks chunks) files

open_lem : (chunks : List ReviewChunk) → unresolved chunks ≢ [] → HasOpen chunks
unfolding unresolved leaf_chunks
open_lem [] h = absurd (h refl)
open_lem (chunk ∷ chunks) h = elim (Bool-cases (is_superseded chunk.status)) [
  | inl gone ↦ inr (open_lem chunks (λ e. h (rw gone e)))
  | inr leaf ↦ elim (Bool-cases (is_completed chunk.status)) [
    | inl done ↦ inr (open_lem chunks (λ e. h (rw (leaf, done) e)))
    | inr waits ↦ inl (leaf, waits)
  ]
]

reviewed_lem :
    (file_id : String) (line : ℕ) (chunks : List ReviewChunk)
    → unresolved chunks ≡ []
    → is_covered file_id line (leaf_chunks chunks) ≡ true
    → Reviewed file_id line chunks
unfolding unresolved leaf_chunks is_covered
reviewed_lem file_id line [] u h = absurd (ground arith)
reviewed_lem file_id line (chunk ∷ chunks) u h = ground (arith, reviewed_lem file_id line chunks)

closed_lem :
    (chunks : List ReviewChunk)
    → unresolved chunks ≡ []
    → All
        (λ (chunk : ReviewChunk). (is_superseded chunk.status || is_completed chunk.status) ≡ true)
        chunks
unfolding unresolved leaf_chunks
closed_lem [] u = tt
closed_lem (chunk ∷ chunks) u = ground (arith, closed_lem chunks)

module _ (chunks : List ReviewChunk) (u : unresolved chunks ≡ []) where
  lines_lem :
      (file_id : String) (lines : List ℕ)
      → missing_lines file_id (leaf_chunks chunks) lines ≡ []
      → All (λ line. Reviewed file_id line chunks) lines
  unfolding missing_lines
  lines_lem file_id [] h = tt
  lines_lem file_id (line ∷ lines) h =
      (reviewed_lem file_id line chunks u (ground arith), lines_lem file_id lines (ground arith))

  uncovered_lem :
      (file_id : String) (lines : List ℕ)
      → missing_lines file_id (leaf_chunks chunks) lines ≢ []
      → HasUncovered file_id (leaf_chunks chunks) lines
  unfolding missing_lines
  uncovered_lem file_id [] h = absurd (h refl)
  uncovered_lem file_id (line ∷ lines) h =
      elim (Bool-cases (is_covered file_id line (leaf_chunks chunks))) [
        | inl covered ↦ inr (uncovered_lem file_id lines (λ e. h (rw covered e)))
        | inr open_line ↦ inl open_line
      ]

  -- What the loop over the files finds.
  abbrev FilesSpec : Dict String (List ℕ) → Result ReviewPlanningError (Unit {0}) → Type 0
  FilesSpec files (ok _) =
      All (λ (file : String × List ℕ). All (λ line. Reviewed file.0 line chunks) file.1) files
  FilesSpec files (err e) = HasGap (leaf_chunks chunks) files

  files_lem :
      (files : Dict String (List ℕ)) → FilesSpec files (check_files (leaf_chunks chunks) files)
  unfolding check_files
  files_lem [] = tt
  files_lem ((file_id, lines) ∷ files) =
      go (missing_lines file_id (leaf_chunks chunks) lines) refl
        (check_files (leaf_chunks chunks) files) (files_lem files)
    where
      go :
          (l : List ℕ)
          → missing_lines file_id (leaf_chunks chunks) lines ≡ l
          → (r : Result ReviewPlanningError (Unit {0})) → FilesSpec files r
          → FilesSpec ((file_id, lines) ∷ files) (raise_missing file_id l r)
      go [] e (ok _) f = (lines_lem file_id lines e, f)
      go [] e (err _) f = inr f
      go (line ∷ rest) e r f = inl (uncovered_lem file_id lines (λ none_left. ground arith))

pub coverage_is_complete :
    (chunks : List ReviewChunk) (significant_lines : Dict String (List ℕ))
    → CoverageSpec chunks significant_lines (check_coverage chunks significant_lines)
unfolding check_coverage
coverage_is_complete chunks files = go (unresolved chunks) refl
  where
    passed :
        (u : unresolved chunks ≡ []) (r : Result ReviewPlanningError (Unit {0}))
        → FilesSpec chunks u files r
        → CoverageSpec chunks files r
    passed u (ok _) f = (closed_lem chunks u, f)
    passed u (err e) f = inr f

    go :
        (l : List String)
        → unresolved chunks ≡ l
        → CoverageSpec chunks files (raise_unresolved l (check_files (leaf_chunks chunks) files))
    go [] u = passed u (check_files (leaf_chunks chunks) files) (files_lem chunks u files)
    go (chunk_id ∷ rest) u = inl (open_lem chunks (λ none_left. ground arith))

-- ===== src/Planner/Planned.antt =====
-- What `plan` makes sure of, if it returns.
use code_astra.Base.{
  Bool, true, false, if◌then◌else◌, ◌+◌, ◌≤◌, ℕ, String, List, [], ◌∷◌, some, string_eq, ◌≡◌, refl,
  subst, ◌⊎◌, inl, inr,
}
use code_astra.Base.Lists.{All, All-append}
use code_astra.Base.Dict.{
  Dict, lookup, insert, keys, NodupKeys, insert-NodupKeys, keys-insert, lookup-entries,
}
use code_astra.Base.Result.{Result, ok, err, Succeeds, Succeeds-bind}
use code_astra.Domain.Chunks.{Language, ReviewChunk, ContextReference}
use code_astra.Domain.Sources.{SourceFile, ReviewPlanningError}
use code_astra.Coverage.{missing_lines}
use code_astra.Planner.Significant.{significant_lines}
use code_astra.Planner.PythonChunks.{Tools}
use code_astra.Text.{rstrip, is_newline}
use code_astra.Text.Breaks.{count_lines}
use code_astra.Planner.CppChunks.{
  CppParser, CppNode, nodes_of, node_range, cpp_chunk, cpp_chunks, split_cpp,
}
use code_astra.Planner.{
  ReviewPlan, split_file, add_chunks, add_file, add_files, resolve_all, lines_at, require_none,
  check_plan, checked, plan_review,
}
use code_astra.Planner.Waiting.{IsWaiting, ParsesInOrder, python-IsWaiting}

-- If the file is C++, no node that becomes a chunk has more lines, by `splitlines`, than the rows
-- that tree-sitter counts for it. This holds unless the file breaks lines otherwise than by "\n".
abbrev pub RowsHold : CppParser → SourceFile → Type 0
RowsHold cpp source =
    source.language ≡ Language.cpp
    → All
        (λ node.
          (node_range node).0 + count_lines (rstrip is_newline node.text) ≤ (node_range node).1 + 1)
        (nodes_of (cpp.parse source.content))

-- Some file has the id.
abbrev Named : List SourceFile → String → Type 0
Named [] file_id = ⊥
Named (source ∷ files) file_id = (source.file_id ≡ file_id) ⊎ Named files file_id

-- While the files are added.
record Grows (files : List SourceFile) (plan : ReviewPlan) : Type 0 where
  chunks : All IsWaiting plan.chunks
  nodup : NodupKeys plan.significant_lines
  named : All (Named files) (keys plan.significant_lines)

-- No line that counts is missing, for the file.
abbrev Covers : ReviewPlan → String → Type 0
Covers plan file_id =
    missing_lines file_id plan.chunks (lines_at (lookup file_id plan.significant_lines)) ≡ []

Covers-Named :
    (plan : ReviewPlan) (files : List SourceFile) (file_id : String)
    → All (λ (source : SourceFile). Covers plan source.file_id) files
    → Named files file_id
    → Covers plan file_id
Covers-Named plan [] file_id h n = absurd n
Covers-Named plan (source ∷ files) file_id h (inl e) = subst (Covers plan) e h.0
Covers-Named plan (source ∷ files) file_id h (inr n) = Covers-Named plan files file_id h.1 n

-- What `plan` makes sure of.
pub record IsComplete (plan : ReviewPlan) : Type 0 where
  pub chunks : All IsWaiting plan.chunks
  pub covers :
      All
        (λ (entry : String × List ℕ). missing_lines entry.0 plan.chunks entry.1 ≡ [])
        plan.significant_lines

module _ (tools : Tools) (cpp : CppParser)
    (resolve : ReviewChunk → List SourceFile → List ContextReference)
    (parses : ParsesInOrder tools) where
  cpp_chunks-IsWaiting :
      (review_id : String) (source : SourceFile) (index : ℕ) (nodes : List CppNode)
      → All
          (λ node.
            (node_range node).0 + count_lines (rstrip is_newline node.text)
            ≤ (node_range node).1 + 1)
          nodes
      → All IsWaiting (cpp_chunks tools review_id source index nodes)
  unfolding cpp_chunks cpp_chunk
  cpp_chunks-IsWaiting review_id source index [] h = tt
  cpp_chunks-IsWaiting review_id source index (node ∷ nodes) h = (
    record { waits = refl; sized = h.0 },
    cpp_chunks-IsWaiting review_id source (index + 1) nodes h.1,
  )

  cpp-IsWaiting :
      (review_id : String) (source : SourceFile) (b : Bool) (e : ReviewPlanningError)
      → All
          (λ node.
            (node_range node).0 + count_lines (rstrip is_newline node.text)
            ≤ (node_range node).1 + 1)
          (nodes_of (cpp.parse source.content))
      → Succeeds (All IsWaiting) (
          if b
          then err e
          else ok (cpp_chunks tools review_id source 0 (nodes_of (cpp.parse source.content))))
  cpp-IsWaiting review_id source true e h = tt
  cpp-IsWaiting review_id source false e h = cpp_chunks-IsWaiting review_id source 0 _ h

  file-IsWaiting :
      (language : Language) (review_id : String) (source : SourceFile)
      → source.language ≡ language
      → RowsHold cpp source
      → Succeeds (All IsWaiting) (split_file tools cpp resolve language review_id source)
  unfolding split_cpp
  file-IsWaiting Language.python review_id source e h =
      python-IsWaiting tools parses review_id source
  file-IsWaiting Language.cpp review_id source e h = cpp-IsWaiting review_id source _ _ (h e)

  chunks-Grows :
      (files : List SourceFile) (source : SourceFile) (plan : ReviewPlan)
      (chunks : List ReviewChunk) (lines : List ℕ)
      → Grows files plan
      → All IsWaiting chunks
      → Succeeds (Grows files) (add_chunks source plan chunks lines)
  chunks-Grows files source plan [] [] g h = record {
    chunks = g.chunks;
    nodup = g.nodup;
    named = g.named;
  }
  chunks-Grows files source plan [] (line ∷ lines) g h = tt
  chunks-Grows files source plan (chunk ∷ chunks) lines g h = record {
    chunks = All-append IsWaiting plan.chunks (chunk ∷ chunks) g.chunks h;
    nodup = g.nodup;
    named = g.named;
  }

  added-Grows :
      (files : List SourceFile) (source : SourceFile) (plan : ReviewPlan)
      → Grows files plan
      → Named files source.file_id
      → Grows files (record plan {
        significant_lines = insert source.file_id (significant_lines source) plan.significant_lines;
      })
  added-Grows files source plan g n = record {
    chunks = g.chunks;
    nodup =
        insert-NodupKeys source.file_id (significant_lines source) plan.significant_lines g.nodup;
    named =
        keys-insert (Named files) source.file_id (significant_lines source) plan.significant_lines n
          g.named;
  }

  file-Grows :
      (files : List SourceFile) (review_id : String) (source : SourceFile) (plan : ReviewPlan)
      → Grows files plan
      → Named files source.file_id
      → RowsHold cpp source
      → Succeeds (Grows files) (add_file tools cpp resolve review_id source plan)
  unfolding add_file
  file-Grows files review_id source plan g n rows =
      Succeeds-bind (All IsWaiting) (Grows files)
        (split_file tools cpp resolve source.language review_id source) _
        (file-IsWaiting source.language review_id source refl rows)
        (λ chunks h.
          chunks-Grows files source _ chunks (significant_lines source)
            (added-Grows files source plan g n) h)

  files-Grows :
      (files : List SourceFile) (review_id : String) (left : List SourceFile) (plan : ReviewPlan)
      → Grows files plan
      → All (λ (source : SourceFile). Named files source.file_id) left
      → All (RowsHold cpp) left
      → Succeeds (Grows files) (add_files tools cpp resolve review_id left plan)
  unfolding add_files
  files-Grows files review_id [] plan g n rows = g
  files-Grows files review_id (source ∷ left) plan g n rows =
      Succeeds-bind (Grows files) (Grows files) (add_file tools cpp resolve review_id source plan) _
        (file-Grows files review_id source plan g n.0 rows.0)
        (λ plan' g'. files-Grows files review_id left plan' g' n.1 rows.1)

  resolved-IsWaiting :
      (files : List SourceFile) (chunks : List ReviewChunk)
      → All IsWaiting chunks
      → All IsWaiting (resolve_all tools cpp resolve files chunks)
  unfolding resolve_all
  resolved-IsWaiting files [] h = tt
  resolved-IsWaiting files (chunk ∷ chunks) h =
      (record { waits = h.0.waits; sized = h.0.sized }, resolved-IsWaiting files chunks h.1)

  none-Covers :
      (file_id : String) (lines : List ℕ) → Succeeds (λ _. lines ≡ []) (require_none file_id lines)
  none-Covers file_id [] = refl
  none-Covers file_id (line ∷ lines) = tt

  check-Covers :
      (plan : ReviewPlan) (files : List SourceFile)
      → Succeeds
          (λ _. All (λ (source : SourceFile). Covers plan source.file_id) files)
          (check_plan tools cpp resolve plan files)
  unfolding check_plan
  check-Covers plan [] = tt
  check-Covers plan (source ∷ files) =
      Succeeds-bind (λ _. Covers plan source.file_id)
        (λ _. All (λ (source : SourceFile). Covers plan source.file_id) (source ∷ files))
        (require_none source.file_id (
          missing_lines source.file_id plan.chunks
            (lines_at (lookup source.file_id plan.significant_lines))))
        (λ _. check_plan tools cpp resolve plan files)
        (none-Covers source.file_id (
          missing_lines source.file_id plan.chunks
            (lines_at (lookup source.file_id plan.significant_lines))))
        (λ _ covers.
          and_covers covers (check_plan tools cpp resolve plan files) (check-Covers plan files))
    where
      and_covers :
          Covers plan source.file_id
          → (r : Result ReviewPlanningError (Unit {0}))
          → Succeeds (λ _. All (λ (source : SourceFile). Covers plan source.file_id) files) r
          → Succeeds
              (λ _. All (λ (source : SourceFile). Covers plan source.file_id) (source ∷ files))
              r
      and_covers covers (ok _) h = (covers, h)
      and_covers covers (err e) h = tt

  Named-later :
      (source : SourceFile) (files left : List SourceFile)
      → All (λ (s : SourceFile). Named files s.file_id) left
      → All (λ (s : SourceFile). Named (source ∷ files) s.file_id) left
  Named-later source files [] h = tt
  Named-later source files (s ∷ left) h = (inr h.0, Named-later source files left h.1)

  Named-self : (files : List SourceFile) → All (λ (s : SourceFile). Named files s.file_id) files
  Named-self [] = tt
  Named-self (source ∷ files) = (inl refl, Named-later source files files (Named-self files))

  entries-missing :
      (plan : ReviewPlan) (files : List SourceFile) (entries : Dict String (List ℕ))
      → All (λ (source : SourceFile). Covers plan source.file_id) files
      → All (Named files) (keys entries)
      → All
          (λ (entry : String × List ℕ). lookup entry.0 plan.significant_lines ≡ some entry.1)
          entries
      → All (λ (entry : String × List ℕ). missing_lines entry.0 plan.chunks entry.1 ≡ []) entries
  entries-missing plan files [] c n e = tt
  entries-missing plan files ((k, v) ∷ entries) c n e = (
    subst (λ o. missing_lines k plan.chunks (lines_at o) ≡ []) e.0
        (Covers-Named plan files k c n.0),
    entries-missing plan files entries c n.1 e.1,
  )

  checked-IsComplete :
      (files : List SourceFile) (plan : ReviewPlan)
      → Grows files plan
      → Succeeds IsComplete (checked tools cpp resolve files plan)
  checked-IsComplete files plan g =
      Succeeds-bind (λ _. All (λ (source : SourceFile). Covers plan source.file_id) files)
        IsComplete (check_plan tools cpp resolve plan files) (λ _. ok plan)
        (check-Covers plan files)
        (λ _ covers. record {
          chunks = g.chunks;
          covers =
              entries-missing plan files plan.significant_lines covers g.named
                (lookup-entries plan.significant_lines g.nodup);
        })

  pub plan-IsComplete :
      (review_id : String) (files : List SourceFile)
      → All (RowsHold cpp) files
      → Succeeds IsComplete (plan_review tools cpp resolve review_id files)
  unfolding plan_review
  plan-IsComplete review_id files rows =
      Succeeds-bind (Grows files) IsComplete
        (add_files tools cpp resolve review_id files empty_plan)
        (λ plan.
          checked tools cpp resolve files
            (record plan { chunks = resolve_all tools cpp resolve files plan.chunks }))
        (files-Grows files review_id files empty_plan
          (record { chunks = tt; nodup = tt; named = tt }) (Named-self files) rows)
        (λ plan g.
          checked-IsComplete files
            (record plan { chunks = resolve_all tools cpp resolve files plan.chunks })
            (record {
              chunks = resolved-IsWaiting files plan.chunks g.chunks;
              nodup = g.nodup;
              named = g.named;
            }))
    where
      empty_plan : ReviewPlan
      empty_plan = record {
        review_id = review_id;
        chunks = [];
        significant_lines = [];
        zero_target_file_ids = [];
      }

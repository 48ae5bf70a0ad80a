-- ===== src/Planner/Significant.antt =====
-- src/code_review/application/review_planner.py, `significant_lines`: the numbers of the lines that a
-- review has to cover, in ascending order.
use Prim.Native.Char.{code}
use Prim.Native.String.{String, [], ◌∷◌}
use mathlib.Core.List.{List}
use code_astra.Base.{
  ℕ, zero, suc, ◌+◌, Bool, true, false, not, ◌&&◌, ◌||◌, Option, none, some, ◌==◌, nat_eq,
  if◌then◌else◌,
}
use code_astra.Domain.Chunks.{Language}
use code_astra.Domain.Sources.{SourceFile}
use code_astra.Text.{strip, is_empty, starts_with, tail, count_chars, split_lines}

-- `line.split("*/", 1)[1]`, where there is one
abbrev pub after_close : String → Option String
after_close [] = none
after_close (c ∷ s) =
    let rest = after_close s in if code c == 42 && starts_with 47 s then some (tail s) else rest

-- Does `line.startswith("/*")` hold? Then `line[2:]`.
abbrev pub after_open : String → Option String
after_open [] = none
after_open (c ∷ s) = if code c == 47 && starts_with 42 s then some (tail s) else none

-- At a comment: it goes on after the line, or what is behind it is read again.
abbrev pub at_comment :
    Option String
    → Option String
    → String
    → (String → Option (Bool × String))
    → Option (Bool × String)
at_comment none closed line again = some (true, [])
at_comment (some _) none line again = some (false, line)
at_comment (some _) (some rest) line again = again (strip rest)

-- One pass of the loop, for `line[2:]` at a comment and what is behind the first "*/" of the line.
abbrev pub pass :
    Option String
    → Option String
    → String
    → (String → Option (Bool × String))
    → Option (Bool × String)
pass none closed line again = some (false, line)
pass (some body) closed line again = at_comment (after_close body) closed line again

-- The loop over the comments that open a line: whether it ends inside one, and what is left. Without
-- fuel there is no answer.
unfoldable pub skip_comments : ℕ → String → Option (Bool × String)
skip_comments zero line = none
skip_comments (suc fuel) line = pass (after_open line) (after_close line) line (skip_comments fuel)

abbrev pub is_code : String → Bool
is_code line = not (is_empty line || (starts_with 47 line && starts_with 47 (tail line)))

-- More fuel than the line has characters is given, so that the first clause is not met.
abbrev pub judge_rest : Option (Bool × String) → Bool × Bool
judge_rest none = (false, false)
judge_rest (some (in_block_comment, line)) = (in_block_comment, is_code line)

-- What one line of C++ makes of `in_block_comment`, and whether it counts.
unfoldable pub judge_line : Bool → String → Bool × Bool
judge_line true line = elim (after_close line) [
  | none ↦ (true, false)
  | some rest ↦ judge_rest (skip_comments (suc (count_chars (strip rest))) (strip rest))
]
judge_line false line = judge_rest (skip_comments (suc (count_chars line)) line)

abbrev pub number_if : ℕ → Bool → List ℕ → List ℕ
number_if number counts rest = if counts then List.◌∷◌ number rest else rest

unfoldable pub cpp_lines : ℕ → Bool → List String → List ℕ
cpp_lines number in_block_comment List.[] = List.[]
cpp_lines number in_block_comment (List.◌∷◌ raw_line raw_lines) = elim (is_empty (strip raw_line)) [
  | true ↦ cpp_lines (number + 1) in_block_comment raw_lines
  | false ↦
      let (in_block_comment', counts) = judge_line in_block_comment (strip raw_line) in
      number_if number counts (cpp_lines (number + 1) in_block_comment' raw_lines)
]

unfoldable pub python_lines : ℕ → List String → List ℕ
python_lines number List.[] = List.[]
python_lines number (List.◌∷◌ raw_line raw_lines) =
    number_if number (not (is_empty (strip raw_line) || starts_with 35 (strip raw_line)))
      (python_lines (number + 1) raw_lines)

abbrev pub lines_in : Language → List String → List ℕ
lines_in Language.python raw_lines = python_lines 1 raw_lines
lines_in Language.cpp raw_lines = cpp_lines 1 false raw_lines

unfoldable pub significant_lines : SourceFile → List ℕ
significant_lines source = lines_in source.language (split_lines source.content)

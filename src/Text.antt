-- ===== src/Text.antt =====
-- Methods of Python's str that the planner calls, over the characters of a text.

pub mod Breaks
use Prim.Native.Char.{Char, code}
use Prim.Native.String.{String, [], ◌∷◌, ◌++◌}
use code_astra.Base.{
  ℕ, suc, Bool, true, false, not, ◌&&◌, ◌||◌, Option, none, some, leb, ◌==◌, nat_eq, if◌then◌else◌,
}
use mathlib.Core.List
use mathlib.Core.List.{List}

-- The boundaries of `splitlines`.
unfoldable pub is_break : Char → Bool
is_break c =
    let n = code c in
    (leb 10 n && leb n 13) || (leb 28 n && leb n 30) || n == 133 || n == 8232 || n == 8233

-- What `str.isspace` takes for white space.
unfoldable pub is_space : Char → Bool
is_space c =
    let n = code c in
    (leb 9 n && leb n 13)
    || (leb 28 n && leb n 32)
    || n == 133
    || n == 160
    || n == 5760
    || (leb 8192 n && leb n 8202)
    || n == 8232
    || n == 8233
    || n == 8239
    || n == 8287
    || n == 12288

abbrev pub starts_with_newline : String → Bool
starts_with_newline [] = false
starts_with_newline (c ∷ s) = code c == 10

-- Does the line end with `c`, which `s` follows? A "\r" before "\n" belongs to the same end.
unfoldable pub ends_line : Char → String → Bool
ends_line c s = is_break c && not (code c == 13 && starts_with_newline s)

abbrev pub prepend : Char → List String → List String
prepend c List.[] = List.◌∷◌ (c ∷ []) List.[]
prepend c (List.◌∷◌ line lines) = List.◌∷◌ (c ∷ line) lines

-- `splitlines(keepends=True)`
unfoldable pub split_keepends : String → List String
split_keepends [] = List.[]
split_keepends (c ∷ s) =
    let rest = split_keepends s in if ends_line c s then List.◌∷◌ (c ∷ []) rest else prepend c rest

-- `"".join(lines)`
unfoldable pub concat : List String → String
concat List.[] = []
concat (List.◌∷◌ line lines) = line ++ concat lines

abbrev pub is_empty : String → Bool
is_empty [] = true
is_empty (c ∷ s) = false

-- A character before what is left at the end, which goes where nothing is left behind it.
abbrev pub keep_unless : (Char → Bool) → Char → String → String
keep_unless drop c [] = if drop c then [] else c ∷ []
keep_unless drop c (d ∷ s) = c ∷ d ∷ s

-- `rstrip`, of the characters that `drop` holds of
unfoldable pub rstrip : (Char → Bool) → String → String
rstrip drop [] = []
rstrip drop (c ∷ s) = keep_unless drop c (rstrip drop s)

unfoldable pub lstrip : (Char → Bool) → String → String
lstrip drop [] = []
lstrip drop (c ∷ s) = let rest = lstrip drop s in if drop c then rest else c ∷ s

-- `strip()`
unfoldable pub strip : String → String
strip s = lstrip is_space (rstrip is_space s)

abbrev pub is_newline : Char → Bool
is_newline c = code c == 10

-- `splitlines()`
unfoldable pub split_lines : String → List String
split_lines s = mathlib.Core.List.map (rstrip is_break) (split_keepends s)

-- `s[0]` is the character of this code.
abbrev pub starts_with : ℕ → String → Bool
starts_with n [] = false
starts_with n (c ∷ s) = code c == n

abbrev pub tail : String → String
tail [] = []
tail (c ∷ s) = s

-- `len(s)`
abbrev pub count_chars : String → ℕ
count_chars [] = 0
count_chars (c ∷ s) = suc (count_chars s)

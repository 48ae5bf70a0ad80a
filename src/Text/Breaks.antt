-- ===== src/Text/Breaks.antt =====
-- How many lines a part of a text has.
use Prim.Native.Char.{Char, code}
use Prim.Native.String.{String, [], ◌∷◌, ◌++◌}
use Prim.Native.String.append
use mathlib.Core.List.{List}
use code_astra.Base.{
  ℕ, zero, suc, ◌-◌, max, ◌+◌, ◌≤◌, Bool, true, false, not, ◌&&◌, ◌==◌, nat_eq, if◌then◌else◌, ◌≡◌,
  refl, arith, Bool-cases, inl, inr, ap,
}
use code_astra.Base.Lists.{length, All, take, drop}
use code_astra.Text.{
  is_break, starts_with_newline, ends_line, prepend, split_keepends, concat, is_empty, keep_unless,
  rstrip,
}

-- `len(s.splitlines())`
abbrev pub count_lines : String → ℕ
count_lines s = length (split_keepends s)

length-prepend : (c : Char) (lines : List String) → length (prepend c lines) ≡ max 1 (length lines)
length-prepend c List.[] = omega arith
length-prepend c (List.◌∷◌ line lines) = omega arith

count-cons :
    (c : Char) (s : String)
    → count_lines (c ∷ s) ≡ (if ends_line c s then suc (count_lines s) else max 1 (count_lines s))
unfolding split_keepends
count-cons c s = ground (arith, length-prepend c (split_keepends s))

count-one : (c : Char) → count_lines (c ∷ []) ≡ 1
unfolding split_keepends
count-one c = ground (arith, count-cons c [])

same_end : (c d : Char) (s t : String) → ends_line c (d ∷ s) ≡ ends_line c (d ∷ t)
unfolding ends_line
same_end c d s t = refl

branch-le :
    (b : Bool) (m n k : ℕ)
    → m ≤ n + k
    → (if b then suc m else max 1 m) ≤ (if b then suc n else max 1 n) + k
branch-le b m n k h = ground (arith, h)

count-append : (s t : String) → count_lines (s ++ t) ≤ count_lines s + count_lines t
count-append [] t = rw (append.nil t) (omega arith)
count-append (c ∷ []) t =
    rw (append.cons c [] t, append.nil t, count-one c) (ground (arith, count-cons c t))
count-append (c ∷ d ∷ s) t =
    let rest = count-append (d ∷ s) t in
    let rest' = rw (append.cons d s t) at rest in
    rw
      (
        append.cons c (d ∷ s) t,
        count-cons c (d ∷ s),
        append.cons d s t,
        count-cons c (d ∷ (s ++ t)),
        same_end c d (s ++ t) s,
      )
      (branch-le (ends_line c (d ∷ s)) _ _ _ rest')

ends-same :
    (c : Char) (s t : String)
    → starts_with_newline s ≡ starts_with_newline t
    → ends_line c s ≡ ends_line c t
unfolding ends_line
ends-same c s t h = ap (λ b. is_break c && not (code c == 13 && b)) h

-- Where something is left of a text, it starts as the text does.
starts-keep :
    (p : Char → Bool) (c : Char) (s r : String)
    → is_empty (keep_unless p c r) ≡ false
    → starts_with_newline (keep_unless p c r) ≡ starts_with_newline (c ∷ s)
starts-keep p c s [] h = go (p c) h
  where
    go :
        (b : Bool)
        → is_empty (if b then [] else c ∷ []) ≡ false
        → starts_with_newline (if b then [] else c ∷ []) ≡ starts_with_newline (c ∷ s)
    go true h = absurd (ground (arith, h))
    go false h = refl
starts-keep p c s (d ∷ r) h = refl

starts-rstrip :
    (p : Char → Bool) (s : String)
    → is_empty (rstrip p s) ≡ false
    → starts_with_newline (rstrip p s) ≡ starts_with_newline s
unfolding rstrip
starts-rstrip p [] h = refl
starts-rstrip p (c ∷ s) h = starts-keep p c s (rstrip p s) h

split-le :
    (b : Bool) (m n : ℕ) → m ≤ n → (if b then suc m else max 1 m) ≤ (if b then suc n else max 1 n)
split-le b m n h = ground (arith, h)

keep-le :
    (p : Char → Bool) (c : Char) (s r : String)
    → (is_empty r ≡ false → starts_with_newline r ≡ starts_with_newline s)
    → count_lines r ≤ count_lines s
    → count_lines (keep_unless p c r) ≤ count_lines (c ∷ s)
keep-le p c s [] e h = ground (arith, count-one c, count-cons c s)
keep-le p c s (d ∷ r) e h =
    rw (count-cons c s, count-cons c (d ∷ r), ends-same c (d ∷ r) s (e refl))
      (split-le (ends_line c s) _ _ h)

pub count-rstrip : (p : Char → Bool) (s : String) → count_lines (rstrip p s) ≤ count_lines s
unfolding rstrip
count-rstrip p [] = omega arith
count-rstrip p (c ∷ s) = keep-le p c s (rstrip p s) (starts-rstrip p s) (count-rstrip p s)

-- The lines of a text are single lines, and the first starts as the text does.
abbrev Lines : String → List String → Type 0
Lines s List.[] = Unit
Lines s (List.◌∷◌ line lines) =
    (starts_with_newline line ≡ starts_with_newline s)
    × All (λ l. count_lines l ≤ 1) (List.◌∷◌ line lines)

Lines-All : (s : String) (lines : List String) → Lines s lines → All (λ l. count_lines l ≤ 1) lines
Lines-All s List.[] h = tt
Lines-All s (List.◌∷◌ line lines) h = h.1

Lines-prepend :
    (c : Char) (s : String) (lines : List String)
    → ends_line c s ≡ false
    → Lines s lines
    → Lines (c ∷ s) (prepend c lines)
Lines-prepend c s List.[] e h = (refl, (ground (arith, count-one c), tt))
Lines-prepend c s (List.◌∷◌ line lines) e h =
    (refl, (ground (arith, count-cons c line, ends-same c line s h.0, e, h.1.0), h.1.1))

split-Lines : (s : String) → Lines s (split_keepends s)
unfolding split_keepends
split-Lines [] = tt
split-Lines (c ∷ s) = elim (Bool-cases (ends_line c s)) [
  | inl e ↦
      rw e (refl, (ground (arith, count-one c), Lines-All s (split_keepends s) (split-Lines s)))
  | inr e ↦ rw e (Lines-prepend c s (split_keepends s) e (split-Lines s))
]

count-concat :
    (lines : List String)
    → All (λ l. count_lines l ≤ 1) lines
    → count_lines (concat lines) ≤ length lines
unfolding concat split_keepends
count-concat List.[] h = omega arith
count-concat (List.◌∷◌ line lines) h =
    omega (arith, count-append line (concat lines), h.0, count-concat lines h.1)

pub length-take : (n : ℕ) (l : List String) → length (take n l) ≤ n
length-take zero l = omega arith
length-take (suc n) List.[] = omega arith
length-take (suc n) (List.◌∷◌ x l) = omega (arith, length-take n l)

pub length-drop : (n : ℕ) (l : List String) → length (drop n l) ≡ length l - n
length-drop zero l = omega arith
length-drop (suc n) List.[] = omega arith
length-drop (suc n) (List.◌∷◌ x l) = omega (arith, length-drop n l)

All-take {κ} : (P : String → Type κ) (n : ℕ) (l : List String) → All P l → All P (take n l)
All-take P zero l h = tt
All-take P (suc n) List.[] h = tt
All-take P (suc n) (List.◌∷◌ x l) h = (h.0, All-take P n l h.1)

All-drop {κ} : (P : String → Type κ) (n : ℕ) (l : List String) → All P l → All P (drop n l)
All-drop P zero l h = h
All-drop P (suc n) List.[] h = tt
All-drop P (suc n) (List.◌∷◌ x l) h = All-drop P n l h.1

module _ (p : Char → Bool) (n : ℕ) (s : String) where
  pub count-take : count_lines (rstrip p (concat (take n (split_keepends s)))) ≤ n
  count-take = omega (
    arith,
    count-rstrip p (concat (take n (split_keepends s))),
    length-take n (split_keepends s),
    count-concat (take n (split_keepends s))
        (All-take _ n (split_keepends s) (Lines-All s _ (split-Lines s))),
  )

  pub count-drop : count_lines (rstrip p (concat (drop n (split_keepends s)))) ≤ count_lines s - n
  count-drop = omega (
    arith,
    count-rstrip p (concat (drop n (split_keepends s))),
    length-drop n (split_keepends s),
    count-concat (drop n (split_keepends s))
        (All-drop _ n (split_keepends s) (Lines-All s _ (split-Lines s))),
  )

pub count-part :
    (p : Char → Bool) (m n : ℕ) (s : String)
    → count_lines (rstrip p (concat (take n (drop m (split_keepends s))))) ≤ n
count-part p m n s = omega (
  arith,
  count-rstrip p (concat (take n (drop m (split_keepends s)))),
  length-take n (drop m (split_keepends s)),
  count-concat (take n (drop m (split_keepends s))) (
      All-take _ n (drop m (split_keepends s))
        (All-drop _ m (split_keepends s) (Lines-All s _ (split-Lines s)))),
)

-- ===== src/Planner/Comments.antt =====
-- The loop of `significant_lines` over the comments that open a line of C++ comes to an end.
use Prim.Native.Char.{Char, code}
use Prim.Native.String.{String, [], ◌∷◌}
use code_astra.Base.{
  ℕ, zero, suc, ◌≤◌, ◌<◌, Bool, true, false, ◌&&◌, Option, none, some, ◌==◌, nat_eq, if◌then◌else◌,
  ◌≡◌, refl, arith, ◌⊎◌, inl, inr,
}
use code_astra.Text.{strip, lstrip, rstrip, keep_unless, is_space, starts_with, tail, count_chars}
use code_astra.Planner.Significant.{at_comment, pass, after_close, after_open, skip_comments}

keep-le :
    (p : Char → Bool) (c : Char) (r : String)
    → count_chars (keep_unless p c r) ≤ suc (count_chars r)
keep-le p c [] = elim (p c) as (λ b. count_chars (if b then [] else c ∷ []) ≤ 1) [
  | true ↦ omega arith
  | false ↦ omega arith
]
keep-le p c (d ∷ r) = omega arith

rstrip-le : (p : Char → Bool) (s : String) → count_chars (rstrip p s) ≤ count_chars s
unfolding rstrip
rstrip-le p [] = omega arith
rstrip-le p (c ∷ s) = omega (arith, keep-le p c (rstrip p s), rstrip-le p s)

lstrip-le : (p : Char → Bool) (s : String) → count_chars (lstrip p s) ≤ count_chars s
unfolding lstrip
lstrip-le p [] = omega arith
lstrip-le p (c ∷ s) = ground (arith, lstrip-le p s)

strip-le : (s : String) → count_chars (strip s) ≤ count_chars s
unfolding strip
strip-le s = omega (arith, lstrip-le is_space (rstrip is_space s), rstrip-le is_space s)

abbrev Shorter : String → Option String → Type 0
Shorter s none = Unit
Shorter s (some rest) = count_chars rest < count_chars s

tail-le : (s : String) → count_chars (tail s) ≤ count_chars s
tail-le [] = omega arith
tail-le (c ∷ s) = omega arith

after_close-Shorter : (s : String) → Shorter s (after_close s)
after_close-Shorter [] = tt
after_close-Shorter (c ∷ s) =
    go (code c == 42 && starts_with 47 s) (after_close s) (after_close-Shorter s)
  where
    go :
        (b : Bool) (o : Option String)
        → Shorter s o
        → Shorter (c ∷ s) (if b then some (tail s) else o)
    go true o h = omega (arith, tail-le s)
    go false none h = tt
    go false (some rest) h = omega (arith, h)

-- The loop has ended: inside a comment, with nothing left of the line, or with a line that opens no
-- comment, or one whose comment closes only by its own first characters.
abbrev pub Ended : Option (Bool × String) → Type 0
Ended none = ⊥
Ended (some (true, line)) = line ≡ []
Ended (some (false, line)) = (after_open line ≡ none) ⊎ (after_close line ≡ none)

pass-Ended :
    (again : String → Option (Bool × String)) (line : String) (opened closed : Option String)
    → after_open line ≡ opened
    → after_close line ≡ closed
    → Shorter line closed
    → ((rest : String) → count_chars rest < count_chars line → Ended (again (strip rest)))
    → Ended (pass opened closed line again)
pass-Ended again line none closed e k h same = inl e
pass-Ended again line (some body) closed e k h same = go (after_close body) closed k h
  where
    go :
        (inner closed : Option String)
        → after_close line ≡ closed
        → Shorter line closed
        → Ended (at_comment inner closed line again)
    go none closed k h = refl
    go (some _) none k h = inr k
    go (some _) (some rest) k h = same rest h

-- The loop ends: with more fuel than the line has characters it gives an answer. Either it ends
-- inside a comment with nothing left, or what is left opens no comment or has no end of one.
pub skip_comments_ends :
    (n : ℕ) (line : String) → count_chars line < n → Ended (skip_comments n line)
unfolding skip_comments
skip_comments_ends zero line h = absurd (omega (arith, h))
skip_comments_ends (suc n) line h =
    pass-Ended (skip_comments n) line (after_open line) (after_close line) refl refl
      (after_close-Shorter line)
      (λ rest shorter. skip_comments_ends n (strip rest) (omega (arith, strip-le rest, shorter, h)))

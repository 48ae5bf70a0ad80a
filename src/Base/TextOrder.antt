-- ===== src/Base/TextOrder.antt =====
-- Texts in the order of their code points: `text_lt` is irreflexive and transitive.
use Prim.Native.Nat.{ℕ, Ordering, compare as compare_ℕ}
use Prim.Native.Char.{code}
use Prim.Native.String.{String, [], ◌∷◌, compare, then}
use Prim.Native.String.compare
use mathlib.Core.Path.{◌≡◌, ap, sym, ◌∙◌}
use mathlib.Core.Bool.{Bool, true, false}
use native.Mathlib.Omega.{arith}
use text.Mathlib.TextPositions.{compare_refl}
use mathlib.Core.Logic.{◌≢◌}
use code_astra.Base.Equality.{text_lt, ◌==◌, string_eq}

abbrev is_lt : Ordering → Bool
is_lt Ordering.lt = true
is_lt _ = false

then_trans :
    (a b c : ℕ) (p q r : Ordering)
    → (is_lt p ≡ true → is_lt q ≡ true → is_lt r ≡ true)
    → is_lt (then (compare_ℕ a b) p) ≡ true
    → is_lt (then (compare_ℕ b c) q) ≡ true
    → is_lt (then (compare_ℕ a c) r) ≡ true
then_trans a b c p q r h u v = ground arith

compare_trans :
    (s t u : String)
    → is_lt (compare s t) ≡ true
    → is_lt (compare t u) ≡ true
    → is_lt (compare s u) ≡ true
compare_trans [] [] u p q = q
compare_trans [] (d ∷ t) [] p q = rw (compare.cons-nil d t) at q
compare_trans [] (d ∷ t) (e ∷ u) p q = rw (compare.nil-cons e u)
compare_trans (c ∷ s) [] u p q = absurd (ground (arith, compare.cons-nil c s))
compare_trans (c ∷ s) (d ∷ t) [] p q = absurd (ground (arith, compare.cons-nil d t))
compare_trans (c ∷ s) (d ∷ t) (e ∷ u) p q = rw (compare.cons-cons c e s u) (
    then_trans (code c) (code d) (code e) (compare s t) (compare t u) (compare s u)
      (compare_trans s t u) (rw (compare.cons-cons c d s t) at p)
      (rw (compare.cons-cons d e t u) at q))

text_lt-is_lt : (s t : String) → text_lt s t ≡ is_lt (compare s t)
unfolding text_lt
text_lt-is_lt s t = ground arith

pub text_lt_trans : (s t u : String) → text_lt s t ≡ true → text_lt t u ≡ true → text_lt s u ≡ true
text_lt_trans s t u p q =
    text_lt-is_lt s u
    ∙ compare_trans s t u (sym (text_lt-is_lt s t) ∙ p) (sym (text_lt-is_lt t u) ∙ q)

pub text_lt_irrefl : (s : String) → text_lt s s ≡ false
text_lt_irrefl s = text_lt-is_lt s s ∙ ap is_lt (compare_refl s)

pub text_differs : (a b : String) → a == b ≡ false → a ≢ b
text_differs a b h = ground arith

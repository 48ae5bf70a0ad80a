-- ===== src/Base/Equality.antt =====
-- Python's `==` for every type whose equality can be decided, and the order of its texts.
use Prim.Native.Nat.{ℕ, Ordering}
use Prim.Native.String.{String, compare}
use mathlib.Core.Logic.{ite, dite}
use mathlib.Core.Bool.{Bool, true, false, Bool-discrete}
use native.Mathlib.Decide.{ℕ_discrete}
use mathlib.Core.Path.{◌≡◌, ap}
use text.Mathlib.Text
use text.Mathlib.TextEquality.{eq_iff}

pub record Eq {ℓ} (A : Type ℓ) : Type ℓ where
  pub dec : Discrete A

infix 50 ◌==◌
abbrev pub ◌==◌ {ℓ} : {A : Type ℓ} ⦃e : Eq A⦄ → A → A → Bool
◌==◌ ⦃e⦄ a b = ite (e.dec a b) true false

instance unfoldable pub string_eq : Eq String
string_eq = record {
  dec = λ s t.
      dite (Bool-discrete (Text.◌==◌ s t) true) (λ same. yes ((eq_iff s t).0 same))
        (λ differ. no (λ p. differ ((eq_iff s t).1 p)));
}

instance unfoldable pub nat_eq : Eq ℕ
unfolding ℕ_discrete
nat_eq = record { dec = ℕ_discrete }

pub pairs_equal {ℓ ℓ'} : {A : Type ℓ} {B : Type ℓ'} (u v : A × B) → u.0 ≡ v.0 → u.1 ≡ v.1 → u ≡ v
pairs_equal u v p q = cc

instance unfoldable pub pair_eq {ℓ ℓ'} :
    {A : Type ℓ} {B : Type ℓ'} ⦃a : Eq A⦄ ⦃b : Eq B⦄ → Eq (A × B)
pair_eq ⦃a⦄ ⦃b⦄ = record {
  dec = λ u v.
      dite (a.dec u.0 v.0)
        (λ p.
          dite (b.dec u.1 v.1) (λ q. yes (pairs_equal u v p q))
            (λ n. no (λ e. n (ap (λ w. w.1) e))))
        (λ n. no (λ e. n (ap (λ w. w.0) e)));
}

-- `s < t` on texts: by code points, as Python compares them.
unfoldable pub text_lt : String → String → Bool
text_lt s t = elim (compare s t) [ Ordering.lt ↦ true | _ ↦ false ]

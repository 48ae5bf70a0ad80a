-- ===== src/Base/Sort.antt =====
-- Python's stable `sorted`, as insertion: an element goes before the first that is after it.
use mathlib.Core.Bool.{Bool, true, false}
use mathlib.Core.Logic.{inl, inr}
use mathlib.Core.List.{List, [], ◌∷◌}
use mathlib.Core.Path.{◌≡◌, refl}
use Prim.Native.Nat.{ℕ, ◌+◌}
use native.Mathlib.Omega.{arith}
use code_astra.Base.Tests.{if◌then◌else◌, Bool-cases}
use code_astra.Base.Lists.{All, weigh}

module _ {ℓ} {A : Type ℓ} (before : A → A → Bool) where
  unfoldable pub insert_by : A → List A → List A
  insert_by a [] = a ∷ []
  insert_by a (b ∷ l) = if before b a then b ∷ insert_by a l else a ∷ b ∷ l

  -- Equal elements keep their order: an element is inserted after those behind it are sorted, and
  -- goes in front of its equals.
  unfoldable pub sort_by : List A → List A
  unfolding insert_by
  sort_by [] = []
  sort_by (a ∷ l) = insert_by a (sort_by l)

  All-insert_by {κ} : (P : A → Type κ) (a : A) (l : List A) → P a → All P l → All P (insert_by a l)
  unfolding insert_by
  All-insert_by P a [] p h = (p, tt)
  All-insert_by P a (b ∷ l) p h = ground (arith, All-insert_by P a l p h.1)

  pub All-sort_by {κ} : (P : A → Type κ) (l : List A) → All P l → All P (sort_by l)
  unfolding sort_by
  All-sort_by P [] h = tt
  All-sort_by P (a ∷ l) h = All-insert_by P a (sort_by l) h.0 (All-sort_by P l h.1)

  weigh-insert_by : (f : A → ℕ) (a : A) (l : List A) → weigh f (insert_by a l) ≡ f a + weigh f l
  unfolding insert_by
  weigh-insert_by f a [] = refl
  weigh-insert_by f a (b ∷ l) = ground (arith, weigh-insert_by f a l)

  pub weigh-sort_by : (f : A → ℕ) (l : List A) → weigh f (sort_by l) ≡ weigh f l
  unfolding sort_by
  weigh-sort_by f [] = refl
  weigh-sort_by f (a ∷ l) = omega (arith, weigh-insert_by f a (sort_by l), weigh-sort_by f l)

  -- No element of the list is before the one in front of it.
  abbrev pub InOrder : List A → Type 0
  InOrder [] = Unit
  InOrder (a ∷ []) = Unit
  InOrder (a ∷ b ∷ l) = (before b a ≡ false) × InOrder (b ∷ l)

  module _ (asymmetric : (a b : A) → before a b ≡ true → before b a ≡ false) where
    InOrder-behind :
        (b a : A) (l : List A) → before a b ≡ false → InOrder (b ∷ l) → InOrder (b ∷ insert_by a l)
    unfolding insert_by
    InOrder-behind b a [] h o = (h, tt)
    InOrder-behind b a (c ∷ l) h o = elim (Bool-cases (before c a)) [
      | inl first ↦ rw first (o.0, InOrder-behind c a l (asymmetric c a first) o.1)
      | inr not_first ↦ rw not_first (h, (not_first, o.1))
    ]

    InOrder-insert_by : (a : A) (l : List A) → InOrder l → InOrder (insert_by a l)
    unfolding insert_by
    InOrder-insert_by a [] o = tt
    InOrder-insert_by a (b ∷ l) o = elim (Bool-cases (before b a)) [
      | inl first ↦ rw first (InOrder-behind b a l (asymmetric b a first) o)
      | inr not_first ↦ rw not_first (not_first, o)
    ]

    pub InOrder-sort_by : (l : List A) → InOrder (sort_by l)
    unfolding sort_by
    InOrder-sort_by [] = tt
    InOrder-sort_by (a ∷ l) = InOrder-insert_by a (sort_by l) (InOrder-sort_by l)

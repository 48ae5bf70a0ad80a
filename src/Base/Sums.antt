-- ===== src/Base/Sums.antt =====
-- Sums over the values of a dictionary, and how each update moves them.
use Prim.Native.Nat.{ℕ, ◌+◌, ◌≤◌}
use mathlib.Core.Path.{◌≡◌, refl}
use mathlib.Core.Option.{none, some}
use mathlib.Core.List.{[], ◌∷◌}
use native.Mathlib.Omega.{arith}
use code_astra.Base.Equality.{Eq}
use code_astra.Base.Dict.{Dict, lookup, insert, erase, NodupKeys}

module _ {ℓ κ} {K : Type ℓ} {V : Type κ} where
  abbrev pub sum_by : (V → ℕ) → Dict K V → ℕ
  sum_by f [] = 0
  sum_by f ((_, v) ∷ d) = f v + sum_by f d

module _ {ℓ κ} {K : Type ℓ} {V : Type κ} ⦃e : Eq K⦄ (f : V → ℕ) where
  pub sum_by-insert_new :
      (k : K) (v : V) (d : Dict K V)
      → lookup k d ≡ none
      → sum_by f (insert k v d) ≡ sum_by f d + f v
  unfolding lookup insert
  sum_by-insert_new k v [] h = omega arith
  sum_by-insert_new k v ((j, w) ∷ d) h = ground (arith, sum_by-insert_new k v d)

  pub sum_by-insert :
      (k : K) (v old : V) (d : Dict K V)
      → lookup k d ≡ some old
      → sum_by f (insert k v d) + f old ≡ sum_by f d + f v
  unfolding lookup insert
  sum_by-insert k v old [] h = absurd (ground arith)
  sum_by-insert k v old ((j, w) ∷ d) h = ground (arith, sum_by-insert k v old d)

  sum_by-erase_absent :
      (k : K) (d : Dict K V) → lookup k d ≡ none → sum_by f (erase k d) ≡ sum_by f d
  unfolding lookup erase
  sum_by-erase_absent k [] h = refl
  sum_by-erase_absent k ((j, w) ∷ d) h = ground (arith, sum_by-erase_absent k d)

  pub sum_by-erase :
      (k : K) (old : V) (d : Dict K V)
      → NodupKeys d
      → lookup k d ≡ some old
      → sum_by f (erase k d) + f old ≡ sum_by f d
  unfolding lookup erase
  sum_by-erase k old [] n h = absurd (ground arith)
  sum_by-erase k old ((j, w) ∷ d) n h =
      ground (arith, sum_by-erase k old d n.1, sum_by-erase_absent k d)

  pub le-sum_by : (k : K) (v : V) (d : Dict K V) → lookup k d ≡ some v → f v ≤ sum_by f d
  unfolding lookup
  le-sum_by k v [] h = absurd (ground arith)
  le-sum_by k v ((j, w) ∷ d) h = ground (arith, le-sum_by k v d)

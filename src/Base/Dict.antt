-- ===== src/Base/Dict.antt =====
-- Python's dictionaries, in insertion order, with the laws that their clients go by.
use mathlib.Core.Path.{◌≡◌, refl}
use mathlib.Core.Logic.{◌≢◌}
use mathlib.Core.Option.{Option, none, some}
use mathlib.Core.List.{List, [], ◌∷◌}
use native.Mathlib.Omega.{arith}
use mathlib.Core.Bool.{Bool}
use code_astra.Base.Tests.{if◌then◌else◌}
use code_astra.Base.Equality.{Eq, ◌==◌}
use code_astra.Base.Lists.{All}

abbrev pub Dict {ℓ κ} : Type ℓ → Type κ → Type (ℓ ⊔ κ)
Dict K V = List (K × V)

module _ {ℓ κ} {K : Type ℓ} {V : Type κ} ⦃e : Eq K⦄ where
  -- `d.get(k)`
  unfoldable pub lookup : K → Dict K V → Option V
  lookup k [] = none
  lookup k ((j, v) ∷ d) = if k == j then some v else lookup k d

  -- `d[k] = v`: in place if the key is there, else at the end.
  unfoldable pub insert : K → V → Dict K V → Dict K V
  insert k v [] = (k, v) ∷ []
  insert k v ((j, w) ∷ d) = if k == j then (k, v) ∷ d else (j, w) ∷ insert k v d

  -- `d.pop(k, None)`; every entry of the key goes, and a dictionary has at most one.
  unfoldable pub erase : K → Dict K V → Dict K V
  erase k [] = []
  erase k ((j, w) ∷ d) = let rest = erase k d in if k == j then rest else (j, w) ∷ rest

  abbrev pub keys : Dict K V → List K
  keys [] = []
  keys ((k, _) ∷ d) = k ∷ keys d

  -- `d.values()`
  abbrev pub values : Dict K V → List V
  values [] = []
  values ((_, v) ∷ d) = v ∷ values d

  -- No key is there twice.
  abbrev pub NodupKeys : Dict K V → Type κ
  NodupKeys [] = Unit
  NodupKeys ((k, _) ∷ d) = (lookup k d ≡ none) × NodupKeys d

  pub lookup-insert :
      (j k : K) (v : V) (d : Dict K V)
      → lookup j (insert k v d) ≡ (if j == k then some v else lookup j d)
  unfolding insert lookup
  lookup-insert j k v [] = ground arith
  lookup-insert j k v (_ ∷ d) = ground (arith, lookup-insert j k v d)

  pub lookup-erase :
      (j k : K) (d : Dict K V) → lookup j (erase k d) ≡ (if j == k then none else lookup j d)
  unfolding erase lookup
  lookup-erase j k [] = ground arith
  lookup-erase j k (_ ∷ d) = ground (arith, lookup-erase j k d)

  pub lookup-insert_self : (k : K) (v : V) (d : Dict K V) → lookup k (insert k v d) ≡ some v
  lookup-insert_self k v d = ground (arith, lookup-insert k k v d)

  pub lookup-erase_self : (k : K) (d : Dict K V) → lookup k (erase k d) ≡ none
  lookup-erase_self k d = ground (arith, lookup-erase k k d)

  pub lookup-insert_ne :
      (j k : K) (v : V) (d : Dict K V) → j ≢ k → lookup j (insert k v d) ≡ lookup j d
  lookup-insert_ne j k v d h = ground (arith, lookup-insert j k v d)

  pub lookup-erase_ne : (j k : K) (d : Dict K V) → j ≢ k → lookup j (erase k d) ≡ lookup j d
  lookup-erase_ne j k d h = ground (arith, lookup-erase j k d)

  pub insert-NodupKeys : (k : K) (v : V) (d : Dict K V) → NodupKeys d → NodupKeys (insert k v d)
  unfolding insert lookup
  insert-NodupKeys k v [] h = (refl, tt)
  insert-NodupKeys k v ((j, _) ∷ d) (fresh, u) =
      ground (arith, insert-NodupKeys k v d u, lookup-insert j k v d)

  pub erase-NodupKeys : (k : K) (d : Dict K V) → NodupKeys d → NodupKeys (erase k d)
  unfolding erase
  erase-NodupKeys k [] h = tt
  erase-NodupKeys k ((j, _) ∷ d) (fresh, u) =
      ground (arith, erase-NodupKeys k d u, lookup-erase j k d)

-- A comprehension that keeps entries by their key and value.
abbrev pub keep_entries {ℓ κ} : {K : Type ℓ} {V : Type κ} → (K → V → Bool) → Dict K V → Dict K V
keep_entries p [] = []
keep_entries p ((k, v) ∷ d) = let rest = keep_entries p d in if p k v then (k, v) ∷ rest else rest

module _ {ℓ κ ν} {K : Type ℓ} {V : Type κ} ⦃e : Eq K⦄ where
  pub keys-insert :
      (P : K → Type ν) (k : K) (v : V) (d : Dict K V)
      → P k
      → All P (keys d)
      → All P (keys (insert k v d))
  unfolding insert
  keys-insert P k v [] p h = (p, tt)
  keys-insert P k v ((j, w) ∷ d) p h = ground (arith, p, h, keys-insert P k v d p h.1)

module _ {ℓ κ} {K : Type ℓ} {V : Type κ} ⦃e : Eq K⦄ where
  -- An entry of no key that is there twice is found under its key.
  pub lookup-entries :
      (d : Dict K V) → NodupKeys d → All (λ (entry : K × V). lookup entry.0 d ≡ some entry.1) d
  unfolding lookup
  lookup-entries [] h = tt
  lookup-entries ((j, w) ∷ d) (fresh, h) = (ground arith, later d (lookup-entries d h))
    where
      later :
          (rest : Dict K V)
          → All (λ (entry : K × V). lookup entry.0 d ≡ some entry.1) rest
          → All (λ (entry : K × V). lookup entry.0 ((j, w) ∷ d) ≡ some entry.1) rest
      later [] a = tt
      later ((k, v) ∷ rest) a = (ground (arith, a.0, fresh), later rest a.1)

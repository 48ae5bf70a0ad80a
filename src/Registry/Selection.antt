-- ===== src/Registry/Selection.antt =====
-- Which endpoint a pass of `acquire` picks: what the candidates and the eligible states are, and
-- that `min` finds a least one.
use code_astra.Base.{
  ℕ, ◌≡◌, ◌≢◌, refl, sym, subst, ◌∙◌, String, Bool, true, false, List, [], ◌∷◌, none, some,
  string_eq, nat_eq, if◌then◌else◌, arith, Option-cases, Bool-cases, inl, inr,
}
use mathlib.Core.Option.{some-injective}
use code_astra.Base.TextOrder.{text_lt_trans, text_lt_irrefl}
use code_astra.Base.Lists.{All}
use code_astra.Base.Dict.{Dict, lookup, NodupKeys}
use code_astra.Registry.{
  AsyncInstanceState, EndpointCapacity, available, refreshed, candidates, has_capacity, eligible,
  lighter, lightest,
}

pub lighter_trans :
    (a b c : AsyncInstanceState) → lighter a b ≡ true → lighter b c ≡ true → lighter a c ≡ true
unfolding lighter
lighter_trans a b c p q = ground (arith, text_lt_trans a.endpoint b.endpoint c.endpoint)

lighter_irrefl : (a : AsyncInstanceState) → lighter a a ≡ false
unfolding lighter
lighter_irrefl a = ground (arith, text_lt_irrefl a.endpoint)

-- No state of the list comes before the one picked.
abbrev pub NotAfter : AsyncInstanceState → AsyncInstanceState → Type 0
NotAfter best st = lighter st best ≡ false

module _ {ℓ} (P : AsyncInstanceState → Type ℓ) where
  -- The pick is one of the list.
  pub lightest-All :
      (best : AsyncInstanceState) (l : List AsyncInstanceState)
      → P best
      → All P l
      → P (lightest best l)
  unfolding lightest
  lightest-All best [] p h = p
  lightest-All best (st ∷ l) p h = elim (Bool-cases (lighter st best)) [
    | inl less ↦ rw less (lightest-All st l h.0 h.1)
    | inr not_less ↦ rw not_less (lightest-All best l p h.1)
  ]

lightest-keeps :
    (x best : AsyncInstanceState) (l : List AsyncInstanceState)
    → NotAfter best x
    → NotAfter (lightest best l) x
unfolding lightest
lightest-keeps x best [] h = h
lightest-keeps x best (st ∷ l) h = elim (Bool-cases (lighter st best)) [
  | inl less ↦ rw less (lightest-keeps x st l (ground (arith, lighter_trans x st best)))
  | inr not_less ↦ rw not_less (lightest-keeps x best l h)
]

lightest-rest :
    (best : AsyncInstanceState) (l : List AsyncInstanceState) → All (NotAfter (lightest best l)) l
unfolding lightest
lightest-rest best [] = tt
lightest-rest best (st ∷ l) = elim (Bool-cases (lighter st best)) [
  | inl less ↦
      subst All_rest (sym less) (lightest-keeps st st l (lighter_irrefl st), lightest-rest st l)
  | inr not_less ↦
      subst All_rest (sym not_less) (lightest-keeps st best l not_less, lightest-rest best l)
]
  where
    All_rest : Bool → Type 0
    All_rest b = All (NotAfter (lightest (if b then st else best) l)) (st ∷ l)

pub lightest-least :
    (best : AsyncInstanceState) (l : List AsyncInstanceState)
    → All (NotAfter (lightest best l)) (best ∷ l)
lightest-least best l = (lightest-keeps best best l (lighter_irrefl best), lightest-rest best l)

-- A candidate is the refreshed state of an endpoint that is available.
pub record Candidate (cooldown : ℕ) (clock : String → ℕ) (d : Dict String AsyncInstanceState)
    (st : AsyncInstanceState) : Type 0 where
  pub old : AsyncInstanceState
  pub found : lookup st.endpoint d ≡ some old
  pub same : refreshed cooldown (clock st.endpoint) old ≡ st
  pub free : available cooldown (clock st.endpoint) old ≡ true

pub All-weaken {ℓ κ} :
    {P : AsyncInstanceState → Type ℓ} {Q : AsyncInstanceState → Type κ}
    (l : List AsyncInstanceState)
    → ((st : AsyncInstanceState) → P st → Q st)
    → All P l
    → All Q l
All-weaken [] f h = tt
All-weaken (st ∷ l) f h = (f st h.0, All-weaken l f h.1)

All-if {ℓ} :
    (P : AsyncInstanceState → Type ℓ) (b : Bool) (st : AsyncInstanceState)
    (l : List AsyncInstanceState)
    → (b ≡ true → P st)
    → All P l
    → All P (if b then st ∷ l else l)
All-if P true st l f h = (f refl, h)
All-if P false st l f h = h

All-if_head {ℓ} :
    (P : AsyncInstanceState → Type ℓ) (b : Bool) (st : AsyncInstanceState)
    (l : List AsyncInstanceState)
    → b ≡ true
    → All P (if b then st ∷ l else l)
    → P st
All-if_head P true st l e h = h.0
All-if_head P false st l e h = cc

All-if_tail {ℓ} :
    (P : AsyncInstanceState → Type ℓ) (b : Bool) (st : AsyncInstanceState)
    (l : List AsyncInstanceState)
    → All P (if b then st ∷ l else l)
    → All P l
All-if_tail P true st l h = h.1
All-if_tail P false st l h = h

module _ (cooldown : ℕ) (clock : String → ℕ) where
  endpoint-refreshed :
      (now : ℕ) (st : AsyncInstanceState) → (refreshed cooldown now st).endpoint ≡ st.endpoint
  unfolding refreshed
  endpoint-refreshed now st = ground arith

  Candidate-cons :
      (k : String) (first : AsyncInstanceState) (d : Dict String AsyncInstanceState)
      (st : AsyncInstanceState)
      → lookup k d ≡ none
      → Candidate cooldown clock d st
      → Candidate cooldown clock ((k, first) ∷ d) st
  unfolding lookup
  Candidate-cons k first d st fresh c = record {
    old = c.old;
    found = elsewhere;
    same = c.same;
    free = c.free;
  }
    where
      elsewhere : lookup st.endpoint ((k, first) ∷ d) ≡ some c.old
      elsewhere = ground (arith, c.found)

  Candidate-head :
      (k : String) (st : AsyncInstanceState) (d : Dict String AsyncInstanceState)
      → st.endpoint ≡ k
      → available cooldown (clock k) st ≡ true
      → Candidate cooldown clock ((k, st) ∷ d) (refreshed cooldown (clock k) st)
  unfolding lookup refreshed available
  Candidate-head k st d named free = record {
    old = st;
    found = rw (endpoint-refreshed (clock k) st, named) (ground arith);
    same = rw (endpoint-refreshed (clock k) st, named);
    free = rw (endpoint-refreshed (clock k) st, named) free;
  }

  pub candidates-All :
      (d : Dict String AsyncInstanceState)
      → NodupKeys d
      → ((e : String) (st : AsyncInstanceState) → lookup e d ≡ some st → st.endpoint ≡ e)
      → All (Candidate cooldown clock d) (candidates cooldown clock d)
  unfolding candidates lookup
  candidates-All [] n named = tt
  candidates-All ((k, st) ∷ d) n named =
      All-if _ (available cooldown (clock k) st) (refreshed cooldown (clock k) st)
        (candidates cooldown clock d)
        (λ free. Candidate-head k st d (named k st (ground arith)) free)
        (All-weaken _ (λ x. Candidate-cons k st d x n.0)
          (candidates-All d n.1 (λ e x h. named e x (ground (arith, n.0)))))

  -- What holds of all candidates holds of the refreshed state of every available endpoint.
  pub available-All {ℓ} :
      (P : AsyncInstanceState → Type ℓ) (d : Dict String AsyncInstanceState)
      → All P (candidates cooldown clock d)
      → (e : String) (old : AsyncInstanceState) → lookup e d ≡ some old
      → available cooldown (clock e) old ≡ true
      → P (refreshed cooldown (clock e) old)
  unfolding candidates lookup
  available-All P [] h e old found free = absurd (ground arith)
  available-All P ((k, st) ∷ d) h e old found free = elim (string_eq.dec e k) [
    | yes here ↦
        subst (λ j. P (refreshed cooldown (clock j) old)) (sym here)
          (subst (λ x. P (refreshed cooldown (clock k) x)) (first here)
            (All-if_head P (available cooldown (clock k) st) _ (candidates cooldown clock d)
              (usable here) h))
    | no there ↦
        available-All P d
          (All-if_tail P (available cooldown (clock k) st) (refreshed cooldown (clock k) st) _ h) e
          old (further there) free
  ]
    where
      first : e ≡ k → st ≡ old
      first here = ground arith

      usable : e ≡ k → available cooldown (clock k) st ≡ true
      usable here = rw (← here, first here) free

      further : e ≢ k → lookup e d ≡ some old
      further there = ground arith

module _ (capacities : Dict String EndpointCapacity) (p t : ℕ) where
  eligible-cons :
      (st : AsyncInstanceState) (l es : List AsyncInstanceState)
      → eligible capacities p t (st ∷ l) ≡ some es
      → (c : EndpointCapacity) × (rest : List AsyncInstanceState) × (lookup st.endpoint capacities
          ≡ some c)
        × (eligible capacities p t l ≡ some rest)
        × ((if has_capacity c p t st then st ∷ rest else rest) ≡ es)
  unfolding eligible
  eligible-cons st l es h = elim (Option-cases (lookup st.endpoint capacities)) [
    | inl p ↦ absurd (ground arith)
    | inr (c, found) ↦ elim (Option-cases (eligible capacities p t l)) [
      | inl q ↦ absurd (ground arith)
      | inr (rest, tail) ↦ (c, rest, found, tail, ground arith)
    ]
  ]

  -- The eligible states are the candidates with room.
  pub eligible-All {ℓ} :
      (P : AsyncInstanceState → Type ℓ) (l es : List AsyncInstanceState)
      → All P l
      → eligible capacities p t l ≡ some es
      → All
          (λ st.
            P st
            × ((c : EndpointCapacity) × (lookup st.endpoint capacities ≡ some c)
                × (has_capacity c p t st ≡ true)))
          es
  unfolding eligible
  eligible-All P [] es h e = subst (All _) (some-injective _ _ e) tt
  eligible-All P (st ∷ l) es h e =
      let (c, rest, found, tail, same) = eligible-cons st l es e in
      subst (All _) same (
        All-if _ (has_capacity c p t st) st rest (λ room. (h.0, (c, found, room)))
          (eligible-All P l rest h.1 tail))

  pub roomy-All {ℓ} :
      (P : AsyncInstanceState → Type ℓ) (l es : List AsyncInstanceState)
      → eligible capacities p t l ≡ some es
      → All P es
      → All
          (λ st.
            (c : EndpointCapacity)
            → lookup st.endpoint capacities ≡ some c
            → has_capacity c p t st ≡ true
            → P st)
          l
  roomy-All P [] es e h = tt
  roomy-All P (st ∷ l) es e h =
      let (c, rest, found, tail, same) = eligible-cons st l es e in
      let kept = subst (All P) (sym same) h in
      (
        λ c' found' room.
            All-if_head P (has_capacity c p t st) st rest
              (subst (λ x. has_capacity x p t st ≡ true) (some-injective _ _ (sym found' ∙ found))
                room)
              kept,
        roomy-All P l rest tail (All-if_tail P (has_capacity c p t st) st rest kept),
      )

  -- Without an answer some candidate has no capacity.
  pub eligible-none {ℓ} :
      (P : AsyncInstanceState → Type ℓ) (l : List AsyncInstanceState)
      → All P l
      → eligible capacities p t l ≡ none
      → (st : AsyncInstanceState) × P st × (lookup st.endpoint capacities ≡ none)
  unfolding eligible
  eligible-none P [] h e = absurd (ground arith)
  eligible-none P (st ∷ l) h e = elim (Option-cases (lookup st.endpoint capacities)) [
    | inl missing ↦ (st, h.0, missing)
    | inr (c, found) ↦ eligible-none P l h.1 (tail c found)
  ]
    where
      tail :
          (c : EndpointCapacity)
          → lookup st.endpoint capacities ≡ some c
          → eligible capacities p t l ≡ none
      tail c found = ground arith

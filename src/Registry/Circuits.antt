-- ===== src/Registry/Circuits.antt =====
-- The words of the registry's contract, in its numbers alone, and what the code's tests say in them.
use code_astra.Base.{
  ℕ, ◌+◌, ◌≤◌, ◌<◌, ◌≡◌, refl, String, true, false, none, some, string_eq, nat_eq, text_lt, ltb,
  arith, Option-cases, Bool-cases, inl, inr, ◌⊎◌,
}
use code_astra.Base.Dict.{lookup}
use code_astra.Registry.{
  AsyncInstanceRegistry, AsyncInstanceState, EndpointCapacity, available, refreshed, has_capacity,
  lighter,
}
use code_astra.Registry.Methods.{refresh}
use code_astra.Registry.Invariant.{lookup-refresh_all}

-- The circuit was opened, and the cooldown is over.
abbrev pub HasCooled : ℕ → ℕ → AsyncInstanceState → Type 0
HasCooled cooldown now st =
    (opened : ℕ) × (st.circuit_opened_at ≡ some opened) × (opened + cooldown < now)

-- The circuit was opened, and the cooldown is not over.
abbrev pub IsOpen : ℕ → ℕ → AsyncInstanceState → Type 0
IsOpen cooldown now st =
    (opened : ℕ) × (st.circuit_opened_at ≡ some opened) × (now ≤ opened + cooldown)

-- The circuit is closed, or has cooled down.
abbrev pub CanServe : ℕ → ℕ → AsyncInstanceState → Type 0
CanServe cooldown now st = (st.circuit_opened_at ≡ none) ⊎ HasCooled cooldown now st

-- What a pass makes of a state that it looks at: a circuit that has cooled down is closed and its
-- failures are forgotten, and any other state stays as it is.
abbrev pub SeenAs : ℕ → ℕ → AsyncInstanceState → AsyncInstanceState → Type 0
SeenAs cooldown now old st =
    (HasCooled cooldown now old
      × (st ≡ record old { circuit_opened_at = none; consecutive_failures = 0 }))
    ⊎ (((old.circuit_opened_at ≡ none) ⊎ IsOpen cooldown now old) × (st ≡ old))

-- Endpoint `e` is in `s` as the pass saw it in `r`.
abbrev pub SameButCooled :
    (String → ℕ) → AsyncInstanceRegistry → AsyncInstanceRegistry → String → Type 0
SameButCooled clock r s e =
    ((lookup e r.states ≡ none) × (lookup e s.states ≡ none))
    ⊎ ((old : AsyncInstanceState) × (st : AsyncInstanceState) × (lookup e r.states ≡ some old)
        × (lookup e s.states ≡ some st)
        × SeenAs r.cooldown (clock e) old st)

-- One more request, with these prompt and total tokens, is within the limits.
pub record HasRoom (c : EndpointCapacity) (p t : ℕ) (st : AsyncInstanceState) : Type 0 where
  pub requests : st.inflight_requests < c.max_concurrency
  pub prompts : st.inflight_prompt_tokens + p ≤ c.max_inflight_prompt_tokens
  pub totals : st.inflight_total_tokens + t ≤ c.max_inflight_total_tokens

-- `a` has no more tokens in flight than `b`; of as many, no more requests; of as many, a name that
-- is not after that of `b`.
abbrev pub NotHeavier : AsyncInstanceState → AsyncInstanceState → Type 0
NotHeavier a b =
    (a.inflight_total_tokens < b.inflight_total_tokens)
    ⊎ ((a.inflight_total_tokens ≡ b.inflight_total_tokens)
        × ((a.inflight_requests < b.inflight_requests)
            ⊎ ((a.inflight_requests ≡ b.inflight_requests)
                × (text_lt b.endpoint a.endpoint ≡ false))))

pub available-CanServe :
    (cooldown now : ℕ) (st : AsyncInstanceState)
    → available cooldown now st ≡ true
    → CanServe cooldown now st
unfolding available
available-CanServe cooldown now st h = elim (Option-cases st.circuit_opened_at) [
  | inl closed ↦ inl closed
  | inr (opened, e) ↦ inr (opened, e, ground arith)
]

pub CanServe-available :
    (cooldown now : ℕ) (st : AsyncInstanceState)
    → CanServe cooldown now st
    → available cooldown now st ≡ true
unfolding available
CanServe-available cooldown now st (inl closed) = rw closed refl
CanServe-available cooldown now st (inr (opened, e, over)) = rw e (ground arith)

pub unavailable-IsOpen :
    (cooldown now : ℕ) (st : AsyncInstanceState)
    → available cooldown now st ≡ false
    → IsOpen cooldown now st
unfolding available
unavailable-IsOpen cooldown now st h = elim (Option-cases st.circuit_opened_at) [
  | inl closed ↦ absurd (ground arith)
  | inr (opened, e) ↦ (opened, e, ground arith)
]

pub refreshed-SeenAs :
    (cooldown now : ℕ) (old : AsyncInstanceState)
    → SeenAs cooldown now old (refreshed cooldown now old)
unfolding refreshed
refreshed-SeenAs cooldown now old = elim (Option-cases old.circuit_opened_at) [
  | inl closed ↦ inr (inl closed, rw closed refl)
  | inr (opened, e) ↦ elim (Bool-cases (ltb (opened + cooldown) now)) [
    | inl over ↦ inl ((opened, e, ground arith), rw (e, over) refl)
    | inr early ↦ inr (inr (opened, e, ground arith), rw (e, early) refl)
  ]
]

pub refresh-SameButCooled :
    (clock : String → ℕ) (r : AsyncInstanceRegistry) (e : String)
    → SameButCooled clock r (refresh clock r) e
refresh-SameButCooled clock r e = elim (Option-cases (lookup e r.states)) [
  | inl gone ↦ inl (gone, ground (arith, lookup-refresh_all r.cooldown clock e r.states))
  | inr (old, found) ↦ inr (
    old,
    refreshed r.cooldown (clock e) old,
    found,
    ground (arith, lookup-refresh_all r.cooldown clock e r.states),
    refreshed-SeenAs r.cooldown (clock e) old,
  )
]

module _ (c : EndpointCapacity) (p t : ℕ) (st : AsyncInstanceState) where
  pub has_capacity-HasRoom : has_capacity c p t st ≡ true → HasRoom c p t st
  unfolding has_capacity
  has_capacity-HasRoom h = record {
    requests = ground arith;
    prompts = ground arith;
    totals = ground arith;
  }

  pub HasRoom-has_capacity : HasRoom c p t st → has_capacity c p t st ≡ true
  unfolding has_capacity
  HasRoom-has_capacity h = ground (arith, h.requests, h.prompts, h.totals)

pub lighter-NotHeavier : (a b : AsyncInstanceState) → lighter b a ≡ false → NotHeavier a b
unfolding lighter
lighter-NotHeavier a b h = ground arith

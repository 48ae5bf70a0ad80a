-- ===== src/Registry.antt =====
-- src/code_review/infrastructure/sglang/registry.py, `AsyncInstanceRegistry`, and the capacities of
-- capacity.py beside it. Each method holds the condition's lock between two waits, so one pass of
-- `acquire` is one step: it leases, it raises, or it waits and is tried again after a notification.
-- Token counts are natural numbers, times are in microseconds. The clock is a parameter: the
-- reading taken for each endpoint in a pass. The id that uuid4 draws is an argument.
pub mod Methods
pub mod Invariant
pub mod Selection
pub mod Leasing
pub mod Acquire
pub mod Circuits
pub mod Picking
pub mod Release
pub mod History
pub mod Breaker
mod Tests
use code_astra.Base.{
  ℕ, suc, ◌+◌, ◌-◌, String, Bool, true, false, not, ◌&&◌, ◌||◌, List, [], ◌∷◌, map, Option, none,
  some, ltb, leb, ◌==◌, string_eq, nat_eq, text_lt, if◌then◌else◌,
}
use code_astra.Base.Lists.{filter}
use code_astra.Base.Dict.{Dict, lookup, insert, erase}
use code_astra.Base.Result.{Result, ok, err}

pub record EndpointCapacity : Type 0 where
  pub max_concurrency : ℕ
  pub max_inflight_prompt_tokens : ℕ
  pub max_inflight_total_tokens : ℕ

pub record InstanceLease : Type 0 where
  pub lease_id : String
  pub endpoint : String
  pub estimated_tokens : ℕ

pub record AsyncInstanceState : Type 0 where
  pub endpoint : String
  pub inflight_requests : ℕ
  pub inflight_prompt_tokens : ℕ
  pub inflight_total_tokens : ℕ
  pub consecutive_failures : ℕ
  pub circuit_opened_at : Option ℕ

pub record AsyncInstanceRegistry : Type 0 where
  pub states : Dict String AsyncInstanceState
  pub failure_threshold : ℕ
  pub cooldown : ℕ
  pub leases : Dict String (InstanceLease × ℕ)
  pub capacities : Dict String EndpointCapacity

abbrev pub fresh_state : String → AsyncInstanceState
fresh_state endpoint = record {
  endpoint = endpoint;
  inflight_requests = 0;
  inflight_prompt_tokens = 0;
  inflight_total_tokens = 0;
  consecutive_failures = 0;
  circuit_opened_at = none;
}

abbrev pub default_capacity : EndpointCapacity
default_capacity = record {
  max_concurrency = 64;
  max_inflight_prompt_tokens = 1_000_000_000;
  max_inflight_total_tokens = 1_000_000_000;
}

-- `{endpoint: value(endpoint) for endpoint in endpoints}`, from the dictionary built so far.
unfoldable pub by_endpoint :
    {V : Type 0} → (String → V) → List String → Dict String V → Dict String V
by_endpoint value [] d = d
by_endpoint value (endpoint ∷ rest) d = by_endpoint value rest (insert endpoint (value endpoint) d)

abbrev capacities_of :
    Option (Dict String EndpointCapacity) → List String → Dict String EndpointCapacity
capacities_of none endpoints = by_endpoint (λ _. default_capacity) endpoints []
capacities_of (some profile) endpoints = profile

unfoldable pub init :
    List String → ℕ → ℕ → Option (Dict String EndpointCapacity) → AsyncInstanceRegistry
unfolding by_endpoint
init endpoints failure_threshold cooldown profile = record {
  states = by_endpoint fresh_state endpoints [];
  failure_threshold = failure_threshold;
  cooldown = cooldown;
  leases = [];
  capacities = capacities_of profile endpoints;
}

-- `_available`: the test, and the state with its circuit closed again after the cooldown.
unfoldable pub available : ℕ → ℕ → AsyncInstanceState → Bool
available cooldown now state = elim state.circuit_opened_at [
  | none ↦ true
  | some opened ↦ ltb (opened + cooldown) now
]

unfoldable pub refreshed : ℕ → ℕ → AsyncInstanceState → AsyncInstanceState
refreshed cooldown now state = elim state.circuit_opened_at [
  | none ↦ state
  | some opened ↦
      if ltb (opened + cooldown) now
      then record state { circuit_opened_at = none; consecutive_failures = 0 }
      else state
]

-- The states after the first comprehension of a pass, and the candidates that it lists.
unfoldable pub refresh_all :
    ℕ → (String → ℕ) → Dict String AsyncInstanceState → Dict String AsyncInstanceState
refresh_all cooldown clock [] = []
refresh_all cooldown clock ((k, state) ∷ d) =
    (k, refreshed cooldown (clock k) state) ∷ refresh_all cooldown clock d

unfoldable pub candidates :
    ℕ → (String → ℕ) → Dict String AsyncInstanceState → List AsyncInstanceState
candidates cooldown clock [] = []
candidates cooldown clock ((k, state) ∷ d) =
    let rest = candidates cooldown clock d in
    if available cooldown (clock k) state then refreshed cooldown (clock k) state ∷ rest else rest

unfoldable pub has_capacity : EndpointCapacity → ℕ → ℕ → AsyncInstanceState → Bool
has_capacity capacity prompt_tokens total_tokens state =
    ltb state.inflight_requests capacity.max_concurrency
    && (leb (state.inflight_prompt_tokens + prompt_tokens) capacity.max_inflight_prompt_tokens
        && leb (state.inflight_total_tokens + total_tokens) capacity.max_inflight_total_tokens)

abbrev keep_if {ℓ} : {A : Type ℓ} → Bool → A → Option (List A) → Option (List A)
keep_if b a none = none
keep_if true a (some rest) = some (a ∷ rest)
keep_if false a (some rest) = some rest

-- The second comprehension; `none` where an endpoint has no capacity, a KeyError.
unfoldable pub eligible :
    Dict String EndpointCapacity
    → ℕ
    → ℕ
    → List AsyncInstanceState
    → Option (List AsyncInstanceState)
eligible capacities prompt_tokens total_tokens [] = some []
eligible capacities prompt_tokens total_tokens (state ∷ states) =
    let rest = eligible capacities prompt_tokens total_tokens states in
    elim (lookup state.endpoint capacities) [
      | none ↦ none
      | some capacity ↦ keep_if (has_capacity capacity prompt_tokens total_tokens state) state rest
    ]

-- The order of the tuples that `min` compares.
unfoldable pub lighter : AsyncInstanceState → AsyncInstanceState → Bool
lighter a b =
    if ltb a.inflight_total_tokens b.inflight_total_tokens
    then true
    else if ltb b.inflight_total_tokens a.inflight_total_tokens
    then false
    else if ltb a.inflight_requests b.inflight_requests
    then true
    else if ltb b.inflight_requests a.inflight_requests
    then false
    else text_lt a.endpoint b.endpoint

-- `min`: the first of the least.
unfoldable pub lightest : AsyncInstanceState → List AsyncInstanceState → AsyncInstanceState
lightest best [] = best
lightest best (state ∷ states) = lightest (if lighter state best then state else best) states

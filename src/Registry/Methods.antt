-- ===== src/Registry/Methods.antt =====
-- The methods of `AsyncInstanceRegistry`: one pass of `acquire`, the three releases, `snapshot`.
use code_astra.Base.{
  ℕ, ◌+◌, ◌-◌, String, Bool, true, false, List, [], ◌∷◌, Option, none, some, leb, ◌==◌, string_eq,
  nat_eq, if◌then◌else◌,
}
use code_astra.Base.Dict.{Dict, lookup, insert, erase}
use code_astra.Base.Result.{Result, ok, err}
use code_astra.Registry.{
  AsyncInstanceRegistry, AsyncInstanceState, InstanceLease, candidates, refresh_all, eligible,
  lightest,
}

pub data Fault : Type 0 where
  all_instances_unavailable key_error unknown_instance_lease : Fault

pub data Pass : Type 0 where
  leased : InstanceLease → AsyncInstanceRegistry → Pass
  waits : AsyncInstanceRegistry → Pass
  raises : Fault → AsyncInstanceRegistry → Pass

abbrev pub reserve : ℕ → ℕ → AsyncInstanceState → AsyncInstanceState
reserve estimated_tokens prompt_tokens state = record state {
  inflight_requests = state.inflight_requests + 1;
  inflight_prompt_tokens = state.inflight_prompt_tokens + prompt_tokens;
  inflight_total_tokens = state.inflight_total_tokens + estimated_tokens;
}

-- `selected` is the object that `states` holds under its endpoint, so the update shows there.
abbrev pub lease_to : String → ℕ → ℕ → AsyncInstanceState → AsyncInstanceRegistry → Pass
lease_to lease_id estimated_tokens prompt_tokens selected r =
    let lease : InstanceLease = record {
      lease_id = lease_id;
      endpoint = selected.endpoint;
      estimated_tokens = estimated_tokens;
    } in
    leased lease (record r {
      states = insert selected.endpoint (reserve estimated_tokens prompt_tokens selected) r.states;
      leases = insert lease_id (lease, prompt_tokens) r.leases;
    })

abbrev pub choose : String → ℕ → ℕ → Option (List AsyncInstanceState) → AsyncInstanceRegistry → Pass
choose lease_id estimated_tokens prompt_tokens none r = raises key_error r
choose lease_id estimated_tokens prompt_tokens (some []) r = waits r
choose lease_id estimated_tokens prompt_tokens (some (state ∷ states)) r =
    lease_to lease_id estimated_tokens prompt_tokens (lightest state states) r

abbrev pub select : String → ℕ → ℕ → List AsyncInstanceState → AsyncInstanceRegistry → Pass
select lease_id estimated_tokens prompt_tokens [] r = raises all_instances_unavailable r
select lease_id estimated_tokens prompt_tokens (state ∷ states) r =
    choose lease_id estimated_tokens prompt_tokens
      (eligible r.capacities prompt_tokens estimated_tokens (state ∷ states)) r

abbrev pub refresh : (String → ℕ) → AsyncInstanceRegistry → AsyncInstanceRegistry
refresh clock r = record r { states = refresh_all r.cooldown clock r.states }

unfoldable pub acquire : String → (String → ℕ) → ℕ → ℕ → AsyncInstanceRegistry → Pass
unfolding candidates refresh_all eligible lightest
acquire lease_id clock estimated_tokens prompt_tokens r =
    select lease_id estimated_tokens prompt_tokens (candidates r.cooldown clock r.states)
      (refresh clock r)

-- `max(0, a - b)` is the subtraction of the natural numbers.
abbrev pub unreserve : InstanceLease → ℕ → AsyncInstanceState → AsyncInstanceState
unreserve stored prompt_tokens state = record state {
  inflight_requests = state.inflight_requests - 1;
  inflight_prompt_tokens = state.inflight_prompt_tokens - prompt_tokens;
  inflight_total_tokens = state.inflight_total_tokens - stored.estimated_tokens;
}

-- `_release_reservation` on the state of the lease's endpoint, then the method's own `finish`. The
-- stored lease is popped before it is tested.
abbrev pub settle :
    (AsyncInstanceState → AsyncInstanceState)
    → InstanceLease
    → AsyncInstanceState
    → Option (InstanceLease × ℕ)
    → AsyncInstanceRegistry
    → Result Fault (Unit {0}) × AsyncInstanceRegistry
settle finish lease state none r = (err unknown_instance_lease, r)
settle finish lease state (some (stored, prompt_tokens)) r =
    let popped = record r { leases = erase lease.lease_id r.leases } in
    if stored.endpoint == lease.endpoint
    then (
      ok tt,
      record popped {
        states = insert lease.endpoint (finish (unreserve stored prompt_tokens state)) r.states;
      },
    )
    else (err unknown_instance_lease, popped)

abbrev pub release_at :
    (AsyncInstanceState → AsyncInstanceState)
    → InstanceLease
    → Option AsyncInstanceState
    → AsyncInstanceRegistry
    → Result Fault (Unit {0}) × AsyncInstanceRegistry
release_at finish lease none r = (err key_error, r)
release_at finish lease (some state) r =
    settle finish lease state (lookup lease.lease_id r.leases) r

abbrev pub release :
    (AsyncInstanceState → AsyncInstanceState)
    → InstanceLease
    → AsyncInstanceRegistry
    → Result Fault (Unit {0}) × AsyncInstanceRegistry
release finish lease r = release_at finish lease (lookup lease.endpoint r.states) r

abbrev pub healed : AsyncInstanceState → AsyncInstanceState
healed state = record state { consecutive_failures = 0; circuit_opened_at = none }

abbrev pub failing : ℕ → ℕ → AsyncInstanceState → AsyncInstanceState
failing threshold now state =
    let failures = state.consecutive_failures + 1 in
    record state {
      consecutive_failures = failures;
      circuit_opened_at = if leb threshold failures then some now else state.circuit_opened_at;
    }

unfoldable pub release_success :
    InstanceLease → AsyncInstanceRegistry → Result Fault (Unit {0}) × AsyncInstanceRegistry
release_success lease r = release healed lease r

unfoldable pub release_failure :
    ℕ → InstanceLease → AsyncInstanceRegistry → Result Fault (Unit {0}) × AsyncInstanceRegistry
release_failure now lease r = release (failing r.failure_threshold now) lease r

unfoldable pub release_neutral :
    InstanceLease → AsyncInstanceRegistry → Result Fault (Unit {0}) × AsyncInstanceRegistry
release_neutral lease r = release (λ state. state) lease r

pub record InstanceSnapshot : Type 0 where
  pub endpoint : String
  pub inflight_requests : ℕ
  pub inflight_tokens : ℕ
  pub circuit_open : Bool

abbrev is_open : Option ℕ → Bool
is_open none = false
is_open (some _) = true

unfoldable pub snapshot : Dict String AsyncInstanceState → List InstanceSnapshot
snapshot [] = []
snapshot ((_, state) ∷ d) =
    record {
      endpoint = state.endpoint;
      inflight_requests = state.inflight_requests;
      inflight_tokens = state.inflight_total_tokens;
      circuit_open = is_open state.circuit_opened_at;
    }
    ∷ snapshot d

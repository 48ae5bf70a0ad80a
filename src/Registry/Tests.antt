-- ===== src/Registry/Tests.antt =====
-- Runs of the registry, and its theorems at concrete inputs.
use code_astra.Base.{
  ℕ, String, ◌≡◌, refl, ◌≢◌, inl, inr, [], ◌∷◌, Option, none, some, arith, string_eq, text_lt,
}
use code_astra.Base.Dict.{lookup, insert, erase}
use code_astra.Base.Result.{ok, err}
use code_astra.Registry.{
  AsyncInstanceRegistry, AsyncInstanceState, EndpointCapacity, InstanceLease, init, available,
  refreshed, has_capacity, lighter,
}
use code_astra.Registry.Methods.{
  unknown_instance_lease, leased, acquire, release_success, release_failure, release_neutral,
}
use code_astra.Registry.Invariant.{IsSound, init-IsSound}
use code_astra.Registry.Picking.{PickSpec, acquire_picks}
use code_astra.Registry.History.{here, next, acquires, after_pass, Reach-IsSound, acquire-IsSound}
use code_astra.Registry.Release.{IsGenuine}
use code_astra.Registry.Circuits.{SameButCooled}
use code_astra.Registry.Breaker.{release_twice, acquire_return, failure_shuts_out}

abbrev limits : EndpointCapacity
limits = record {
  max_concurrency = 2;
  max_inflight_prompt_tokens = 100;
  max_inflight_total_tokens = 200;
}

abbrev ten : String → ℕ
ten _ = 10

abbrev start : AsyncInstanceRegistry
start = init ("e1" ∷ "e2" ∷ []) 1 5 (some (("e1", limits) ∷ ("e2", limits) ∷ []))

abbrev first_lease : InstanceLease
first_lease = record { lease_id = "l1"; endpoint = "e1"; estimated_tokens = 60 }

abbrev state : String → ℕ → ℕ → ℕ → ℕ → Option ℕ → AsyncInstanceState
state endpoint requests prompts totals failures opened = record {
  endpoint = endpoint;
  inflight_requests = requests;
  inflight_prompt_tokens = prompts;
  inflight_total_tokens = totals;
  consecutive_failures = failures;
  circuit_opened_at = opened;
}

abbrev one_lease : AsyncInstanceRegistry
one_lease = record {
  states = ("e1", state "e1" 1 40 60 0 none) ∷ ("e2", state "e2" 0 0 0 0 none) ∷ [];
  failure_threshold = 1;
  cooldown = 5;
  leases = ("l1", (first_lease, 40)) ∷ [];
  capacities = ("e1", limits) ∷ ("e2", limits) ∷ [];
}

-- Both endpoints are idle, and the first name goes first.
first_pass : acquire "l1" ten 60 40 start ≡ leased first_lease one_lease
unfolding acquire available refreshed has_capacity lighter init lookup insert text_lt string_eq
first_pass = refl

one_lease-IsSound : IsSound one_lease
unfolding acquire available refreshed has_capacity lighter init lookup insert text_lt string_eq
one_lease-IsSound =
    acquire-IsSound "l1" ten 60 40 start
      (init-IsSound ("e1" ∷ "e2" ∷ []) 1 5 (some (("e1", limits) ∷ ("e2", limits) ∷ []))) refl

abbrev failed : AsyncInstanceRegistry
failed = record one_lease {
  states = ("e1", state "e1" 0 0 0 1 (some 10)) ∷ ("e2", state "e2" 0 0 0 0 none) ∷ [];
  leases = [];
}

failure : release_failure 10 first_lease one_lease ≡ (ok tt, failed)
unfolding release_failure lookup insert erase string_eq
failure = refl

-- The first endpoint's circuit is open, so the next lease goes to the second.
abbrev second_lease : InstanceLease
second_lease = record { lease_id = "l2"; endpoint = "e2"; estimated_tokens = 60 }

abbrev rerouted : AsyncInstanceRegistry
rerouted = record failed {
  states = ("e1", state "e1" 0 0 0 1 (some 10)) ∷ ("e2", state "e2" 1 40 60 0 none) ∷ [];
  leases = ("l2", (second_lease, 40)) ∷ [];
}

second_pass : acquire "l2" ten 60 40 failed ≡ leased second_lease rerouted
unfolding acquire available refreshed has_capacity lighter lookup insert text_lt string_eq
second_pass = refl

first_lease-IsGenuine : IsGenuine first_lease one_lease
unfolding lookup string_eq
first_lease-IsGenuine stored p h = ground arith

Reach-IsSound_example : IsSound (after_pass (acquire "l1" ten 60 40 start))
unfolding init lookup
Reach-IsSound_example =
    Reach-IsSound ("e1" ∷ "e2" ∷ []) 1 5 (some (("e1", limits) ∷ ("e2", limits) ∷ []))
      (next here (acquires "l1" ten 60 40 refl))

acquire_picks_example : PickSpec ten 60 40 one_lease "l2" (acquire "l2" ten 60 40 one_lease)
acquire_picks_example = acquire_picks ten 60 40 one_lease one_lease-IsSound "l2"

release_twice_example :
    (release_success first_lease failed ≡ (err unknown_instance_lease, failed))
    × (release_failure 12 first_lease failed ≡ (err unknown_instance_lease, failed))
    × (release_neutral first_lease failed ≡ (err unknown_instance_lease, failed))
release_twice_example = release_twice 10 12 first_lease one_lease failed (inr (inl failure))

acquire_return_example :
    (u : AsyncInstanceRegistry) × (release_neutral first_lease one_lease ≡ (ok tt, u))
    × ((e : String) → SameButCooled ten start u e)
    × ((k : String) → lookup k u.leases ≡ lookup k start.leases)
unfolding init lookup
acquire_return_example =
    acquire_return "l1" ten 60 40 start first_lease one_lease
      (init-IsSound ("e1" ∷ "e2" ∷ []) 1 5 (some (("e1", limits) ∷ ("e2", limits) ∷ []))) refl
      first_pass

failure_shuts_out_example : second_lease.endpoint ≢ first_lease.endpoint
unfolding lookup string_eq
failure_shuts_out_example =
    failure_shuts_out 10 first_lease one_lease failed (state "e1" 1 40 60 0 none) "l2" ten 60 40
      second_lease rerouted one_lease-IsSound first_lease-IsGenuine refl (omega arith) failure
      (omega arith) second_pass

-- ===== src/Registry/History.antt =====
-- The registry's life: calls of `acquire` and of the releases, in any order.
use code_astra.Base.{ℕ, ◌≡◌, sym, subst, String, List, Option, none, some, string_eq, nat_eq, arith}
use code_astra.Base.Dict.{Dict, lookup}
use code_astra.Registry.{
  AsyncInstanceRegistry, AsyncInstanceState, EndpointCapacity, InstanceLease, init,
}
use code_astra.Registry.Methods.{
  all_instances_unavailable, key_error, unknown_instance_lease, Pass, leased, waits, raises,
  refresh, acquire, healed, failing, release_success, release_failure, release_neutral,
}
use code_astra.Registry.Invariant.{IsSound, init-IsSound, refresh-IsSound, lookup-refresh_all}
use code_astra.Registry.Leasing.{lease-IsSound}
use code_astra.Registry.Acquire.{Picked, AcquireSpec, acquire_lem}
use code_astra.Registry.Release.{
  IsGenuine, release-IsSound, KeepsLoad-healed, KeepsLoad-failing, KeepsLoad-id,
}

abbrev pub after_pass : Pass → AsyncInstanceRegistry
after_pass (leased l r) = r
after_pass (waits r) = r
after_pass (raises f r) = r

-- One call: `acquire` under an id that is not in use, or a release of a genuine lease.
pub data Step (r : AsyncInstanceRegistry) : AsyncInstanceRegistry → Type 0 where
  acquires :
      (id : String) (clock : String → ℕ) (t p : ℕ)
      → lookup id r.leases ≡ none
      → Step r (after_pass (acquire id clock t p r))
  succeeds : (lease : InstanceLease) → IsGenuine lease r → Step r (release_success lease r).1
  fails :
      (now : ℕ) (lease : InstanceLease) → IsGenuine lease r → Step r (release_failure now lease r).1
  returns : (lease : InstanceLease) → IsGenuine lease r → Step r (release_neutral lease r).1

pub data Reach (r : AsyncInstanceRegistry) : AsyncInstanceRegistry → Type 0 where
  here : Reach r r
  next : {s t : AsyncInstanceRegistry} → Reach r s → Step s t → Reach r t

module _ (id : String) (clock : String → ℕ) (t p : ℕ) (r : AsyncInstanceRegistry)
    (v : IsSound r) where
  -- The state picked is the one that the refreshed registry holds.
  pub pick_found :
      (sel : AsyncInstanceState)
      → Picked clock t p r sel
      → lookup sel.endpoint (refresh clock r).states ≡ some sel
  pick_found sel k = ground (
    arith,
    lookup-refresh_all r.cooldown clock sel.endpoint r.states,
    k.usable.found,
    k.usable.same,
  )

  spec-IsSound :
      (o : Pass) → lookup id r.leases ≡ none → AcquireSpec clock t p r id o → IsSound (after_pass o)
  spec-IsSound (leased l r') fresh (sel, k, same) =
      subst (λ o. IsSound (after_pass o)) (sym same)
        (lease-IsSound (refresh clock r) (refresh-IsSound clock r v) id t p sel (pick_found sel k)
          fresh k.capacity k.limits k.room)
  spec-IsSound (waits r') fresh s = rw s.0 (refresh-IsSound clock r v)
  spec-IsSound (raises all_instances_unavailable r') fresh s = rw s.0 (refresh-IsSound clock r v)
  spec-IsSound (raises key_error r') fresh s = rw s.0 (refresh-IsSound clock r v)
  spec-IsSound (raises unknown_instance_lease r') fresh s = absurd s

  pub acquire-IsSound : lookup id r.leases ≡ none → IsSound (after_pass (acquire id clock t p r))
  acquire-IsSound fresh = spec-IsSound (acquire id clock t p r) fresh (acquire_lem clock t p r v id)

Step-IsSound : {r s : AsyncInstanceRegistry} → IsSound r → Step r s → IsSound s
unfolding release_success release_failure release_neutral
Step-IsSound {r} v (acquires id clock t p fresh) = acquire-IsSound id clock t p r v fresh
Step-IsSound {r} v (succeeds lease g) = release-IsSound healed KeepsLoad-healed r v lease g
Step-IsSound {r} v (fails now lease g) =
    release-IsSound (failing r.failure_threshold now) (KeepsLoad-failing _ now) r v lease g
Step-IsSound {r} v (returns lease g) = release-IsSound (λ st. st) KeepsLoad-id r v lease g

Reach-keeps : {r s : AsyncInstanceRegistry} → IsSound r → Reach r s → IsSound s
Reach-keeps v here = v
Reach-keeps v (next rs st) = Step-IsSound (Reach-keeps v rs) st

-- After any calls on a new registry, each acquiring under an id that is not in use or releasing a
-- genuine lease, each endpoint's three counters are the sums over its outstanding leases, and none of them is above the endpoint's capacity.
pub Reach-IsSound :
    (es : List String) (threshold cooldown : ℕ) (profile : Option (Dict String EndpointCapacity))
    {r : AsyncInstanceRegistry}
    → Reach (init es threshold cooldown profile) r
    → IsSound r
Reach-IsSound es threshold cooldown profile h =
    Reach-keeps (init-IsSound es threshold cooldown profile) h

-- ===== src/Registry/Release.antt =====
-- The three releases: they keep the invariant whatever they are given, and undo one lease.
use code_astra.Base.{
  ℕ, ◌+◌, ◌≡◌, ◌≢◌, refl, ap, sym, subst, ◌∙◌, String, Option, none, some, string_eq, nat_eq, arith,
}
use code_astra.Base.Dict.{
  lookup, insert, erase, lookup-insert, lookup-insert_ne, insert-NodupKeys, erase-NodupKeys,
  lookup-erase,
}
use code_astra.Base.Sums.{sum_by, sum_by-erase}
use code_astra.Registry.{AsyncInstanceRegistry, AsyncInstanceState, EndpointCapacity, InstanceLease}
use code_astra.Registry.Methods.{unreserve, settle, release_at, release, healed, failing}
use code_astra.Registry.Invariant.{
  held, one, prompt, tokens, IsAccounted, IsWithin, IsSound, SameLoad,
}

-- What `release` is given as its `finish`: it leaves the load alone.
abbrev pub KeepsLoad : (AsyncInstanceState → AsyncInstanceState) → Type 0
KeepsLoad finish = (st : AsyncInstanceState) → SameLoad (finish st) st

pub KeepsLoad-healed : KeepsLoad healed
KeepsLoad-healed st = record { endpoint = refl; requests = refl; prompts = refl; totals = refl }

pub KeepsLoad-failing : (threshold now : ℕ) → KeepsLoad (failing threshold now)
KeepsLoad-failing threshold now st = record {
  endpoint = refl;
  requests = refl;
  prompts = refl;
  totals = refl;
}

pub KeepsLoad-id : KeepsLoad (λ st. st)
KeepsLoad-id st = record { endpoint = refl; requests = refl; prompts = refl; totals = refl }

module _ (finish : AsyncInstanceState → AsyncInstanceState) (keeps : KeepsLoad finish)
    (r : AsyncInstanceRegistry) (v : IsSound r) (lease stored : InstanceLease) (p : ℕ)
    (st : AsyncInstanceState) (found : lookup lease.lease_id r.leases ≡ some (stored, p))
    (at_endpoint : stored.endpoint ≡ lease.endpoint)
    (state_there : lookup lease.endpoint r.states ≡ some st) where
  abbrev done : AsyncInstanceState
  done = finish (unreserve stored p st)

  abbrev pub after_release : AsyncInstanceRegistry
  after_release = record r {
    states = insert lease.endpoint (finish (unreserve stored p st)) r.states;
    leases = erase lease.lease_id r.leases;
  }

  held-release :
      (amount : InstanceLease × ℕ → ℕ) (e : String)
      → sum_by (held amount e) (erase lease.lease_id r.leases) + held amount e (stored, p)
        ≡ sum_by (held amount e) r.leases
  held-release amount e =
      sum_by-erase (held amount e) lease.lease_id (stored, p) r.leases v.distinct_leases found

  released-IsAccounted : IsAccounted after_release.leases lease.endpoint done
  released-IsAccounted =
      let a = v.accounted lease.endpoint st state_there in
      let k = keeps (unreserve stored p st) in
      record {
        named = k.endpoint ∙ a.named;
        requests = ground (arith, k.requests, a.requests, held-release one lease.endpoint);
        prompts = ground (arith, k.prompts, a.prompts, held-release prompt lease.endpoint);
        totals = ground (arith, k.totals, a.totals, held-release tokens lease.endpoint);
      }

  other-IsAccounted :
      (e : String) (s : AsyncInstanceState)
      → e ≢ lease.endpoint
      → IsAccounted r.leases e s
      → IsAccounted after_release.leases e s
  other-IsAccounted e s there a = record {
    named = a.named;
    requests = ground (arith, a.requests, held-release one e);
    prompts = ground (arith, a.prompts, held-release prompt e);
    totals = ground (arith, a.totals, held-release tokens e);
  }

  release_lookup :
      (P : String → AsyncInstanceState → Type 0)
      → P lease.endpoint done
      → ((e : String) (s : AsyncInstanceState)
          → e ≢ lease.endpoint
          → lookup e r.states ≡ some s
          → P e s)
      → (e : String) (s : AsyncInstanceState) → lookup e after_release.states ≡ some s
      → P e s
  release_lookup P chosen other e s h = elim (string_eq.dec e lease.endpoint) [
    | yes here ↦ subst (λ j. P j s) (sym here) (subst (P lease.endpoint) (same here) chosen)
    | no there ↦ other e s there (sym (lookup-insert_ne e lease.endpoint _ r.states there) ∙ h)
  ]
    where
      same : e ≡ lease.endpoint → done ≡ s
      same here = ground (arith, lookup-insert e lease.endpoint done r.states)

  released-IsWithin :
      (c : EndpointCapacity) → lookup lease.endpoint r.capacities ≡ some c → IsWithin c done
  released-IsWithin c q =
      let w = v.within lease.endpoint st c state_there q in
      let k = keeps (unreserve stored p st) in
      omega (arith, w.requests, w.prompts, w.totals, k.requests, k.prompts, k.totals)

  after_release-IsSound : IsSound after_release
  after_release-IsSound = record {
    distinct_states = insert-NodupKeys lease.endpoint done r.states v.distinct_states;
    distinct_leases = erase-NodupKeys lease.lease_id r.leases v.distinct_leases;
    accounted =
        release_lookup (IsAccounted after_release.leases) released-IsAccounted
          (λ e s there h. other-IsAccounted e s there (v.accounted e s h));
    filed = λ k l q h. ground (
      arith,
      v.filed k l q,
      lookup-erase k lease.lease_id r.leases,
      lookup-insert l.endpoint lease.endpoint done r.states,
    );
    within = λ e s c h q.
        release_lookup
          (λ e s. (c : EndpointCapacity) → lookup e r.capacities ≡ some c → IsWithin c s)
          released-IsWithin (λ e s there h c q. v.within e s c h q) e s h c q;
  }

-- A lease that the registry may be shown: if its id is filed, it is the lease that is filed. Leases
-- are frozen, and `acquire` alone makes them.
abbrev pub IsGenuine : InstanceLease → AsyncInstanceRegistry → Type 0
IsGenuine lease r =
    (stored : InstanceLease) (p : ℕ)
    → lookup lease.lease_id r.leases ≡ some (stored, p)
    → stored ≡ lease

module _ (finish : AsyncInstanceState → AsyncInstanceState) (keeps : KeepsLoad finish)
    (r : AsyncInstanceRegistry) (v : IsSound r) (lease : InstanceLease) where
  settle-IsSound :
      (st : AsyncInstanceState)
      → lookup lease.endpoint r.states ≡ some st
      → (o : Option (InstanceLease × ℕ)) → lookup lease.lease_id r.leases ≡ o
      → IsGenuine lease r
      → IsSound (settle finish lease st o r).1
  settle-IsSound st h none e g = v
  settle-IsSound st h (some (stored, p)) e g = elim (string_eq.dec stored.endpoint lease.endpoint) [
    | yes same ↦
        subst IsSound (kept same)
          (after_release-IsSound finish keeps r v lease stored p st e same h)
    | no other ↦ absurd (other (ap (λ (l : InstanceLease). l.endpoint) (g stored p e)))
  ]
    where
      kept :
          (same : stored.endpoint ≡ lease.endpoint)
          → after_release finish keeps r v lease stored p st e same h
            ≡ (settle finish lease st (some (stored, p)) r).1
      kept same = ground arith

  pub release-IsSound : IsGenuine lease r → IsSound (release finish lease r).1
  release-IsSound g = go (lookup lease.endpoint r.states) refl
    where
      go :
          (o : Option AsyncInstanceState)
          → lookup lease.endpoint r.states ≡ o
          → IsSound (release_at finish lease o r).1
      go none e = v
      go (some st) e = settle-IsSound st e (lookup lease.lease_id r.leases) refl g

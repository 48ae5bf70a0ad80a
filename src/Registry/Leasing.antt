-- ===== src/Registry/Leasing.antt =====
-- `acquire`: it keeps the invariant, and it picks a least loaded endpoint with room.
use code_astra.Base.{
  ℕ, ◌+◌, ◌≡◌, ◌≢◌, refl, sym, subst, ◌∙◌, String, true, none, some, string_eq, nat_eq, arith,
}
use mathlib.Core.Option.{some-injective}
use code_astra.Base.Dict.{lookup, insert, lookup-insert, lookup-insert_ne, insert-NodupKeys}
use code_astra.Base.Sums.{sum_by, sum_by-insert_new}
use code_astra.Registry.{
  AsyncInstanceRegistry, AsyncInstanceState, EndpointCapacity, InstanceLease, has_capacity,
}
use code_astra.Registry.Methods.{reserve}
use code_astra.Registry.Invariant.{held, one, prompt, tokens, IsAccounted, IsWithin, IsSound}

has_capacity-IsWithin :
    (c : EndpointCapacity) (p t : ℕ) (st : AsyncInstanceState)
    → has_capacity c p t st ≡ true
    → IsWithin c (reserve t p st)
unfolding has_capacity
has_capacity-IsWithin c p t st h = ground arith

-- The lease and the state that `lease_to` writes.
module _ (r : AsyncInstanceRegistry) (v : IsSound r) (id : String) (t p : ℕ)
    (sel : AsyncInstanceState) (found : lookup sel.endpoint r.states ≡ some sel)
    (fresh : lookup id r.leases ≡ none) where
  abbrev lease : InstanceLease
  lease = record { lease_id = id; endpoint = sel.endpoint; estimated_tokens = t }

  abbrev pub after_lease : AsyncInstanceRegistry
  after_lease = record r {
    states = insert sel.endpoint (reserve t p sel) r.states;
    leases = insert id (lease, p) r.leases;
  }

  held-lease :
      (amount : InstanceLease × ℕ → ℕ) (e : String)
      → sum_by (held amount e) (insert id (lease, p) r.leases)
        ≡ sum_by (held amount e) r.leases + held amount e (lease, p)
  held-lease amount e = sum_by-insert_new (held amount e) id (lease, p) r.leases fresh

  chosen-IsAccounted : IsAccounted after_lease.leases sel.endpoint (reserve t p sel)
  chosen-IsAccounted =
      let a = v.accounted sel.endpoint sel found in
      record {
        named = refl;
        requests = ground (arith, a.requests, held-lease one sel.endpoint);
        prompts = ground (arith, a.prompts, held-lease prompt sel.endpoint);
        totals = ground (arith, a.totals, held-lease tokens sel.endpoint);
      }

  other-IsAccounted :
      (e : String) (st : AsyncInstanceState)
      → e ≢ sel.endpoint
      → IsAccounted r.leases e st
      → IsAccounted after_lease.leases e st
  other-IsAccounted e st there a = record {
    named = a.named;
    requests = ground (arith, a.requests, held-lease one e);
    prompts = ground (arith, a.prompts, held-lease prompt e);
    totals = ground (arith, a.totals, held-lease tokens e);
  }

  -- Every state found afterwards is the chosen one or an old one.
  lease_lookup :
      (P : String → AsyncInstanceState → Type 0)
      → P sel.endpoint (reserve t p sel)
      → ((e : String) (st : AsyncInstanceState)
          → e ≢ sel.endpoint
          → lookup e r.states ≡ some st
          → P e st)
      → (e : String) (st : AsyncInstanceState) → lookup e after_lease.states ≡ some st
      → P e st
  lease_lookup P chosen other e st h = elim (string_eq.dec e sel.endpoint) [
    | yes here ↦ subst (λ j. P j st) (sym here) (subst (P sel.endpoint) (same here) chosen)
    | no there ↦ other e st there (sym (lookup-insert_ne e sel.endpoint _ r.states there) ∙ h)
  ]
    where
      same : e ≡ sel.endpoint → reserve t p sel ≡ st
      same here = ground (arith, lookup-insert e sel.endpoint (reserve t p sel) r.states)

  pub lease-IsSound :
      (c : EndpointCapacity)
      → lookup sel.endpoint r.capacities ≡ some c
      → has_capacity c p t sel ≡ true
      → IsSound after_lease
  lease-IsSound c cap room = record {
    distinct_states = insert-NodupKeys sel.endpoint (reserve t p sel) r.states v.distinct_states;
    distinct_leases = insert-NodupKeys id (lease, p) r.leases v.distinct_leases;
    accounted =
        lease_lookup (IsAccounted after_lease.leases) chosen-IsAccounted
          (λ e st there h. other-IsAccounted e st there (v.accounted e st h));
    filed = λ k l q h. ground (
      arith,
      v.filed k l q,
      lookup-insert k id (lease, p) r.leases,
      lookup-insert l.endpoint sel.endpoint (reserve t p sel) r.states,
    );
    within = λ e st c' h q.
        lease_lookup
          (λ e st. (c' : EndpointCapacity) → lookup e r.capacities ≡ some c' → IsWithin c' st)
          (λ c' q.
            subst (λ x. IsWithin x (reserve t p sel)) (some-injective _ _ (sym cap ∙ q))
              (has_capacity-IsWithin c p t sel room))
          (λ e st there h c' q. v.within e st c' h q) e st h c' q;
  }

-- ===== src/Registry/Invariant.antt =====
-- What the registry's counters owe to its leases: the invariant, and that a fresh registry and a
-- refresh have it.
use code_astra.Base.{
  ℕ, ◌≤◌, ◌≡◌, ◌≢◌, refl, subst, ◌∙◌, String, List, [], ◌∷◌, Option, none, some, ◌==◌, string_eq,
  nat_eq, if◌then◌else◌, arith, Option-cases, inl, inr,
}
use code_astra.Base.Dict.{Dict, lookup, insert, NodupKeys, lookup-insert, insert-NodupKeys}
use code_astra.Base.Sums.{sum_by}
use code_astra.Registry.{
  AsyncInstanceRegistry, AsyncInstanceState, EndpointCapacity, InstanceLease, fresh_state,
  by_endpoint, init, refreshed, refresh_all,
}
use code_astra.Registry.Methods.{refresh}

-- What the outstanding leases of an endpoint hold.
abbrev pub held : (InstanceLease × ℕ → ℕ) → String → InstanceLease × ℕ → ℕ
held amount e entry = if entry.0.endpoint == e then amount entry else 0

abbrev pub one : InstanceLease × ℕ → ℕ
one entry = 1

abbrev pub prompt : InstanceLease × ℕ → ℕ
prompt entry = entry.1

abbrev pub tokens : InstanceLease × ℕ → ℕ
tokens entry = entry.0.estimated_tokens

-- The counters of endpoint `e` are the sums over its outstanding leases.
pub record IsAccounted (leases : Dict String (InstanceLease × ℕ)) (e : String)
    (st : AsyncInstanceState) : Type 0 where
  pub named : st.endpoint ≡ e
  pub requests : st.inflight_requests ≡ sum_by (held one e) leases
  pub prompts : st.inflight_prompt_tokens ≡ sum_by (held prompt e) leases
  pub totals : st.inflight_total_tokens ≡ sum_by (held tokens e) leases

pub record IsWithin (c : EndpointCapacity) (st : AsyncInstanceState) : Type 0 where
  pub requests : st.inflight_requests ≤ c.max_concurrency
  pub prompts : st.inflight_prompt_tokens ≤ c.max_inflight_prompt_tokens
  pub totals : st.inflight_total_tokens ≤ c.max_inflight_total_tokens

-- The counters are those of the leases, every lease is filed under its id at an endpoint that is
-- there, and no endpoint carries more than its capacity.
pub record IsSound (r : AsyncInstanceRegistry) : Type 0 where
  pub distinct_states : NodupKeys r.states
  pub distinct_leases : NodupKeys r.leases
  pub accounted :
      (e : String) (st : AsyncInstanceState)
      → lookup e r.states ≡ some st
      → IsAccounted r.leases e st
  pub filed :
      (k : String) (l : InstanceLease) (p : ℕ)
      → lookup k r.leases ≡ some (l, p)
      → (l.lease_id ≡ k) × (lookup l.endpoint r.states ≢ none)
  pub within :
      (e : String) (st : AsyncInstanceState) (c : EndpointCapacity)
      → lookup e r.states ≡ some st
      → lookup e r.capacities ≡ some c
      → IsWithin c st

by_endpoint-NodupKeys :
    {V : Type 0} (f : String → V) (es : List String) (d : Dict String V)
    → NodupKeys d
    → NodupKeys (by_endpoint f es d)
unfolding by_endpoint
by_endpoint-NodupKeys f [] d h = h
by_endpoint-NodupKeys f (e ∷ es) d h =
    by_endpoint-NodupKeys f es (insert e (f e) d) (insert-NodupKeys e (f e) d h)

-- Every value of the dictionary is that of its key.
by_endpoint-value :
    {V : Type 0} (f : String → V) (es : List String) (d : Dict String V)
    → ((k : String) (v : V) → lookup k d ≡ some v → v ≡ f k)
    → (k : String) (v : V) → lookup k (by_endpoint f es d) ≡ some v
    → v ≡ f k
unfolding by_endpoint
by_endpoint-value f [] d h = h
by_endpoint-value f (e ∷ es) d h =
    by_endpoint-value f es (insert e (f e) d)
      (λ k v p. ground (arith, h k v, lookup-insert k e (f e) d))

pub init-IsSound :
    (es : List String) (threshold cooldown : ℕ) (profile : Option (Dict String EndpointCapacity))
    → IsSound (init es threshold cooldown profile)
unfolding init lookup
init-IsSound es threshold cooldown profile = record {
  distinct_states = by_endpoint-NodupKeys fresh_state es [] tt;
  distinct_leases = tt;
  accounted = λ e st p.
      rw (value e st p) (record { named = refl; requests = refl; prompts = refl; totals = refl });
  filed = λ k l p h. absurd (ground arith);
  within = λ e st c p q. rw (value e st p) (omega arith);
}
  where
    value :
        (k : String) (v : AsyncInstanceState)
        → lookup k (by_endpoint fresh_state es []) ≡ some v
        → v ≡ fresh_state k
    value = by_endpoint-value fresh_state es [] (λ k v h. absurd (ground arith))

abbrev pub map_some :
    (AsyncInstanceState → AsyncInstanceState)
    → Option AsyncInstanceState
    → Option AsyncInstanceState
map_some f none = none
map_some f (some a) = some (f a)

pub lookup-refresh_all :
    (cooldown : ℕ) (clock : String → ℕ) (e : String) (d : Dict String AsyncInstanceState)
    → lookup e (refresh_all cooldown clock d) ≡ map_some (refreshed cooldown (clock e)) (lookup e d)
unfolding refresh_all lookup
lookup-refresh_all cooldown clock e [] = refl
lookup-refresh_all cooldown clock e ((k, st) ∷ d) =
    ground (arith, lookup-refresh_all cooldown clock e d)

refresh_all-NodupKeys :
    (cooldown : ℕ) (clock : String → ℕ) (d : Dict String AsyncInstanceState)
    → NodupKeys d
    → NodupKeys (refresh_all cooldown clock d)
unfolding refresh_all
refresh_all-NodupKeys cooldown clock [] h = tt
refresh_all-NodupKeys cooldown clock ((k, st) ∷ d) h =
    (rw (lookup-refresh_all cooldown clock k d, h.0), refresh_all-NodupKeys cooldown clock d h.1)

-- A refresh touches the breaker alone.
pub record SameLoad (a b : AsyncInstanceState) : Type 0 where
  pub endpoint : a.endpoint ≡ b.endpoint
  pub requests : a.inflight_requests ≡ b.inflight_requests
  pub prompts : a.inflight_prompt_tokens ≡ b.inflight_prompt_tokens
  pub totals : a.inflight_total_tokens ≡ b.inflight_total_tokens

pub SameLoad-refreshed :
    (cooldown now : ℕ) (st : AsyncInstanceState) → SameLoad (refreshed cooldown now st) st
unfolding refreshed
SameLoad-refreshed cooldown now st = ground arith

pub refresh_origin :
    (cooldown : ℕ) (clock : String → ℕ) (e : String) (d : Dict String AsyncInstanceState)
    (st : AsyncInstanceState)
    → lookup e (refresh_all cooldown clock d) ≡ some st
    → (old : AsyncInstanceState) × (lookup e d ≡ some old) × (refreshed cooldown (clock e) old ≡ st)
refresh_origin cooldown clock e d st h = elim (Option-cases (lookup e d)) [
  | inl p ↦ absurd (ground (arith, lookup-refresh_all cooldown clock e d))
  | inr (old, p) ↦ (old, p, ground (arith, lookup-refresh_all cooldown clock e d))
]

-- What rests on the loads alone survives a refresh.
IsAccounted-SameLoad :
    {leases : Dict String (InstanceLease × ℕ)} {e : String} {a b : AsyncInstanceState}
    → SameLoad a b
    → IsAccounted leases e b
    → IsAccounted leases e a
IsAccounted-SameLoad s h = record {
  named = s.endpoint ∙ h.named;
  requests = s.requests ∙ h.requests;
  prompts = s.prompts ∙ h.prompts;
  totals = s.totals ∙ h.totals;
}

IsWithin-SameLoad :
    {c : EndpointCapacity} {a b : AsyncInstanceState} → SameLoad a b → IsWithin c b → IsWithin c a
IsWithin-SameLoad s h =
    omega (arith, s.requests, s.prompts, s.totals, h.requests, h.prompts, h.totals)

pub refresh-IsSound :
    (clock : String → ℕ) (r : AsyncInstanceRegistry) → IsSound r → IsSound (refresh clock r)
refresh-IsSound clock r v = record {
  distinct_states = refresh_all-NodupKeys r.cooldown clock r.states v.distinct_states;
  distinct_leases = v.distinct_leases;
  accounted = λ e st h.
      let (old, p, q) = refresh_origin r.cooldown clock e r.states st h in
      IsAccounted-SameLoad
        (subst (λ a. SameLoad a old) q (SameLoad-refreshed r.cooldown (clock e) old))
        (v.accounted e old p);
  filed = λ k l p h. (
    (v.filed k l p h).0,
    λ gone.
        (v.filed k l p h).1
          (ground (arith, lookup-refresh_all r.cooldown clock l.endpoint r.states)),
  );
  within = λ e st c h q.
      let (old, p, same) = refresh_origin r.cooldown clock e r.states st h in
      IsWithin-SameLoad
        (subst (λ a. SameLoad a old) same (SameLoad-refreshed r.cooldown (clock e) old))
        (v.within e old c p q);
}

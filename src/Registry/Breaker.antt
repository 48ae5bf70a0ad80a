-- ===== src/Registry/Breaker.antt =====
-- The circuit breaker, and what the calls owe to one another.
use code_astra.Base.{
  ℕ, ◌+◌, ◌≤◌, ◌≡◌, ◌≢◌, sym, subst, ◌∙◌, String, true, none, some, leb, string_eq, nat_eq,
  if◌then◌else◌, arith, Option-cases, inl, inr, ◌⊎◌,
}
use code_astra.Base.Result.{ok, err}
use code_astra.Base.Dict.{
  lookup, insert, erase, lookup-insert, lookup-erase, lookup-insert_self, lookup-erase_self,
}
use code_astra.Registry.{AsyncInstanceRegistry, AsyncInstanceState, InstanceLease, available}
use code_astra.Registry.Methods.{
  unknown_instance_lease, leased, lease_to, refresh, acquire, reserve, unreserve, release, healed,
  failing, release_success, release_failure, release_neutral,
}
use code_astra.Registry.Invariant.{IsSound}
use code_astra.Registry.Acquire.{AcquireSpec, acquire_lem}
use code_astra.Registry.Circuits.{SameButCooled, refresh-SameButCooled}
use mathlib.Core.Option.{some-injective}
use code_astra.Registry.History.{pick_found}
use code_astra.Registry.Release.{IsGenuine, release-IsSound, KeepsLoad-failing}

-- A release that succeeds found its state and its lease.
pub record Released (finish : AsyncInstanceState → AsyncInstanceState) (lease : InstanceLease)
    (r s : AsyncInstanceRegistry) : Type 0 where
  pub state : AsyncInstanceState
  pub stored : InstanceLease
  pub prompt_tokens : ℕ
  pub at_endpoint : lookup lease.endpoint r.states ≡ some state
  pub filed : lookup lease.lease_id r.leases ≡ some (stored, prompt_tokens)
  pub result : s ≡ record r {
    states = insert lease.endpoint (finish (unreserve stored prompt_tokens state)) r.states;
    leases = erase lease.lease_id r.leases;
  }

release_unknown :
    (finish : AsyncInstanceState → AsyncInstanceState) (lease : InstanceLease)
    (r : AsyncInstanceRegistry) (st : AsyncInstanceState)
    → lookup lease.endpoint r.states ≡ some st
    → lookup lease.lease_id r.leases ≡ none
    → release finish lease r ≡ (err unknown_instance_lease, r)
release_unknown finish lease r st h e = rw (h, e)

module _ (finish : AsyncInstanceState → AsyncInstanceState) (lease : InstanceLease) where
  release_inv :
      (r s : AsyncInstanceRegistry)
      → release finish lease r ≡ (ok tt, s)
      → Released finish lease r s
  release_inv r s h = elim (Option-cases (lookup lease.endpoint r.states)) [
    | inl gone ↦ absurd (ground arith)
    | inr (st, found) ↦ elim (Option-cases (lookup lease.lease_id r.leases)) [
      | inl unknown ↦ absurd (ground arith)
      | inr (entry, filed) ↦ record {
        state = st;
        stored = entry.0;
        prompt_tokens = entry.1;
        at_endpoint = found;
        filed = filed;
        result = ground arith;
      }
    ]
  ]

  freed_is_gone :
      (r s : AsyncInstanceRegistry)
      → Released finish lease r s
      → (again : AsyncInstanceState → AsyncInstanceState)
      → release again lease s ≡ (err unknown_instance_lease, s)
  freed_is_gone r s d again =
      release_unknown again lease s (finish (unreserve d.stored d.prompt_tokens d.state))
        (rw d.result (lookup-insert_self lease.endpoint _ r.states))
        (rw d.result (lookup-erase_self lease.lease_id r.leases))

-- A second release of a lease, of whatever kind either is, raises and changes nothing.
pub release_twice :
    (first later : ℕ) (lease : InstanceLease) (r s : AsyncInstanceRegistry)
    → (release_success lease r ≡ (ok tt, s))
      ⊎ (release_failure first lease r ≡ (ok tt, s))
      ⊎ (release_neutral lease r ≡ (ok tt, s))
    → (release_success lease s ≡ (err unknown_instance_lease, s))
      × (release_failure later lease s ≡ (err unknown_instance_lease, s))
      × (release_neutral lease s ≡ (err unknown_instance_lease, s))
unfolding release_success release_failure release_neutral
release_twice first later lease r s h =
    (gone h healed, gone h (failing s.failure_threshold later), gone h (λ st. st))
  where
    gone :
        (release healed lease r ≡ (ok tt, s))
          ⊎ (release (failing r.failure_threshold first) lease r ≡ (ok tt, s))
          ⊎ (release (λ st. st) lease r ≡ (ok tt, s))
        → (again : AsyncInstanceState → AsyncInstanceState)
        → release again lease s ≡ (err unknown_instance_lease, s)
    gone (inl e) = freed_is_gone healed lease r s (release_inv healed lease r s e)
    gone (inr (inl e)) =
        freed_is_gone (failing r.failure_threshold first) lease r s
          (release_inv (failing r.failure_threshold first) lease r s e)
    gone (inr (inr e)) = freed_is_gone (λ st. st) lease r s (release_inv (λ st. st) lease r s e)

unreserve-reserve :
    (lease : InstanceLease) (p : ℕ) (st : AsyncInstanceState)
    → unreserve lease p (reserve lease.estimated_tokens p st) ≡ st
unreserve-reserve lease p st = ground arith

module _ (id : String) (t p : ℕ) (sel : AsyncInstanceState) (r : AsyncInstanceRegistry) where
  abbrev given : InstanceLease
  given = record { lease_id = id; endpoint = sel.endpoint; estimated_tokens = t }

  abbrev taken : AsyncInstanceRegistry
  taken = record r {
    states = insert sel.endpoint (reserve t p sel) r.states;
    leases = insert id (given, p) r.leases;
  }

  abbrev back : AsyncInstanceRegistry
  back = record taken {
    states = insert sel.endpoint (unreserve given p (reserve t p sel)) taken.states;
    leases = erase id taken.leases;
  }

  return_taken : release (λ st. st) given taken ≡ (ok tt, back)
  return_taken =
      rw
        (
          lookup-insert_self sel.endpoint (reserve t p sel) r.states,
          lookup-insert_self id (given, p) r.leases,
        )
        (ground arith)

  back-states :
      lookup sel.endpoint r.states ≡ some sel
      → (e : String) → lookup e back.states ≡ lookup e r.states
  back-states found e = ground (
    arith,
    unreserve-reserve given p sel,
    lookup-insert e sel.endpoint (unreserve given p (reserve t p sel)) taken.states,
    lookup-insert e sel.endpoint (reserve t p sel) r.states,
  )

  back-leases : lookup id r.leases ≡ none → (k : String) → lookup k back.leases ≡ lookup k r.leases
  back-leases fresh k =
      ground (arith, lookup-erase k id taken.leases, lookup-insert k id (given, p) r.leases)

seen_again :
    (clock : String → ℕ) (r u : AsyncInstanceRegistry) (e : String)
    → lookup e u.states ≡ lookup e (refresh clock r).states
    → SameButCooled clock r u e
seen_again clock r u e same = rw same (refresh-SameButCooled clock r e)

-- In a sound registry, a lease under an id that was not in use and that is given back at once,
-- neither served nor failed, leaves the leases as they were, and every endpoint as it was before
-- `acquire`, except that a circuit that had been opened and had cooled down by the time of the pass
-- is closed, with no failures counted.
pub acquire_return :
    (id : String) (clock : String → ℕ) (t p : ℕ) (r : AsyncInstanceRegistry) (l : InstanceLease)
    (s : AsyncInstanceRegistry)
    → IsSound r
    → lookup id r.leases ≡ none
    → acquire id clock t p r ≡ leased l s
    → (u : AsyncInstanceRegistry) × (release_neutral l s ≡ (ok tt, u))
      × ((e : String) → SameButCooled clock r u e)
      × ((k : String) → lookup k u.leases ≡ lookup k r.leases)
unfolding release_neutral
acquire_return id clock t p r l s v fresh h =
    let (sel, k, same) = subst (AcquireSpec clock t p r id) h (acquire_lem clock t p r v id) in
    let found = pick_found id clock t p r v sel k in
    let R = refresh clock r in
    let lease_same : l ≡ given id t p sel R = cc same in
    let state_same : s ≡ taken id t p sel R = cc same in
    (
      back id t p sel R,
      rw (lease_same, state_same) (return_taken id t p sel R),
      λ e. seen_again clock r (back id t p sel R) e (back-states id t p sel R found e),
      back-leases id t p sel R fresh,
    )

failure_counts :
    (now : ℕ) (lease : InstanceLease) (r s : AsyncInstanceRegistry) (old : AsyncInstanceState)
    → lookup lease.endpoint r.states ≡ some old
    → release_failure now lease r ≡ (ok tt, s)
    → (st : AsyncInstanceState) × (lookup lease.endpoint s.states ≡ some st)
      × (st.consecutive_failures ≡ old.consecutive_failures + 1)
      × (st.circuit_opened_at ≡ (
          if leb r.failure_threshold (old.consecutive_failures + 1)
          then some now
          else old.circuit_opened_at))
unfolding release_failure
failure_counts now lease r s old found h =
    let d = release_inv (failing r.failure_threshold now) lease r s h in
    let same : d.state ≡ old = some-injective _ _ (sym d.at_endpoint ∙ found) in
    (
      failing r.failure_threshold now (unreserve d.stored d.prompt_tokens d.state),
      rw d.result (lookup-insert_self lease.endpoint _ r.states),
      rw same,
      rw same (ground arith),
    )

not_yet :
    (opened now cooldown : ℕ) (st : AsyncInstanceState)
    → st.circuit_opened_at ≡ some opened
    → now ≤ opened + cooldown
    → available cooldown now st ≢ true
unfolding available
not_yet opened now cooldown st o early free = ground arith

leased_at :
    (id : String) (t p : ℕ) (sel : AsyncInstanceState) (r : AsyncInstanceRegistry)
    (l : InstanceLease) (u : AsyncInstanceRegistry)
    → leased l u ≡ lease_to id t p sel r
    → l.endpoint ≡ sel.endpoint
leased_at id t p sel r l u same = ground arith

-- In a sound registry, let the failure of a genuine lease be accepted and be the one that reaches
-- the threshold. Then a pass of `acquire` that comes next, and reads a time for that endpoint that is
-- within the cooldown, can lease to other endpoints only.
pub failure_shuts_out :
    (now : ℕ) (lease : InstanceLease) (r s : AsyncInstanceRegistry) (old : AsyncInstanceState)
    (id : String) (clock : String → ℕ) (t p : ℕ) (l : InstanceLease) (u : AsyncInstanceRegistry)
    → IsSound r
    → IsGenuine lease r
    → lookup lease.endpoint r.states ≡ some old
    → r.failure_threshold ≤ old.consecutive_failures + 1
    → release_failure now lease r ≡ (ok tt, s)
    → clock lease.endpoint ≤ now + r.cooldown
    → acquire id clock t p s ≡ leased l u
    → l.endpoint ≢ lease.endpoint
unfolding release_failure
failure_shuts_out now lease r s old id clock t p l u v g found reached h early a at =
    let sound : IsSound s =
      subst (λ o. IsSound o.1) h (release-IsSound _ (KeepsLoad-failing _ now) r v lease g) in
    let (sel, k, same) = subst (AcquireSpec clock t p s id) a (acquire_lem clock t p s sound id) in
    let (st, there, n, opened) = failure_counts now lease r s old found h in
    let d = release_inv (failing r.failure_threshold now) lease r s h in
    let there_too : sel.endpoint ≡ lease.endpoint =
      sym (leased_at id t p sel (refresh clock s) l u same) ∙ at in
    let is_old : k.usable.old ≡ st =
      some-injective _ _
        (sym k.usable.found ∙ subst (λ e. lookup e s.states ≡ some st) (sym there_too) there) in
    not_yet now (clock sel.endpoint) s.cooldown k.usable.old (rw is_old (ground (arith, opened)))
      (rw (there_too, d.result) early) k.usable.free

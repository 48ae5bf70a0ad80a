-- ===== src/Registry/Picking.antt =====
-- What one pass of `acquire` may do, in the registry's numbers alone.
use code_astra.Base.{
  ℕ, ◌+◌, ◌≡◌, ◌≢◌, refl, sym, subst, String, Bool, true, false, none, some, string_eq, nat_eq,
  arith, Bool-cases, inl, inr,
}
use code_astra.Base.Dict.{lookup, insert, lookup-insert_self, lookup-insert_ne}
use code_astra.Registry.{
  AsyncInstanceRegistry, AsyncInstanceState, EndpointCapacity, InstanceLease, available, refreshed,
  has_capacity, lighter,
}
use code_astra.Registry.Methods.{
  all_instances_unavailable, key_error, unknown_instance_lease, Pass, leased, waits, raises,
  refresh, acquire, reserve,
}
use code_astra.Registry.Invariant.{IsSound}
use code_astra.Registry.Circuits.{
  IsOpen, CanServe, SeenAs, SameButCooled, HasRoom, NotHeavier, available-CanServe,
  CanServe-available, unavailable-IsOpen, refreshed-SeenAs, refresh-SameButCooled,
  has_capacity-HasRoom, HasRoom-has_capacity, lighter-NotHeavier,
}
use code_astra.Registry.Acquire.{Usable, Picked, AcquireSpec, acquire_lem}

module _ (clock : String → ℕ) (t p : ℕ) (r : AsyncInstanceRegistry) where
  -- Endpoint `e`, whose stored state is `old`, can serve and has room.
  pub record Serves (e : String) (old : AsyncInstanceState) : Type 0 where
    pub found : lookup e r.states ≡ some old
    pub can : CanServe r.cooldown (clock e) old
    pub capacity : EndpointCapacity
    pub limits : lookup e r.capacities ≡ some capacity
    pub room : HasRoom capacity p t old

  -- A lease on a least loaded endpoint that can serve and has room.
  pub record Chosen (id : String) (l : InstanceLease) (s : AsyncInstanceRegistry) : Type 0 where
    pub old : AsyncInstanceState
    pub serves : Serves l.endpoint old
    pub least : (e : String) (other : AsyncInstanceState) → Serves e other → NotHeavier old other
    pub named : l.lease_id ≡ id
    pub asked : l.estimated_tokens ≡ t
    pub seen : AsyncInstanceState
    pub seen_as : SeenAs r.cooldown (clock l.endpoint) old seen
    pub counted :
        lookup l.endpoint s.states
        ≡ some (record seen {
          inflight_requests = seen.inflight_requests + 1;
          inflight_prompt_tokens = seen.inflight_prompt_tokens + p;
          inflight_total_tokens = seen.inflight_total_tokens + t;
        })
    pub others : (e : String) → e ≢ l.endpoint → SameButCooled clock r s e
    pub filed : lookup id s.leases ≡ some (l, p)
    pub other_leases : (k : String) → k ≢ id → lookup k s.leases ≡ lookup k r.leases

  -- No lease is given, and the endpoints are as the pass saw them.
  abbrev pub Unleased : AsyncInstanceRegistry → Type 0
  Unleased s = (s.leases ≡ r.leases) × ((e : String) → SameButCooled clock r s e)

  -- How a pass may end.
  abbrev pub PickSpec : String → Pass → Type 0
  PickSpec id (leased l s) = Chosen id l s
  PickSpec id (waits s) = Unleased s × ((e : String) (old : AsyncInstanceState) → ¬ Serves e old)
  PickSpec id (raises all_instances_unavailable s) =
      Unleased s
      × ((e : String) (old : AsyncInstanceState)
          → lookup e r.states ≡ some old
          → IsOpen r.cooldown (clock e) old)
  PickSpec id (raises key_error s) =
      Unleased s
      × ((e : String) × (old : AsyncInstanceState) × (lookup e r.states ≡ some old)
          × CanServe r.cooldown (clock e) old
          × (lookup e r.capacities ≡ none))
  PickSpec id (raises unknown_instance_lease s) = ⊥

  module _ (e : String) where
    Usable-Serves :
        (st : AsyncInstanceState) (u : Usable clock t p r e st) (c : EndpointCapacity)
        → lookup e r.capacities ≡ some c
        → has_capacity c p t st ≡ true
        → Serves e u.old
    unfolding has_capacity refreshed
    Usable-Serves st u c limits room = record {
      found = u.found;
      can = available-CanServe r.cooldown (clock e) u.old u.free;
      capacity = c;
      limits = limits;
      room = has_capacity-HasRoom c p t u.old (ground (arith, u.same, room));
    }

    as_seen :
        (old : AsyncInstanceState)
        → lookup e r.states ≡ some old
        → CanServe r.cooldown (clock e) old
        → Usable clock t p r e (refreshed r.cooldown (clock e) old)
    as_seen old found can = record {
      old = old;
      found = found;
      free = CanServe-available r.cooldown (clock e) old can;
      same = refl;
    }

    Serves-room :
        (old : AsyncInstanceState) (v : Serves e old)
        → has_capacity v.capacity p t (refreshed r.cooldown (clock e) old) ≡ true
    unfolding has_capacity refreshed
    Serves-room old v = ground (arith, HasRoom-has_capacity v.capacity p t old v.room)

    shut-IsOpen :
        ((st : AsyncInstanceState) → ¬ Usable clock t p r e st)
        → (old : AsyncInstanceState) → lookup e r.states ≡ some old
        → IsOpen r.cooldown (clock e) old
    shut-IsOpen none_usable old found = elim (Bool-cases (available r.cooldown (clock e) old)) [
      | inl free ↦ absurd (
          none_usable (refreshed r.cooldown (clock e) old)
            (record { old = old; found = found; free = free; same = refl }))
      | inr shut ↦ unavailable-IsOpen r.cooldown (clock e) old shut
    ]

  refreshed_lighter :
      (a b c d : AsyncInstanceState) (i j k l : ℕ)
      → refreshed i j a ≡ c
      → refreshed k l b ≡ d
      → lighter d c ≡ false
      → NotHeavier a b
  unfolding refreshed
  refreshed_lighter a b c d i j k l p q h = ground (arith, lighter-NotHeavier c d h)

  unleased : (s : AsyncInstanceRegistry) → s ≡ refresh clock r → Unleased s
  unleased s same = rw same (refl, refresh-SameButCooled clock r)

  module _ (id : String) (sel : AsyncInstanceState) (k : Picked clock t p r sel) where
    abbrev lease : InstanceLease
    lease = record { lease_id = id; endpoint = sel.endpoint; estimated_tokens = t }

    abbrev after : AsyncInstanceRegistry
    after = record r {
      states = insert sel.endpoint (reserve t p sel) (refresh clock r).states;
      leases = insert id (lease, p) r.leases;
    }

    other_endpoint : (e : String) → e ≢ sel.endpoint → SameButCooled clock r after e
    other_endpoint e differs =
        rw (lookup-insert_ne e sel.endpoint (reserve t p sel) (refresh clock r).states differs)
          (refresh-SameButCooled clock r e)

    sel-Chosen : Chosen id lease after
    sel-Chosen = record {
      old = k.usable.old;
      serves = Usable-Serves sel.endpoint sel k.usable k.capacity k.limits k.room;
      least = λ e other v.
          refreshed_lighter k.usable.old other sel (refreshed r.cooldown (clock e) other) r.cooldown
            (clock sel.endpoint) r.cooldown (clock e) k.usable.same refl
            (k.least e (refreshed r.cooldown (clock e) other) v.capacity
              (as_seen e other v.found v.can) v.limits (Serves-room e other v));
      named = refl;
      asked = refl;
      seen = sel;
      seen_as =
          subst (SeenAs r.cooldown (clock sel.endpoint) k.usable.old) k.usable.same
            (refreshed-SeenAs r.cooldown (clock sel.endpoint) k.usable.old);
      counted = lookup-insert_self sel.endpoint (reserve t p sel) (refresh clock r).states;
      others = other_endpoint;
      filed = lookup-insert_self id (lease, p) r.leases;
      other_leases = λ j differs. lookup-insert_ne j id (lease, p) r.leases differs;
    }

  true-not-false : (b : Bool) → b ≡ true → b ≡ false → ⊥
  true-not-false b yes_ no_ = ground arith

  spec-PickSpec : (id : String) (o : Pass) → AcquireSpec clock t p r id o → PickSpec id o
  spec-PickSpec id (leased l s) (sel, k, same) =
      subst (PickSpec id) (sym same) (sel-Chosen id sel k)
  spec-PickSpec id (waits s) (same, full) = (
    unleased s same,
    λ e old v. true-not-false _ (Serves-room e old v) (
        full e (refreshed r.cooldown (clock e) old) v.capacity (as_seen e old v.found v.can)
          v.limits),
  )
  spec-PickSpec id (raises all_instances_unavailable s) (same, shut) =
      (unleased s same, λ e old found. shut-IsOpen e (shut e) old found)
  spec-PickSpec id (raises key_error s) (same, (e, st, u, missing)) = (
    unleased s same,
    (e, u.old, u.found, available-CanServe r.cooldown (clock e) u.old u.free, missing),
  )
  spec-PickSpec id (raises unknown_instance_lease s) h = absurd h

  -- One pass of `acquire` on a sound registry. A lease is under the given id and for the given
  -- tokens; it goes to an endpoint whose circuit is closed or has cooled down and that has room
  -- within its three limits, and no other such endpoint has fewer tokens in flight, or as many and
  -- fewer requests, or as many of both and an earlier name; it is filed and counted at that
  -- endpoint. The pass waits only if no such endpoint exists, reports that all are unavailable only
  -- if every circuit is open and none has cooled down, and fails on a missing capacity only if an endpoint that can serve
  -- has none. On every branch the other endpoints stay as they were, but for the circuits that have
  -- cooled down, which are closed, and so do the other leases.
  pub acquire_picks : IsSound r → (id : String) → PickSpec id (acquire id clock t p r)
  acquire_picks v id = spec-PickSpec id (acquire id clock t p r) (acquire_lem clock t p r v id)

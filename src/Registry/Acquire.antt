-- ===== src/Registry/Acquire.antt =====
-- What one pass of `acquire` may do, on every branch.
use code_astra.Base.{
  ℕ, ◌≡◌, refl, ap, sym, subst, ◌∙◌, String, true, false, List, [], ◌∷◌, Option, none, some,
  string_eq, nat_eq, Bool-cases, inl, inr,
}
use code_astra.Base.Lists.{All}
use code_astra.Base.Dict.{lookup}
use code_astra.Registry.{
  AsyncInstanceRegistry, AsyncInstanceState, EndpointCapacity, available, refreshed, candidates,
  has_capacity, eligible, lighter, lightest,
}
use code_astra.Registry.Methods.{
  all_instances_unavailable, key_error, unknown_instance_lease, Pass, leased, waits, raises,
  lease_to, choose, select, refresh, acquire,
}
use code_astra.Registry.Invariant.{IsSound, SameLoad-refreshed}
use code_astra.Registry.Selection.{
  NotAfter, lightest-All, lightest-least, Candidate, candidates-All, available-All, eligible-All,
  eligible-none, roomy-All, All-weaken,
}

module _ (clock : String → ℕ) (t p : ℕ) (r : AsyncInstanceRegistry) where
  -- Endpoint `e` is registered, its circuit is closed or has cooled down, and `st` is its state
  -- after the pass has looked at it.
  pub record Usable (e : String) (st : AsyncInstanceState) : Type 0 where
    pub old : AsyncInstanceState
    pub found : lookup e r.states ≡ some old
    pub free : available r.cooldown (clock e) old ≡ true
    pub same : refreshed r.cooldown (clock e) old ≡ st

  -- The state picked is usable and has room, and no usable state with room is lighter.
  pub record Picked (sel : AsyncInstanceState) : Type 0 where
    pub usable : Usable sel.endpoint sel
    pub capacity : EndpointCapacity
    pub limits : lookup sel.endpoint r.capacities ≡ some capacity
    pub room : has_capacity capacity p t sel ≡ true
    pub least :
        (e : String) (st : AsyncInstanceState) (c : EndpointCapacity)
        → Usable e st
        → lookup e r.capacities ≡ some c
        → has_capacity c p t st ≡ true
        → lighter st sel ≡ false

  abbrev pub AcquireSpec : String → Pass → Type 0
  AcquireSpec id (leased l r') =
      (sel : AsyncInstanceState) × Picked sel
      × (leased l r' ≡ lease_to id t p sel (refresh clock r))
  AcquireSpec id (waits r') =
      (r' ≡ refresh clock r)
      × ((e : String) (st : AsyncInstanceState) (c : EndpointCapacity)
          → Usable e st
          → lookup e r.capacities ≡ some c
          → has_capacity c p t st ≡ false)
  AcquireSpec id (raises all_instances_unavailable r') =
      (r' ≡ refresh clock r) × ((e : String) (st : AsyncInstanceState) → ¬ Usable e st)
  AcquireSpec id (raises key_error r') =
      (r' ≡ refresh clock r)
      × ((e : String) × (st : AsyncInstanceState) × Usable e st × (lookup e r.capacities ≡ none))
  AcquireSpec id (raises unknown_instance_lease r') = ⊥

  module _ (v : IsSound r) where
    named : (e : String) (st : AsyncInstanceState) → lookup e r.states ≡ some st → st.endpoint ≡ e
    named e st h = (v.accounted e st h).named

    Candidate-Usable :
        (st : AsyncInstanceState) → Candidate r.cooldown clock r.states st → Usable st.endpoint st
    Candidate-Usable st c = record { old = c.old; found = c.found; free = c.free; same = c.same }

    -- What holds of every candidate holds of every usable state.
    Usable-All :
        (P : AsyncInstanceState → Type 0)
        → All P (candidates r.cooldown clock r.states)
        → (e : String) (st : AsyncInstanceState) → Usable e st
        → P st
    Usable-All P h e st u =
        subst P u.same (available-All r.cooldown clock P r.states h e u.old u.found u.free)

    Usable-named : (e : String) (st : AsyncInstanceState) → Usable e st → st.endpoint ≡ e
    Usable-named e st u =
        sym (ap (λ (s : AsyncInstanceState). s.endpoint) u.same)
        ∙ (SameLoad-refreshed r.cooldown (clock e) u.old).endpoint
        ∙ named e u.old u.found

    candidates-Usable :
        (l : List AsyncInstanceState)
        → candidates r.cooldown clock r.states ≡ l
        → All (λ st. Usable st.endpoint st) l
    candidates-Usable l cs = subst (All _) cs (
        All-weaken _ Candidate-Usable
          (candidates-All r.cooldown clock r.states v.distinct_states named))

    choose_lem :
        (id : String) (l : List AsyncInstanceState)
        → candidates r.cooldown clock r.states ≡ l
        → (o : Option (List AsyncInstanceState)) → eligible r.capacities p t l ≡ o
        → AcquireSpec id (choose id t p o (refresh clock r))
    choose_lem id l cs none e =
        let (st, u, missing) = eligible-none r.capacities p t _ l usable e in
        (refl, (st.endpoint, st, u, missing))
      where
        usable : All (λ st. Usable st.endpoint st) l
        usable = candidates-Usable l cs
    choose_lem id l cs (some []) e = (refl, λ ep st c u limits. full ep st c u limits)
      where
        no_room :
            All
              (λ st.
                (c : EndpointCapacity)
                → lookup st.endpoint r.capacities ≡ some c
                → has_capacity c p t st ≡ true
                → ⊥)
              l
        no_room = roomy-All r.capacities p t (λ _. ⊥) l [] e tt

        full :
            (ep : String) (st : AsyncInstanceState) (c : EndpointCapacity)
            → Usable ep st
            → lookup ep r.capacities ≡ some c
            → has_capacity c p t st ≡ false
        full ep st c u limits = elim (Bool-cases (has_capacity c p t st)) [
          | inl room ↦ absurd (
              Usable-All _ (subst (All _) (sym cs) no_room) ep st u c
                (rw (Usable-named ep st u) limits) room)
          | inr h ↦ h
        ]
    choose_lem id l cs (some (x ∷ es)) e =
        let (u, (c, limits, room)) = lightest-All _ x es chosen.0 chosen.1 in
        (
          lightest x es,
          record {
            usable = u;
            capacity = c;
            limits = limits;
            room = room;
            least = λ ep st c' u' limits' room'.
                Usable-All _ (subst (All _) (sym cs) lighter_none) ep st u' c'
                  (rw (Usable-named ep st u') limits') room';
          },
          refl,
        )
      where
        chosen :
            All
              (λ st.
                Usable st.endpoint st
                × ((c : EndpointCapacity) × (lookup st.endpoint r.capacities ≡ some c)
                    × (has_capacity c p t st ≡ true)))
              (x ∷ es)
        chosen = eligible-All r.capacities p t _ l (x ∷ es) (candidates-Usable l cs) e

        lighter_none :
            All
              (λ st.
                (c : EndpointCapacity)
                → lookup st.endpoint r.capacities ≡ some c
                → has_capacity c p t st ≡ true
                → NotAfter (lightest x es) st)
              l
        lighter_none = roomy-All r.capacities p t _ l (x ∷ es) e (lightest-least x es)

    -- One pass of `acquire` on a sound registry, in the words of the tests that the pass makes.
    pub acquire_lem : (id : String) → AcquireSpec id (acquire id clock t p r)
    unfolding acquire
    acquire_lem id = go (candidates r.cooldown clock r.states) refl
      where
        go :
            (l : List AsyncInstanceState)
            → candidates r.cooldown clock r.states ≡ l
            → AcquireSpec id (select id t p l (refresh clock r))
        go [] e = (refl, λ ep st u. Usable-All (λ _. ⊥) (subst (All (λ _. ⊥)) (sym e) tt) ep st u)
        go (x ∷ l) e = choose_lem id (x ∷ l) e (eligible r.capacities p t (x ∷ l)) refl

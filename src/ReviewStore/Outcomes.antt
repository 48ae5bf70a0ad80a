-- ===== src/ReviewStore/Outcomes.antt =====
-- What a save, a deletion and a guarded transition leave in the store.
use code_astra.Base.{
  String, Bool, true, false, not, List, [], ◌∷◌, ◌++◌, Option, none, some, ◌==◌, string_eq, nat_eq,
  pair_eq, if◌then◌else◌, ◌≡◌, refl, arith,
}
use code_astra.Base.Dict.{Dict, lookup, keep_entries, lookup-insert_self, lookup-erase_self}
use code_astra.Base.Result.{Result, ok, err}
use code_astra.Domain.Chunks.{ReviewChunk}
use code_astra.ReviewStore.{
  ReviewStore, ReviewSession, ReviewEvent, ReviewEventType, ChunkAttempt, StoreError, require_owner,
  when_owned, if_owner, save, append_event, persist,
}
use code_astra.ReviewStore.Enhanced.{delete, delete_review, is_owned}
use code_astra.ReviewStore.Rechecks.{
  transition_review_if_recheck_attempt, reports_true, matches_running_recheck,
}
use code_astra.ReviewStore.Running.{IsRunning, matches-IsRunning, IsRunning-matches}
use code_astra.ReviewStore.{get, next_event}
use code_astra.ReviewStore.Untouched.{values_of}

values_of-dropped {ℓ} :
    {V : Type ℓ} (review : V → String) (r : String) (d : Dict String V)
    → values_of review r (keep_entries (λ _ v. not (review v == r)) d) ≡ []
values_of-dropped review r [] = refl
values_of-dropped review r ((j, w) ∷ d) = ground (arith, values_of-dropped review r d)

lookup-dropped {ℓ} :
    {V : Type ℓ} (r key : String) (d : Dict (String × String) V)
    → lookup (r, key) (keep_entries (λ k _. not (k.0 == r)) d) ≡ none
unfolding lookup
lookup-dropped r key [] = refl
lookup-dropped r key ((j, w) ∷ d) = ground (arith, lookup-dropped r key d)

module _ {B F D A : Type 0} where
  -- Nothing of the review is in the store.
  pub record IsGone (r : String) (s : ReviewStore B F D A) : Type 0 where
    pub session : lookup r s.sessions ≡ none
    pub events : lookup r s.events ≡ none
    pub followups : (key : String) → lookup (r, key) s.followups ≡ none
    pub chunks : values_of (λ (c : ReviewChunk). c.review_id) r s.chunks ≡ []
    pub attempts : values_of (λ (a : ChunkAttempt A). a.review_id) r s.attempts ≡ []

  -- What a deletion may end in.
  abbrev pub DeleteSpec :
      String → String → ReviewStore B F D A → Bool × ReviewStore B F D A → Type 0
  DeleteSpec r owner_id s (true, t) =
      ((c : ReviewSession B) × (get r owner_id s ≡ some c)) × IsGone r t
  DeleteSpec r owner_id s (false, t) = (get r owner_id s ≡ none) × (t ≡ s)

  -- A deletion succeeds exactly for the owner of a review that is there, and then no session,
  -- event, follow-up, chunk or attempt of the review is left; otherwise nothing changes.
  pub delete_is_complete :
      (r owner_id : String) (s : ReviewStore B F D A)
      → DeleteSpec r owner_id s (delete r owner_id s)
  unfolding delete delete_review require_owner get
  delete_is_complete r owner_id s = go (if_owner owner_id (lookup r s.sessions)) refl
    where
      go :
          (o : Option (ReviewSession B))
          → if_owner owner_id (lookup r s.sessions) ≡ o
          → DeleteSpec r owner_id s (
              if◌then◌else◌ {A = Bool × ReviewStore B F D A}
                (is_owned o)
                (true, delete_review r s)
                (false, s))
      go none e = (e, refl)
      go (some c) e = (
        (c, e),
        record {
          session = lookup-erase_self r s.sessions;
          events = lookup-erase_self r s.events;
          followups = λ key. lookup-dropped r key s.followups;
          chunks = values_of-dropped (λ (c : ReviewChunk). c.review_id) r s.chunks;
          attempts = values_of-dropped (λ (a : ChunkAttempt A). a.review_id) r s.attempts;
        },
      )

  -- What a save may end in.
  abbrev pub SaveSpec :
      ReviewSession B
      → ReviewStore B F D A
      → Result StoreError (Unit {0}) × ReviewStore B F D A
      → Type 0
  SaveSpec session s (err e, t) = (get session.review_id session.owner_id s ≡ none) × (t ≡ s)
  SaveSpec session s (ok _, t) =
      (current : ReviewSession B) × (get session.review_id session.owner_id s ≡ some current)
      × (get session.review_id session.owner_id t ≡ some (record session { title = current.title }))

  -- A save is read back, except that the title stays the one that the store had; a save for
  -- another owner, or of a review that is not there, raises and changes nothing.
  pub save_get :
      (session : ReviewSession B) (s : ReviewStore B F D A) → SaveSpec session s (save session s)
  unfolding save require_owner get
  save_get session s = go (if_owner session.owner_id (lookup session.review_id s.sessions)) refl
    where
      go :
          (o : Option (ReviewSession B))
          → if_owner session.owner_id (lookup session.review_id s.sessions) ≡ o
          → SaveSpec session s (when_owned o (λ current. (ok tt, persist session current s)) s)
      go none e = (e, refl)
      go (some c) e = (
        c,
        e,
        rw (lookup-insert_self session.review_id (record session { title = c.title }) s.sessions)
            (ground arith),
      )

  -- What a transition under a recheck attempt may end in.
  abbrev pub RecheckSpec :
      ReviewSession B
      → String
      → ReviewEventType
      → D
      → ReviewStore B F D A
      → Result StoreError Bool × ReviewStore B F D A
      → Type 0
  RecheckSpec session attempt_id event data_of s (ok true, t) =
      (current : ReviewSession B) × (events : List (ReviewEvent D)) × (get session.review_id
          session.owner_id s
        ≡ some current)
      × IsRunning current attempt_id
      × (get session.review_id session.owner_id t ≡ some (record session { title = current.title }))
      × (lookup session.review_id s.events ≡ some events)
      × (lookup session.review_id t.events ≡ some (events ++ next_event events event data_of ∷ []))
  RecheckSpec session attempt_id event data_of s (ok false, t) =
      (current : ReviewSession B) × (get session.review_id session.owner_id s ≡ some current)
      × ¬ IsRunning current attempt_id
      × (t ≡ s)
  RecheckSpec session attempt_id event data_of s (err e, t) =
      (get session.review_id session.owner_id s ≡ none) × (t ≡ s)

  -- A transition under a recheck attempt takes effect exactly when the owner's review is there, its
  -- attempt is this one and is running, and its status is none of completed, cancelled and failed;
  -- then it saves the session, with the stored title, and appends one event. Else it changes
  -- nothing: it returns False if the review is there, and raises if not. The store is one where the
  -- review has its list of events.
  pub late_attempts_change_nothing :
      (session : ReviewSession B) (attempt_id : String) (event : ReviewEventType) (data_of : D)
      (s : ReviewStore B F D A) (events : List (ReviewEvent D))
      → lookup session.review_id s.events ≡ some events
      → RecheckSpec session attempt_id event data_of s
          (transition_review_if_recheck_attempt session attempt_id event data_of s)
  unfolding transition_review_if_recheck_attempt require_owner get
  late_attempts_change_nothing session attempt_id event data_of s events has =
      go (if_owner session.owner_id (lookup session.review_id s.sessions)) refl
    where
      accepted :
          (c : ReviewSession B)
          → if_owner session.owner_id (lookup session.review_id s.sessions) ≡ some c
          → matches_running_recheck c attempt_id ≡ true
          → (o : Option (List (ReviewEvent D))) → o ≡ some events
          → RecheckSpec session attempt_id event data_of s
              (reports_true (append_event session.review_id event data_of o (persist session c s)))
      accepted c e m none p = absurd (ground arith)
      accepted c e m (some l) p = (
        c,
        events,
        e,
        matches-IsRunning c attempt_id m,
        rw (lookup-insert_self session.review_id (record session { title = c.title }) s.sessions)
            (ground arith),
        has,
        ground (
          arith,
          lookup-insert_self session.review_id (l ++ next_event l event data_of ∷ []) s.events,
        ),
      )

      guarded :
          (c : ReviewSession B)
          → if_owner session.owner_id (lookup session.review_id s.sessions) ≡ some c
          → (b : Bool) → matches_running_recheck c attempt_id ≡ b
          → RecheckSpec session attempt_id event data_of s (
              if b
              then reports_true (
                  append_event session.review_id event data_of
                    (lookup session.review_id s.events)
                    (persist session c s))
              else (ok false, s))
      guarded c e true m = accepted c e m (lookup session.review_id s.events) has
      guarded c e false m =
          (c, e, λ runs. ground (arith, IsRunning-matches c attempt_id runs), refl)

      go :
          (o : Option (ReviewSession B))
          → if_owner session.owner_id (lookup session.review_id s.sessions) ≡ o
          → RecheckSpec session attempt_id event data_of s (
              when_owned o
                (λ current.
                  if matches_running_recheck current attempt_id
                  then reports_true (
                      append_event session.review_id event data_of
                        (lookup session.review_id s.events)
                        (persist session current s))
                  else (ok false, s))
                s)
      go none e = (e, refl)
      go (some c) e = guarded c e (matches_running_recheck c attempt_id) refl

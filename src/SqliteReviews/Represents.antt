-- ===== src/SqliteReviews/Represents.antt =====
-- When the tables hold what the store in memory holds, and the changes that keep it so.
use code_astra.Base.{
  ℕ, ◌+◌, ◌<◌, max, String, Bool, not, List, [], ◌∷◌, ◌++◌, Option, none, some, ◌==◌, string_eq,
  pair_eq, if◌then◌else◌, ◌≡◌, refl, sym, ap, subst, arith, Bool-cases, inl, inr,
}
use code_astra.Base.Lists.{length, filter, All, All-filter}
use code_astra.Base.Dict.{
  lookup, insert, erase, lookup-insert_self, lookup-insert_ne, lookup-erase_self, lookup-erase_ne,
}
use code_astra.Base.Sort.{sort_by, insert_by}
use code_astra.ReviewStore.{ReviewStore, ReviewSession, ReviewEvent}
use code_astra.ReviewStore.Numbering.{Numbered}
use code_astra.SqliteReviews.{
  Tables, SessionRow, EventRow, session_of, events_at, event_of, last_sequence, earlier, write_row,
  row_of,
}
use code_astra.SqliteReviews.Sessions.{read_session}

module _ {D : Type 0} where
  -- The greatest number of a list that goes on from `n`, with `n`.
  last-Numbered :
      (n : ℕ) (events : List (ReviewEvent D))
      → Numbered n events
      → max n (last_sequence events) ≡ n + length events
  last-Numbered n [] h = omega arith
  last-Numbered n (e ∷ events) (p, h) = omega (arith, last-Numbered (n + 1) events h)

  pub next-Numbered :
      (events : List (ReviewEvent D)) → Numbered 0 events → last_sequence events ≡ length events
  next-Numbered events h = omega (arith, last-Numbered 0 events h)

  above :
      (n m : ℕ) (events : List (ReviewEvent D))
      → m < n + 1
      → Numbered n events
      → All (λ e. m < e.sequence) events
  above n m [] le h = tt
  above n m (e ∷ events) le (p, h) = (omega arith, above (n + 1) m events (omega arith) h)

  insert-least :
      (e : ReviewEvent D) (events : List (ReviewEvent D))
      → All (λ f. e.sequence < f.sequence) events
      → insert_by earlier e events ≡ e ∷ events
  unfolding insert_by
  insert-least e [] h = refl
  insert-least e (f ∷ events) h = ground (arith, h.0)

  -- Events in order stay as they are where SQL sorts them, also if some are left out.
  pub sort-Numbered :
      (n : ℕ) (p : ReviewEvent D → Bool) (events : List (ReviewEvent D))
      → Numbered n events
      → sort_by earlier (filter p events) ≡ filter p events
  unfolding sort_by
  sort-Numbered n p [] h = refl
  sort-Numbered n p (e ∷ events) (q, h) = elim (Bool-cases (p e)) [
    | inl kept ↦
        rw (kept, sort-Numbered (n + 1) p events h)
          (insert-least e (filter p events) (
            All-filter (λ f. e.sequence < f.sequence) p events
              (above (n + 1) e.sequence events (omega arith) h)))
    | inr left_out ↦ rw left_out (sort-Numbered (n + 1) p events h)
  ]

  pub events_at-append :
      (k : String) (rows : List (EventRow D)) (row : EventRow D)
      → events_at k (rows ++ row ∷ [])
        ≡ (if row.review_id == k then events_at k rows ++ event_of row ∷ [] else events_at k rows)
  events_at-append k [] row = ground arith
  events_at-append k (first ∷ rows) row = ground (arith, events_at-append k rows row)

  pub events_at-removed :
      (k id : String) (rows : List (EventRow D))
      → events_at k (filter (λ (row : EventRow D). not (row.review_id == id)) rows)
        ≡ (if k == id then [] else events_at k rows)
  events_at-removed k id [] = ground arith
  events_at-removed k id (first ∷ rows) = ground (arith, events_at-removed k id rows)

module _ {B D : Type 0} where
  -- The events of a review, in memory and in their table; there is none without the review.
  abbrev pub EventsAgree :
      Option (ReviewSession B) → Option (List (ReviewEvent D)) → List (ReviewEvent D) → Type 0
  EventsAgree none l events = events ≡ []
  EventsAgree (some session) none events = ⊥
  EventsAgree (some session) (some l) events = (l ≡ events) × Numbered 0 l

  EventsAgree-some :
      (x y : ReviewSession B) (l : Option (List (ReviewEvent D))) (events : List (ReviewEvent D))
      → EventsAgree (some x) l events
      → EventsAgree (some y) l events
  EventsAgree-some x y none events h = h
  EventsAgree-some x y (some l) events h = h

module _ {B F D A : Type 0} where
  pub record Represents (t : Tables B F D A) (s : ReviewStore B F D A) : Type 0 where
    pub sessions : (k : String) → read_session (lookup k t.review_sessions) ≡ lookup k s.sessions
    pub events :
        (k : String)
        → EventsAgree (lookup k s.sessions) (lookup k s.events) (events_at k t.review_events)
    pub chunks : t.review_chunks ≡ s.chunks

  pub Represents-write :
      (id : String) (row : SessionRow B) (x c : ReviewSession B) (t : Tables B F D A)
      (s : ReviewStore B F D A)
      → Represents t s
      → lookup id s.sessions ≡ some c
      → session_of row ≡ x
      → Represents (write_row id row t) (record s { sessions = insert id x s.sessions })
  Represents-write id row x c t s h at same = record {
    sessions = λ k. written k (string_eq.dec k id);
    events = λ k. agreed k (string_eq.dec k id);
    chunks = h.chunks;
  }
    where
      written :
          (k : String)
          → Dec (k ≡ id)
          → read_session (lookup k (insert id row t.review_sessions))
            ≡ lookup k (insert id x s.sessions)
      written k (yes e) =
          rw (e, lookup-insert_self id row t.review_sessions, lookup-insert_self id x s.sessions)
            (ap some same)
      written k (no n) =
          rw (lookup-insert_ne k id row t.review_sessions n, lookup-insert_ne k id x s.sessions n)
            (h.sessions k)

      agreed :
          (k : String)
          → Dec (k ≡ id)
          → EventsAgree
              (lookup k (insert id x s.sessions))
              (lookup k s.events)
              (events_at k t.review_events)
      agreed k (yes e) =
          rw (e, lookup-insert_self id x s.sessions)
            (EventsAgree-some c x _ _ (
              subst (λ o. EventsAgree o (lookup id s.events) (events_at id t.review_events)) at
                (h.events id)))
      agreed k (no n) = rw (lookup-insert_ne k id x s.sessions n) (h.events k)

  pub Represents-create :
      (x : ReviewSession B) (t : Tables B F D A) (s : ReviewStore B F D A)
      → Represents t s
      → lookup x.review_id s.sessions ≡ none
      → Represents (write_row x.review_id (row_of x) t) (record s {
        sessions = insert x.review_id x s.sessions;
        events = insert x.review_id [] s.events;
        followups = insert (x.review_id, "review") [] s.followups;
      })
  Represents-create x t s h free = record {
    sessions = λ k. written k (string_eq.dec k x.review_id);
    events = λ k. agreed k (string_eq.dec k x.review_id);
    chunks = h.chunks;
  }
    where
      written :
          (k : String)
          → Dec (k ≡ x.review_id)
          → read_session (lookup k (insert x.review_id (row_of x) t.review_sessions))
            ≡ lookup k (insert x.review_id x s.sessions)
      written k (yes e) =
          rw
            (
              e,
              lookup-insert_self x.review_id (row_of x) t.review_sessions,
              lookup-insert_self x.review_id x s.sessions,
            )
            refl
      written k (no n) =
          rw
            (
              lookup-insert_ne k x.review_id (row_of x) t.review_sessions n,
              lookup-insert_ne k x.review_id x s.sessions n,
            )
            (h.sessions k)

      agreed :
          (k : String)
          → Dec (k ≡ x.review_id)
          → EventsAgree
              (lookup k (insert x.review_id x s.sessions))
              (lookup k (insert x.review_id [] s.events))
              (events_at k t.review_events)
      agreed k (yes e) =
          rw
            (
              e,
              lookup-insert_self x.review_id x s.sessions,
              lookup-insert_self x.review_id [] s.events,
            )
            (
              sym (
                  subst
                    (λ o.
                      EventsAgree o (lookup x.review_id s.events)
                        (events_at x.review_id t.review_events))
                    free (h.events x.review_id)),
              tt,
            )
      agreed k (no n) =
          rw
            (
              lookup-insert_ne k x.review_id x s.sessions n,
              lookup-insert_ne k x.review_id [] s.events n,
            )
            (h.events k)

  pub Represents-delete :
      (id : String) (t : Tables B F D A) (s : ReviewStore B F D A)
      → Represents t s
      → (k : String)
      → (read_session (lookup k (erase id t.review_sessions)) ≡ lookup k (erase id s.sessions))
        × EventsAgree
            (lookup k (erase id s.sessions))
            (lookup k (erase id s.events))
            (events_at k (filter (λ (row : EventRow D). not (row.review_id == id)) t.review_events))
  Represents-delete id t s h k = go (string_eq.dec k id)
    where
      go :
          Dec (k ≡ id)
          → (read_session (lookup k (erase id t.review_sessions)) ≡ lookup k (erase id s.sessions))
            × EventsAgree (lookup k (erase id s.sessions)) (lookup k (erase id s.events)) (
                events_at k
                  (filter (λ (row : EventRow D). not (row.review_id == id)) t.review_events))
      go (yes e) =
          rw (e, lookup-erase_self id t.review_sessions, lookup-erase_self id s.sessions)
            (refl, ground (arith, events_at-removed id id t.review_events))
      go (no n) =
          rw
            (
              lookup-erase_ne k id t.review_sessions n,
              lookup-erase_ne k id s.sessions n,
              lookup-erase_ne k id s.events n,
              events_at-removed k id t.review_events,
            )
            (h.sessions k, ground (arith, h.events k, n))

-- ===== src/ReviewStore/Numbering.antt =====
-- The events of a review are numbered from one without a gap, which is what `events_after` is
-- resumed by.
use code_astra.Base.{
  ℕ, zero, suc, ◌+◌, ◌≤◌, ltb, String, List, [], ◌∷◌, ◌++◌, Option, none, some, ◌==◌, string_eq,
  nat_eq, pair_eq, ◌≡◌, refl, subst, arith, Bool-cases, inl, inr,
}
use code_astra.Base.Lists.{length, filter, drop}
use code_astra.Base.Dict.{
  lookup, insert, erase, lookup-insert_self, lookup-insert_ne, lookup-erase_self, lookup-erase_ne,
}
use code_astra.Base.Result.{Result}
use code_astra.ReviewStore.{
  ReviewStore, ReviewSession, ReviewEvent, ReviewEventType, StoreError, require_owner, when_owned,
  if_owner, create, create_new, append_event, next_event, persist,
}
use code_astra.ReviewStore.Enhanced.{delete_review}

module _ {D : Type 0} where
  -- The events go on from the number `n`.
  abbrev pub Numbered : ℕ → List (ReviewEvent D) → Type 0
  Numbered n [] = Unit
  Numbered n (e ∷ events) = (e.sequence ≡ n + 1) × Numbered (n + 1) events

  pub Numbered-next :
      (n : ℕ) (events : List (ReviewEvent D)) (e : ReviewEvent D)
      → Numbered n events
      → e.sequence ≡ n + length events + 1
      → Numbered n (events ++ e ∷ [])
  Numbered-next n [] e h p = (omega arith, tt)
  Numbered-next n (first ∷ events) e (q, h) p = (q, Numbered-next (n + 1) events e h (omega arith))

  none_after :
      (n after : ℕ) (events : List (ReviewEvent D))
      → Numbered n events
      → after ≤ n
      → filter (λ (event : ReviewEvent D). ltb after event.sequence) events ≡ events
  none_after n after [] h le = refl
  none_after n after (e ∷ events) (p, h) le =
      ground (arith, none_after (n + 1) after events h (omega arith))

  pub after-drop :
      (m n after : ℕ) (events : List (ReviewEvent D))
      → m ≡ n + after
      → Numbered n events
      → filter (λ (event : ReviewEvent D). ltb m event.sequence) events ≡ drop after events
  after-drop m n zero events same h = none_after n m events h (omega arith)
  after-drop m n (suc after) [] same h = refl
  after-drop m n (suc after) (e ∷ events) same (p, h) =
      ground (arith, after-drop m (n + 1) after events (omega arith) h)

module _ {B D : Type 0} where
  abbrev pub Listed : Option (ReviewSession B) → Option (List (ReviewEvent D)) → Type 0
  Listed none events = Unit
  Listed (some session) none = ⊥
  Listed (some session) (some events) = Numbered 0 events

  Listed-some :
      (x c : ReviewSession B) (o : Option (List (ReviewEvent D)))
      → Listed (some c) o
      → Listed (some x) o
  Listed-some x c none l = l
  Listed-some x c (some events) l = l

module _ {B F D A : Type 0} where
  -- Each review that is there has its list of events, numbered from one.
  pub record IsNumbered (s : ReviewStore B F D A) : Type 0 where
    pub listed : (k : String) → Listed (lookup k s.sessions) (lookup k s.events)

  abbrev pub Keeps : ReviewStore B F D A → ReviewStore B F D A → Type 0
  Keeps s t = (t.sessions ≡ s.sessions) × (t.events ≡ s.events)

  pub IsNumbered-Keeps : (s t : ReviewStore B F D A) → Keeps s t → IsNumbered s → IsNumbered t
  IsNumbered-Keeps s t (p, q) h = record { listed = λ k. rw (p, q) (h.listed k) }

  pub renamed-IsNumbered :
      (id : String) (x c : ReviewSession B) (s : ReviewStore B F D A)
      → lookup id s.sessions ≡ some c
      → IsNumbered s
      → IsNumbered (record s { sessions = insert id x s.sessions })
  renamed-IsNumbered id x c s at h = record { listed = λ k. go k (string_eq.dec k id) }
    where
      go :
          (k : String)
          → Dec (k ≡ id)
          → Listed (lookup k (insert id x s.sessions)) (lookup k s.events)
      go k (yes same) =
          rw (same, lookup-insert_self id x s.sessions)
            (Listed-some x c _ (subst (λ o. Listed o (lookup id s.events)) at (h.listed id)))
      go k (no differs) = rw (lookup-insert_ne k id x s.sessions differs) (h.listed k)

  pub persist-IsNumbered :
      (session c : ReviewSession B) (s : ReviewStore B F D A)
      → lookup session.review_id s.sessions ≡ some c
      → IsNumbered s
      → IsNumbered (persist session c s)
  persist-IsNumbered session c s at h =
      renamed-IsNumbered session.review_id (record session { title = c.title }) c s at h

  pub append_event-IsNumbered :
      (id : String) (event : ReviewEventType) (data_of : D) (s : ReviewStore B F D A)
      → (o : Option (List (ReviewEvent D))) → lookup id s.events ≡ o
      → IsNumbered s
      → IsNumbered (append_event id event data_of o s).1
  append_event-IsNumbered id event data_of s none e h = h
  append_event-IsNumbered id event data_of s (some events) e h = record {
    listed = λ k. go k (string_eq.dec k id);
  }
    where
      longer :
          (o : Option (ReviewSession B))
          → Listed o (some events)
          → Listed o (some (events ++ next_event events event data_of ∷ []))
      longer none l = tt
      longer (some c) l = Numbered-next 0 events (next_event events event data_of) l (omega arith)

      go :
          (k : String)
          → Dec (k ≡ id)
          → Listed
              (lookup k s.sessions)
              (lookup k (insert id (events ++ next_event events event data_of ∷ []) s.events))
      go k (yes same) =
          rw (same, lookup-insert_self id (events ++ next_event events event data_of ∷ []) s.events)
            (longer (lookup id s.sessions)
              (subst (λ o. Listed (lookup id s.sessions) o) e (h.listed id)))
      go k (no differs) =
          rw
            (lookup-insert_ne k id (events ++ next_event events event data_of ∷ []) s.events
              differs)
            (h.listed k)

  pub create-IsNumbered :
      (session : ReviewSession B) (s : ReviewStore B F D A)
      → IsNumbered s
      → IsNumbered (create session s).1
  unfolding create
  create-IsNumbered session s h = go (lookup session.review_id s.sessions)
    where
      here :
          (k : String)
          → Dec (k ≡ session.review_id)
          → Listed
              (lookup k (insert session.review_id session s.sessions))
              (lookup k (insert session.review_id [] s.events))
      here k (yes same) =
          rw
            (
              same,
              lookup-insert_self session.review_id session s.sessions,
              lookup-insert_self session.review_id [] s.events,
            )
            tt
      here k (no differs) =
          rw
            (
              lookup-insert_ne k session.review_id session s.sessions differs,
              lookup-insert_ne k session.review_id [] s.events differs,
            )
            (h.listed k)

      go : (o : Option (ReviewSession B)) → IsNumbered (create_new o session s).1
      go (some _) = h
      go none = record { listed = λ k. here k (string_eq.dec k session.review_id) }

  pub delete_review-IsNumbered :
      (id : String) (s : ReviewStore B F D A) → IsNumbered s → IsNumbered (delete_review id s)
  unfolding delete_review
  delete_review-IsNumbered id s h = record { listed = λ k. go k (string_eq.dec k id) }
    where
      go :
          (k : String)
          → Dec (k ≡ id)
          → Listed (lookup k (erase id s.sessions)) (lookup k (erase id s.events))
      go k (yes same) = rw (same, lookup-erase_self id s.sessions) tt
      go k (no differs) =
          rw (lookup-erase_ne k id s.sessions differs, lookup-erase_ne k id s.events differs)
            (h.listed k)

  pub when_owned-IsNumbered :
      {X : Type 0} (id owner_id : String) (s : ReviewStore B F D A)
      (act : ReviewSession B → Result StoreError X × ReviewStore B F D A)
      → IsNumbered s
      → ((c : ReviewSession B) → lookup id s.sessions ≡ some c → IsNumbered (act c).1)
      → IsNumbered (when_owned (require_owner id owner_id s) act s).1
  unfolding require_owner
  when_owned-IsNumbered {X} id owner_id s act h keeps = go (lookup id s.sessions) refl
    where
      go :
          (o : Option (ReviewSession B))
          → lookup id s.sessions ≡ o
          → IsNumbered (when_owned (if_owner owner_id o) act s).1
      go none e = h
      go (some c) e = elim (Bool-cases (c.owner_id == owner_id)) [
        | inl same ↦ rw same (keeps c e)
        | inr differs ↦ rw differs h
      ]

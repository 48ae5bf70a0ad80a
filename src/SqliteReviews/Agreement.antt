-- ===== src/SqliteReviews/Agreement.antt =====
-- Steps that the two stores of reviews take alike.
use code_astra.Base.{
  ◌+◌, String, Bool, true, false, List, [], ◌∷◌, ◌++◌, Option, none, some, ◌==◌, string_eq,
  if◌then◌else◌, ◌≡◌, refl, sym, subst, ◌∙◌, arith, Bool-cases, inl, inr,
}
use code_astra.Base.Lists.{length}
use code_astra.Base.Dict.{lookup, insert, lookup-insert_self, lookup-insert_ne}
use code_astra.Base.Result.{Result}
use code_astra.ReviewStore
use code_astra.ReviewStore.{
  ReviewStore, ReviewSession, ReviewEvent, ReviewEventType, StoreError, next_event, after_sequence,
}
use code_astra.ReviewStore.Numbering.{Numbered-next}
use code_astra.SqliteReviews
use code_astra.SqliteReviews.{
  Tables, SessionRow, EventRow, SqlError, session_of, events_at, event_of, last_sequence, earlier,
  append_event, write_row, delete_session, row_of, update_all, update_status,
}
use code_astra.SqliteReviews.Sessions
use code_astra.SqliteReviews.Sessions.{read_session, preserve_title}
use code_astra.SqliteReviews.Clients.{Answer, told}
use code_astra.SqliteReviews.Represents.{EventsAgree, Represents, events_at-append, next-Numbered}

module _ {B F D A : Type 0} where
  -- The answers are the same, and so is what is held.
  abbrev pub Agrees : Answer B D × Tables B F D A → Answer B D × ReviewStore B F D A → Type 0
  Agrees (a, t) (b, s) = (a ≡ b) × Represents t s

  module _ (t : Tables B F D A) (s : ReviewStore B F D A) (h : Represents t s) where
    -- A method below the question for the owner.
    pub owned-Agrees :
        {X Y : Type 0} (f : X → Answer B D) (g : Y → Answer B D) (id owner : String)
        (act : SessionRow B → Result SqlError X × Tables B F D A)
        (act' : ReviewSession B → Result StoreError Y × ReviewStore B F D A)
        → ((row : SessionRow B)
            → lookup id s.sessions ≡ some (session_of row)
            → row.owner_id ≡ owner
            → Agrees (told f (act row)) (told g (act' (session_of row))))
        → Agrees
            (told f (
              Sessions.when_owned
                (SqliteReviews.if_owner owner (lookup id t.review_sessions))
                act
                t))
            (told g
              (ReviewStore.when_owned (ReviewStore.if_owner owner (lookup id s.sessions)) act' s))
    owned-Agrees {X} {Y} f g id owner act act' k =
        go (lookup id t.review_sessions) (lookup id s.sessions) (h.sessions id) refl
      where
        go :
            (o : Option (SessionRow B)) (p : Option (ReviewSession B))
            → read_session o ≡ p
            → lookup id s.sessions ≡ p
            → Agrees
                (told f (Sessions.when_owned (SqliteReviews.if_owner owner o) act t))
                (told g (ReviewStore.when_owned (ReviewStore.if_owner owner p) act' s))
        go none p e at = rw (← e) (refl, h)
        go (some row) p e at = rw (← e) (elim (Bool-cases (row.owner_id == owner)) [
          | inl same ↦ rw same (k row (at ∙ sym e) (ground (arith, same)))
          | inr differs ↦ rw differs (refl, h)
        ])

    pub if-Agrees :
        {X Y : Type 0} (f : X → Answer B D) (g : Y → Answer B D) (b : Bool)
        (v w : Result SqlError X × Tables B F D A)
        (v' w' : Result StoreError Y × ReviewStore B F D A)
        → Agrees (told f v) (told g v')
        → Agrees (told f w) (told g w')
        → Agrees (told f (if b then v else w)) (told g (if b then v' else w'))
    if-Agrees f g true v w v' w' p q = p
    if-Agrees f g false v w v' w' p q = q

    -- What an appended event leaves in both, and how it is numbered.
    pub record Appended (id : String) (e : ReviewEventType) (d : D) : Type 0 where
      pub stored : List (ReviewEvent D)
      pub at_review : lookup id s.events ≡ some stored
      pub same_event : (append_event id e d t).0 ≡ next_event stored e d
      pub represents :
          Represents
            (append_event id e d t).1
            (record s { events = insert id (stored ++ next_event stored e d ∷ []) s.events })

    pub append_lem :
        (id : String) (e : ReviewEventType) (d : D) (x : ReviewSession B)
        → lookup id s.sessions ≡ some x
        → Appended id e d
    append_lem id e d x at = go (lookup id s.events) refl (
        subst (λ o. EventsAgree o (lookup id s.events) (events_at id t.review_events)) at
          (h.events id))
      where
        go :
            (o : Option (List (ReviewEvent D)))
            → lookup id s.events ≡ o
            → EventsAgree (some x) o (events_at id t.review_events)
            → Appended id e d
        go none p a = absurd a
        go (some l) p (same, n) = record {
          stored = l;
          at_review = p;
          same_event = rw numbered refl;
          represents = record {
            sessions = h.sessions;
            events = λ k. agreed k (string_eq.dec k id);
            chunks = h.chunks;
          };
        }
          where
            numbered : last_sequence (events_at id t.review_events) ≡ length l
            numbered = rw (← same) (next-Numbered l n)

            row : EventRow D
            row = record {
              review_id = id;
              sequence = last_sequence (events_at id t.review_events) + 1;
              event = e;
              data_of = d;
            }

            agreed :
                (k : String)
                → Dec (k ≡ id)
                → EventsAgree
                    (lookup k s.sessions)
                    (lookup k (insert id (l ++ next_event l e d ∷ []) s.events))
                    (events_at k (t.review_events ++ row ∷ []))
            agreed k (yes is_id) =
                rw (is_id, at, lookup-insert_self id (l ++ next_event l e d ∷ []) s.events)
                  (longer, Numbered-next 0 l (next_event l e d) n (omega arith))
              where
                longer : l ++ next_event l e d ∷ [] ≡ events_at id (t.review_events ++ row ∷ [])
                longer =
                    rw (events_at-append id t.review_events row, numbered, ← same) (ground arith)
            agreed k (no other) =
                rw
                  (
                    lookup-insert_ne k id (l ++ next_event l e d ∷ []) s.events other,
                    events_at-append k t.review_events row,
                  )
                  (ground (arith, h.events k, other))

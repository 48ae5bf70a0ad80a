-- ===== src/ReviewStore.antt =====
-- src/code_review/application/review_store.py: the state of `ReviewStore` and the methods that it has
-- from `InMemoryReviewStore`. What the store only copies is left open: `B` is the rest of a session,
-- `F` a finding, `D` the data of an event and `A` the rest of an attempt. Each method holds the lock
-- throughout, so that a call is one step; a call that raises leaves the store as it was.
pub mod Enhanced
pub mod Rechecks
pub mod Untouched
pub mod Isolation
pub mod Ownership
pub mod OwnedChunks
pub mod Strangers
pub mod Outcomes
pub mod Running
pub mod Transitions
pub mod Numbering
pub mod Events
mod Tests
use code_astra.Base.{
  ℕ, suc, ◌+◌, String, Bool, true, false, not, ◌&&◌, ◌||◌, List, [], ◌∷◌, ◌++◌, map, Option, none,
  some, ltb, leb, ◌==◌, string_eq, nat_eq, pair_eq, if◌then◌else◌, text_lt,
}
use code_astra.Base.Lists.{length, filter, drop, take}
use code_astra.Base.Dict.{Dict, lookup, insert, erase, values, keep_entries}
use code_astra.Base.Sort.{sort_by}
use code_astra.Base.Result.{Result, ok, err}
use code_astra.Domain.Chunks.{ReviewChunk}

pub data ReviewStatus : Type 0 where
  planning queued analyzing reviewing validating aggregating completed cancelled failed :
      ReviewStatus

pub data RecheckStatus : Type 0 where
  running completed failed timed_out : RecheckStatus

pub record ReviewSession (B : Type 0) : Type 0 where
  pub review_id : String
  pub owner_id : String
  pub status : ReviewStatus
  pub created_at : ℕ
  pub expires_at : ℕ
  pub title : Option String
  pub recheck_attempt_id : Option String
  pub recheck_attempt_status : Option RecheckStatus
  pub rest : B

pub data ReviewEventType : Type 0 where
  stage chunk progress finding complete error cancelled : ReviewEventType

pub record ReviewEvent (D : Type 0) : Type 0 where
  pub sequence : ℕ
  pub event : ReviewEventType
  pub data_of : D

pub data Speaker : Type 0 where
  user assistant : Speaker

pub record FollowupMessage : Type 0 where
  pub message_id : String
  pub review_id : String
  pub role : Speaker
  pub context_key : String
  pub content : String
  pub created_at : ℕ

pub record ChunkAttempt (A : Type 0) : Type 0 where
  pub attempt_id : String
  pub review_id : String
  pub chunk_id : String
  pub rest : A

pub record ReviewStore (B F D A : Type 0) : Type 0 where
  pub sessions : Dict String (ReviewSession B)
  pub events : Dict String (List (ReviewEvent D))
  pub followups : Dict (String × String) (List FollowupMessage)
  pub chunks : Dict String ReviewChunk
  pub chunk_findings : Dict String (List F)
  pub attempts : Dict String (ChunkAttempt A)

pub data StoreError : Type 0 where
  key_error value_error : StoreError

abbrev pub or_empty {ℓ} : {A : Type ℓ} → Option (List A) → List A
or_empty none = []
or_empty (some l) = l

abbrev pub if_owner : {B : Type 0} → String → Option (ReviewSession B) → Option (ReviewSession B)
if_owner owner_id none = none
if_owner owner_id (some session) = if session.owner_id == owner_id then some session else none

-- The order of `sorted(…, reverse=True)` by the time and the id, which no two sessions share.
abbrev pub newer : {B : Type 0} → ReviewSession B → ReviewSession B → Bool
newer a b =
    if ltb b.created_at a.created_at
    then true
    else if ltb a.created_at b.created_at
    then false
    else text_lt b.review_id a.review_id

-- A read below `_require_owner`.
abbrev pub read_owned :
    {B X : Type 0} → Option (ReviewSession B) → Result StoreError X → Result StoreError X
read_owned none x = err key_error
read_owned (some _) x = x

abbrev pub after_sequence :
    {D : Type 0} → ℕ → Option (List (ReviewEvent D)) → Result StoreError (List (ReviewEvent D))
after_sequence {D = D} after none = err key_error
after_sequence {D = D} after (some events) =
    ok (filter (λ (event : ReviewEvent D). ltb after event.sequence) events)

abbrev pub is_exchange : Speaker → Speaker → Bool
is_exchange user assistant = true
is_exchange _ _ = false

abbrev pub next_event : {D : Type 0} → List (ReviewEvent D) → ReviewEventType → D → ReviewEvent D
next_event events event data_of = record {
  sequence = length events + 1;
  event = event;
  data_of = data_of;
}

module _ {B F D A : Type 0} where
  unfoldable pub init : ReviewStore B F D A
  init = record {
    sessions = [];
    events = [];
    followups = [];
    chunks = [];
    chunk_findings = [];
    attempts = [];
  }

  -- `_require_owner`; `none` is its KeyError.
  unfoldable pub require_owner : String → String → ReviewStore B F D A → Option (ReviewSession B)
  require_owner review_id owner_id s = if_owner owner_id (lookup review_id s.sessions)

  -- What a method does below `_require_owner`.
  abbrev pub when_owned :
      {X : Type 0}
      → Option (ReviewSession B)
      → (ReviewSession B → Result StoreError X × ReviewStore B F D A)
      → ReviewStore B F D A
      → Result StoreError X × ReviewStore B F D A
  when_owned none act s = (err key_error, s)
  when_owned (some current) act s = act current

  abbrev pub create_new :
      Option (ReviewSession B)
      → ReviewSession B
      → ReviewStore B F D A
      → Result StoreError (Unit {0}) × ReviewStore B F D A
  create_new (some _) session s = (err value_error, s)
  create_new none session s = (
    ok tt,
    record s {
      sessions = insert session.review_id session s.sessions;
      events = insert session.review_id [] s.events;
      followups = insert (session.review_id, "review") [] s.followups;
    },
  )

  unfoldable pub create :
      ReviewSession B → ReviewStore B F D A → Result StoreError (Unit {0}) × ReviewStore B F D A
  create session s = create_new (lookup session.review_id s.sessions) session s

  unfoldable pub get : String → String → ReviewStore B F D A → Option (ReviewSession B)
  get review_id owner_id s = if_owner owner_id (lookup review_id s.sessions)

  -- The session that is kept has the title that the store has.
  abbrev pub persist : ReviewSession B → ReviewSession B → ReviewStore B F D A → ReviewStore B F D A
  persist session current s = record s {
    sessions = insert session.review_id (record session { title = current.title }) s.sessions;
  }

  unfoldable pub save :
      ReviewSession B → ReviewStore B F D A → Result StoreError (Unit {0}) × ReviewStore B F D A
  save session s =
      when_owned (require_owner session.review_id session.owner_id s)
        (λ current. (ok tt, persist session current s)) s

  unfoldable pub update_title :
      String
      → String
      → String
      → ReviewStore B F D A
      → Result StoreError (ReviewSession B) × ReviewStore B F D A
  update_title review_id owner_id title s =
      when_owned (require_owner review_id owner_id s)
        (λ current.
          let renamed = record current { title = some title } in
          (ok renamed, record s { sessions = insert review_id renamed s.sessions }))
        s

  unfoldable pub list_sessions : String → ℕ → ℕ → ReviewStore B F D A → List (ReviewSession B)
  list_sessions owner_id limit offset s = take limit (
      drop offset (
        sort_by newer (
          filter (λ (session : ReviewSession B). session.owner_id == owner_id)
            (values s.sessions))))

  -- The lines that number an event and append it; `none` is a KeyError.
  abbrev pub append_event :
      String
      → ReviewEventType
      → D
      → Option (List (ReviewEvent D))
      → ReviewStore B F D A
      → Result StoreError (ReviewEvent D) × ReviewStore B F D A
  append_event review_id event data_of none s = (err key_error, s)
  append_event review_id event data_of (some events) s =
      let new = next_event events event data_of in
      (ok new, record s { events = insert review_id (events ++ new ∷ []) s.events })

  unfoldable pub publish :
      String
      → String
      → ReviewEventType
      → D
      → ReviewStore B F D A
      → Result StoreError (ReviewEvent D) × ReviewStore B F D A
  publish review_id owner_id event data_of s =
      when_owned (require_owner review_id owner_id s)
        (λ _. append_event review_id event data_of (lookup review_id s.events) s) s

  unfoldable pub events_after :
      String → String → ℕ → ReviewStore B F D A → Result StoreError (List (ReviewEvent D))
  events_after review_id owner_id after s =
      read_owned (require_owner review_id owner_id s)
        (after_sequence after (lookup review_id s.events))

  unfoldable pub followups_of :
      String → String → String → ReviewStore B F D A → Result StoreError (List FollowupMessage)
  followups_of review_id owner_id context_key s =
      read_owned (require_owner review_id owner_id s)
        (ok (or_empty (lookup (review_id, context_key) s.followups)))

  abbrev pub extend_followups :
      FollowupMessage
      → FollowupMessage
      → String
      → ReviewStore B F D A
      → Result StoreError (Unit {0}) × ReviewStore B F D A
  extend_followups question answer context_key s =
      if question.context_key == context_key && answer.context_key == context_key
      then (
        ok tt,
        record s {
          followups =
              insert (question.review_id, context_key)
                (or_empty (lookup (question.review_id, context_key) s.followups)
                  ++ question ∷ answer ∷ [])
                s.followups;
        },
      )
      else (err value_error, s)

  unfoldable pub append_followup_exchange :
      FollowupMessage
      → FollowupMessage
      → String
      → String
      → ReviewStore B F D A
      → Result StoreError (Unit {0}) × ReviewStore B F D A
  append_followup_exchange question answer owner_id context_key s =
      if question.review_id == answer.review_id && is_exchange question.role answer.role
      then when_owned (require_owner question.review_id owner_id s)
          (λ _. extend_followups question answer context_key s) s
      else (err value_error, s)

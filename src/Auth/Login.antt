-- ===== src/Auth/Login.antt =====
-- What a login checks, and what it leaves: one session of the user, which the new token opens.
use code_astra.Base.{
  ℕ, ◌+◌, ◌<◌, ◌≡◌, ◌≢◌, refl, ap, sym, subst, ◌∙◌, String, true, false, List, [], ◌∷◌, ◌++◌, none,
  some, string_eq, nat_eq, arith, Option-cases, inl, inr, ◌⊎◌,
}
use code_astra.Base.Lists.{All, All-append}
use code_astra.Base.Result.{ok}
use code_astra.Auth.{
  Platform, AuthUser, AuthSession, UserRow, SessionRow, Database, delete_user_sessions,
  find_username, find_user, active_user, join_session,
}
use code_astra.Auth.Store.{
  get_session, get_user_by_username, create_single_session, session_row, clashes, hours,
}
use code_astra.Auth.Service.{LoginResult, login}
use code_astra.Auth.Sessions.{Opens, get_session-All, delete_user_sessions-All}

module _ (x : Platform) (now : ℕ) (session_id token csrf username password : String)
    (db : Database) where
  abbrev new_row : UserRow → SessionRow
  new_row row = session_row x now session_id row.account.user_id token csrf

  abbrev logged_in : UserRow → Database
  logged_in row = record db {
    auth_sessions = delete_user_sessions row.account.user_id db.auth_sessions ++ new_row row ∷ [];
  }

  -- A login that succeeds: the row it found, what it tested, and the database it leaves.
  pub record LoggedIn (r : LoginResult) (after : Database) : Type 0 where
    pub row : UserRow
    pub named : find_username x username db.users ≡ some row
    pub verified : x.argon2_verify row.password_hash password ≡ true
    pub active : row.account.is_active ≡ true
    pub opened_for : r.user ≡ row.account
    pub opened_as : r.session_id ≡ session_id
    pub opened_with : r.session_token ≡ token
    pub unique :
        clashes x
          (session_row x now session_id row.account.user_id token csrf)
          (delete_user_sessions row.account.user_id db.auth_sessions)
        ≡ false
    pub left : after ≡ record db {
      auth_sessions =
          delete_user_sessions row.account.user_id db.auth_sessions
          ++ session_row x now session_id row.account.user_id token csrf ∷ [];
    }

  pub login_inv :
      (r : LoginResult) (after : Database)
      → login x now session_id token csrf username password db ≡ (ok r, after)
      → LoggedIn r after
  unfolding login get_user_by_username create_single_session
  login_inv r after h = elim (Option-cases (find_username x username db.users)) [
    | inl unknown ↦ absurd (ground arith)
    | inr (row, found) ↦ elim (Option-cases (find_user row.account.user_id db.users)) [
      | inl gone ↦ absurd (ground arith)
      | inr (owner, there) ↦ record {
        row = row;
        named = found;
        verified = ground arith;
        active = ground arith;
        opened_for = ground arith;
        opened_as = ground arith;
        opened_with = ground arith;
        unique = ground arith;
        left = ground arith;
      }
    ]
  ]

  -- After a login no other session of the user is open: whatever token opens one has the hash of
  -- the new token, opens the new session, and does so for twelve hours at most.
  pub login_is_single :
      (r : LoginResult) (after : Database) (later : ℕ) (t : String) (s : AuthSession) (u : AuthUser)
      → login x now session_id token csrf username password db ≡ (ok r, after)
      → (get_session x later t after).0 ≡ some (s, u)
      → u.user_id ≡ r.user.user_id
      → (x.sha256 t ≡ x.sha256 token) × (s.session_id ≡ session_id) × (later < now + hours 12)
  login_is_single r after later t s u h e same =
      let l = login_inv r after h in
      let (row, owner, p, o, is_owner, id) =
        get_session-All x later t (OnlyNew l.row) after s u (only l) e in
      let k =
        sym o.owner
        ∙ sym (ap (λ (v : AuthUser). v.user_id) is_owner)
        ∙ same
        ∙ ap (λ (v : AuthUser). v.user_id) l.opened_for in
      settled l.row row p k o id
    where
      OnlyNew : UserRow → SessionRow → Type 0
      OnlyNew mine row = (row.session.user_id ≢ mine.account.user_id) ⊎ (row ≡ new_row mine)

      others :
          (mine : UserRow) (rows : List SessionRow)
          → All (λ row. row.session.user_id ≢ mine.account.user_id) rows
          → All (OnlyNew mine) rows
      others mine [] a = tt
      others mine (row ∷ rows) a = (inl a.0, others mine rows a.1)

      only : (l : LoggedIn r after) → All (OnlyNew l.row) after.auth_sessions
      only l =
          subst (λ (d : Database). All (OnlyNew l.row) d.auth_sessions) (sym l.left)
            (All-append (OnlyNew l.row) _ _
              (others l.row _ (delete_user_sessions-All l.row.account.user_id db.auth_sessions))
              (inr refl, tt))

      settled :
          (mine : UserRow) (row : SessionRow) {owner : UserRow}
          → OnlyNew mine row
          → row.session.user_id ≡ mine.account.user_id
          → Opens (x.sha256 t) later row owner
          → s.session_id ≡ row.session.session_id
          → (x.sha256 t ≡ x.sha256 token) × (s.session_id ≡ session_id) × (later < now + hours 12)
      settled mine row (inl other) k o id = absurd (other k)
      settled mine row (inr new) k o id =
          let f =
            subst
              (λ (n : SessionRow).
                (n.token_hash ≡ x.sha256 t)
                × (s.session_id ≡ n.session.session_id)
                × (later < n.session.expires_at))
              new (o.hashed, id, o.live) in
          (sym f.0, f.1, f.2)

-- No user id is in the table twice.
abbrev pub DistinctIds : List UserRow → Type 0
DistinctIds [] = Unit
DistinctIds (row ∷ rows) = (find_user row.account.user_id rows ≡ none) × DistinctIds rows

found_by_id :
    (x : Platform) (name : String) (row : UserRow) (rows : List UserRow)
    → find_username x name rows ≡ some row
    → find_user row.account.user_id rows ≢ none
unfolding find_username find_user
found_by_id x name row [] h e = ground arith
found_by_id x name row (first ∷ rows) h e = ground (arith, found_by_id x name row rows)

active_by_name :
    (x : Platform) (name : String) (row : UserRow) (rows : List UserRow)
    → DistinctIds rows
    → find_username x name rows ≡ some row
    → row.account.is_active ≡ true
    → active_user row.account.user_id rows ≡ some row
unfolding find_username
active_by_name x name row [] d h a = absurd (ground arith)
active_by_name x name row (first ∷ rows) d h a =
    ground (arith, active_by_name x name row rows d.1, found_by_id x name row rows, d.0)

join-new :
    (x : Platform) (now : ℕ) (users : List UserRow) (new : SessionRow) (u : UserRow)
    (rows : List SessionRow)
    → clashes x new rows ≡ false
    → now < new.session.expires_at
    → active_user new.session.user_id users ≡ some u
    → join_session new.token_hash now users (rows ++ new ∷ []) ≡ some (new, u)
unfolding join_session
join-new x now users new u [] c live found = ground arith
join-new x now users new u (row ∷ rows) c live found =
    ground (arith, join-new x now users new u rows)

get_session_joined :
    (x : Platform) (now : ℕ) (token : String) (db : Database) (row : SessionRow) (u : UserRow)
    → join_session (x.sha256 token) now db.users db.auth_sessions ≡ some (row, u)
    → (get_session x now token db).0 ≡ some (record row.session { last_seen_at = now }, u.account)
unfolding get_session
get_session_joined x now token db row u h = rw (h, get_session)

-- If no user id is in the table twice, the token of a login that has just succeeded opens the new session, as the user who logged in,
-- at any time in the next twelve hours.
pub login_opens :
    (x : Platform) (now : ℕ) (session_id token csrf username password : String) (db : Database)
    (r : LoginResult) (after : Database) (later : ℕ)
    → DistinctIds db.users
    → login x now session_id token csrf username password db ≡ (ok r, after)
    → later < now + hours 12
    → (s : AuthSession) × ((get_session x later r.session_token after).0 ≡ some (s, r.user))
      × (s.session_id ≡ r.session_id)
login_opens x now session_id token csrf username password db r after later d h live =
    let l = login_inv x now session_id token csrf username password db r after h in
    let new = session_row x now session_id l.row.account.user_id token csrf in
    let found =
      join-new x later db.users new l.row
        (delete_user_sessions l.row.account.user_id db.auth_sessions) l.unique live
        (active_by_name x username l.row db.users d l.named l.active) in
    (
      record new.session { last_seen_at = later },
      rw (l.left, l.opened_with, l.opened_for) (get_session_joined x later token _ new l.row found),
      sym l.opened_as,
    )

-- ===== src/Auth/Revocation.antt =====
-- What closes sessions: logout, a new password, an account that is disabled, reset or deleted.
use code_astra.Base.{
  ℕ, ◌≤◌, ◌≡◌, ◌≢◌, refl, ap, sym, subst, String, Bool, true, false, List, Option, none, some, ◌==◌,
  string_eq, nat_eq, arith, Option-cases, Bool-cases, inl, inr, ◌⊎◌, [], ◌∷◌,
}
use Prim.Native.String.{count}
use code_astra.Base.Lists.{All}
use code_astra.Base.Result.{ok}
use code_astra.Auth.{
  Platform, AuthUser, AuthSession, SessionRow, Database, delete_user_sessions, find_session,
  UserRow, update_user,
}
use code_astra.Auth.Store.{
  get_session, get_user_by_username, verify_csrf, csrf_matches, check_csrf, revoke_session,
  revoke_user_sessions, set_password, with_password,
}
use code_astra.Auth.Service.{
  logout, logout_all, change_password, logged_out, changed, replace_password, hash_password,
  validate_new_password,
}
use code_astra.Auth.Sessions.{
  get_session-All, delete_user_sessions-All, delete_token-All, revoked_user_is_out,
}

abbrev pub is_session_of : String → Option (AuthSession × AuthUser) → Bool
is_session_of user_id none = false
is_session_of user_id (some (_, user)) = user.user_id == user_id

-- No token opens a session of this user, at any time.
abbrev pub IsOut : Platform → String → Database → Type 0
IsOut x user_id db =
    (later : ℕ) (token : String) → is_session_of user_id (get_session x later token db).0 ≡ false

pub IsOut-deleted :
    (x : Platform) (k : String) (rows : List SessionRow) (db : Database)
    → db.auth_sessions ≡ delete_user_sessions k rows
    → IsOut x k db
IsOut-deleted x k rows db same later token = elim (Option-cases (get_session x later token db).0) [
  | inl closed ↦ rw closed refl
  | inr ((s, u), e) ↦ rw e (ground (arith, revoked_user_is_out x later token k db s u gone e))
]
  where
    gone : All (λ row. row.session.user_id ≢ k) db.auth_sessions
    gone = subst (All (λ row. row.session.user_id ≢ k)) (sym same) (delete_user_sessions-All k rows)

module _ (x : Platform) where
  logged_out_inv :
      (close : AuthUser → Database → Database) (v : Option (AuthSession × AuthUser) × Database)
      (after : Database)
      → logged_out x close v ≡ (ok tt, after)
      → (s : AuthSession) × (u : AuthUser) × (v.0 ≡ some (s, u)) × (after ≡ close u v.1)
  logged_out_inv close (none, db) after h = absurd (ground arith)
  logged_out_inv close (some (s, u), db) after h = (s, u, refl, ground arith)

  changed_inv :
      (now : ℕ) (current new : String) (v : Option (AuthSession × AuthUser) × Database)
      (after : Database)
      → changed x now current new v ≡ (ok tt, after)
      → (s : AuthSession) × (u : AuthUser) × (v.0 ≡ some (s, u))
        × (replace_password x now current new u (get_user_by_username x u.username v.1) v.1
            ≡ (ok tt, after))
  changed_inv now current new (none, db) after h = absurd (ground arith)
  changed_inv now current new (some (s, u), db) after h = (s, u, refl, h)

-- What a replacement of a password has tested and done.
record Replaced (x : Platform) (now : ℕ) (current new : String) (u owner : AuthUser)
    (password_hash : String) (db after : Database) : Type 0 where
  same_user : owner.user_id ≡ u.user_id
  verified : x.argon2_verify password_hash current ≡ true
  long : 8 ≤ count new
  other : new ≢ current
  not_temporary : new ≢ "12345678"
  left :
      after
      ≡ revoke_user_sessions x u.user_id (set_password now u.user_id (x.argon2_hash new) false db)

replace_inv :
    (x : Platform) (now : ℕ) (current new : String) (u : AuthUser) (o : Option (AuthUser × String))
    (db after : Database)
    → replace_password x now current new u o db ≡ (ok tt, after)
    → (owner : AuthUser) × (password_hash : String) × (o ≡ some (owner, password_hash))
      × Replaced x now current new u owner password_hash db after
unfolding validate_new_password hash_password
replace_inv x now current new u none db after h = absurd (ground arith)
replace_inv x now current new u (some (owner, password_hash)) db after h = (
  owner,
  password_hash,
  refl,
  record {
    same_user = ground arith;
    verified = ground arith;
    long = ground arith;
    other = ground arith;
    not_temporary = ground arith;
    left = ground arith;
  },
)

-- The user's rows hold this password hash.
abbrev pub HaveHash : String → String → List UserRow → Type 0
HaveHash user_id hash = All (λ row. row.account.user_id ≡ user_id → row.password_hash ≡ hash)

update_user-HaveHash :
    (now : ℕ) (user_id hash : String) (rows : List UserRow)
    → HaveHash user_id hash (update_user user_id (with_password now hash false) rows)
unfolding update_user
update_user-HaveHash now user_id hash [] = tt
update_user-HaveHash now user_id hash (row ∷ rows) =
    (λ same. ground arith, update_user-HaveHash now user_id hash rows)

-- Some row of the session holds the hash of this CSRF token.
abbrev pub HasCsrf : Platform → String → String → List SessionRow → Type 0
HasCsrf x csrf session_id [] = ⊥
HasCsrf x csrf session_id (row ∷ rows) =
    ((row.session.session_id ≡ session_id) × (row.csrf_hash ≡ x.sha256 csrf))
    ⊎ HasCsrf x csrf session_id rows

csrf_matches-HasCsrf :
    (x : Platform) (csrf session_id : String) (rows : List SessionRow)
    → csrf_matches x csrf (find_session session_id rows) ≡ true
    → HasCsrf x csrf session_id rows
unfolding find_session
csrf_matches-HasCsrf x csrf session_id [] h = absurd (ground arith)
csrf_matches-HasCsrf x csrf session_id (row ∷ rows) h =
    elim (Bool-cases (row.session.session_id == session_id)) [
      | inl here ↦ inl (ground arith, ground arith)
      | inr there ↦ inr (csrf_matches-HasCsrf x csrf session_id rows (ground arith))
    ]

verify_csrf_inv :
    (x : Platform) (now : ℕ) (token csrf : String) (db : Database) (s : AuthSession) (u : AuthUser)
    → (verify_csrf x now token csrf db).0 ≡ some (s, u)
    → ((get_session x now token db).0 ≡ some (s, u))
      × HasCsrf x csrf s.session_id (get_session x now token db).1.auth_sessions
unfolding verify_csrf
verify_csrf_inv x now token csrf db s u = go (get_session x now token db)
  where
    v_of : AuthSession → AuthUser → Option (AuthSession × AuthUser)
    v_of a b = some (a, b)

    go :
        (v : Option (AuthSession × AuthUser) × Database)
        → (check_csrf x csrf v).0 ≡ some (s, u)
        → (v.0 ≡ some (s, u)) × HasCsrf x csrf s.session_id v.1.auth_sessions
    go (none, d) h = absurd (ground arith)
    go (some (s', u'), d) h =
        elim (Bool-cases (csrf_matches x csrf (find_session s'.session_id d.auth_sessions))) [
          | inl fits ↦
              let same : v_of s' u' ≡ v_of s u = ground arith in
              (same, csrf_matches-HasCsrf x csrf s.session_id d.auth_sessions (ground arith))
          | inr differs ↦ absurd (ground arith)
        ]

module _ (x : Platform) (now : ℕ) (token csrf : String) (db after : Database) where
  -- A logout closes the session of its token.
  pub logout_closes :
      (later : ℕ)
      → logout x now token csrf db ≡ (ok tt, after)
      → (get_session x later token after).0 ≡ none
  unfolding logout revoke_session
  logout_closes later h = elim (Option-cases (get_session x later token after).0) [
    | inl closed ↦ closed
    | inr (found, e) ↦
        let (row, owner, other, o, p, q) =
          get_session-All x later token (λ row. row.token_hash ≢ x.sha256 token) after found.0
            found.1 gone e in
        absurd (other o.hashed)
  ]
    where
      gone : All (λ row. row.token_hash ≢ x.sha256 token) after.auth_sessions
      gone =
          let (s, u, shown, same) =
            logged_out_inv x (λ _. revoke_session x token) (verify_csrf x now token csrf db) after
              h in
          rw same
            (delete_token-All (x.sha256 token) (verify_csrf x now token csrf db).1.auth_sessions)

  -- Logging out everywhere closes every session of the user whose token was shown.
  pub logout_all_closes :
      logout_all x now token csrf db ≡ (ok tt, after)
      → (s : AuthSession) × (u : AuthUser) × ((verify_csrf x now token csrf db).0 ≡ some (s, u))
        × IsOut x u.user_id after
  unfolding logout_all revoke_user_sessions
  logout_all_closes h =
      let (s, u, shown, same) =
        logged_out_inv x (λ user. revoke_user_sessions x user.user_id)
          (verify_csrf x now token csrf db) after h in
      (
        s,
        u,
        shown,
        IsOut-deleted x u.user_id (verify_csrf x now token csrf db).1.auth_sessions after
            (ap (λ (d : Database). d.auth_sessions) same),
      )

  -- A change of password that succeeds was asked for with a token that opens a session, and with
  -- the token whose hash is the CSRF hash of that session's row; it was given the current password
  -- of the session's user; the new one has eight characters or more, is another one and is not the
  -- temporary one; its hash is stored; and every session of the user is closed.
  pub change_password_closes :
      (again : ℕ) (current new : String)
      → change_password x now again token csrf current new db ≡ (ok tt, after)
      → (s : AuthSession) × (u : AuthUser) × (owner : AuthUser) × (password_hash : String)
        × ((get_session x now token db).0 ≡ some (s, u))
        × HasCsrf x csrf s.session_id (get_session x now token db).1.auth_sessions
        × (get_user_by_username x u.username (verify_csrf x now token csrf db).1
            ≡ some (owner, password_hash))
        × (owner.user_id ≡ u.user_id)
        × (x.argon2_verify password_hash current ≡ true)
        × (8 ≤ count new)
        × (new ≢ current)
        × (new ≢ "12345678")
        × (after.users
            ≡ (set_password again u.user_id
                (x.argon2_hash new)
                false
                (verify_csrf x now token csrf db).1).users)
        × HaveHash u.user_id (x.argon2_hash new) after.users
        × IsOut x u.user_id after
  unfolding change_password revoke_user_sessions set_password
  change_password_closes again current new h =
      let v = verify_csrf x now token csrf db in
      let (s, u, shown, done) = changed_inv x again current new v after h in
      let (owner, password_hash, e, k) =
        replace_inv x again current new u (get_user_by_username x u.username v.1) v.1 after done in
      (
        s,
        u,
        owner,
        password_hash,
        (verify_csrf_inv x now token csrf db s u shown).0,
        (verify_csrf_inv x now token csrf db s u shown).1,
        e,
        k.same_user,
        k.verified,
        k.long,
        k.other,
        k.not_temporary,
        ap (λ (d : Database). d.users) k.left,
        subst (HaveHash u.user_id (x.argon2_hash new)) (sym (ap (λ (d : Database). d.users) k.left))
            (update_user-HaveHash again u.user_id (x.argon2_hash new) v.1.users),
        IsOut-deleted x u.user_id v.1.auth_sessions after
            (ap (λ (d : Database). d.auth_sessions) k.left),
      )

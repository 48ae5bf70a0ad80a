-- ===== src/Auth/Service.antt =====
-- src/code_review/application/auth_service.py: `AuthService`. The tokens and ids that `secrets` and
-- uuid4 draw, and the clock at each store call, are arguments.
use Prim.Native.String.{count}
use code_astra.Base.{
  ℕ, String, false, not, ◌&&◌, List, Option, none, some, ltb, ◌==◌, string_eq, nat_eq,
  if◌then◌else◌,
}
use code_astra.Base.Result.{Result, ok, err, ◌>>=◌}
use code_astra.Auth.{Platform, AuthUser, AuthSession, Database}
use code_astra.Auth.Store.{
  AuthError, invalid_credentials, permission_error, value_error, get_user_by_username, get_session,
  create_single_session, revoke_user_sessions, revoke_session, verify_csrf, set_password,
}
use code_astra.Auth.Records.{list_user_sessions}

pub record LoginResult : Type 0 where
  pub user : AuthUser
  pub session_id : String
  pub session_token : String
  pub csrf_token : String

module _ (x : Platform) where
  unfoldable pub hash_password : String → Result AuthError String
  hash_password password =
      if ltb (count password) 8 then err value_error else ok (x.argon2_hash password)

  abbrev pub opened :
      AuthUser
      → String
      → String
      → Result AuthError AuthSession × Database
      → Result AuthError LoginResult × Database
  opened user token csrf (ok session, db) = (
    ok (record {
      user = user;
      session_id = session.session_id;
      session_token = token;
      csrf_token = csrf;
    }),
    db,
  )
  opened user token csrf (err e, db) = (err e, db)

  abbrev pub login_as :
      ℕ
      → String
      → String
      → String
      → String
      → Option (AuthUser × String)
      → Database
      → Result AuthError LoginResult × Database
  login_as now session_id token csrf password none db = (err invalid_credentials, db)
  login_as now session_id token csrf password (some (user, password_hash)) db =
      if x.argon2_verify password_hash password && user.is_active
      then opened user token csrf
          (create_single_session x now session_id user.user_id token csrf db)
      else (err invalid_credentials, db)

  unfoldable pub login :
      ℕ
      → String
      → String
      → String
      → String
      → String
      → Database
      → Result AuthError LoginResult × Database
  login now session_id token csrf username password db =
      login_as now session_id token csrf password (get_user_by_username x username db) db

  abbrev pub owner_of : Option (AuthSession × AuthUser) → Option AuthUser
  owner_of none = none
  owner_of (some (_, user)) = some user

  unfoldable pub current_user : ℕ → String → Database → Option AuthUser × Database
  current_user now token db = let (found, db') = get_session x now token db in (owner_of found, db')

  abbrev pub sessions_of :
      ℕ
      → Option (AuthSession × AuthUser) × Database
      → Result AuthError (String × List AuthSession) × Database
  sessions_of now (none, db) = (err permission_error, db)
  sessions_of now (some (current, user), db) =
      let (sessions, db') = list_user_sessions now user.user_id db in
      (ok (current.session_id, sessions), db')

  unfoldable pub active_sessions :
      ℕ → ℕ → String → Database → Result AuthError (String × List AuthSession) × Database
  active_sessions now later token db = sessions_of later (get_session x now token db)

  abbrev pub logged_out :
      (AuthUser → Database → Database)
      → Option (AuthSession × AuthUser) × Database
      → Result AuthError (Unit {0}) × Database
  logged_out close (none, db) = (err permission_error, db)
  logged_out close (some (_, user), db) = (ok tt, close user db)

  unfoldable pub logout : ℕ → String → String → Database → Result AuthError (Unit {0}) × Database
  logout now token csrf db =
      logged_out (λ _. revoke_session x token) (verify_csrf x now token csrf db)

  unfoldable pub logout_all :
      ℕ → String → String → Database → Result AuthError (Unit {0}) × Database
  logout_all now token csrf db =
      logged_out (λ user. revoke_user_sessions x user.user_id) (verify_csrf x now token csrf db)

  unfoldable pub validate_new_password : String → String → Result AuthError (Unit {0})
  validate_new_password current_password new_password =
      if ltb (count new_password) 8
      then err value_error
      else if new_password == current_password
      then err value_error
      else if new_password == "12345678"
      then err value_error
      else ok tt

  abbrev pub write_password :
      ℕ → AuthUser → Result AuthError String → Database → Result AuthError (Unit {0}) × Database
  write_password now user (err e) db = (err e, db)
  write_password now user (ok new_hash) db =
      (ok tt, revoke_user_sessions x user.user_id (set_password now user.user_id new_hash false db))

  -- The lines of `change_password` below the two look-ups.
  abbrev pub replace_password :
      ℕ
      → String
      → String
      → AuthUser
      → Option (AuthUser × String)
      → Database
      → Result AuthError (Unit {0}) × Database
  replace_password now current_password new_password user none db = (err invalid_credentials, db)
  replace_password now current_password new_password user (some (owner, password_hash)) db =
      if not (owner.user_id == user.user_id)
      then (err invalid_credentials, db)
      else if not (x.argon2_verify password_hash current_password)
      then (err invalid_credentials, db)
      else write_password now user
          (validate_new_password current_password new_password >>= λ _. hash_password new_password)
          db

  abbrev pub changed :
      ℕ
      → String
      → String
      → Option (AuthSession × AuthUser) × Database
      → Result AuthError (Unit {0}) × Database
  changed now current_password new_password (none, db) = (err permission_error, db)
  changed now current_password new_password (some (_, user), db) =
      replace_password now current_password new_password user
        (get_user_by_username x user.username db) db

  unfoldable pub change_password :
      ℕ → ℕ → String → String → String → String → Database → Result AuthError (Unit {0}) × Database
  unfolding hash_password validate_new_password
  change_password now later token csrf current_password new_password db =
      changed later current_password new_password (verify_csrf x now token csrf db)

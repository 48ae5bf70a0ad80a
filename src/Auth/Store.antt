-- ===== src/Auth/Store.antt =====
-- The methods of `SQLiteAuthStore` that sessions and passwords rest on. A method is a transaction:
-- where the store rolls back, the database is as it was. What uuid4 and the clock give is passed in.
use code_astra.Base.{
  ℕ, ◌+◌, ◌*◌, String, Bool, true, false, ◌||◌, List, [], ◌∷◌, ◌++◌, Option, none, some, ◌==◌,
  string_eq, nat_eq, if◌then◌else◌,
}
use code_astra.Base.Result.{Result, ok, err}
use code_astra.Auth.{
  Platform, user, is_user, AuthUser, AuthSession, UserRow, SessionRow, Database, find_user,
  find_username, find_session, delete_user_sessions, delete_token, update_ordinary, update_user,
  join_session, mark_seen,
}

-- What the store and the services raise.
pub data AuthError : Type 0 where
  invalid_credentials permission_error key_error value_error integrity_error assertion_error :
      AuthError
  runtime_error : AuthError

abbrev pub hours : ℕ → ℕ
hours n = n * 3_600_000_000

module _ (x : Platform) where
  unfoldable pub get_user_by_username : String → Database → Option (AuthUser × String)
  get_user_by_username username db = elim (find_username x username db.users) [
    | none ↦ none
    | some row ↦ some (row.account, row.password_hash)
  ]

  unfoldable pub get_session : ℕ → String → Database → Option (AuthSession × AuthUser) × Database
  get_session now token db = elim (join_session (x.sha256 token) now db.users db.auth_sessions) [
    | none ↦ (none, db)
    | some (s, u) ↦ (
      some (record s.session { last_seen_at = now }, u.account),
      record db { auth_sessions = mark_seen s.session.session_id now db.auth_sessions },
    )
  ]

  abbrev pub new_session : ℕ → String → String → AuthSession
  new_session now session_id user_id = record {
    session_id = session_id;
    user_id = user_id;
    created_at = now;
    expires_at = now + hours 12;
    last_seen_at = now;
  }

  abbrev pub session_row : ℕ → String → String → String → String → SessionRow
  session_row now session_id user_id token csrf_token = record {
    session = new_session now session_id user_id;
    token_hash = x.sha256 token;
    csrf_hash = x.sha256 csrf_token;
  }

  -- `INSERT INTO auth_sessions`: its primary key, its unique hashes and the user that it names.
  abbrev pub clashes : SessionRow → List SessionRow → Bool
  clashes new [] = false
  clashes new (row ∷ rows) =
      row.session.session_id == new.session.session_id
      || (row.token_hash == new.token_hash || clashes new rows)

  abbrev pub insert_session :
      SessionRow → Option UserRow → Database → Database → Result AuthError AuthSession × Database
  insert_session new none cleared db = (err integrity_error, db)
  insert_session new (some _) cleared db =
      if clashes new cleared.auth_sessions
      then (err integrity_error, db)
      else (ok new.session, record cleared { auth_sessions = cleared.auth_sessions ++ new ∷ [] })

  unfoldable pub create_session :
      ℕ → String → String → String → String → Database → Result AuthError AuthSession × Database
  create_session now session_id user_id token csrf_token db =
      insert_session (session_row now session_id user_id token csrf_token)
        (find_user user_id db.users) db db

  unfoldable pub create_single_session :
      ℕ → String → String → String → String → Database → Result AuthError AuthSession × Database
  create_single_session now session_id user_id token csrf_token db =
      insert_session (session_row now session_id user_id token csrf_token)
        (find_user user_id db.users)
        (record db { auth_sessions = delete_user_sessions user_id db.auth_sessions }) db

  unfoldable pub revoke_user_sessions : String → Database → Database
  revoke_user_sessions user_id db = record db {
    auth_sessions = delete_user_sessions user_id db.auth_sessions;
  }

  unfoldable pub revoke_session : String → Database → Database
  revoke_session token db = record db {
    auth_sessions = delete_token (x.sha256 token) db.auth_sessions;
  }

  abbrev pub csrf_matches : String → Option SessionRow → Bool
  csrf_matches csrf_token none = false
  csrf_matches csrf_token (some row) = row.csrf_hash == x.sha256 csrf_token

  abbrev pub check_csrf :
      String
      → Option (AuthSession × AuthUser) × Database
      → Option (AuthSession × AuthUser) × Database
  check_csrf csrf_token (none, db) = (none, db)
  check_csrf csrf_token (some (s, u), db) =
      if csrf_matches csrf_token (find_session s.session_id db.auth_sessions)
      then (some (s, u), db)
      else (none, db)

  unfoldable pub verify_csrf :
      ℕ → String → String → Database → Option (AuthSession × AuthUser) × Database
  verify_csrf now token csrf_token db = check_csrf csrf_token (get_session now token db)

  abbrev pub found_account : Option UserRow → Database → Result AuthError AuthUser × Database
  found_account none db = (err assertion_error, db)
  found_account (some row) db = (ok row.account, db)

  abbrev pub new_user : ℕ → String → String → String → UserRow
  new_user now user_id username password_hash = record {
    account = record {
      user_id = user_id;
      username = username;
      role = user;
      is_active = true;
      must_change_password = true;
      created_at = now;
      updated_at = now;
      password_changed_at = now;
    };
    password_hash = password_hash;
  }

  -- `INSERT INTO users`: its primary key and its unique name. The name is stripped where it is
  -- inserted, and looked up as it came.
  abbrev pub insert_user :
      String
      → UserRow
      → Option UserRow
      → Option UserRow
      → Database
      → Result AuthError AuthUser × Database
  insert_user username new none none db =
      let added = db.users ++ new ∷ [] in
      found_account (find_username x username added) (record db { users = added })
  insert_user username new (some _) _ db = (err integrity_error, db)
  insert_user username new none (some _) db = (err integrity_error, db)

  unfoldable pub create_user :
      ℕ → String → String → String → Database → Result AuthError AuthUser × Database
  create_user now user_id username password_hash db =
      insert_user username (new_user now user_id (x.strip username) password_hash)
        (find_user user_id db.users) (find_username x (x.strip username) db.users) db

abbrev pub activated : ℕ → Bool → UserRow → UserRow
activated now active row = record row {
  account = record row.account { is_active = active; updated_at = now };
}

abbrev pub revoke_unless : Bool → String → Database → Database
revoke_unless true user_id db = db
revoke_unless false user_id db = record db {
  auth_sessions = delete_user_sessions user_id db.auth_sessions;
}

abbrev pub set_found :
    String → Bool → Option UserRow → Database → Result AuthError AuthUser × Database
set_found user_id active none db = (err key_error, db)
set_found user_id active (some row) db =
    if is_user row.account.role
    then (ok row.account, revoke_unless active user_id db)
    else (err key_error, db)

unfoldable pub set_user_active : ℕ → String → Bool → Database → Result AuthError AuthUser × Database
set_user_active now user_id active db =
    let updated = record db { users = update_ordinary user_id (activated now active) db.users } in
    set_found user_id active (find_user user_id updated.users) updated

abbrev pub with_password : ℕ → String → Bool → UserRow → UserRow
with_password now password_hash must_change row = record row {
  password_hash = password_hash;
  account = record row.account {
    must_change_password = must_change;
    updated_at = now;
    password_changed_at = now;
  };
}

unfoldable pub set_password : ℕ → String → String → Bool → Database → Database
set_password now user_id password_hash must_change db = record db {
  users = update_user user_id (with_password now password_hash must_change) db.users;
}

-- The row count of the update is one exactly where the user is there and is no administrator, the
-- key being primary.
abbrev pub reset_found :
    ℕ → String → String → Option UserRow → Database → Result AuthError (Unit {0}) × Database
reset_found now user_id password_hash none db = (err key_error, db)
reset_found now user_id password_hash (some row) db =
    if is_user row.account.role
    then (
      ok tt,
      record db {
        users = update_ordinary user_id (with_password now password_hash true) db.users;
        auth_sessions = delete_user_sessions user_id db.auth_sessions;
      },
    )
    else (err permission_error, db)

unfoldable pub reset_user_password :
    ℕ → String → String → Database → Result AuthError (Unit {0}) × Database
reset_user_password now user_id password_hash db =
    reset_found now user_id password_hash (find_user user_id db.users) db

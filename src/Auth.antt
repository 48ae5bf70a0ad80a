-- ===== src/Auth.antt =====
-- The rows of infrastructure/persistence/sqlite_auth_store.py and the statements that its methods
-- run, over lists of rows. Times are natural numbers; the ISO texts that the store writes compare
-- as the times do. What is not of this repository is a parameter, `Platform`.
pub mod Store
pub mod Records
pub mod Service
pub mod Admin
pub mod Sessions
pub mod Login
pub mod Revocation
pub mod Protection
pub mod Removal
pub mod Deletion
mod Tests
use code_astra.Base.{
  ℕ, String, Bool, true, false, not, ◌&&◌, List, [], ◌∷◌, Option, none, some, ltb, ◌==◌, string_eq,
  nat_eq, if◌then◌else◌,
}
use code_astra.Base.Lists.{filter}

-- hashlib.sha256, argon2's `hash` (with the salt that it draws) and `verify` (a mismatch is `false`),
-- SQLite's NOCASE key of a text, and `str.strip`.
pub record Platform : Type 0 where
  pub sha256 : String → String
  pub argon2_hash : String → String
  pub argon2_verify : String → String → Bool
  pub nocase : String → String
  pub strip : String → String

pub data Role : Type 0 where
  admin user : Role

abbrev pub is_user : Role → Bool
is_user admin = false
is_user user = true

-- domain/auth_models.py: `AuthUser`, `AuthSession`
pub record AuthUser : Type 0 where
  pub user_id : String
  pub username : String
  pub role : Role
  pub is_active : Bool
  pub must_change_password : Bool
  pub created_at : ℕ
  pub updated_at : ℕ
  pub password_changed_at : ℕ

pub record AuthSession : Type 0 where
  pub session_id : String
  pub user_id : String
  pub created_at : ℕ
  pub expires_at : ℕ
  pub last_seen_at : ℕ

-- A row of `users` is what `_user` reads and the hash.
pub record UserRow : Type 0 where
  pub account : AuthUser
  pub password_hash : String

-- A row of `auth_sessions` is a session and the hashes of its tokens.
pub record SessionRow : Type 0 where
  pub session : AuthSession
  pub token_hash : String
  pub csrf_hash : String

-- `model_runs` is a table that the database may lack; of its rows and of the reviews the store
-- reads the ids alone.
pub record Database : Type 0 where
  pub users : List UserRow
  pub auth_sessions : List SessionRow
  pub review_sessions : List (String × String)
  pub model_runs : Option (List String)

-- `SELECT … FROM users WHERE user_id=?`, its first row
unfoldable pub find_user : String → List UserRow → Option UserRow
find_user user_id [] = none
find_user user_id (row ∷ rows) =
    if row.account.user_id == user_id then some row else find_user user_id rows

-- `… WHERE username=?`, under the column's collation
unfoldable pub find_username : Platform → String → List UserRow → Option UserRow
find_username x username [] = none
find_username x username (row ∷ rows) =
    if x.nocase row.account.username == x.nocase username
    then some row
    else find_username x username rows

-- `… WHERE session_id=?`, its first row
unfoldable pub find_session : String → List SessionRow → Option SessionRow
find_session session_id [] = none
find_session session_id (row ∷ rows) =
    if row.session.session_id == session_id then some row else find_session session_id rows

-- `DELETE FROM auth_sessions WHERE user_id=?` and `… WHERE token_hash=?`
abbrev pub delete_user_sessions : String → List SessionRow → List SessionRow
delete_user_sessions user_id = filter (λ row. not (row.session.user_id == user_id))

abbrev pub delete_token : String → List SessionRow → List SessionRow
delete_token token_hash = filter (λ row. not (row.token_hash == token_hash))

-- `UPDATE users SET … WHERE user_id=? AND role='user'`, and without the role
unfoldable pub update_ordinary : String → (UserRow → UserRow) → List UserRow → List UserRow
update_ordinary user_id f [] = []
update_ordinary user_id f (row ∷ rows) =
    (if row.account.user_id == user_id && is_user row.account.role then f row else row)
    ∷ update_ordinary user_id f rows

unfoldable pub update_user : String → (UserRow → UserRow) → List UserRow → List UserRow
update_user user_id f [] = []
update_user user_id f (row ∷ rows) =
    (if row.account.user_id == user_id then f row else row) ∷ update_user user_id f rows

-- The row of an active user.
abbrev pub active_user : String → List UserRow → Option UserRow
active_user user_id [] = none
active_user user_id (row ∷ rows) =
    if row.account.user_id == user_id && row.account.is_active
    then some row
    else active_user user_id rows

-- The first row of the join in `get_session`.
abbrev pub or_join :
    Option UserRow → SessionRow → Option (SessionRow × UserRow) → Option (SessionRow × UserRow)
or_join none row rest = rest
or_join (some u) row rest = some (row, u)

unfoldable pub join_session :
    String → ℕ → List UserRow → List SessionRow → Option (SessionRow × UserRow)
join_session token_hash now users [] = none
join_session token_hash now users (row ∷ rows) =
    let rest = join_session token_hash now users rows in
    if row.token_hash == token_hash && ltb now row.session.expires_at
    then or_join (active_user row.session.user_id users) row rest
    else rest

abbrev pub mark_seen : String → ℕ → List SessionRow → List SessionRow
mark_seen session_id now [] = []
mark_seen session_id now (row ∷ rows) =
    (if row.session.session_id == session_id
      then record row { session = record row.session { last_seen_at = now } }
      else row)
    ∷ mark_seen session_id now rows

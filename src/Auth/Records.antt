-- ===== src/Auth/Records.antt =====
-- The remaining methods of `SQLiteAuthStore`: what it lists and counts, and the removal of a user
-- with all that the user owns.
use code_astra.Base.{
  ℕ, String, Bool, true, false, not, ◌&&◌, ◌||◌, List, [], ◌∷◌, map, Option, none, some, ltb, ◌==◌,
  string_eq, nat_eq, if◌then◌else◌, text_lt,
}
use code_astra.Base.Lists.{filter, length}
use code_astra.Base.Result.{Result, ok, err}
use code_astra.Base.Sort.{sort_by}
use code_astra.Auth.{
  is_user, AuthSession, UserRow, SessionRow, Database, find_user, delete_user_sessions,
}
use code_astra.Auth.Store.{AuthError, key_error, permission_error, integrity_error}

-- `ORDER BY created_at DESC, session_id DESC`
abbrev pub newer : AuthSession → AuthSession → Bool
newer a b =
    if ltb b.created_at a.created_at
    then true
    else if ltb a.created_at b.created_at
    then false
    else text_lt b.session_id a.session_id

-- The expired sessions of every user are deleted first.
unfoldable pub list_user_sessions : ℕ → String → Database → List AuthSession × Database
list_user_sessions now user_id db =
    let live = filter (λ (row : SessionRow). ltb now row.session.expires_at) db.auth_sessions in
    (
      sort_by newer (
          map (λ (row : SessionRow). row.session)
            (filter (λ (row : SessionRow). row.session.user_id == user_id) live)),
      record db { auth_sessions = live },
    )

pub record UserStats : Type 0 where
  pub total : ℕ
  pub active : ℕ
  pub disabled : ℕ

unfoldable pub user_stats : Database → UserStats
user_stats db = record {
  total = length db.users;
  active = length (filter (λ (row : UserRow). row.account.is_active) db.users);
  disabled = length (filter (λ (row : UserRow). not row.account.is_active) db.users);
}

-- `SELECT review_id … WHERE owner_id=? ORDER BY review_id`
unfoldable pub review_ids_for_owner : String → Database → List String
review_ids_for_owner user_id db = sort_by text_lt (
    map (λ (row : String × String). row.0)
      (filter (λ (row : String × String). row.1 == user_id) db.review_sessions))

abbrev pub owns : String → String → List (String × String) → Bool
owns user_id review_id [] = false
owns user_id review_id (row ∷ rows) =
    (row.0 == review_id && row.1 == user_id) || owns user_id review_id rows

abbrev pub delete_runs :
    String → List (String × String) → Option (List String) → Option (List String)
delete_runs user_id reviews none = none
delete_runs user_id reviews (some runs) =
    some (filter (λ review_id. not (owns user_id review_id reviews)) runs)

abbrev pub without_user : String → Database → Database
without_user user_id db = record db {
  users = filter (λ row. not (row.account.user_id == user_id && is_user row.account.role)) db.users;
  auth_sessions = delete_user_sessions user_id db.auth_sessions;
  review_sessions = filter (λ row. not (row.1 == user_id)) db.review_sessions;
  model_runs = delete_runs user_id db.review_sessions db.model_runs;
}

abbrev known : Option UserRow → Bool
known none = false
known (some _) = true

abbrev sessions_known : List UserRow → List SessionRow → Bool
sessions_known users [] = true
sessions_known users (row ∷ rows) =
    known (find_user row.session.user_id users) && sessions_known users rows

abbrev reviews_known : List UserRow → List (String × String) → Bool
reviews_known users [] = true
reviews_known users (row ∷ rows) = known (find_user row.1 users) && reviews_known users rows

-- `PRAGMA foreign_key_check` finds nothing: sessions and reviews name users that are there.
unfoldable pub references_hold : Database → Bool
references_hold db =
    sessions_known db.users db.auth_sessions && reviews_known db.users db.review_sessions

-- The last deletion has one row exactly where the user is there and is no administrator, the key
-- being primary. Every raise rolls back.
abbrev pub delete_found :
    String → Option UserRow → Database → Result AuthError (Unit {0}) × Database
delete_found user_id none db = (err key_error, db)
delete_found user_id (some row) db =
    if is_user row.account.role
    then (if references_hold (without_user user_id db)
        then (ok tt, without_user user_id db)
        else (err integrity_error, db))
    else (err permission_error, db)

unfoldable pub delete_user_record : String → Database → Result AuthError (Unit {0}) × Database
unfolding references_hold
delete_user_record user_id db = delete_found user_id (find_user user_id db.users) db

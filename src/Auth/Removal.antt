-- ===== src/Auth/Removal.antt =====
-- Disabling and resetting an account, and a creation that raises after its row is written.
use code_astra.Base.{
  ℕ, ◌≡◌, ◌≢◌, String, false, List, [], ◌∷◌, ◌++◌, none, string_eq, nat_eq, arith, inl, inr, ◌⊎◌,
}
use code_astra.Base.Result.{ok, err}
use code_astra.Auth.{Platform, AuthUser, UserRow, Database, find_username, find_user}
use code_astra.Auth.Store.{
  create_user, assertion_error, new_user, set_user_active, reset_user_password,
}
use code_astra.Auth.Admin.{admin_set_active, admin_reset_password}
use code_astra.Auth.Revocation.{IsOut, IsOut-deleted}

-- Disabling an account, or resetting its password, closes every session of the user.
pub disabling_closes :
    (x : Platform) (now : ℕ) (k temporary_hash : String) (db after : Database)
    → ((u : AuthUser) × (admin_set_active now k false db ≡ (ok u, after)))
      ⊎ (admin_reset_password now k temporary_hash db ≡ (ok tt, after))
    → IsOut x k after
unfolding admin_set_active set_user_active admin_reset_password reset_user_password
disabling_closes x now k temporary_hash db after (inl (u, h)) =
    IsOut-deleted x k db.auth_sessions after (ground arith)
disabling_closes x now k temporary_hash db after (inr h) =
    IsOut-deleted x k db.auth_sessions after (ground arith)

find-snoc :
    (x : Platform) (name : String) (new : UserRow) (rows : List UserRow)
    → find_username x name rows ≡ none
    → x.nocase new.account.username ≢ x.nocase name
    → find_username x name (rows ++ new ∷ []) ≡ none
unfolding find_username
find-snoc x name new [] h d = ground arith
find-snoc x name new (row ∷ rows) h d = ground (arith, find-snoc x name new rows)

-- With a fresh user id, a free name with spaces around it, whose stripped form is free and another
-- one to the column's collation, is stored stripped and then looked up as it came: the call raises after the row is written.
pub spaced_name_raises :
    (x : Platform) (now : ℕ) (k username password_hash : String) (db : Database)
    → find_user k db.users ≡ none
    → find_username x (x.strip username) db.users ≡ none
    → find_username x username db.users ≡ none
    → x.nocase (x.strip username) ≢ x.nocase username
    → create_user x now k username password_hash db ≡ (
      err assertion_error,
      record db { users = db.users ++ new_user x now k (x.strip username) password_hash ∷ [] },
    )
unfolding create_user
spaced_name_raises x now k username password_hash db fresh free unknown differs = rw (
  fresh,
  free,
  find-snoc x username (new_user x now k (x.strip username) password_hash) db.users unknown differs,
)

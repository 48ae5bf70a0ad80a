-- ===== src/Auth/Admin.antt =====
-- src/code_review/application/user_admin_service.py: `UserAdminService`.
use code_astra.Base.{
  ◌++◌, ℕ, String, Bool, true, false, ◌||◌, List, [], ◌∷◌, Option, none, some, ◌==◌, string_eq,
  nat_eq, if◌then◌else◌,
}
use code_astra.Base.Result.{Result, ok, err}
use code_astra.Auth.{AuthUser, UserRow, Database, is_user, find_user}
use code_astra.Auth.Store.{
  AuthError, key_error, permission_error, runtime_error, set_user_active, reset_user_password,
}
use code_astra.Auth.Records.{review_ids_for_owner, delete_user_record}

abbrev pub ordinary : Option UserRow → Result AuthError AuthUser
ordinary none = err key_error
ordinary (some row) = if is_user row.account.role then ok row.account else err permission_error

unfoldable pub ordinary_user : String → Database → Result AuthError AuthUser
ordinary_user user_id db = ordinary (find_user user_id db.users)

abbrev pub when_ordinary :
    {A : Type 0}
    → Result AuthError AuthUser
    → (Database → Result AuthError A × Database)
    → Database
    → Result AuthError A × Database
when_ordinary (err e) act db = (err e, db)
when_ordinary (ok _) act db = act db

unfoldable pub admin_set_active :
    ℕ → String → Bool → Database → Result AuthError AuthUser × Database
unfolding ordinary_user
admin_set_active now user_id active db =
    when_ordinary (ordinary_user user_id db) (set_user_active now user_id active) db

-- `self._password_hasher(self.TEMPORARY_PASSWORD)` is an argument.
unfoldable pub admin_reset_password :
    ℕ → String → String → Database → Result AuthError (Unit {0}) × Database
unfolding ordinary_user
admin_reset_password now user_id temporary_hash db =
    when_ordinary (ordinary_user user_id db) (reset_user_password now user_id temporary_hash) db

pub record BatchUserResult : Type 0 where
  pub user_id : String
  pub error : Option AuthError

abbrev pub outcome : {A : Type 0} → String → Result AuthError A → BatchUserResult
outcome user_id (ok _) = record { user_id = user_id; error = none }
outcome user_id (err e) = record { user_id = user_id; error = some e }

abbrev pub seen : String → List String → Bool
seen k [] = false
seen k (j ∷ l) = k == j || seen k l

-- `dict.fromkeys`: the first of each, in order. The first list is what has been met.
unfoldable pub distinct : List String → List String → List String
distinct met [] = []
distinct met (k ∷ l) =
    let rest = distinct (k ∷ met) l in
    let skipped = distinct met l in if seen k met then skipped else k ∷ rest

unfoldable pub set_each : ℕ → Bool → List String → Database → List BatchUserResult × Database
unfolding admin_set_active
set_each now active [] db = ([], db)
set_each now active (user_id ∷ user_ids) db =
    let (r, db') = admin_set_active now user_id active db in
    let (results, db'') = set_each now active user_ids db' in (outcome user_id r ∷ results, db'')

unfoldable pub batch_set_active :
    ℕ → Bool → List String → Database → List BatchUserResult × Database
unfolding distinct set_each
batch_set_active now active user_ids db = set_each now active (distinct [] user_ids) db

-- What a deletion asks of the review service and of `UserDataPurger`, in order.
pub data DeletionCall : Type 0 where
  asked_cancel staged restored finalized : String → DeletionCall

-- How the purger answers: `stage` gives a ticket or raises, the others return or raise.
pub record Purger : Type 0 where
  pub stages : String → Result AuthError (Unit {0})
  pub restores : String → Result AuthError (Unit {0})
  pub finalizes : String → Result AuthError (Unit {0})

-- How the review service answers `cancel`, with a truth value or by raising, and the purger; `none`
-- where there is no service or no purger. What a cancellation writes is not in the tables of
-- `Database`: the review's status and its events.
pub record Collaborators : Type 0 where
  pub cancels : Option (String → Result AuthError Bool)
  pub purger : Option Purger

-- An answer to `cancel`, where `rest` is what the loop does after a true one.
abbrev pub unless_cancelled :
    String
    → Result AuthError Bool
    → Result AuthError (Unit {0}) × List DeletionCall
    → Result AuthError (Unit {0}) × List DeletionCall
unless_cancelled review_id (err e) rest = (err e, asked_cancel review_id ∷ [])
unless_cancelled review_id (ok false) rest = (err runtime_error, asked_cancel review_id ∷ [])
unless_cancelled review_id (ok true) (r, calls) = (r, asked_cancel review_id ∷ calls)

abbrev pub cancel_each :
    (String → Result AuthError Bool) → List String → Result AuthError (Unit {0}) × List DeletionCall
cancel_each cancel [] = (ok tt, [])
cancel_each cancel (review_id ∷ review_ids) =
    unless_cancelled review_id (cancel review_id) (cancel_each cancel review_ids)

abbrev pub cancel_all :
    Option (String → Result AuthError Bool)
    → List String
    → Result AuthError (Unit {0}) × List DeletionCall
cancel_all none review_ids = (ok tt, [])
cancel_all (some cancel) review_ids = cancel_each cancel review_ids

-- A restore that raises does so in place of the error that it handles.
abbrev pub after_restore : AuthError → Result AuthError (Unit {0}) → Result AuthError (Unit {0})
after_restore e (ok _) = err e
after_restore e (err failure) = err failure

abbrev pub settle_files :
    Purger
    → String
    → Result AuthError (Unit {0}) × Database
    → Result AuthError (Unit {0}) × Database × List DeletionCall
settle_files p user_id (ok _, db) =
    (p.finalizes user_id, db, staged user_id ∷ finalized user_id ∷ [])
settle_files p user_id (err e, db) =
    (after_restore e (p.restores user_id), db, staged user_id ∷ restored user_id ∷ [])

abbrev pub delete_staged :
    Result AuthError (Unit {0})
    → Purger
    → String
    → Database
    → Result AuthError (Unit {0}) × Database × List DeletionCall
delete_staged (err e) p user_id db = (err e, db, [])
delete_staged (ok _) p user_id db = settle_files p user_id (delete_user_record user_id db)

abbrev pub delete_files :
    Option Purger → String → Database → Result AuthError (Unit {0}) × Database × List DeletionCall
delete_files none user_id db = let (r, db') = delete_user_record user_id db in (r, db', [])
delete_files (some p) user_id db = delete_staged (p.stages user_id) p user_id db

abbrev pub delete_cancelled :
    Collaborators
    → String
    → Result AuthError (Unit {0}) × List DeletionCall
    → Database
    → Result AuthError (Unit {0}) × Database × List DeletionCall
delete_cancelled c user_id (err e, calls) db = (err e, db, calls)
delete_cancelled c user_id (ok _, calls) db =
    let (r, db', later) = delete_files c.purger user_id db in (r, db', calls ++ later)

abbrev pub delete_ordinary :
    Collaborators
    → String
    → Result AuthError AuthUser
    → Database
    → Result AuthError (Unit {0}) × Database × List DeletionCall
delete_ordinary c user_id (err e) db = (err e, db, [])
delete_ordinary c user_id (ok _) db =
    delete_cancelled c user_id (cancel_all c.cancels (review_ids_for_owner user_id db)) db

unfoldable pub delete_user :
    Collaborators → String → Database → Result AuthError (Unit {0}) × Database × List DeletionCall
unfolding ordinary_user
delete_user c user_id db = delete_ordinary c user_id (ordinary_user user_id db) db

-- ===== src/Auth/Protection.antt =====
-- What an administrator's calls may change: never an administrator's row, and a user's account
-- together with the user's sessions.
use code_astra.Base.{
  ℕ, ◌≡◌, refl, ◌∙◌, String, Bool, true, not, ◌&&◌, List, [], ◌∷◌, ◌++◌, ◌==◌, string_eq, nat_eq,
  arith,
}
use code_astra.Base.Lists.{filter}
use code_astra.Auth.{Platform, UserRow, Database, user, is_user, update_ordinary}
use code_astra.Auth.Store.{
  create_user, new_user, set_user_active, reset_user_password, activated, with_password,
}
use code_astra.Auth.Records.{delete_user_record}
use code_astra.Auth.Admin.{
  admin_set_active, admin_reset_password, batch_set_active, set_each, distinct, Collaborators,
  delete_user,
}

abbrev pub admins : List UserRow → List UserRow
admins = filter (λ row. not (is_user row.account.role))

-- The calls of `UserAdminService` that write.
pub data AdminCall : Type 0 where
  creates : ℕ → String → String → String → AdminCall
  activates : ℕ → String → Bool → AdminCall
  batches : ℕ → Bool → List String → AdminCall
  resets : ℕ → String → String → AdminCall
  deletes : Collaborators → String → AdminCall

unfoldable pub admin_step : Platform → AdminCall → Database → Database
admin_step x (creates now user_id username temporary_hash) db =
    (create_user x now user_id username temporary_hash db).1
admin_step x (activates now user_id active) db = (admin_set_active now user_id active db).1
admin_step x (batches now active user_ids) db = (batch_set_active now active user_ids db).1
admin_step x (resets now user_id temporary_hash) db =
    (admin_reset_password now user_id temporary_hash db).1
admin_step x (deletes c user_id) db = (delete_user c user_id db).1

unfoldable pub admin_run : Platform → List AdminCall → Database → Database
admin_run x [] db = db
admin_run x (call ∷ calls) db = admin_run x calls (admin_step x call db)

admins-update_ordinary :
    (k : String) (f : UserRow → UserRow) (rows : List UserRow)
    → ((row : UserRow) → (f row).account.role ≡ row.account.role)
    → admins (update_ordinary k f rows) ≡ admins rows
unfolding update_ordinary
admins-update_ordinary k f [] same = refl
admins-update_ordinary k f (row ∷ rows) same =
    ground (arith, same row, admins-update_ordinary k f rows same)

admins-snoc :
    (new : UserRow) (rows : List UserRow)
    → new.account.role ≡ user
    → admins (rows ++ new ∷ []) ≡ admins rows
admins-snoc new [] h = ground arith
admins-snoc new (row ∷ rows) h = ground (arith, admins-snoc new rows h)

admins-without :
    (k : String) (rows : List UserRow)
    → admins (filter (λ row. not (row.account.user_id == k && is_user row.account.role)) rows)
      ≡ admins rows
admins-without k [] = refl
admins-without k (row ∷ rows) = ground (arith, admins-without k rows)

admins-set_user_active :
    (now : ℕ) (k : String) (active : Bool) (db : Database)
    → admins (set_user_active now k active db).1.users ≡ admins db.users
unfolding set_user_active
admins-set_user_active now k active db =
    ground (arith, admins-update_ordinary k (activated now active) db.users (λ row. refl))

admins-admin_set_active :
    (now : ℕ) (k : String) (active : Bool) (db : Database)
    → admins (admin_set_active now k active db).1.users ≡ admins db.users
unfolding admin_set_active
admins-admin_set_active now k active db = ground (arith, admins-set_user_active now k active db)

admins-set_each :
    (now : ℕ) (active : Bool) (ks : List String) (db : Database)
    → admins (set_each now active ks db).1.users ≡ admins db.users
unfolding set_each
admins-set_each now active [] db = refl
admins-set_each now active (k ∷ ks) db =
    admins-set_each now active ks (admin_set_active now k active db).1
    ∙ admins-admin_set_active now k active db

admins-create_user :
    (x : Platform) (now : ℕ) (k name temporary_hash : String) (db : Database)
    → admins (create_user x now k name temporary_hash db).1.users ≡ admins db.users
unfolding create_user
admins-create_user x now k name temporary_hash db =
    ground (arith, admins-snoc (new_user x now k (x.strip name) temporary_hash) db.users refl)

admins-reset :
    (now : ℕ) (k temporary_hash : String) (db : Database)
    → admins (admin_reset_password now k temporary_hash db).1.users ≡ admins db.users
unfolding admin_reset_password reset_user_password
admins-reset now k temporary_hash db =
    ground (
      arith,
      admins-update_ordinary k (with_password now temporary_hash true) db.users (λ row. refl),
    )

admins-delete_user_record :
    (k : String) (db : Database) → admins (delete_user_record k db).1.users ≡ admins db.users
unfolding delete_user_record
admins-delete_user_record k db = ground (arith, admins-without k db.users)

admins-delete_user :
    (c : Collaborators) (k : String) (db : Database)
    → admins (delete_user c k db).1.users ≡ admins db.users
unfolding delete_user
admins-delete_user c k db = ground (arith, admins-delete_user_record k db)

admins-admin_step :
    (x : Platform) (call : AdminCall) (db : Database)
    → admins (admin_step x call db).users ≡ admins db.users
unfolding admin_step batch_set_active
admins-admin_step x (creates now k name h) db = admins-create_user x now k name h db
admins-admin_step x (activates now k active) db = admins-admin_set_active now k active db
admins-admin_step x (batches now active ks) db = admins-set_each now active (distinct [] ks) db
admins-admin_step x (resets now k h) db = admins-reset now k h db
admins-admin_step x (deletes c k) db = admins-delete_user c k db

-- Whatever calls are made on `UserAdminService`, and whatever they are given, the administrators'
-- rows stay as they are.
pub admins_are_protected :
    (x : Platform) (calls : List AdminCall) (db : Database)
    → admins (admin_run x calls db).users ≡ admins db.users
unfolding admin_run
admins_are_protected x [] db = refl
admins_are_protected x (call ∷ calls) db =
    admins_are_protected x calls (admin_step x call db) ∙ admins-admin_step x call db

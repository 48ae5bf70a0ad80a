-- ===== src/Auth/Tests.antt =====
-- Runs of the accounts, and their theorems at concrete inputs.
use code_astra.Base.TextOrder.{text_differs}
use code_astra.Base.{
  ◌+◌, ◌≤◌, ◌<◌, String, ◌≡◌, refl, ◌≢◌, inl, true, false, List, [], ◌∷◌, none, some, arith, ◌==◌,
  string_eq, nat_eq, if◌then◌else◌,
}
use Prim.Native.String.{count}
use code_astra.Base.Result.{ok, err}
use code_astra.Base.Sort.{sort_by}
use code_astra.Auth.{
  Platform, Role, admin, user, AuthUser, AuthSession, UserRow, SessionRow, Database, find_user,
  find_username, find_session, join_session, update_user, update_ordinary,
}
use code_astra.Auth.Store.{
  assertion_error, get_session, get_user_by_username, create_single_session, revoke_session,
  revoke_user_sessions, verify_csrf, create_user, new_user, session_row, set_password,
  set_user_active, hours,
}
use code_astra.Auth.Records.{review_ids_for_owner, references_hold, delete_user_record}
use code_astra.Auth.Service.{
  LoginResult, hash_password, login, logout, logout_all, change_password, validate_new_password,
}
use code_astra.Auth.Admin.{
  Collaborators, admin_set_active, delete_user, ordinary_user, finalized, staged, asked_cancel,
}
use code_astra.Auth.Login.{DistinctIds, login_is_single, login_opens}
use code_astra.Auth.Revocation.{
  IsOut, HasCsrf, HaveHash, logout_closes, logout_all_closes, change_password_closes,
}
use code_astra.Auth.Protection.{
  admins, AdminCall, creates, activates, batches, resets, deletes, admin_run, admins_are_protected,
}
use code_astra.Auth.Removal.{disabling_closes, spaced_name_raises}
use code_astra.Auth.Deletion.{deletion_outcomes, DeletionSpec}

-- Plain texts stand for their hashes.
abbrev plain : Platform
plain = record {
  sha256 = λ s. s;
  argon2_hash = λ s. s;
  argon2_verify = λ h p. h == p;
  nocase = λ s. s;
  strip = λ s. if s == " eve " then "eve" else s;
}

abbrev account : String → String → Role → AuthUser
account user_id username role = record {
  user_id = user_id;
  username = username;
  role = role;
  is_active = true;
  must_change_password = false;
  created_at = 1;
  updated_at = 1;
  password_changed_at = 1;
}

abbrev ann : UserRow
ann = record { account = account "u1" "ann" user; password_hash = "ann's word" }

abbrev root : UserRow
root = record { account = account "u0" "root" admin; password_hash = "root's word" }

abbrev old_session : SessionRow
old_session = session_row plain 1 "s0" "u1" "t0" "c0"

abbrev office : Database
office = record {
  users = root ∷ ann ∷ [];
  auth_sessions = old_session ∷ [];
  review_sessions = ("r1", "u1") ∷ [];
  model_runs = some ("r1" ∷ []);
}

abbrev ticket : LoginResult
ticket = record { user = ann.account; session_id = "s1"; session_token = "t1"; csrf_token = "c1" }

abbrev entered : Database
entered = record office { auth_sessions = session_row plain 2 "s1" "u1" "t1" "c1" ∷ [] }

ann_logs_in : login plain 2 "s1" "t1" "c1" "ann" "ann's word" office ≡ (ok ticket, entered)
unfolding login get_user_by_username create_single_session find_username find_user string_eq
ann_logs_in = refl

abbrev new_login : AuthSession
new_login = record {
  session_id = "s1";
  user_id = "u1";
  created_at = 2;
  expires_at = 2 + hours 12;
  last_seen_at = 3;
}

new_token_opens : (get_session plain 3 "t1" entered).0 ≡ some (new_login, ann.account)
unfolding get_session join_session string_eq
new_token_opens = refl

office-DistinctIds : DistinctIds office.users
unfolding find_user string_eq
office-DistinctIds = (refl, (refl, tt))

login_is_single_example :
    (plain.sha256 "t1" ≡ plain.sha256 "t1") × (new_login.session_id ≡ "s1") × (3 < 2 + hours 12)
login_is_single_example =
    login_is_single plain 2 "s1" "t1" "c1" "ann" "ann's word" office ticket entered 3 "t1" new_login
      ann.account ann_logs_in new_token_opens refl

login_opens_example :
    (s : AuthSession) × ((get_session plain 3 "t1" entered).0 ≡ some (s, ann.account))
    × (s.session_id ≡ "s1")
login_opens_example =
    login_opens plain 2 "s1" "t1" "c1" "ann" "ann's word" office ticket entered 3 office-DistinctIds
      ann_logs_in (omega arith)

abbrev empty : Database
empty = record office { auth_sessions = [] }

ann_logs_out : logout plain 3 "t1" "c1" entered ≡ (ok tt, empty)
unfolding logout verify_csrf revoke_session get_session join_session find_session string_eq
ann_logs_out = refl

logout_closes_example : (get_session plain 4 "t1" empty).0 ≡ none
logout_closes_example = logout_closes plain 3 "t1" "c1" entered empty 4 ann_logs_out

ann_logs_out_everywhere : logout_all plain 3 "t1" "c1" entered ≡ (ok tt, empty)
unfolding logout_all verify_csrf revoke_user_sessions get_session join_session find_session
    string_eq
ann_logs_out_everywhere = refl

logout_all_closes_example :
    (s : AuthSession) × (u : AuthUser) × ((verify_csrf plain 3 "t1" "c1" entered).0 ≡ some (s, u))
    × IsOut plain u.user_id empty
logout_all_closes_example =
    logout_all_closes plain 3 "t1" "c1" entered empty ann_logs_out_everywhere

abbrev ann_changed : UserRow
ann_changed = record {
  account = record ann.account { updated_at = 4; password_changed_at = 4 };
  password_hash = "another word";
}

abbrev changed_office : Database
changed_office = record empty { users = root ∷ ann_changed ∷ [] }

ann_changes_password :
    change_password plain 3 4 "t1" "c1" "ann's word" "another word" entered
    ≡ (ok tt, changed_office)
unfolding change_password verify_csrf revoke_user_sessions get_session get_user_by_username
    join_session find_session find_username validate_new_password hash_password set_password
    update_user string_eq
ann_changes_password = refl

abbrev another : String
another = "another word"

change_password_closes_example :
    (s : AuthSession) × (u : AuthUser) × (owner : AuthUser) × (password_hash : String)
    × ((get_session plain 3 "t1" entered).0 ≡ some (s, u))
    × HasCsrf plain "c1" s.session_id (get_session plain 3 "t1" entered).1.auth_sessions
    × (get_user_by_username plain u.username (verify_csrf plain 3 "t1" "c1" entered).1
        ≡ some (owner, password_hash))
    × (owner.user_id ≡ u.user_id)
    × ((password_hash == "ann's word") ≡ true)
    × (8 ≤ count another)
    × (another ≢ "ann's word")
    × (another ≢ "12345678")
    × (changed_office.users
        ≡ (set_password 4 u.user_id "another word" false
            (verify_csrf plain 3 "t1" "c1" entered).1).users)
    × HaveHash u.user_id another changed_office.users
    × IsOut plain u.user_id changed_office
change_password_closes_example =
    change_password_closes plain 3 "t1" "c1" entered changed_office 4 "ann's word" "another word"
      ann_changes_password

abbrev willing : Collaborators
willing = record {
  cancels = some (λ _. ok true);
  purger = some (record { stages = λ _. ok tt; restores = λ _. ok tt; finalizes = λ _. ok tt });
}

abbrev some_calls : List AdminCall
some_calls =
    creates 5 "u2" "bob" "12345678"
    ∷ activates 6 "u0" false
    ∷ batches 7 false ("u1" ∷ "u0" ∷ "u1" ∷ [])
    ∷ resets 8 "u1" "12345678"
    ∷ deletes willing "u1"
    ∷ []

admins_are_protected_example :
    admins (admin_run plain some_calls entered).users ≡ admins entered.users
admins_are_protected_example = admins_are_protected plain some_calls entered

abbrev ann_disabled : UserRow
ann_disabled = record ann { account = record ann.account { is_active = false; updated_at = 5 } }

abbrev closed_office : Database
closed_office = record empty { users = root ∷ ann_disabled ∷ [] }

ann_is_disabled : admin_set_active 5 "u1" false entered ≡ (ok ann_disabled.account, closed_office)
unfolding admin_set_active set_user_active ordinary_user find_user update_ordinary string_eq
ann_is_disabled = refl

disabling_closes_example : IsOut plain "u1" closed_office
disabling_closes_example =
    disabling_closes plain 5 "u1" "12345678" entered closed_office
      (inl (ann_disabled.account, ann_is_disabled))

abbrev deserted : Database
deserted = record {
  users = root ∷ [];
  auth_sessions = [];
  review_sessions = [];
  model_runs = some [];
}

ann_is_deleted :
    delete_user willing "u1" entered
    ≡ (ok tt, deserted, asked_cancel "r1" ∷ staged "u1" ∷ finalized "u1" ∷ [])
unfolding delete_user ordinary_user delete_user_record review_ids_for_owner references_hold
    find_user string_eq sort_by
ann_is_deleted = refl

deletion_outcomes_example :
    DeletionSpec plain willing "u1" entered (delete_user willing "u1" entered)
deletion_outcomes_example = deletion_outcomes plain willing "u1" entered

eve_is_spaced : plain.nocase (plain.strip " eve ") ≢ plain.nocase " eve "
unfolding string_eq
eve_is_spaced h = text_differs "eve" " eve " refl h

spaced_name_raises_example : create_user plain 5 "u2" " eve " "12345678" entered ≡ (
  err assertion_error,
  record entered { users = root ∷ ann ∷ new_user plain 5 "u2" "eve" "12345678" ∷ [] },
)
unfolding find_user find_username string_eq
spaced_name_raises_example =
    spaced_name_raises plain 5 "u2" " eve " "12345678" entered refl refl refl eve_is_spaced

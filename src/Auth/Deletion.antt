-- ===== src/Auth/Deletion.antt =====
-- Deleting an account: what is left of it, and what was asked of the review service and the purger.
use code_astra.Base.{
  ◌≡◌, refl, sym, subst, String, Bool, true, false, not, ◌&&◌, List, [], ◌∷◌, ◌++◌, Option, none,
  some, ◌==◌, string_eq, nat_eq, arith, inl, inr, ◌⊎◌,
}
use mathlib.Core.List.{append-nil}
use code_astra.Base.Lists.{filter, All}
use code_astra.Base.Result.{Result, ok, err}
use code_astra.Auth.{Platform, AuthUser, UserRow, Database, find_user, is_user}
use code_astra.Auth.Store.{AuthError}
use code_astra.Auth.Records.{delete_user_record, without_user, review_ids_for_owner}
use code_astra.Auth.Admin.{
  ordinary_user, Collaborators, Purger, DeletionCall, asked_cancel, staged, restored, finalized,
  unless_cancelled, cancel_each, cancel_all, after_restore, settle_files, delete_staged,
  delete_files, delete_cancelled, delete_ordinary, delete_user,
}
use code_astra.Auth.Revocation.{IsOut, IsOut-deleted}

abbrev pub owned_by : String → List (String × String) → List (String × String)
owned_by k = filter (λ row. row.1 == k)

owned_by-removed :
    (k : String) (rows : List (String × String))
    → owned_by k (filter (λ row. not (row.1 == k)) rows) ≡ []
owned_by-removed k [] = refl
owned_by-removed k (row ∷ rows) = ground (arith, owned_by-removed k rows)

abbrev pub is_ordinary : Option UserRow → Bool
is_ordinary none = false
is_ordinary (some row) = is_user row.account.role

no_ordinary :
    (k : String) (rows : List UserRow)
    → is_ordinary
        (find_user k (filter (λ r. not (r.account.user_id == k && is_user r.account.role)) rows))
      ≡ false
unfolding find_user
no_ordinary k [] = refl
no_ordinary k (row ∷ rows) = ground (arith, no_ordinary k rows)

-- The account is gone: no token opens a session of the user, and no ordinary account of the id and
-- no review of the user is left.
pub record IsDeleted (x : Platform) (k : String) (db : Database) : Type 0 where
  pub closed : IsOut x k db
  pub no_account : is_ordinary (find_user k db.users) ≡ false
  pub no_reviews : owned_by k db.review_sessions ≡ []

abbrev pub IsCancellation : DeletionCall → Type 0
IsCancellation (asked_cancel review_id) = Unit
IsCancellation _ = ⊥

-- The calls are cancellations and then `files`.
pub record Asked (files calls : List DeletionCall) : Type 0 where
  pub earlier : List DeletionCall
  pub cancellations : All IsCancellation earlier
  pub parts : calls ≡ earlier ++ files

-- What is asked of the purger for a deletion that succeeds.
abbrev pub settled_files : Option Purger → String → List DeletionCall
settled_files none k = []
settled_files (some _) k = staged k ∷ finalized k ∷ []

-- The deletion was given up, and no account data was touched.
abbrev pub GivenUp : String → Database → Database → List DeletionCall → Type 0
GivenUp k db after calls =
    (after ≡ db) × (Asked [] calls ⊎ Asked (staged k ∷ restored k ∷ []) calls)

-- What a deletion may end in.
abbrev pub DeletionSpec :
    Platform
    → Collaborators
    → String
    → Database
    → Result AuthError (Unit {0}) × Database × List DeletionCall
    → Type 0
DeletionSpec x c k db (ok _, after, calls) =
    IsDeleted x k after × Asked (settled_files c.purger k) calls
DeletionSpec x c k db (err e, after, calls) =
    GivenUp k db after calls
    ⊎ (IsDeleted x k after
        × Asked (staged k ∷ finalized k ∷ []) calls
        × ((p : Purger) × (c.purger ≡ some p) × (p.finalizes k ≡ err e)))

cancel_each-IsCancellation :
    (cancel : String → Result AuthError Bool) (review_ids : List String)
    → All IsCancellation (cancel_each cancel review_ids).1
cancel_each-IsCancellation cancel [] = tt
cancel_each-IsCancellation cancel (review_id ∷ review_ids) =
    go (cancel review_id) (cancel_each cancel review_ids)
      (cancel_each-IsCancellation cancel review_ids)
  where
    go :
        (answer : Result AuthError Bool) (rest : Result AuthError (Unit {0}) × List DeletionCall)
        → All IsCancellation rest.1
        → All IsCancellation (unless_cancelled review_id answer rest).1
    go (err e) rest h = (tt, tt)
    go (ok false) rest h = (tt, tt)
    go (ok true) (r, calls) h = (tt, h)

cancel_all-IsCancellation :
    (cancels : Option (String → Result AuthError Bool)) (review_ids : List String)
    → All IsCancellation (cancel_all cancels review_ids).1
cancel_all-IsCancellation none review_ids = tt
cancel_all-IsCancellation (some cancel) review_ids = cancel_each-IsCancellation cancel review_ids

-- What the store's own transaction does.
abbrev RecordSpec : Platform → String → Database → Result AuthError (Unit {0}) × Database → Type 0
RecordSpec x k db (ok _, after) = IsDeleted x k after
RecordSpec x k db (err e, after) = after ≡ db

delete_user_record_lem :
    (x : Platform) (k : String) (db : Database) (o : Result AuthError (Unit {0}) × Database)
    → delete_user_record k db ≡ o
    → RecordSpec x k db o
unfolding delete_user_record
delete_user_record_lem x k db (ok tt, after) h = record {
  closed = IsOut-deleted x k db.auth_sessions after (ground arith);
  no_account =
      subst (λ rows. is_ordinary (find_user k rows) ≡ false) (sym left) (no_ordinary k db.users);
  no_reviews = ground (arith, owned_by-removed k db.review_sessions);
}
  where
    left : after.users ≡ (without_user k db).users
    left = ground arith
delete_user_record_lem x k db (err e, after) h = ground arith

module _ (x : Platform) (c : Collaborators) (k : String) (db : Database)
    (earlier : List DeletionCall) (asked : All IsCancellation earlier) where
  abbrev then_files :
      Result AuthError (Unit {0}) × Database × List DeletionCall
      → Result AuthError (Unit {0}) × Database × List DeletionCall
  then_files (r, db', later) = (r, db', earlier ++ later)

  earlier_first : (files : List DeletionCall) → Asked files (earlier ++ files)
  earlier_first files = record { earlier = earlier; cancellations = asked; parts = refl }

  finalize_lem :
      (p : Purger) (after : Database) (r : Result AuthError (Unit {0}))
      → c.purger ≡ some p
      → p.finalizes k ≡ r
      → IsDeleted x k after
      → DeletionSpec x c k db (r, after, earlier ++ staged k ∷ finalized k ∷ [])
  finalize_lem p after (ok tt) e f h = (h, rw e (earlier_first (staged k ∷ finalized k ∷ [])))
  finalize_lem p after (err failure) e f h =
      inr (h, earlier_first (staged k ∷ finalized k ∷ []), (p, e, f))

  restore_lem :
      (failure : AuthError) (r : Result AuthError (Unit {0}))
      → DeletionSpec x c k db (after_restore failure r, db, earlier ++ staged k ∷ restored k ∷ [])
  restore_lem failure (ok tt) = inl (refl, inr (earlier_first (staged k ∷ restored k ∷ [])))
  restore_lem failure (err e) = inl (refl, inr (earlier_first (staged k ∷ restored k ∷ [])))

  settle_files_lem :
      (p : Purger) (o : Result AuthError (Unit {0}) × Database)
      → c.purger ≡ some p
      → RecordSpec x k db o
      → DeletionSpec x c k db (then_files (settle_files p k o))
  settle_files_lem p (ok tt, after) e h = finalize_lem p after (p.finalizes k) e refl h
  settle_files_lem p (err failure, after) e h =
      subst
        (λ (d : Database).
          DeletionSpec x c k db
            (after_restore failure (p.restores k), d, earlier ++ staged k ∷ restored k ∷ []))
        (sym h) (restore_lem failure (p.restores k))

  delete_staged_lem :
      (p : Purger) (r : Result AuthError (Unit {0}))
      → c.purger ≡ some p
      → DeletionSpec x c k db (then_files (delete_staged r p k db))
  delete_staged_lem p (err e) h = inl (refl, inl (earlier_first []))
  delete_staged_lem p (ok tt) h =
      settle_files_lem p (delete_user_record k db) h
        (delete_user_record_lem x k db (delete_user_record k db) refl)

  unpurged_lem :
      (o : Result AuthError (Unit {0}) × Database)
      → c.purger ≡ none
      → RecordSpec x k db o
      → DeletionSpec x c k db (o.0, o.1, earlier ++ [])
  unpurged_lem (ok tt, after) e h = (h, rw e (earlier_first []))
  unpurged_lem (err failure, after) e h = inl (h, inl (earlier_first []))

  delete_files_lem :
      (purger : Option Purger)
      → c.purger ≡ purger
      → DeletionSpec x c k db (then_files (delete_files purger k db))
  delete_files_lem none e =
      unpurged_lem (delete_user_record k db) e
        (delete_user_record_lem x k db (delete_user_record k db) refl)
  delete_files_lem (some p) e = delete_staged_lem p (p.stages k) e

-- Before a deletion turns to the purger or deletes anything, all that it asks of others is
-- cancellations of reviews. If it succeeds, the user's sessions are closed, no ordinary account with
-- the id and no review of the user is left, and the purger, if there is one, has been asked to stage
-- and to finalize. If it raises, either these tables are as they were, and files that were staged
-- were asked to be restored; or the account is deleted all the same, and it is the finalizing that
-- raised. Nothing is asked for that takes a cancellation back.
pub deletion_outcomes :
    (x : Platform) (c : Collaborators) (k : String) (db : Database)
    → DeletionSpec x c k db (delete_user c k db)
unfolding delete_user
deletion_outcomes x c k db = go (ordinary_user k db)
  where
    cancelled :
        (v : Result AuthError (Unit {0}) × List DeletionCall)
        → All IsCancellation v.1
        → DeletionSpec x c k db (delete_cancelled c k v db)
    cancelled (err e, calls) h =
        inl (
          refl,
          inl (record { earlier = calls; cancellations = h; parts = sym (append-nil calls) }),
        )
    cancelled (ok tt, calls) h = delete_files_lem x c k db calls h c.purger refl

    go : (r : Result AuthError AuthUser) → DeletionSpec x c k db (delete_ordinary c k r db)
    go (err e) = inl (refl, inl (record { earlier = []; cancellations = tt; parts = refl }))
    go (ok _) =
        cancelled (cancel_all c.cancels (review_ids_for_owner k db))
          (cancel_all-IsCancellation c.cancels (review_ids_for_owner k db))

-- ===== src/Auth/Sessions.antt =====
-- Which sessions a token opens: what `get_session` reads, and what a revocation takes away.
use code_astra.Base.{
  ℕ, ◌<◌, ◌≡◌, ◌≢◌, ap, sym, subst, ◌∙◌, String, Bool, true, false, ◌&&◌, List, [], ◌∷◌, some, ltb,
  ◌==◌, string_eq, nat_eq, if◌then◌else◌, arith, Option-cases, Bool-cases, inl, inr,
}
use code_astra.Base.Lists.{All}
use code_astra.Auth.{
  Platform, AuthUser, AuthSession, UserRow, SessionRow, Database, delete_user_sessions,
  delete_token, active_user, join_session, mark_seen,
}
use code_astra.Auth.Store.{get_session}

-- What a session row and a user row owe to one another when a token opens them.
pub record Opens (token_hash : String) (now : ℕ) (s : SessionRow) (u : UserRow) : Type 0 where
  pub hashed : s.token_hash ≡ token_hash
  pub live : now < s.session.expires_at
  pub owner : u.account.user_id ≡ s.session.user_id
  pub active : u.account.is_active ≡ true

active_user-owner :
    (k : String) (u : UserRow) (users : List UserRow)
    → active_user k users ≡ some u
    → (u.account.user_id ≡ k) × (u.account.is_active ≡ true)
active_user-owner k u [] h = absurd (ground arith)
active_user-owner k u (row ∷ rows) h = ground (arith, active_user-owner k u rows)

module _ {ℓ} (P : SessionRow → Type ℓ) (h : String) (now : ℕ) (users : List UserRow) where
  -- What holds of all session rows holds of the one that a token opens.
  pub join_session-All :
      (rows : List SessionRow) (s : SessionRow) (u : UserRow)
      → All P rows
      → join_session h now users rows ≡ some (s, u)
      → P s × Opens h now s u
  unfolding join_session
  join_session-All [] s u a e = absurd (ground arith)
  join_session-All (row ∷ rows) s u a e =
      elim (Bool-cases (row.token_hash == h && ltb now row.session.expires_at)) [
        | inr other ↦ join_session-All rows s u a.1 (skipped other)
        | inl hit ↦ elim (Option-cases (active_user row.session.user_id users)) [
          | inl gone ↦ join_session-All rows s u a.1 (ground arith)
          | inr (v, found) ↦ (
            subst P (ap (λ (p : SessionRow × UserRow). p.0) (joined hit v found)) a.0,
            subst (λ (p : SessionRow × UserRow). Opens h now p.0 p.1) (joined hit v found)
                (opens hit v found),
          )
        ]
      ]
    where
      skipped :
          (row.token_hash == h && ltb now row.session.expires_at) ≡ false
          → join_session h now users rows ≡ some (s, u)
      skipped other = ground arith

      joined :
          (row.token_hash == h && ltb now row.session.expires_at) ≡ true
          → (v : UserRow) → active_user row.session.user_id users ≡ some v
          → ◌≡◌ {A = SessionRow × UserRow} (row, v) (s, u)
      joined hit v found = ground arith

      opens :
          (row.token_hash == h && ltb now row.session.expires_at) ≡ true
          → (v : UserRow) → active_user row.session.user_id users ≡ some v
          → Opens h now row v
      opens hit v found =
          let owner = active_user-owner row.session.user_id v users found in
          record { hashed = ground arith; live = ground arith; owner = owner.0; active = owner.1 }

pub delete_user_sessions-All :
    (k : String) (rows : List SessionRow)
    → All (λ row. row.session.user_id ≢ k) (delete_user_sessions k rows)
delete_user_sessions-All k [] = tt
delete_user_sessions-All k (row ∷ rows) = ground (arith, delete_user_sessions-All k rows)

pub delete_token-All :
    (h : String) (rows : List SessionRow) → All (λ row. row.token_hash ≢ h) (delete_token h rows)
delete_token-All h [] = tt
delete_token-All h (row ∷ rows) = ground (arith, delete_token-All h rows)

module _ (x : Platform) (now : ℕ) (token : String) where
  -- What a token opens in a database.
  pub get_session-All {ℓ} :
      (P : SessionRow → Type ℓ) (db : Database) (s : AuthSession) (u : AuthUser)
      → All P db.auth_sessions
      → (get_session x now token db).0 ≡ some (s, u)
      → (row : SessionRow) × (owner : UserRow) × P row
        × Opens (x.sha256 token) now row owner
        × (u ≡ owner.account)
        × (s.session_id ≡ row.session.session_id)
  unfolding get_session
  get_session-All P db s u a e =
      elim (Option-cases (join_session (x.sha256 token) now db.users db.auth_sessions)) [
        | inl closed ↦ absurd (ground arith)
        | inr (found, h) ↦
            let (p, o) =
              join_session-All P (x.sha256 token) now db.users db.auth_sessions found.0 found.1 a
                h in
            (found.0, found.1, p, o, ground arith, ground arith)
      ]

  -- After a user's sessions are revoked, no token opens one of that user's.
  pub revoked_user_is_out :
      (k : String) (db : Database) (s : AuthSession) (u : AuthUser)
      → All (λ row. row.session.user_id ≢ k) db.auth_sessions
      → (get_session x now token db).0 ≡ some (s, u)
      → u.user_id ≢ k
  revoked_user_is_out k db s u a e same =
      let (row, owner, other, o, is_owner, id) = get_session-All _ db s u a e in
      other (sym o.owner ∙ sym (ap (λ (v : AuthUser). v.user_id) is_owner) ∙ same)

pub All-mark_seen {ℓ} :
    (P : SessionRow → Type ℓ) (id : String) (now : ℕ) (rows : List SessionRow)
    → ((row : SessionRow)
        → P row
        → P (record row { session = record row.session { last_seen_at = now } }))
    → All P rows
    → All P (mark_seen id now rows)
All-mark_seen P id now [] f h = tt
All-mark_seen P id now (row ∷ rows) f h =
    (marked (row.session.session_id == id), All-mark_seen P id now rows f h.1)
  where
    marked :
        (b : Bool)
        → P (if b then record row { session = record row.session { last_seen_at = now } } else row)
    marked true = f row h.0
    marked false = h.0

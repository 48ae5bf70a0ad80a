-- ===== src/LoginLimiter/Counting.antt =====
-- The limiter decides as one that keeps the whole history and counts.
use code_astra.Base.{
  ℕ, ◌≤◌, String, true, false, List, [], ◌∷◌, ◌++◌, ltb, ◌==◌, if◌then◌else◌, string_eq, pair_eq,
  ◌≡◌, ◌≢◌, subst, refl, sym, arith,
}
use code_astra.Base.Dict.{
  Dict, lookup, insert, erase, lookup-insert_self, lookup-insert_ne, lookup-erase_self,
  lookup-erase_ne,
}
use code_astra.LoginLimiter.{
  LoginRateLimiter, times_at, drop_old, key_of, allowed, failed, succeeded,
}
use code_astra.LoginLimiter.Tracking.{
  count_recent, Tracks, Tracks-later, drop-count, drop-recent, length-recent, failed-Tracks,
  dropped-Tracks, fresh-Tracks,
}

-- A call with its time.
pub data LoginCall : Type 0 where
  asks fails succeeds : String → String → ℕ → LoginCall

abbrev pub time_of : LoginCall → ℕ
time_of (asks username source now) = now
time_of (fails username source now) = now
time_of (succeeds username source now) = now

-- Newest first, and none after `now`.
abbrev pub InOrder : ℕ → List LoginCall → Type 0
InOrder now [] = Unit
InOrder now (call ∷ older) = (time_of call ≤ now) × InOrder (time_of call) older

module _ (casefold : String → String) where
  -- The failures of a key since it last succeeded.
  unfoldable pub failures_since : String × String → List LoginCall → List ℕ
  failures_since key [] = []
  failures_since key (asks username source now ∷ older) = failures_since key older
  failures_since key (fails username source now ∷ older) =
      let rest = failures_since key older in
      if key == key_of casefold username source then now ∷ rest else rest
  failures_since key (succeeds username source now ∷ older) =
      let rest = failures_since key older in
      if key == key_of casefold username source then [] else rest

  abbrev pub make_call : LoginCall → LoginRateLimiter → LoginRateLimiter
  make_call (asks username source now) limiter = (allowed casefold username source now limiter).1
  make_call (fails username source now) limiter = failed casefold username source now limiter
  make_call (succeeds username source now) limiter = succeeded casefold username source limiter

  abbrev pub run_calls : List LoginCall → LoginRateLimiter → LoginRateLimiter
  run_calls [] limiter = limiter
  run_calls (call ∷ older) limiter = make_call call (run_calls older limiter)

module _ (window now : ℕ) (key k : String × String) (d : Dict (String × String) (List ℕ))
    (history : List ℕ) where
  insert-Tracks :
      (values : List ℕ)
      → (key ≡ k → Tracks window now values history)
      → (key ≢ k → Tracks window now (times_at (lookup key d)) history)
      → Tracks window now (times_at (lookup key (insert k values d))) history
  insert-Tracks values same other = go (pair_eq.dec key k)
    where
      go : Dec (key ≡ k) → Tracks window now (times_at (lookup key (insert k values d))) history
      go (yes e) =
          subst (λ j. Tracks window now (times_at (lookup j (insert k values d))) history) (sym e)
            (rw (lookup-insert_self k values d) (same e))
      go (no n) = rw (lookup-insert_ne key k values d n) (other n)

  erase-Tracks :
      (key ≡ k → Tracks window now [] history)
      → (key ≢ k → Tracks window now (times_at (lookup key d)) history)
      → Tracks window now (times_at (lookup key (erase k d))) history
  erase-Tracks same other = go (pair_eq.dec key k)
    where
      go : Dec (key ≡ k) → Tracks window now (times_at (lookup key (erase k d))) history
      go (yes e) =
          subst (λ j. Tracks window now (times_at (lookup j (erase k d))) history) (sym e)
            (rw (lookup-erase_self k d) (same e))
      go (no n) = rw (lookup-erase_ne key k d n) (other n)

test_true : (key k : String × String) → key ≡ k → (key == k) ≡ true
test_true key k e = ground (arith, e)

test_false : (key k : String × String) → key ≢ k → (key == k) ≡ false
test_false key k n = ground (arith, n)

-- What is kept of every key at a time.
record Agrees (casefold : String → String) (first limiter : LoginRateLimiter) (now : ℕ)
    (calls : List LoginCall) : Type 0 where
  window : limiter.window ≡ first.window
  attempts : limiter.attempts ≡ first.attempts
  tracks :
      (key : String × String)
      → Tracks first.window now
          (times_at (lookup key limiter.failed_at))
          (failures_since casefold key calls)

module _ (casefold : String → String) (first limiter : LoginRateLimiter) (older : List LoginCall)
    (username source : String) (now : ℕ) (a : Agrees casefold first limiter now older) where
  asked-Agrees :
      Agrees casefold first
        (allowed casefold username source now limiter).1
        now
        (asks username source now ∷ older)
  unfolding allowed failures_since
  asked-Agrees = record {
    window = a.window;
    attempts = a.attempts;
    tracks = λ key.
        insert-Tracks first.window now key (key_of casefold username source) limiter.failed_at
          (failures_since casefold key older)
          (drop_old limiter.window now
            (times_at (lookup (key_of casefold username source) limiter.failed_at)))
          (λ e.
            rw (e, a.window)
              (dropped-Tracks first.window now _ _ (a.tracks (key_of casefold username source))))
          (λ _. a.tracks key);
  }

  failed-Agrees :
      Agrees casefold first
        (failed casefold username source now limiter)
        now
        (fails username source now ∷ older)
  unfolding failed failures_since
  failed-Agrees = record {
    window = a.window;
    attempts = a.attempts;
    tracks = λ key.
        insert-Tracks first.window now key (key_of casefold username source) limiter.failed_at
          (failures_since casefold key (fails username source now ∷ older))
          (times_at (lookup (key_of casefold username source) limiter.failed_at) ++ now ∷ [])
          (λ e. rw (test_true key (key_of casefold username source) e) (
            failed-Tracks first.window now _ _ (
              subst
                (λ j.
                  Tracks first.window now (times_at (lookup j limiter.failed_at))
                    (failures_since casefold key older))
                e (a.tracks key))))
          (λ n. rw (test_false key (key_of casefold username source) n) (a.tracks key));
  }

  succeeded-Agrees :
      Agrees casefold first
        (succeeded casefold username source limiter)
        now
        (succeeds username source now ∷ older)
  unfolding succeeded failures_since
  succeeded-Agrees = record {
    window = a.window;
    attempts = a.attempts;
    tracks = λ key.
        erase-Tracks first.window now key (key_of casefold username source) limiter.failed_at
          (failures_since casefold key (succeeds username source now ∷ older))
          (λ e.
            rw (test_true key (key_of casefold username source) e) (fresh-Tracks first.window now))
          (λ n. rw (test_false key (key_of casefold username source) n) (a.tracks key));
  }

later-Agrees :
    (casefold : String → String) (first limiter : LoginRateLimiter) (calls : List LoginCall)
    (now later : ℕ)
    → now ≤ later
    → Agrees casefold first limiter now calls
    → Agrees casefold first limiter later calls
later-Agrees casefold first limiter calls now later h a = record {
  window = a.window;
  attempts = a.attempts;
  tracks = λ key. Tracks-later first.window now later _ _ h (a.tracks key);
}

run-Agrees :
    (casefold : String → String) (first : LoginRateLimiter)
    → first.failed_at ≡ []
    → (now : ℕ) (calls : List LoginCall) → InOrder now calls
    → Agrees casefold first (run_calls casefold calls first) now calls
unfolding failures_since lookup
run-Agrees casefold first empty now [] h = record {
  window = refl;
  attempts = refl;
  tracks = λ key. rw empty (fresh-Tracks first.window now);
}
run-Agrees casefold first empty now (asks username source time ∷ older) (le, h) =
    later-Agrees casefold first _ _ time now le (
      asked-Agrees casefold first (run_calls casefold older first) older username source time
        (run-Agrees casefold first empty time older h))
run-Agrees casefold first empty now (fails username source time ∷ older) (le, h) =
    later-Agrees casefold first _ _ time now le (
      failed-Agrees casefold first (run_calls casefold older first) older username source time
        (run-Agrees casefold first empty time older h))
run-Agrees casefold first empty now (succeeds username source time ∷ older) (le, h) =
    later-Agrees casefold first _ _ time now le (
      succeeded-Agrees casefold first (run_calls casefold older first) older username source time
        (run-Agrees casefold first empty time older h))

-- After any calls at times in order, a limiter that starts empty allows a login exactly if, of the
-- failures of the name and source since they last succeeded, less than `attempts` are inside the window.
pub limiter_counts :
    (casefold : String → String) (first : LoginRateLimiter) (calls : List LoginCall)
    (username source : String) (now : ℕ)
    → first.failed_at ≡ []
    → InOrder now calls
    → (allowed casefold username source now (run_calls casefold calls first)).0
      ≡ ltb
          (count_recent first.window now
            (failures_since casefold (key_of casefold username source) calls))
          first.attempts
unfolding allowed
limiter_counts casefold first calls username source now empty h =
    let a = run-Agrees casefold first empty now calls h in
    let t = a.tracks (key_of casefold username source) in
    rw
      (
        a.attempts,
        a.window,
        length-recent first.window now (drop_old first.window now _)
            (drop-recent first.window now _ t.ascending),
        drop-count first.window now now _ (omega arith),
        t.counts now (omega arith),
      )
      refl

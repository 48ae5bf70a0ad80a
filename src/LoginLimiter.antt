-- ===== src/LoginLimiter.antt =====
-- src/code_review/application/login_rate_limiter.py, `LoginRateLimiter`. `str.casefold` is a parameter;
-- the clock's times are natural numbers.
pub mod Tracking
pub mod Counting
mod Tests
use code_astra.Base.{
  ℕ, ◌+◌, String, Bool, List, [], ◌∷◌, ◌++◌, Option, none, some, ltb, leb, if◌then◌else◌, string_eq,
  pair_eq,
}
use code_astra.Base.Lists.{length}
use code_astra.Base.Dict.{Dict, lookup, insert, erase}

pub record LoginRateLimiter : Type 0 where
  pub attempts : ℕ
  pub window : ℕ
  pub failed_at : Dict (String × String) (List ℕ)

-- An element of the `defaultdict`.
abbrev pub times_at : Option (List ℕ) → List ℕ
times_at none = []
times_at (some values) = values

-- The loop that pops from the left; `values[0] <= now - window`, without the difference.
unfoldable pub drop_old : ℕ → ℕ → List ℕ → List ℕ
drop_old window now [] = []
drop_old window now (value ∷ values) =
    let rest = drop_old window now values in
    if leb (value + window) now then rest else value ∷ values

module _ (casefold : String → String) where
  abbrev pub key_of : String → String → String × String
  key_of username source = (casefold username, source)

  unfoldable pub allowed : String → String → ℕ → LoginRateLimiter → Bool × LoginRateLimiter
  allowed username source now limiter =
      let values =
        drop_old limiter.window now
          (times_at (lookup (key_of username source) limiter.failed_at)) in
      (
        ltb (length values) limiter.attempts,
        record limiter { failed_at = insert (key_of username source) values limiter.failed_at },
      )

  unfoldable pub failed : String → String → ℕ → LoginRateLimiter → LoginRateLimiter
  failed username source now limiter =
      let values = times_at (lookup (key_of username source) limiter.failed_at) in
      record limiter {
        failed_at = insert (key_of username source) (values ++ now ∷ []) limiter.failed_at;
      }

  unfoldable pub succeeded : String → String → LoginRateLimiter → LoginRateLimiter
  succeeded username source limiter = record limiter {
    failed_at = erase (key_of username source) limiter.failed_at;
  }

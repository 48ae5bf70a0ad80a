-- ===== src/LoginLimiter/Tests.antt =====
-- The theorem on the limiter at a concrete input.
use code_astra.Base.{String, false, List, [], ◌∷◌, ltb, ◌≡◌, refl, arith, string_eq, pair_eq}
use code_astra.Base.Dict.{lookup, insert, erase}
use code_astra.LoginLimiter.{LoginRateLimiter, allowed, failed, drop_old, key_of}
use code_astra.LoginLimiter.Tracking.{count_recent}
use code_astra.LoginLimiter.Counting.{
  LoginCall, asks, fails, failures_since, run_calls, limiter_counts,
}

abbrev same_case : String → String
same_case text = text

abbrev two_attempts : LoginRateLimiter
two_attempts = record { attempts = 2; window = 10; failed_at = [] }

-- Newest first: one failure is out of the window at 15.
abbrev three_failures : List LoginCall
three_failures =
    fails "ann" "home" 14
    ∷ asks "ann" "home" 13
    ∷ fails "ann" "home" 9
    ∷ fails "bob" "home" 5
    ∷ fails "ann" "home" 2
    ∷ []

third-refused :
    (allowed same_case "ann" "home" 15 (run_calls same_case three_failures two_attempts)).0 ≡ false
unfolding allowed failed drop_old lookup insert erase string_eq pair_eq
third-refused = refl

limiter_counts_example :
    (allowed same_case "ann" "home" 15 (run_calls same_case three_failures two_attempts)).0
    ≡ ltb
        (count_recent 10 15
          (failures_since same_case (key_of same_case "ann" "home") three_failures))
        2
limiter_counts_example =
    limiter_counts same_case two_attempts three_failures "ann" "home" 15 refl
      (omega arith, (omega arith, (omega arith, (omega arith, (omega arith, tt)))))

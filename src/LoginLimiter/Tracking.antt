-- ===== src/LoginLimiter/Tracking.antt =====
-- The times that the limiter keeps of a key, against all its failures.
use code_astra.Base.{
  ℕ, ◌+◌, ◌≤◌, ◌<◌, Bool, true, false, List, [], ◌∷◌, ◌++◌, ltb, leb, if◌then◌else◌, string_eq,
  pair_eq, ◌≡◌, refl, ◌∙◌, arith,
}
use code_astra.Base.Lists.{length, weigh, All, All-append}
use code_astra.LoginLimiter.{drop_old}

-- Is a failure at `time` inside the window at `now`?
abbrev pub is_recent : ℕ → ℕ → ℕ → ℕ
is_recent window now time = if ltb now (time + window) then 1 else 0

abbrev pub count_recent : ℕ → ℕ → List ℕ → ℕ
count_recent window now = weigh (is_recent window now)

abbrev pub Ascending : List ℕ → Type 0
Ascending [] = Unit
Ascending (t ∷ l) = All (λ u. t ≤ u) l × Ascending l

-- What is kept of a key, beside all its failures: in order, none after `now`, and as many inside any
-- window from `now` on.
pub record Tracks (window now : ℕ) (values history : List ℕ) : Type 0 where
  pub ascending : Ascending values
  pub past : All (λ t. t ≤ now) values
  pub counts : (n : ℕ) → now ≤ n → count_recent window n values ≡ count_recent window n history

All-le : (now later : ℕ) (l : List ℕ) → now ≤ later → All (λ t. t ≤ now) l → All (λ t. t ≤ later) l
All-le now later [] h a = tt
All-le now later (t ∷ l) h a = (omega (arith, h, a.0), All-le now later l h a.1)

pub Tracks-later :
    (window now later : ℕ) (values history : List ℕ)
    → now ≤ later
    → Tracks window now values history
    → Tracks window later values history
Tracks-later window now later values history h t = record {
  ascending = t.ascending;
  past = All-le now later values h t.past;
  counts = λ n le. t.counts n (omega (arith, h, le));
}

module _ (window now : ℕ) where
  drop-All : (P : ℕ → Type 0) (l : List ℕ) → All P l → All P (drop_old window now l)
  unfolding drop_old
  drop-All P [] a = tt
  drop-All P (t ∷ l) a = ground (arith, a, drop-All P l a.1)

  drop-Ascending : (l : List ℕ) → Ascending l → Ascending (drop_old window now l)
  unfolding drop_old
  drop-Ascending [] a = tt
  drop-Ascending (t ∷ l) a = go (leb (t + window) now) (drop-Ascending l a.1)
    where
      go :
          (b : Bool)
          → Ascending (drop_old window now l)
          → Ascending (if b then drop_old window now l else t ∷ l)
      go true rest = rest
      go false rest = a

  pub drop-count :
      (n : ℕ) (l : List ℕ)
      → now ≤ n
      → count_recent window n (drop_old window now l) ≡ count_recent window n l
  unfolding drop_old
  drop-count n [] h = refl
  drop-count n (t ∷ l) h = ground (arith, drop-count n l h, h)

  within_lem :
      (t : ℕ) (l : List ℕ) → now < t + window → All (λ u. t ≤ u) l → All (λ u. now < u + window) l
  within_lem t [] h a = tt
  within_lem t (u ∷ l) h a = (omega (arith, h, a.0), within_lem t l h a.1)

  pub drop-recent : (l : List ℕ) → Ascending l → All (λ u. now < u + window) (drop_old window now l)
  unfolding drop_old
  drop-recent [] a = tt
  drop-recent (t ∷ l) a = ground (arith, drop-recent l a.1, within_lem t l, a.0)

  pub length-recent :
      (l : List ℕ) → All (λ u. now < u + window) l → length l ≡ count_recent window now l
  length-recent [] a = refl
  length-recent (t ∷ l) a = ground (arith, a.0, length-recent l a.1)

count-append :
    (window n : ℕ) (l m : List ℕ)
    → count_recent window n (l ++ m) ≡ count_recent window n l + count_recent window n m
count-append window n [] m = omega arith
count-append window n (t ∷ l) m = omega (arith, count-append window n l m)

append-Ascending :
    (now : ℕ) (l : List ℕ) → Ascending l → All (λ t. t ≤ now) l → Ascending (l ++ now ∷ [])
append-Ascending now [] a p = (tt, tt)
append-Ascending now (t ∷ l) a p =
    (All-append (λ u. t ≤ u) l (now ∷ []) a.0 (p.0, tt), append-Ascending now l a.1 p.1)

pub failed-Tracks :
    (window now : ℕ) (values history : List ℕ)
    → Tracks window now values history
    → Tracks window now (values ++ now ∷ []) (now ∷ history)
failed-Tracks window now values history t = record {
  ascending = append-Ascending now values t.ascending t.past;
  past = All-append (λ u. u ≤ now) values (now ∷ []) t.past (omega arith, tt);
  counts = λ n le. omega (arith, count-append window n values (now ∷ []), t.counts n le);
}

pub dropped-Tracks :
    (window now : ℕ) (values history : List ℕ)
    → Tracks window now values history
    → Tracks window now (drop_old window now values) history
dropped-Tracks window now values history t = record {
  ascending = drop-Ascending window now values t.ascending;
  past = drop-All window now (λ u. u ≤ now) values t.past;
  counts = λ n le. drop-count window now n values le ∙ t.counts n le;
}

pub fresh-Tracks : (window now : ℕ) → Tracks window now [] []
fresh-Tracks window now = record { ascending = tt; past = tt; counts = λ n le. refl }

-- ===== src/Findings/Scope.antt =====
-- The rule of a policy for a finding, and its scope, in the words of the policy.
use code_astra.Base.{
  String, Bool, true, false, ◌||◌, List, [], ◌∷◌, Option, none, some, string_eq, ◌≡◌, ◌≢◌, refl,
  sym, subst, ◌⊎◌, inl, inr, arith, Bool-cases,
}
use code_astra.Base.Lists.{All}
use code_astra.Findings.{
  Finding, ReviewPolicyRule, ReviewPolicy, or_file, find_rule, is_in_scope, any,
}

-- Some element satisfies the test.
abbrev pub Some : {A : Type 0} → (A → Bool) → List A → Type 0
Some p [] = ⊥
Some p (x ∷ xs) = (p x ≡ true) ⊎ Some p xs

pub any-Some : {A : Type 0} (p : A → Bool) (l : List A) → any p l ≡ true → Some p l
any-Some p [] h = absurd (ground arith)
any-Some p (x ∷ l) h = elim (Bool-cases (p x)) [
  | inl here ↦ inl here
  | inr there ↦ inr (any-Some p l (or_right (p x) (any p l) h there))
]
  where
    or_right : (a b : Bool) → a || b ≡ true → a ≡ false → b ≡ true
    or_right a b h k = ground arith

Some-any : {A : Type 0} (p : A → Bool) (l : List A) → Some p l → any p l ≡ true
Some-any p [] h = absurd h
Some-any p (x ∷ l) (inl here) = rw here refl
Some-any p (x ∷ l) (inr there) = or_true (p x) (any p l) (Some-any p l there)
  where
    or_true : (a b : Bool) → b ≡ true → a || b ≡ true
    or_true a b h = ground arith

pub none-any : {A : Type 0} (p : A → Bool) (l : List A) → any p l ≡ false → ¬ Some p l
none-any p l h found = differ (any p l) (Some-any p l found) h
  where
    differ : (b : Bool) → b ≡ true → b ≡ false → ⊥
    differ b p q = ground arith

-- The first rule of the list for this id.
abbrev pub IsFirstRule : String → List ReviewPolicyRule → ReviewPolicyRule → Type 0
IsFirstRule rule_id [] rule = ⊥
IsFirstRule rule_id (first ∷ rules) rule =
    ((first.rule_id ≡ rule_id) × (first ≡ rule))
    ⊎ ((first.rule_id ≢ rule_id) × IsFirstRule rule_id rules rule)

-- What the policy has for a rule's id: its first rule, or none.
abbrev pub RuleFor : ReviewPolicy → String → Option ReviewPolicyRule → Type 0
RuleFor none rule_id none = Unit
RuleFor none rule_id (some rule) = ⊥
RuleFor (some rules) rule_id none = All (λ rule. rule.rule_id ≢ rule_id) rules
RuleFor (some rules) rule_id (some rule) = IsFirstRule rule_id rules rule

pub find_rule_lem :
    (rule_id : String) (rules : List ReviewPolicyRule)
    → RuleFor (some rules) rule_id (find_rule rule_id rules)
find_rule_lem rule_id [] = tt
find_rule_lem rule_id (first ∷ rules) = elim (string_eq.dec first.rule_id rule_id) [
  | yes here ↦ subst (RuleFor (some (first ∷ rules)) rule_id) (sym (found here)) (inl (here, refl))
  | no there ↦
      subst (RuleFor (some (first ∷ rules)) rule_id) (sym (passed there))
        (further there (find_rule rule_id rules) (find_rule_lem rule_id rules))
]
  where
    found : first.rule_id ≡ rule_id → find_rule rule_id (first ∷ rules) ≡ some first
    found here = ground arith

    passed : first.rule_id ≢ rule_id → find_rule rule_id (first ∷ rules) ≡ find_rule rule_id rules
    passed there = ground arith

    further :
        first.rule_id ≢ rule_id
        → (o : Option ReviewPolicyRule) → RuleFor (some rules) rule_id o
        → RuleFor (some (first ∷ rules)) rule_id o
    further there none h = (there, h)
    further there (some rule) h = inr (there, h)

module _ {R : Type 0} (fnmatch : String → String → Bool) where
  -- The path of a finding, which is its file's id where no path is given.
  abbrev pub HasPath : Finding R → String → Type 0
  HasPath finding path =
      ((finding.relative_path ≡ some path) × (path ≢ ""))
      ⊎ (((finding.relative_path ≡ none) ⊎ (finding.relative_path ≡ some ""))
          × (finding.file_id ≡ path))

  -- Some pattern to include matches the path, and no pattern to exclude does.
  abbrev pub InScope : ReviewPolicyRule → Finding R → Type 0
  InScope rule finding =
      (path : String) × HasPath finding path
      × Some (fnmatch path) rule.include_paths
      × ¬ Some (fnmatch path) rule.exclude_paths

  -- No pattern to include matches the path, or some pattern to exclude does.
  abbrev pub OutOfScope : ReviewPolicyRule → Finding R → Type 0
  OutOfScope rule finding =
      (path : String) × HasPath finding path
      × ((¬ Some (fnmatch path) rule.include_paths) ⊎ Some (fnmatch path) rule.exclude_paths)

  or_file_lem :
      (finding : Finding R) (o : Option String)
      → finding.relative_path ≡ o
      → HasPath finding (or_file o finding.file_id)
  or_file_lem finding none e = inr (inl e, refl)
  or_file_lem finding (some path) e = elim (string_eq.dec path "") [
    | yes empty ↦
        subst (HasPath finding) (sym (given_none empty))
          (inr (inr (subst (λ p. finding.relative_path ≡ some p) empty e), refl))
    | no given ↦ subst (HasPath finding) (sym (as_given given)) (inl (e, given))
  ]
    where
      given_none : path ≡ "" → or_file (some path) finding.file_id ≡ finding.file_id
      given_none empty = ground arith

      as_given : path ≢ "" → or_file (some path) finding.file_id ≡ path
      as_given given = ground arith

  module _ (rule : ReviewPolicyRule) (finding : Finding R) where
    abbrev path_of : String
    path_of = or_file finding.relative_path finding.file_id

    pub in_scope_lem : is_in_scope fnmatch rule finding ≡ true → InScope rule finding
    unfolding is_in_scope
    in_scope_lem h = (
      path_of,
      or_file_lem finding finding.relative_path refl,
      any-Some (fnmatch path_of) rule.include_paths (ground arith),
      none-any (fnmatch path_of) rule.exclude_paths (ground arith),
    )

    pub out_of_scope_lem : is_in_scope fnmatch rule finding ≡ false → OutOfScope rule finding
    unfolding is_in_scope
    out_of_scope_lem h = (
      path_of,
      or_file_lem finding finding.relative_path refl,
      elim (Bool-cases (any (fnmatch path_of) rule.include_paths)) [
        | inl included ↦ inr (any-Some (fnmatch path_of) rule.exclude_paths (ground arith))
        | inr left_out ↦ inl (none-any (fnmatch path_of) rule.include_paths left_out)
      ],
    )

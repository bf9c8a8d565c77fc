-- ===== src/Report/Policy/Laws.antt =====
-- When a target and when a run fails.
use python_arch_testing.Base.{
  Bool, Bool-cases, In, List, Option, Text, [], any_of, any_of_iff, ap, arith, codes, eq_text,
  false, if◌then◌else◌, inl, inr, leb, length, ltb, nat_eq, nat_eq_iff, none, not, refl, some,
  subst, suc, sym, text_eq, text_eq_iff, true, ℕ, ◌&&◌, ◌<◌, ◌||◌, ◌↔◌, ◌∙◌, ◌∷◌, ◌≡◌, ◌≢◌, ◌≤◌,
  ◌⊎◌,
}
use python_arch_testing.Report.Policy.{
  ResultRow, compute_exit_code, is_text, compute_aggregate_exit_code, compute_target_exit_code,
  count_failed,
}

-- A row that fails its target.
abbrev pub Fails : Bool → ResultRow → Type 0
Fails warnings_as_fail r =
    (r.status ≡ some (codes "FAILED"))
    ⊎ (r.status ≡ some (codes "ERROR"))
    ⊎ (warnings_as_fail ≡ true)
      × (r.status ≢ some (codes "SKIPPED"))
      × (r.status ≢ some (codes "OK"))
      × ((r.severity ≡ some (codes "warning")) ⊎ (r.status ≡ some (codes "WARNING")))

is_text_iff : (o : Option Text) (s : Text) → (is_text o s ≡ true) ↔ (o ≡ some s)
is_text_iff none s = (λ h. cc, λ h. cc)
is_text_iff (some t) s = ground (arith, text_eq_iff t s)

fails_test : Bool → ResultRow → Bool
fails_test w r =
    is_text r.status (codes "FAILED")
    || is_text r.status (codes "ERROR")
    || w
      && not (is_text r.status (codes "SKIPPED"))
      && not (is_text r.status (codes "OK"))
      && (is_text r.severity (codes "warning") || is_text r.status (codes "WARNING"))

fails_test_iff : (w : Bool) (r : ResultRow) → (fails_test w r ≡ true) ↔ Fails w r
unfolding fails_test
fails_test_iff w r = ground (
  arith,
  is_text_iff r.status (codes "FAILED"),
  is_text_iff r.status (codes "ERROR"),
  is_text_iff r.status (codes "SKIPPED"),
  is_text_iff r.status (codes "OK"),
  is_text_iff r.severity (codes "warning"),
  is_text_iff r.status (codes "WARNING"),
)

exit_code_test :
    (rows : List ResultRow) (w : Bool)
    → compute_exit_code rows w ≡ (if any_of (fails_test w) rows then 1 else 0)
unfolding compute_exit_code fails_test
exit_code_test [] w = refl
exit_code_test (r ∷ rows) w = ground (arith, exit_code_test rows w)

-- The exit code of a target is 0 or 1, and it is 1 just when one of its rows has failed or has an
-- error, or when warnings count as failures and one that is neither skipped nor OK is a warning.
pub exit_code_iff :
    (rows : List ResultRow) (warnings_as_fail : Bool)
    → ((compute_target_exit_code rows warnings_as_fail ≡ 0)
        ⊎ (compute_target_exit_code rows warnings_as_fail ≡ 1))
      × ((compute_target_exit_code rows warnings_as_fail ≡ 1)
          ↔ ((r : ResultRow) × In r rows × Fails warnings_as_fail r))
unfolding compute_target_exit_code
exit_code_iff rows w = elim (Bool-cases (any_of (fails_test w) rows)) [
  | inl h ↦
      let (r, m, t) = (any_of_iff (fails_test w) rows).0 h in
      (inr (fails h), (λ _. (r, m, (fails_test_iff w r).0 t), λ _. fails h))
  | inr h ↦ (
    inl (passes h),
    (
      λ e. absurd (zero_or_one e (passes h)),
      λ x. cc (h, (any_of_iff (fails_test w) rows).1 (x.0, x.1, (fails_test_iff w x.0).1 x.2)),
    ),
  )
]
  where
    fails : any_of (fails_test w) rows ≡ true → compute_exit_code rows w ≡ 1
    fails h = exit_code_test rows w ∙ ap (λ b. if b then 1 else 0) h

    passes : any_of (fails_test w) rows ≡ false → compute_exit_code rows w ≡ 0
    passes h = exit_code_test rows w ∙ ap (λ b. if b then 1 else 0) h

    zero_or_one : {n : ℕ} → n ≡ 1 → n ≡ 0 → ⊥
    zero_or_one p q = omega arith

count_failed_le : (xs : List ℕ) → count_failed xs ≤ length xs
unfolding count_failed
count_failed_le [] = omega arith
count_failed_le (x ∷ xs) = ground (arith, count_failed_le xs)

count_all : (xs : List ℕ) → (count_failed xs ≡ length xs) ↔ ((c : ℕ) → In c xs → c ≡ 1)
unfolding count_failed
count_all [] = (λ _ c m. absurd m, λ _. refl)
count_all (x ∷ xs) = elim (Bool-cases (nat_eq x 1)) [
  | inl h ↦ rw h (
    λ e c m. elim m [
      | inl p ↦ p ∙ (nat_eq_iff x 1).0 h
      | inr n ↦ (count_all xs).0 (omega arith) c n
    ],
    λ all. ap suc ((count_all xs).1 (λ c m. all c (inr m))),
  )
  | inr h ↦ rw h (
    λ e. let no : ⊥ = omega (arith, count_failed_le xs) in absurd no,
    λ all. let p = all x (inl refl) in let no : ⊥ = ground (arith, h, p) in absurd no,
  )
]

count_some : (xs : List ℕ) → (1 ≤ count_failed xs) ↔ In 1 xs
unfolding count_failed
count_some [] = ground arith
count_some (x ∷ xs) = ground (arith, count_some xs)

abbrev bit : Bool → ℕ
bit b = if b then 1 else 0

all_failed :
    (failed total : ℕ) (Any Every : Type 0)
    → (0 < total) ↔ Any
    → (failed ≡ total) ↔ Every
    → (bit (ltb 0 total && nat_eq failed total) ≡ 1) ↔ (Any × Every)
all_failed failed total Any Every h k = ground arith

reaches_threshold : (t n : ℕ) → (bit (leb t n) ≡ 1) ↔ (t ≤ n)
reaches_threshold t n = ground arith

length_positive : (xs : List ℕ) → (0 < length xs) ↔ (xs ≢ [])
length_positive [] = (λ h. let no : ⊥ = omega arith in absurd no, λ n. absurd (n refl))
length_positive (x ∷ xs) = (λ _ p. cc, λ _. omega arith)

under_all_fail :
    (xs : List ℕ) (threshold : ℕ)
    → compute_aggregate_exit_code xs (codes "all_fail") threshold
      ≡ bit (ltb 0 (length xs) && nat_eq (count_failed xs) (length xs))
unfolding compute_aggregate_exit_code text_eq
under_all_fail xs threshold = refl

under_threshold :
    (xs : List ℕ) (threshold : ℕ)
    → compute_aggregate_exit_code xs (codes "threshold") threshold
      ≡ bit (leb threshold (count_failed xs))
unfolding compute_aggregate_exit_code text_eq
under_threshold xs threshold = refl

-- A run fails, by the policy: `all_fail` when it has targets and all of them fail, `threshold` when
-- as many fail as the threshold says, and any other when one fails.
pub aggregate_iff :
    (exit_codes : List ℕ) (policy : Text) (threshold : ℕ)
    → (policy ≡ codes "all_fail"
        → (compute_aggregate_exit_code exit_codes policy threshold ≡ 1)
          ↔ ((exit_codes ≢ []) × ((c : ℕ) → In c exit_codes → c ≡ 1)))
      × (policy ≡ codes "threshold"
          → (compute_aggregate_exit_code exit_codes policy threshold ≡ 1)
            ↔ (threshold ≤ count_failed exit_codes))
      × (policy ≢ codes "all_fail"
          → policy ≢ codes "threshold"
          → (compute_aggregate_exit_code exit_codes policy threshold ≡ 1) ↔ In 1 exit_codes)
unfolding compute_aggregate_exit_code
aggregate_iff exit_codes policy threshold = (
  λ p.
      subst (λ n. (n ≡ 1) ↔ ((exit_codes ≢ []) × ((c : ℕ) → In c exit_codes → c ≡ 1)))
        (sym (
          ap (λ z. compute_aggregate_exit_code exit_codes z threshold) p
          ∙ under_all_fail exit_codes threshold))
        (all_failed (count_failed exit_codes) (length exit_codes) _ _ (length_positive exit_codes)
          (count_all exit_codes)),
  λ p.
      subst (λ n. (n ≡ 1) ↔ (threshold ≤ count_failed exit_codes))
        (sym (
          ap (λ z. compute_aggregate_exit_code exit_codes z threshold) p
          ∙ under_threshold exit_codes threshold))
        (reaches_threshold threshold (count_failed exit_codes)),
  λ p q. ground (
    arith,
    text_eq_iff policy (codes "all_fail"),
    text_eq_iff policy (codes "threshold"),
    count_some exit_codes,
  ),
)

-- ===== src/Report/Policy.antt =====
-- report/policy.py: the exit codes of a target and of a run.
use python_arch_testing.Base.{
  Bool, List, Option, Text, [], codes, eq_text, false, if◌then◌else◌, leb, length, ltb, nat_eq,
  none, some, suc, ℕ, ◌&&◌, ◌==◌, ◌||◌, ◌∷◌,
}
pub mod Laws

-- The two fields of a result row that are read; `none` for a missing key.
pub record ResultRow : Type 0 where
  pub status : Option Text
  pub severity : Option Text

abbrev pub is_text : Option Text → Text → Bool
is_text none s = false
is_text (some t) s = t == s

pub compute_exit_code : List ResultRow → Bool → ℕ
compute_exit_code [] warnings_as_fail = 0
compute_exit_code (r ∷ results) warnings_as_fail =
    let rest = compute_exit_code results warnings_as_fail in
    if is_text r.status (codes "FAILED") || is_text r.status (codes "ERROR")
    then 1
    else if is_text r.status (codes "SKIPPED")
    then rest
    else if is_text r.status (codes "OK")
    then rest
    else if warnings_as_fail
        && (is_text r.severity (codes "warning") || is_text r.status (codes "WARNING"))
    then 1
    else rest

pub compute_target_exit_code : List ResultRow → Bool → ℕ
unfolding compute_exit_code
compute_target_exit_code results warnings_as_fail = compute_exit_code results warnings_as_fail

-- `sum(1 for t in target_states if t.exit_code == 1)`, over the targets' exit codes.
pub count_failed : List ℕ → ℕ
count_failed [] = 0
count_failed (c ∷ codes) = if nat_eq c 1 then suc (count_failed codes) else count_failed codes

-- The policy, stripped of white space, and the threshold are read from the configuration; a negative
-- threshold acts as zero does.
pub compute_aggregate_exit_code : List ℕ → Text → ℕ → ℕ
unfolding count_failed
compute_aggregate_exit_code exit_codes policy threshold =
    let failed = count_failed exit_codes in
    let total = length exit_codes in
    if policy == codes "all_fail"
    then (if ltb 0 total && nat_eq failed total then 1 else 0)
    else if policy == codes "threshold"
    then (if leb threshold failed then 1 else 0)
    else if leb 1 failed
    then 1
    else 0

-- ===== src/Architecture/Compare/Others.antt =====
-- What `compare_instances` and `compare_packages` report, list by list.
use python_arch_testing.Base.{
  Dict, In, List, Text, [], arith, contains_iff, eq_text, false, keys, refl, some, true, ◌↔◌, ◌≡◌,
  ◌⊎◌,
}
use python_arch_testing.Architecture.Edges.{Edge, covered, eq_arrow, reachable}
use python_arch_testing.Architecture.Edges.Reach.{reachable_iff, Reaches}
use python_arch_testing.Architecture.Compare.{
  EdgeDiff, Policy, Verdict, class_module, compare_instances, compare_packages, converges, diverges,
  ignores, instance_verdict, layered, package_verdict, permits, policy_is_layered, policy_of,
  undecides,
}
use python_arch_testing.Architecture.Compare.Diff.{diff_of, diff_of_lem, Reports}

module _ (policy : Policy) (expected reference_calls : List Edge) (modules : List Text)
    (allow forbid : List Edge) where
  abbrev pub by_module : Edge → Edge
  by_module p = (p.0, class_module p.1 modules)

  -- An exception that names the class, or covers its module.
  abbrev pub Excepted : List Edge → Edge → Type 0
  Excepted exceptions p = In p exceptions ⊎ (covered (by_module p) exceptions ≡ true)

  abbrev pub JudgedInstance : Edge → Verdict → Type 0
  JudgedInstance p converges = (¬ Excepted forbid p) × (¬ Excepted allow p) × In p expected
  JudgedInstance p diverges =
      Excepted forbid p
      ⊎ (¬ Excepted forbid p)
        × (¬ Excepted allow p)
        × (¬ In p expected)
        × (policy ≡ layered → Reaches reference_calls (class_module p.1 modules) p.0)
  JudgedInstance p permits = (¬ Excepted forbid p) × Excepted allow p
  JudgedInstance p undecides =
      (¬ Excepted forbid p)
      × (¬ Excepted allow p)
      × (¬ In p expected)
      × (policy ≡ layered)
      × (¬ Reaches reference_calls (class_module p.1 modules) p.0)
  JudgedInstance p ignores = ⊥

  layered_iff : (policy_is_layered policy ≡ true) ↔ (policy ≡ layered)
  layered_iff = ground arith

  instance_verdict_iff :
      (p : Edge) (v : Verdict)
      → (instance_verdict policy expected reference_calls modules allow forbid p ≡ v)
        ↔ JudgedInstance p v
  unfolding instance_verdict
  instance_verdict_iff p v = ground (
    arith,
    layered_iff,
    contains_iff ⦃e = eq_arrow⦄ forbid p,
    contains_iff ⦃e = eq_arrow⦄ allow p,
    contains_iff ⦃e = eq_arrow⦄ expected p,
    contains_iff (reachable (class_module p.1 modules) reference_calls) p.0,
    reachable_iff (class_module p.1 modules) reference_calls p.0,
  )

module _ {T : Type 0} (reference : List Edge) (target : Dict Edge T) (name : Text) where
  -- Under a known policy, `compare_instances` returns a difference in which each creation of the
  -- target stands in the list that the exceptions (on the class or on its module), the reference's
  -- creations and, for `layered`, the reference's chains of calls from the class's module to the
  -- creator decide; the reference's creations that the target lacks are absent.
  pub compare_instances_exact :
      (policy : Policy) (reference_calls allow forbid : List Edge) (modules : List Text)
      → policy_of name ≡ some policy
      → (d : EdgeDiff) × (compare_instances reference target name reference_calls allow forbid
            modules
          ≡ some d)
        × Reports
            (JudgedInstance policy reference reference_calls modules allow forbid)
            (keys target)
            []
            reference
            d
  unfolding compare_instances
  compare_instances_exact policy reference_calls allow forbid modules h = (
    diff_of (instance_verdict policy reference reference_calls modules allow forbid) (keys target)
        [] reference,
    rw (h, compare_instances) refl,
    diff_of_lem (instance_verdict policy reference reference_calls modules allow forbid)
        (JudgedInstance policy reference reference_calls modules allow forbid) (keys target) []
        reference (instance_verdict_iff policy reference reference_calls modules allow forbid),
  )

module _ (used ignored : List Text) (allow forbid : List Edge) where
  abbrev pub JudgedPackage : Edge → Verdict → Type 0
  JudgedPackage p converges =
      (covered p forbid ≡ false) × (¬ In p.1 ignored) × (covered p allow ≡ false) × In p.1 used
  JudgedPackage p diverges =
      (covered p forbid ≡ true)
      ⊎ (covered p forbid ≡ false)
        × (¬ In p.1 ignored)
        × (covered p allow ≡ false)
        × (¬ In p.1 used)
  JudgedPackage p permits =
      (covered p forbid ≡ false) × (¬ In p.1 ignored) × (covered p allow ≡ true)
  JudgedPackage p undecides = ⊥
  JudgedPackage p ignores = (covered p forbid ≡ false) × In p.1 ignored

  package_verdict_iff :
      (p : Edge) (v : Verdict)
      → (package_verdict used ignored allow forbid p ≡ v) ↔ JudgedPackage p v
  unfolding package_verdict
  package_verdict_iff p v = ground (arith, contains_iff ignored p.1, contains_iff used p.1)

-- `compare_packages` puts each use of a package into the list that the exceptions, the ignored and
-- the reference's packages decide, drops the ignored ones that no exception forbids, and has
-- nothing absent or undecided.
pub compare_packages_exact :
    {T : Type 0} (used : List Text) (target : Dict Edge T) (ignored : List Text)
    (allow forbid : List Edge)
    → Reports
        (JudgedPackage used ignored allow forbid)
        (keys target)
        []
        []
        (compare_packages used target ignored allow forbid)
unfolding compare_packages
compare_packages_exact used target ignored allow forbid =
    let r =
      diff_of_lem (package_verdict used ignored allow forbid)
        (JudgedPackage used ignored allow forbid) (keys target) [] []
        (package_verdict_iff used ignored allow forbid) in
    record {
      convergent_iff = r.convergent_iff;
      divergent_iff = r.divergent_iff;
      allowed_iff = r.allowed_iff;
      undecided_iff = λ p. ground arith;
      absent_iff = λ p. ground arith;
    }

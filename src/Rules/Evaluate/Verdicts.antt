-- ===== src/Rules/Evaluate/Verdicts.antt =====
-- core/evaluation.py, `evaluate_rule`: where the result of a rule comes from.
use python_arch_testing.Base.{
  Bool, Bool-cases, Option, Option-cases, Text, ap, ap₂, codes, eq_text, false, if◌then◌else◌, inl,
  inr, none, not, refl, some, subst, sym, true, ◌==◌, ◌∙◌, ◌≡◌, ◌≢◌, ◌⊎◌,
}
use python_arch_testing.Entities.{Entity}
use python_arch_testing.Rules.Models.{
  Details, MatchResult, Rule, RuleResult, matched, status_error, status_failed, status_ok,
  unsupported, not_in_index, required_target_missing, skipped_by_match, status_skipped, MatchStatus,
  ambiguous, is_matched, low_confidence, unmatched, disabled,
}
use python_arch_testing.Rules.Members.{matched_target_parent_class}
use python_arch_testing.Rules.Promote.{Setup, promote_low_confidence_target, target_of_id}
use python_arch_testing.Rules.Evaluate.{
  Registry, Evaluation, answer, evaluate_import_policy, fails_on_unmatched, fallback_target,
  own_result, returned, call_on, evaluate_in_parent, evaluate_target, evaluate_unmatched,
  is_required_member, or_call, unmatched_result, evaluate_rule, has_target_id,
}

module _ {X C V D S : Type 0} (setup : Setup X C V) (registry : Registry X C V D S) where
  -- The evaluator that is registered for the type of an enabled rule makes the step.
  abbrev pub ByEvaluator : Rule V → Entity X → MatchResult C → Evaluation C D S → Type 0
  ByEvaluator rule source m step =
      (evaluate : Rule V → Entity X → Option (Entity X) → MatchResult C → Evaluation C D S)
      × (t : Option (Entity X)) × (registry rule.rule_type ≡ some evaluate)
      × (step ≡ evaluate rule source t m)
      × (rule.enabled ≡ true)

  -- The step changes no state, and its result is no success; it is a failure only for a source that
  -- is not matched, under a rule that fails then.
  abbrev pub ByItself : Rule V → MatchResult C → Evaluation C D S → Type 0
  ByItself rule m step =
      (r : RuleResult C D) × (step ≡ (λ s. (returned r, s)))
      × (r.rule_id ≡ rule.rule_id)
      × (r.status ≢ status_ok)
      × (r.status ≡ status_failed
          → (m.status ≢ matched) × (fails_on_unmatched setup registry rule ≡ true))

  abbrev pub Verdict : Rule V → Entity X → MatchResult C → Evaluation C D S → Type 0
  Verdict rule source m step = ByEvaluator rule source m step ⊎ ByItself rule m step

  module _ (rule : Rule V) (source : Entity X) (m : MatchResult C) (on : rule.enabled ≡ true) where
    by_evaluator :
        (f : Rule V → Entity X → Option (Entity X) → MatchResult C → Evaluation C D S)
        (t : Option (Entity X)) (step : Evaluation C D S)
        → registry rule.rule_type ≡ some f
        → step ≡ f rule source t m
        → Verdict rule source m step
    by_evaluator f t step h e = inl (f, t, h, e, on)

    by_error :
        (details : Details D) (t : Option Text) (step : Evaluation C D S)
        → step
          ≡ answer setup registry (own_result setup registry status_error details t rule source m)
        → Verdict rule source m step
    by_error details t step h = inr (_, h, refl, (λ e. absurd (cc e)), λ e. absurd (cc e))

    import_policy_verdict :
        Verdict rule source m (evaluate_import_policy setup registry rule source m)
    unfolding evaluate_import_policy
    import_policy_verdict = elim (Option-cases (registry rule.rule_type)) [
      | inl h ↦ by_error unsupported m.target_id _ (rw (h, evaluate_import_policy) refl)
      | inr (f, h) ↦
          by_evaluator f (fallback_target setup registry source m) _ h
            (rw (h, evaluate_import_policy) refl)
    ]

    target_verdict :
        (o : Option (Entity X))
        → Verdict rule source m (evaluate_target setup registry rule source m o)
    target_verdict none = by_error not_in_index m.target_id _ refl
    target_verdict (some t) = elim (Option-cases (registry rule.rule_type)) [
      | inl h ↦ by_error unsupported (some t.canonical_id) _ (rw (h, evaluate_target) refl)
      | inr (f, h) ↦ by_evaluator f (some t) _ h (rw (h, evaluate_target) refl)
    ]

    -- A call that may be made, made.
    abbrev Called : Option (Evaluation C D S) → Type 0
    Called o = (step : Evaluation C D S) → o ≡ some step → Verdict rule source m step

    call_on-Called : (o : Option (Entity X)) → Called (call_on setup registry rule source o m)
    call_on-Called none step h = absurd (cc h)
    call_on-Called (some t) step h = elim (Option-cases (registry rule.rule_type)) [
      | inl e ↦ absurd (no_call (missing e ∙ h))
      | inr (f, e) ↦ by_evaluator f (some t) step e (same (sym h ∙ call e))
    ]
      where
        no_call : ¬ (none ≡ some step)
        no_call k = absurd (cc k)

        missing :
            registry rule.rule_type ≡ none → none ≡ call_on setup registry rule source (some t) m
        missing e = rw (e, call_on) refl

        call :
            {f : Rule V → Entity X → Option (Entity X) → MatchResult C → Evaluation C D S}
            → registry rule.rule_type ≡ some f
            → call_on setup registry rule source (some t) m ≡ some (f rule source (some t) m)
        call e = rw (e, call_on) refl

        same : {a b : Evaluation C D S} → some a ≡ some b → a ≡ b
        same k = cc k

    parent-Called : Called (evaluate_in_parent setup registry rule source m)
    parent-Called = elim (Bool-cases (is_required_member setup registry rule)) [
      | inl h ↦ λ step e. call_on-Called (matched_target_parent_class setup.ctx source) step (
          sym (
            ap
              (λ b.
                if b
                then call_on setup registry rule source
                    (matched_target_parent_class setup.ctx source) m
                else none)
              h)
          ∙ e)
      | inr h ↦ λ step e. absurd (
          nothing step (
            sym (
              ap
                (λ b.
                  if b
                  then call_on setup registry rule source
                      (matched_target_parent_class setup.ctx source) m
                  else none)
                h)
            ∙ e))
    ]
      where
        nothing : (step : Evaluation C D S) → ¬ (none ≡ some step)
        nothing step k = absurd (cc k)

    or_call_verdict :
        (f g : Option (Evaluation C D S)) (h : Evaluation C D S)
        → Called f
        → Called g
        → Verdict rule source m h
        → Verdict rule source m (or_call setup registry f g h)
    or_call_verdict (some f) g h a b c = a f refl
    or_call_verdict none (some g) h a b c = b g refl
    or_call_verdict none none h a b c = c

    unmatched_itself :
        m.status ≢ matched
        → Verdict rule source m
            (answer setup registry (unmatched_result setup registry rule source m))
    unfolding unmatched_result
    unmatched_itself n = elim (Bool-cases (fails_on_unmatched setup registry rule)) [
      | inl h ↦ inr (
        own_result setup registry status_failed required_target_missing m.target_id rule source m,
        ap (answer setup registry) (failed h),
        refl,
        (λ e. absurd (cc e)),
        λ e. (n, h),
      )
      | inr h ↦ inr (
        own_result setup registry status_skipped skipped_by_match m.target_id rule source m,
        ap (answer setup registry) (skipped h),
        refl,
        (λ e. absurd (cc e)),
        λ e. absurd (cc e),
      )
    ]
      where
        failed :
            fails_on_unmatched setup registry rule ≡ true
            → unmatched_result setup registry rule source m
              ≡ own_result setup registry status_failed required_target_missing m.target_id rule
                  source m
        failed h = rw h refl

        skipped :
            fails_on_unmatched setup registry rule ≡ false
            → unmatched_result setup registry rule source m
              ≡ own_result setup registry status_skipped skipped_by_match m.target_id rule source m
        skipped h = rw h refl

    unmatched_verdict :
        m.status ≢ matched → Verdict rule source m (evaluate_unmatched setup registry rule source m)
    unfolding evaluate_unmatched
    unmatched_verdict n = elim (Bool-cases (rule.rule_type == codes "import_policy")) [
      | inl h ↦ rw h import_policy_verdict
      | inr h ↦ rw h (
          or_call_verdict _ _ _ parent-Called
            (call_on-Called (promote_low_confidence_target setup rule source m))
            (unmatched_itself n))
    ]

  matched_or_not :
      (s : MatchStatus) → (is_matched s ≡ true) ⊎ ((is_matched s ≡ false) × (s ≢ matched))
  matched_or_not matched = inl refl
  matched_or_not unmatched = inr (refl, λ e. absurd (cc e))
  matched_or_not ambiguous = inr (refl, λ e. absurd (cc e))
  matched_or_not low_confidence = inr (refl, λ e. absurd (cc e))

  -- `evaluate_rule` on the two tests that it makes first.
  abbrev on_tests : Rule V → Entity X → MatchResult C → Bool → Bool → Evaluation C D S
  on_tests rule source m on is_match =
      if not on
      then answer setup registry
          (own_result setup registry status_skipped disabled m.target_id rule source m)
      else if not is_match
      then evaluate_unmatched setup registry rule source m
      else evaluate_target setup registry rule source m (
          if has_target_id setup registry m.target_id then target_of_id setup m.target_id else none)

  at_tests :
      (rule : Rule V) (source : Entity X) (m : MatchResult C) (b c : Bool)
      → rule.enabled ≡ b
      → is_matched m.status ≡ c
      → Verdict rule source m (on_tests rule source m b c)
      → Verdict rule source m (evaluate_rule setup registry rule source m)
  unfolding evaluate_rule
  at_tests rule source m b c h k v =
      subst (Verdict rule source m) (sym (ap₂ (on_tests rule source m) h k)) v

  -- The result of a rule is that of the evaluator registered for its type, and then the rule is
  -- enabled; or the evaluation answers itself, never with a success, with a failure only for a source
  -- that is not matched and a rule that fails then, under the rule's id and without touching the state.
  pub evaluate_rule_verdict :
      (rule : Rule V) (source : Entity X) (m : MatchResult C)
      → Verdict rule source m (evaluate_rule setup registry rule source m)
  evaluate_rule_verdict rule source m = elim (Bool-cases rule.enabled) [
    | inl on ↦ elim (matched_or_not m.status) [
      | inl h ↦ at_tests rule source m true true on h (target_verdict rule source m on _)
      | inr (h, n) ↦ at_tests rule source m true false on h (unmatched_verdict rule source m on n)
    ]
    | inr off ↦
        at_tests rule source m false _ off refl
          (inr (_, refl, refl, (λ e. absurd (cc e)), λ e. absurd (cc e)))
  ]

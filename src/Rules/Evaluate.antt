-- ===== src/Rules/Evaluate.antt =====
-- core/evaluation.py: `evaluate_rule` and `evaluate_rules_for_target`. The registry of evaluators is
-- a parameter: an evaluator is a step on the state `S` of the evaluation and may raise. Building the
-- context and the prefetch of dynamic checks before the loop are not here.
pub mod Verdicts
pub mod Runs
pub mod Failures
use python_arch_testing.Base.{
  Bool, List, Option, Text, [], codes, eq_text, false, if◌then◌else◌, lookup, none, not, some, true,
  ◌&&◌, ◌==◌, ◌||◌, ◌∷◌,
}
use python_arch_testing.Entities.{Entity}
use python_arch_testing.Rules.Models.{
  Details, ErrorEntry, MatchResult, Rule, RuleResult, RuleStatus, disabled, evaluation_error,
  is_matched, not_in_index, required_target_missing, skipped_by_match, status_error, status_failed,
  status_skipped, unsupported,
}
use python_arch_testing.Rules.Members.{matched_target_parent_class}
use python_arch_testing.Rules.Promote.{
  Setup, param_test, promote_low_confidence_target, target_of_id,
}

-- An evaluator returns a result or raises an exception with a text.
pub data Outcome (R : Type 0) : Type 0 where
  returned : R → Outcome R
  raises : Text → Outcome R

abbrev pub Evaluation : Type 0 → Type 0 → Type 0 → Type 0
Evaluation C D S = S → Outcome (RuleResult C D) × S

-- `get_rule_evaluator` and `evaluator.evaluate`; the target may be missing.
abbrev pub Registry : Type 0 → Type 0 → Type 0 → Type 0 → Type 0 → Type 0
Registry X C V D S =
    Text → Option (Rule V → Entity X → Option (Entity X) → MatchResult C → Evaluation C D S)

module _ {X C V D S : Type 0} (setup : Setup X C V) (get_rule_evaluator : Registry X C V D S) where
  -- A result of core/evaluation.py itself.
  abbrev pub own_result :
      RuleStatus → Details D → Option Text → Rule V → Entity X → MatchResult C → RuleResult C D
  own_result status details target_id rule source m = record {
    rule_id = rule.rule_id;
    status = status;
    source_entity_id = source.canonical_id;
    target_entity_id = target_id;
    match_status = m.status;
    confidence = m.confidence;
    details = details;
  }

  abbrev pub answer : RuleResult C D → Evaluation C D S
  answer r s = (returned r, s)

  -- `match.target_id` is neither None nor empty.
  abbrev pub has_target_id : Option Text → Bool
  has_target_id none = false
  has_target_id (some id) = not (id == [])

  abbrev pub first_or : List (Entity X) → Entity X → Entity X
  first_or [] source = source
  first_or (e ∷ entities) source = e

  abbrev pub fallback_target : Entity X → MatchResult C → Option (Entity X)
  fallback_target source m =
      if has_target_id m.target_id
      then target_of_id setup m.target_id
      else some (first_or setup.ctx.target_index.all_sorted source)

  pub evaluate_import_policy : Rule V → Entity X → MatchResult C → Evaluation C D S
  evaluate_import_policy rule source m = elim (get_rule_evaluator rule.rule_type) [
    | none ↦ answer (own_result status_error unsupported m.target_id rule source m)
    | some evaluate ↦ evaluate rule source (fallback_target source m) m
  ]

  -- The call of the evaluator of a rule, where there are both an evaluator and a target.
  abbrev pub call_on :
      Rule V → Entity X → Option (Entity X) → MatchResult C → Option (Evaluation C D S)
  call_on rule source none m = none
  call_on rule source (some t) m = elim (get_rule_evaluator rule.rule_type) [
    | none ↦ none
    | some evaluate ↦ some (evaluate rule source (some t) m)
  ]

  abbrev pub is_required_member : Rule V → Bool
  is_required_member rule =
      rule.rule_type == codes "api_signature"
      && (rule.name == codes "required_method" || rule.name == codes "required_factory")

  abbrev pub evaluate_in_parent : Rule V → Entity X → MatchResult C → Option (Evaluation C D S)
  evaluate_in_parent rule source m =
      if is_required_member rule
      then call_on rule source (matched_target_parent_class setup.ctx source) m
      else none

  abbrev pub is_absent : Option Text → Bool
  is_absent none = true
  is_absent (some root) = false

  abbrev pub fails_on_unmatched : Rule V → Bool
  fails_on_unmatched rule =
      param_test setup.tests.truth false (lookup (codes "fail_on_unmatched") rule.params)
      && not (rule.evidence_type == codes "runtime" && is_absent setup.ctx.target_root)

  pub unmatched_result : Rule V → Entity X → MatchResult C → RuleResult C D
  unmatched_result rule source m =
      if fails_on_unmatched rule
      then own_result status_failed required_target_missing m.target_id rule source m
      else own_result status_skipped skipped_by_match m.target_id rule source m

  abbrev pub or_call :
      Option (Evaluation C D S) → Option (Evaluation C D S) → Evaluation C D S → Evaluation C D S
  or_call (some f) g h = f
  or_call none (some g) h = g
  or_call none none h = h

  pub evaluate_unmatched : Rule V → Entity X → MatchResult C → Evaluation C D S
  unfolding evaluate_import_policy unmatched_result
  evaluate_unmatched rule source m =
      if rule.rule_type == codes "import_policy"
      then evaluate_import_policy rule source m
      else or_call (evaluate_in_parent rule source m)
          (call_on rule source (promote_low_confidence_target setup rule source m) m)
          (answer (unmatched_result rule source m))

  abbrev pub evaluate_target :
      Rule V → Entity X → MatchResult C → Option (Entity X) → Evaluation C D S
  evaluate_target rule source m none =
      answer (own_result status_error not_in_index m.target_id rule source m)
  evaluate_target rule source m (some t) = elim (get_rule_evaluator rule.rule_type) [
    | none ↦ answer (own_result status_error unsupported (some t.canonical_id) rule source m)
    | some evaluate ↦ evaluate rule source (some t) m
  ]

  pub evaluate_rule : Rule V → Entity X → MatchResult C → Evaluation C D S
  unfolding evaluate_unmatched
  evaluate_rule rule source m =
      if not rule.enabled
      then answer (own_result status_skipped disabled m.target_id rule source m)
      else if not (is_matched m.status)
      then evaluate_unmatched rule source m
      else evaluate_target rule source m
          (if has_target_id m.target_id then target_of_id setup m.target_id else none)

  abbrev pub Run : Type 0
  Run = List (RuleResult C D) × List ErrorEntry × S

  -- The body of the `try`: a raised exception becomes a result and an error.
  abbrev pub record_outcome :
      Rule V → Entity X → MatchResult C → Outcome (RuleResult C D) → Run → Run
  record_outcome rule source m (returned r) run = (r ∷ run.0, run.1, run.2)
  record_outcome rule source m (raises text) run = (
    own_result status_error (evaluation_error text) m.target_id rule source m ∷ run.0,
    record { rule_id = rule.rule_id; error = text; source_entity = source.canonical_id } ∷ run.1,
    run.2,
  )

  -- The source and the match of a rule that the loop evaluates.
  abbrev pub paired : Option (Entity X) → Option (MatchResult C) → Option (Entity X × MatchResult C)
  paired none m = none
  paired (some e) none = none
  paired (some e) (some m) = some (e, m)

  pub subject : Rule V → Option (Entity X × MatchResult C)
  subject rule =
      if rule.enabled
      then paired (lookup rule.source_entity_id setup.ctx.source_by_id)
          (lookup rule.source_entity_id setup.ctx.matches)
      else none

  unfoldable pub evaluate_rules : List (Rule V) → S → Run
  unfolding evaluate_rule subject
  evaluate_rules [] s = ([], [], s)
  evaluate_rules (rule ∷ rules) s = elim (subject rule) [
    | none ↦ evaluate_rules rules s
    | some (source, m) ↦
        let step = evaluate_rule rule source m s in
        record_outcome rule source m step.0 (evaluate_rules rules step.1)
  ]

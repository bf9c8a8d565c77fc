-- ===== src/Rules/Evaluate/Runs.antt =====
-- core/evaluation.py, the loop of `evaluate_rules_for_target`: its results and its errors.
use python_arch_testing.Base.{
  Bool, Bool-cases, List, Option, Option-cases, [], ap, ap₂, eq_text, if◌then◌else◌, inl, inr,
  lookup, map, none, refl, some, subst, sym, true, ◌↔◌, ◌∙◌, ◌∷◌, ◌≡◌,
}
use python_arch_testing.Entities.{Entity}
use python_arch_testing.Rules.Models.{MatchResult, Rule, RuleResult}
use python_arch_testing.Rules.Promote.{Setup}
use python_arch_testing.Rules.Evaluate.{
  Registry, Evaluation, Outcome, Run, evaluate_rule, evaluate_rules, raises, record_outcome,
  returned, subject, paired,
}
use python_arch_testing.Rules.Evaluate.Verdicts.{evaluate_rule_verdict}

module _ {X C V D S : Type 0} (setup : Setup X C V) (registry : Registry X C V D S) where
  -- An evaluator puts the id of the rule on its results.
  abbrev pub KeepsId : Type 0
  KeepsId =
      (f : Rule V → Entity X → Option (Entity X) → MatchResult C → Evaluation C D S)
      → (rule : Rule V) → (source : Entity X) → (t : Option (Entity X)) → (m : MatchResult C)
      → (s : S) → (r : RuleResult C D) → registry rule.rule_type ≡ some f
      → (f rule source t m s).0 ≡ returned r
      → r.rule_id ≡ rule.rule_id

  returned_id :
      KeepsId
      → (rule : Rule V) (source : Entity X) (m : MatchResult C) (s : S) (r : RuleResult C D)
      → (evaluate_rule setup registry rule source m s).0 ≡ returned r
      → r.rule_id ≡ rule.rule_id
  returned_id keeps rule source m s r e =
      elim (evaluate_rule_verdict setup registry rule source m) [
        | inl v ↦ keeps v.0 rule source v.1 m s r v.2 (sym (ap (λ step. (step s).0) v.3) ∙ e)
        | inr v ↦
            let same = result v.0 r (sym (ap (λ step. (step s).0) v.1) ∙ e) in
            subst (λ z. z.rule_id ≡ rule.rule_id) same v.2
      ]
    where
      result : (a b : RuleResult C D) → returned a ≡ returned b → a ≡ b
      result a b e = cc e

  outcome_ids :
      (rule : Rule V) (source : Entity X) (m : MatchResult C) (o : Outcome (RuleResult C D))
      (run : Run setup registry)
      → ((r : RuleResult C D) → o ≡ returned r → r.rule_id ≡ rule.rule_id)
      → map (λ r. r.rule_id) (record_outcome setup registry rule source m o run).0
        ≡ rule.rule_id ∷ map (λ r. r.rule_id) run.0
  outcome_ids rule source m (returned r) run h = ap (λ i. i ∷ map (λ r. r.rule_id) run.0) (h r refl)
  outcome_ids rule source m (raises text) run h = refl

  -- A rule that the loop has to evaluate: it is enabled, and its source and match are known.
  abbrev pub Due : Rule V → Entity X → MatchResult C → Type 0
  Due rule source m =
      (rule.enabled ≡ true)
      × (lookup rule.source_entity_id setup.ctx.source_by_id ≡ some source)
      × (lookup rule.source_entity_id setup.ctx.matches ≡ some m)

  abbrev pub IsDue : Rule V → Type 0
  IsDue rule = (source : Entity X) × (m : MatchResult C) × Due rule source m

  paired_iff :
      (o : Option (Entity X)) (q : Option (MatchResult C)) (p : Entity X × MatchResult C)
      → (paired setup registry o q ≡ some p) ↔ ((o ≡ some p.0) × (q ≡ some p.1))
  paired_iff none q p = (λ h. absurd (cc h), λ h. absurd (cc h.0))
  paired_iff (some e) none p = (λ h. absurd (cc h), λ h. absurd (cc h.1))
  paired_iff (some e) (some m) p = (
    λ h. let same : (e, m) ≡ p = cc h in (ap (λ z. some z.0) same, ap (λ z. some z.1) same),
    λ h.
        let first : e ≡ p.0 = cc h.0 in
        let second : m ≡ p.1 = cc h.1 in ap₂ (λ a b. some (a, b)) first second,
  )

  pub subject_iff :
      (rule : Rule V) (p : Entity X × MatchResult C)
      → (subject setup registry rule ≡ some p) ↔ Due rule p.0 p.1
  unfolding subject
  subject_iff rule p = elim (Bool-cases rule.enabled) [
    | inl h ↦ (
      λ k. let (a, b) = (paired_iff _ _ p).0 (sym (ap chosen h) ∙ k) in (h, a, b),
      λ d. ap chosen h ∙ (paired_iff _ _ p).1 (d.1, d.2),
    )
    | inr h ↦ (λ k. absurd (nothing (sym (ap chosen h) ∙ k)), λ d. absurd (cc (h, d.0)))
  ]
    where
      chosen : Bool → Option (Entity X × MatchResult C)
      chosen b =
          if b
          then paired setup registry (lookup rule.source_entity_id setup.ctx.source_by_id)
              (lookup rule.source_entity_id setup.ctx.matches)
          else none

      nothing : {A : Type 0} {a : A} → ¬ (none ≡ some a)
      nothing e = absurd (cc e)

  pub subject-none : (rule : Rule V) → subject setup registry rule ≡ none → ¬ IsDue rule
  subject-none rule h w = absurd (cc (h, (subject_iff rule (w.0, w.1)).1 w.2))

  pub not_due : (rule : Rule V) → ¬ IsDue rule → subject setup registry rule ≡ none
  not_due rule n = elim (Option-cases (subject setup registry rule)) [
    | inl h ↦ h
    | inr (p, h) ↦ absurd (n (p.0, p.1, (subject_iff rule p).0 h))
  ]

  pub evaluate_rules_skip :
      (rule : Rule V) (rules : List (Rule V)) (s : S)
      → subject setup registry rule ≡ none
      → evaluate_rules setup registry (rule ∷ rules) s ≡ evaluate_rules setup registry rules s
  unfolding evaluate_rules
  evaluate_rules_skip rule rules s h = rw (h, evaluate_rules) refl

  pub evaluate_rules_next :
      (rule : Rule V) (rules : List (Rule V)) (s : S) (e : Entity X) (m : MatchResult C)
      → subject setup registry rule ≡ some (e, m)
      → evaluate_rules setup registry (rule ∷ rules) s
        ≡ record_outcome setup registry rule e m
            (evaluate_rule setup registry rule e m s).0
            (evaluate_rules setup registry rules (evaluate_rule setup registry rule e m s).1)
  unfolding evaluate_rules
  evaluate_rules_next rule rules s e m h = rw (h, evaluate_rules) refl

  -- The rules of a list that have to be evaluated, in their order.
  pub data Picks : List (Rule V) → List (Rule V) → Type 0 where
    no_rule : Picks [] []
    takes :
        {rule : Rule V} {rules due : List (Rule V)}
        → IsDue rule
        → Picks rules due
        → Picks (rule ∷ rules) (rule ∷ due)
    skips :
        {rule : Rule V} {rules due : List (Rule V)}
        → ¬ IsDue rule
        → Picks rules due
        → Picks (rule ∷ rules) due

  -- The loop gives one result for every rule that is enabled and whose source and match are known,
  -- and none for another rule, in the order of the rules and under their ids, even where an
  -- evaluator raises; evaluators are assumed to put the id of the rule on what they return.
  pub evaluate_rules_one_each :
      KeepsId
      → (rules : List (Rule V)) (s : S)
      → (due : List (Rule V)) × Picks rules due
        × (map (λ r. r.rule_id) (evaluate_rules setup registry rules s).0
            ≡ map (λ rule. rule.rule_id) due)
  unfolding evaluate_rules
  evaluate_rules_one_each keeps [] s = ([], no_rule, refl)
  evaluate_rules_one_each keeps (rule ∷ rules) s =
      elim (Option-cases (subject setup registry rule)) [
        | inl h ↦
            let (due, picks, same) = evaluate_rules_one_each keeps rules s in
            (
              due,
              skips (subject-none rule h) picks,
              ap (λ run. map (λ r. r.rule_id) run.0) (evaluate_rules_skip rule rules s h) ∙ same,
            )
        | inr (p, h) ↦
            let step = evaluate_rule setup registry rule p.0 p.1 s in
            let (due, picks, same) = evaluate_rules_one_each keeps rules step.1 in
            (
              rule ∷ due,
              takes (p.0, p.1, (subject_iff rule p).0 h) picks,
              ap (λ run. map (λ r. r.rule_id) run.0) (evaluate_rules_next rule rules s p.0 p.1 h)
                  ∙ outcome_ids rule p.0 p.1 step.0 (evaluate_rules setup registry rules step.1)
                      (λ r e. returned_id keeps rule p.0 p.1 s r e)
                  ∙ ap (λ z. rule.rule_id ∷ z) same,
            )
      ]

-- ===== src/Rules/Evaluate/Failures.antt =====
-- core/evaluation.py, the loop of `evaluate_rules_for_target`: the errors that it reports.
use python_arch_testing.Base.{
  In, List, Option-cases, Text, [], ap, inl, inr, refl, subst, sym, ◌↔◌, ◌∙◌, ◌∷◌, ◌≡◌, ◌⊎◌,
}
use python_arch_testing.Entities.{Entity}
use python_arch_testing.Rules.Models.{
  MatchResult, Rule, RuleResult, ErrorEntry, evaluation_error, status_error,
}
use python_arch_testing.Rules.Promote.{Setup}
use python_arch_testing.Rules.Evaluate.{
  Registry, Outcome, Run, evaluate_rule, evaluate_rules, raises, record_outcome, returned, subject,
}
use python_arch_testing.Rules.Evaluate.Runs.{
  Due, IsDue, subject_iff, subject-none, not_due, evaluate_rules_skip, evaluate_rules_next,
}

module _ {X C V D S : Type 0} (setup : Setup X C V) (registry : Registry X C V D S) where
  -- `Evaluated rules s rule source m t`: the loop over `rules` from the state `s` evaluates `rule`
  -- on its source and match in the state `t`.
  pub data Evaluated : List (Rule V) → S → Rule V → Entity X → MatchResult C → S → Type 0 where
    at_once :
        {rule : Rule V} {rules : List (Rule V)} {e : Entity X} {m : MatchResult C} {s : S}
        → Due setup registry rule e m
        → Evaluated (rule ∷ rules) s rule e m s
    after_rule :
        {first rule : Rule V} {rules : List (Rule V)} {d e : Entity X} {n m : MatchResult C}
        {s t : S}
        → Due setup registry first d n
        → Evaluated rules (evaluate_rule setup registry first d n s).1 rule e m t
        → Evaluated (first ∷ rules) s rule e m t
    past_rule :
        {first rule : Rule V} {rules : List (Rule V)} {e : Entity X} {m : MatchResult C} {s t : S}
        → ¬ IsDue setup registry first
        → Evaluated rules s rule e m t
        → Evaluated (first ∷ rules) s rule e m t

  abbrev entry_of : Rule V → Entity X → Text → ErrorEntry
  entry_of rule source text = record {
    rule_id = rule.rule_id;
    error = text;
    source_entity = source.canonical_id;
  }

  -- The entry tells of an evaluation that raised.
  abbrev pub Raised : List (Rule V) → S → ErrorEntry → Type 0
  Raised rules s entry =
      (rule : Rule V) × (source : Entity X) × (m : MatchResult C) × (t : S) × Evaluated rules s rule
        source m t
      × ((evaluate_rule setup registry rule source m t).0 ≡ raises entry.error)
      × (entry ≡ entry_of rule source entry.error)

  -- The result that an error entry belongs to.
  abbrev pub RecordedAs : ErrorEntry → RuleResult C D → Type 0
  RecordedAs entry r =
      (r.rule_id ≡ entry.rule_id)
      × (r.source_entity_id ≡ entry.source_entity)
      × (r.status ≡ status_error)
      × (r.details ≡ evaluation_error entry.error)

  abbrev pub Recorded : Run setup registry → Type 0
  Recorded run =
      (entry : ErrorEntry) → In entry run.1 → (r : RuleResult C D) × In r run.0 × RecordedAs entry r

  record_outcome-Recorded :
      (rule : Rule V) (source : Entity X) (m : MatchResult C) (o : Outcome (RuleResult C D))
      (run : Run setup registry)
      → Recorded run
      → Recorded (record_outcome setup registry rule source m o run)
  record_outcome-Recorded rule source m (returned r) run h entry i =
      let (q, j, k) = h entry i in (q, inr j, k)
  record_outcome-Recorded rule source m (raises text) run h entry (inl e) = (
    _,
    inl refl,
    (
      ap (λ z. z.rule_id) (sym e),
      ap (λ z. z.source_entity) (sym e),
      refl,
      ap (λ z. evaluation_error z.error) (sym e),
    ),
  )
  record_outcome-Recorded rule source m (raises text) run h entry (inr i) =
      let (q, j, k) = h entry i in (q, inr j, k)

  Recorded-rules :
      (rules : List (Rule V)) (s : S) → Recorded (evaluate_rules setup registry rules s)
  unfolding evaluate_rules
  Recorded-rules [] s = λ entry i. absurd i
  Recorded-rules (rule ∷ rules) s = elim (Option-cases (subject setup registry rule)) [
    | inl h ↦
        subst Recorded (sym (evaluate_rules_skip setup registry rule rules s h))
          (Recorded-rules rules s)
    | inr (p, h) ↦
        let step = evaluate_rule setup registry rule p.0 p.1 s in
        subst Recorded (sym (evaluate_rules_next setup registry rule rules s p.0 p.1 h))
          (record_outcome-Recorded rule p.0 p.1 step.0 _ (Recorded-rules rules step.1))
  ]

  -- The errors of one more evaluation.
  In-record_outcome :
      (rule : Rule V) (source : Entity X) (m : MatchResult C) (o : Outcome (RuleResult C D))
      (run : Run setup registry) (entry : ErrorEntry)
      → In entry (record_outcome setup registry rule source m o run).1
        ↔ (((o ≡ raises entry.error) × (entry ≡ entry_of rule source entry.error)) ⊎ In entry run.1)
  In-record_outcome rule source m (returned r) run entry =
      (inr, λ h. elim h [ inl k ↦ absurd (cc k.0) | inr i ↦ i ])
  In-record_outcome rule source m (raises text) run entry = (
    λ h. elim h [
      | inl e ↦
          let same = ap (λ z. z.error) (sym e) in
          inl (ap (λ z. raises z) same, e ∙ ap (entry_of rule source) same)
      | inr i ↦ inr i
    ],
    λ h. elim h [
      | inl k ↦ let same : entry.error ≡ text = cc k.0 in inl (k.1 ∙ ap (entry_of rule source) same)
      | inr i ↦ inr i
    ],
  )

  reports :
      (rules : List (Rule V)) (s : S) (rule : Rule V) (source : Entity X) (m : MatchResult C)
      (t : S) (entry : ErrorEntry)
      → Evaluated rules s rule source m t
      → (evaluate_rule setup registry rule source m t).0 ≡ raises entry.error
      → entry ≡ entry_of rule source entry.error
      → In entry (evaluate_rules setup registry rules s).1
  reports [] s rule source m t entry e h q = elim e [ ]
  reports (first ∷ rules) s rule source m t entry (at_once due) h q =
      subst (λ run. In entry run.1)
        (sym (
          evaluate_rules_next setup registry rule rules s source m
            ((subject_iff setup registry rule (source, m)).1 due)))
        ((In-record_outcome rule source m _ _ entry).1 (inl (h, q)))
  reports (first ∷ rules) s rule source m t entry (after_rule {d = d} {n = n} due later) h q =
      subst (λ run. In entry run.1)
        (sym (
          evaluate_rules_next setup registry first rules s d n
            ((subject_iff setup registry first (d, n)).1 due)))
        ((In-record_outcome first d n _ _ entry).1
          (inr (reports rules _ rule source m t entry later h q)))
  reports (first ∷ rules) s rule source m t entry (past_rule n later) h q =
      subst (λ run. In entry run.1)
        (sym (evaluate_rules_skip setup registry first rules s (not_due setup registry first n)))
        (reports rules s rule source m t entry later h q)

  raised :
      (rules : List (Rule V)) (s : S) (entry : ErrorEntry)
      → In entry (evaluate_rules setup registry rules s).1
      → Raised rules s entry
  unfolding evaluate_rules
  raised [] s entry i = absurd i
  raised (rule ∷ rules) s entry i = elim (Option-cases (subject setup registry rule)) [
    | inl h ↦
        let (r, e, m, t, later, x, q) =
          raised rules s entry
            (subst (λ run. In entry run.1) (evaluate_rules_skip setup registry rule rules s h) i) in
        (r, e, m, t, past_rule (subject-none setup registry rule h) later, x, q)
    | inr (p, h) ↦
        let due = (subject_iff setup registry rule p).0 h in
        let step = evaluate_rule setup registry rule p.0 p.1 s in
        elim ((In-record_outcome rule p.0 p.1 step.0 (evaluate_rules setup registry rules step.1)
            entry).0
          (subst (λ run. In entry run.1) (evaluate_rules_next setup registry rule rules s p.0 p.1 h)
            i)) [
              | inl k ↦ (rule, p.0, p.1, s, at_once due, k.0, k.1)
              | inr j ↦
                  let (r, e, m, t, later, x, q) = raised rules step.1 entry j in
                  (r, e, m, t, after_rule due later, x, q)
            ]
  ]

  -- The loop reports an error exactly for each evaluation that raises, whatever was raised before it,
  -- with the rule, its source and the text; and every error is also a result: one with the same
  -- rule, source and text, and with the status ERROR.
  pub evaluate_rules_errors :
      (rules : List (Rule V)) (s : S)
      → ((entry : ErrorEntry)
          → In entry (evaluate_rules setup registry rules s).1 ↔ Raised rules s entry)
        × Recorded (evaluate_rules setup registry rules s)
  evaluate_rules_errors rules s = (
    λ entry. (raised rules s entry, λ w. reports rules s w.0 w.1 w.2 w.3 entry w.4 w.5 w.6),
    Recorded-rules rules s,
  )

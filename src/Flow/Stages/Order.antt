-- ===== src/Flow/Stages/Order.antt =====
-- execution/evaluators/runtime_flow.py, `_stage_order`: calls in an order, with others in between.
use python_arch_testing.Base.{
  Bool-cases, List, Option-cases, Text, [], ap, beq_false, eq_text, inl, inr, map, none, refl, some,
  subst, sym, text_eq_iff, ◌++◌, ◌==◌, ◌↔◌, ◌∙◌, ◌∷◌, ◌≡◌, ◌⊎◌,
}
use python_arch_testing.Flow.Stages.{
  stage_order, after_call, Ran, failed, ran, run_names, run_stages,
}

-- The calls are made in this order, with any others in between.
pub data InOrder : List Text → List Text → Type 0 where
  end : {ys : List Text} → InOrder [] ys
  call : {x : Text} {xs ys : List Text} → InOrder xs ys → InOrder (x ∷ xs) (x ∷ ys)
  other : {xs ys : List Text} (y : Text) → InOrder xs ys → InOrder xs (y ∷ ys)

InOrder-tail : {x : Text} {xs ys : List Text} → InOrder (x ∷ xs) ys → InOrder xs ys
InOrder-tail (call {x = x} o) = other x o
InOrder-tail (other y o) = other y (InOrder-tail o)

of_empty : {xs ys : List Text} → InOrder xs ys → ys ≡ [] → xs ≡ []
of_empty end p = refl
of_empty (call o) p = absurd (cc p)
of_empty (other y o) p = absurd (cc p)

-- It is best to take the first call that fits.
InOrder-first :
    {x c : Text} {xs called : List Text}
    → InOrder (x ∷ xs) (c ∷ called)
    → ((c ≡ x) × InOrder xs called) ⊎ InOrder (x ∷ xs) called
InOrder-first (call o) = inl (refl, o)
InOrder-first (other y o) = inr o

greedy :
    (n : Text) (ns called : List Text)
    → InOrder (n ∷ ns) called
      ↔ ((rest : List Text) × (after_call n called ≡ some rest) × InOrder ns rest)
unfolding after_call
greedy n ns [] = (λ o. absurd (cc (of_empty o refl)), λ w. cc w.1)
greedy n ns (c ∷ called) = elim (Bool-cases (c == n)) [
  | inl h ↦ rw h (
    λ o. (called, refl, elim (InOrder-first o) [ inl q ↦ q.1 | inr q ↦ InOrder-tail q ]),
    λ w.
        subst (λ z. InOrder (n ∷ ns) (z ∷ called)) (sym ((text_eq_iff c n).0 h))
          (call (subst (InOrder ns) (sym (some_inj called w.0 w.1)) w.2)),
  )
  | inr h ↦ rw h (
    λ o. elim (InOrder-first o) [
      | inl q ↦ absurd (beq_false c n h q.0)
      | inr q ↦ (greedy n ns called).0 q
    ],
    λ w. other c ((greedy n ns called).1 w),
  )
]
  where
    some_inj : (a b : List Text) → some a ≡ some b → a ≡ b
    some_inj a b p = cc p

Ran-cases : (r : Ran) → ((name : Text) × (r ≡ failed name)) ⊎ ((rest : List Text) × (r ≡ ran rest))
Ran-cases (failed name) = inl (name, refl)
Ran-cases (ran rest) = inr (rest, refl)

run_names-cons :
    (n : Text) (ns called rest : List Text)
    → after_call n called ≡ some rest
    → run_names (n ∷ ns) called ≡ run_names ns rest
unfolding run_names
run_names-cons n ns called rest h = rw (h, run_names) refl

run_names-none :
    (n : Text) (ns called : List Text)
    → after_call n called ≡ none
    → run_names (n ∷ ns) called ≡ failed n
unfolding run_names
run_names-none n ns called h = rw (h, run_names) refl

run_names_nil : (called : List Text) → run_names [] called ≡ ran called
unfolding run_names
run_names_nil called = refl

ran_inj : (a b : List Text) → ran a ≡ ran b → a ≡ b
ran_inj a b p = cc p

not_ran : (n : Text) (a : List Text) → ¬ (failed n ≡ ran a)
not_ran n a p = cc p

run_names_iff :
    (ns ms called : List Text)
    → InOrder (ns ++ ms) called
      ↔ ((rest : List Text) × (run_names ns called ≡ ran rest) × InOrder ms rest)
run_names_iff [] ms called = (
  λ o. (called, run_names_nil called, o),
  λ w. subst (InOrder ms) (sym (ran_inj called w.0 (sym (run_names_nil called) ∙ w.1))) w.2,
)
run_names_iff (n ∷ ns) ms called = (
  λ o.
      let (rest, h, p) = (greedy n (ns ++ ms) called).0 o in
      let (last, e, q) = (run_names_iff ns ms rest).0 p in
      (last, run_names-cons n ns called rest h ∙ e, q),
  λ w. elim (Option-cases (after_call n called)) [
    | inl h ↦ absurd (not_ran n w.0 (sym (run_names-none n ns called h) ∙ w.1))
    | inr (rest, h) ↦ (greedy n (ns ++ ms) called).1 (
      rest,
      h,
      (run_names_iff ns ms rest).1 (w.0, sym (run_names-cons n ns called rest h) ∙ w.1, w.2),
    )
  ],
)

module _ {C : Type 0} (translate : C → Text) where
  -- What the target has to call, stage after stage.
  abbrev pub expected : List (Text × List C) → List Text
  expected [] = []
  expected (stage ∷ stages) = map translate stage.1 ++ expected stages

  after_stage :
      (stage : Text) (c : C) (calls : List C) (stages : List (Text × List C))
      (called rest reached : List Text)
      → run_names (map translate (c ∷ calls)) called ≡ ran rest
      → run_stages translate ((stage, c ∷ calls) ∷ stages) called reached
        ≡ run_stages translate stages rest (reached ++ stage ∷ [])
  unfolding run_stages
  after_stage stage c calls stages called rest reached h = rw (h, run_stages) refl

  at_failure :
      (stage : Text) (c : C) (calls : List C) (stages : List (Text × List C))
      (called reached : List Text) (name : Text)
      → run_names (map translate (c ∷ calls)) called ≡ failed name
      → (run_stages translate ((stage, c ∷ calls) ∷ stages) called reached).failure
        ≡ some (stage, name)
  unfolding run_stages
  at_failure stage c calls stages called reached name h = rw (h, run_stages) refl

  run_stages_iff :
      (stages : List (Text × List C)) (called reached : List Text)
      → ((run_stages translate stages called reached).failure ≡ none)
        ↔ InOrder (expected stages) called
  unfolding run_stages
  run_stages_iff [] called reached = (λ _. end, λ _. refl)
  run_stages_iff ((stage, []) ∷ stages) called reached = run_stages_iff stages called reached
  run_stages_iff ((stage, c ∷ calls) ∷ stages) called reached =
      elim (Ran-cases (run_names (map translate (c ∷ calls)) called)) [
        | inl (name, h) ↦ (
          λ e. absurd (cc (sym (at_failure stage c calls stages called reached name h) ∙ e)),
          λ o.
              let (rest, r, _) =
                (run_names_iff (map translate (c ∷ calls)) (expected stages) called).0 o in
              absurd (not_ran name rest (sym h ∙ r)),
        )
        | inr (rest, h) ↦
            let ih = run_stages_iff stages rest (reached ++ stage ∷ []) in
            let step =
              ap (λ z. z.failure) (after_stage stage c calls stages called rest reached h) in
            (
              λ e.
                  (run_names_iff (map translate (c ∷ calls)) (expected stages) called).1
                    (rest, h, ih.0 (sym step ∙ e)),
              λ o.
                  let (last, r, p) =
                    (run_names_iff (map translate (c ∷ calls)) (expected stages) called).0 o in
                  step ∙ ih.1 (subst (InOrder (expected stages)) (ran_inj last rest (sym r ∙ h)) p),
            )
      ]

  -- The stages fail nowhere just when the target makes the calls of all stages, one stage after
  -- the other and in their order, with any other calls in between.
  pub stage_order_iff :
      (stages : List (Text × List C)) (called : List Text)
      → ((stage_order translate stages called).failure ≡ none) ↔ InOrder (expected stages) called
  unfolding stage_order
  stage_order_iff stages called = run_stages_iff stages called []

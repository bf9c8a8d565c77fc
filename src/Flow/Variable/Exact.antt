-- ===== src/Flow/Variable/Exact.antt =====
-- execution/evaluators/variable_flow.py: the verdict on a function.
use python_arch_testing.Base.{
  Bool-cases, Dict, In, In-append, List, Option-cases, Text, [], ap, ap₂, contains, drop, eq_nat,
  eq_pair, eq_text, inl, inr, lookup, none, refl, some, subst, suc, sym, zero, ℕ, ◌++◌, ◌↔◌, ◌∙◌,
  ◌∷◌, ◌≡◌,
}
use python_arch_testing.Flow.Variable.{
  CfgNode, Found, FunctionCfg, search_queue, ExitRecord, Queue, Scan, flow_ok, go_on, leave_node,
  misordered, missing_failure, passed, scan_markers, verdict_of, verdict_of_search, Failure,
  FlowVerdict, evaluate_flow, flow_failed, fuel_of, missing_cfg, verdict_from,
}
use python_arch_testing.Flow.Variable.Search.{
  Reaches, Closed, LeftWell, follow, search_explores, start, ScanOf, advance, missing_step,
  scan_markers-advance, skip_step, visit_step,
}
use python_arch_testing.Flow.Variable.Fuel.{Connected, leave_node-Pushes, fuel_enough}

one_node : (a b : CfgNode) → some a ≡ some b → a ≡ b
one_node a b h = cc h

one_number : (a b : ℕ) → some a ≡ some b → a ≡ b
one_number a b h = cc h

no_number : (a : ℕ) → ¬ (none ≡ some a)
no_number a h = absurd (cc h)

one_found : (a b : Found) → some a ≡ some b → a ≡ b
one_found a b h = cc h

no_found : (a : Found) → ¬ (none ≡ some a)
no_found a h = absurd (cc h)

module _ (required : List Text) (nodes : Dict ℕ CfgNode) (entry : ℕ) where
  -- Every node on a path from the entry is left well.
  abbrev pub PathsWell : Type 0
  PathsWell =
      (id progress : ℕ) (node : CfgNode)
      → Reaches required nodes entry id progress
      → lookup id nodes ≡ some node
      → LeftWell required node progress

  in_final :
      (final : List (ℕ × ℕ))
      → In (entry, 0) final
      → ((st : ℕ × ℕ) → In st final → Closed required nodes final st)
      → (id progress : ℕ) → Reaches required nodes entry id progress
      → In (id, progress) final
  in_final final i closed id progress start = i
  in_final final i closed s after (follow id progress _ node _ r l a j) =
      let (m, b, n, c, d, next) = closed (id, progress) (in_final final i closed id progress r) in
      let same = one_node m node (sym n ∙ l) in
      let b_after =
        one_number b after (sym c ∙ ap (λ z. advance required z.flow_markers progress) same ∙ a) in
      subst (λ z. In (s, z) final) b_after (next s (subst (λ z. In s z.successors) (sym same) j))

  sound :
      (fuel : ℕ) (found end : Found)
      → search_queue required nodes fuel (((entry, 0), []) ∷ []) [] found ≡ some end
      → end.failures ≡ []
      → PathsWell
  sound fuel found end h clean =
      let (f, (final, sub, q, closed)) =
        search_explores required nodes fuel (((entry, 0), []) ∷ []) [] found end h clean in
      λ id progress node r l.
        let i =
          in_final final (q (entry, 0) [] (inl refl))
            (λ st i. elim (closed st i) [ inl n ↦ absurd n | inr c ↦ c ]) id progress r in
        elim (closed (id, progress) i) [
          | inl n ↦ absurd n
          | inr (m, b, n, c, d, next) ↦
              let same = one_node m node (sym n ∙ l) in
              (
                b,
                ap (λ z. advance required z.flow_markers progress) (sym same) ∙ c,
                λ e. d (ap (λ z. z.successors) same ∙ e),
              )
        ]

  leave_clean :
      (node : CfgNode) (progress : ℕ) (found : Found) (x : Scan)
      → ScanOf x (advance required node.flow_markers progress)
      → LeftWell required node progress
      → found.failures ≡ []
      → (leave_node required node x found).0.failures ≡ []
  leave_clean node progress found (misordered p now) a (after, b, d) f =
      absurd (no_number after (sym a ∙ b))
  leave_clean node progress found (passed p now) a (after, b, d) f =
      clean_on node.successors
        (λ e. nothing node p now (ap (λ z. drop z required) (one_number p after (sym a ∙ b)) ∙ d e))
    where
      nothing :
          (node : CfgNode) (p : ℕ) (now : List Text)
          → drop p required ≡ []
          → missing_failure node now (drop p required) ≡ []
      nothing node p now e = ap (missing_failure node now) e

      clean_on :
          (next : List ℕ)
          → (next ≡ [] → missing_failure node now (drop p required) ≡ [])
          → (go_on required node p now next found).0.failures ≡ []
      clean_on [] k = ap₂ (λ a b. a ++ b) f (k refl)
      clean_on (s ∷ next) k = f

  complete :
      PathsWell
      → (fuel : ℕ) (queue : Queue) (seen : List (ℕ × ℕ)) (found end : Found)
      → ((st : ℕ × ℕ) (o : List Text) → In (st, o) queue → Reaches required nodes entry st.0 st.1)
      → found.failures ≡ []
      → search_queue required nodes fuel queue seen found ≡ some end
      → end.failures ≡ []
  unfolding search_queue
  complete well fuel [] seen found end reach f h =
      subst (λ z. z.failures ≡ []) (one_found found end h) f
  complete well zero (item ∷ queue) seen found end reach f h = absurd (cc h)
  complete well (suc fuel) ((state, observed) ∷ queue) seen found end reach f h =
      elim (Bool-cases (contains seen state)) [
        | inl c ↦
            complete well fuel queue seen found end (λ st o i. reach st o (inr i)) f
              (sym (skip_step required nodes fuel state observed queue seen found c) ∙ h)
        | inr c ↦ elim (Option-cases (lookup state.0 nodes)) [
          | inl n ↦ absurd (
              no_found end
                (sym (missing_step required nodes fuel state observed queue seen found c n) ∙ h))
          | inr (node, n) ↦
              let r = reach state observed (inl refl) in
              let a = scan_markers-advance required node.flow_markers state.1 observed in
              let x = scan_markers required node.flow_markers state.1 observed in
              complete well fuel (queue ++ (leave_node required node x found).1) (state ∷ seen)
                (leave_node required node x found).0 end
                (λ st o i. elim ((In-append (st, o) queue _).0 i) [
                  | inl j ↦ reach st o (inr j)
                  | inr j ↦
                      let (k, b) =
                        (leave_node-Pushes required nodes node state.1 found x a).1 st o j in
                      follow state.0 state.1 st.1 node st.0 r n b k
                ])
                (leave_clean node state.1 found x a (well state.0 state.1 node r n) f)
                (sym (visit_step required nodes fuel state observed queue seen found node c n) ∙ h)
        ]
      ]

abbrev nothing_found : Found
nothing_found = record { failures = []; exit_sequences = [] }

abbrev pub IsOk : FlowVerdict → Type 0
IsOk (flow_failed reason failures exits) = ⊥
IsOk (flow_ok exits) = Unit

verdict_from-IsOk :
    (failures : List Failure) (exits : List ExitRecord)
    → IsOk (verdict_from failures exits) ↔ (failures ≡ [])
verdict_from-IsOk [] exits = (λ h. refl, λ h. tt)
verdict_from-IsOk (first ∷ others) exits = (λ h. absurd h, λ h. absurd (cc h))

search_verdict :
    (required : List Text) (nodes : Dict ℕ CfgNode) (entry : ℕ) (node : CfgNode)
    → Connected required nodes
    → lookup entry nodes ≡ some node
    → (v : FlowVerdict) × (verdict_of_search (
          search_queue required nodes
            (fuel_of required nodes)
            (((entry, 0), []) ∷ [])
            []
            nothing_found)
        ≡ some v)
      × (IsOk v ↔ PathsWell required nodes entry)
search_verdict required nodes entry node known e =
    let (end, h) = fuel_enough required nodes known entry node e nothing_found in
    (
      verdict_of end,
      ap verdict_of_search h,
      (
        λ ok. sound required nodes entry _ nothing_found end h ((verdict_from-IsOk _ _).0 ok),
        λ well. (verdict_from-IsOk end.failures end.exit_sequences).1 (
            complete required nodes entry well _ _ [] nothing_found end
              (λ st o i. elim i [
                | inl q ↦ subst (λ z. Reaches required nodes entry z.0.0 z.0.1) (sym q) start
                | inr n ↦ absurd n
              ])
              refl h),
      ),
    )

-- The check of a function ends, and passes exactly when on every path from the entry no required stage
-- comes before those ahead of it, and at every node without successors all required stages have
-- come, in their order; the entry and all successors are assumed to be nodes of the graph.
pub evaluate_flow_exact :
    (required : List Text) (cfg : FunctionCfg) (entry : ℕ) (node : CfgNode)
    → cfg.entry_node_id ≡ some entry
    → lookup entry cfg.nodes ≡ some node
    → Connected required cfg.nodes
    → (v : FlowVerdict) × (evaluate_flow required cfg ≡ some v)
      × (IsOk v ↔ PathsWell required cfg.nodes entry)
unfolding evaluate_flow
evaluate_flow_exact required cfg entry node e l known =
    let (v, h, ok) = search_verdict required cfg.nodes entry node known l in (v, at_entry e ∙ h, ok)
  where
    at_entry :
        cfg.entry_node_id ≡ some entry
        → evaluate_flow required cfg
          ≡ verdict_of_search (
              search_queue required cfg.nodes
                (fuel_of required cfg.nodes)
                (((entry, 0), []) ∷ [])
                []
                nothing_found)
    at_entry e =
        ap
          (λ o. elim o [
            | none ↦ some (flow_failed missing_cfg [] [])
            | some entry ↦ verdict_of_search (
                search_queue required cfg.nodes (fuel_of required cfg.nodes) (((entry, 0), []) ∷ [])
                  [] (record { failures = []; exit_sequences = [] }))
          ])
          e

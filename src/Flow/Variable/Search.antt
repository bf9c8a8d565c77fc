-- ===== src/Flow/Variable/Search.antt =====
-- execution/evaluators/variable_flow.py: what the search over states finds.
use python_arch_testing.Base.{
  Bool, Bool-cases, Dict, In, In-append, In-map_of, List, Option, Option-cases, Subset, Text, [],
  ap, append-nil, contains, contains_iff, drop, eq_nat, eq_pair, eq_text, false, if◌then◌else◌, inl,
  inr, lookup, none, refl, some, subst, suc, sym, true, zero, ℕ, ◌++◌, ◌∙◌, ◌∷◌, ◌≡◌, ◌⊎◌,
}
use python_arch_testing.Flow.Variable.{
  CfgNode, Found, FlowMarker, Queue, Scan, is_next, misordered, passed, scan_markers, Failure,
  go_on, leave_node, missing_failure, search_queue,
}

-- The progress after the markers of a node, or nothing where a required stage comes too early.
unfoldable pub advance : List Text → List FlowMarker → ℕ → Option ℕ
advance required [] progress = some progress
advance required (marker ∷ markers) progress =
    let next = advance required markers (suc progress) in
    let same = advance required markers progress in
    if is_next required progress marker.stage
    then next
    else if contains (drop (suc progress) required) marker.stage
    then none
    else same

-- A scan agrees with the progress.
abbrev pub ScanOf : Scan → Option ℕ → Type 0
ScanOf (passed p observed) o = o ≡ some p
ScanOf (misordered p observed) o = o ≡ none

on_tests :
    (b c : Bool) (x y : Scan) (p : ℕ) (observed : List Text) (u v : Option ℕ)
    → ScanOf x u
    → ScanOf y v
    → ScanOf
        (if b then x else if c then misordered p observed else y)
        (if b then u else if c then none else v)
on_tests true c x y p observed u v h k = h
on_tests false true x y p observed u v h k = refl
on_tests false false x y p observed u v h k = k

pub scan_markers-advance :
    (required : List Text) (markers : List FlowMarker) (progress : ℕ) (observed : List Text)
    → ScanOf (scan_markers required markers progress observed) (advance required markers progress)
unfolding scan_markers advance
scan_markers-advance required [] progress observed = refl
scan_markers-advance required (marker ∷ markers) progress observed =
    on_tests (is_next required progress marker.stage)
      (contains (drop (suc progress) required) marker.stage) _ _ _ _ _ _
      (scan_markers-advance required markers (suc progress) _)
      (scan_markers-advance required markers progress _)

module _ (required : List Text) (nodes : Dict ℕ CfgNode) (entry : ℕ) where
  -- The states of paths from the entry: a node, and the progress before its markers.
  pub data Reaches : ℕ → ℕ → Type 0 where
    start : Reaches entry 0
    follow :
        (id progress after : ℕ) (node : CfgNode) (s : ℕ)
        → Reaches id progress
        → lookup id nodes ≡ some node
        → advance required node.flow_markers progress ≡ some after
        → In s node.successors
        → Reaches s after

-- A node at a progress is left well: no stage too early, and nothing missing where the path ends.
abbrev pub LeftWell : List Text → CfgNode → ℕ → Type 0
LeftWell required node progress =
    (after : ℕ) × (advance required node.flow_markers progress ≡ some after)
    × (node.successors ≡ [] → drop after required ≡ [])

module _ (required : List Text) (nodes : Dict ℕ CfgNode) where
  -- A state of the search, left well, with its next states in a list.
  abbrev pub Closed : List (ℕ × ℕ) → ℕ × ℕ → Type 0
  Closed final state =
      (node : CfgNode) × (after : ℕ) × (lookup state.0 nodes ≡ some node)
      × (advance required node.flow_markers state.1 ≡ some after)
      × (node.successors ≡ [] → drop after required ≡ [])
      × ((s : ℕ) → In s node.successors → In (s, after) final)

  abbrev pub Explored : Queue → List (ℕ × ℕ) → Type 0
  Explored queue seen =
      (final : List (ℕ × ℕ)) × Subset seen final
      × ((state : ℕ × ℕ) (observed : List Text) → In (state, observed) queue → In state final)
      × ((state : ℕ × ℕ) → In state final → In state seen ⊎ Closed final state)

  pub append_some_nil : (xs ys : List Failure) (y : Failure) → ¬ (xs ++ y ∷ ys ≡ [])
  append_some_nil [] ys y h = absurd (cc h)
  append_some_nil (x ∷ xs) ys y h = absurd (cc h)

  nothing_missing :
      (xs : List Failure) (node : CfgNode) (now missing : List Text)
      → xs ++ missing_failure node now missing ≡ []
      → (xs ≡ []) × (missing ≡ [])
  nothing_missing xs node now [] h = (sym (append-nil xs) ∙ h, refl)
  nothing_missing xs node now (m ∷ missing) h = absurd (append_some_nil xs [] _ h)

  -- A pass that adds no failure leaves the node well and puts its next states on the queue.
  abbrev Leaves : CfgNode → ℕ → List Text → Found → Found × Queue → Type 0
  Leaves node progress observed found step =
      step.0.failures ≡ []
      → (found.failures ≡ [])
        × ((after : ℕ) × (advance required node.flow_markers progress ≡ some after)
            × (node.successors ≡ [] → drop after required ≡ [])
            × ((s : ℕ) → In s node.successors → (o : List Text) × In ((s, after), o) step.1))

  go_on-Leaves :
      (node : CfgNode) (progress after : ℕ) (observed now : List Text) (found : Found)
      (next : List ℕ)
      → next ≡ node.successors
      → advance required node.flow_markers progress ≡ some after
      → Leaves node progress observed found (go_on required node after now next found)
  go_on-Leaves node progress after observed now found [] e a h =
      let (f, m) = nothing_missing found.failures node now (drop after required) h in
      (f, (after, a, (λ n. m), λ t i. absurd (subst (In t) (sym e) i)))
  go_on-Leaves node progress after observed now found (s ∷ next) e a h = (
    h,
    (
      after,
      a,
      (λ n. absurd (cc (e, n))),
      λ t i. (now, In-map_of (λ s. ((s, after), now)) t (s ∷ next) (subst (In t) (sym e) i)),
    ),
  )

  pub leave_node-Leaves :
      (node : CfgNode) (progress : ℕ) (observed : List Text) (found : Found) (x : Scan)
      → ScanOf x (advance required node.flow_markers progress)
      → Leaves node progress observed found (leave_node required node x found)
  leave_node-Leaves node progress observed found (misordered p now) a h =
      absurd (append_some_nil found.failures [] _ h)
  leave_node-Leaves node progress observed found (passed p now) a h =
      go_on-Leaves node progress p observed now found node.successors refl a h

  module _ (fuel : ℕ) (state : ℕ × ℕ) (observed : List Text) (queue : Queue) (seen : List (ℕ × ℕ))
      (found : Found) where
    pub skip_step :
        contains seen state ≡ true
        → search_queue required nodes (suc fuel) ((state, observed) ∷ queue) seen found
          ≡ search_queue required nodes fuel queue seen found
    unfolding search_queue
    skip_step c = rw (c, search_queue) refl

    pub missing_step :
        contains seen state ≡ false
        → lookup state.0 nodes ≡ none
        → search_queue required nodes (suc fuel) ((state, observed) ∷ queue) seen found ≡ none
    unfolding search_queue
    missing_step c n = rw (c, n, search_queue) refl

    pub visit_step :
        (node : CfgNode)
        → contains seen state ≡ false
        → lookup state.0 nodes ≡ some node
        → search_queue required nodes (suc fuel) ((state, observed) ∷ queue) seen found
          ≡ search_queue required nodes fuel
              (queue
                ++ (leave_node required node
                    (scan_markers required node.flow_markers state.1 observed)
                    found).1)
              (state ∷ seen)
              (leave_node required node
                (scan_markers required node.flow_markers state.1 observed)
                found).0
    unfolding search_queue
    visit_step node c n = rw (c, n, search_queue) refl

  -- A search that ends without a failure started without one, and has explored what it saw.
  pub search_explores :
      (fuel : ℕ) (queue : Queue) (seen : List (ℕ × ℕ)) (found end : Found)
      → search_queue required nodes fuel queue seen found ≡ some end
      → end.failures ≡ []
      → (found.failures ≡ []) × Explored queue seen
  unfolding search_queue
  search_explores fuel [] seen found end h clean = (
    subst (λ z. z.failures ≡ []) (sym (the_end found end h)) clean,
    (seen, (λ a i. i), (λ st o i. absurd i), λ st i. inl i),
  )
    where
      the_end : (a b : Found) → some a ≡ some b → a ≡ b
      the_end a b h = cc h
  search_explores zero (item ∷ queue) seen found end h clean = absurd (cc h)
  search_explores (suc fuel) ((state, observed) ∷ queue) seen found end h clean =
      elim (Bool-cases (contains seen state)) [
        | inl c ↦
            let (f, (final, sub, q, closed)) =
              search_explores fuel queue seen found end
                (sym (skip_step fuel state observed queue seen found c) ∙ h) clean in
            (
              f,
              (
                final,
                sub,
                (λ st o i. elim i [
                  | inl e ↦
                      subst (λ z. In z final) (sym (ap (λ z. z.0) e))
                        (sub state ((contains_iff seen state).0 c))
                  | inr j ↦ q st o j
                ]),
                closed,
              ),
            )
        | inr c ↦ elim (Option-cases (lookup state.0 nodes)) [
          | inl n ↦
              absurd (no_end end (sym (missing_step fuel state observed queue seen found c n) ∙ h))
          | inr (node, n) ↦
              let step =
                leave_node required node (scan_markers required node.flow_markers state.1 observed)
                  found in
              let (f, (final, sub, q, closed)) =
                search_explores fuel (queue ++ step.1) (state ∷ seen) step.0 end
                  (sym (visit_step fuel state observed queue seen found node c n) ∙ h) clean in
              let (g, (after, a, d, next)) =
                leave_node-Leaves node state.1 observed found _
                  (scan_markers-advance required node.flow_markers state.1 observed) f in
              (
                g,
                (
                  final,
                  (λ st i. sub st (inr i)),
                  (λ st o i. elim i [
                    | inl e ↦ subst (λ z. In z final) (sym (ap (λ z. z.0) e)) (sub state (inl refl))
                    | inr j ↦ q st o ((In-append (st, o) queue step.1).1 (inl j))
                  ]),
                  (λ st i. elim (closed st i) [
                    | inl j ↦ elim j [
                      | inl e ↦ inr (
                          subst (Closed final) (sym e) (
                            node,
                            after,
                            n,
                            a,
                            d,
                            λ t k.
                                let (o, l) = next t k in
                                q (t, after) o ((In-append ((t, after), o) queue step.1).1 (inr l)),
                          ))
                      | inr k ↦ inl k
                    ]
                    | inr k ↦ inr k
                  ]),
                ),
              )
        ]
      ]
    where
      no_end : (b : Found) → ¬ (none ≡ some b)
      no_end b h = absurd (cc h)

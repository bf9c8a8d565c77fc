-- ===== src/Flow/Variable/Fuel.antt =====
-- execution/evaluators/variable_flow.py: the search over states ends within its fuel.
use python_arch_testing.Base.{
  Bool, Bool-cases, Dict, In, In-append, List, Option, Option-cases, Text, [], ap, arith, beq_refl,
  contains, eq_nat, eq_pair, eq_text, false, get_elem?, if-some, if◌then◌else◌, inl, inr, length,
  length-append, lookup, map, mem_map, nat_eq, nat_eq_iff, none, refl, some, subst, suc, sym, true,
  zero, ℕ, ◌*◌, ◌++◌, ◌+◌, ◌<◌, ◌==◌, ◌||◌, ◌∙◌, ◌∷◌, ◌≡◌, ◌≤◌, ◌⊎◌,
}
use native.Mathlib.Nat.{suc-mul}
use python_arch_testing.Flow.Variable.{
  CfgNode, Found, count_edges, FlowMarker, is_next, Queue, Scan, go_on, leave_node, misordered,
  passed, fuel_of, scan_markers, search_queue,
}
use python_arch_testing.Flow.Variable.Search.{
  advance, ScanOf, scan_markers-advance, skip_step, visit_step,
}

-- The edges of the nodes that are not left at a progress.
row : ℕ → List (ℕ × ℕ) → Dict ℕ CfgNode → ℕ
row p seen [] = 0
row p seen ((id, node) ∷ nodes) =
    (if contains seen (id, p) then 0 else length node.successors) + row p seen nodes

total : ℕ → List (ℕ × ℕ) → Dict ℕ CfgNode → ℕ
unfolding row
total zero seen nodes = 0
total (suc n) seen nodes = row n seen nodes + total n seen nodes

abbrev same_state : ℕ × ℕ → ℕ × ℕ → Bool
same_state a b = a == b

refl_state : (a : ℕ × ℕ) → same_state a a ≡ true
refl_state a = beq_refl a

if_le : (b c : Bool) (n : ℕ) → (if b || c then 0 else n) ≤ (if c then 0 else n)
if_le true true n = omega arith
if_le true false n = omega arith
if_le false true n = omega arith
if_le false false n = omega arith

if_zero : (b c : Bool) (n : ℕ) → b ≡ true → (if b || c then 0 else n) ≡ 0
if_zero true c n h = refl
if_zero false c n h = absurd (cc h)

if_full : (c : Bool) (n : ℕ) → c ≡ false → (if c then 0 else n) ≡ n
if_full true n h = absurd (cc h)
if_full false n h = refl

row_le :
    (p : ℕ) (st : ℕ × ℕ) (seen : List (ℕ × ℕ)) (nodes : Dict ℕ CfgNode)
    → row p (st ∷ seen) nodes ≤ row p seen nodes
unfolding row
row_le p st seen [] = omega arith
row_le p st seen ((id, node) ∷ nodes) = omega (
  arith,
  row_le p st seen nodes,
  if_le (same_state (id, p) st) (contains seen (id, p)) (length node.successors),
)

row_drop :
    (p id : ℕ) (seen : List (ℕ × ℕ)) (nodes : Dict ℕ CfgNode) (node : CfgNode)
    → contains seen (id, p) ≡ false
    → lookup id nodes ≡ some node
    → row p ((id, p) ∷ seen) nodes + length node.successors ≤ row p seen nodes
unfolding row lookup
row_drop p id seen [] node c h = absurd (cc h)
row_drop p id seen ((j, first) ∷ nodes) node c h = elim (if-some (j == id) first node _ h) [
  | inl (e, q) ↦
      let same : j ≡ id = (nat_eq_iff j id).0 e in
      omega (
        arith,
        row_le p (id, p) seen nodes,
        if_zero (same_state (j, p) (id, p)) (contains seen (j, p)) (length first.successors)
            (subst (λ i. same_state (i, p) (id, p) ≡ true) (sym same) (refl_state (id, p))),
        if_full (contains seen (j, p)) (length first.successors)
            (subst (λ i. contains seen (i, p) ≡ false) (sym same) c),
        ap (λ n. length n.successors) q,
      )
  | inr (e, q) ↦ omega (
    arith,
    if_le (same_state (j, p) (id, p)) (contains seen (j, p)) (length first.successors),
    row_drop p id seen nodes node c q,
  )
]

total_le :
    (n : ℕ) (st : ℕ × ℕ) (seen : List (ℕ × ℕ)) (nodes : Dict ℕ CfgNode)
    → total n (st ∷ seen) nodes ≤ total n seen nodes
unfolding total
total_le zero st seen nodes = omega arith
total_le (suc n) st seen nodes = omega (arith, row_le n st seen nodes, total_le n st seen nodes)

total_drop :
    (n p id : ℕ) (seen : List (ℕ × ℕ)) (nodes : Dict ℕ CfgNode) (node : CfgNode)
    → p < n
    → contains seen (id, p) ≡ false
    → lookup id nodes ≡ some node
    → total n ((id, p) ∷ seen) nodes + length node.successors ≤ total n seen nodes
unfolding total
total_drop zero p id seen nodes node l c h = let no : ⊥ = omega (arith, l) in absurd no
total_drop (suc n) p id seen nodes node l c h = elim (Bool-cases (nat_eq p n)) [
  | inl e ↦
      let same : p ≡ n = (nat_eq_iff p n).0 e in
      omega (
        arith,
        total_le n (id, p) seen nodes,
        subst (λ q. row q ((id, p) ∷ seen) nodes + length node.successors ≤ row q seen nodes) same
            (row_drop p id seen nodes node c h),
      )
  | inr e ↦ omega (
    arith,
    row_le n (id, p) seen nodes,
    total_drop n p id seen nodes node (ground (arith, e, l)) c h,
  )
]

row_empty : (p : ℕ) (nodes : Dict ℕ CfgNode) → row p [] nodes ≡ count_edges nodes
unfolding row count_edges
row_empty p [] = refl
row_empty p ((id, node) ∷ nodes) = omega (arith, row_empty p nodes)

total_empty : (n : ℕ) (nodes : Dict ℕ CfgNode) → total n [] nodes ≡ n * count_edges nodes
unfolding total
total_empty zero nodes = omega arith
total_empty (suc n) nodes =
    omega (arith, row_empty n nodes, total_empty n nodes, suc-mul n (count_edges nodes))

get_elem?-lt : (xs : List Text) (i : ℕ) (x : Text) → get_elem? xs i ≡ some x → i < length xs
get_elem?-lt [] i x h = absurd (cc h)
get_elem?-lt (y ∷ xs) zero x h = omega arith
get_elem?-lt (y ∷ xs) (suc i) x h = omega (arith, get_elem?-lt xs i x h)

is_next-lt :
    (required : List Text) (p : ℕ) (stage : Text)
    → is_next required p stage ≡ true
    → suc p ≤ length required
is_next-lt required p stage h = elim (Option-cases (get_elem? required p)) [
  | inl e ↦ absurd (cc (h, ap (λ o. elim o [ none ↦ false | some r ↦ stage == r ]) e))
  | inr (x, e) ↦ omega (arith, get_elem?-lt required p x e)
]

if_none-some : (b : Bool) (t : ℕ) (o : Option ℕ) → (if b then none else o) ≡ some t → o ≡ some t
if_none-some true t o h = absurd (cc h)
if_none-some false t o h = h

if-either :
    (b : Bool) (t : ℕ) (o p : Option ℕ)
    → (if b then o else p) ≡ some t
    → ((b ≡ true) × (o ≡ some t)) ⊎ (p ≡ some t)
if-either true t o p h = inl (refl, h)
if-either false t o p h = inr h

pub advance-le :
    (required : List Text) (markers : List FlowMarker) (p a : ℕ)
    → p ≤ length required
    → advance required markers p ≡ some a
    → a ≤ length required
unfolding advance
advance-le required [] p a l h = subst (λ z. z ≤ length required) (the_value p a h) l
  where
    the_value : (p a : ℕ) → some p ≡ some a → p ≡ a
    the_value p a h = cc h
advance-le required (marker ∷ markers) p a l h =
    elim (if-either (is_next required p marker.stage) a _ _ h) [
      | inl (e, k) ↦ advance-le required markers (suc p) a (is_next-lt required p marker.stage e) k
      | inr k ↦ advance-le required markers p a l (if_none-some _ a _ k)
    ]

module _ (required : List Text) (nodes : Dict ℕ CfgNode) where
  -- The successors of a known node are known.
  abbrev pub Connected : Type 0
  Connected =
      (id s : ℕ) (node : CfgNode)
      → lookup id nodes ≡ some node
      → In s node.successors
      → (next : CfgNode) × (lookup s nodes ≡ some next)

  -- A state on the queue: a known node, and a progress within the required stages.
  abbrev pub Fit : Queue → Type 0
  Fit queue =
      (st : ℕ × ℕ) (o : List Text)
      → In (st, o) queue
      → ((node : CfgNode) × (lookup st.0 nodes ≡ some node)) × (st.1 ≤ length required)

  -- What a pass puts on the queue.
  abbrev pub Pushes : CfgNode → ℕ → Queue → Type 0
  Pushes node p queue =
      (length queue ≤ length node.successors)
      × ((st : ℕ × ℕ) (o : List Text)
          → In (st, o) queue
          → In st.0 node.successors × (advance required node.flow_markers p ≡ some st.1))

  length-map : {A B : Type 0} (f : A → B) (xs : List A) → length (map f xs) ≡ length xs
  length-map f [] = refl
  length-map f (x ∷ xs) = ap suc (length-map f xs)

  go_on-Pushes :
      (node : CfgNode) (p after : ℕ) (now : List Text) (found : Found) (next : List ℕ)
      → next ≡ node.successors
      → advance required node.flow_markers p ≡ some after
      → Pushes node p (go_on required node after now next found).1
  go_on-Pushes node p after now found [] e a = (omega arith, λ st o i. absurd i)
  go_on-Pushes node p after now found (s ∷ next) e a = (
    omega (
      arith,
      length-map {B = (ℕ × ℕ) × List Text} (λ s. ((s, after), now)) (s ∷ next),
      ap length e,
    ),
    λ st o i.
        let (t, j, q) = mem_map (λ s. ((s, after), now)) (st, o) (s ∷ next) i in
        (
          subst (In st.0) e (subst (λ z. In z (s ∷ next)) (sym (ap (λ z. z.0.0) q)) j),
          a ∙ ap (λ z. some z) (sym (ap (λ z. z.0.1) q)),
        ),
  )

  pub leave_node-Pushes :
      (node : CfgNode) (p : ℕ) (found : Found) (x : Scan)
      → ScanOf x (advance required node.flow_markers p)
      → Pushes node p (leave_node required node x found).1
  leave_node-Pushes node p found (misordered q now) a = (omega arith, λ st o i. absurd i)
  leave_node-Pushes node p found (passed q now) a =
      go_on-Pushes node p q now found node.successors refl a

  -- With fuel for the states on the queue and for the edges of the states not left yet, the search
  -- ends.
  search_ends :
      Connected
      → (fuel : ℕ) (queue : Queue) (seen : List (ℕ × ℕ)) (found : Found) → Fit queue
      → length queue + total (suc (length required)) seen nodes ≤ fuel
      → (end : Found) × (search_queue required nodes fuel queue seen found ≡ some end)
  unfolding search_queue
  search_ends known fuel [] seen found fit l = (found, refl)
  search_ends known zero (item ∷ queue) seen found fit l =
      let no : ⊥ = omega (arith, l) in absurd no
  search_ends known (suc fuel) ((state, observed) ∷ queue) seen found fit l =
      elim (Bool-cases (contains seen state)) [
        | inl c ↦
            let (end, e) =
              search_ends known fuel queue seen found (λ st o i. fit st o (inr i))
                (omega (arith, l)) in
            (end, skip_step required nodes fuel state observed queue seen found c ∙ e)
        | inr c ↦
            let ((node, n), p) = fit state observed (inl refl) in
            let x = scan_markers required node.flow_markers state.1 observed in
            let (fewer, states) =
              leave_node-Pushes node state.1 found x
                (scan_markers-advance required node.flow_markers state.1 observed) in
            let (end, e) =
              search_ends known fuel (queue ++ (leave_node required node x found).1) (state ∷ seen)
                (leave_node required node x found).0
                (λ st o i. elim ((In-append (st, o) queue _).0 i) [
                  | inl j ↦ fit st o (inr j)
                  | inr j ↦
                      let (k, a) = states st o j in
                      (
                        known state.0 st.0 node n k,
                        advance-le required node.flow_markers state.1 st.1 p a,
                      )
                ])
                (omega (
                  arith,
                  l,
                  fewer,
                  length-append queue (leave_node required node x found).1,
                  total_drop (suc (length required)) state.1 state.0 seen nodes node
                      (omega (arith, p)) c n,
                )) in
            (end, visit_step required nodes fuel state observed queue seen found node c n ∙ e)
      ]

  pub fuel_enough :
      Connected
      → (entry : ℕ) (node : CfgNode) → lookup entry nodes ≡ some node
      → (found : Found)
      → (end : Found) × (search_queue required nodes
            (fuel_of required nodes)
            (((entry, 0), []) ∷ [])
            []
            found
          ≡ some end)
  unfolding fuel_of
  fuel_enough known entry node e found =
      search_ends known _ (((entry, 0), []) ∷ []) [] found
        (λ st o i. elim i [
          | inl q ↦ (
            (node, subst (λ z. lookup z nodes ≡ some node) (sym (ap (λ z. z.0.0) q)) e),
            subst (λ z. z ≤ length required) (sym (ap (λ z. z.0.1) q)) (omega arith),
          )
          | inr n ↦ absurd n
        ])
        (omega (arith, total_empty (suc (length required)) nodes))

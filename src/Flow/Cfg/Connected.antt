-- ===== src/Flow/Cfg/Connected.antt =====
-- execution/flow_cfg.py: the graph that is built for the body of a function.
use python_arch_testing.Base.{
  Bool, Dict, In-append, List, Option, [], arith, codes, eq_nat, eq_pair, eq_text, false,
  if◌then◌else◌, inl, inr, none, some, true, ℕ, ◌++◌, ◌<◌, ◌∷◌, ◌≡◌,
}
use python_arch_testing.Flow.Variable.{FlowMarker}
use python_arch_testing.Flow.Cfg.{
  Builder, Block, Blocks, Ends, Position, Stmt, build_block, build_blocks, build_stmt, end_block,
  final_exits, first_entry, if_no_entry, if_stmt, loop_exits, loop_stmt, match_stmt, more_blocks,
  next_exits, no_blocks, normal_exits, or_list, or_node, other_stmt, return_stmt, then_stmt,
  try_stmt, with_exits, with_stmt, is_end, link_back, link_entry, link_to, new_node,
}
use python_arch_testing.Flow.Cfg.Links.{
  IsLinked, Below, EndsBelow, Grown, EndsBelow-le, fresh_below, link_back-Grown, link_entry-Grown,
  link_to-Grown, new_node-Grown,
}

Below-node : (id n : ℕ) → id < n → Below (id ∷ []) n
Below-node id n l x i = elim i [ inl q ↦ omega (arith, q, l) | inr k ↦ absurd k ]

Below-append : (xs ys : List ℕ) (n : ℕ) → Below xs n → Below ys n → Below (xs ++ ys) n
Below-append xs ys n h k x i = elim ((In-append x xs ys).0 i) [ inl j ↦ h x j | inr j ↦ k x j ]

Below-or_node : (xs : List ℕ) (id n : ℕ) → id < n → Below xs n → Below (or_node xs id) n
Below-or_node [] id n l h = Below-node id n l
Below-or_node (x ∷ xs) id n l h = h

Below-no_entry : (o : Option ℕ) (id n : ℕ) → id < n → Below (if_no_entry o id) n
Below-no_entry none id n l = Below-node id n l
Below-no_entry (some e) id n l = λ x i. absurd i

Below-or_list : (xs ys : List ℕ) (n : ℕ) → Below xs n → Below ys n → Below (or_list xs ys) n
Below-or_list [] ys n h k = k
Below-or_list (x ∷ xs) ys n h k = h

Below-if : (b : Bool) (xs : List ℕ) (n : ℕ) → Below xs n → Below (if b then xs else []) n
Below-if true xs n h = h
Below-if false xs n h = λ x i. absurd i

Below-ends : (id n : ℕ) (ends : Ends) → id < n → Below ends.1 n → Below (loop_exits id ends) n
Below-ends id n (none, exits) l h = Below-node id n l
Below-ends id n (some e, exits) l h = h

Below-with : (id n : ℕ) (ends : Ends) → id < n → Below ends.1 n → Below (with_exits id ends) n
Below-with id n (none, exits) l h = Below-node id n l
Below-with id n (some e, exits) l h = h

Below-normal :
    (n : ℕ) (ends : Ends) (xs : List ℕ)
    → Below ends.1 n
    → Below xs n
    → Below (normal_exits ends xs) n
Below-normal n (none, exits) xs h k = k
Below-normal n (some e, exits) xs h k = h

Below-final :
    (id n : ℕ) (ends : Ends) (xs : List ℕ)
    → id < n
    → Below ends.1 n
    → Below xs n
    → Below (final_exits id ends xs) n
Below-final id n (none, exits) xs l h k = Below-or_node xs id n l k
Below-final id n (some e, exits) xs l h k = h

Below-next :
    (n : ℕ) (ends : Ends) (pending : List ℕ)
    → Below ends.1 n
    → Below pending n
    → Below (next_exits ends pending) n
Below-next n (none, exits) pending h k = k
Below-next n (some e, exits) pending h k = h

some_below : (id n : ℕ) → id < n → (e : ℕ) → some id ≡ some e → e < n
some_below id n l e q = omega (arith, l, number id e q)
  where
    number : (a b : ℕ) → some a ≡ some b → a ≡ b
    number a b h = cc h

first_below :
    (n : ℕ) (o p : Option ℕ)
    → ((e : ℕ) → o ≡ some e → e < n)
    → ((e : ℕ) → p ≡ some e → e < n)
    → (e : ℕ) → first_entry o p ≡ some e
    → e < n
first_below n none p h k = k
first_below n (some x) p h k = h

module _ (flow : Dict Position (List FlowMarker)) where
  -- What building a part leaves.
  abbrev pub Built : Builder → Ends × Builder → Type 0
  Built b r = Grown b r.1 × EndsBelow r.0 r.1.next_node_id

  mutual
    unfolding build_stmt

    stmt-Built : (stmt : Stmt) (b : Builder) → IsLinked b → Built b (build_stmt flow stmt b)
    stmt-Built (return_stmt at) b w =
        let (g, l) = new_node-Grown flow at (codes "Return") b w in
        (g, (some_below b.next_node_id _ l, Below-node b.next_node_id _ l))
    stmt-Built (if_stmt at body orelse) b w =
        let id = b.next_node_id in
        let (g, l) = new_node-Grown flow at (codes "If") b w in
        let b0 = new_node flow at (codes "If") b in
        let r1 = build_block flow body none [] b0 in
        let (g1, e1) = block-Built body none [] b0 g.0 (fresh_below b0.next_node_id) in
        let r2 = build_block flow orelse none [] r1.1 in
        let (g2, e2) = block-Built orelse none [] r1.1 g1.0 (fresh_below r1.1.next_node_id) in
        let h1 = link_entry-Grown id r1.0.0 r2.1 g2.0 (EndsBelow-le r1.0 _ _ g2.1 e1).0 in
        let b3 = link_entry id r1.0.0 r2.1 in
        let h2 = link_entry-Grown id r2.0.0 b3 h1.0 (EndsBelow-le r2.0 _ _ h1.1 e2).0 in
        let b4 = link_entry id r2.0.0 b3 in
        let n = b4.next_node_id in
        let low : id < n = omega (arith, l, g1.1, g2.1, h1.1, h2.1) in
        let body_low = (EndsBelow-le r1.0 _ n (omega (arith, g2.1, h1.1, h2.1)) e1).1 in
        let else_low = (EndsBelow-le r2.0 _ n (omega (arith, h1.1, h2.1)) e2).1 in
        (
          (h2.0, omega (arith, g.1, g1.1, g2.1, h1.1, h2.1)),
          (
            some_below id n low,
            Below-append _ _ n
                (Below-append _ _ n
                  (Below-or_list r1.0.1 _ n body_low (Below-no_entry r1.0.0 id n low))
                  (Below-or_list r2.0.1 _ n else_low (Below-no_entry r2.0.0 id n low)))
                (Below-if (is_end orelse) _ n (Below-no_entry r2.0.0 id n low)),
          ),
        )
    stmt-Built (loop_stmt at k body orelse) b w =
        let id = b.next_node_id in
        let (g, l) = new_node-Grown flow at k b w in
        let b0 = new_node flow at k b in
        let r1 = build_block flow body none [] b0 in
        let (g1, e1) = block-Built body none [] b0 g.0 (fresh_below b0.next_node_id) in
        let r2 = build_block flow orelse none [] r1.1 in
        let (g2, e2) = block-Built orelse none [] r1.1 g1.0 (fresh_below r1.1.next_node_id) in
        let h1 = link_entry-Grown id r1.0.0 r2.1 g2.0 (EndsBelow-le r1.0 _ _ g2.1 e1).0 in
        let b3 = link_entry id r1.0.0 r2.1 in
        let h2 = link_back-Grown r1.0 id b3 h1.0 (omega (arith, l, g1.1, g2.1, h1.1)) in
        let b4 = link_back r1.0 id b3 in
        let h3 =
          link_entry-Grown id r2.0.0 b4 h2.0
            (EndsBelow-le r2.0 _ _ (omega (arith, h1.1, h2.1)) e2).0 in
        let n = (link_entry id r2.0.0 b4).next_node_id in
        let low : id < n = omega (arith, l, g1.1, g2.1, h1.1, h2.1, h3.1) in
        (
          (h3.0, omega (arith, g.1, g1.1, g2.1, h1.1, h2.1, h3.1)),
          (
            some_below id n low,
            Below-ends id n r2.0 low (EndsBelow-le r2.0 _ n (omega (arith, h1.1, h2.1, h3.1)) e2).1,
          ),
        )
    stmt-Built (try_stmt at body handlers orelse final) b w =
        let id = b.next_node_id in
        let (g, l) = new_node-Grown flow at (codes "Try") b w in
        let b0 = new_node flow at (codes "Try") b in
        let r1 = build_block flow body none [] b0 in
        let (g1, e1) = block-Built body none [] b0 g.0 (fresh_below b0.next_node_id) in
        let h1 = link_entry-Grown id r1.0.0 r1.1 g1.0 e1.0 in
        let b2 = link_entry id r1.0.0 r1.1 in
        let r2 = build_blocks flow id handlers [] b2 in
        let (g2, e2) =
          blocks-Built id handlers [] b2 h1.0 (omega (arith, l, g1.1, h1.1)) (λ x i. absurd i) in
        let r3 = build_block flow orelse none [] r2.1 in
        let (g3, e3) = block-Built orelse none [] r2.1 g2.0 (fresh_below r2.1.next_node_id) in
        let h2 = link_to-Grown r1.0.1 r3.0.0 r3.1 g3.0 e3.0 in
        let b5 = link_to r1.0.1 r3.0.0 r3.1 in
        let combined = normal_exits r3.0 r1.0.1 ++ r2.0 in
        let r4 = build_block flow final none [] b5 in
        let (g4, e4) = block-Built final none [] b5 h2.0 (fresh_below b5.next_node_id) in
        let h3 = link_to-Grown combined r4.0.0 r4.1 g4.0 e4.0 in
        let n = (link_to combined r4.0.0 r4.1).next_node_id in
        let low : id < n = omega (arith, l, g1.1, h1.1, g2.1, g3.1, h2.1, g4.1, h3.1) in
        let body_low =
          (EndsBelow-le r1.0 _ n (omega (arith, h1.1, g2.1, g3.1, h2.1, g4.1, h3.1)) e1).1 in
        let handlers_low =
          (EndsBelow-le (none, r2.0) _ n (omega (arith, g3.1, h2.1, g4.1, h3.1))
            ((λ e q. absurd (cc q)), e2)).1 in
        let else_low = (EndsBelow-le r3.0 _ n (omega (arith, h2.1, g4.1, h3.1)) e3).1 in
        (
          (h3.0, omega (arith, g.1, g1.1, h1.1, g2.1, g3.1, h2.1, g4.1, h3.1)),
          (
            some_below id n low,
            Below-final id n r4.0 combined low (EndsBelow-le r4.0 _ n h3.1 e4).1
                (Below-append _ _ n (Below-normal n r3.0 r1.0.1 else_low body_low) handlers_low),
          ),
        )
    stmt-Built (match_stmt at cases) b w =
        let id = b.next_node_id in
        let (g, l) = new_node-Grown flow at (codes "Match") b w in
        let b0 = new_node flow at (codes "Match") b in
        let (g1, e1) = blocks-Built id cases [] b0 g.0 l (λ x i. absurd i) in
        let n = (build_blocks flow id cases [] b0).1.next_node_id in
        let low : id < n = omega (arith, l, g1.1) in
        (
          (g1.0, omega (arith, g.1, g1.1)),
          (some_below id n low, Below-or_node (build_blocks flow id cases [] b0).0 id n low e1),
        )
    stmt-Built (with_stmt at k body) b w =
        let id = b.next_node_id in
        let (g, l) = new_node-Grown flow at k b w in
        let b0 = new_node flow at k b in
        let r1 = build_block flow body none [] b0 in
        let (g1, e1) = block-Built body none [] b0 g.0 (fresh_below b0.next_node_id) in
        let h1 = link_entry-Grown id r1.0.0 r1.1 g1.0 e1.0 in
        let n = (link_entry id r1.0.0 r1.1).next_node_id in
        let low : id < n = omega (arith, l, g1.1, h1.1) in
        (
          (h1.0, omega (arith, g.1, g1.1, h1.1)),
          (some_below id n low, Below-with id n r1.0 low (EndsBelow-le r1.0 _ n h1.1 e1).1),
        )
    stmt-Built (other_stmt at k) b w =
        let (g, l) = new_node-Grown flow at k b w in
        (g, (some_below b.next_node_id _ l, Below-node b.next_node_id _ l))

    pub block-Built :
        (block : Block) (entry : Option ℕ) (pending : List ℕ) (b : Builder)
        → IsLinked b
        → EndsBelow (entry, pending) b.next_node_id
        → Built b (build_block flow block entry pending b)
    block-Built end_block entry pending b w h = ((w, omega arith), h)
    block-Built (then_stmt stmt block) entry pending b w h =
        let r1 = build_stmt flow stmt b in
        let (g1, e1) = stmt-Built stmt b w in
        let h1 = link_to-Grown pending r1.0.0 r1.1 g1.0 e1.0 in
        let b1 = link_to pending r1.0.0 r1.1 in
        let before =
          EndsBelow-le (entry, pending) _ b1.next_node_id (omega (arith, g1.1, h1.1)) h in
        let now = EndsBelow-le r1.0 _ b1.next_node_id h1.1 e1 in
        let (g2, e2) =
          block-Built block (first_entry entry r1.0.0) (next_exits r1.0 pending) b1 h1.0 (
            first_below b1.next_node_id entry r1.0.0 before.0 now.0,
            Below-next b1.next_node_id r1.0 pending now.1 before.1,
          ) in
        ((g2.0, omega (arith, g1.1, h1.1, g2.1)), e2)

    blocks-Built :
        (id : ℕ) (blocks : Blocks) (exits : List ℕ) (b : Builder)
        → IsLinked b
        → id < b.next_node_id
        → Below exits b.next_node_id
        → Grown b (build_blocks flow id blocks exits b).1
          × Below
              (build_blocks flow id blocks exits b).0
              (build_blocks flow id blocks exits b).1.next_node_id
    blocks-Built id no_blocks exits b w l h = ((w, omega arith), h)
    blocks-Built id (more_blocks block blocks) exits b w l h =
        let r1 = build_block flow block none [] b in
        let (g1, e1) = block-Built block none [] b w (fresh_below b.next_node_id) in
        let h1 = link_entry-Grown id r1.0.0 r1.1 g1.0 e1.0 in
        let b1 = link_entry id r1.0.0 r1.1 in
        let before =
          (EndsBelow-le (none, exits) _ b1.next_node_id (omega (arith, g1.1, h1.1))
            ((λ e q. absurd (cc q)), h)).1 in
        let now = (EndsBelow-le r1.0 _ b1.next_node_id h1.1 e1).1 in
        let (g2, e2) =
          blocks-Built id blocks (exits ++ r1.0.1) b1 h1.0 (omega (arith, l, g1.1, h1.1))
            (Below-append exits r1.0.1 b1.next_node_id before now) in
        ((g2.0, omega (arith, g1.1, h1.1, g2.1)), e2)

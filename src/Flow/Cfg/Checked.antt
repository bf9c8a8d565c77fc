-- ===== src/Flow/Cfg/Checked.antt =====
-- execution/flow_cfg.py and execution/evaluators/variable_flow.py: the check of a function's body.
use python_arch_testing.Base.{
  Dict, List, Option, Text, [], arith, eq_nat, eq_pair, eq_text, lookup, none, refl, some, subst,
  sym, ℕ, ◌↔◌, ◌≡◌,
}
use python_arch_testing.Flow.Variable.{CfgNode, FlowMarker, FlowVerdict, evaluate_flow}
use python_arch_testing.Flow.Variable.Fuel.{Connected}
use python_arch_testing.Flow.Variable.Exact.{PathsWell, IsOk, evaluate_flow_exact}
use python_arch_testing.Flow.Cfg.{
  Builder, Block, Position, Stmt, build_block, build_function_cfg, build_stmt, end_block, if_stmt,
  loop_stmt, match_stmt, other_stmt, return_stmt, then_stmt, try_stmt, with_stmt, first_entry,
}
use python_arch_testing.Flow.Cfg.Links.{IsLinked, fresh_below}
use python_arch_testing.Flow.Cfg.Connected.{block-Built}

abbrev empty : Builder
empty = record { nodes = []; next_node_id = 0 }

empty-IsLinked : IsLinked empty
unfolding lookup
empty-IsLinked =
    ((λ i l. let no : ⊥ = omega (arith, l) in absurd no), λ i node s h j. absurd (no_node node h))
  where
    no_node : (node : CfgNode) → ¬ (none ≡ some node)
    no_node node h = absurd (cc h)

module _ (flow : Dict Position (List FlowMarker)) where
  entry_kept :
      (block : Block) (e : ℕ) (pending : List ℕ) (b : Builder)
      → (build_block flow block (some e) pending b).0.0 ≡ some e
  unfolding build_stmt
  entry_kept end_block e pending b = refl
  entry_kept (then_stmt stmt block) e pending b = entry_kept block e _ _

  stmt_entry : (stmt : Stmt) (b : Builder) → (build_stmt flow stmt b).0.0 ≡ some b.next_node_id
  unfolding build_stmt
  stmt_entry (return_stmt at) b = refl
  stmt_entry (if_stmt at body orelse) b = refl
  stmt_entry (loop_stmt at k body orelse) b = refl
  stmt_entry (try_stmt at body handlers orelse final) b = refl
  stmt_entry (match_stmt at cases) b = refl
  stmt_entry (with_stmt at k body) b = refl
  stmt_entry (other_stmt at k) b = refl

  from_entry :
      (block : Block) (o : Option ℕ) (e : ℕ) (pending : List ℕ) (b : Builder)
      → o ≡ some e
      → (build_block flow block (first_entry none o) pending b).0.0 ≡ some e
  from_entry block o e pending b h =
      subst (λ o. (build_block flow block (first_entry none o) pending b).0.0 ≡ some e) (sym h)
        (entry_kept block e pending b)

  entry_at :
      (stmt : Stmt) (block : Block)
      → (build_function_cfg flow (then_stmt stmt block)).entry_node_id ≡ some 0
  unfolding build_function_cfg
  entry_at stmt block =
      from_entry block (build_stmt flow stmt empty).0.0 0 _ _ (stmt_entry stmt empty)

  -- The entry of the graph that is built for a body with a statement is its first node, and the entry
  -- and all successors are nodes of it.
  pub build_function_cfg-Connected :
      (required : List Text) (stmt : Stmt) (block : Block)
      → ((build_function_cfg flow (then_stmt stmt block)).entry_node_id ≡ some 0)
        × ((node : CfgNode) × (lookup 0 (build_function_cfg flow (then_stmt stmt block)).nodes
              ≡ some node))
        × Connected required (build_function_cfg flow (then_stmt stmt block)).nodes
  unfolding build_function_cfg
  build_function_cfg-Connected required stmt block =
      let (g, ends) =
        block-Built flow (then_stmt stmt block) none [] empty empty-IsLinked (fresh_below 0) in
      let entry = entry_at stmt block in
      (entry, g.0.0 0 (ends.0 0 entry), λ id s node h i. g.0.0 s (g.0.1 id node s h i))

  -- The check of a function with a statement ends, and passes exactly when on every path of the graph
  -- of its body no required stage comes before those ahead of it, and at every node without
  -- successors all required stages have come, in their order.
  pub flow_of_body_exact :
      (required : List Text) (stmt : Stmt) (block : Block)
      → (v : FlowVerdict) × (evaluate_flow required (build_function_cfg flow (then_stmt stmt block))
          ≡ some v)
        × (IsOk v ↔ PathsWell required (build_function_cfg flow (then_stmt stmt block)).nodes 0)
  flow_of_body_exact required stmt block =
      let (e, (node, l), known) = build_function_cfg-Connected required stmt block in
      evaluate_flow_exact required (build_function_cfg flow (then_stmt stmt block)) 0 node e l known

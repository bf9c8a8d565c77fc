-- ===== src/Tests/Flows.antt =====
-- The order of stages.
use python_arch_testing.Base.{
  Dict, List, Text, [], codes, eq_nat, eq_text, insert, lookup, none, refl, some, sort_by, text_eq,
  ℕ, ◌↔◌, ◌∷◌, ◌≡◌,
}
use python_arch_testing.Flow.Variable.{
  FlowMarker, FlowVerdict, evaluate_flow, flow_failed, flow_ok, missing_stages,
}
use python_arch_testing.Flow.Cfg.{
  Stmt, Block, Position, build_function_cfg, end_block, loop_stmt, other_stmt, then_stmt,
  add_successor, link_exits, new_node,
}
use python_arch_testing.Flow.Cfg.Checked.{flow_of_body_exact}
use python_arch_testing.Flow.Variable.Exact.{PathsWell, IsOk}
use python_arch_testing.Flow.Stages.{stage_order}
use python_arch_testing.Flow.Stages.Order.{InOrder, stage_order_iff, expected}

abbrev stages : List (Text × List Text)
stages =
    (codes "load", codes "read" ∷ []) ∷ (codes "note", []) ∷ (codes "save", codes "write" ∷ []) ∷ []

abbrev called : List Text
called = codes "read" ∷ codes "clean" ∷ codes "write" ∷ []

stage_order_iff_example :
    ((stage_order (λ name. name) stages called).failure ≡ none)
    ↔ InOrder (expected (λ name. name) stages) called
stage_order_iff_example = stage_order_iff (λ name. name) stages called

abbrev marker_at : ℕ → Text → FlowMarker
marker_at line name = record {
  stage = name;
  variable = codes "order";
  anchor_lineno = line;
  anchor_col = 4;
  anchor_kind = codes "Assign";
  statement_order = 0;
}

abbrev anchors : Dict Position (List FlowMarker)
anchors = ((2, 4), marker_at 2 (codes "load") ∷ []) ∷ ((4, 8), marker_at 4 (codes "save") ∷ []) ∷ []

abbrev load : Stmt
load = other_stmt (2, 4) (codes "Assign")

-- `for row in rows: save(row)`, and nothing after it.
abbrev loop : Block
loop =
    then_stmt
      (loop_stmt (3, 4) (codes "For") (then_stmt (other_stmt (4, 8) (codes "Expr")) end_block)
        end_block)
      end_block

abbrev both_stages : List Text
both_stages = codes "load" ∷ codes "save" ∷ []

flow_of_body_exact_example :
    (v : FlowVerdict) × (evaluate_flow both_stages
        (build_function_cfg anchors (then_stmt load loop))
      ≡ some v)
    × (IsOk v ↔ PathsWell both_stages (build_function_cfg anchors (then_stmt load loop)).nodes 0)
flow_of_body_exact_example = flow_of_body_exact anchors both_stages load loop

-- With a loop at the end no node of the graph is an exit, so the check passes even without any marker.
test_loop_at_end :
    evaluate_flow both_stages (build_function_cfg [] (then_stmt load loop)) ≡ some (flow_ok [])
unfolding evaluate_flow build_function_cfg link_exits new_node add_successor text_eq lookup insert
    sort_by
test_loop_at_end = refl

-- Without the loop, the same body fails.
test_no_loop :
    evaluate_flow both_stages (build_function_cfg [] (then_stmt load end_block))
    ≡ some (
        flow_failed missing_stages
          (record {
            reason = missing_stages;
            lineno = 2;
            observed_stages = [];
            missing_stages = both_stages;
          }
            ∷ [])
          (record {
            exit_lineno = 2;
            observed_stages = [];
            matched_count = 0;
            missing_stages = both_stages;
          }
            ∷ []))
unfolding evaluate_flow build_function_cfg link_exits new_node add_successor text_eq lookup insert
    sort_by
test_no_loop = refl

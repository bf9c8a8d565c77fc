-- ===== src/Flow/Cfg.antt =====
-- execution/flow_cfg.py, `_CfgBuilder`: the control flow graph of a function's body. A statement has
-- its line and column, and its class where the kind of the node is not fixed; the builder's state is
-- the record `Builder`, and its `flow_by_anchor` a parameter.
pub mod Links
pub mod Connected
pub mod Checked
use python_arch_testing.Base.{
  Bool, Dict, List, Option, Text, [], codes, eq_nat, eq_pair, eq_text, false, if◌then◌else◌, insert,
  leb, lex, lookup, none, some, sort_by, suc, true, ℕ, ◌++◌, ◌==◌, ◌∷◌,
}
use python_arch_testing.Flow.Variable.{CfgNode, FlowMarker, FunctionCfg}

abbrev pub Position : Type 0
Position = ℕ × ℕ

-- The handlers of a `try` and the cases of a `match` by their bodies.
mutual
  pub data Stmt : Type 0 where
    return_stmt : Position → Stmt
    if_stmt : Position → Block → Block → Stmt
    loop_stmt : Position → Text → Block → Block → Stmt
    try_stmt : Position → Block → Blocks → Block → Block → Stmt
    match_stmt : Position → Blocks → Stmt
    with_stmt : Position → Text → Block → Stmt
    other_stmt : Position → Text → Stmt

  pub data Block : Type 0 where
    end_block : Block
    then_stmt : Stmt → Block → Block

  pub data Blocks : Type 0 where
    no_blocks : Blocks
    more_blocks : Block → Blocks → Blocks

pub record Builder : Type 0 where
  pub nodes : Dict ℕ CfgNode
  pub next_node_id : ℕ

-- What a statement or a block returns: its entry and its exits.
abbrev pub Ends : Type 0
Ends = Option ℕ × List ℕ

pub marker_key : FlowMarker → ℕ × (ℕ × ℕ)
marker_key m = (m.statement_order, (m.anchor_lineno, m.anchor_col))

pub marker_le : FlowMarker → FlowMarker → Bool
unfolding marker_key
marker_le a b = lex leb (lex leb leb) (marker_key a) (marker_key b)

abbrev pub markers_of : Option (List FlowMarker) → List FlowMarker
markers_of none = []
markers_of (some markers) = markers

abbrev pub with_successor : ℕ → Option CfgNode → ℕ → Dict ℕ CfgNode → Dict ℕ CfgNode
with_successor id none s nodes = nodes
with_successor id (some node) s nodes =
    insert id (record node { successors = node.successors ++ s ∷ [] }) nodes

-- `self.nodes[id].successors.append(s)`; the node is always there.
unfoldable pub add_successor : ℕ → ℕ → Builder → Builder
add_successor id s b = record b { nodes = with_successor id (lookup id b.nodes) s b.nodes }

abbrev pub is_return : Option CfgNode → Bool
is_return none = false
is_return (some node) = node.kind == codes "Return"

-- The loops over exits, which leave out those of kind `Return`.
unfoldable pub link_exits : List ℕ → ℕ → Builder → Builder
unfolding add_successor
link_exits [] s b = b
link_exits (id ∷ exits) s b =
    link_exits exits s (if is_return (lookup id b.nodes) then b else add_successor id s b)

-- `if entry is not None: self.nodes[id].successors.append(entry)`.
abbrev pub link_entry : ℕ → Option ℕ → Builder → Builder
link_entry id none b = b
link_entry id (some entry) b = add_successor id entry b

abbrev pub link_to : List ℕ → Option ℕ → Builder → Builder
link_to exits none b = b
link_to exits (some entry) b = link_exits exits entry b

-- `entry is None`, `exits or [id]` and the like.
abbrev pub or_node : List ℕ → ℕ → List ℕ
or_node [] id = id ∷ []
or_node (x ∷ exits) id = x ∷ exits

abbrev pub if_no_entry : Option ℕ → ℕ → List ℕ
if_no_entry none id = id ∷ []
if_no_entry (some entry) id = []

abbrev pub or_list : List ℕ → List ℕ → List ℕ
or_list [] ys = ys
or_list (x ∷ xs) ys = x ∷ xs

abbrev pub is_end : Block → Bool
is_end end_block = true
is_end (then_stmt s b) = false

-- The exits of an `if`, with its node once more where there is no `else`.
abbrev pub if_exits : ℕ → Ends → Ends → Block → List ℕ
if_exits id body orelse orelse_block =
    or_list body.1 (if_no_entry body.0 id)
    ++ or_list orelse.1 (if_no_entry orelse.0 id)
    ++ (if is_end orelse_block then if_no_entry orelse.0 id else [])

-- The entry of a block and its pending exits after a statement with these ends.
abbrev pub first_entry : Option ℕ → Option ℕ → Option ℕ
first_entry none entry = entry
first_entry (some first) entry = some first

abbrev pub next_exits : Ends → List ℕ → List ℕ
next_exits (none, exits) pending = pending
next_exits (some entry, exits) pending = exits

-- The exits of a loop's body lead back to its node.
abbrev pub link_back : Ends → ℕ → Builder → Builder
link_back (none, exits) id b = b
link_back (some entry, exits) id b = link_exits exits id b

-- The exits of a loop, and those of a `try` before its `finally`, by the entry of the `else`.
abbrev pub loop_exits : ℕ → Ends → List ℕ
loop_exits id (none, exits) = id ∷ []
loop_exits id (some entry, exits) = exits

abbrev pub normal_exits : Ends → List ℕ → List ℕ
normal_exits (none, exits) body_exits = body_exits
normal_exits (some entry, exits) body_exits = exits

abbrev pub final_exits : ℕ → Ends → List ℕ → List ℕ
final_exits id (none, exits) combined = or_node combined id
final_exits id (some entry, exits) combined = exits

abbrev pub with_exits : ℕ → Ends → List ℕ
with_exits id (none, exits) = id ∷ []
with_exits id (some entry, exits) = exits

module _ (flow_by_anchor : Dict Position (List FlowMarker)) where
  unfoldable pub new_node : Position → Text → Builder → Builder
  unfolding marker_le
  new_node at node_kind b = record {
    nodes =
        insert b.next_node_id
          (record {
            node_id = b.next_node_id;
            lineno = at.0;
            col = at.1;
            kind = node_kind;
            successors = [];
            flow_markers = sort_by marker_le (markers_of (lookup at flow_by_anchor));
          })
          b.nodes;
    next_node_id = suc b.next_node_id;
  }

  mutual
    pub build_stmt : Stmt → Builder → Ends × Builder
    build_stmt (return_stmt at) b =
        let id = b.next_node_id in ((some id, id ∷ []), new_node at (codes "Return") b)
    build_stmt (if_stmt at body orelse) b =
        let id = b.next_node_id in
        let (body_ends, b1) = build_block body none [] (new_node at (codes "If") b) in
        let (else_ends, b2) = build_block orelse none [] b1 in
        let b3 = link_entry id else_ends.0 (link_entry id body_ends.0 b2) in
        ((some id, if_exits id body_ends else_ends orelse), b3)
    build_stmt (loop_stmt at node_kind body orelse) b =
        let id = b.next_node_id in
        let (body_ends, b1) = build_block body none [] (new_node at node_kind b) in
        let (else_ends, b2) = build_block orelse none [] b1 in
        let b3 = link_entry id body_ends.0 b2 in
        ((some id, loop_exits id else_ends), link_entry id else_ends.0 (link_back body_ends id b3))
    build_stmt (try_stmt at body handlers orelse final) b =
        let id = b.next_node_id in
        let (body_ends, b1) = build_block body none [] (new_node at (codes "Try") b) in
        let b2 = link_entry id body_ends.0 b1 in
        let (handler_exits, b3) = build_blocks id handlers [] b2 in
        let (else_ends, b4) = build_block orelse none [] b3 in
        let b5 = link_to body_ends.1 else_ends.0 b4 in
        let combined = normal_exits else_ends body_ends.1 ++ handler_exits in
        let (final_ends, b6) = build_block final none [] b5 in
        ((some id, final_exits id final_ends combined), link_to combined final_ends.0 b6)
    build_stmt (match_stmt at cases) b =
        let id = b.next_node_id in
        let (match_exits, b1) = build_blocks id cases [] (new_node at (codes "Match") b) in
        ((some id, or_node match_exits id), b1)
    build_stmt (with_stmt at node_kind body) b =
        let id = b.next_node_id in
        let (body_ends, b1) = build_block body none [] (new_node at node_kind b) in
        ((some id, with_exits id body_ends), link_entry id body_ends.0 b1)
    build_stmt (other_stmt at node_kind) b =
        let id = b.next_node_id in ((some id, id ∷ []), new_node at node_kind b)

    -- The loop over the statements, from the entry and the pending exits so far.
    pub build_block : Block → Option ℕ → List ℕ → Builder → Ends × Builder
    build_block end_block entry pending b = ((entry, pending), b)
    build_block (then_stmt stmt block) entry pending b =
        let (ends, b1) = build_stmt stmt b in
        build_block block (first_entry entry ends.0) (next_exits ends pending)
          (link_to pending ends.0 b1)

    -- The loops over handlers and cases: each entry becomes a successor of the node.
    pub build_blocks : ℕ → Blocks → List ℕ → Builder → List ℕ × Builder
    build_blocks id no_blocks exits b = (exits, b)
    build_blocks id (more_blocks block blocks) exits b =
        let (ends, b1) = build_block block none [] b in
        build_blocks id blocks (exits ++ ends.1) (link_entry id ends.0 b1)

  -- The graph of a function's body.
  unfoldable pub build_function_cfg : Block → FunctionCfg
  unfolding build_stmt
  build_function_cfg body =
      let (ends, b) = build_block body none [] (record { nodes = []; next_node_id = 0 }) in
      record { entry_node_id = ends.0; nodes = b.nodes }

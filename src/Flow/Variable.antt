-- ===== src/Flow/Variable.antt =====
-- execution/evaluators/variable_flow.py: the check of the stages of a variable on the control flow
-- graph of a function (the graph's types are of execution/flow_cfg.py).
pub mod Search
pub mod Fuel
pub mod Exact
use python_arch_testing.Base.{
  Bool, Dict, List, Option, Text, [], contains, drop, eq_nat, eq_pair, eq_text, false, get_elem?,
  if◌then◌else◌, length, lookup, map, none, some, suc, true, zero, ℕ, ◌*◌, ◌++◌, ◌+◌, ◌==◌, ◌∷◌,
}

pub record FlowMarker : Type 0 where
  pub stage : Text
  pub variable : Text
  pub anchor_lineno : ℕ
  pub anchor_col : ℕ
  pub anchor_kind : Text
  pub statement_order : ℕ

pub record CfgNode : Type 0 where
  pub node_id : ℕ
  pub lineno : ℕ
  pub col : ℕ
  pub kind : Text
  pub successors : List ℕ
  pub flow_markers : List FlowMarker

pub record FunctionCfg : Type 0 where
  pub entry_node_id : Option ℕ
  pub nodes : Dict ℕ CfgNode

pub data FailureReason : Type 0 where
  out_of_order_stage missing_stages missing_cfg : FailureReason

pub record Failure : Type 0 where
  pub reason : FailureReason
  pub lineno : ℕ
  pub observed_stages : List Text
  pub missing_stages : List Text

pub record ExitRecord : Type 0 where
  pub exit_lineno : ℕ
  pub observed_stages : List Text
  pub matched_count : ℕ
  pub missing_stages : List Text

-- What the loop over the markers of a node leaves: the progress and the observed stages, or those at
-- the stage that is out of order.
pub data Scan : Type 0 where
  passed misordered : ℕ → List Text → Scan

-- `current_progress < len(required_stages) and stage == required_stages[current_progress]`.
abbrev pub is_next : List Text → ℕ → Text → Bool
is_next required progress stage = elim (get_elem? required progress) [
  | none ↦ false
  | some r ↦ stage == r
]

pub scan_markers : List Text → List FlowMarker → ℕ → List Text → Scan
scan_markers required [] progress observed = passed progress observed
scan_markers required (marker ∷ markers) progress observed =
    let seen_stages = observed ++ marker.stage ∷ [] in
    let next = scan_markers required markers (suc progress) seen_stages in
    let same = scan_markers required markers progress seen_stages in
    if is_next required progress marker.stage
    then next
    else if contains (drop (suc progress) required) marker.stage
    then misordered progress seen_stages
    else same

-- A state of the search: a node and the progress before it, with the stages observed on the way.
abbrev pub Queue : Type 0
Queue = List ((ℕ × ℕ) × List Text)

pub record Found : Type 0 where
  pub failures : List Failure
  pub exit_sequences : List ExitRecord

abbrev pub missing_failure : CfgNode → List Text → List Text → List Failure
missing_failure node observed [] = []
missing_failure node observed (m ∷ missing) =
    record {
      reason = missing_stages;
      lineno = node.lineno;
      observed_stages = observed;
      missing_stages = m ∷ missing;
    }
    ∷ []

-- What a node without successors adds.
abbrev pub exit_here : CfgNode → ℕ → List Text → List Text → Found → Found
exit_here node progress observed missing found = record {
  failures = found.failures ++ missing_failure node observed missing;
  exit_sequences =
      found.exit_sequences
      ++ record {
        exit_lineno = node.lineno;
        observed_stages = observed;
        matched_count = progress;
        missing_stages = missing;
      }
        ∷ [];
}

-- What a node with a stage out of order adds.
abbrev pub misorder_here : CfgNode → List Text → List Text → Found → Found
misorder_here node observed missing found = record {
  failures =
      found.failures
      ++ record {
        reason = out_of_order_stage;
        lineno = node.lineno;
        observed_stages = observed;
        missing_stages = missing;
      }
        ∷ [];
  exit_sequences = found.exit_sequences;
}

abbrev pub go_on : List Text → CfgNode → ℕ → List Text → List ℕ → Found → Found × Queue
go_on required node progress observed [] found =
    (exit_here node progress observed (drop progress required) found, [])
go_on required node progress observed (next ∷ others) found =
    (found, map (λ s. ((s, progress), observed)) (next ∷ others))

-- The pass after the markers: what is found, and what is put on the queue.
abbrev pub leave_node : List Text → CfgNode → Scan → Found → Found × Queue
leave_node required node (misordered progress observed) found =
    (misorder_here node observed (drop progress required) found, [])
leave_node required node (passed progress observed) found =
    go_on required node progress observed node.successors found

-- The `while` loop, on fuel; nothing without fuel, and for the `KeyError` of a missing node.
pub search_queue : List Text → Dict ℕ CfgNode → ℕ → Queue → List (ℕ × ℕ) → Found → Option Found
unfolding scan_markers
search_queue required nodes fuel [] seen found = some found
search_queue required nodes zero (item ∷ queue) seen found = none
search_queue required nodes (suc fuel) ((state, observed) ∷ queue) seen found =
    let skip = search_queue required nodes fuel queue seen found in
    elim (contains seen state) [
      | true ↦ skip
      | false ↦ elim (lookup state.0 nodes) [
        | none ↦ none
        | some node ↦
            let step =
              leave_node required node (scan_markers required node.flow_markers state.1 observed)
                found in
            search_queue required nodes fuel (queue ++ step.1) (state ∷ seen) step.0
      ]
    ]

-- The edges of a graph, with those to unknown nodes.
pub count_edges : Dict ℕ CfgNode → ℕ
count_edges [] = 0
count_edges ((id, node) ∷ nodes) = length node.successors + count_edges nodes

-- A state is left once, so the queue gets each edge once for each progress.
pub fuel_of : List Text → Dict ℕ CfgNode → ℕ
unfolding count_edges
fuel_of required nodes = suc (suc (length required) * count_edges nodes)

pub data FlowVerdict : Type 0 where
  flow_failed : FailureReason → List Failure → List ExitRecord → FlowVerdict
  flow_ok : List ExitRecord → FlowVerdict

abbrev pub verdict_from : List Failure → List ExitRecord → FlowVerdict
verdict_from [] exits = flow_ok exits
verdict_from (first ∷ others) exits = flow_failed first.reason (first ∷ others) exits

abbrev pub verdict_of : Found → FlowVerdict
verdict_of found = verdict_from found.failures found.exit_sequences

abbrev pub verdict_of_search : Option Found → Option FlowVerdict
verdict_of_search none = none
verdict_of_search (some found) = some (verdict_of found)

-- `VariableFlowEvaluator.evaluate`, without the locations of markers and the message.
unfoldable pub evaluate_flow : List Text → FunctionCfg → Option FlowVerdict
unfolding search_queue fuel_of
evaluate_flow required cfg = elim cfg.entry_node_id [
  | none ↦ some (flow_failed missing_cfg [] [])
  | some entry ↦ verdict_of_search (
      search_queue required cfg.nodes (fuel_of required cfg.nodes) (((entry, 0), []) ∷ []) []
        (record { failures = []; exit_sequences = [] }))
]

-- ===== src/Flow/Ready.antt =====
-- crates/lingxi-runtime/src/control_flow.rs: `evaluate`, whether a node may run now.
use ling_xi_agent.Prelude.{
  ℕ, String, Bool, true, false, not, ◌||◌, ◌&&◌, Option, none, some, List, [], ◌∷◌, contains_key,
  get_elem?, nat_eq, ltb, ◌==◌, if◌then◌else◌,
}
use ling_xi_agent.Workflow.Ports.{NodeSpec, input_port}
use ling_xi_agent.Workflow.Model.{Edge, WorkflowNode, data_edge, control_edge}
use ling_xi_agent.Flow.State.{
  Ready, wait, go, blocked, Setting, Scheduler, Seeds, mem, has, at, spec_of, incoming,
}

-- what the loop over the incoming edges finds out
pub record Scan : Type 0 where
  pub has_control : Bool
  pub control_token : Bool
  pub any_data : Bool
  pub any_fresh : Bool
  pub data_pending : Bool
  pub required_data_inactive : Bool
  pub any_active_path : Bool

-- a seed for the node, at a port that passes the test
abbrev pub seeded_at : String → (String → Bool) → Seeds → Bool
seeded_at node_id test [] = false
seeded_at node_id test (((target, port), _) ∷ rest) =
    (target == node_id && test port) || seeded_at node_id test rest

abbrev pub is_control_port : Option NodeSpec → String → Bool
is_control_port none port = false
is_control_port (some spec) port = elim (input_port spec port) [ none ↦ false | some p ↦ p.control ]

abbrev pub is_required_port : Option NodeSpec → String → Bool
is_required_port none port = false
is_required_port (some spec) port = elim (input_port spec port) [
  | none ↦ false
  | some p ↦ p.required
]

unfoldable pub scan_edge : Option NodeSpec → String → Scheduler → Edge → Scan → Scan
scan_edge spec node_id s edge scan =
    let is_inactive = has edge.id s.inactive in
    let seeded = seeded_at node_id (λ port. port == edge.target_port) s.seeds in
    let token = contains_key edge.id s.tokens || seeded in
    let active = scan.any_active_path || not is_inactive in
    elim edge.kind [
      | control_edge ↦ record scan {
        has_control = true;
        control_token = scan.control_token || token;
        any_active_path = active;
      }
      | data_edge ↦ record scan {
        any_data = scan.any_data || token;
        any_fresh = scan.any_fresh || (has edge.id s.fresh_data || seeded);
        data_pending = scan.data_pending || (not token && not is_inactive);
        required_data_inactive =
            scan.required_data_inactive || (is_required_port spec edge.target_port && is_inactive);
        any_active_path = active;
      }
    ]

unfoldable pub scan_edges : Option NodeSpec → String → Scheduler → List Edge → Scan → Scan
unfolding scan_edge
scan_edges spec node_id s [] scan = scan
scan_edges spec node_id s (edge ∷ rest) scan =
    scan_edges spec node_id s rest (scan_edge spec node_id s edge scan)

-- the decision after the scan
unfoldable pub decide : ℕ → Bool → Scan → Ready
decide activation seeded_any scan =
    if scan.required_data_inactive
    then (if nat_eq activation 0 then blocked else wait)
    else if scan.has_control
    then (if scan.control_token
        then go
        else if ltb 0 activation
        then wait
        else if not scan.any_active_path
        then blocked
        else wait)
    else if nat_eq activation 0
    then (if (scan.any_data || seeded_any) && not scan.data_pending
        then go
        else if not scan.any_active_path
        then blocked
        else wait)
    else if scan.any_fresh && not scan.data_pending
    then go
    else if not scan.any_active_path
    then blocked
    else wait

abbrev pub start_scan : Bool → Scan
start_scan seeded_control = record {
  has_control = seeded_control;
  control_token = seeded_control;
  any_data = false;
  any_fresh = false;
  data_pending = false;
  required_data_inactive = false;
  any_active_path = false;
}

unfoldable pub evaluate_node : Setting → Scheduler → ℕ → WorkflowNode → Ready
unfolding scan_edges decide
evaluate_node f s index node =
    let activation = at s.activations index in
    let spec = spec_of f node in
    elim (incoming f index) [
      | [] ↦ if nat_eq activation 0 && not (mem index s.fired_sources) then go else wait
      | edge ∷ rest ↦ decide activation (seeded_at node.id (λ _. true) s.seeds) (
          scan_edges spec node.id s (edge ∷ rest)
            (start_scan (seeded_at node.id (is_control_port spec) s.seeds)))
    ]

unfoldable pub evaluate : Setting → Scheduler → ℕ → Ready
unfolding evaluate_node
evaluate f s index = elim (get_elem? f.graph.nodes index) [
  | none ↦ wait
  | some node ↦ evaluate_node f s index node
]

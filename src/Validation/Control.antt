-- ===== src/Validation/Control.antt =====
-- crates/lingxi-spec/src/validation.rs: `validate_control_flow`. A node is its index.
use ling_xi_agent.Prelude.{
  ℕ, suc, String, Bool, true, false, not, ◌||◌, ◌&&◌, Option, none, some, List, [], ◌∷◌, ◌++◌,
  length, any, get_elem?, ◌==◌, if◌then◌else◌,
}
use ling_xi_agent.Workflow.Ports.{find_port}
use ling_xi_agent.Workflow.Model.{
  WorkflowNode, Edge, Graph, data_edge, control_edge, composite_node_kind, position,
}
use ling_xi_agent.Flow.State.{mem}
use ling_xi_agent.Engine.Order.{targets_of}
use ling_xi_agent.Validation.Paths.{text_of, join_path, indexed}
use ling_xi_agent.Validation.Issues.{
  ValidationIssue, ValidationContext, error_at, error_if, spec_in, subgraph_nested_loop_unsupported,
  cycle, loop_multiple_gates, loop_uncontrolled_cycle, loop_no_exit_path, loop_missing_trigger,
}
use ling_xi_agent.Validation.Edges.{Slot, has_slot, node_of}
use ling_xi_agent.Validation.References.{is_gate_spec, subgraph_has_loop_gate}
use ling_xi_agent.Validation.Components.{Pairs, strongly_connected_components, has_cycle_without}

abbrev in_collaboration : Option String → Bool
in_collaboration none = false
in_collaboration (some group) = group == "Collaboration"

unfoldable pub is_collaboration_input : Graph → ValidationContext → Edge → Bool
unfolding node_of spec_in find_port
is_collaboration_input graph context edge = elim edge.kind [
  | control_edge ↦ false
  | data_edge ↦ elim (node_of edge.target graph.nodes) [
    | none ↦ false
    | some node ↦ elim (spec_in context node) [
      | none ↦ false
      | some spec ↦ elim (find_port edge.target_port spec.inputs) [
        | none ↦ false
        | some port ↦ in_collaboration port.group
      ]
    ]
  ]
]

-- the edges that a test keeps, between the indices of their nodes
unfoldable pub edge_pairs : (Edge → Bool) → List WorkflowNode → List Edge → Pairs
unfolding position
edge_pairs keeps nodes [] = []
edge_pairs keeps nodes (edge ∷ rest) =
    let later = edge_pairs keeps nodes rest in
    elim (position edge.source nodes) [
      | none ↦ later
      | some source ↦ elim (position edge.target nodes) [
        | none ↦ later
        | some target ↦ if keeps edge then (source, target) ∷ later else later
      ]
    ]

unfoldable pub adjacency : Graph → Pairs
unfolding edge_pairs
adjacency graph = edge_pairs (λ _. true) graph.nodes graph.edges

-- An edge of control is no input of collaboration.
unfoldable pub sequencing_adjacency : Graph → ValidationContext → Pairs
unfolding edge_pairs is_collaboration_input
sequencing_adjacency graph context =
    edge_pairs (λ edge. not (is_collaboration_input graph context edge)) graph.nodes graph.edges

unfoldable pub is_cyclic : Pairs → List ℕ → Bool
unfolding targets_of
is_cyclic pairs [] = false
is_cyclic pairs (node ∷ []) = mem node (targets_of node pairs)
is_cyclic pairs (_ ∷ _ ∷ _) = true

-- a composite node whose subgraph has a loop gate
unfoldable pub has_nested_loop : ValidationContext → WorkflowNode → Bool
unfolding subgraph_has_loop_gate
has_nested_loop context node = node.kind == composite_node_kind && elim node.subgraph_id [
  | none ↦ false
  | some id ↦ subgraph_has_loop_gate (suc (length context.subgraphs)) context id []
]

abbrev pub holds_at : Graph → (WorkflowNode → Bool) → ℕ → Bool
holds_at graph test i = elim (get_elem? graph.nodes i) [ none ↦ false | some node ↦ test node ]

unfoldable pub is_gate : ValidationContext → WorkflowNode → Bool
unfolding spec_in is_gate_spec
is_gate context node = is_gate_spec (spec_in context node)

unfoldable pub gates_of : Graph → ValidationContext → List ℕ → List ℕ
unfolding is_gate
gates_of graph context [] = []
gates_of graph context (i ∷ rest) =
    let later = gates_of graph context rest in
    if holds_at graph (is_gate context) i then i ∷ later else later

-- The components are disjoint: the target has the number of another one unless it is a member.
abbrev leaves : List WorkflowNode → List ℕ → Edge → Bool
leaves nodes component edge = elim (position edge.target nodes) [
  | none ↦ false
  | some target ↦ not (mem target component)
]

unfoldable pub has_exit : Graph → List ℕ → WorkflowNode → Bool
unfolding position
has_exit graph component gate =
    any
      (λ edge.
        edge.source == gate.id && (edge.source_port == "exit" && leaves graph.nodes component edge))
      graph.edges

unfoldable pub has_trigger : Graph → WorkflowNode → String → Bool
has_trigger graph gate port =
    any (λ edge. edge.target == gate.id && edge.target_port == port) graph.edges

module _ (graph : Graph) (context : ValidationContext) (prefix : String)
    (provided : List Slot) where
  -- what a component with this one gate must have
  unfoldable pub check_gate : List ℕ → ℕ → WorkflowNode → List ValidationIssue
  unfolding has_cycle_without sequencing_adjacency has_exit has_trigger join_path indexed
  check_gate component gate node =
      let at_gate =
        λ (place : String). join_path prefix (text_of (indexed "nodes" gate ∷ place ∷ [])) in
      let sequencing = sequencing_adjacency graph context in
      let has_start = has_slot provided (node.id, "start") || has_trigger graph node "start" in
      error_if (has_cycle_without (length graph.nodes) component gate sequencing)
        loop_uncontrolled_cycle (at_gate ".kind")
      ++ error_if (not (has_exit graph component node)) loop_no_exit_path (at_gate ".outputs.exit")
      ++ error_if (not (has_start && has_trigger graph node "next")) loop_missing_trigger
          (at_gate ".inputs")

  unfoldable pub check_gates : List ℕ → List ℕ → List ValidationIssue
  unfolding check_gate join_path
  check_gates component [] = error_at cycle (join_path prefix "edges") ∷ []
  check_gates component (gate ∷ []) = elim (get_elem? graph.nodes gate) [
    | none ↦ []
    | some node ↦ check_gate component gate node
  ]
  check_gates component (_ ∷ _ ∷ _) = error_at loop_multiple_gates (join_path prefix "edges") ∷ []

  unfoldable pub check_component : List ℕ → List ValidationIssue
  unfolding is_cyclic adjacency has_nested_loop gates_of check_gates join_path
  check_component component = elim (is_cyclic (adjacency graph) component) [
    | false ↦ []
    | true ↦
        error_if (any (holds_at graph (has_nested_loop context)) component)
          subgraph_nested_loop_unsupported (join_path prefix "edges")
        ++ check_gates component (gates_of graph context component)
  ]

  unfoldable pub check_components : List (List ℕ) → List ValidationIssue
  unfolding check_component
  check_components [] = []
  check_components (component ∷ rest) = check_component component ++ check_components rest

  unfoldable pub validate_control_flow : List ValidationIssue
  unfolding strongly_connected_components adjacency check_components
  validate_control_flow =
      check_components (strongly_connected_components (length graph.nodes) (adjacency graph))

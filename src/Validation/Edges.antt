-- ===== src/Validation/Edges.antt =====
-- crates/lingxi-spec/src/validation.rs: `validate_edges`. The conflicts of input ports, which the code
-- reports in the order of a hash map, come in the order of the edges here.
use ling_xi_agent.Prelude.{
  ℕ, suc, ◌+◌, String, Bool, true, false, not, ◌||◌, ◌&&◌, Option, none, some, List, [], ◌∷◌, ◌++◌,
  any, ltb, is_some, ◌==◌, if◌then◌else◌,
}
use ling_xi_agent.Workflow.Ports.{NodeSpec, PortSpec, input_port, output_port, accepts}
use ling_xi_agent.Workflow.Model.{WorkflowNode, Edge, Graph, data_edge, control_edge}
use ling_xi_agent.Validation.Paths.{text_of, join_path, indexed}
use ling_xi_agent.Validation.Issues.{
  ValidationIssue, ValidationContext, error_if, spec_in, for_each, duplicate_edge_id, self_loop,
  dangling_source, dangling_target, unknown_port, type_mismatch, input_conflict, duplicate_edge,
  unconnected_input, control_required,
}

-- `workflow.node(id)`
unfoldable pub node_of : String → List WorkflowNode → Option WorkflowNode
node_of id [] = none
node_of id (node ∷ rest) = if node.id == id then some node else node_of id rest

abbrev pub Slot : Type 0
Slot = String × String

abbrev pub slot_eq : Slot → Slot → Bool
slot_eq (a, b) (c, d) = a == c && b == d

abbrev pub has_slot : List Slot → Slot → Bool
has_slot slots slot = any (λ other. slot_eq other slot) slots

abbrev pub same_ends : Edge → Edge → Bool
same_ends a b =
    (a.source == b.source && a.source_port == b.source_port)
    && (a.target == b.target && a.target_port == b.target_port)

-- a port that a node kind must have
unfoldable pub port_known : Option NodeSpec → (NodeSpec → Option PortSpec) → Bool
port_known none port = true
port_known (some spec) port = is_some (port spec)

abbrev is_data : Edge → Bool
is_data edge = elim edge.kind [ data_edge ↦ true | control_edge ↦ false ]

unfoldable pub check_ports : Edge → String → PortSpec → PortSpec → List ValidationIssue
unfolding accepts
check_ports edge path output input =
    error_if (not (accepts input.data_type output.data_type)) type_mismatch path
    ++ error_if ((output.control || input.control) && is_data edge) control_required
        (text_of (path ∷ ".kind" ∷ []))

-- the port of a node, if both are known
abbrev port_of : Option NodeSpec → (NodeSpec → Option PortSpec) → Option PortSpec
port_of none port = none
port_of (some spec) port = port spec

-- the checks of an edge between nodes that exist
unfoldable pub check_ends :
    ValidationContext → Edge → String → WorkflowNode → WorkflowNode → List ValidationIssue
unfolding spec_in port_known output_port input_port check_ports
check_ends context edge path source target =
    let source_spec = spec_in context source in
    let target_spec = spec_in context target in
    let output = λ (spec : NodeSpec). output_port spec edge.source_port in
    let input = λ (spec : NodeSpec). input_port spec edge.target_port in
    error_if (not (port_known source_spec output)) unknown_port
      (text_of (path ∷ ".sourcePort" ∷ []))
    ++ error_if (not (port_known target_spec input)) unknown_port
        (text_of (path ∷ ".targetPort" ∷ []))
    ++ elim (port_of source_spec output) [
      | none ↦ []
      | some from ↦ elim (port_of target_spec input) [
        | none ↦ []
        | some to ↦ check_ports edge path from to
      ]
    ]

-- `earlier` are the edges in front of this one
unfoldable pub check_edge :
    ValidationContext → List WorkflowNode → List Edge → Edge → String → List ValidationIssue
unfolding node_of check_ends
check_edge context nodes earlier edge path =
    let source = node_of edge.source nodes in
    let target = node_of edge.target nodes in
    error_if (any (λ other. other.id == edge.id) earlier) duplicate_edge_id
      (text_of (path ∷ ".id" ∷ []))
    ++ error_if (edge.source == edge.target) self_loop path
    ++ error_if (not (is_some source)) dangling_source (text_of (path ∷ ".source" ∷ []))
    ++ error_if (not (is_some target)) dangling_target (text_of (path ∷ ".target" ∷ []))
    ++ error_if (any (λ other. same_ends other edge) earlier) duplicate_edge path
    ++ elim source [
      | none ↦ []
      | some from ↦ elim target [ none ↦ [] | some to ↦ check_ends context edge path from to ]
    ]

unfoldable pub check_edges :
    ValidationContext
    → List WorkflowNode
    → String
    → List Edge
    → ℕ
    → List Edge
    → List ValidationIssue
unfolding check_edge join_path indexed
check_edges context nodes prefix earlier index [] = []
check_edges context nodes prefix earlier index (edge ∷ rest) =
    check_edge context nodes earlier edge (join_path prefix (indexed "edges" index))
    ++ check_edges context nodes prefix (earlier ++ edge ∷ []) (suc index) rest

-- `input_slots`
unfoldable pub count_slot : Slot → List (Slot × ℕ) → List (Slot × ℕ)
count_slot slot [] = (slot, 1) ∷ []
count_slot slot ((other, count) ∷ rest) =
    let later = count_slot slot rest in
    if slot_eq other slot then (other, count + 1) ∷ rest else (other, count) ∷ later

unfoldable pub count_slots : List Edge → List (Slot × ℕ) → List (Slot × ℕ)
unfolding count_slot
count_slots [] slots = slots
count_slots (edge ∷ rest) slots =
    count_slots rest (count_slot (edge.target, edge.target_port) slots)

unfoldable pub check_slots : String → List (Slot × ℕ) → List ValidationIssue
unfolding join_path
check_slots prefix [] = []
check_slots prefix (((target, port), count) ∷ rest) =
    error_if (ltb 1 count) input_conflict
      (join_path prefix (text_of ("nodes[?].inputs." ∷ port ∷ [])))
    ++ check_slots prefix rest

-- `provided` are the slots that the inputs of a subgraph feed
unfoldable pub check_inputs :
    List Edge → List Slot → WorkflowNode → String → List PortSpec → List ValidationIssue
check_inputs edges provided node path [] = []
check_inputs edges provided node path (port ∷ rest) =
    let connected =
      has_slot provided (node.id, port.name)
      || any (λ edge. edge.target == node.id && edge.target_port == port.name) edges in
    error_if (port.required && not connected) unconnected_input
      (text_of (path ∷ ".inputs." ∷ port.name ∷ []))
    ++ check_inputs edges provided node path rest

unfoldable pub check_node_inputs :
    Graph → ValidationContext → String → List Slot → ℕ → WorkflowNode → List ValidationIssue
unfolding spec_in check_inputs join_path indexed
check_node_inputs graph context prefix provided index node = elim (spec_in context node) [
  | none ↦ []
  | some spec ↦
      check_inputs graph.edges provided node (join_path prefix (indexed "nodes" index)) spec.inputs
]

unfoldable pub validate_edges :
    Graph → ValidationContext → String → List Slot → List ValidationIssue
unfolding check_edges count_slots check_slots check_node_inputs
validate_edges graph context prefix provided =
    check_edges context graph.nodes prefix [] 0 graph.edges
    ++ check_slots prefix (count_slots graph.edges [])
    ++ for_each (check_node_inputs graph context prefix provided) 0 graph.nodes

-- ===== src/Validation/Subgraphs.antt =====
-- crates/lingxi-spec/src/validation.rs: the ports and bindings of subgraphs.
use ling_xi_agent.Prelude.{
  ℕ, suc, String, Bool, true, false, not, ◌&&◌, Option, none, some, List, [], ◌∷◌, ◌++◌, any,
  is_blank, ◌==◌,
}
use ling_xi_agent.Workflow.Ports.{NodeSpec, PortSpec, input_port, output_port, accepts}
use ling_xi_agent.Workflow.Model.{Edge, Graph, PortBinding, Subgraph, SubgraphInput, SubgraphOutput}
use ling_xi_agent.Flow.State.{has}
use ling_xi_agent.Validation.Paths.{text_of, indexed}
use ling_xi_agent.Validation.Issues.{
  ValidationIssue, ValidationContext, error_at, error_if, spec_in, for_each, subgraph_invalid_port,
  subgraph_invalid_binding,
}
use ling_xi_agent.Validation.Edges.{Slot, has_slot, node_of}

-- `provided`
unfoldable pub provided_slots : List SubgraphInput → List Slot
provided_slots [] = []
provided_slots (input ∷ rest) = slots input.targets ++ provided_slots rest
  where
    slots : List PortBinding → List Slot
    slots [] = []
    slots (binding ∷ rest) = (binding.node_id, binding.port) ∷ slots rest

-- A port name that is empty, or that an earlier port has.
unfoldable pub check_port_name : List String → String → String → List ValidationIssue
unfolding is_blank
check_port_name seen name path = elim (is_blank name) [
  | true ↦ error_at subgraph_invalid_port path ∷ []
  | false ↦ error_if (has name seen) subgraph_invalid_port path
]

-- the names seen behind a port
abbrev pub see_name : List String → String → List String
unfolding is_blank
see_name seen name = elim (is_blank name) [ true ↦ seen | false ↦ name ∷ seen ]

abbrev has_no_target : SubgraphInput → Bool
has_no_target input = elim input.targets [ [] ↦ true | _ ∷ _ ↦ false ]

unfoldable pub check_input_ports :
    String → List String → ℕ → List SubgraphInput → List ValidationIssue
unfolding check_port_name indexed
check_input_ports base seen index [] = []
check_input_ports base seen index (input ∷ rest) =
    let at_input = text_of (base ∷ "." ∷ indexed "inputs" index ∷ []) in
    check_port_name seen input.port.name (text_of (at_input ∷ ".port.name" ∷ []))
    ++ error_if (input.port.required && has_no_target input) subgraph_invalid_binding
        (text_of (at_input ∷ ".targets" ∷ []))
    ++ check_input_ports base (see_name seen input.port.name) (suc index) rest

unfoldable pub check_output_ports :
    String → List String → ℕ → List SubgraphOutput → List ValidationIssue
unfolding check_port_name indexed
check_output_ports base seen index [] = []
check_output_ports base seen index (output ∷ rest) =
    let at_output = text_of (base ∷ "." ∷ indexed "outputs" index ∷ []) in
    check_port_name seen output.port.name (text_of (at_output ∷ ".port.name" ∷ []))
    ++ check_output_ports base (see_name seen output.port.name) (suc index) rest

unfoldable pub validate_subgraph_ports : Subgraph → String → List ValidationIssue
unfolding check_input_ports check_output_ports
validate_subgraph_ports subgraph base =
    check_input_ports base [] 0 subgraph.inputs ++ check_output_ports base [] 0 subgraph.outputs

-- The port of an inner node that a binding names, or the place of the issue.
unfoldable pub bound_port :
    ValidationContext
    → Graph
    → PortBinding
    → (NodeSpec → String → Option PortSpec)
    → Option PortSpec × String
unfolding node_of spec_in
bound_port context graph binding port = elim (node_of binding.node_id graph.nodes) [
  | none ↦ (none, ".nodeId")
  | some node ↦ elim (spec_in context node) [
    | none ↦ (none, ".nodeId")
    | some spec ↦ (port spec binding.port, ".port")
  ]
]

abbrev differ : Bool → Bool → Bool
differ true b = not b
differ false b = b

-- `outer` takes values of `inner`, or the other way around, as `fits` says
unfoldable pub check_fit : Bool → Bool → Bool → String → List ValidationIssue
check_fit control other fits path =
    error_if (differ control other) subgraph_invalid_port (text_of (path ∷ ".port" ∷ []))
    ++ error_if (not fits) subgraph_invalid_port (text_of (path ∷ ".port" ∷ []))

abbrev drives : PortBinding → Edge → Bool
drives binding edge = edge.target == binding.node_id && edge.target_port == binding.port

-- `targets` are the slots bound before this one
unfoldable pub check_target :
    ValidationContext → Graph → PortSpec → List Slot → String → PortBinding → List ValidationIssue
unfolding bound_port input_port check_fit accepts
check_target context graph outer targets path binding =
    let (port, place) = bound_port context graph binding input_port in
    elim port [
      | none ↦ error_at subgraph_invalid_binding (text_of (path ∷ place ∷ [])) ∷ []
      | some inner ↦
          check_fit inner.control outer.control (accepts inner.data_type outer.data_type) path
          ++ error_if (any (drives binding) graph.edges) subgraph_invalid_binding path
          ++ error_if (has_slot targets (binding.node_id, binding.port)) subgraph_invalid_binding
              path
    ]

-- the slots bound behind a binding: only one with a port is inserted
unfoldable pub bind_target : ValidationContext → Graph → PortBinding → List Slot → List Slot
unfolding bound_port input_port
bind_target context graph binding targets = elim (bound_port context graph binding input_port).0 [
  | none ↦ targets
  | some _ ↦ (binding.node_id, binding.port) ∷ targets
]

-- the issues, and the slots bound behind them
unfoldable pub check_targets :
    ValidationContext
    → Graph
    → PortSpec
    → String
    → ℕ
    → List PortBinding
    → List Slot
    → List ValidationIssue × List Slot
unfolding check_target bind_target indexed
check_targets context graph outer path index [] targets = ([], targets)
check_targets context graph outer path index (binding ∷ rest) targets =
    let here =
      check_target context graph outer targets (text_of (path ∷ "." ∷ indexed "targets" index ∷ []))
        binding in
    let (later, bound) =
      check_targets context graph outer path (suc index) rest
        (bind_target context graph binding targets) in
    (here ++ later, bound)

unfoldable pub check_bindings :
    ValidationContext → Graph → String → ℕ → List SubgraphInput → List Slot → List ValidationIssue
unfolding check_targets indexed
check_bindings context graph base index [] targets = []
check_bindings context graph base index (input ∷ rest) targets =
    let (here, bound) =
      check_targets context graph input.port (text_of (base ∷ "." ∷ indexed "inputs" index ∷ [])) 0
        input.targets targets in
    here ++ check_bindings context graph base (suc index) rest bound

unfoldable pub check_source :
    ValidationContext → Graph → String → ℕ → SubgraphOutput → List ValidationIssue
unfolding bound_port output_port check_fit accepts indexed
check_source context graph base index output =
    let path = text_of (base ∷ "." ∷ indexed "outputs" index ∷ ".source" ∷ []) in
    let (port, place) = bound_port context graph output.source output_port in
    elim port [
      | none ↦ error_at subgraph_invalid_binding (text_of (path ∷ place ∷ [])) ∷ []
      | some inner ↦
          check_fit inner.control output.port.control
            (accepts output.port.data_type inner.data_type) path
    ]

unfoldable pub validate_subgraph_bindings :
    Subgraph → ValidationContext → String → List ValidationIssue
unfolding check_bindings check_source
validate_subgraph_bindings subgraph context base =
    check_bindings context subgraph.workflow base 0 subgraph.inputs []
    ++ for_each (check_source context subgraph.workflow base) 0 subgraph.outputs

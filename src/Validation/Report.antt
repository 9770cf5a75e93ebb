-- ===== src/Validation/Report.antt =====
-- crates/lingxi-spec/src/validation.rs: `validate`.
use ling_xi_agent.Prelude.{
  ℕ, suc, String, Bool, true, false, not, ◌||◌, ◌&&◌, Option, none, some, List, [], ◌∷◌, ◌++◌, Dict,
  contains_key, is_blank, nat_eq, ◌==◌, if◌then◌else◌,
}
use ling_xi_agent.Protocol.Float.{is_finite}
use ling_xi_agent.Workflow.Ports.{NodeSpec}
use ling_xi_agent.Workflow.Model.{
  WorkflowNode, Position, Graph, Subgraph, Workflow, composite_node_kind, composite_specs,
}
use ling_xi_agent.Workflow.GateBudget.{validate_gate_budget}
use ling_xi_agent.Flow.State.{has}
use ling_xi_agent.Validation.Paths.{text_of, join_path, indexed}
use ling_xi_agent.Validation.Issues.{
  ValidationIssue, ValidationContext, ValidationReport, error_at, warning_at, error_if, spec_in,
  report, unsupported_schema, empty_workflow, duplicate_node_id, empty_node_id, unknown_kind,
  invalid_position, loop_invalid_budget, subgraph_duplicate_id, subgraph_unknown_reference,
  subgraph_unsupported_version, subgraph_nested_definitions,
}
use ling_xi_agent.Validation.Params.{validate_params, validate_assets}
use ling_xi_agent.Validation.Edges.{Slot, validate_edges}
use ling_xi_agent.Validation.Subgraphs.{
  provided_slots, see_name, validate_subgraph_ports, validate_subgraph_bindings,
}
use ling_xi_agent.Validation.References.{is_gate_spec, validate_recursive_references}
use ling_xi_agent.Validation.Control.{validate_control_flow}

abbrev supported_schema_versions : List String
supported_schema_versions = "1.0" ∷ "1.1" ∷ "1.2" ∷ []

abbrev subgraph_version : ℕ
subgraph_version = 1

unfoldable pub check_node_id : List String → String → String → List ValidationIssue
unfolding is_blank
check_node_id seen id path = elim (is_blank id) [
  | true ↦ error_at empty_node_id path ∷ []
  | false ↦ error_if (has id seen) duplicate_node_id path
]

unfoldable pub check_reference : Dict Subgraph → Option String → String → List ValidationIssue
check_reference subgraphs none path = error_at subgraph_unknown_reference path ∷ []
check_reference subgraphs (some id) path =
    error_if (not (contains_key id subgraphs)) subgraph_unknown_reference path

-- The prefix of a budget's issues is the path of the node, to which the code joins the same path again.
unfoldable pub budget_issues : String → ℕ → List String → List ValidationIssue
unfolding join_path indexed
budget_issues path index [] = []
budget_issues path index (name ∷ rest) =
    error_at loop_invalid_budget
      (join_path path (text_of (indexed "nodes" index ∷ ".params." ∷ name ∷ [])))
    ∷ budget_issues path index rest

unfoldable pub check_kind : ValidationContext → WorkflowNode → ℕ → String → List ValidationIssue
unfolding check_reference spec_in validate_params is_gate_spec validate_gate_budget budget_issues
check_kind context node index path = elim (node.kind == composite_node_kind) [
  | true ↦ check_reference context.subgraphs node.subgraph_id (text_of (path ∷ ".subgraphId" ∷ []))
  | false ↦ elim (spec_in context node) [
    | none ↦ error_at unknown_kind (text_of (path ∷ ".kind" ∷ [])) ∷ []
    | some spec ↦
        validate_params node spec context.assets path
        ++ (if is_gate_spec (some spec)
            then budget_issues path index (validate_gate_budget node)
            else [])
  ]
]

unfoldable pub is_placed : Position → Bool
unfolding is_finite
is_placed position = is_finite position.x && is_finite position.y

unfoldable pub check_nodes :
    ValidationContext → String → List String → ℕ → List WorkflowNode → List ValidationIssue
unfolding is_placed check_node_id check_kind join_path indexed
check_nodes context prefix seen index [] = []
check_nodes context prefix seen index (node ∷ rest) =
    let path = join_path prefix (indexed "nodes" index) in
    check_node_id seen node.id (text_of (path ∷ ".id" ∷ []))
    ++ error_if (not (is_placed node.position)) invalid_position (text_of (path ∷ ".position" ∷ []))
    ++ check_kind context node index path
    ++ check_nodes context prefix (see_name seen node.id) (suc index) rest

unfoldable pub validate_workflow :
    Graph → ValidationContext → String → List Slot → List ValidationIssue
unfolding check_nodes validate_edges validate_control_flow join_path
validate_workflow graph context prefix provided =
    error_if (not (has graph.schema_version supported_schema_versions)) unsupported_schema
      (join_path prefix "schemaVersion")
    ++ elim graph.nodes [
      | [] ↦ warning_at empty_workflow (join_path prefix "nodes") ∷ []
      | _ ∷ _ ↦ []
    ]
    ++ check_nodes context prefix [] 0 graph.nodes
    ++ validate_edges graph context prefix provided
    ++ validate_control_flow graph context prefix provided

-- the checks of a definition before its workflow is checked
unfoldable pub check_definition : List String → String → Subgraph → String → List ValidationIssue
unfolding is_blank
check_definition seen key subgraph base =
    error_if (is_blank subgraph.id || not (subgraph.id == key)) subgraph_duplicate_id
      (text_of (base ∷ ".id" ∷ []))
    ++ error_if (has subgraph.id seen) subgraph_duplicate_id (text_of (base ∷ ".id" ∷ []))
    ++ error_if (not (nat_eq subgraph.version subgraph_version)) subgraph_unsupported_version
        (text_of (base ∷ ".version" ∷ []))
    ++ elim subgraph.nested [
      | [] ↦ []
      | _ ∷ _ ↦
          error_at subgraph_nested_definitions (text_of (base ∷ ".workflow.subgraphs" ∷ [])) ∷ []
    ]

unfoldable pub validate_subgraphs :
    ValidationContext → List String → Dict Subgraph → List ValidationIssue
unfolding check_definition provided_slots validate_workflow validate_subgraph_ports
    validate_subgraph_bindings
validate_subgraphs context seen [] = []
validate_subgraphs context seen ((key, subgraph) ∷ rest) =
    let base = text_of ("subgraphs." ∷ key ∷ []) in
    check_definition seen key subgraph base
    ++ validate_workflow subgraph.workflow context (text_of (base ∷ ".workflow" ∷ []))
        (provided_slots subgraph.inputs)
    ++ validate_subgraph_ports subgraph base
    ++ validate_subgraph_bindings subgraph context base
    ++ validate_subgraphs context (subgraph.id ∷ seen) rest

unfoldable pub context_of : Workflow → (String → Option NodeSpec) → ValidationContext
unfolding composite_specs
context_of workflow resolver = record {
  resolver = resolver;
  subgraphs = workflow.subgraphs;
  specs = composite_specs workflow.subgraphs;
  assets = workflow.assets;
}

-- the issues in their order
unfoldable pub issues_of : Workflow → (String → Option NodeSpec) → List ValidationIssue
unfolding context_of validate_assets validate_workflow validate_subgraphs
    validate_recursive_references
issues_of workflow resolver =
    let context = context_of workflow resolver in
    validate_assets workflow
    ++ validate_workflow workflow.graph context "" []
    ++ validate_subgraphs context [] workflow.subgraphs
    ++ validate_recursive_references workflow

unfoldable pub validate : Workflow → (String → Option NodeSpec) → ValidationReport
unfolding report issues_of
validate workflow resolver = report workflow (issues_of workflow resolver)

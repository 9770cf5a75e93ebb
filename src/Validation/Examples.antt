-- ===== src/Validation/Examples.antt =====
-- crates/lingxi-spec/src/validation.rs: two nodes that an edge connects, and a cycle.
use ling_xi_agent.Prelude.{
  String, true, false, Option, none, some, List, [], ◌∷◌, ◌≡◌, refl, ◌≤◌, length, ◌==◌,
  if◌then◌else◌, is_some, lookup, is_blank, decimal,
}
use ling_xi_agent.Protocol.Float.{is_finite}
use ling_xi_agent.Workflow.Ports.{
  NodeSpec, normal, any_type, find_port, input_port, output_port, accepts, is_media,
}
use ling_xi_agent.Workflow.Model.{
  WorkflowNode, Edge, Workflow, Subgraph, composite_node_kind, data_edge, position, composite_specs,
}
use ling_xi_agent.Flow.State.{bump}
use ling_xi_agent.Engine.Run.{requires_control_flow}
use ling_xi_agent.Engine.Order.{execution_order, targets_of, lower, push}
use ling_xi_agent.Validation.Issues.{count_errors, report, spec_in}
use ling_xi_agent.Validation.Paths.{join_path, indexed}
use ling_xi_agent.Validation.Params.{
  unknown_params, check_asset_ids, validate_asset_param, fits_kind, check_param_value, check_params,
  validate_params, is_valid_asset, check_assets, validate_assets,
}
use ling_xi_agent.Validation.Edges.{
  node_of, port_known, check_ports, check_ends, check_edge, check_edges, count_slot, count_slots,
  check_slots, check_inputs, check_node_inputs, validate_edges,
}
use ling_xi_agent.Validation.Subgraphs.{
  provided_slots, check_port_name, check_input_ports, check_output_ports, validate_subgraph_ports,
  bound_port, check_fit, check_target, bind_target, check_targets, check_bindings, check_source,
  validate_subgraph_bindings,
}
use ling_xi_agent.Validation.References.{
  reference_of, report_reference, follow, walk_nodes, walk_recursive_references, walk_keys,
  validate_recursive_references, is_gate_spec, any_loop_gate, subgraph_has_loop_gate,
}
use ling_xi_agent.Validation.Components.{
  search_step, search, search_from, search_all, finish_order, sources_of, claim, collect,
  components_from, strongly_connected_components, pairs_within, drop_gate, without_degree,
  degrees_within, lower_targets, drain, zero_counts, has_cycle_without,
}
use ling_xi_agent.Validation.Control.{
  is_collaboration_input, edge_pairs, adjacency, sequencing_adjacency, is_cyclic, has_nested_loop,
  is_gate, gates_of, has_exit, has_trigger, check_gate, check_gates, check_component,
  check_components, validate_control_flow,
}
use ling_xi_agent.Validation.Report.{
  check_node_id, check_reference, budget_issues, check_kind, is_placed, check_nodes,
  validate_workflow, check_definition, validate_subgraphs, context_of, issues_of, validate,
}
use ling_xi_agent.Validation.Issues.{error_at, cycle}
use ling_xi_agent.Validation.Chains.{is_chain, refers}
use ling_xi_agent.Validation.Recursion.{recursion_reported}
use ling_xi_agent.Validation.Valid.{valid_workflow-order}

abbrev node : String → WorkflowNode
node id = record {
  id = id;
  kind = "text";
  position = record { x = 0; y = 0 };
  params = [];
  enabled = true;
  subgraph_id = none;
}

abbrev edge : String → String → String → Edge
edge id source target = record {
  id = id;
  source = source;
  source_port = "out";
  target = target;
  target_port = "in";
  kind = data_edge;
}

abbrev registry : String → Option NodeSpec
registry kind = some (record {
  kind = kind;
  inputs =
      record { name = "in"; data_type = any_type; required = false; control = false; group = none }
      ∷ [];
  outputs =
      record { name = "out"; data_type = any_type; required = false; control = false; group = none }
      ∷ [];
  params = [];
  capabilities = [];
  control = normal;
})

abbrev workflow : List Edge → Workflow
workflow edges = record {
  id = "w";
  graph = record { schema_version = "1.2"; nodes = node "b" ∷ node "a" ∷ []; edges = edges };
  subgraphs = [];
  assets = [];
}

abbrev line : Workflow
line = workflow (edge "e" "a" "b" ∷ [])

abbrev round : Workflow
round = workflow (edge "e" "a" "b" ∷ edge "f" "b" "a" ∷ [])

line_valid : (validate line registry).ok ≡ true
unfolding count_errors report spec_in join_path indexed unknown_params check_asset_ids
    validate_asset_param fits_kind check_param_value check_params validate_params is_valid_asset
    check_assets validate_assets node_of port_known check_ports check_ends check_edge check_edges
    count_slot count_slots check_slots check_inputs check_node_inputs validate_edges provided_slots
    check_port_name check_input_ports check_output_ports validate_subgraph_ports bound_port
    check_fit check_target bind_target check_targets check_bindings check_source
    validate_subgraph_bindings reference_of report_reference follow walk_nodes
    walk_recursive_references walk_keys validate_recursive_references is_gate_spec any_loop_gate
    subgraph_has_loop_gate search_step search search_from search_all finish_order sources_of claim
    collect components_from strongly_connected_components pairs_within drop_gate without_degree
    degrees_within lower_targets drain zero_counts has_cycle_without is_collaboration_input
    edge_pairs adjacency sequencing_adjacency is_cyclic has_nested_loop is_gate gates_of has_exit
    has_trigger check_gate check_gates check_component check_components validate_control_flow
    check_node_id check_reference budget_issues check_kind is_placed check_nodes validate_workflow
    check_definition validate_subgraphs context_of issues_of validate is_blank decimal is_finite
    find_port input_port output_port accepts is_media position composite_specs bump targets_of lower
    push lookup
line_valid = refl

round_issues : (validate round registry).issues ≡ error_at cycle "edges" ∷ []
unfolding count_errors report spec_in join_path indexed unknown_params check_asset_ids
    validate_asset_param fits_kind check_param_value check_params validate_params is_valid_asset
    check_assets validate_assets node_of port_known check_ports check_ends check_edge check_edges
    count_slot count_slots check_slots check_inputs check_node_inputs validate_edges provided_slots
    check_port_name check_input_ports check_output_ports validate_subgraph_ports bound_port
    check_fit check_target bind_target check_targets check_bindings check_source
    validate_subgraph_bindings reference_of report_reference follow walk_nodes
    walk_recursive_references walk_keys validate_recursive_references is_gate_spec any_loop_gate
    subgraph_has_loop_gate search_step search search_from search_all finish_order sources_of claim
    collect components_from strongly_connected_components pairs_within drop_gate without_degree
    degrees_within lower_targets drain zero_counts has_cycle_without is_collaboration_input
    edge_pairs adjacency sequencing_adjacency is_cyclic has_nested_loop is_gate gates_of has_exit
    has_trigger check_gate check_gates check_component check_components validate_control_flow
    check_node_id check_reference budget_issues check_kind is_placed check_nodes validate_workflow
    check_definition validate_subgraphs context_of issues_of validate is_blank decimal is_finite
    find_port input_port output_port accepts is_media position composite_specs bump targets_of lower
    push lookup
round_issues = refl

valid_workflow-order_example : is_some (execution_order line.graph) ≡ true
unfolding requires_control_flow
valid_workflow-order_example = valid_workflow-order line registry line_valid refl

-- two subgraphs that refer to each other
abbrev referring : String → Subgraph
referring id = record {
  id = id;
  version = 1;
  name = id;
  workflow = record {
    schema_version = "1.2";
    nodes =
        record (node "n") {
          kind = composite_node_kind;
          subgraph_id = some (if id == "s" then "t" else "s");
        }
        ∷ [];
    edges = [];
  };
  nested = [];
  inputs = [];
  outputs = [];
}

abbrev recursive : Workflow
recursive = record {
  id = "w";
  graph = record { schema_version = "1.2"; nodes = []; edges = [] };
  subgraphs = ("s", referring "s") ∷ ("t", referring "t") ∷ [];
  assets = [];
}

recursion_reported_example : 1 ≤ length (validate_recursive_references recursive)
unfolding is_chain refers reference_of lookup
recursion_reported_example = recursion_reported recursive "s" ("t" ∷ "s" ∷ []) refl refl refl

-- ===== src/Validation/Valid.antt =====
-- crates/lingxi-spec/src/validation.rs, crates/lingxi-runtime/src/engine.rs: a validated workflow without
-- control flow gets an execution order.
use ling_xi_agent.Prelude.{
  String, Bool, true, false, ◌||◌, Bool-cases, Option, Option-cases, none, some, [], ◌≡◌, refl, inl,
  inr, arith, is_some, ◌==◌,
}
use ling_xi_agent.Workflow.Ports.{NodeSpec, normal}
use ling_xi_agent.Workflow.Model.{WorkflowNode, Workflow, composite_node_kind}
use ling_xi_agent.Engine.Run.{requires_control_flow}
use ling_xi_agent.Engine.Order.{execution_order}
use ling_xi_agent.Validation.Issues.{ValidationContext, count_errors, report, spec_in, for_each}
use ling_xi_agent.Validation.Edges.{
  check_edges, count_slots, check_slots, check_node_inputs, validate_edges,
}
use ling_xi_agent.Validation.References.{is_gate_spec, validate_recursive_references}
use ling_xi_agent.Validation.Params.{validate_assets}
use ling_xi_agent.Validation.Control.{is_gate, validate_control_flow}
use ling_xi_agent.Validation.Report.{
  validate_workflow, validate_subgraphs, context_of, issues_of, validate,
}
use ling_xi_agent.Validation.Passed.{no_errors, any-false, graph-order}

composite_or_controlled : (String → Option NodeSpec) → WorkflowNode → Bool
composite_or_controlled registry node =
    node.kind == composite_node_kind || elim (registry node.kind) [
      | none ↦ false
      | some spec ↦ elim spec.control [ normal ↦ false | _ ↦ true ]
    ]

gate_controlled :
    (context : ValidationContext) (node : WorkflowNode)
    → is_gate context node ≡ true
    → composite_or_controlled context.resolver node ≡ true
unfolding is_gate is_gate_spec spec_in composite_or_controlled
gate_controlled context node e = elim (Bool-cases (node.kind == composite_node_kind)) [
  | inl composite ↦ ground (arith, composite)
  | inr plain ↦ elim (Option-cases (context.resolver node.kind)) [
    | inl absent ↦ absurd (ground (arith, e, plain, absent))
    | inr (spec, found) ↦ ground (arith, e, plain, found)
  ]
]

-- If `validate` reports a workflow as valid, and the workflow does not require control flow, then
-- `execution_order` finds an order.
pub valid_workflow-order :
    (workflow : Workflow) (registry : String → Option NodeSpec)
    → (validate workflow registry).ok ≡ true
    → requires_control_flow workflow.graph registry ≡ false
    → is_some (execution_order workflow.graph) ≡ true
unfolding validate report issues_of validate_workflow validate_edges requires_control_flow
    composite_or_controlled context_of
valid_workflow-order workflow registry e plain =
    let context = context_of workflow registry in
    let none_left : count_errors (issues_of workflow registry) ≡ 0 = ground (arith, e) in
    let (e1, _) = no_errors _ (validate_recursive_references workflow) none_left in
    let (e2, _) = no_errors _ (validate_subgraphs context [] workflow.subgraphs) e1 in
    let (_, e3) =
      no_errors (validate_assets workflow) (validate_workflow workflow.graph context "" []) e2 in
    let (e4, control_passes) =
      no_errors _ (validate_control_flow workflow.graph context "" []) e3 in
    let (_, e5) = no_errors _ (validate_edges workflow.graph context "" []) e4 in
    let (e6, _) =
      no_errors _ (for_each (check_node_inputs workflow.graph context "" []) 0 workflow.graph.nodes)
        e5 in
    let (edges_pass, _) =
      no_errors (check_edges context workflow.graph.nodes "" [] 0 workflow.graph.edges)
        (check_slots "" (count_slots workflow.graph.edges [])) e6 in
    let gateless =
      any-false (composite_or_controlled registry) (is_gate context) workflow.graph.nodes
        (gate_controlled context) (ground (arith, plain)) in
    let (order, found) =
      graph-order workflow.graph context gateless "" [] edges_pass control_passes in
    rw found refl

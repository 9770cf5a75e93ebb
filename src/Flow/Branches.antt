-- ===== src/Flow/Branches.antt =====
-- crates/lingxi-runtime/src/control_flow.rs: a loop whose second iteration takes a branch that the first one
-- did not take.
use ling_xi_agent.Prelude.{
  String, Bool, true, false, Option, none, some, List, [], ◌∷◌, ◌≡◌, refl, ◌==◌, lookup, insert,
  remove, if◌then◌else◌,
}
use ling_xi_agent.Protocol.Json.{null, number, pos_int}
use ling_xi_agent.Workflow.Ports.{
  NodeSpec, PortSpec, any_type, ControlKind, normal, loop_gate, find_port, input_port,
}
use ling_xi_agent.Workflow.Model.{
  Workflow, composite_specs, WorkflowNode, Edge, control_edge, position,
}
use ling_xi_agent.Flow.State.{Values, new}
use ling_xi_agent.Flow.Nodes.{produced}
use ling_xi_agent.Flow.Run.{Readings, Turns, done, turn, run, start_with, execute}
use ling_xi_agent.Flow.State.{
  new, drop_text, drop_index, bump, spec_of, role, incoming, outgoing, deadline, emit,
}
use ling_xi_agent.Flow.Ready.{scan_edge, scan_edges, decide, evaluate_node, evaluate}
use ling_xi_agent.Flow.Edges.{
  seed_of, consume_edge, consume_edges, consume_seeds, consume_inputs, deactivate_edge_with,
  deactivate_edges_with, mark_skipped, skip_node_within, skip_node, deactivate_edge,
  deactivate_outgoing, deliver, withhold, propagate_edges, propagate_outputs, mark_failed,
  fail_started,
}
use ling_xi_agent.Flow.Gate.{
  whole_float, positive_integer, gate_budget, trigger_of, fail_gate, tell_finished,
  fail_gate_timeout, enter_iteration, on_start, on_next, on_stop, on_trigger, handle_gate,
}
use ling_xi_agent.Flow.Nodes.{
  outcome_of, count_activation, finish_node, fail_here, cancel_node, settle_outcome, run_started,
  run_node,
}
use ling_xi_agent.Flow.Composite.{
  put_seed, seed_targets, seeds_for, subgraph_outputs, settle_composite, with_inner_events,
  run_subgraph, run_composite,
}
use ling_xi_agent.Flow.Run.{
  each_node, prepare, enqueue_node, enqueue_ready, settle_node, settle_unreached, loop_expired,
  fail_loop_timeout, expire, activate, visit, take_next, step, start_with, after_step, run, finish,
  execute,
}
use ling_xi_agent.Flow.Run.{Engine, setting_of, completed}

abbrev trigger : String → PortSpec
trigger name = record {
  name = name;
  data_type = any_type;
  required = false;
  control = true;
  group = none;
}

abbrev spec : String → List PortSpec → ControlKind → NodeSpec
spec kind inputs control = record {
  kind = kind;
  inputs = inputs;
  outputs = [];
  params = [];
  capabilities = [];
  control = control;
}

abbrev kinds : String → Option NodeSpec
kinds kind =
    if kind == "source"
    then some (spec kind [] normal)
    else if kind == "gate"
    then some (spec kind (trigger "start" ∷ trigger "next" ∷ trigger "stop" ∷ []) loop_gate)
    else some (spec kind (trigger "go" ∷ []) normal)

abbrev node : String → String → Values → Bool → WorkflowNode
node id kind params enabled = record {
  id = id;
  kind = kind;
  position = record { x = 0; y = 0 };
  params = params;
  enabled = enabled;
  subgraph_id = none;
}

abbrev edge : String → String → String → String → String → Edge
edge id source source_port target target_port = record {
  id = id;
  source = source;
  source_port = source_port;
  target = target;
  target_port = target_port;
  kind = control_edge;
}

abbrev engine : Engine
engine = record { registry = kinds; has_executor = λ _. true; authorize = λ _ _. none }

abbrev workflow : Workflow
workflow = record {
  id = "w";
  graph = record {
    schema_version = "1.2";
    nodes =
        node "first" "source" [] true
        ∷ node "gate" "gate"
            (("maxIterations", number (pos_int 5)) ∷ ("timeoutMs", number (pos_int 1000)) ∷ []) true
        ∷ node "choice" "work" [] true
        ∷ node "again" "work" [] true
        ∷ node "last" "work" [] true
        ∷ [];
    edges =
        edge "e1" "first" "out" "gate" "start"
        ∷ edge "e2" "gate" "continue" "choice" "go"
        ∷ edge "e3" "choice" "again" "again" "go"
        ∷ edge "e4" "choice" "last" "last" "go"
        ∷ edge "e5" "again" "out" "gate" "next"
        ∷ edge "e6" "last" "out" "gate" "stop"
        ∷ [];
  };
  subgraphs = [];
  assets = [];
}

abbrev reading : Values → Readings
reading outputs = record {
  is_cancelled = false;
  is_resumed = true;
  now = 10;
  gate_now = 10;
  attempt = record { is_cancelled = false; returned_at = 10; returned = produced outputs };
  cancelled_inside = false;
}

-- "choice" takes the branch "again" in the first iteration, and "last" in the second one.
abbrev turns : Turns
turns =
    let earlier = reading (("again", null) ∷ ("out", null) ∷ []) in
    let later = reading (("last", null) ∷ []) in
    turn earlier done (
      turn earlier done (
        turn earlier done
          (turn earlier done (turn earlier done (turn later done (turn later done done))))))

-- The node "last" is skipped in the first iteration, and does not run in the second one, which reaches
-- it. The run ends as completed, in the loop.
reopened_branch_test :
    execute turns engine workflow
    ≡ some (record { status = completed; failed_nodes = []; skipped_nodes = "last" ∷ [] })
unfolding new drop_text drop_index bump spec_of role incoming outgoing deadline emit scan_edge
    scan_edges decide evaluate_node evaluate seed_of consume_edge consume_edges consume_seeds
    consume_inputs deactivate_edge_with deactivate_edges_with mark_skipped skip_node_within
    skip_node deactivate_edge deactivate_outgoing deliver withhold propagate_edges propagate_outputs
    mark_failed fail_started whole_float positive_integer gate_budget trigger_of fail_gate
    tell_finished fail_gate_timeout enter_iteration on_start on_next on_stop on_trigger handle_gate
    outcome_of count_activation finish_node fail_here cancel_node settle_outcome run_started
    run_node put_seed seed_targets seeds_for subgraph_outputs settle_composite with_inner_events
    run_subgraph run_composite each_node prepare enqueue_node enqueue_ready settle_node
    settle_unreached loop_expired fail_loop_timeout expire activate visit take_next step start_with
    after_step run finish execute find_port input_port position lookup setting_of composite_specs
    insert remove
reopened_branch_test = refl

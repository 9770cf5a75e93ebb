-- ===== src/Flow/Examples.antt =====
-- crates/lingxi-runtime/src/control_flow.rs: a loop of two iterations that does not stop, run turn by
-- turn.
use ling_xi_agent.Prelude.{
  ℕ, suc, zero, String, Bool, true, false, Option, none, some, List, [], ◌∷◌, ◌≡◌, refl, ◌==◌, ◌||◌,
  ltb, lookup, insert, remove, if◌then◌else◌,
}
use ling_xi_agent.Protocol.Json.{null, number, pos_int}
use ling_xi_agent.Workflow.Ports.{
  NodeSpec, PortSpec, any_type, ControlKind, normal, loop_gate, find_port, input_port,
}
use ling_xi_agent.Workflow.Model.{
  Workflow, composite_specs, WorkflowNode, Edge, control_edge, position,
}
use ling_xi_agent.Flow.State.{Setting, Scheduler, LoopState, Values, new, mem, at}
use ling_xi_agent.Flow.Nodes.{produced}
use ling_xi_agent.Flow.Run.{Readings, Turns, done, turn, run, start_with, execute, failed}
use ling_xi_agent.Flow.State.{
  new, drop_text, drop_index, bump, spec_of, role, incoming, outgoing, deadline, emit,
}
use ling_xi_agent.Flow.Ready.{scan_edge, scan_edges, decide, evaluate_node, evaluate}
use ling_xi_agent.Flow.Edges.{
  seed_of, consume_edge, consume_edges, consume_seeds, consume_inputs, deactivate_edge_with,
  deactivate_edges_with, mark_skipped, skip_node_within, skip_node, deactivate_edge,
  deactivate_outgoing, deliver, withhold, propagate_edges, propagate_outputs, mark_failed,
  fail_started,
}
use ling_xi_agent.Flow.Gate.{
  whole_float, positive_integer, gate_budget, trigger_of, fail_gate, tell_finished,
  fail_gate_timeout, enter_iteration, on_start, on_next, on_stop, on_trigger, handle_gate,
}
use ling_xi_agent.Flow.Nodes.{
  outcome_of, count_activation, finish_node, fail_here, cancel_node, settle_outcome, run_started,
  run_node,
}
use ling_xi_agent.Flow.Composite.{
  put_seed, seed_targets, seeds_for, subgraph_outputs, settle_composite, with_inner_events,
  run_subgraph, run_composite,
}
use ling_xi_agent.Flow.Run.{
  each_node, prepare, enqueue_node, enqueue_ready, settle_node, settle_unreached, loop_expired,
  fail_loop_timeout, expire, activate, visit, take_next, step, start_with, after_step, run, finish,
  execute,
}
use ling_xi_agent.Flow.Run.{Engine, setting_of}
use ling_xi_agent.Flow.Invariants.{IsWithinBudget, loop_bounded}
use ling_xi_agent.Flow.Settled.{settled_stays, disabled_never_runs}
use ling_xi_agent.Flow.Ended.{ended_settles}
use ling_xi_agent.Flow.Termination.{skip_node_unbounded}

abbrev trigger : String → PortSpec
trigger name = record {
  name = name;
  data_type = any_type;
  required = false;
  control = true;
  group = none;
}

abbrev spec : String → List PortSpec → ControlKind → NodeSpec
spec kind inputs control = record {
  kind = kind;
  inputs = inputs;
  outputs = [];
  params = [];
  capabilities = [];
  control = control;
}

abbrev kinds : String → Option NodeSpec
kinds kind =
    if kind == "source"
    then some (spec kind [] normal)
    else if kind == "gate"
    then some (spec kind (trigger "start" ∷ trigger "next" ∷ trigger "stop" ∷ []) loop_gate)
    else some (spec kind (trigger "go" ∷ []) normal)

abbrev node : String → String → Values → Bool → WorkflowNode
node id kind params enabled = record {
  id = id;
  kind = kind;
  position = record { x = 0; y = 0 };
  params = params;
  enabled = enabled;
  subgraph_id = none;
}

abbrev edge : String → String → String → String → String → Edge
edge id source source_port target target_port = record {
  id = id;
  source = source;
  source_port = source_port;
  target = target;
  target_port = target_port;
  kind = control_edge;
}

abbrev disabled_node : WorkflowNode
disabled_node = node "off" "work" [] false

abbrev gate_node : WorkflowNode
gate_node =
    node "gate" "gate"
      (("maxIterations", number (pos_int 2)) ∷ ("timeoutMs", number (pos_int 1000)) ∷ []) true

abbrev engine : Engine
engine = record { registry = kinds; has_executor = λ _. true; authorize = λ _ _. none }

abbrev workflow : Workflow
workflow = record {
  id = "w";
  graph = record {
    schema_version = "1.2";
    nodes =
        node "first" "source" [] true ∷ gate_node ∷ node "work" "work" [] true ∷ disabled_node ∷ [];
    edges =
        edge "e1" "first" "out" "gate" "start"
        ∷ edge "e2" "gate" "continue" "work" "go"
        ∷ edge "e3" "work" "out" "gate" "next"
        ∷ [];
  };
  subgraphs = [];
  assets = [];
}

abbrev looping : Setting
unfolding setting_of composite_specs
looping = setting_of engine workflow

abbrev reading : Readings
reading = record {
  is_cancelled = false;
  is_resumed = true;
  now = 10;
  gate_now = 10;
  attempt = record {
    is_cancelled = false;
    returned_at = 10;
    returned = produced (("out", null) ∷ []);
  };
  cancelled_inside = false;
}

abbrev turns : ℕ → Turns
turns zero = done
turns (suc n) = turn reading done (turns n)

abbrev two_iterations : LoopState
two_iterations = record { gate = 1; iteration = 2; deadline = 1010 }

-- The gate opens a second iteration, and fails at the third.
in_second_iteration : (start_with (run (turns 4)) looping []).0.loop_state ≡ some two_iterations
unfolding new drop_text drop_index bump spec_of role incoming outgoing deadline emit scan_edge
    scan_edges decide evaluate_node evaluate seed_of consume_edge consume_edges consume_seeds
    consume_inputs deactivate_edge_with deactivate_edges_with mark_skipped skip_node_within
    skip_node deactivate_edge deactivate_outgoing deliver withhold propagate_edges propagate_outputs
    mark_failed fail_started whole_float positive_integer gate_budget trigger_of fail_gate
    tell_finished fail_gate_timeout enter_iteration on_start on_next on_stop on_trigger handle_gate
    outcome_of count_activation finish_node fail_here cancel_node settle_outcome run_started
    run_node put_seed seed_targets seeds_for subgraph_outputs settle_composite with_inner_events
    run_subgraph run_composite each_node prepare enqueue_node enqueue_ready settle_node
    settle_unreached loop_expired fail_loop_timeout expire activate visit take_next step start_with
    after_step run finish execute find_port input_port position lookup setting_of composite_specs
    looping insert remove
in_second_iteration = refl

budget_test :
    execute (turns 6) engine workflow
    ≡ some (record { status = failed; failed_nodes = "gate" ∷ []; skipped_nodes = "off" ∷ [] })
unfolding new drop_text drop_index bump spec_of role incoming outgoing deadline emit scan_edge
    scan_edges decide evaluate_node evaluate seed_of consume_edge consume_edges consume_seeds
    consume_inputs deactivate_edge_with deactivate_edges_with mark_skipped skip_node_within
    skip_node deactivate_edge deactivate_outgoing deliver withhold propagate_edges propagate_outputs
    mark_failed fail_started whole_float positive_integer gate_budget trigger_of fail_gate
    tell_finished fail_gate_timeout enter_iteration on_start on_next on_stop on_trigger handle_gate
    outcome_of count_activation finish_node fail_here cancel_node settle_outcome run_started
    run_node put_seed seed_targets seeds_for subgraph_outputs settle_composite with_inner_events
    run_subgraph run_composite each_node prepare enqueue_node enqueue_ready settle_node
    settle_unreached loop_expired fail_loop_timeout expire activate visit take_next step start_with
    after_step run finish execute find_port input_port position lookup setting_of composite_specs
    looping insert remove
budget_test = refl

run_ends : (run (turns 8) looping (new looping [])).1 ≡ true
unfolding new drop_text drop_index bump spec_of role incoming outgoing deadline emit scan_edge
    scan_edges decide evaluate_node evaluate seed_of consume_edge consume_edges consume_seeds
    consume_inputs deactivate_edge_with deactivate_edges_with mark_skipped skip_node_within
    skip_node deactivate_edge deactivate_outgoing deliver withhold propagate_edges propagate_outputs
    mark_failed fail_started whole_float positive_integer gate_budget trigger_of fail_gate
    tell_finished fail_gate_timeout enter_iteration on_start on_next on_stop on_trigger handle_gate
    outcome_of count_activation finish_node fail_here cancel_node settle_outcome run_started
    run_node put_seed seed_targets seeds_for subgraph_outputs settle_composite with_inner_events
    run_subgraph run_composite each_node prepare enqueue_node enqueue_ready settle_node
    settle_unreached loop_expired fail_loop_timeout expire activate visit take_next step start_with
    after_step run finish execute find_port input_port position lookup setting_of composite_specs
    looping insert remove
run_ends = refl

loop_bounded_example : IsWithinBudget looping two_iterations
loop_bounded_example = loop_bounded (turns 4) looping [] two_iterations in_second_iteration

abbrev off_settled : Scheduler
unfolding new
off_settled = record (new looping []) { settled = 3 ∷ [] }

settled_stays_example :
    (mem 3 (run (turns 6) looping off_settled).0.settled ≡ true)
    × (at (run (turns 6) looping off_settled).0.activations 3 ≡ 0)
unfolding off_settled new looping setting_of
settled_stays_example = settled_stays (turns 6) looping off_settled 3 refl tt

disabled_never_runs_example :
    (mem 3 (start_with (run (turns 6)) looping []).0.settled ≡ true)
    × (at (start_with (run (turns 6)) looping []).0.activations 3 ≡ 0)
unfolding looping setting_of new
disabled_never_runs_example = disabled_never_runs (turns 6) looping [] 3 disabled_node refl refl

ended_settles_example :
    (mem 1 (run (turns 8) looping (new looping [])).0.settled
      || ltb 0 (at (run (turns 8) looping (new looping [])).0.activations 1))
    ≡ true
unfolding looping setting_of new
ended_settles_example = ended_settles (turns 8) looping (new looping []) 1 gate_node refl run_ends

skip_node_unbounded_example : skip_node looping 1 (new looping []) ≡ (
    if mem 1 (new looping []).settled
    then new looping []
    else deactivate_outgoing looping 1 (mark_skipped 1 gate_node (new looping [])))
unfolding looping setting_of new
skip_node_unbounded_example = skip_node_unbounded looping 1 gate_node (new looping []) refl

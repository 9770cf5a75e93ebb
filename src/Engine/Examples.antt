-- ===== src/Engine/Examples.antt =====
-- crates/lingxi-runtime/src/engine.rs: a node that reads the output of another.
use ling_xi_agent.Prelude.{
  ltb, if◌then◌else◌, String, true, false, none, some, List, [], ◌∷◌, ◌≡◌, refl, lookup, insert,
  contains_key,
}
use ling_xi_agent.Protocol.Json.{null, bool, string}
use ling_xi_agent.Workflow.Ports.{normal}
use ling_xi_agent.Workflow.Model.{WorkflowNode, Edge, data_edge}
use ling_xi_agent.Flow.Nodes.{Returned, produced, raised, outcome_of}
use ling_xi_agent.Flow.Run.{Engine}
use ling_xi_agent.Engine.Run.{
  Visit, nothing_yet, into, tell, fail_node, pass_over, gather, settle_visit, run_ready, attend,
  visit_node, run_nodes,
}
use ling_xi_agent.Flow.State.{bump}
use ling_xi_agent.Flow.Run.{done, completed}
use ling_xi_agent.Workflow.Model.{Graph, position}
use ling_xi_agent.Engine.Run.{requires_control_flow, summarize}
use ling_xi_agent.Engine.Order.{
  execution_order, resolve, degrees, zero_degrees, kahn, release, targets_of, lower, push,
}
use ling_xi_agent.Engine.Execute.{execute, visits_of}
use ling_xi_agent.Engine.Counts.{occ}
use ling_xi_agent.Engine.Topological.{AreForward, topological_order}
use ling_xi_agent.Prelude.{ℕ, length}
use ling_xi_agent.Engine.Nodes.{NodeContext, Primitives, fails, check_cancelled, ◌>>=◌}
use ling_xi_agent.Engine.Builtin
use ling_xi_agent.Engine.Declared.{are_declared, builtin_outputs_declared}
use ling_xi_agent.Engine.Upstream.{upstream_ran}
use ling_xi_agent.Engine.Outcomes.{has_outcome, every_node_has_outcome}

abbrev node : String → WorkflowNode
node id = record {
  id = id;
  kind = "text";
  position = record { x = 0; y = 0 };
  params = [];
  enabled = true;
  subgraph_id = none;
}

abbrev engine : Engine
engine = record {
  registry = λ kind. some (record {
    kind = kind;
    inputs = [];
    outputs = [];
    params = [];
    capabilities = [];
    control = normal;
  });
  has_executor = λ _. true;
  authorize = λ _ _. none;
}

abbrev edge : Edge
edge = record {
  id = "e";
  source = "a";
  source_port = "out";
  target = "b";
  target_port = "in";
  kind = data_edge;
}

abbrev read : Returned → Visit
read returned = record {
  is_cancelled = false;
  is_resumed = true;
  attempt = record { is_cancelled = false; returned_at = 0; returned = returned };
}

abbrev good : Visit
good = read (produced (("out", null) ∷ []))

abbrev bad : Visit
bad = read (raised "node.executor_failed")

abbrev visits : List (Visit × WorkflowNode)
visits = (good, node "a") ∷ (good, node "b") ∷ []

-- A node behind a failed node is skipped.
failing_test :
    ((run_nodes engine (edge ∷ []) ((bad, node "a") ∷ (good, node "b") ∷ []) nothing_yet).failed
      ≡ "a" ∷ [])
    × ((run_nodes engine (edge ∷ []) ((bad, node "a") ∷ (good, node "b") ∷ []) nothing_yet).skipped
        ≡ "b" ∷ [])
unfolding run_nodes visit_node attend run_ready settle_visit gather into tell fail_node pass_over
    outcome_of lookup insert
failing_test = (refl, refl)

upstream_ran_example :
    contains_key "a" (run_nodes engine (edge ∷ []) visits nothing_yet).outputs ≡ true
unfolding run_nodes visit_node attend run_ready settle_visit gather into tell fail_node pass_over
    outcome_of lookup insert
upstream_ran_example = upstream_ran engine (edge ∷ []) visits 0 edge refl refl

every_node_has_outcome_example :
    has_outcome "b" (run_nodes engine (edge ∷ []) visits nothing_yet) ≡ true
unfolding run_nodes visit_node attend run_ready settle_visit gather into tell fail_node pass_over
    outcome_of lookup insert
every_node_has_outcome_example =
    every_node_has_outcome engine (edge ∷ []) visits nothing_yet 1 good (node "b") refl refl

abbrev backwards : Graph
backwards = record { schema_version = "1.2"; nodes = node "b" ∷ node "a" ∷ []; edges = edge ∷ [] }

order_test : execution_order backwards ≡ some (1 ∷ 0 ∷ [])
unfolding execution_order resolve degrees zero_degrees kahn release targets_of lower push bump
    position
order_test = refl

execute_test :
    execute
      (λ _. true)
      (record { turns = done; visit = λ _. good; is_cancelled = false })
      engine
      (record { id = "w"; graph = backwards; subgraphs = []; assets = [] })
    ≡ some (record { status = completed; failed_nodes = []; skipped_nodes = [] })
unfolding execute requires_control_flow execution_order resolve degrees zero_degrees kahn release
    targets_of lower push bump position visits_of run_nodes visit_node attend run_ready settle_visit
    gather into tell fail_node pass_over outcome_of lookup insert summarize
execute_test = refl

topological_order_example :
    (length {A = ℕ} (1 ∷ 0 ∷ []) ≡ length backwards.nodes)
    × ((u : ℕ) → occ u (1 ∷ 0 ∷ []) ≡ (if ltb u (length backwards.nodes) then 1 else 0))
    × AreForward backwards.nodes backwards.edges (1 ∷ 0 ∷ [])
topological_order_example = topological_order backwards (1 ∷ 0 ∷ []) order_test

abbrev primitives : Primitives
primitives = record {
  as_f64 = λ _. none;
  add = λ a _. a;
  to_uppercase = λ text. text;
  display_value = λ _. "";
}

abbrev branching : NodeContext
branching = record {
  params = [];
  spec = Builtin.condition_spec primitives;
  inputs = ("condition", bool true) ∷ ("payload", string "p") ∷ [];
  is_cancelled = false;
  decision = fails "node.cancelled";
}

builtin_outputs_declared_example :
    are_declared (Builtin.condition_spec primitives) (("true", string "p") ∷ []) ≡ true
unfolding Builtin.builtin_entries check_cancelled ◌>>=◌ lookup insert
builtin_outputs_declared_example =
    builtin_outputs_declared primitives 8
      (Builtin.condition_spec primitives, Builtin.condition_node primitives) branching
      (("true", string "p") ∷ []) refl refl

-- ===== src/Engine/Run.antt =====
-- crates/lingxi-runtime/src/engine.rs: `requires_control_flow`, and the loop of `execute` over the nodes
-- in a given order. What is read at a node is a function of its index.
use ling_xi_agent.Prelude.{
  ℕ, String, Bool, true, false, not, ◌||◌, Option, none, some, List, [], ◌∷◌, ◌++◌, Dict, lookup,
  insert, any, ◌==◌, if◌then◌else◌,
}
use ling_xi_agent.Protocol.Json.{Value}
use ling_xi_agent.Workflow.Ports.{NodeSpec, normal}
use ling_xi_agent.Workflow.Model.{
  WorkflowNode, Edge, Graph, composite_node_kind, data_edge, control_edge,
}
use ling_xi_agent.Flow.State.{
  Values, NodeError, Event, Happened, node_started, node_skipped, node_cancelled, node_finished,
  node_failed, has, put, keep_edges,
}
use ling_xi_agent.Flow.Gate.{unknown_kind}
use ling_xi_agent.Flow.Nodes.{
  Attempt, Outcome, result, cancelled, timed_out, produced, raised, outcome_of, refusal,
  missing_input, executor_failed,
}
use ling_xi_agent.Flow.Run.{Engine, RunStatus, RunSummary, completed, cancelled}

unfoldable pub requires_control_flow : Graph → (String → Option NodeSpec) → Bool
requires_control_flow graph registry =
    any (λ edge. elim edge.kind [ data_edge ↦ false | control_edge ↦ true ]) graph.edges
    || any
        (λ node. node.kind == composite_node_kind || elim (registry node.kind) [
          | none ↦ false
          | some spec ↦ elim spec.control [ normal ↦ false | _ ↦ true ]
        ])
        graph.nodes

-- what the loop reads at a node
pub record Visit : Type 0 where
  pub is_cancelled : Bool
  pub is_resumed : Bool  -- what `wait_if_paused` returns
  pub attempt : Attempt

-- the local variables of the loop
pub record Progress : Type 0 where
  pub outputs : Dict Values
  pub failed : List String
  pub skipped : List String
  pub unavailable : List String
  pub is_cancelled : Bool
  pub events : List Event

abbrev pub nothing_yet : Progress
nothing_yet = record {
  outputs = [];
  failed = [];
  skipped = [];
  unavailable = [];
  is_cancelled = false;
  events = [];
}

-- the edges into a node, by its id
unfoldable pub into : List Edge → String → List Edge
into edges id = keep_edges (λ edge. edge.target == id) edges

unfoldable pub tell : WorkflowNode → ℕ → Happened → Progress → Progress
tell node activation what s = record s {
  events =
      s.events
      ++ record {
        scope = [];
        node_id = node.id;
        activation = activation;
        iteration = none;
        what = what;
      }
        ∷ [];
}

unfoldable pub fail_node : WorkflowNode → NodeError → Progress → Progress
unfolding tell
fail_node node error s =
    let told = tell node 1 (node_failed error) s in
    record told { failed = told.failed ++ node.id ∷ []; unavailable = put node.id told.unavailable }

unfoldable pub pass_over : WorkflowNode → Progress → Progress
unfolding tell
pass_over node s =
    let told = tell node 0 node_skipped s in
    record told {
      skipped = told.skipped ++ node.id ∷ [];
      unavailable = put node.id told.unavailable;
    }

-- the value that an edge carries
abbrev pub carried : Dict Values → Edge → Option Value
carried outputs edge = elim (lookup edge.source outputs) [
  | none ↦ none
  | some values ↦ lookup edge.source_port values
]

-- the inputs of a node, unless an edge has no value
unfoldable pub gather : Dict Values → List Edge → Values → Option Values
gather outputs [] inputs = some inputs
gather outputs (edge ∷ rest) inputs = elim (carried outputs edge) [
  | none ↦ none
  | some value ↦ gather outputs rest (insert edge.target_port value inputs)
]

abbrev pub is_blocked : List Edge → Progress → Bool
is_blocked edges s = any (λ edge. has edge.source s.unavailable) edges

-- The Booleans below say whether the loop goes on.
unfoldable pub settle_visit : WorkflowNode → Outcome → Progress → Progress × Bool
unfolding tell fail_node
settle_visit node outcome s = elim outcome [
  | cancelled ↦
      let told = tell node 1 node_cancelled s in
      (record told { unavailable = put node.id told.unavailable; is_cancelled = true }, false)
  | timed_out ↦ (s, true)
  | result (produced outputs) ↦
      let told = tell node 1 (node_finished outputs) s in
      (record told { outputs = insert node.id outputs told.outputs }, true)
  | result (raised error) ↦ (fail_node node error s, true)
]

module _ (engine : Engine) (edges : List Edge) where
  -- a node whose predecessors all have outputs
  unfoldable pub run_ready : Visit → WorkflowNode → NodeSpec → Progress → Progress × Bool
  unfolding tell gather fail_node outcome_of settle_visit into
  run_ready r node spec before =
      let s = tell node 1 node_started before in
      elim (gather s.outputs (into edges node.id) []) [
        | none ↦ (fail_node node missing_input s, true)
        | some _ ↦ elim (refusal (engine.authorize node) spec.capabilities) [
          | some error ↦ (fail_node node error s, true)
          | none ↦ elim (engine.has_executor node.kind) [
            | false ↦ (fail_node node executor_failed s, true)
            | true ↦ settle_visit node (outcome_of none r.attempt) s
          ]
        ]
      ]

  unfoldable pub attend : Visit → WorkflowNode → Progress → Progress × Bool
  unfolding run_ready fail_node pass_over into
  attend r node s = elim (engine.registry node.kind) [
    | none ↦ (fail_node node unknown_kind s, true)
    | some spec ↦ elim node.enabled [
      | false ↦ (pass_over node s, true)
      | true ↦ elim (is_blocked (into edges node.id) s) [
        | true ↦ (pass_over node s, true)
        | false ↦ run_ready r node spec s
      ]
    ]
  ]

  unfoldable pub visit_node : Visit → WorkflowNode → Progress → Progress × Bool
  unfolding attend
  visit_node r node s = elim (r.is_cancelled || not r.is_resumed) [
    | true ↦ (record s { is_cancelled = true }, false)
    | false ↦ attend r node s
  ]

  -- the rest of the loop, unless it stops at a node
  abbrev pub goes_on_with : (Progress → Progress) → Progress × Bool → Progress
  goes_on_with rest (s, true) = rest s
  goes_on_with rest (s, false) = s

  -- the nodes in their order, each with what is read at it
  unfoldable pub run_nodes : List (Visit × WorkflowNode) → Progress → Progress
  unfolding visit_node
  run_nodes [] s = s
  run_nodes ((r, node) ∷ rest) s = goes_on_with (run_nodes rest) (visit_node r node s)

-- The summary of the loop; `is_cancelled` is the reading of the run's control behind it.
unfoldable pub summarize : Bool → Progress → RunSummary
summarize is_cancelled s = record {
  status =
      if s.is_cancelled || is_cancelled
      then RunStatus.cancelled
      else elim s.failed [ [] ↦ completed | _ ∷ _ ↦ RunStatus.failed ];
  failed_nodes = s.failed;
  skipped_nodes = s.skipped;
}

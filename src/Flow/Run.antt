-- ===== src/Flow/Run.antt =====
-- crates/lingxi-runtime/src/control_flow.rs: the loop of the scheduler, and its result. What a run reads
-- from outside, turn by turn, is data: the run's control, the clock, and what executors return.
use ling_xi_agent.Prelude.{
  ℕ, suc, String, Bool, true, false, not, ◌||◌, Option, none, some, List, [], ◌∷◌, ◌++◌, leb, ltb,
  nat_eq, get_elem?, ◌==◌, if◌then◌else◌,
}
use ling_xi_agent.Workflow.Ports.{NodeSpec}
use ling_xi_agent.Workflow.Model.{WorkflowNode, Workflow, composite_node_kind, composite_specs}
use ling_xi_agent.Flow.State.{
  Instant, NodeError, Setting, Scheduler, Seeds, LoopState, wait, go, blocked, new, mem, at, bump,
  role, deadline, drop_index,
}
use ling_xi_agent.Flow.Ready.{evaluate}
use ling_xi_agent.Flow.Edges.{consume_inputs, skip_node, is_gate}
use ling_xi_agent.Flow.Gate.{handle_gate, fail_gate_timeout}
use ling_xi_agent.Flow.Nodes.{Attempt, Next, goes_on, ends, starves, run_node}
use ling_xi_agent.Flow.Composite.{run_composite}

-- what one turn of the loop reads
pub record Readings : Type 0 where
  pub is_cancelled : Bool  -- before the turn
  pub is_resumed : Bool  -- what `wait_if_paused` returns
  pub now : Instant  -- the clock of `loop_expired`
  pub gate_now : Instant  -- the clock in `handle_gate`
  pub attempt : Attempt
  pub cancelled_inside : Bool  -- after the run of a subgraph

-- the turns of a run, each with the turns of the subgraph that it runs
pub data Turns : Type 0 where
  done : Turns
  turn : Readings → Turns → Turns → Turns

abbrev pub is_enabled : WorkflowNode → Bool
is_enabled node = node.enabled

-- a function of the index for each node in turn
unfoldable pub each_node :
    (ℕ → WorkflowNode → Scheduler → Scheduler) → ℕ → List WorkflowNode → Scheduler → Scheduler
each_node visit index [] s = s
each_node visit index (node ∷ rest) s = each_node visit (suc index) rest (visit index node s)

abbrev pub prepare_node : Setting → ℕ → WorkflowNode → Scheduler → Scheduler
prepare_node f index node s = elim node.enabled [ true ↦ s | false ↦ skip_node f index s ]

unfoldable pub prepare : Setting → Scheduler → Scheduler
unfolding each_node skip_node
prepare f s = each_node (prepare_node f) 0 f.graph.nodes s

-- a ready node is queued, and a node that cannot run any more is skipped
unfoldable pub enqueue_node : Setting → ℕ → WorkflowNode → Scheduler → Scheduler
unfolding evaluate skip_node
enqueue_node f index node s = elim (mem index s.settled || mem index s.queued) [
  | true ↦ s
  | false ↦ elim (evaluate f s index) [
    | go ↦ record s { queue = s.queue ++ index ∷ []; queued = index ∷ s.queued }
    | blocked ↦ elim (nat_eq (at s.activations index) 0) [ true ↦ skip_node f index s | false ↦ s ]
    | wait ↦ s
  ]
]

unfoldable pub enqueue_ready : Setting → Scheduler → Scheduler
unfolding each_node enqueue_node
enqueue_ready f s = each_node (enqueue_node f) 0 f.graph.nodes s

unfoldable pub settle_node : Setting → ℕ → WorkflowNode → Scheduler → Scheduler
unfolding skip_node
settle_node f index node s = elim (mem index s.settled || ltb 0 (at s.activations index)) [
  | true ↦ s
  | false ↦ skip_node f index s
]

unfoldable pub settle_unreached : Setting → Scheduler → Scheduler
unfolding each_node settle_node
settle_unreached f s = each_node (settle_node f) 0 f.graph.nodes s

unfoldable pub loop_expired : Setting → Instant → Scheduler → Bool
unfolding deadline
loop_expired f now s = elim (deadline f s) [ none ↦ false | some last ↦ leb last now ]

unfoldable pub fail_loop_timeout : Setting → LoopState → Scheduler → Scheduler
unfolding bump fail_gate_timeout
fail_loop_timeout f state s =
    let counted = record s { activations = bump state.gate s.activations } in
    elim (get_elem? f.graph.nodes state.gate) [
      | none ↦ s
      | some node ↦
          fail_gate_timeout f state.gate node (at counted.activations state.gate) state.iteration
            counted
    ]

-- at the deadline of the loop, or of the composite node around this graph
unfoldable pub expire : Setting → Scheduler → Scheduler
unfolding fail_loop_timeout
expire f s = elim s.loop_state [
  | some state ↦ fail_loop_timeout f state s
  | none ↦ record s { timed_out = true }
]

module _ (f : Setting) (run : Setting → Seeds → Scheduler × Bool) (r : Readings) where
  abbrev pub next_of : Scheduler × Bool → Scheduler × Next
  next_of (s, keep_going) = (s, if keep_going then goes_on else ends)

  -- a node that is ready
  unfoldable pub activate : ℕ → WorkflowNode → Scheduler → Scheduler × Next
  unfolding consume_inputs role handle_gate run_composite run_node
  activate index node before =
      let (s, inputs) = consume_inputs f index node before in
      elim (is_gate (role f node)) [
        | true ↦ next_of (handle_gate f index node r.gate_now inputs s)
        | false ↦ elim (node.kind == composite_node_kind) [
          | true ↦ run_composite f index node run r.cancelled_inside inputs s
          | false ↦ run_node f index node r.attempt inputs s
        ]
      ]

  -- the node at the head of the queue, once it is taken off
  unfoldable pub visit : ℕ → Scheduler → Scheduler × Next
  unfolding evaluate skip_node activate
  visit index s = elim (mem index s.settled) [
    | true ↦ (s, goes_on)
    | false ↦ elim (evaluate f s index) [
      | blocked ↦ (skip_node f index s, goes_on)
      | wait ↦ (s, goes_on)
      | go ↦ elim (get_elem? f.graph.nodes index) [
        | none ↦ (s, goes_on)
        | some node ↦ activate index node s
      ]
    ]
  ]

  unfoldable pub take_next : Scheduler → Scheduler × Next
  unfolding visit drop_index
  take_next s = elim s.queue [
    | [] ↦ (s, ends)
    | index ∷ waiting ↦
        visit index (record s { queue = waiting; queued = drop_index index s.queued })
  ]

  unfoldable pub step : Scheduler → Scheduler × Next
  unfolding loop_expired expire enqueue_ready take_next
  step s = elim (r.is_cancelled || not r.is_resumed) [
    | true ↦ (record s { cancelled = true }, ends)
    | false ↦ elim (loop_expired f r.now s) [
      | true ↦ (expire f s, ends)
      | false ↦ take_next (enqueue_ready f s)
    ]
  ]

-- `new`, `prepare` and `run`
unfoldable pub start_with :
    (Setting → Scheduler → Scheduler × Bool) → Setting → Seeds → Scheduler × Bool
unfolding new prepare
start_with run f seeds = run f (prepare f (new f seeds))

-- what follows a turn: the rest of the run, the end of the loop, or nothing
unfoldable pub after_step :
    (Setting → Scheduler → Scheduler × Bool) → Setting → Scheduler × Next → Scheduler × Bool
unfolding settle_unreached
after_step continue f (s, goes_on) = continue f s
after_step continue f (s, ends) = (settle_unreached f s, true)
after_step continue f (s, starves) = (s, false)

-- The Boolean says whether the loop has ended within the turns.
unfoldable pub run : Turns → Setting → Scheduler → Scheduler × Bool
unfolding step start_with after_step
run done f s = (s, false)
run (turn r inside rest) f s = after_step (run rest) f (step f (start_with (run inside)) r s)

pub data RunStatus : Type 0 where
  completed failed cancelled interrupted : RunStatus

pub record RunSummary : Type 0 where
  pub status : RunStatus
  pub failed_nodes : List String
  pub skipped_nodes : List String

unfoldable pub finish : Scheduler → RunSummary
finish s = record {
  status = if s.cancelled then cancelled else elim s.failed [ [] ↦ completed | _ ∷ _ ↦ failed ];
  failed_nodes = s.failed;
  skipped_nodes = s.skipped;
}

-- the engine: the kinds of nodes and their executors, and the policy on capabilities
pub record Engine : Type 0 where
  pub registry : String → Option NodeSpec
  pub has_executor : String → Bool
  pub authorize : WorkflowNode → String → Option NodeError

unfoldable pub setting_of : Engine → Workflow → Setting
unfolding composite_specs
setting_of engine workflow = record {
  graph = workflow.graph;
  subgraphs = workflow.subgraphs;
  composite_specs = composite_specs workflow.subgraphs;
  registry = engine.registry;
  has_executor = engine.has_executor;
  authorize = engine.authorize;
  parent_deadline = none;
}

unfoldable pub execute : Turns → Engine → Workflow → Option RunSummary
unfolding start_with run finish setting_of
execute turns engine workflow =
    let (s, ended) = start_with (run turns) (setting_of engine workflow) [] in
    if ended then some (finish s) else none

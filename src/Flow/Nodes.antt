-- ===== src/Flow/Nodes.antt =====
-- crates/lingxi-runtime/src/control_flow.rs: `run_node`, one activation of a node by its executor.
use ling_xi_agent.Prelude.{
  ℕ, String, Bool, true, false, not, ◌||◌, ◌&&◌, Option, none, some, List, [], ◌∷◌, insert,
  contains_key, leb, if◌then◌else◌,
}
use ling_xi_agent.Workflow.Ports.{NodeSpec, PortSpec}
use ling_xi_agent.Workflow.Model.{WorkflowNode}
use ling_xi_agent.Flow.State.{
  Instant, Setting, Scheduler, Values, NodeError, node_started, node_finished, node_cancelled, at,
  bump, spec_of, incoming, deadline, emit,
}
use ling_xi_agent.Flow.Edges.{propagate_outputs, fail_started}
use ling_xi_agent.Flow.Gate.{unknown_kind, loop_timeout}

abbrev pub missing_input : NodeError
missing_input = "node.missing_input"

abbrev pub executor_failed : NodeError
executor_failed = "node.executor_failed"

-- a `Result` of an executor
pub data Returned : Type 0 where
  produced : Values → Returned
  raised : NodeError → Returned

-- What comes of one call of an executor: whether the run is cancelled first, and else the time at
-- which the executor returns, with what it returns.
pub record Attempt : Type 0 where
  pub is_cancelled : Bool
  pub returned_at : Instant
  pub returned : Returned

pub data Outcome : Type 0 where
  result : Returned → Outcome
  cancelled timed_out : Outcome

-- the `select!`, which prefers a cancellation to the deadline, and the deadline to the result
unfoldable pub outcome_of : Option Instant → Attempt → Outcome
outcome_of limit attempt = if attempt.is_cancelled then cancelled else elim limit [
  | none ↦ result attempt.returned
  | some last ↦ if leb last attempt.returned_at then timed_out else result attempt.returned
]

-- whether the run goes on, ends, or waits for a reading that is not there
pub data Next : Type 0 where
  goes_on ends starves : Next

-- a required input, other than a trigger, that has no value
abbrev pub lacks_input : Values → List PortSpec → Bool
lacks_input inputs [] = false
lacks_input inputs (port ∷ rest) =
    (port.required && (not port.control && not (contains_key port.name inputs)))
    || lacks_input inputs rest

-- the error of the first capability that the policy refuses
abbrev pub refusal : (String → Option NodeError) → List String → Option NodeError
refusal authorize [] = none
refusal authorize (name ∷ rest) = elim (authorize name) [
  | some error ↦ some error
  | none ↦ refusal authorize rest
]

-- what `run_node` and `run_composite` count before anything else
unfoldable pub count_activation : Setting → ℕ → Scheduler → Scheduler
unfolding bump
count_activation f index s = record s {
  activations = bump index s.activations;
  fired_sources = elim (incoming f index) [
    | [] ↦ index ∷ s.fired_sources
    | _ ∷ _ ↦ s.fired_sources
  ];
}

module _ (f : Setting) (index : ℕ) (node : WorkflowNode) where
  -- the node's outputs are told, kept, and sent along its edges
  unfoldable pub finish_node : ℕ → Values → Scheduler → Scheduler
  unfolding emit propagate_outputs
  finish_node activation outputs s =
      let told = emit activation node s.current_iteration (node_finished outputs) s in
      propagate_outputs f index node outputs
        (record told { latest_outputs = insert node.id outputs told.latest_outputs })

  unfoldable pub fail_here : ℕ → NodeError → Scheduler → Scheduler
  unfolding fail_started
  fail_here activation error s = fail_started f index node activation s.current_iteration error s

  unfoldable pub cancel_node : ℕ → Scheduler → Scheduler
  unfolding emit
  cancel_node activation s = record (emit activation node s.current_iteration node_cancelled s) {
    cancelled = true;
  }

  unfoldable pub settle_outcome : ℕ → Outcome → Scheduler → Scheduler × Next
  unfolding finish_node fail_here cancel_node
  settle_outcome activation outcome s = elim outcome [
    | cancelled ↦ (cancel_node activation s, ends)
    | timed_out ↦ (record (fail_here activation loop_timeout s) { loop_state = none }, ends)
    | result (produced outputs) ↦ (finish_node activation outputs s, goes_on)
    | result (raised error) ↦ (fail_here activation error s, goes_on)
  ]

  -- the checks of a node that has started, and the call of its executor
  unfoldable pub run_started : NodeSpec → Attempt → Values → ℕ → Scheduler → Scheduler × Next
  unfolding deadline outcome_of settle_outcome
  run_started spec attempt inputs activation s = elim (lacks_input inputs spec.inputs) [
    | true ↦ (fail_here activation missing_input s, goes_on)
    | false ↦ elim (refusal (f.authorize node) spec.capabilities) [
      | some error ↦ (fail_here activation error s, goes_on)
      | none ↦ elim (f.has_executor node.kind) [
        | false ↦ (fail_here activation executor_failed s, goes_on)
        | true ↦ settle_outcome activation (outcome_of (deadline f s) attempt) s
      ]
    ]
  ]

  unfoldable pub run_node : Attempt → Values → Scheduler → Scheduler × Next
  unfolding count_activation spec_of emit run_started
  run_node attempt inputs before =
      let s = count_activation f index before in
      let activation = at s.activations index in
      elim (spec_of f node) [
        | none ↦ (fail_here activation unknown_kind s, goes_on)
        | some spec ↦
            run_started spec attempt inputs activation
              (emit activation node s.current_iteration node_started s)
      ]

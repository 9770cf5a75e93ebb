-- ===== src/Flow/Core.antt =====
-- An abstract state machine for the scheduler of crates/lingxi-runtime/src/control_flow.rs. A core is
-- what decides how often a node runs and how a run ends; the values on the edges and the queue are
-- forgotten.
use ling_xi_agent.Prelude.{
  ℕ, String, Bool, true, false, Option, none, some, List, ◌∷◌, ◌≡◌, ◌+◌, ltb, get_elem?,
  if◌then◌else◌,
}
use ling_xi_agent.Workflow.Model.{WorkflowNode}
use ling_xi_agent.Flow.State.{
  Instant, Setting, Scheduler, NodeError, LoopState, mem, push_new, bump, role,
}
use ling_xi_agent.Flow.Edges.{is_gate}
use ling_xi_agent.Flow.Gate.{gate_budget, next_iteration}

pub record Core : Type 0 where
  pub settled : List ℕ
  pub activations : List ℕ
  pub failed : List String
  pub first_failure : Option NodeError
  pub cancelled : Bool
  pub timed_out : Bool
  pub loop_state : Option LoopState

abbrev pub core : Scheduler → Core
core s = record {
  settled = s.settled;
  activations = s.activations;
  failed = s.failed;
  first_failure = s.first_failure;
  cancelled = s.cancelled;
  timed_out = s.timed_out;
  loop_state = s.loop_state;
}

abbrev pub first_of : Option NodeError → NodeError → Option NodeError
first_of first error = elim first [ none ↦ some error | some e ↦ some e ]

pub data Step (f : Setting) : Core → Core → Type 0 where
  -- a node that is not settled is skipped
  skips :
      (c : Core) (index : ℕ) (node : WorkflowNode)
      → get_elem? f.graph.nodes index ≡ some node
      → mem index c.settled ≡ false
      → Step f c (record c { settled = index ∷ c.settled })
  -- a node that is not settled is activated
  activates :
      (c : Core) (index : ℕ) (node : WorkflowNode)
      → get_elem? f.graph.nodes index ≡ some node
      → mem index c.settled ≡ false
      → Step f c (record c { activations = bump index c.activations })
  -- the gate of the loop is activated once more, to fail at the deadline
  expires :
      (c : Core) (state : LoopState)
      → c.loop_state ≡ some state
      → Step f c (record c { activations = bump state.gate c.activations })
  fails :
      (c : Core) (index : ℕ) (node : WorkflowNode) (error : NodeError)
      → get_elem? f.graph.nodes index ≡ some node
      → Step f c (record c {
        first_failure = first_of c.first_failure error;
        settled = if mem index c.settled then c.settled else index ∷ c.settled;
        failed = push_new node.id c.failed;
      })
  -- a loop gate that is not settled, with a valid budget, opens a loop
  begins :
      (c : Core) (index : ℕ) (node : WorkflowNode) (max_iterations timeout_ms : ℕ) (now : Instant)
      → get_elem? f.graph.nodes index ≡ some node
      → mem index c.settled ≡ false
      → is_gate (role f node) ≡ true
      → gate_budget node ≡ some (max_iterations, timeout_ms)
      → c.loop_state ≡ none
      → Step f c (record c {
        loop_state = some (record { gate = index; iteration = 1; deadline = now + timeout_ms });
      })
  -- A loop gate takes the loop to its next iteration, within its own budget. It need not be the gate
  -- that opened the loop.
  advances :
      (c : Core) (state : LoopState) (index : ℕ) (node : WorkflowNode)
      (max_iterations timeout_ms : ℕ)
      → get_elem? f.graph.nodes index ≡ some node
      → is_gate (role f node) ≡ true
      → gate_budget node ≡ some (max_iterations, timeout_ms)
      → c.loop_state ≡ some state
      → ltb max_iterations (next_iteration state) ≡ false
      → Step f c
          (record c { loop_state = some (record state { iteration = next_iteration state }) })
  leaves : (c : Core) → Step f c (record c { loop_state = none })
  cancels : (c : Core) → Step f c (record c { cancelled = true })
  -- the deadline of the composite node around the graph passes
  times_out :
      (c : Core) (last : Instant)
      → c.loop_state ≡ none
      → f.parent_deadline ≡ some last
      → Step f c (record c { timed_out = true })

pub data Reach (f : Setting) (c : Core) : Core → Type 0 where
  here : Reach f c c
  one_more : {d e : Core} → Reach f c d → Step f d e → Reach f c e

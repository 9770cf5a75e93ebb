-- ===== src/Flow/Refinement/Inputs.antt =====
-- crates/lingxi-runtime/src/control_flow.rs: reading a node's inputs leaves the core of the state.
use ling_xi_agent.Prelude.{ℕ, List, [], ◌∷◌, ◌≡◌, refl, ◌∙◌, inl, inr}
use ling_xi_agent.Workflow.Model.{WorkflowNode, Edge}
use ling_xi_agent.Flow.State.{Setting, Scheduler, Values, incoming}
use ling_xi_agent.Flow.Edges.{consume_edge, consume_edges, consume_inputs}
use ling_xi_agent.Flow.Core.{core}
use ling_xi_agent.Flow.Refinement.Edges.{EdgeKind-cases}

core-consume_edge :
    (edge : Edge) (found : Scheduler × Values) → core (consume_edge edge found).0 ≡ core found.0
unfolding consume_edge
core-consume_edge edge (s, inputs) = elim (EdgeKind-cases edge.kind) [
  | inl e ↦ rw (consume_edge, e) refl
  | inr e ↦ rw (consume_edge, e) refl
]

core-consume_edges :
    (edges : List Edge) (found : Scheduler × Values)
    → core (consume_edges edges found).0 ≡ core found.0
unfolding consume_edges
core-consume_edges [] found = refl
core-consume_edges (edge ∷ rest) found =
    core-consume_edges rest (consume_edge edge found) ∙ core-consume_edge edge found

pub core-consume_inputs :
    (f : Setting) (index : ℕ) (node : WorkflowNode) (s : Scheduler)
    → core (consume_inputs f index node s).0 ≡ core s
unfolding consume_inputs
core-consume_inputs f index node s = core-consume_edges (incoming f index) (s, [])

-- ===== src/Flow/Ended.antt =====
-- crates/lingxi-runtime/src/control_flow.rs: the nodes of a run that has ended.
use ling_xi_agent.Prelude.{
  ℕ, Bool, true, ◌||◌, Bool-cases, some, ◌≡◌, refl, inl, inr, arith, get_elem?, ltb,
}
use ling_xi_agent.Workflow.Model.{WorkflowNode}
use ling_xi_agent.Flow.State.{Setting, Scheduler, mem, at}
use ling_xi_agent.Flow.Nodes.{Next, goes_on, ends, starves}
use ling_xi_agent.Flow.Run.{
  Turns, done, turn, run, step, after_step, start_with, settle_node, settle_unreached,
}
use ling_xi_agent.Flow.Core.{Core, core}
use ling_xi_agent.Flow.Refinement.Edges.{IsKeptBySkips, skip_node-keeps}
use ling_xi_agent.Flow.Refinement.Each.{each_node-reaches}
use ling_xi_agent.Flow.Settled.{skip_node-settles}

abbrev IsAccounted : ℕ → Core → Type 0
IsAccounted i c = (mem i c.settled || ltb 0 (at c.activations i)) ≡ true

IsAccounted-kept : (f : Setting) (i : ℕ) → IsKeptBySkips f (IsAccounted i)
IsAccounted-kept f i c index node e free p = ground (arith, p)

settle_unreached-settles :
    (f : Setting) (s : Scheduler) (i : ℕ) (node : WorkflowNode)
    → get_elem? f.graph.nodes i ≡ some node
    → IsAccounted i (core (settle_unreached f s))
unfolding settle_unreached
settle_unreached-settles f s i node e =
    each_node-reaches (settle_node f) (λ t. IsAccounted i (core t)) kept i node f.graph.nodes s e
      made
  where
    kept :
        (index : ℕ) (other_node : WorkflowNode) (t : Scheduler)
        → IsAccounted i (core t)
        → IsAccounted i (core (settle_node f index other_node t))
    kept index other_node t p =
        elim (Bool-cases (mem index t.settled || ltb 0 (at t.activations index))) [
          | inl on ↦ rw (settle_node, on) p
          | inr off ↦
              rw (settle_node, off)
                (skip_node-keeps f (IsAccounted i) (IsAccounted-kept f i) index t p)
        ]

    made : (t : Scheduler) → IsAccounted i (core (settle_node f i node t))
    made t = elim (Bool-cases (mem i t.settled || ltb 0 (at t.activations i))) [
      | inl on ↦ rw (settle_node, on) on
      | inr off ↦ rw (settle_node, off) (rw (skip_node-settles f i node t e) refl)
    ]

after_step-settles :
    (f : Setting) (i : ℕ) (node : WorkflowNode)
    → get_elem? f.graph.nodes i ≡ some node
    → (continue : Setting → Scheduler → Scheduler × Bool)
    → ((t : Scheduler) → (continue f t).1 ≡ true → IsAccounted i (core (continue f t).0))
    → (result : Scheduler × Next) → (after_step continue f result).1 ≡ true
    → IsAccounted i (core (after_step continue f result).0)
unfolding after_step
after_step-settles f i node e continue h (t, goes_on) ended = h t ended
after_step-settles f i node e continue h (t, ends) ended = settle_unreached-settles f t i node e
after_step-settles f i node e continue h (t, starves) ended = absurd (ground (arith, ended))

-- When the loop of a run has ended, every node of the graph is settled or was activated.
pub ended_settles :
    (turns : Turns) (f : Setting) (s : Scheduler) (i : ℕ) (node : WorkflowNode)
    → get_elem? f.graph.nodes i ≡ some node
    → (run turns f s).1 ≡ true
    → (mem i (run turns f s).0.settled || ltb 0 (at (run turns f s).0.activations i)) ≡ true
unfolding run
ended_settles done f s i node e = λ ended. absurd (ground (arith, ended))
ended_settles (turn r inside rest) f s i node e =
    after_step-settles f i node e (run rest) (λ t. ended_settles rest f t i node e)
      (step f (start_with (run inside)) r s)

-- ===== src/Flow/Invariants.antt =====
-- crates/lingxi-runtime/src/control_flow.rs: invariants of the abstract machine, and so of every run.
use ling_xi_agent.Prelude.{ℕ, ◌≤◌, true, Option, none, some, ◌≡◌, subst, arith, get_elem?}
use ling_xi_agent.Workflow.Model.{WorkflowNode}
use ling_xi_agent.Flow.State.{Setting, Seeds, LoopState, new, role}
use ling_xi_agent.Flow.Edges.{is_gate}
use ling_xi_agent.Flow.Gate.{gate_budget}
use ling_xi_agent.Flow.Budget.{gate_budget-positive}
use ling_xi_agent.Flow.Run.{Turns, run, start_with}
use ling_xi_agent.Flow.Core.{
  Core, Step, skips, activates, expires, fails, begins, advances, leaves, cancels, times_out, Reach,
  here, one_more,
}
use ling_xi_agent.Flow.Refinement.Run.{run_refines}

-- an invariant of the steps is one of all the states that they reach
pub Reach-preserves :
    {f : Setting} {c d : Core} (P : Core → Type 0)
    → ((a b : Core) → Step f a b → P a → P b)
    → Reach f c d
    → P c
    → P d
Reach-preserves P h here p = p
Reach-preserves P h (one_more earlier last) p = h _ _ last (Reach-preserves P h earlier p)

-- The node is a loop gate of the graph, with a valid budget of so many iterations.
abbrev pub IsGateWithin : Setting → ℕ → ℕ → Type 0
IsGateWithin f index max_iterations =
    (node : WorkflowNode) × (timeout_ms : ℕ) × (get_elem? f.graph.nodes index ≡ some node)
    × (is_gate (role f node) ≡ true)
    × (gate_budget node ≡ some (max_iterations, timeout_ms))

-- The loop was opened by a loop gate with a valid budget, and its iteration is within the budget of
-- such a gate, which need not be the same.
abbrev pub IsWithinBudget : Setting → LoopState → Type 0
IsWithinBudget f state =
    ((own : ℕ) × IsGateWithin f state.gate own)
    × ((index : ℕ) × (max_iterations : ℕ) × IsGateWithin f index max_iterations
        × (state.iteration ≤ max_iterations))

abbrev LoopIsBudgeted : Setting → Option LoopState → Type 0
LoopIsBudgeted f none = Unit {0}
LoopIsBudgeted f (some state) = IsWithinBudget f state

Step-LoopIsBudgeted :
    (f : Setting) (c d : Core)
    → Step f c d
    → LoopIsBudgeted f c.loop_state
    → LoopIsBudgeted f d.loop_state
Step-LoopIsBudgeted f _ _ (skips _ _ _ _ _) p = p
Step-LoopIsBudgeted f _ _ (activates _ _ _ _ _) p = p
Step-LoopIsBudgeted f _ _ (expires _ _ _) p = p
Step-LoopIsBudgeted f _ _ (fails _ _ _ _ _) p = p
Step-LoopIsBudgeted f _ _ (begins c index node max timeout now e free gate budget idle) p =
    let within : IsGateWithin f index max = (node, timeout, e, gate, budget) in
    ((max, within), (index, max, within, (gate_budget-positive node max timeout budget).0))
Step-LoopIsBudgeted f _ _ (advances c state index node max timeout e gate budget looping within) p =
    let opened : IsWithinBudget f state = subst (LoopIsBudgeted f) looping p in
    (opened.0, (index, max, (node, timeout, e, gate, budget), ground (arith, within)))
Step-LoopIsBudgeted f _ _ (leaves _) p = tt
Step-LoopIsBudgeted f _ _ (cancels _) p = p
Step-LoopIsBudgeted f _ _ (times_out _ _ _ _) p = p

-- Whenever a run is in a loop, however many turns are made: the gate that the loop is recorded for is
-- a node of the graph that is a loop gate by its specification and has a valid budget, and the number
-- of the iteration is at most the `maxIterations` of such a gate. The two gates need not be the same,
-- since another gate may advance the loop.
pub loop_bounded :
    (turns : Turns) (f : Setting) (seeds : Seeds) (state : LoopState)
    → (start_with (run turns) f seeds).0.loop_state ≡ some state
    → IsWithinBudget f state
unfolding new
loop_bounded turns f seeds state e = subst (LoopIsBudgeted f) e (
    Reach-preserves (λ c. LoopIsBudgeted f c.loop_state) (Step-LoopIsBudgeted f)
      (run_refines turns f seeds) tt)

-- ===== src/Engine/Execute.antt =====
-- crates/lingxi-runtime/src/engine.rs: `execute`, which chooses between the two ways to run a workflow.
use ling_xi_agent.Prelude.{
  ℕ, Bool, not, Option, none, some, List, [], ◌∷◌, get_elem?, if◌then◌else◌,
}
use ling_xi_agent.Workflow.Model.{WorkflowNode, Workflow}
use ling_xi_agent.Flow.Run.{Turns, Engine, RunSummary, failed}
use ling_xi_agent.Flow.Run
use ling_xi_agent.Engine.Run.{Visit, nothing_yet, requires_control_flow, run_nodes, summarize}
use ling_xi_agent.Engine.Order.{execution_order}

-- what a run reads: the turns of the scheduler, or what is read at the node of an index and behind the
-- last node
pub record Reads : Type 0 where
  pub turns : Turns
  pub visit : ℕ → Visit
  pub is_cancelled : Bool

-- the summary of a run that does not start
abbrev pub rejected : RunSummary
rejected = record { status = failed; failed_nodes = []; skipped_nodes = [] }

-- The nodes in the order. An index without a node, on which the code would panic, is passed over.
unfoldable pub visits_of : Reads → List WorkflowNode → List ℕ → List (Visit × WorkflowNode)
visits_of reads nodes [] = []
visits_of reads nodes (index ∷ rest) = elim (get_elem? nodes index) [
  | none ↦ visits_of reads nodes rest
  | some node ↦ (reads.visit index, node) ∷ visits_of reads nodes rest
]

-- There is no summary when the turns end before the run does. `is_valid` is the report of `validate`.
unfoldable pub execute : (Workflow → Bool) → Reads → Engine → Workflow → Option RunSummary
unfolding Run.execute requires_control_flow execution_order visits_of run_nodes summarize
execute is_valid reads engine workflow =
    if not (is_valid workflow)
    then some rejected
    else if requires_control_flow workflow.graph engine.registry
    then Run.execute reads.turns engine workflow
    else elim (execution_order workflow.graph) [
      | none ↦ some rejected
      | some order ↦ some (
          summarize reads.is_cancelled (
            run_nodes engine workflow.graph.edges (visits_of reads workflow.graph.nodes order)
              nothing_yet))
    ]

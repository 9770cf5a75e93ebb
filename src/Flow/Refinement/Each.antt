-- ===== src/Flow/Refinement/Each.antt =====
-- crates/lingxi-runtime/src/control_flow.rs: the loops over all nodes.
use ling_xi_agent.Prelude.{ℕ, zero, suc, ◌+◌, List, [], ◌∷◌, some, ◌≡◌, subst, arith, get_elem?}
use ling_xi_agent.Workflow.Model.{WorkflowNode}
use ling_xi_agent.Flow.State.{Scheduler}
use ling_xi_agent.Flow.Run.{each_node}

module _ (visit : ℕ → WorkflowNode → Scheduler → Scheduler) (P : Scheduler → Type 0)
    (kept : (index : ℕ) (node : WorkflowNode) (s : Scheduler) → P s → P (visit index node s)) where
  pub each_node-keeps :
      (index : ℕ) (nodes : List WorkflowNode) (s : Scheduler)
      → P s
      → P (each_node visit index nodes s)
  unfolding each_node
  each_node-keeps index [] s p = p
  each_node-keeps index (node ∷ rest) s p = each_node-keeps (suc index) rest _ (kept index node s p)

  -- what the visit of one node brings about holds at the end
  each_node-establishes :
      (k : ℕ) (node : WorkflowNode) (index : ℕ) (nodes : List WorkflowNode) (s : Scheduler)
      → get_elem? nodes k ≡ some node
      → ((s : Scheduler) → P (visit (index + k) node s))
      → P (each_node visit index nodes s)
  unfolding each_node
  each_node-establishes k node index [] s e h = absurd (ground (arith, e))
  each_node-establishes zero node index (first ∷ rest) s e h = each_node-keeps (suc index) rest _ (
      subst (λ (n : WorkflowNode). P (visit index n s)) (ground (arith, e))
        (subst (λ (i : ℕ). P (visit i node s)) (omega arith) (h s)))
  each_node-establishes (suc k) node index (first ∷ rest) s e h =
      each_node-establishes k node (suc index) rest _ e
        (λ t. subst (λ (i : ℕ). P (visit i node t)) (omega arith) (h t))

  pub each_node-reaches :
      (k : ℕ) (node : WorkflowNode) (nodes : List WorkflowNode) (s : Scheduler)
      → get_elem? nodes k ≡ some node
      → ((s : Scheduler) → P (visit k node s))
      → P (each_node visit 0 nodes s)
  each_node-reaches k node nodes s e h =
      each_node-establishes k node 0 nodes s e
        (λ t. subst (λ (i : ℕ). P (visit i node t)) (omega arith) (h t))

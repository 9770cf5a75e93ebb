-- ===== src/Flow/Termination.antt =====
-- crates/lingxi-runtime/src/control_flow.rs: the bound on the nodes that `skip_node` skips one after
-- another is enough.
use ling_xi_agent.Prelude.{
  ℕ, zero, suc, ◌+◌, ◌≤◌, ◌<◌, false, Bool-cases, Option-cases, some, List, [], ◌∷◌, ◌≡◌, refl,
  subst, ap, ◌∙◌, inl, inr, arith, get_elem?, length, if◌then◌else◌,
}
use ling_xi_agent.Workflow.Model.{WorkflowNode, Edge, position}
use ling_xi_agent.Flow.State.{Setting, Scheduler, mem, has, put, outgoing}
use ling_xi_agent.Flow.Edges.{
  is_dead, deactivate_edge_with, deactivate_edges_with, mark_skipped, skip_node_within, skip_node,
  deactivate_outgoing,
}
use ling_xi_agent.Flow.Core.{Core, core}
use ling_xi_agent.Flow.Refinement.Edges.{
  IsKeptBySkips, deactivate_edge_with-keeps, skip_node_within-keeps,
}

-- the number of nodes, from an index on, that are not settled
free : ℕ → List WorkflowNode → List ℕ → ℕ
free k [] settled = 0
free k (node ∷ rest) settled = (if mem k settled then 0 else 1) + free (suc k) rest settled

free-length :
    (k : ℕ) (nodes : List WorkflowNode) (settled : List ℕ) → free k nodes settled ≤ length nodes
unfolding free
free-length k [] settled = omega arith
free-length k (node ∷ rest) settled = ground (arith, free-length (suc k) rest settled)

free-cons :
    (k : ℕ) (nodes : List WorkflowNode) (i : ℕ) (settled : List ℕ)
    → free k nodes (i ∷ settled) ≤ free k nodes settled
unfolding free
free-cons k [] i settled = omega arith
free-cons k (node ∷ rest) i settled = ground (arith, free-cons (suc k) rest i settled)

free-present :
    (k : ℕ) (nodes : List WorkflowNode) (j i : ℕ) (node : WorkflowNode) (settled : List ℕ)
    → i ≡ k + j
    → get_elem? nodes j ≡ some node
    → mem i settled ≡ false
    → free k nodes (i ∷ settled) < free k nodes settled
unfolding free
free-present k [] j i node settled at_i e out = absurd (ground (arith, e))
free-present k (first ∷ rest) zero i node settled at_i e out =
    let here : i ≡ k = omega (arith, at_i) in
    ground (
      arith,
      here,
      out,
      subst (λ (n : ℕ). mem n settled ≡ false) here out,
      free-cons (suc k) rest i settled,
    )
free-present k (first ∷ rest) (suc j) i node settled at_i e out =
    let later = free-present (suc k) rest j i node settled (omega (arith, at_i)) e out in
    ground (arith, later, out)

module _ (f : Setting) where
  abbrev IsBelow : ℕ → Core → Type 0
  IsBelow n c = free 0 f.graph.nodes c.settled ≤ n

  IsBelow-kept : (n : ℕ) → IsKeptBySkips f (IsBelow n)
  IsBelow-kept n c index node e out h = omega (arith, h, free-cons 0 f.graph.nodes index c.settled)

  module _ (n : ℕ) (skip other : ℕ → Scheduler → Scheduler)
      (same : (i : ℕ) (s : Scheduler) → IsBelow n (core s) → skip i s ≡ other i s)
      (kept : (i : ℕ) (s : Scheduler) → IsBelow n (core s) → IsBelow n (core (skip i s))) where
    deactivate_edge_with-same :
        (edge : Edge) (s : Scheduler)
        → IsBelow n (core s)
        → deactivate_edge_with skip f edge s ≡ deactivate_edge_with other f edge s
    unfolding deactivate_edge_with
    deactivate_edge_with-same edge s h = elim (Bool-cases (has edge.id s.inactive)) [
      | inl e ↦ rw (deactivate_edge_with, e) refl
      | inr e ↦
          rw (deactivate_edge_with, e)
            (elim (Option-cases (position edge.target f.graph.nodes)) [
              | inl e1 ↦ rw e1 refl
              | inr (target, e1) ↦ rw e1 (
                  let marked = record s { inactive = put edge.id s.inactive } in
                  elim (Bool-cases (is_dead f target marked)) [
                    | inl dead ↦ rw dead (same target marked h)
                    | inr dead ↦ rw dead refl
                  ])
            ])
    ]

    deactivate_edges_with-same :
        (edges : List Edge) (s : Scheduler)
        → IsBelow n (core s)
        → deactivate_edges_with skip f edges s ≡ deactivate_edges_with other f edges s
    unfolding deactivate_edges_with
    deactivate_edges_with-same [] s h = refl
    deactivate_edges_with-same (edge ∷ rest) s h =
        deactivate_edges_with-same rest _
          (deactivate_edge_with-keeps f (IsBelow n) (IsBelow-kept n) skip kept edge s h)
        ∙ ap (deactivate_edges_with other f rest) (deactivate_edge_with-same edge s h)

  mark_skipped-IsBelow :
      (n i : ℕ) (node : WorkflowNode) (s : Scheduler)
      → get_elem? f.graph.nodes i ≡ some node
      → mem i s.settled ≡ false
      → IsBelow (suc n) (core s)
      → IsBelow n (core (mark_skipped i node s))
  unfolding mark_skipped
  mark_skipped-IsBelow n i node s e out h =
      omega (arith, h, free-present 0 f.graph.nodes i i node s.settled (omega arith) e out)

  one_more_is_enough :
      (n i : ℕ) (s : Scheduler)
      → IsBelow n (core s)
      → skip_node_within n f i s ≡ skip_node_within (suc n) f i s
  unfolding skip_node_within
  one_more_is_enough zero i s h = elim (Bool-cases (mem i s.settled)) [
    | inl e ↦ rw (skip_node_within, e) refl
    | inr e ↦ elim (Option-cases (get_elem? f.graph.nodes i)) [
      | inl e1 ↦ rw (skip_node_within, e, e1) refl
      | inr (node, e1) ↦
          absurd
            (omega (arith, h, free-present 0 f.graph.nodes i i node s.settled (omega arith) e1 e))
    ]
  ]
  one_more_is_enough (suc n) i s h = elim (Bool-cases (mem i s.settled)) [
    | inl e ↦ rw (skip_node_within, e) refl
    | inr e ↦ elim (Option-cases (get_elem? f.graph.nodes i)) [
      | inl e1 ↦ rw (skip_node_within, e, e1) refl
      | inr (node, e1) ↦
          rw (skip_node_within, e, e1)
            (deactivate_edges_with-same n (skip_node_within n f) (skip_node_within (suc n) f)
              (one_more_is_enough n) (skip_node_within-keeps f (IsBelow n) (IsBelow-kept n) n)
              (outgoing f i) (mark_skipped i node s) (mark_skipped-IsBelow n i node s e1 e h))
    ]
  ]

-- `skip_node` is the recursion of the code without any bound: a node that is not settled yet is marked
-- as skipped, and then its outgoing edges are deactivated, which skips further nodes in the same way.
pub skip_node_unbounded :
    (f : Setting) (i : ℕ) (node : WorkflowNode) (s : Scheduler)
    → get_elem? f.graph.nodes i ≡ some node
    → skip_node f i s
      ≡ (if mem i s.settled then s else deactivate_outgoing f i (mark_skipped i node s))
unfolding skip_node deactivate_outgoing
skip_node_unbounded f i node s e =
    one_more_is_enough f (length f.graph.nodes) i s (free-length 0 f.graph.nodes s.settled)
    ∙ elim (Bool-cases (mem i s.settled)) [
      | inl inside ↦ rw (skip_node_within, inside) refl
      | inr out ↦ rw (skip_node_within, out, e) refl
    ]

-- ===== src/Flow/Refinement/Edges.antt =====
-- crates/lingxi-runtime/src/control_flow.rs: skipping and propagation, as steps of the abstract machine.
use ling_xi_agent.Prelude.{
  ℕ, zero, suc, Bool, true, false, Bool-cases, Option, Option-cases, some, List, [], ◌∷◌, ◌≡◌, refl,
  ◌⊎◌, inl, inr, length, get_elem?, lookup,
}
use ling_xi_agent.Workflow.Model.{WorkflowNode, Edge, EdgeKind, data_edge, control_edge, position}
use ling_xi_agent.Flow.State.{Setting, Scheduler, Values, NodeError, has, put, mem, outgoing}
use ling_xi_agent.Flow.Edges.{
  is_dead, deactivate_edge_with, deactivate_edges_with, mark_skipped, skip_node_within, skip_node,
  deactivate_edge, deactivate_outgoing, deliver, withhold, propagate_edges, propagate_outputs,
  mark_failed, fail_started,
}
use ling_xi_agent.Flow.Core.{Core, core, Reach, skips, fails, one_more}

pub EdgeKind-cases : (kind : EdgeKind) → (kind ≡ data_edge) ⊎ (kind ≡ control_edge)
EdgeKind-cases data_edge = inl refl
EdgeKind-cases control_edge = inr refl

-- a predicate that skipping a node keeps
abbrev pub IsKeptBySkips : Setting → (Core → Type 0) → Type 0
IsKeptBySkips f P =
    (c : Core) (index : ℕ) (node : WorkflowNode)
    → get_elem? f.graph.nodes index ≡ some node
    → mem index c.settled ≡ false
    → P c
    → P (record c { settled = index ∷ c.settled })

module _ (f : Setting) (P : Core → Type 0) (kept : IsKeptBySkips f P) where
  pub deactivate_edge_with-keeps :
      (skip : ℕ → Scheduler → Scheduler)
      → ((i : ℕ) (s : Scheduler) → P (core s) → P (core (skip i s)))
      → (edge : Edge) (s : Scheduler) → P (core s)
      → P (core (deactivate_edge_with skip f edge s))
  unfolding deactivate_edge_with
  deactivate_edge_with-keeps skip h edge s r = elim (Bool-cases (has edge.id s.inactive)) [
    | inl e ↦ rw (deactivate_edge_with, e) r
    | inr e ↦
        rw (deactivate_edge_with, e)
          (elim (Option-cases (position edge.target f.graph.nodes)) [
            | inl none_e ↦ rw none_e r
            | inr (target, e1) ↦ rw e1 (
                let marked = record s { inactive = put edge.id s.inactive } in
                elim (Bool-cases (is_dead f target marked)) [
                  | inl dead ↦ rw dead (h target marked r)
                  | inr dead ↦ rw dead r
                ])
          ])
  ]

  pub deactivate_edges_with-keeps :
      (skip : ℕ → Scheduler → Scheduler)
      → ((i : ℕ) (s : Scheduler) → P (core s) → P (core (skip i s)))
      → (edges : List Edge) (s : Scheduler) → P (core s)
      → P (core (deactivate_edges_with skip f edges s))
  unfolding deactivate_edges_with
  deactivate_edges_with-keeps skip h [] s r = r
  deactivate_edges_with-keeps skip h (edge ∷ rest) s r =
      deactivate_edges_with-keeps skip h rest _ (deactivate_edge_with-keeps skip h edge s r)

  mark_skipped-keeps :
      (index : ℕ) (node : WorkflowNode) (s : Scheduler)
      → get_elem? f.graph.nodes index ≡ some node
      → mem index s.settled ≡ false
      → P (core s)
      → P (core (mark_skipped index node s))
  unfolding mark_skipped
  mark_skipped-keeps index node s e free p = kept (core s) index node e free p

  pub skip_node_within-keeps :
      (fuel index : ℕ) (s : Scheduler) → P (core s) → P (core (skip_node_within fuel f index s))
  unfolding skip_node_within
  skip_node_within-keeps zero index s r = r
  skip_node_within-keeps (suc fuel) index s r = elim (Bool-cases (mem index s.settled)) [
    | inl e ↦ rw (skip_node_within, e) r
    | inr e ↦
        rw (skip_node_within, e)
          (elim (Option-cases (get_elem? f.graph.nodes index)) [
            | inl e1 ↦ rw e1 r
            | inr (node, e1) ↦ rw e1 (
                deactivate_edges_with-keeps (skip_node_within fuel f) (skip_node_within-keeps fuel)
                  (outgoing f index) (mark_skipped index node s)
                  (mark_skipped-keeps index node s e1 e r))
          ])
  ]

  pub skip_node-keeps : (index : ℕ) (s : Scheduler) → P (core s) → P (core (skip_node f index s))
  unfolding skip_node
  skip_node-keeps = skip_node_within-keeps (length f.graph.nodes)

  deactivate_outgoing-keeps :
      (index : ℕ) (s : Scheduler) → P (core s) → P (core (deactivate_outgoing f index s))
  unfolding deactivate_outgoing
  deactivate_outgoing-keeps index =
      deactivate_edges_with-keeps (skip_node f) skip_node-keeps (outgoing f index)

  withhold-keeps :
      (defer_absent : Bool) (edge : Edge) (s : Scheduler)
      → P (core s)
      → P (core (withhold f defer_absent edge s))
  unfolding withhold deactivate_edge
  withhold-keeps true edge s r = r
  withhold-keeps false edge s r = elim (EdgeKind-cases edge.kind) [
    | inl e ↦ rw (withhold, e) r
    | inr e ↦ rw (withhold, e) (deactivate_edge_with-keeps (skip_node f) skip_node-keeps edge s r)
  ]

  propagate_edges-keeps :
      (defer_absent : Bool) (outputs : Values) (edges : List Edge) (s : Scheduler)
      → P (core s)
      → P (core (propagate_edges f defer_absent outputs edges s))
  unfolding propagate_edges deliver
  propagate_edges-keeps defer_absent outputs [] s r = r
  propagate_edges-keeps defer_absent outputs (edge ∷ rest) s r =
      propagate_edges-keeps defer_absent outputs rest _
        (elim (Option-cases (lookup edge.source_port outputs)) [
          | inl e ↦ rw e (withhold-keeps defer_absent edge s r)
          | inr (value, e) ↦ rw e r
        ])

  propagate_outputs-keeps :
      (index : ℕ) (node : WorkflowNode) (outputs : Values) (s : Scheduler)
      → P (core s)
      → P (core (propagate_outputs f index node outputs s))
  unfolding propagate_outputs
  propagate_outputs-keeps index node outputs = propagate_edges-keeps _ outputs (outgoing f index)

module _ (f : Setting) (c : Core) where
  abbrev pub IsReached : Scheduler → Type 0
  IsReached s = Reach f c (core s)

  reached_by_skips : IsKeptBySkips f (Reach f c)
  reached_by_skips d index node e free r = one_more r (skips d index node e free)

  pub skip_node-IsReached :
      (index : ℕ) (s : Scheduler) → IsReached s → IsReached (skip_node f index s)
  skip_node-IsReached = skip_node-keeps f (Reach f c) reached_by_skips

  pub propagate_outputs-IsReached :
      (index : ℕ) (node : WorkflowNode) (outputs : Values) (s : Scheduler)
      → IsReached s
      → IsReached (propagate_outputs f index node outputs s)
  propagate_outputs-IsReached = propagate_outputs-keeps f (Reach f c) reached_by_skips

  pub fail_started-IsReached :
      (index : ℕ) (node : WorkflowNode) (activation : ℕ) (iteration : Option ℕ) (error : NodeError)
      (s : Scheduler)
      → get_elem? f.graph.nodes index ≡ some node
      → IsReached s
      → IsReached (fail_started f index node activation iteration error s)
  unfolding fail_started mark_failed
  fail_started-IsReached index node activation iteration error s e r =
      deactivate_outgoing-keeps f (Reach f c) reached_by_skips index
        (mark_failed index node activation iteration error s)
        (one_more r (fails (core s) index node error e))

-- ===== src/Flow/Refinement/Nodes.antt =====
-- crates/lingxi-runtime/src/control_flow.rs: an activation of a node or of a composite node, as steps of
-- the abstract machine.
use ling_xi_agent.Prelude.{
  ℕ, Bool, false, ◌||◌, Bool-cases, Option-cases, some, [], ◌≡◌, inl, inr, get_elem?,
}
use ling_xi_agent.Workflow.Ports.{NodeSpec}
use ling_xi_agent.Workflow.Model.{WorkflowNode, Subgraph}
use ling_xi_agent.Flow.State.{
  Setting, Scheduler, Seeds, Values, NodeError, mem, at, emit, node_started, spec_of,
}
use ling_xi_agent.Flow.Nodes.{
  Attempt, Outcome, result, cancelled, timed_out, produced, raised, lacks_input, refusal,
  count_activation, finish_node, fail_here, cancel_node, settle_outcome, run_started, run_node,
}
use ling_xi_agent.Flow.Composite.{
  has_failed, lacks_subgraph_input, seeds_for, inner_setting, settle_composite, with_inner_events,
  run_subgraph, subgraph_of, run_composite,
}
use ling_xi_agent.Flow.Core.{Core, activates, cancels, leaves, one_more}
use ling_xi_agent.Flow.Refinement.Edges.{
  IsReached, propagate_outputs-IsReached, fail_started-IsReached,
}

module _ (f : Setting) (c : Core) (index : ℕ) (node : WorkflowNode)
    (present : get_elem? f.graph.nodes index ≡ some node) where
  count_activation-IsReached :
      (s : Scheduler)
      → mem index s.settled ≡ false
      → IsReached f c s
      → IsReached f c (count_activation f index s)
  unfolding count_activation
  count_activation-IsReached s free r = one_more r (activates _ index node present free)

  fail_here-IsReached :
      (activation : ℕ) (error : NodeError) (s : Scheduler)
      → IsReached f c s
      → IsReached f c (fail_here f index node activation error s)
  unfolding fail_here
  fail_here-IsReached activation error s =
      fail_started-IsReached f c index node activation _ error s present

  finish_node-IsReached :
      (activation : ℕ) (outputs : Values) (s : Scheduler)
      → IsReached f c s
      → IsReached f c (finish_node f index node activation outputs s)
  unfolding finish_node
  finish_node-IsReached activation outputs s = propagate_outputs-IsReached f c index node outputs _

  cancel_node-IsReached :
      (activation : ℕ) (s : Scheduler)
      → IsReached f c s
      → IsReached f c (cancel_node f index node activation s)
  unfolding cancel_node
  cancel_node-IsReached activation s r = one_more r (cancels _)

  settle_outcome-IsReached :
      (activation : ℕ) (outcome : Outcome) (s : Scheduler)
      → IsReached f c s
      → IsReached f c (settle_outcome f index node activation outcome s).0
  unfolding settle_outcome
  settle_outcome-IsReached activation cancelled s r = cancel_node-IsReached activation s r
  settle_outcome-IsReached activation timed_out s r =
      one_more (fail_here-IsReached activation _ s r) (leaves _)
  settle_outcome-IsReached activation (result (produced outputs)) s r =
      finish_node-IsReached activation outputs s r
  settle_outcome-IsReached activation (result (raised error)) s r =
      fail_here-IsReached activation error s r

  run_started-IsReached :
      (spec : NodeSpec) (attempt : Attempt) (inputs : Values) (activation : ℕ) (s : Scheduler)
      → IsReached f c s
      → IsReached f c (run_started f index node spec attempt inputs activation s).0
  unfolding run_started
  run_started-IsReached spec attempt inputs activation s r =
      elim (Bool-cases (lacks_input inputs spec.inputs)) [
        | inl e ↦ rw (run_started, e) (fail_here-IsReached activation _ s r)
        | inr e ↦
            rw (run_started, e)
              (elim (Option-cases (refusal (f.authorize node) spec.capabilities)) [
                | inr (error, e1) ↦ rw e1 (fail_here-IsReached activation error s r)
                | inl e1 ↦ rw e1 (elim (Bool-cases (f.has_executor node.kind)) [
                  | inr e2 ↦ rw e2 (fail_here-IsReached activation _ s r)
                  | inl e2 ↦ rw e2 (settle_outcome-IsReached activation _ s r)
                ])
              ])
      ]

  pub run_node-IsReached :
      (attempt : Attempt) (inputs : Values) (s : Scheduler)
      → mem index s.settled ≡ false
      → IsReached f c s
      → IsReached f c (run_node f index node attempt inputs s).0
  unfolding run_node
  run_node-IsReached attempt inputs s free r =
      let counted = count_activation-IsReached s free r in
      elim (Option-cases (spec_of f node)) [
        | inl e ↦ rw (run_node, e) (fail_here-IsReached _ _ _ counted)
        | inr (spec, e) ↦ rw (run_node, e) (run_started-IsReached spec attempt inputs _ _ counted)
      ]

  settle_composite-IsReached :
      (subgraph : Subgraph) (is_cancelled : Bool) (activation : ℕ) (inner s : Scheduler)
      → IsReached f c s
      → IsReached f c (settle_composite f index node subgraph is_cancelled activation inner s).0
  unfolding settle_composite
  settle_composite-IsReached subgraph is_cancelled activation inner s r =
      elim (Bool-cases (inner.cancelled || is_cancelled)) [
        | inl e ↦ rw (settle_composite, e) (cancel_node-IsReached activation s r)
        | inr e ↦
            rw (settle_composite, e)
              (elim (Bool-cases (has_failed inner)) [
                | inl e1 ↦ rw e1 (fail_here-IsReached activation _ s r)
                | inr e1 ↦ rw e1 (finish_node-IsReached activation _ s r)
              ])
      ]

  module _ (run : Setting → Seeds → Scheduler × Bool) (is_cancelled : Bool) (inputs : Values) where
    run_subgraph-IsReached :
        (subgraph : Subgraph) (activation : ℕ) (s : Scheduler)
        → IsReached f c s
        → IsReached f c (run_subgraph f index node run subgraph is_cancelled inputs activation s).0
    unfolding run_subgraph with_inner_events
    run_subgraph-IsReached subgraph activation s r =
        let inner = run (inner_setting f s subgraph) (seeds_for inputs subgraph.inputs []) in
        elim (Bool-cases inner.1) [
          | inr e ↦ rw (run_subgraph, e) r
          | inl e ↦
              rw (run_subgraph, e)
                (settle_composite-IsReached subgraph is_cancelled activation inner.0
                  (with_inner_events f index node inner.0 s) r)
        ]

    pub run_composite-IsReached :
        (s : Scheduler)
        → mem index s.settled ≡ false
        → IsReached f c s
        → IsReached f c (run_composite f index node run is_cancelled inputs s).0
    unfolding run_composite
    run_composite-IsReached s free r =
        let counted = count_activation-IsReached s free r in
        elim (Option-cases (subgraph_of f index node)) [
          | inl e ↦ rw (run_composite, e) (fail_here-IsReached _ _ _ counted)
          | inr (subgraph, e) ↦
              rw (run_composite, e)
                (elim (Bool-cases (lacks_subgraph_input inputs subgraph.inputs)) [
                  | inl e1 ↦ rw e1 (fail_here-IsReached _ _ _ counted)
                  | inr e1 ↦ rw e1 (
                      run_subgraph-IsReached subgraph
                        (at (count_activation f index s).activations index)
                        (emit (at (count_activation f index s).activations index) node
                          (count_activation f index s).current_iteration node_started
                          (count_activation f index s))
                        counted)
                ])
        ]

-- ===== src/Flow/Refinement/Gate.antt =====
-- crates/lingxi-runtime/src/control_flow.rs: the loop gate, as steps of the abstract machine.
use ling_xi_agent.Prelude.{
  ℕ, true, false, Bool-cases, Option, Option-cases, some, ◌≡◌, inl, inr, get_elem?, leb, ltb,
}
use ling_xi_agent.Protocol.Json.{Value}
use ling_xi_agent.Workflow.Model.{WorkflowNode}
use ling_xi_agent.Flow.State.{
  Instant, Setting, Scheduler, Values, NodeError, LoopState, bump, mem, spec_of, role,
}
use ling_xi_agent.Flow.Edges.{is_gate}
use ling_xi_agent.Flow.Gate.{
  Trigger, start, next, stop, gate_budget, trigger_of, next_iteration, fail_gate, tell_finished,
  fail_gate_timeout, enter_iteration, on_start, on_next, on_stop, on_trigger, handle_gate,
}
use ling_xi_agent.Flow.Core.{Core, activates, begins, advances, leaves, one_more}
use ling_xi_agent.Flow.Refinement.Edges.{
  IsReached, propagate_outputs-IsReached, fail_started-IsReached,
}

module _ (f : Setting) (c : Core) (index : ℕ) (node : WorkflowNode)
    (present : get_elem? f.graph.nodes index ≡ some node) where
  fail_gate-IsReached :
      (activation : ℕ) (iteration : Option ℕ) (error : NodeError) (s : Scheduler)
      → IsReached f c s
      → IsReached f c (fail_gate f index node activation iteration error s)
  unfolding fail_gate
  fail_gate-IsReached activation iteration error s r =
      fail_started-IsReached f c index node activation iteration error _ present r

  pub fail_gate_timeout-IsReached :
      (activation iteration : ℕ) (s : Scheduler)
      → IsReached f c s
      → IsReached f c (fail_gate_timeout f index node activation iteration s)
  unfolding fail_gate_timeout
  fail_gate_timeout-IsReached activation iteration s r =
      one_more (fail_gate-IsReached activation _ _ s r) (leaves _)

  enter_iteration-IsReached :
      (activation : ℕ) (state : LoopState) (outputs : Values) (s : Scheduler)
      → IsReached f c (record s { loop_state = some state })
      → IsReached f c (enter_iteration f index node activation state outputs s)
  unfolding enter_iteration tell_finished
  enter_iteration-IsReached activation state outputs s r =
      propagate_outputs-IsReached f c index node outputs _ r

  module _ (gate : is_gate (role f node) ≡ true) (max_iterations timeout_ms : ℕ)
      (budget : gate_budget node ≡ some (max_iterations, timeout_ms)) where
    on_start-IsReached :
        (activation : ℕ) (now : Instant) (inputs : Values) (payload : Value) (s : Scheduler)
        → mem index s.settled ≡ false
        → IsReached f c s
        → IsReached f c (on_start f index node activation now timeout_ms inputs payload s).0
    unfolding on_start
    on_start-IsReached activation now inputs payload s free r = elim (Option-cases s.loop_state) [
      | inr (_, e) ↦ rw (on_start, e) (fail_gate-IsReached activation _ _ s r)
      | inl e ↦
          rw (on_start, e)
            (enter_iteration-IsReached activation _ _ s (
              one_more r
                (begins _ index node max_iterations timeout_ms now present free gate budget e)))
    ]

    on_next-IsReached :
        (activation : ℕ) (now : Instant) (inputs : Values) (payload : Value) (s : Scheduler)
        → IsReached f c s
        → IsReached f c (on_next f index node activation now max_iterations inputs payload s).0
    unfolding on_next
    on_next-IsReached activation now inputs payload s r = elim (Option-cases s.loop_state) [
      | inl e ↦ rw (on_next, e) (fail_gate-IsReached activation _ _ s r)
      | inr (state, e) ↦
          rw (on_next, e)
            (elim (Bool-cases (leb state.deadline now)) [
              | inl e1 ↦ rw e1 (fail_gate_timeout-IsReached activation _ s r)
              | inr e1 ↦ rw e1 (elim (Bool-cases (ltb max_iterations (next_iteration state))) [
                | inl e2 ↦ rw e2 (one_more (fail_gate-IsReached activation _ _ s r) (leaves _))
                | inr e2 ↦ rw e2 (
                    enter_iteration-IsReached activation _ _ s (
                      one_more r (
                        advances _ state index node max_iterations timeout_ms present gate budget e
                          e2)))
              ])
            ])
    ]

    on_stop-IsReached :
        (activation : ℕ) (inputs : Values) (payload : Value) (s : Scheduler)
        → IsReached f c s
        → IsReached f c (on_stop f index node activation inputs payload s).0
    unfolding on_stop tell_finished
    on_stop-IsReached activation inputs payload s r =
        propagate_outputs-IsReached f c index node _ _ (one_more r (leaves _))

    on_trigger-IsReached :
        (activation : ℕ) (now : Instant) (inputs : Values) (trigger : Trigger × Value)
        (s : Scheduler)
        → mem index s.settled ≡ false
        → IsReached f c s
        → IsReached f c
            (on_trigger f index node activation now (max_iterations, timeout_ms) inputs trigger s).0
    unfolding on_trigger
    on_trigger-IsReached activation now inputs (start, payload) s free r =
        on_start-IsReached activation now inputs payload s free r
    on_trigger-IsReached activation now inputs (next, payload) s free r =
        on_next-IsReached activation now inputs payload s r
    on_trigger-IsReached activation now inputs (stop, payload) s free r =
        on_stop-IsReached activation inputs payload s r

  pub handle_gate-IsReached :
      (now : Instant) (inputs : Values) (s : Scheduler)
      → is_gate (role f node) ≡ true
      → mem index s.settled ≡ false
      → IsReached f c s
      → IsReached f c (handle_gate f index node now inputs s).0
  unfolding handle_gate
  handle_gate-IsReached now inputs before gate free r =
      let s = record before { activations = bump index before.activations } in
      let counted : IsReached f c s = one_more r (activates _ index node present free) in
      elim (Option-cases (spec_of f node)) [
        | inl e ↦
            rw (handle_gate, e) (fail_started-IsReached f c index node _ _ _ s present counted)
        | inr (spec, e) ↦
            rw (handle_gate, e)
              (elim (Option-cases (gate_budget node)) [
                | inl e1 ↦ rw e1 (fail_gate-IsReached _ _ _ s counted)
                | inr ((max_iterations, timeout_ms), e1) ↦
                    rw e1 (elim (Option-cases (trigger_of inputs)) [
                      | inl e2 ↦ rw e2 (fail_gate-IsReached _ _ _ s counted)
                      | inr (trigger, e2) ↦ rw e2 (
                          on_trigger-IsReached gate max_iterations timeout_ms e1 _ now inputs
                            trigger s free counted)
                    ])
              ])
      ]

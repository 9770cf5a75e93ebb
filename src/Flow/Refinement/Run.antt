-- ===== src/Flow/Refinement/Run.antt =====
-- crates/lingxi-runtime/src/control_flow.rs: the loop of the scheduler, as a run of the abstract machine.
use ling_xi_agent.Prelude.{
  ℕ, Bool, true, false, not, ◌||◌, Bool-cases, Option-cases, none, some, List, [], ◌∷◌, arith, ◌≡◌,
  refl, subst, ◌⊎◌, sym, inl, inr, get_elem?, nat_eq, ltb, ◌==◌,
}
use ling_xi_agent.Workflow.Model.{WorkflowNode, composite_node_kind}
use ling_xi_agent.Flow.State.{
  Instant, Setting, Scheduler, Seeds, LoopState, Ready, wait, go, blocked, new, mem, at, bump, role,
  deadline, drop_index,
}
use ling_xi_agent.Flow.Ready.{evaluate}
use ling_xi_agent.Flow.Edges.{consume_inputs, is_gate}
use ling_xi_agent.Flow.Nodes.{Next, goes_on, ends, starves}
use ling_xi_agent.Flow.Run.{
  Readings, Turns, done, turn, prepare_node, prepare, enqueue_node, enqueue_ready, settle_node,
  settle_unreached, loop_expired, fail_loop_timeout, expire, activate, visit, take_next, step,
  start_with, after_step, run,
}
use ling_xi_agent.Flow.Core.{Core, core, Reach, expires, cancels, times_out, here, one_more}
use ling_xi_agent.Flow.Refinement.Edges.{IsReached, skip_node-IsReached}
use ling_xi_agent.Flow.Refinement.Each.{each_node-keeps}
use ling_xi_agent.Flow.Refinement.Inputs.{core-consume_inputs}
use ling_xi_agent.Flow.Refinement.Gate.{fail_gate_timeout-IsReached, handle_gate-IsReached}
use ling_xi_agent.Flow.Refinement.Nodes.{run_node-IsReached, run_composite-IsReached}

Ready-cases : (ready : Ready) → (ready ≡ wait) ⊎ ((ready ≡ go) ⊎ (ready ≡ blocked))
Ready-cases wait = inl refl
Ready-cases go = inr (inl refl)
Ready-cases blocked = inr (inr refl)

List-cases : (list : List ℕ) → (list ≡ []) ⊎ ((head : ℕ) × ((tail : List ℕ) × (list ≡ head ∷ tail)))
List-cases [] = inl refl
List-cases (head ∷ tail) = inr (head, (tail, refl))

module _ (f : Setting) (c : Core) where
  prepare_node-IsReached :
      (index : ℕ) (node : WorkflowNode) (s : Scheduler)
      → IsReached f c s
      → IsReached f c (prepare_node f index node s)
  prepare_node-IsReached index node s r = elim (Bool-cases node.enabled) [
    | inl e ↦ rw (prepare_node, e) r
    | inr e ↦ rw (prepare_node, e) (skip_node-IsReached f c index s r)
  ]

  pub prepare-IsReached : (s : Scheduler) → IsReached f c s → IsReached f c (prepare f s)
  unfolding prepare
  prepare-IsReached =
      each_node-keeps (prepare_node f) (IsReached f c) prepare_node-IsReached 0 f.graph.nodes

  enqueue_node-IsReached :
      (index : ℕ) (node : WorkflowNode) (s : Scheduler)
      → IsReached f c s
      → IsReached f c (enqueue_node f index node s)
  unfolding enqueue_node
  enqueue_node-IsReached index node s r =
      elim (Bool-cases (mem index s.settled || mem index s.queued)) [
        | inl e ↦ rw (enqueue_node, e) r
        | inr e ↦
            rw (enqueue_node, e)
              (elim (Ready-cases (evaluate f s index)) [
                | inl e1 ↦ rw e1 r
                | inr (inl e1) ↦ rw e1 r
                | inr (inr e1) ↦ rw e1 (elim (Bool-cases (nat_eq (at s.activations index) 0)) [
                  | inl e2 ↦ rw e2 (skip_node-IsReached f c index s r)
                  | inr e2 ↦ rw e2 r
                ])
              ])
      ]

  enqueue_ready-IsReached : (s : Scheduler) → IsReached f c s → IsReached f c (enqueue_ready f s)
  unfolding enqueue_ready
  enqueue_ready-IsReached =
      each_node-keeps (enqueue_node f) (IsReached f c) enqueue_node-IsReached 0 f.graph.nodes

  settle_node-IsReached :
      (index : ℕ) (node : WorkflowNode) (s : Scheduler)
      → IsReached f c s
      → IsReached f c (settle_node f index node s)
  unfolding settle_node
  settle_node-IsReached index node s r =
      elim (Bool-cases (mem index s.settled || ltb 0 (at s.activations index))) [
        | inl e ↦ rw (settle_node, e) r
        | inr e ↦ rw (settle_node, e) (skip_node-IsReached f c index s r)
      ]

  settle_unreached-IsReached :
      (s : Scheduler) → IsReached f c s → IsReached f c (settle_unreached f s)
  unfolding settle_unreached
  settle_unreached-IsReached =
      each_node-keeps (settle_node f) (IsReached f c) settle_node-IsReached 0 f.graph.nodes

  fail_loop_timeout-IsReached :
      (state : LoopState) (s : Scheduler)
      → s.loop_state ≡ some state
      → IsReached f c s
      → IsReached f c (fail_loop_timeout f state s)
  unfolding fail_loop_timeout
  fail_loop_timeout-IsReached state s looping r =
      elim (Option-cases (get_elem? f.graph.nodes state.gate)) [
        | inl e ↦ rw (fail_loop_timeout, e) r
        | inr (node, e) ↦
            rw (fail_loop_timeout, e)
              (fail_gate_timeout-IsReached f c state.gate node e _ _
                (record s { activations = bump state.gate s.activations })
                (one_more r (expires (core s) state looping)))
      ]

  has_parent_deadline :
      (now : Instant) (s : Scheduler)
      → s.loop_state ≡ none
      → loop_expired f now s ≡ true
      → (last : Instant) × (f.parent_deadline ≡ some last)
  unfolding loop_expired deadline
  has_parent_deadline now s e late = elim (Option-cases f.parent_deadline) [
    | inr found ↦ found
    | inl none_e ↦ absurd (ground (arith, e, none_e, late))
  ]

  expire-IsReached :
      (now : Instant) (s : Scheduler)
      → loop_expired f now s ≡ true
      → IsReached f c s
      → IsReached f c (expire f s)
  unfolding expire
  expire-IsReached now s late r = elim (Option-cases s.loop_state) [
    | inr (state, e) ↦ rw (expire, e) (fail_loop_timeout-IsReached state s e r)
    | inl e ↦
        let (last, e1) = has_parent_deadline now s e late in
        rw (expire, e) (one_more r (times_out (core s) last e e1))
  ]

  module _ (inner : Setting → Seeds → Scheduler × Bool) (r : Readings) where
    activate-IsReached :
        (index : ℕ) (node : WorkflowNode) (s : Scheduler)
        → get_elem? f.graph.nodes index ≡ some node
        → mem index s.settled ≡ false
        → IsReached f c s
        → IsReached f c (activate f inner r index node s).0
    unfolding activate
    activate-IsReached index node s present free reached =
        let (next, inputs) = consume_inputs f index node s in
        let same : core s ≡ core next = sym (core-consume_inputs f index node s) in
        let reached_next : IsReached f c next = subst (Reach f c) same reached in
        let free_next : mem index next.settled ≡ false =
          subst (λ (d : Core). mem index d.settled ≡ false) same free in
        elim (Bool-cases (is_gate (role f node))) [
          | inl e ↦
              rw (activate, e)
                (handle_gate-IsReached f c index node present r.gate_now inputs next e free_next
                  reached_next)
          | inr e ↦
              rw (activate, e)
                (elim (Bool-cases (node.kind == composite_node_kind)) [
                  | inl e1 ↦ rw e1 (
                      run_composite-IsReached f c index node present inner r.cancelled_inside inputs
                        next free_next reached_next)
                  | inr e1 ↦ rw e1 (
                      run_node-IsReached f c index node present r.attempt inputs next free_next
                        reached_next)
                ])
        ]

    visit-IsReached :
        (index : ℕ) (s : Scheduler) → IsReached f c s → IsReached f c (visit f inner r index s).0
    unfolding visit
    visit-IsReached index s reached = elim (Bool-cases (mem index s.settled)) [
      | inl e ↦ rw (visit, e) reached
      | inr e ↦
          rw (visit, e)
            (elim (Ready-cases (evaluate f s index)) [
              | inl e1 ↦ rw e1 reached
              | inr (inr e1) ↦ rw e1 (skip_node-IsReached f c index s reached)
              | inr (inl e1) ↦ rw e1 (elim (Option-cases (get_elem? f.graph.nodes index)) [
                | inl e2 ↦ rw e2 reached
                | inr (node, e2) ↦ rw e2 (activate-IsReached index node s e2 e reached)
              ])
            ])
    ]

    take_next-IsReached :
        (s : Scheduler) → IsReached f c s → IsReached f c (take_next f inner r s).0
    unfolding take_next
    take_next-IsReached s reached = elim (List-cases s.queue) [
      | inl e ↦ rw (take_next, e) reached
      | inr (index, (waiting, e)) ↦
          rw (take_next, e)
            (visit-IsReached index
              (record s { queue = waiting; queued = drop_index index s.queued }) reached)
    ]

    step-IsReached : (s : Scheduler) → IsReached f c s → IsReached f c (step f inner r s).0
    unfolding step
    step-IsReached s reached = elim (Bool-cases (r.is_cancelled || not r.is_resumed)) [
      | inl e ↦ rw (step, e) (one_more reached (cancels (core s)))
      | inr e ↦
          rw (step, e)
            (elim (Bool-cases (loop_expired f r.now s)) [
              | inl e1 ↦ rw e1 (expire-IsReached r.now s e1 reached)
              | inr e1 ↦ rw e1 (take_next-IsReached _ (enqueue_ready-IsReached s reached))
            ])
    ]

  after_step-IsReached :
      (continue : Setting → Scheduler → Scheduler × Bool)
      → ((s : Scheduler) → IsReached f c s → IsReached f c (continue f s).0)
      → (result : Scheduler × Next) → IsReached f c result.0
      → IsReached f c (after_step continue f result).0
  unfolding after_step
  after_step-IsReached continue h (s, goes_on) reached = h s reached
  after_step-IsReached continue h (s, ends) reached = settle_unreached-IsReached s reached
  after_step-IsReached continue h (s, starves) reached = reached

  pub run-IsReached :
      (turns : Turns) (s : Scheduler) → IsReached f c s → IsReached f c (run turns f s).0
  unfolding run
  run-IsReached done s reached = reached
  run-IsReached (turn r inside rest) s reached =
      after_step-IsReached (run rest) (run-IsReached rest) _
        (step-IsReached (start_with (run inside)) r s reached)

pub run_refines :
    (turns : Turns) (f : Setting) (seeds : Seeds)
    → Reach f (core (new f seeds)) (core (start_with (run turns) f seeds).0)
unfolding start_with
run_refines turns f seeds = run-IsReached f _ turns _ (prepare-IsReached f _ (new f seeds) here)

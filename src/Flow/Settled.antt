-- ===== src/Flow/Settled.antt =====
-- crates/lingxi-runtime/src/control_flow.rs: nodes that are settled, and disabled nodes.
use ling_xi_agent.Prelude.{
  ℕ, zero, suc, ◌<◌, true, false, Bool-cases, Option, none, some, List, [], ◌∷◌, ◌≡◌, ◌≢◌, refl,
  sym, subst, ap, ◌∙◌, inl, inr, arith, get_elem?, length,
}
use ling_xi_agent.Workflow.Model.{WorkflowNode}
use ling_xi_agent.Flow.State.{
  Setting, Scheduler, Seeds, LoopState, new, mem, at, bump, outgoing, zeros,
}
use ling_xi_agent.Flow.Edges.{skip_node, skip_node_within, mark_skipped}
use ling_xi_agent.Flow.Run.{Turns, run, start_with, prepare_node, prepare}
use ling_xi_agent.Flow.Core.{
  Core, core, Step, skips, activates, expires, fails, begins, advances, leaves, cancels, times_out,
  here,
}
use ling_xi_agent.Flow.Refinement.Edges.{
  IsKeptBySkips, skip_node-keeps, skip_node_within-keeps, deactivate_edges_with-keeps,
}
use ling_xi_agent.Flow.Refinement.Each.{each_node-keeps, each_node-reaches}
use ling_xi_agent.Flow.Refinement.Run.{run-IsReached}
use ling_xi_agent.Flow.Invariants.{Reach-preserves}

at-bump : (i index : ℕ) (counts : List ℕ) → index ≢ i → at (bump index counts) i ≡ at counts i
unfolding bump
at-bump i index [] ne = refl
at-bump zero zero (n ∷ rest) ne = absurd (ne refl)
at-bump (suc i) zero (n ∷ rest) ne = refl
at-bump zero (suc index) (n ∷ rest) ne = refl
at-bump (suc i) (suc index) (n ∷ rest) ne = at-bump i index rest (λ e. ne (ap suc e))

abbrev pub IsOutside : Option LoopState → ℕ → Type 0
IsOutside none i = Unit {0}
IsOutside (some state) i = state.gate ≢ i

-- The node is settled, it has had `n` activations, and it is not the gate of the loop.
abbrev pub IsAtRest : ℕ → ℕ → Core → Type 0
IsAtRest i n c = (mem i c.settled ≡ true) × ((at c.activations i ≡ n) × IsOutside c.loop_state i)

other : (i index : ℕ) (set : List ℕ) → mem i set ≡ true → mem index set ≡ false → index ≢ i
other i index set inside outside e =
    absurd (ground (arith, inside, subst (λ (j : ℕ). mem j set ≡ false) e outside))

mem-cons : (i index : ℕ) (set : List ℕ) → mem i set ≡ true → mem i (index ∷ set) ≡ true
mem-cons i index set inside = ground (arith, inside)

mem-head : (i : ℕ) (set : List ℕ) → mem i (i ∷ set) ≡ true
mem-head i set = ground arith

IsOutside-some :
    (i : ℕ) (found : Option LoopState) (state : LoopState)
    → found ≡ some state
    → IsOutside found i
    → state.gate ≢ i
IsOutside-some i found state e outside = subst (λ o. IsOutside o i) e outside

Step-IsAtRest : (f : Setting) (i n : ℕ) (c d : Core) → Step f c d → IsAtRest i n c → IsAtRest i n d
Step-IsAtRest f i n _ _ (skips c index _ _ _) (inside, (count, outside)) =
    (mem-cons i index c.settled inside, (count, outside))
Step-IsAtRest f i n _ _ (activates c index _ _ free) (inside, (count, outside)) =
    (inside, (at-bump i index c.activations (other i index c.settled inside free) ∙ count, outside))
Step-IsAtRest f i n _ _ (expires c state looping) (inside, (count, outside)) = (
  inside,
  (at-bump i state.gate c.activations (IsOutside-some i _ state looping outside) ∙ count, outside),
)
Step-IsAtRest f i n _ _ (fails c index _ _ _) (inside, (count, outside)) =
    (ground (arith, inside), (count, outside))
Step-IsAtRest f i n _ _ (begins c index _ _ _ _ _ free _ _ _) (inside, (count, outside)) =
    (inside, (count, other i index c.settled inside free))
Step-IsAtRest f i n _ _ (advances c state _ _ _ _ _ _ _ looping _) (inside, (count, outside)) =
    (inside, (count, IsOutside-some i _ state looping outside))
Step-IsAtRest f i n _ _ (leaves _) (inside, (count, outside)) = (inside, (count, tt))
Step-IsAtRest f i n _ _ (cancels _) p = p
Step-IsAtRest f i n _ _ (times_out _ _ _ _) p = p

-- Once a node is settled (skipped, failed or disabled) and it is not the gate of the present loop, it
-- stays settled and is never activated again, whatever turns follow.
pub settled_stays :
    (turns : Turns) (f : Setting) (s : Scheduler) (i : ℕ)
    → mem i s.settled ≡ true
    → IsOutside s.loop_state i
    → (mem i (run turns f s).0.settled ≡ true)
      × (at (run turns f s).0.activations i ≡ at s.activations i)
settled_stays turns f s i inside outside =
    let p : IsAtRest i (at s.activations i) (core (run turns f s).0) =
      Reach-preserves (IsAtRest i (at s.activations i)) (Step-IsAtRest f i (at s.activations i))
        (run-IsReached f (core s) turns s here) (inside, (refl, outside)) in
    (p.0, p.1.0)

mem_kept : (f : Setting) (i : ℕ) → IsKeptBySkips f (λ c. mem i c.settled ≡ true)
mem_kept f i c index node e free inside = mem-cons i index c.settled inside

-- a node that may be skipped is settled then
pub skip_node-settles :
    (f : Setting) (i : ℕ) (node : WorkflowNode) (s : Scheduler)
    → get_elem? f.graph.nodes i ≡ some node
    → mem i (skip_node f i s).settled ≡ true
unfolding skip_node
skip_node-settles f i node s e = within (length f.graph.nodes) (some_nodes f.graph.nodes i e)
  where
    some_nodes :
        (nodes : List WorkflowNode) (k : ℕ) → get_elem? nodes k ≡ some node → 0 < length nodes
    some_nodes [] k e = absurd (ground (arith, e))
    some_nodes (first ∷ rest) k e = omega arith

    within : (fuel : ℕ) → 0 < fuel → mem i (skip_node_within fuel f i s).settled ≡ true
    within zero h = absurd (omega (arith, h))
    within (suc fuel) h = elim (Bool-cases (mem i s.settled)) [
      | inl inside ↦ rw (skip_node_within, inside) inside
      | inr free ↦
          rw (skip_node_within, free, e)
            (deactivate_edges_with-keeps f (λ c. mem i c.settled ≡ true) (mem_kept f i)
              (skip_node_within fuel f)
              (skip_node_within-keeps f (λ c. mem i c.settled ≡ true) (mem_kept f i) fuel)
              (outgoing f i) (mark_skipped i node s) (mem-head i s.settled))
    ]

abbrev IsUntouched : List ℕ → Core → Type 0
IsUntouched counts c = (c.activations ≡ counts) × (c.loop_state ≡ none)

prepare-IsUntouched :
    (f : Setting) (s : Scheduler)
    → IsUntouched s.activations (core s)
    → IsUntouched s.activations (core (prepare f s))
unfolding prepare
prepare-IsUntouched f s =
    each_node-keeps (prepare_node f) (λ t. IsUntouched s.activations (core t)) kept 0 f.graph.nodes
      s
  where
    kept :
        (index : ℕ) (node : WorkflowNode) (t : Scheduler)
        → IsUntouched s.activations (core t)
        → IsUntouched s.activations (core (prepare_node f index node t))
    kept index node t p = elim (Bool-cases node.enabled) [
      | inl e ↦ rw (prepare_node, e) p
      | inr e ↦
          rw (prepare_node, e)
            (skip_node-keeps f (IsUntouched s.activations) (λ _ _ _ _ _ q. q) index t p)
    ]

prepare-settles :
    (f : Setting) (s : Scheduler) (i : ℕ) (node : WorkflowNode)
    → get_elem? f.graph.nodes i ≡ some node
    → node.enabled ≡ false
    → mem i (prepare f s).settled ≡ true
unfolding prepare
prepare-settles f s i node e disabled =
    each_node-reaches (prepare_node f) (λ t. mem i t.settled ≡ true) kept i node f.graph.nodes s e
      (λ t. rw (prepare_node, disabled) (skip_node-settles f i node t e))
  where
    kept :
        (index : ℕ) (other_node : WorkflowNode) (t : Scheduler)
        → mem i t.settled ≡ true
        → mem i (prepare_node f index other_node t).settled ≡ true
    kept index other_node t inside = elim (Bool-cases other_node.enabled) [
      | inl on ↦ rw (prepare_node, on) inside
      | inr off ↦
          rw (prepare_node, off)
            (skip_node-keeps f (λ c. mem i c.settled ≡ true) (mem_kept f i) index t inside)
    ]

pub at-zeros : (nodes : List WorkflowNode) (i : ℕ) → at (zeros nodes) i ≡ 0
at-zeros [] i = refl
at-zeros (node ∷ rest) zero = refl
at-zeros (node ∷ rest) (suc i) = at-zeros rest i

-- A disabled node is settled and has no activation after any number of turns of a new run.
pub disabled_never_runs :
    (turns : Turns) (f : Setting) (seeds : Seeds) (i : ℕ) (node : WorkflowNode)
    → get_elem? f.graph.nodes i ≡ some node
    → node.enabled ≡ false
    → (mem i (start_with (run turns) f seeds).0.settled ≡ true)
      × (at (start_with (run turns) f seeds).0.activations i ≡ 0)
unfolding start_with new
disabled_never_runs turns f seeds i node e disabled =
    let s = prepare f (new f seeds) in
    let (counts, idle) = prepare-IsUntouched f (new f seeds) (refl, refl) in
    let (inside, same) =
      settled_stays turns f s i (prepare-settles f (new f seeds) i node e disabled)
        (subst (λ (o : Option LoopState). IsOutside o i) (sym idle) tt) in
    (inside, same ∙ (ap (λ (l : List ℕ). at l i) counts ∙ at-zeros f.graph.nodes i))

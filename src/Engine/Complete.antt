-- ===== src/Engine/Complete.antt =====
-- crates/lingxi-runtime/src/engine.rs: `execution_order` finds an order when there is one.
use ling_xi_agent.Prelude.{
  ℕ, zero, suc, ◌+◌, ◌≤◌, ◌<◌, Bool-cases, List, [], ◌∷◌, ◌≡◌, refl, subst, inl, inr, arith, length,
  nat_eq, leb, some, if◌then◌else◌,
}
use ling_xi_agent.Workflow.Model.{WorkflowNode, Edge, Graph}
use ling_xi_agent.Flow.State.{at, bump, zeros}
use ling_xi_agent.Engine.Order.{resolve, degrees, zero_degrees, kahn, execution_order}
use ling_xi_agent.Engine.Counts.{occ, remaining}
use ling_xi_agent.Engine.Fair.{kahn-IsOrdered}
use ling_xi_agent.Engine.Places.{TargetsBelow, IsBelow, length-covers, length-bounded, kahn-IsBelow}
use ling_xi_agent.Engine.Topological.{
  length-degrees, length-zeros, nothing_before, position-bounded, resolve-first,
  resolve-TargetsBelow, starts_ready, starts-IsBelow, nothing-IsBelow,
}
use ling_xi_agent.Validation.Components.{sources_of}
use ling_xi_agent.Engine.Tight.{IsTightFor, kahn-closed}

remaining-none :
    (t : ℕ) (pairs : List (ℕ × ℕ)) (order : List ℕ)
    → ((s : ℕ) → 1 ≤ occ s (sources_of t pairs) → 1 ≤ occ s order)
    → remaining t pairs order ≡ 0
unfolding remaining sources_of occ
remaining-none t [] order h = refl
remaining-none t ((a, b) ∷ rest) order h =
    let later = λ (inner : (s : ℕ) → 1 ≤ occ s (sources_of t rest) → 1 ≤ occ s order).
      remaining-none t rest order inner in
    elim (Bool-cases (nat_eq b t)) [
      | inl into ↦ ground (
        arith,
        into,
        h a (ground (arith, into)),
        later (λ s some_s. h s (ground (arith, into, some_s))),
      )
      | inr other ↦ ground (arith, other, later (λ s some_s. h s (ground (arith, other, some_s))))
    ]

-- Each node of a list has its sources in front of it, or among those done.
unfoldable pub IsSourced : List (ℕ × ℕ) → List ℕ → List ℕ → Type 0
IsSourced pairs done [] = Unit {0}
IsSourced pairs done (u ∷ rest) =
    ((s : ℕ) → 1 ≤ occ s (sources_of u pairs) → 1 ≤ occ s done) × IsSourced pairs (u ∷ done) rest

SourcesBelow : ℕ → List (ℕ × ℕ) → Type 0
SourcesBelow n [] = Unit {0}
SourcesBelow n ((a, b) ∷ rest) = (a < n) × SourcesBelow n rest

sources_of-IsBelow :
    (n t : ℕ) (pairs : List (ℕ × ℕ)) → SourcesBelow n pairs → IsBelow n (sources_of t pairs)
unfolding SourcesBelow sources_of occ
sources_of-IsBelow n t [] h u some_u = absurd (omega (arith, some_u))
sources_of-IsBelow n t ((a, b) ∷ rest) (below, h) u some_u =
    elim (Bool-cases (leb 1 (occ u (sources_of t rest)))) [
      | inl later ↦ sources_of-IsBelow n t rest h u (ground (arith, later))
      | inr none_later ↦ ground (arith, some_u, none_later, below)
    ]

resolve-SourcesBelow :
    (nodes : List WorkflowNode) (edges : List Edge) (pairs : List (ℕ × ℕ))
    → resolve nodes edges ≡ some pairs
    → SourcesBelow (length nodes) pairs
unfolding resolve SourcesBelow
resolve-SourcesBelow nodes [] pairs e = subst (SourcesBelow (length nodes)) (the_pairs pairs e) tt
  where
    the_pairs : (pairs : List (ℕ × ℕ)) → some [] ≡ some pairs → [] ≡ pairs
    the_pairs pairs e = ground (arith, e)
resolve-SourcesBelow nodes (edge ∷ rest) pairs e =
    let (s, (t, (later, (found, (e1, same))))) = resolve-first nodes edge rest pairs e in
    subst (SourcesBelow (length nodes)) same
      (position-bounded edge.source nodes s found.0, resolve-SourcesBelow nodes rest later e1)

-- A list with that property is taken as a whole.
all_taken :
    (n : ℕ) (pairs : List (ℕ × ℕ)) (done list order : List ℕ)
    → SourcesBelow n pairs
    → ((t : ℕ) → t < n → remaining t pairs order ≡ 0 → 1 ≤ occ t order)
    → ((u : ℕ) → u < n → 1 ≤ occ u done → 1 ≤ occ u order)
    → IsSourced pairs done list
    → ((u : ℕ) → u < n → 1 ≤ occ u list → 1 ≤ occ u order)
unfolding IsSourced occ
all_taken n pairs done [] order sources closed taken h u below some_u =
    absurd (omega (arith, some_u))
all_taken n pairs done (v ∷ rest) order sources closed taken (here, h) u below some_u =
    let nothing =
      remaining-none v pairs order
        (λ s some_s. taken s (sources_of-IsBelow n v pairs sources s some_s) (here s some_s)) in
    let more : (w : ℕ) → w < n → 1 ≤ occ w (v ∷ done) → 1 ≤ occ w order = λ w node some_w.
      elim (Bool-cases (nat_eq v w)) [
        | inl same ↦
            let v_taken = closed v (ground (arith, same, node)) nothing in
            ground (arith, same, v_taken)
        | inr differ ↦ taken w node (ground (arith, differ, some_w))
      ] in
    elim (Bool-cases (nat_eq v u)) [
      | inl same ↦ more u below (ground (arith, same))
      | inr differ ↦
          all_taken n pairs (v ∷ done) rest order sources closed more h u below
            (ground (arith, differ, some_u))
    ]

at-bump-bound :
    (i t : ℕ) (counts : List ℕ) → at (bump i counts) t ≤ at counts t + (if nat_eq i t then 1 else 0)
unfolding bump
at-bump-bound i t [] = ground arith
at-bump-bound zero zero (n ∷ rest) = ground arith
at-bump-bound zero (suc t) (n ∷ rest) = ground arith
at-bump-bound (suc i) zero (n ∷ rest) = ground arith
at-bump-bound (suc i) (suc t) (n ∷ rest) = ground (arith, at-bump-bound i t rest)

degrees-bound :
    (t : ℕ) (pairs : List (ℕ × ℕ)) (counts : List ℕ)
    → at (degrees pairs counts) t ≤ at counts t + remaining t pairs []
unfolding degrees remaining occ
degrees-bound t [] counts = omega arith
degrees-bound t ((a, b) ∷ rest) counts =
    ground (arith, degrees-bound t rest (bump b counts), at-bump-bound b t counts)

at-zeros : (t : ℕ) (nodes : List WorkflowNode) → at (zeros nodes) t ≡ 0
at-zeros t [] = ground arith
at-zeros zero (node ∷ rest) = ground arith
at-zeros (suc t) (node ∷ rest) = ground (arith, at-zeros t rest)

zero_degrees-found :
    (u k j : ℕ) (counts : List ℕ)
    → u ≡ k + j
    → j < length counts
    → at counts j ≡ 0
    → 1 ≤ occ u (zero_degrees k counts)
unfolding zero_degrees occ
zero_degrees-found u k j [] e below h = absurd (omega (arith, below))
zero_degrees-found u k zero (n ∷ rest) e below h = ground (arith, e, h)
zero_degrees-found u k (suc j) (n ∷ rest) e below h = ground (
  arith,
  zero_degrees-found u (suc k) j rest (omega (arith, e)) (omega (arith, below)) (ground (arith, h)),
)

starts_tight :
    (nodes : List WorkflowNode) (pairs : List (ℕ × ℕ))
    → IsTightFor pairs []
        (degrees pairs (zeros nodes))
        (zero_degrees 0 (degrees pairs (zeros nodes)))
unfolding occ
starts_tight nodes pairs = (
  (λ t. omega (arith, degrees-bound t pairs (zeros nodes), at-zeros t nodes)),
  (λ t below e.
      omega (arith, zero_degrees-found t 0 t (degrees pairs (zeros nodes)) (omega arith) below e)),
)

abbrev taken_order : List WorkflowNode → List (ℕ × ℕ) → List ℕ
taken_order nodes pairs =
    kahn (length nodes) pairs (degrees pairs (zeros nodes))
      (zero_degrees 0 (degrees pairs (zeros nodes))) []

order-full :
    (nodes : List WorkflowNode) (pairs : List (ℕ × ℕ)) (list : List ℕ)
    → TargetsBelow (length nodes) pairs
    → SourcesBelow (length nodes) pairs
    → ((u : ℕ) → u < length nodes → 1 ≤ occ u list)
    → IsSourced pairs [] list
    → length (taken_order nodes pairs) ≡ length nodes
unfolding occ
order-full nodes pairs list targets sources covers sourced =
    let n = length nodes in
    let counts = degrees pairs (zeros nodes) in
    let ready = zero_degrees 0 counts in
    let fair = starts_ready nodes pairs targets in
    let once = (kahn-IsOrdered pairs n counts ready [] fair (λ k s t _. nothing_before s t)).1 in
    let taken_below =
      kahn-IsBelow n n pairs counts ready [] targets (starts-IsBelow nodes pairs)
        (nothing-IsBelow n) in
    let bound = length-bounded n (taken_order nodes pairs) taken_below once in
    elim (kahn-closed pairs n counts ready [] fair (starts_tight nodes pairs)) [
      | inl full ↦ omega (arith, full)
      | inr closed ↦
          let all =
            all_taken n pairs [] list (taken_order nodes pairs) sources
              (λ t h.
                closed t (omega (arith, h, length-degrees pairs (zeros nodes), length-zeros nodes)))
              (λ u _ some_u. absurd (omega (arith, some_u))) sourced in
          omega (
            arith,
            bound,
            length-covers n (taken_order nodes pairs) taken_below (λ u h. all u h (covers u h)),
          )
    ]

-- If the edges of a graph connect its nodes, and there is a list of all its nodes in which each node
-- has the sources of its edges in front of it, then `execution_order` finds an order.
pub order_found :
    (graph : Graph) (pairs : List (ℕ × ℕ)) (list : List ℕ)
    → resolve graph.nodes graph.edges ≡ some pairs
    → ((u : ℕ) → u < length graph.nodes → 1 ≤ occ u list)
    → IsSourced pairs [] list
    → (order : List ℕ) × (execution_order graph ≡ some order)
unfolding execution_order
order_found graph pairs list found covers sourced =
    let targets = resolve-TargetsBelow graph.nodes graph.edges pairs found in
    let sources = resolve-SourcesBelow graph.nodes graph.edges pairs found in
    let full = order-full graph.nodes pairs list targets sources covers sourced in
    (taken_order graph.nodes pairs, ground (arith, found, full))

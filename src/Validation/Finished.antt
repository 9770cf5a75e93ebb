-- ===== src/Validation/Finished.antt =====
-- crates/lingxi-spec/src/validation.rs: the first search of `strongly_connected_components` ends within its
-- bound, and leaves every node.
use ling_xi_agent.Prelude.{
  ℕ, zero, suc, ◌+◌, ◌≤◌, ◌<◌, false, Bool-cases, List, [], ◌∷◌, ◌≡◌, refl, sym, ap, subst, inl,
  inr, arith, length, nat_eq,
}
use ling_xi_agent.Flow.State.{mem}
use ling_xi_agent.Engine.Order.{targets_of}
use ling_xi_agent.Engine.Counts.{occ}
use ling_xi_agent.Engine.Places.{TargetsBelow, targets_of-IsBelow}
use ling_xi_agent.Validation.Components.{
  Pairs, Search, search_from, search_all, nothing_visited, finish_order,
}
use ling_xi_agent.Validation.Search.{
  on_stack, IsStackBelow, stack_work, open_nodes, open_edges, listed, IsKept, work, state,
  open_nodes-visit, open_edges-visit, search-IsEnd,
}

open_nodes-bound : (n : ℕ) (visited : List ℕ) → open_nodes n visited ≤ n
unfolding open_nodes
open_nodes-bound zero visited = omega arith
open_nodes-bound (suc n) visited = ground (arith, open_nodes-bound n visited)

open_edges-bound : (pairs : Pairs) (visited : List ℕ) → open_edges pairs visited ≤ length pairs
unfolding open_edges
open_edges-bound [] visited = omega arith
open_edges-bound ((a, b) ∷ rest) visited = ground (arith, open_edges-bound rest visited)

module _ (n : ℕ) (pairs : Pairs) (targets : TargetsBelow n pairs) where
  start-IsKept :
      (start : ℕ) (visited order : List ℕ)
      → IsKept n (state visited [] order)
      → IsKept n (state (start ∷ visited) ((start, targets_of start pairs) ∷ []) order)
  unfolding IsStackBelow on_stack
  start-IsKept start visited order kept = (
    (targets_of-IsBelow n start pairs targets, tt),
    (λ u seen. elim (Bool-cases (nat_eq start u)) [
      | inl same ↦ ground (arith, same)
      | inr differ ↦ ground (arith, differ, kept.1 u (ground (arith, seen, differ)))
    ]),
  )

  start-work :
      (start : ℕ) (visited order : List ℕ)
      → start < n
      → mem start visited ≡ false
      → work n pairs (state (start ∷ visited) ((start, targets_of start pairs) ∷ []) order)
        ≤ n + length pairs
  unfolding stack_work
  start-work start visited order below e = ground (
    arith,
    open_nodes-visit n start visited below e,
    open_edges-visit start pairs visited e,
    open_nodes-bound n visited,
    open_edges-bound pairs visited,
  )

  -- between two starts
  abbrev IsBetween : Search → Type 0
  IsBetween s = (s.stack ≡ []) × IsKept n s

  search_from-IsBetween :
      (start : ℕ) (visited order : List ℕ)
      → start < n
      → IsKept n (state visited [] order)
      → let s = search_from (n + length pairs) pairs start (state visited [] order) in
        IsBetween s
        × (((u : ℕ) → listed u (state visited [] order) ≤ listed u s) × (1 ≤ listed start s))
  unfolding search_from on_stack
  search_from-IsBetween start visited order below kept = elim (Bool-cases (mem start visited)) [
    | inl e ↦ simp (search_from, e) ((refl, kept), ((λ u. omega arith), kept.1 start e))
    | inr e ↦
        let stack : List (ℕ × List ℕ) = (start, targets_of start pairs) ∷ [] in
        let (ended, more) =
          search-IsEnd n pairs targets (n + length pairs) (start ∷ visited) order stack
            (start-IsKept start visited order kept) (start-work start visited order below e) in
        simp (search_from, e) (ended, ((λ u. ground (arith, more u)), ground (arith, more start)))
  ]

  search_all-IsBetween :
      (left start : ℕ) (s : Search)
      → start + left ≡ n
      → IsBetween s
      → let end = search_all (n + length pairs) pairs start left s in
        IsBetween end
        × (((u : ℕ) → listed u s ≤ listed u end) × ((u : ℕ) → start ≤ u → u < n → 1 ≤ listed u end))
  unfolding search_all
  search_all-IsBetween zero start s e between =
      (between, ((λ u. omega arith), (λ u from below. absurd (omega (arith, e, from, below)))))
  search_all-IsBetween (suc left) start s e (no_stack, kept) =
      let same : s ≡ state s.visited [] s.order =
        ap (λ (stack : List (ℕ × List ℕ)). state s.visited stack s.order) no_stack in
      let kept1 = subst (IsKept n) same kept in
      let (between, (more, found)) =
        subst
          (λ (x : Search).
            let r = search_from (n + length pairs) pairs start x in
            IsBetween r × (((u : ℕ) → listed u x ≤ listed u r) × (1 ≤ listed start r)))
          (sym same) (search_from-IsBetween start s.visited s.order (omega (arith, e)) kept1) in
      let (ended, (later, covered)) =
        search_all-IsBetween left (suc start) (search_from (n + length pairs) pairs start s)
          (omega (arith, e)) between in
      (
        ended,
        (
          (λ u. omega (arith, more u, later u)),
          (λ u from below. elim (Bool-cases (nat_eq start u)) [
            | inl here ↦
                let at_u : start ≡ u = ground (arith, here) in
                let found_u =
                  subst (λ (v : ℕ). 1 ≤ listed v (search_from (n + length pairs) pairs start s))
                    at_u found in
                omega (arith, found_u, later u)
            | inr other ↦ covered u (ground (arith, from, other)) below
          ]),
        ),
      )

  -- Each node below the count stands in the order that the first search leaves.
  pub finish_order-covers : (u : ℕ) → u < n → 1 ≤ occ u (finish_order n pairs)
  unfolding finish_order on_stack IsStackBelow
  finish_order-covers u below =
      let (ended, (_, covered)) =
        search_all-IsBetween n 0 nothing_visited (omega arith)
          (refl, (tt, (λ v seen. absurd (ground (arith, seen))))) in
      let end = search_all (n + length pairs) pairs 0 n nothing_visited in
      let nowhere =
        subst (λ (stack : List (ℕ × List ℕ)). on_stack u stack ≡ 0) (sym ended.0) refl in
      omega (arith, covered u (omega arith) below, nowhere)

-- ===== src/Validation/Search.antt =====
-- crates/lingxi-spec/src/validation.rs: the first search of `strongly_connected_components`, whose rounds
-- are measured.
use ling_xi_agent.Prelude.{
  ℕ, zero, suc, ◌+◌, ◌≤◌, ◌<◌, true, false, Bool-cases, List, [], ◌∷◌, ◌≡◌, refl, sym, subst, inl,
  inr, arith, length, nat_eq, if◌then◌else◌,
}
use ling_xi_agent.Flow.State.{mem}
use ling_xi_agent.Engine.Order.{targets_of}
use ling_xi_agent.Engine.Counts.{occ}
use ling_xi_agent.Engine.Places.{IsBelow, TargetsBelow, targets_of-IsBelow}
use ling_xi_agent.Validation.Components.{Pairs, Search, search_step, search}

pub occ-mem : (i : ℕ) (list : List ℕ) → mem i list ≡ true → 1 ≤ occ i list
unfolding occ
occ-mem i [] e = absurd (ground (arith, e))
occ-mem i (j ∷ rest) e = elim (Bool-cases (nat_eq j i)) [
  | inl same ↦ ground (arith, same)
  | inr differ ↦ ground (arith, differ, occ-mem i rest (ground (arith, e, differ)))
]

pub mem-occ : (i : ℕ) (list : List ℕ) → 1 ≤ occ i list → mem i list ≡ true
unfolding occ
mem-occ i [] some_i = absurd (omega (arith, some_i))
mem-occ i (j ∷ rest) some_i = elim (Bool-cases (nat_eq j i)) [
  | inl same ↦ ground (arith, same)
  | inr differ ↦ ground (arith, differ, mem-occ i rest (ground (arith, some_i, differ)))
]

-- how often a node stands on the stack
unfoldable pub on_stack : ℕ → List (ℕ × List ℕ) → ℕ
on_stack u [] = 0
on_stack u ((v, _) ∷ below) = (if nat_eq v u then 1 else 0) + on_stack u below

abbrev pub listed : ℕ → Search → ℕ
listed u s = on_stack u s.stack + occ u s.order

-- the targets to look at are nodes
unfoldable pub IsStackBelow : ℕ → List (ℕ × List ℕ) → Type 0
IsStackBelow n [] = Unit {0}
IsStackBelow n ((_, rest) ∷ below) = IsBelow n rest × IsStackBelow n below

-- what is visited is on the stack or left
abbrev pub IsKept : ℕ → Search → Type 0
IsKept n s = IsStackBelow n s.stack × ((u : ℕ) → mem u s.visited ≡ true → 1 ≤ listed u s)

-- the rounds that the stack takes
unfoldable pub stack_work : List (ℕ × List ℕ) → ℕ
stack_work [] = 0
stack_work ((_, rest) ∷ below) = suc (length rest) + stack_work below

-- the nodes below a number that are not visited
unfoldable pub open_nodes : ℕ → List ℕ → ℕ
open_nodes zero visited = 0
open_nodes (suc n) visited = (if mem n visited then 0 else 1) + open_nodes n visited

-- the edges of nodes that are not visited
unfoldable pub open_edges : Pairs → List ℕ → ℕ
open_edges [] visited = 0
open_edges ((a, _) ∷ rest) visited = (if mem a visited then 0 else 1) + open_edges rest visited

abbrev pub work : ℕ → Pairs → Search → ℕ
work n pairs s = stack_work s.stack + (open_nodes n s.visited + open_edges pairs s.visited)

open_nodes-outside :
    (n t : ℕ) (visited : List ℕ) → n ≤ t → open_nodes n (t ∷ visited) ≡ open_nodes n visited
unfolding open_nodes
open_nodes-outside zero t visited h = refl
open_nodes-outside (suc n) t visited h =
    ground (arith, h, open_nodes-outside n t visited (omega (arith, h)))

pub open_nodes-visit :
    (n t : ℕ) (visited : List ℕ)
    → t < n
    → mem t visited ≡ false
    → suc (open_nodes n (t ∷ visited)) ≡ open_nodes n visited
unfolding open_nodes
open_nodes-visit zero t visited h e = absurd (omega (arith, h))
open_nodes-visit (suc n) t visited h e = elim (Bool-cases (nat_eq t n)) [
  | inl last ↦
      let here : t ≡ n = ground (arith, last) in
      let outside : mem n visited ≡ false = subst (λ (v : ℕ). mem v visited ≡ false) here e in
      ground (arith, last, outside, open_nodes-outside n t visited (omega (arith, here)))
  | inr other ↦
      let smaller : t < n = ground (arith, other, h) in
      ground (arith, other, open_nodes-visit n t visited smaller e)
]

pub open_edges-visit :
    (t : ℕ) (pairs : Pairs) (visited : List ℕ)
    → mem t visited ≡ false
    → open_edges pairs (t ∷ visited) + length (targets_of t pairs) ≡ open_edges pairs visited
unfolding open_edges targets_of
open_edges-visit t [] visited e = refl
open_edges-visit t ((a, b) ∷ rest) visited e = elim (Bool-cases (nat_eq a t)) [
  | inl same ↦
      let here : t ≡ a = ground (arith, same) in
      let outside : mem a visited ≡ false = subst (λ (v : ℕ). mem v visited ≡ false) here e in
      ground (arith, same, here, outside, open_edges-visit t rest visited e)
  | inr other ↦ ground (arith, other, open_edges-visit t rest visited e)
]

abbrev pub state : List ℕ → List (ℕ × List ℕ) → List ℕ → Search
state visited stack order = record { visited = visited; stack = stack; order = order }

module _ (n : ℕ) (pairs : Pairs) (targets : TargetsBelow n pairs) where
  step-listed :
      (u : ℕ) (visited order : List ℕ) (stack : List (ℕ × List ℕ))
      → listed u (state visited stack order)
        ≤ listed u (search_step pairs (state visited stack order))
  unfolding search_step on_stack occ
  step-listed u visited order [] = omega arith
  step-listed u visited order ((v, []) ∷ below) = ground arith
  step-listed u visited order ((v, t ∷ rest) ∷ below) = elim (Bool-cases (mem t visited)) [
    | inl e ↦ ground (arith, e)
    | inr e ↦ ground (arith, e)
  ]

  step-IsKept :
      (visited order : List ℕ) (stack : List (ℕ × List ℕ))
      → IsKept n (state visited stack order)
      → IsKept n (search_step pairs (state visited stack order))
  unfolding search_step on_stack IsStackBelow occ
  step-IsKept visited order [] kept = kept
  step-IsKept visited order ((v, []) ∷ below) (bounded, shown) =
      (bounded.1, (λ u seen. ground (arith, shown u seen)))
  step-IsKept visited order ((v, t ∷ rest) ∷ below) (bounded, shown) =
      let later : IsBelow n rest = λ u some_u. bounded.0 u (ground (arith, some_u)) in
      elim (Bool-cases (mem t visited)) [
        | inl e ↦
            simp (search_step, e) ((later, bounded.1), (λ u seen. ground (arith, shown u seen)))
        | inr e ↦
            simp (search_step, e)
              (
                (targets_of-IsBelow n t pairs targets, (later, bounded.1)),
                (λ u seen. elim (Bool-cases (nat_eq t u)) [
                  | inl same ↦ ground (arith, same)
                  | inr differ ↦ ground (arith, differ, shown u (ground (arith, seen, differ)))
                ]),
              )
      ]

  step-work :
      (visited order rest : List ℕ) (v : ℕ) (below : List (ℕ × List ℕ))
      → IsKept n (state visited ((v, rest) ∷ below) order)
      → suc (work n pairs (search_step pairs (state visited ((v, rest) ∷ below) order)))
        ≤ work n pairs (state visited ((v, rest) ∷ below) order)
  unfolding search_step stack_work IsStackBelow occ
  step-work visited order [] v below kept = omega arith
  step-work visited order (t ∷ rest) v below kept = elim (Bool-cases (mem t visited)) [
    | inl e ↦ ground (arith, e)
    | inr e ↦
        let is_node : t < n = kept.0.0 t (ground arith) in
        ground
          (arith, e, open_nodes-visit n t visited is_node e, open_edges-visit t pairs visited e)
  ]

  idle :
      (fuel : ℕ) (visited order : List ℕ)
      → search fuel pairs (state visited [] order) ≡ state visited [] order
  unfolding search search_step
  idle zero visited order = refl
  idle (suc fuel) visited order = idle fuel visited order

  -- what a search ends with
  abbrev pub IsEnd : ℕ → Search → Search → Type 0
  IsEnd fuel before s = ((s.stack ≡ []) × IsKept n s) × ((u : ℕ) → listed u before ≤ listed u s)

  pub search-IsEnd :
      (fuel : ℕ) (visited order : List ℕ) (stack : List (ℕ × List ℕ))
      → IsKept n (state visited stack order)
      → work n pairs (state visited stack order) ≤ fuel
      → IsEnd fuel (state visited stack order) (search fuel pairs (state visited stack order))
  unfolding search stack_work
  search-IsEnd fuel visited order [] kept h =
      subst (IsEnd fuel (state visited [] order)) (sym (idle fuel visited order))
        ((refl, kept), (λ u. omega arith))
  search-IsEnd zero visited order ((v, rest) ∷ below) kept h = absurd (ground (arith, h))
  search-IsEnd (suc fuel) visited order ((v, rest) ∷ below) kept h =
      let stack = (v, rest) ∷ below in
      let s = search_step pairs (state visited stack order) in
      let (ended, more) =
        search-IsEnd fuel s.visited s.order s.stack (step-IsKept visited order stack kept)
          (omega (arith, h, step-work visited order rest v below kept)) in
      (ended, (λ u. omega (arith, more u, step-listed u visited order stack)))

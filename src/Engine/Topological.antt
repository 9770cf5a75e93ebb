-- ===== src/Engine/Topological.antt =====
-- crates/lingxi-runtime/src/engine.rs: `execution_order` is a topological order of the nodes.
use ling_xi_agent.Prelude.{
  ℕ, zero, suc, ◌+◌, ◌≤◌, ◌<◌, String, true, Bool-cases, Option-cases, some, List, [], ◌∷◌, ◌≡◌,
  refl, subst, sym, inl, inr, arith, length, nat_eq, ltb, get_elem?, ◌==◌, if◌then◌else◌,
}
use ling_xi_agent.Workflow.Model.{WorkflowNode, Edge, Graph, position}
use ling_xi_agent.Flow.State.{at, bump, zeros}
use ling_xi_agent.Engine.Order.{resolve, degrees, zero_degrees, kahn, execution_order}
use ling_xi_agent.Engine.Counts.{occ, remaining}
use ling_xi_agent.Engine.Places.{TargetsBelow, IsBelow, kahn-IsBelow, each_once}
use ling_xi_agent.Engine.Fair.{precedes, IsReadyFor, kahn-IsOrdered}

pub position-bounded :
    (id : String) (nodes : List WorkflowNode) (i : ℕ)
    → position id nodes ≡ some i
    → i < length nodes
unfolding position
position-bounded id [] i e = absurd (ground (arith, e))
position-bounded id (node ∷ rest) i e = elim (Option-cases (position id rest)) [
  | inl absent ↦ ground (arith, e, absent)
  | inr (j, found) ↦ ground (arith, e, found, position-bounded id rest j found)
]

length-bump : (i : ℕ) (counts : List ℕ) → length (bump i counts) ≡ length counts
unfolding bump
length-bump i [] = refl
length-bump zero (n ∷ rest) = refl
length-bump (suc i) (n ∷ rest) = omega (arith, length-bump i rest)

pub at-bump_counts :
    (i t : ℕ) (counts : List ℕ)
    → i < length counts
    → at (bump i counts) t ≡ at counts t + (if nat_eq i t then 1 else 0)
unfolding bump
at-bump_counts i t [] h = absurd (omega (arith, h))
at-bump_counts zero zero (n ∷ rest) h = ground arith
at-bump_counts zero (suc t) (n ∷ rest) h = ground arith
at-bump_counts (suc i) zero (n ∷ rest) h = ground arith
at-bump_counts (suc i) (suc t) (n ∷ rest) h =
    ground (arith, at-bump_counts i t rest (omega (arith, h)))

degrees-cover :
    (t : ℕ) (pairs : List (ℕ × ℕ)) (counts : List ℕ)
    → TargetsBelow (length counts) pairs
    → at counts t + remaining t pairs [] ≤ at (degrees pairs counts) t
unfolding degrees remaining occ
degrees-cover t [] counts h = omega arith
degrees-cover t ((a, b) ∷ rest) counts (below, h) =
    let later =
      degrees-cover t rest (bump b counts)
        (subst (λ (n : ℕ). TargetsBelow n rest) (sym (length-bump b counts)) h) in
    ground (arith, later, at-bump_counts b t counts below)

zero_degrees-once :
    (u k : ℕ) (counts : List ℕ)
    → (occ u (zero_degrees k counts) ≤ 1) × (u < k → occ u (zero_degrees k counts) ≡ 0)
unfolding occ zero_degrees
zero_degrees-once u k [] = (omega arith, (λ _. refl))
zero_degrees-once u k (n ∷ rest) =
    let later = zero_degrees-once u (suc k) rest in
    (
      elim (Bool-cases (nat_eq k u)) [
        | inl same ↦ ground (arith, same, later.1 (ground (arith, same)))
        | inr differ ↦ ground (arith, differ, later.0)
      ],
      (λ below. ground (arith, below, later.1 (omega (arith, below)))),
    )

zero_degrees-zero :
    (u k j : ℕ) (counts : List ℕ)
    → u ≡ k + j
    → 1 ≤ occ u (zero_degrees k counts)
    → (at counts j ≡ 0) × (j < length counts)
unfolding occ zero_degrees
zero_degrees-zero u k j [] e h = absurd (omega (arith, h))
zero_degrees-zero u k zero (n ∷ rest) e h =
    let later = (zero_degrees-once u (suc k) rest).1 (omega (arith, e)) in
    (ground (arith, e, h, later), omega arith)
zero_degrees-zero u k (suc j) (n ∷ rest) e h =
    let more : 1 ≤ occ u (zero_degrees (suc k) rest) = ground (arith, e, h) in
    let (zero_now, below) = zero_degrees-zero u (suc k) j rest (omega (arith, e)) more in
    (zero_now, omega (arith, below))

-- what `resolve` finds for an edge
abbrev IsResolved : List WorkflowNode → Edge → ℕ → ℕ → Type 0
IsResolved nodes edge s t =
    (position edge.source nodes ≡ some s) × (position edge.target nodes ≡ some t)

pub resolve-first :
    (nodes : List WorkflowNode) (edge : Edge) (rest : List Edge) (pairs : List (ℕ × ℕ))
    → resolve nodes (edge ∷ rest) ≡ some pairs
    → (s : ℕ) × ((t : ℕ) × ((later : List (ℕ × ℕ)) × (IsResolved nodes edge s t
            × ((resolve nodes rest ≡ some later) × ((s, t) ∷ later ≡ pairs)))))
unfolding resolve
resolve-first nodes edge rest pairs e = elim (Bool-cases (edge.source == edge.target)) [
  | inl loop ↦ absurd (ground (arith, e, loop))
  | inr line ↦ elim (Option-cases (position edge.source nodes)) [
    | inl absent ↦ absurd (ground (arith, e, line, absent))
    | inr (s, at_s) ↦ elim (Option-cases (position edge.target nodes)) [
      | inl absent ↦ absurd (ground (arith, e, line, at_s, absent))
      | inr (t, at_t) ↦ elim (Option-cases (resolve nodes rest)) [
        | inl absent ↦ absurd (ground (arith, e, line, at_s, at_t, absent))
        | inr (later, found) ↦
            (s, (t, (later, ((at_s, at_t), (found, ground (arith, e, line, at_s, at_t, found))))))
      ]
    ]
  ]
]

pub resolve-TargetsBelow :
    (nodes : List WorkflowNode) (edges : List Edge) (pairs : List (ℕ × ℕ))
    → resolve nodes edges ≡ some pairs
    → TargetsBelow (length nodes) pairs
unfolding resolve
resolve-TargetsBelow nodes [] pairs e = subst (TargetsBelow (length nodes)) (the_pairs pairs e) tt
  where
    the_pairs : (pairs : List (ℕ × ℕ)) → some [] ≡ some pairs → [] ≡ pairs
    the_pairs pairs e = ground (arith, e)
resolve-TargetsBelow nodes (edge ∷ rest) pairs e =
    let (s, (t, (later, (found, (e1, same))))) = resolve-first nodes edge rest pairs e in
    subst (TargetsBelow (length nodes)) same
      (position-bounded edge.target nodes t found.1, resolve-TargetsBelow nodes rest later e1)

-- Both ends of each edge are nodes, and the target does not stand before the source in the order.
abbrev pub AreForward : List WorkflowNode → List Edge → List ℕ → Type 0
AreForward nodes [] order = Unit {0}
AreForward nodes (edge ∷ rest) order =
    ((s : ℕ) × ((t : ℕ) × (IsResolved nodes edge s t × (precedes s t order ≡ true))))
    × AreForward nodes rest order

all-AreForward :
    (nodes : List WorkflowNode) (edges : List Edge) (pairs : List (ℕ × ℕ)) (order : List ℕ)
    → resolve nodes edges ≡ some pairs
    → ((k s t : ℕ) → get_elem? pairs k ≡ some (s, t) → precedes s t order ≡ true)
    → AreForward nodes edges order
all-AreForward nodes [] pairs order e ordered = tt
all-AreForward nodes (edge ∷ rest) pairs order e ordered =
    let (s, (t, (later, (found, (e1, same))))) = resolve-first nodes edge rest pairs e in
    let moved : (k a b : ℕ)
        → get_elem? ((s, t) ∷ later) k ≡ some (a, b)
        → precedes a b order ≡ true =
      λ k a b e2.
        ordered k a b (subst (λ (l : List (ℕ × ℕ)). get_elem? l k ≡ some (a, b)) same e2) in
    (
      (s, (t, (found, moved 0 s t refl))),
      all-AreForward nodes rest later order e1 (λ k. moved (suc k)),
    )

pub length-zeros : (nodes : List WorkflowNode) → length (zeros nodes) ≡ length nodes
length-zeros [] = refl
length-zeros (node ∷ rest) = omega (arith, length-zeros rest)

pub starts_ready :
    (nodes : List WorkflowNode) (pairs : List (ℕ × ℕ))
    → TargetsBelow (length nodes) pairs
    → IsReadyFor pairs []
        (degrees pairs (zeros nodes))
        (zero_degrees 0 (degrees pairs (zeros nodes)))
unfolding occ
starts_ready nodes pairs below =
    let counts = degrees pairs (zeros nodes) in
    let fits : TargetsBelow (length (zeros nodes)) pairs =
      subst (λ (n : ℕ). TargetsBelow n pairs) (sym (length-zeros nodes)) below in
    (
      (λ t. omega (arith, degrees-cover t pairs (zeros nodes) fits)),
      (
        (λ u. omega (arith, (zero_degrees-once u 0 counts).0)),
        (λ u some_u. (zero_degrees-zero u 0 u counts (omega arith) (omega (arith, some_u))).0),
      ),
    )

chosen :
    (graph : Graph) (order : List ℕ)
    → execution_order graph ≡ some order
    → (pairs : List (ℕ × ℕ)) × ((resolve graph.nodes graph.edges ≡ some pairs)
        × ((length order ≡ length graph.nodes)
            × (kahn
                  (length graph.nodes)
                  pairs
                  (degrees pairs (zeros graph.nodes))
                  (zero_degrees 0 (degrees pairs (zeros graph.nodes)))
                  []
                ≡ order)))
unfolding execution_order
chosen graph order e = elim (Option-cases (resolve graph.nodes graph.edges)) [
  | inl absent ↦ absurd (ground (arith, e, absent))
  | inr (pairs, found) ↦ (pairs, (found, (ground (arith, e, found), ground (arith, e, found))))
]

pub nothing_before : (s t : ℕ) → precedes s t [] ≡ true
unfolding precedes
nothing_before s t = refl

pub length-degrees :
    (pairs : List (ℕ × ℕ)) (counts : List ℕ) → length (degrees pairs counts) ≡ length counts
unfolding degrees
length-degrees [] counts = refl
length-degrees ((a, b) ∷ rest) counts =
    omega (arith, length-degrees rest (bump b counts), length-bump b counts)

pub starts-IsBelow :
    (nodes : List WorkflowNode) (pairs : List (ℕ × ℕ))
    → IsBelow (length nodes) (zero_degrees 0 (degrees pairs (zeros nodes)))
starts-IsBelow nodes pairs u some_u =
    let found = zero_degrees-zero u 0 u (degrees pairs (zeros nodes)) (omega arith) some_u in
    omega (arith, found.1, length-degrees pairs (zeros nodes), length-zeros nodes)

pub nothing-IsBelow : (n : ℕ) → IsBelow n []
unfolding occ
nothing-IsBelow n u some_u = absurd (omega (arith, some_u))

-- When `execution_order` gives an order, it has as many places as the graph has nodes, the index of
-- each node stands in it once and no other number does, and both ends of every edge are nodes of which
-- the target does not stand before the source.
pub topological_order :
    (graph : Graph) (order : List ℕ)
    → execution_order graph ≡ some order
    → (length order ≡ length graph.nodes)
      × ((u : ℕ) → occ u order ≡ (if ltb u (length graph.nodes) then 1 else 0))
      × AreForward graph.nodes graph.edges order
topological_order graph order e =
    let (pairs, (found, (full, same))) = chosen graph order e in
    let targets = resolve-TargetsBelow graph.nodes graph.edges pairs found in
    let counts = degrees pairs (zeros graph.nodes) in
    let (ordered, once) =
      kahn-IsOrdered pairs (length graph.nodes) counts (zero_degrees 0 counts) []
        (starts_ready graph.nodes pairs targets) (λ k s t _. nothing_before s t) in
    let bounded : IsBelow (length graph.nodes) order = subst (IsBelow (length graph.nodes)) same (
      kahn-IsBelow (length graph.nodes) (length graph.nodes) pairs counts (zero_degrees 0 counts) []
        targets (starts-IsBelow graph.nodes pairs) (nothing-IsBelow (length graph.nodes))) in
    let at_most_once : (v : ℕ) → occ v order ≤ 1 =
      λ v. subst (λ (l : List ℕ). occ v l ≤ 1) same (once v) in
    let bounded_by_places : IsBelow (length order) order =
      subst (λ (n : ℕ). IsBelow n order) (sym full) bounded in
    (
      full,
      (λ u. elim (Bool-cases (ltb u (length graph.nodes))) [
        | inl below ↦
            rw below
              (each_once order u at_most_once bounded_by_places (ground (arith, full, below)))
        | inr beyond ↦ ground (arith, beyond, bounded u)
      ]),
      all-AreForward graph.nodes graph.edges pairs order found
          (λ k s t e1. subst (λ (l : List ℕ). precedes s t l ≡ true) same (ordered k s t e1)),
    )

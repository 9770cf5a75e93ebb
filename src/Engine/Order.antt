-- ===== src/Engine/Order.antt =====
-- crates/lingxi-runtime/src/engine.rs: `execution_order`, the order of Kahn's algorithm with ties broken
-- by the place of a node in the document. The heap of ready nodes is a list in ascending order.
use ling_xi_agent.Prelude.{
  ℕ, zero, suc, ◌-◌, true, false, Option, none, some, List, [], ◌∷◌, ◌++◌, length, nat_eq, leb,
  ◌==◌, if◌then◌else◌,
}
use ling_xi_agent.Workflow.Model.{WorkflowNode, Edge, Graph, position}
use ling_xi_agent.Flow.State.{at, bump, zeros}

-- The edges as pairs of indices. There are none if an edge is a loop or leads nowhere.
unfoldable pub resolve : List WorkflowNode → List Edge → Option (List (ℕ × ℕ))
unfolding position
resolve nodes [] = some []
resolve nodes (edge ∷ rest) = elim (edge.source == edge.target) [
  | true ↦ none
  | false ↦ elim (position edge.source nodes) [
    | none ↦ none
    | some source ↦ elim (position edge.target nodes) [
      | none ↦ none
      | some target ↦ elim (resolve nodes rest) [
        | none ↦ none
        | some pairs ↦ some ((source, target) ∷ pairs)
      ]
    ]
  ]
]

-- `adjacency[source]`
unfoldable pub targets_of : ℕ → List (ℕ × ℕ) → List ℕ
targets_of source [] = []
targets_of source ((a, b) ∷ rest) =
    let later = targets_of source rest in if nat_eq a source then b ∷ later else later

unfoldable pub degrees : List (ℕ × ℕ) → List ℕ → List ℕ
unfolding bump
degrees [] counts = counts
degrees ((_, b) ∷ rest) counts = degrees rest (bump b counts)

-- `indegree[i] -= 1`
unfoldable pub lower : ℕ → List ℕ → List ℕ
lower i [] = []
lower zero (n ∷ rest) = (n - 1) ∷ rest
lower (suc i) (n ∷ rest) = n ∷ lower i rest

unfoldable pub push : ℕ → List ℕ → List ℕ
push i [] = i ∷ []
push i (j ∷ rest) = let later = push i rest in if leb i j then i ∷ j ∷ rest else j ∷ later

-- the nodes, from an index on, without incoming edges
unfoldable pub zero_degrees : ℕ → List ℕ → List ℕ
zero_degrees i [] = []
zero_degrees i (n ∷ rest) =
    let later = zero_degrees (suc i) rest in if nat_eq n 0 then i ∷ later else later

-- the loop over the targets of a node: the counts, and the ready nodes
unfoldable pub release : List ℕ → List ℕ → List ℕ → List ℕ × List ℕ
unfolding lower push
release [] counts ready = (counts, ready)
release (target ∷ rest) counts ready =
    let lowered = lower target counts in
    release rest lowered (if nat_eq (at lowered target) 0 then push target ready else ready)

-- The loop with a bound on its rounds. Each round takes a node that no round took before, so that the
-- number of nodes is enough.
unfoldable pub kahn : ℕ → List (ℕ × ℕ) → List ℕ → List ℕ → List ℕ → List ℕ
unfolding release targets_of
kahn zero pairs counts ready order = order
kahn (suc fuel) pairs counts [] order = order
kahn (suc fuel) pairs counts (node ∷ ready) order =
    let (lowered, more) = release (targets_of node pairs) counts ready in
    kahn fuel pairs lowered more (order ++ node ∷ [])

unfoldable pub execution_order : Graph → Option (List ℕ)
unfolding resolve degrees zero_degrees kahn
execution_order graph = elim (resolve graph.nodes graph.edges) [
  | none ↦ none
  | some pairs ↦
      let counts = degrees pairs (zeros graph.nodes) in
      let order = kahn (length graph.nodes) pairs counts (zero_degrees 0 counts) [] in
      if nat_eq (length order) (length graph.nodes) then some order else none
]

-- ===== src/Validation/Passed.antt =====
-- crates/lingxi-spec/src/validation.rs, crates/lingxi-runtime/src/engine.rs: what a validation without
-- errors says of a graph without gates.
use ling_xi_agent.Prelude.{
  ℕ, zero, suc, ◌+◌, String, Bool, true, false, not, Bool-cases, Option-cases, some, List, [], ◌∷◌,
  ◌++◌, ◌≡◌, refl, subst, inl, inr, arith, length, any, get_elem?, is_some, ◌==◌,
}
use ling_xi_agent.Workflow.Model.{WorkflowNode, Edge, Graph, position}
use ling_xi_agent.Engine.Order.{resolve, execution_order}
use ling_xi_agent.Engine.Counts.{occ}
use ling_xi_agent.Engine.Topological.{resolve-TargetsBelow}
use ling_xi_agent.Engine.Complete.{order_found}
use ling_xi_agent.Validation.Issues.{
  IssueCode, ValidationIssue, ValidationContext, count_errors, error_if, duplicate_edge_id,
  self_loop, dangling_source, dangling_target,
}
use ling_xi_agent.Validation.Paths.{text_of, join_path, indexed}
use ling_xi_agent.Validation.Edges.{Slot, node_of, check_edge, check_edges}
use ling_xi_agent.Validation.Components.{
  components_from, strongly_connected_components, finish_order,
}
use ling_xi_agent.Validation.Control.{
  edge_pairs, adjacency, is_cyclic, is_gate, holds_at, gates_of, check_gates, check_component,
  check_components, validate_control_flow,
}
use ling_xi_agent.Validation.Finished.{finish_order-covers}
use ling_xi_agent.Validation.Acyclic.{IsAcyclic, components_from-sorted}

pub count_errors-append :
    (xs ys : List ValidationIssue) → count_errors (xs ++ ys) ≡ count_errors xs + count_errors ys
unfolding count_errors
count_errors-append [] ys = omega arith
count_errors-append (x ∷ xs) ys = omega (arith, count_errors-append xs ys)

pub no_errors :
    (xs ys : List ValidationIssue)
    → count_errors (xs ++ ys) ≡ 0
    → (count_errors xs ≡ 0) × (count_errors ys ≡ 0)
no_errors xs ys e =
    (omega (arith, e, count_errors-append xs ys), omega (arith, e, count_errors-append xs ys))

passed :
    (test : Bool) (code : IssueCode) (path : String)
    → count_errors (error_if test code path) ≡ 0
    → test ≡ false
unfolding count_errors
passed true code path e = absurd (omega (arith, e))
passed false code path e = refl

pub any-false {ℓ} :
    {A : Type ℓ} (p q : A → Bool) (list : List A)
    → ((x : A) → q x ≡ true → p x ≡ true)
    → any p list ≡ false
    → any q list ≡ false
any-false p q [] h e = refl
any-false p q (x ∷ rest) h e = elim (Bool-cases (q x)) [
  | inl holds ↦ absurd (ground (arith, e, h x holds))
  | inr fails ↦ ground (arith, fails, any-false p q rest h (ground (arith, e)))
]

node_of-position :
    (id : String) (nodes : List WorkflowNode)
    → is_some (node_of id nodes) ≡ true
    → (i : ℕ) × (position id nodes ≡ some i)
unfolding node_of position
node_of-position id [] e = absurd (ground (arith, e))
node_of-position id (node ∷ rest) e = elim (Bool-cases (node.id == id)) [
  | inl here ↦ (0, rw (position, here) refl)
  | inr other ↦
      let (i, found) = node_of-position id rest (ground (arith, e, other)) in
      (suc i, rw (position, other, found) refl)
]

first_errors :
    (a b c d rest more : List ValidationIssue)
    → count_errors (a ++ b ++ c ++ d ++ rest ++ more) ≡ 0
    → (count_errors b ≡ 0) × ((count_errors c ≡ 0) × (count_errors d ≡ 0))
first_errors a b c d rest more e =
    let (e1, _) = no_errors (a ++ b ++ c ++ d ++ rest) more e in
    let (e2, _) = no_errors (a ++ b ++ c ++ d) rest e1 in
    let (e3, at_d) = no_errors (a ++ b ++ c) d e2 in
    let (e4, at_c) = no_errors (a ++ b) c e3 in ((no_errors a b e4).1, (at_c, at_d))

-- an edge without errors connects two nodes
check_edge-connects :
    (context : ValidationContext) (nodes : List WorkflowNode) (earlier : List Edge) (edge : Edge)
    (path : String)
    → count_errors (check_edge context nodes earlier edge path) ≡ 0
    → ((edge.source == edge.target) ≡ false)
      × ((is_some (node_of edge.source nodes) ≡ true)
          × (is_some (node_of edge.target nodes) ≡ true))
unfolding check_edge
check_edge-connects context nodes earlier edge path e =
    let source = is_some (node_of edge.source nodes) in
    let target = is_some (node_of edge.target nodes) in
    let twice =
      error_if (any (λ other. other.id == edge.id) earlier) duplicate_edge_id
        (text_of (path ∷ ".id" ∷ [])) in
    let line = error_if (edge.source == edge.target) self_loop path in
    let from = error_if (not source) dangling_source (text_of (path ∷ ".source" ∷ [])) in
    let to = error_if (not target) dangling_target (text_of (path ∷ ".target" ∷ [])) in
    let (e1, (e2, e3)) = first_errors twice line from to _ _ e in
    (
      passed (edge.source == edge.target) self_loop path e1,
      (
        ground (arith, passed (not source) dangling_source (text_of (path ∷ ".source" ∷ [])) e2),
        ground (arith, passed (not target) dangling_target (text_of (path ∷ ".target" ∷ [])) e3),
      ),
    )

check_edges-resolve :
    (context : ValidationContext) (nodes : List WorkflowNode) (prefix : String)
    (earlier : List Edge) (index : ℕ) (edges : List Edge)
    → count_errors (check_edges context nodes prefix earlier index edges) ≡ 0
    → resolve nodes edges ≡ some (edge_pairs (λ _. true) nodes edges)
unfolding check_edges resolve edge_pairs
check_edges-resolve context nodes prefix earlier index [] e = refl
check_edges-resolve context nodes prefix earlier index (edge ∷ rest) e =
    let path = join_path prefix (indexed "edges" index) in
    let (here, later) = no_errors (check_edge context nodes earlier edge path) _ e in
    let (line, (from, to)) = check_edge-connects context nodes earlier edge path here in
    let (s, at_s) = node_of-position edge.source nodes from in
    let (t, at_t) = node_of-position edge.target nodes to in
    let found =
      check_edges-resolve context nodes prefix (earlier ++ edge ∷ []) (suc index) rest later in
    rw (resolve, edge_pairs, line, at_s, at_t, found) refl

any-none {ℓ} :
    {A : Type ℓ} (p : A → Bool) (list : List A) (i : ℕ) (x : A)
    → any p list ≡ false
    → get_elem? list i ≡ some x
    → p x ≡ false
any-none p [] i x e at_i = absurd (ground (arith, at_i))
any-none p (y ∷ rest) zero x e at_i =
    let same : y ≡ x = ground (arith, at_i) in subst (λ z. p z ≡ false) same (ground (arith, e))
any-none p (y ∷ rest) (suc i) x e at_i = any-none p rest i x (ground (arith, e)) at_i

module _ (graph : Graph) (context : ValidationContext)
    (gateless : any (is_gate context) graph.nodes ≡ false) where
  no_gate : (i : ℕ) → holds_at graph (is_gate context) i ≡ false
  no_gate i = elim (Option-cases (get_elem? graph.nodes i)) [
    | inl absent ↦ rw (holds_at, absent) refl
    | inr (node, found) ↦
        rw (holds_at, found) (any-none (is_gate context) graph.nodes i node gateless found)
  ]

  no_gates : (component : List ℕ) → gates_of graph context component ≡ []
  unfolding gates_of
  no_gates [] = refl
  no_gates (i ∷ rest) = rw (no_gate i) (no_gates rest)

  check_component-acyclic :
      (prefix : String) (provided : List Slot) (component : List ℕ)
      → count_errors (check_component graph context prefix provided component) ≡ 0
      → is_cyclic (adjacency graph) component ≡ false
  unfolding check_component check_gates count_errors
  check_component-acyclic prefix provided component e =
      elim (Bool-cases (is_cyclic (adjacency graph) component)) [
        | inr line ↦ line
        | inl cyclic ↦ absurd (ground (arith, e, cyclic, no_gates component))
      ]

  check_components-IsAcyclic :
      (prefix : String) (provided : List Slot) (components : List (List ℕ))
      → count_errors (check_components graph context prefix provided components) ≡ 0
      → IsAcyclic (adjacency graph) components
  unfolding check_components IsAcyclic
  check_components-IsAcyclic prefix provided [] e = tt
  check_components-IsAcyclic prefix provided (component ∷ rest) e =
      let (here, later) =
        no_errors (check_component graph context prefix provided component)
          (check_components graph context prefix provided rest) e in
      (
        check_component-acyclic prefix provided component here,
        check_components-IsAcyclic prefix provided rest later,
      )

  -- a graph whose edges and components pass the checks
  pub graph-order :
      (prefix : String) (provided : List Slot)
      → count_errors (check_edges context graph.nodes prefix [] 0 graph.edges) ≡ 0
      → count_errors (validate_control_flow graph context prefix provided) ≡ 0
      → (order : List ℕ) × (execution_order graph ≡ some order)
  unfolding validate_control_flow strongly_connected_components adjacency occ
  graph-order prefix provided edges_pass control_passes =
      let n = length graph.nodes in
      let pairs = adjacency graph in
      let found = check_edges-resolve context graph.nodes prefix [] 0 graph.edges edges_pass in
      let targets = resolve-TargetsBelow graph.nodes graph.edges pairs found in
      let order = finish_order n pairs in
      let components = components_from (suc (suc n)) pairs order [] in
      let (list, (sourced, covers)) =
        components_from-sorted n pairs order []
          (check_components-IsAcyclic prefix provided components control_passes) in
      order_found graph pairs list found
        (λ u below. omega (arith, covers u (finish_order-covers n pairs targets u below))) sourced

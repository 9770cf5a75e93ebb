-- ===== src/Engine/Upstream.antt =====
-- crates/lingxi-runtime/src/engine.rs: a node runs on the outputs of its predecessors.
use ling_xi_agent.Prelude.{
  ℕ, zero, suc, String, Bool, true, false, not, ◌||◌, Bool-cases, Option-cases, none, some, List,
  [], ◌∷◌, ◌++◌, Dict, lookup, insert, contains_key, lookup-insert, ◌≡◌, refl, sym, subst, inl, inr,
  arith, get_elem?, ◌==◌, eq_iff,
}
use ling_xi_agent.Protocol.Json.{Value}
use ling_xi_agent.Workflow.Ports.{NodeSpec}
use ling_xi_agent.Workflow.Model.{WorkflowNode, Edge}
use ling_xi_agent.Flow.State.{Values, node_started}
use ling_xi_agent.Flow.Nodes.{Returned, result, produced, raised, outcome_of, refusal}
use ling_xi_agent.Flow.Run.{Engine}
use ling_xi_agent.Engine.Run.{
  Visit, Progress, nothing_yet, into, tell, fail_node, pass_over, carried, gather, is_blocked,
  settle_visit, run_ready, attend, visit_node, goes_on_with, run_nodes,
}

-- what a visit of a node may do
pub data Turn (edges : List Edge) (node : WorkflowNode) (s : Progress)
    : Progress → Bool → Type 0 where
  stops : (t : Progress) → t.outputs ≡ s.outputs → t.is_cancelled ≡ true → Turn edges node s t false
  finishes :
      (t : Progress) (outputs inputs : Values)
      → gather s.outputs (into edges node.id) [] ≡ some inputs
      → t.outputs ≡ insert node.id outputs s.outputs
      → t.failed ≡ s.failed
      → t.skipped ≡ s.skipped
      → Turn edges node s t true
  fails :
      (t : Progress)
      → t.outputs ≡ s.outputs
      → t.failed ≡ s.failed ++ node.id ∷ []
      → t.skipped ≡ s.skipped
      → Turn edges node s t true
  passes :
      (t : Progress)
      → t.outputs ≡ s.outputs
      → t.failed ≡ s.failed
      → t.skipped ≡ s.skipped ++ node.id ∷ []
      → Turn edges node s t true

module _ (engine : Engine) (edges : List Edge) (r : Visit) (node : WorkflowNode) where
  abbrev IsTurn : Progress → Progress × Bool → Type 0
  IsTurn s found = Turn edges node s found.0 found.1

  settle_returned-IsTurn :
      (s : Progress) (inputs : Values) (returned : Returned)
      → gather s.outputs (into edges node.id) [] ≡ some inputs
      → IsTurn s (settle_visit node (result returned) (tell node 1 node_started s))
  unfolding settle_visit tell fail_node
  settle_returned-IsTurn s inputs (produced outputs) e = finishes _ outputs inputs e refl refl refl
  settle_returned-IsTurn s inputs (raised error) e = fails _ refl refl refl

  settle_visit-IsTurn :
      (s : Progress) (inputs : Values)
      → gather s.outputs (into edges node.id) [] ≡ some inputs
      → IsTurn s (settle_visit node (outcome_of none r.attempt) (tell node 1 node_started s))
  unfolding settle_visit outcome_of tell fail_node
  settle_visit-IsTurn s inputs e = elim (Bool-cases r.attempt.is_cancelled) [
    | inl stopped ↦ rw (settle_visit, outcome_of, stopped) (stops _ refl refl)
    | inr runs ↦ rw (outcome_of, runs) (settle_returned-IsTurn s inputs r.attempt.returned e)
  ]

  run_ready-IsTurn :
      (spec : NodeSpec) (s : Progress) → IsTurn s (run_ready engine edges r node spec s)
  unfolding run_ready tell fail_node
  run_ready-IsTurn spec s = elim (Option-cases (gather s.outputs (into edges node.id) [])) [
    | inl e ↦ rw (run_ready, e) (fails _ refl refl refl)
    | inr (inputs, e) ↦
        rw (run_ready, e)
          (elim (Option-cases (refusal (engine.authorize node) spec.capabilities)) [
            | inr (error, e1) ↦ rw e1 (fails _ refl refl refl)
            | inl e1 ↦ rw e1 (elim (Bool-cases (engine.has_executor node.kind)) [
              | inr e2 ↦ rw e2 (fails _ refl refl refl)
              | inl e2 ↦ rw e2 (settle_visit-IsTurn s inputs e)
            ])
          ])
  ]

  attend-IsTurn : (s : Progress) → IsTurn s (attend engine edges r node s)
  unfolding attend tell fail_node pass_over
  attend-IsTurn s = elim (Option-cases (engine.registry node.kind)) [
    | inl e ↦ rw (attend, e) (fails _ refl refl refl)
    | inr (spec, e) ↦ elim (Bool-cases node.enabled) [
      | inr e1 ↦ simp (attend, e, e1) (passes _ refl refl refl)
      | inl e1 ↦ elim (Bool-cases (is_blocked (into edges node.id) s)) [
        | inl e2 ↦ simp (attend, e, e1, e2) (passes _ refl refl refl)
        | inr e2 ↦ simp (attend, e, e1, e2) (run_ready-IsTurn spec s)
      ]
    ]
  ]

  pub visit_node-IsTurn : (s : Progress) → IsTurn s (visit_node engine edges r node s)
  unfolding visit_node
  visit_node-IsTurn s = elim (Bool-cases (r.is_cancelled || not r.is_resumed)) [
    | inl e ↦ rw (visit_node, e) (stops _ refl refl)
    | inr e ↦ rw (visit_node, e) (attend-IsTurn s)
  ]

carried-some :
    (outputs : Dict Values) (edge : Edge) (value : Value)
    → carried outputs edge ≡ some value
    → contains_key edge.source outputs ≡ true
carried-some outputs edge value e = elim (Option-cases (lookup edge.source outputs)) [
  | inl absent ↦ ground (arith, e, absent)
  | inr (values, found) ↦ ground (arith, found)
]

gather-first :
    (outputs : Dict Values) (first : Edge) (rest : List Edge) (inputs all : Values)
    → gather outputs (first ∷ rest) inputs ≡ some all
    → (value : Value) × ((carried outputs first ≡ some value)
        × (gather outputs rest (insert first.target_port value inputs) ≡ some all))
unfolding gather
gather-first outputs first rest inputs all e = elim (Option-cases (carried outputs first)) [
  | inl absent ↦ absurd (ground (arith, e, absent))
  | inr (value, found) ↦ (value, (found, ground (arith, e, found)))
]

into-take :
    (first : Edge) (rest : List Edge) (id : String)
    → (first.target == id) ≡ true
    → into (first ∷ rest) id ≡ first ∷ into rest id
unfolding into
into-take first rest id e = ground (arith, e)

into-drop :
    (first : Edge) (rest : List Edge) (id : String)
    → (first.target == id) ≡ false
    → into (first ∷ rest) id ≡ into rest id
unfolding into
into-drop first rest id e = ground (arith, e)

-- when a node's inputs are complete, the source of each of its edges has outputs
gather_complete :
    (outputs : Dict Values) (id : String) (edge : Edge) (edges : List Edge) (k : ℕ)
    (inputs all : Values)
    → get_elem? edges k ≡ some edge
    → (edge.target == id) ≡ true
    → gather outputs (into edges id) inputs ≡ some all
    → contains_key edge.source outputs ≡ true
gather_complete outputs id edge [] k inputs all at_k to_id e = absurd (ground (arith, at_k))
gather_complete outputs id edge (first ∷ rest) zero inputs all at_k to_id e =
    let same : first ≡ edge = ground (arith, at_k) in
    let here : (first.target == id) ≡ true =
      subst (λ (x : Edge). (x.target == id) ≡ true) (sym same) to_id in
    let (value, (found, _)) = gather-first outputs first (into rest id) inputs all (
      subst (λ (l : List Edge). gather outputs l inputs ≡ some all) (into-take first rest id here)
        e) in
    subst (λ (x : Edge). contains_key x.source outputs ≡ true) same
      (carried-some outputs first value found)
gather_complete outputs id edge (first ∷ rest) (suc k) inputs all at_k to_id e =
    elim (Bool-cases (first.target == id)) [
      | inr elsewhere ↦ gather_complete outputs id edge rest k inputs all at_k to_id (
          subst (λ (l : List Edge). gather outputs l inputs ≡ some all)
            (into-drop first rest id elsewhere) e)
      | inl here ↦
          let (value, (_, later)) = gather-first outputs first (into rest id) inputs all (
            subst (λ (l : List Edge). gather outputs l inputs ≡ some all)
              (into-take first rest id here) e) in
          gather_complete outputs id edge rest k _ all at_k to_id later
    ]

-- the source of each edge into a node with outputs has outputs itself
abbrev IsSupplied : List Edge → Progress → Type 0
IsSupplied edges s =
    (k : ℕ) (edge : Edge)
    → get_elem? edges k ≡ some edge
    → contains_key edge.target s.outputs ≡ true
    → contains_key edge.source s.outputs ≡ true

IsSupplied-by :
    (edges : List Edge) (s t : Progress)
    → t.outputs ≡ s.outputs
    → IsSupplied edges s
    → IsSupplied edges t
IsSupplied-by edges s t same h k edge at_k has_target =
    subst (λ (o : Dict Values). contains_key edge.source o ≡ true) (sym same)
      (h k edge at_k
        (subst (λ (o : Dict Values). contains_key edge.target o ≡ true) same has_target))

pub key-insert :
    (key other : String) (value : Values) (outputs : Dict Values)
    → contains_key other outputs ≡ true
    → contains_key other (insert key value outputs) ≡ true
key-insert key other value outputs e = ground (arith, e, lookup-insert key other value outputs)

key_of_insert :
    (key other : String) (value : Values) (outputs : Dict Values)
    → (key == other) ≡ false
    → contains_key other (insert key value outputs) ≡ true
    → contains_key other outputs ≡ true
key_of_insert key other value outputs ne e =
    ground (arith, e, ne, lookup-insert key other value outputs)

Turn-IsSupplied :
    (edges : List Edge) (node : WorkflowNode) (s t : Progress) (b : Bool)
    → Turn edges node s t b
    → IsSupplied edges s
    → IsSupplied edges t
Turn-IsSupplied edges node s _ _ (stops t same _) h = IsSupplied-by edges s t same h
Turn-IsSupplied edges node s _ _ (fails t same _ _) h = IsSupplied-by edges s t same h
Turn-IsSupplied edges node s _ _ (passes t same _ _) h = IsSupplied-by edges s t same h
Turn-IsSupplied edges node s _ _ (finishes t outputs inputs complete same _ _) h =
    λ k edge at_k has_target.
      subst (λ (o : Dict Values). contains_key edge.source o ≡ true) (sym same)
        (key-insert node.id edge.source outputs s.outputs
          (elim (Bool-cases (edge.target == node.id)) [
            | inl mine ↦ gather_complete s.outputs node.id edge edges k [] inputs at_k mine complete
            | inr other ↦ h k edge at_k (
                key_of_insert node.id edge.target outputs s.outputs
                  (ground (arith, other, eq_iff edge.target node.id, eq_iff node.id edge.target))
                  (subst (λ (o : Dict Values). contains_key edge.target o ≡ true) same has_target))
          ]))

goes_on-IsSupplied :
    (engine : Engine) (edges : List Edge) (rest : Progress → Progress)
    → ((s : Progress) → IsSupplied edges s → IsSupplied edges (rest s))
    → (found : Progress × Bool) → IsSupplied edges found.0
    → IsSupplied edges (goes_on_with engine edges rest found)
goes_on-IsSupplied engine edges rest h (s, true) p = h s p
goes_on-IsSupplied engine edges rest h (s, false) p = p

run_nodes-IsSupplied :
    (engine : Engine) (edges : List Edge) (visits : List (Visit × WorkflowNode)) (s : Progress)
    → IsSupplied edges s
    → IsSupplied edges (run_nodes engine edges visits s)
unfolding run_nodes
run_nodes-IsSupplied engine edges [] s h = h
run_nodes-IsSupplied engine edges ((r, node) ∷ rest) s h =
    goes_on-IsSupplied engine edges (run_nodes engine edges rest)
      (run_nodes-IsSupplied engine edges rest) (visit_node engine edges r node s)
      (Turn-IsSupplied edges node s _ _ (visit_node-IsTurn engine edges r node s) h)

nothing-IsSupplied : (edges : List Edge) → IsSupplied edges nothing_yet
unfolding lookup
nothing-IsSupplied edges k edge at_k e = absurd (ground (arith, e))

-- In a run without control flow, whatever the order in which the nodes are visited, the source of an
-- edge of the workflow has outputs at the end if the target of that edge has outputs.
pub upstream_ran :
    (engine : Engine) (edges : List Edge) (visits : List (Visit × WorkflowNode)) (k : ℕ)
    (edge : Edge)
    → get_elem? edges k ≡ some edge
    → contains_key edge.target (run_nodes engine edges visits nothing_yet).outputs ≡ true
    → contains_key edge.source (run_nodes engine edges visits nothing_yet).outputs ≡ true
upstream_ran engine edges visits k edge at_k =
    run_nodes-IsSupplied engine edges visits nothing_yet (nothing-IsSupplied edges) k edge at_k

-- ===== src/Validation/References.antt =====
-- crates/lingxi-spec/src/validation.rs: the references between subgraphs. Both walks recur with a bound:
-- each call is for a key that is not on the path to it, so that one more than the number of subgraphs
-- is enough.
use ling_xi_agent.Prelude.{
  ℕ, zero, suc, String, Bool, true, false, Option, none, some, List, [], ◌∷◌, ◌++◌, Dict, lookup,
  contains_key, length, ◌==◌, if◌then◌else◌,
}
use ling_xi_agent.Workflow.Ports.{NodeSpec, loop_gate}
use ling_xi_agent.Workflow.Model.{WorkflowNode, Subgraph, Workflow, composite_node_kind}
use ling_xi_agent.Flow.State.{has}
use ling_xi_agent.Validation.Paths.{text_of, indexed}
use ling_xi_agent.Validation.Issues.{
  ValidationIssue, ValidationContext, error_at, spec_in, subgraph_recursive_reference,
}

-- the markers reported, and the issues
pub record Walk : Type 0 where
  pub reported : List String
  pub issues : List ValidationIssue

-- the subgraph that a composite node refers to
unfoldable pub reference_of : WorkflowNode → Option String
reference_of node = if node.kind == composite_node_kind then node.subgraph_id else none

-- a reference to a key on the path
unfoldable pub report_reference : String → ℕ → String → Walk → Walk
unfolding indexed
report_reference key index reference walk =
    let marker = text_of (key ∷ "->" ∷ reference ∷ []) in
    elim (has marker walk.reported) [
      | true ↦ walk
      | false ↦ record {
        reported = marker ∷ walk.reported;
        issues =
            walk.issues
            ++ error_at subgraph_recursive_reference (
                text_of
                  ("subgraphs." ∷ key ∷ ".workflow." ∷ indexed "nodes" index ∷ ".subgraphId" ∷ []))
              ∷ [];
      }
    ]

abbrev pub WalkFrom : Type 0
WalkFrom = String → List String → Walk → Walk

-- what the loop does with a reference
unfoldable pub follow : WalkFrom → Dict Subgraph → String → List String → ℕ → String → Walk → Walk
unfolding report_reference
follow recur subgraphs key path index reference walk = elim (has reference path) [
  | true ↦ report_reference key index reference walk
  | false ↦ elim (contains_key reference subgraphs) [
    | true ↦ recur reference (reference ∷ path) walk
    | false ↦ walk
  ]
]

unfoldable pub walk_nodes :
    WalkFrom → Dict Subgraph → String → List String → ℕ → List WorkflowNode → Walk → Walk
unfolding follow reference_of
walk_nodes recur subgraphs key path index [] walk = walk
walk_nodes recur subgraphs key path index (node ∷ rest) walk =
    walk_nodes recur subgraphs key path (suc index) rest (elim (reference_of node) [
      | none ↦ walk
      | some reference ↦ follow recur subgraphs key path index reference walk
    ])

unfoldable pub walk_recursive_references : ℕ → Dict Subgraph → WalkFrom
unfolding walk_nodes
walk_recursive_references zero subgraphs key path walk = walk
walk_recursive_references (suc fuel) subgraphs key path walk =
    let recur = walk_recursive_references fuel subgraphs in
    elim (lookup key subgraphs) [
      | none ↦ walk
      | some subgraph ↦ walk_nodes recur subgraphs key path 0 subgraph.workflow.nodes walk
    ]

unfoldable pub walk_keys : WalkFrom → Dict Subgraph → Walk → Walk
walk_keys recur [] walk = walk
walk_keys recur ((key, _) ∷ rest) walk = walk_keys recur rest (recur key (key ∷ []) walk)

abbrev pub nothing_walked : Walk
nothing_walked = record { reported = []; issues = [] }

unfoldable pub validate_recursive_references : Workflow → List ValidationIssue
unfolding walk_recursive_references walk_keys
validate_recursive_references root =
    (walk_keys (walk_recursive_references (suc (length root.subgraphs)) root.subgraphs)
      root.subgraphs nothing_walked).issues

unfoldable pub is_gate_spec : Option NodeSpec → Bool
is_gate_spec none = false
is_gate_spec (some spec) = elim spec.control [ loop_gate ↦ true | _ ↦ false ]

unfoldable pub any_loop_gate : ValidationContext → (String → Bool) → List WorkflowNode → Bool
unfolding is_gate_spec spec_in
any_loop_gate context nested [] = false
any_loop_gate context nested (node ∷ rest) =
    let later = any_loop_gate context nested rest in
    let here =
      if node.kind == composite_node_kind
      then elim node.subgraph_id [ none ↦ false | some id ↦ nested id ]
      else is_gate_spec (spec_in context node) in
    if here then true else later

unfoldable pub subgraph_has_loop_gate : ℕ → ValidationContext → String → List String → Bool
unfolding any_loop_gate
subgraph_has_loop_gate zero context id visiting = false
subgraph_has_loop_gate (suc fuel) context id visiting =
    let nested = λ (inner : String). subgraph_has_loop_gate fuel context inner (id ∷ visiting) in
    elim (lookup id context.subgraphs) [
      | none ↦ false
      | some subgraph ↦ elim (has id visiting) [
        | true ↦ false
        | false ↦ any_loop_gate context nested subgraph.workflow.nodes
      ]
    ]

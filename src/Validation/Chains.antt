-- ===== src/Validation/Chains.antt =====
-- crates/lingxi-spec/src/validation.rs: `validate_recursive_references` reports every subgraph that refers to
-- itself through others.
use ling_xi_agent.Prelude.{
  ℕ, zero, suc, ◌≤◌, String, Bool, true, false, ◌&&◌, Bool-cases, Option, Option-cases, none, some,
  List, [], ◌∷◌, ◌≡◌, ap, subst, inl, inr, arith, length, length-append, any, Dict, lookup,
  contains_key, ◌==◌, eq_iff,
}
use ling_xi_agent.Workflow.Model.{WorkflowNode, Subgraph}
use ling_xi_agent.Flow.State.{has}
use ling_xi_agent.Validation.Paths.{text_of, indexed}
use ling_xi_agent.Validation.Issues.{error_at, subgraph_recursive_reference}
use ling_xi_agent.Validation.References.{
  Walk, WalkFrom, reference_of, report_reference, follow, walk_nodes, walk_recursive_references,
}

-- the walk has reported no more markers than issues
abbrev pub IsTold : Walk → Type 0
IsTold walk = length walk.reported ≤ length walk.issues

abbrev pub told : Walk → ℕ
told walk = length walk.issues

has-length : (text : String) (list : List String) → has text list ≡ true → 1 ≤ length list
has-length text [] e = absurd (ground (arith, e))
has-length text (x ∷ rest) e = omega arith

-- a reference to that subgraph
abbrev names : String → Option String → Bool
names r none = false
names r (some x) = x == r

names-some :
    (r : String) (reference : Option String) → names r reference ≡ true → reference ≡ some r
names-some r none e = absurd (ground (arith, e))
names-some r (some x) e = ap (λ (y : String). some y) ((eq_iff x r).0 e)

-- Each part of the walk keeps that, and takes no issue back.
abbrev pub Tells : WalkFrom → Type 0
Tells recur =
    (key : String) (path : List String) (walk : Walk)
    → IsTold walk
    → IsTold (recur key path walk) × (told walk ≤ told (recur key path walk))

report-tells :
    (key reference : String) (index : ℕ) (walk : Walk)
    → IsTold walk
    → let after = report_reference key index reference walk in
      IsTold after × ((told walk ≤ told after) × (1 ≤ told after))
unfolding report_reference
report-tells key reference index walk h =
    elim (Bool-cases (has (text_of (key ∷ "->" ∷ reference ∷ [])) walk.reported)) [
      | inl e ↦
          let some_marker = has-length _ walk.reported e in
          simp (report_reference, e) (h, (omega arith, omega (arith, h, some_marker)))
      | inr e ↦
          let issue = error_at subgraph_recursive_reference (
            text_of
              ("subgraphs." ∷ key ∷ ".workflow." ∷ indexed "nodes" index ∷ ".subgraphId" ∷ [])) in
          let one = length-append walk.issues (issue ∷ []) in
          simp (report_reference, e)
            (omega (arith, h, one), (omega (arith, one), omega (arith, one)))
    ]

module _ (recur : WalkFrom) (tells : Tells recur) (subgraphs : Dict Subgraph) where
  follow-tells :
      (key reference : String) (path : List String) (index : ℕ) (walk : Walk)
      → IsTold walk
      → let after = follow recur subgraphs key path index reference walk in
        IsTold after × (told walk ≤ told after)
  unfolding follow
  follow-tells key reference path index walk h = elim (Bool-cases (has reference path)) [
    | inl e ↦
        let (still, (more, _)) = report-tells key reference index walk h in
        simp (follow, e) (still, more)
    | inr e ↦ elim (Bool-cases (contains_key reference subgraphs)) [
      | inl e1 ↦ simp (follow, e, e1) (tells reference (reference ∷ path) walk h)
      | inr e1 ↦ simp (follow, e, e1) (h, omega arith)
    ]
  ]

  -- what a node does to the walk
  abbrev at_node : String → List String → ℕ → Option String → Walk → Walk
  at_node key path index reference walk = elim reference [
    | none ↦ walk
    | some r ↦ follow recur subgraphs key path index r walk
  ]

  at_node-tells :
      (key : String) (path : List String) (index : ℕ) (reference : Option String) (walk : Walk)
      → IsTold walk
      → IsTold (at_node key path index reference walk)
        × (told walk ≤ told (at_node key path index reference walk))
  at_node-tells key path index none walk h = (h, omega arith)
  at_node-tells key path index (some r) walk h = follow-tells key r path index walk h

  walk_nodes-tells :
      (key : String) (path : List String) (index : ℕ) (nodes : List WorkflowNode) (walk : Walk)
      → IsTold walk
      → let after = walk_nodes recur subgraphs key path index nodes walk in
        IsTold after × (told walk ≤ told after)
  unfolding walk_nodes
  walk_nodes-tells key path index [] walk h = (h, omega arith)
  walk_nodes-tells key path index (node ∷ rest) walk h =
      let reference = reference_of node in
      let (here, more) = at_node-tells key path index reference walk h in
      let (after, later) =
        walk_nodes-tells key path (suc index) rest (at_node key path index reference walk) here in
      (after, omega (arith, more, later))

  -- what a walk without issues did at a reference to a subgraph
  abbrev IsFollowed : List String → String → Type 0
  IsFollowed path r =
      (has r path ≡ false) × ((walk : Walk) × (IsTold walk × (told (recur r (r ∷ path) walk) ≡ 0)))

  follow-IsFollowed :
      (key r : String) (path : List String) (index : ℕ) (walk : Walk)
      → IsTold walk
      → contains_key r subgraphs ≡ true
      → told (follow recur subgraphs key path index r walk) ≡ 0
      → IsFollowed path r
  unfolding follow
  follow-IsFollowed key r path index walk h known silent = elim (Bool-cases (has r path)) [
    | inl e ↦ absurd (ground (arith, silent, e, (report-tells key r index walk h).1.1))
    | inr e ↦ (e, (walk, (h, ground (arith, silent, e, known))))
  ]

  walk_nodes-IsFollowed :
      (key r : String) (path : List String) (index : ℕ) (nodes : List WorkflowNode) (walk : Walk)
      → IsTold walk
      → contains_key r subgraphs ≡ true
      → any (λ node. names r (reference_of node)) nodes ≡ true
      → told (walk_nodes recur subgraphs key path index nodes walk) ≡ 0
      → IsFollowed path r
  unfolding walk_nodes
  walk_nodes-IsFollowed key r path index [] walk h known named silent =
      absurd (ground (arith, named))
  walk_nodes-IsFollowed key r path index (node ∷ rest) walk h known named silent =
      let reference = reference_of node in
      let after = at_node key path index reference walk in
      let (here, _) = at_node-tells key path index reference walk h in
      let (_, later) = walk_nodes-tells key path (suc index) rest after here in
      let quiet : told after ≡ 0 = omega (arith, later, silent) in
      elim (Bool-cases (names r reference)) [
        | inr other ↦
            walk_nodes-IsFollowed key r path (suc index) rest after here known
              (ground (arith, named, other)) silent
        | inl this ↦
            let same = names-some r reference this in
            follow-IsFollowed key r path index walk h known
              (subst (λ (o : Option String). told (at_node key path index o walk) ≡ 0) same quiet)
      ]

-- the subgraph of a key has a node that refers to another one
unfoldable pub refers : Dict Subgraph → String → String → Bool
unfolding reference_of
refers subgraphs key r = elim (lookup key subgraphs) [
  | none ↦ false
  | some subgraph ↦ any (λ node. names r (reference_of node)) subgraph.workflow.nodes
]

-- Each subgraph of the list is referred to by the one before it, the first by the one of the key.
unfoldable pub is_chain : Dict Subgraph → String → List String → Bool
unfolding refers
is_chain subgraphs key [] = true
is_chain subgraphs key (r ∷ rest) =
    (refers subgraphs key r && contains_key r subgraphs) && is_chain subgraphs r rest

-- nothing on the path, and nothing twice
unfoldable pub IsFresh : List String → List String → Type 0
IsFresh path [] = Unit {0}
IsFresh path (r ∷ rest) = (has r path ≡ false) × IsFresh (r ∷ path) rest

-- A walk without issues met no key of a chain twice.
abbrev pub Finds : Dict Subgraph → ℕ → WalkFrom → Type 0
Finds subgraphs n recur =
    (key : String) (path : List String) (walk : Walk) (chain : List String)
    → IsTold walk
    → told (recur key path walk) ≡ 0
    → length chain ≤ n
    → is_chain subgraphs key chain ≡ true
    → IsFresh path chain

pub walk-Tells :
    (fuel : ℕ) (subgraphs : Dict Subgraph) → Tells (walk_recursive_references fuel subgraphs)
unfolding walk_recursive_references
walk-Tells zero subgraphs key path walk h = (h, omega arith)
walk-Tells (suc fuel) subgraphs key path walk h = elim (Option-cases (lookup key subgraphs)) [
  | inl e ↦ simp (walk_recursive_references, e) (h, omega arith)
  | inr (subgraph, e) ↦
      simp (walk_recursive_references, e)
        (walk_nodes-tells (walk_recursive_references fuel subgraphs) (walk-Tells fuel subgraphs)
          subgraphs key path 0 subgraph.workflow.nodes walk h)
]

pub walk-Finds :
    (fuel : ℕ) (subgraphs : Dict Subgraph)
    → Finds subgraphs fuel (walk_recursive_references fuel subgraphs)
unfolding walk_recursive_references is_chain refers IsFresh
walk-Finds fuel subgraphs key path walk [] h silent short e = tt
walk-Finds zero subgraphs key path walk (r ∷ rest) h silent short e = absurd (omega (arith, short))
walk-Finds (suc fuel) subgraphs key path walk (r ∷ rest) h silent short e =
    elim (Option-cases (lookup key subgraphs)) [
      | inl absent ↦ absurd (ground (arith, e, absent))
      | inr (subgraph, found) ↦
          let recur = walk_recursive_references fuel subgraphs in
          let nodes = subgraph.workflow.nodes in
          let (fresh, (inner, (told_inner, quiet))) =
            walk_nodes-IsFollowed recur (walk-Tells fuel subgraphs) subgraphs key r path 0 nodes
              walk h (ground (arith, e, found)) (ground (arith, e, found))
              (ground (arith, silent, found)) in
          (
            fresh,
            walk-Finds fuel subgraphs r (r ∷ path) inner rest told_inner quiet
                (omega (arith, short)) (ground (arith, e, found)),
          )
    ]

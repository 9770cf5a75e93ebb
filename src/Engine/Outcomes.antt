-- ===== src/Engine/Outcomes.antt =====
-- crates/lingxi-runtime/src/engine.rs: what becomes of each node of a run.
use ling_xi_agent.Prelude.{
  ℕ, zero, suc, String, Bool, true, false, ◌||◌, Bool-cases, some, List, [], ◌∷◌, ◌++◌, Dict,
  contains_key, lookup-insert, ◌≡◌, refl, subst, inl, inr, arith, get_elem?, eq_refl,
}
use ling_xi_agent.Workflow.Model.{WorkflowNode, Edge}
use ling_xi_agent.Flow.State.{Values, has}
use ling_xi_agent.Flow.Run.{Engine}
use ling_xi_agent.Engine.Run.{Visit, Progress, visit_node, goes_on_with, run_nodes}
use ling_xi_agent.Engine.Upstream.{Turn, stops, finishes, fails, passes, visit_node-IsTurn}

-- The node has outputs, or is listed as failed or as skipped.
abbrev pub has_outcome : String → Progress → Bool
has_outcome id s = contains_key id s.outputs || (has id s.failed || has id s.skipped)

has-append_left :
    (id : String) (list more : List String) → has id list ≡ true → has id (list ++ more) ≡ true
has-append_left id [] more e = absurd (ground (arith, e))
has-append_left id (x ∷ rest) more e = ground (arith, e, has-append_left id rest more)

has-append_last : (id : String) (list : List String) → has id (list ++ id ∷ []) ≡ true
has-append_last id [] = ground (arith, eq_refl id)
has-append_last id (x ∷ rest) = ground (arith, has-append_last id rest)

outcome_of_parts :
    (id : String) (s t : Progress) (outputs : Dict Values) (failed skipped : List String)
    → t.outputs ≡ outputs
    → t.failed ≡ failed
    → t.skipped ≡ skipped
    → (contains_key id outputs || (has id failed || has id skipped)) ≡ true
    → has_outcome id t ≡ true
outcome_of_parts id s t outputs failed skipped e1 e2 e3 h = rw (e1, e2, e3) h

module _ (edges : List Edge) (node : WorkflowNode) (s : Progress) where
  Turn-stops : (t : Progress) (b : Bool) → Turn edges node s t b → b ≡ false → t.is_cancelled ≡ true
  Turn-stops _ _ (stops t _ cancelled) e = cancelled
  Turn-stops _ _ (finishes t _ _ _ _ _ _) e = absurd (ground (arith, e))
  Turn-stops _ _ (fails t _ _ _) e = absurd (ground (arith, e))
  Turn-stops _ _ (passes t _ _ _) e = absurd (ground (arith, e))

  Turn-settles :
      (t : Progress) (b : Bool) → Turn edges node s t b → b ≡ true → has_outcome node.id t ≡ true
  Turn-settles _ _ (stops t _ _) e = absurd (ground (arith, e))
  Turn-settles _ _ (finishes t outputs _ _ e1 e2 e3) e =
      rw (e1, e2, e3)
        (ground (arith, lookup-insert node.id node.id outputs s.outputs, eq_refl node.id))
  Turn-settles _ _ (fails t e1 e2 e3) e =
      rw (e1, e2, e3) (ground (arith, has-append_last node.id s.failed))
  Turn-settles _ _ (passes t e1 e2 e3) e =
      rw (e1, e2, e3) (ground (arith, has-append_last node.id s.skipped))

  Turn-keeps :
      (id : String) (t : Progress) (b : Bool)
      → Turn edges node s t b
      → has_outcome id s ≡ true
      → b ≡ true
      → has_outcome id t ≡ true
  Turn-keeps id _ _ (stops t _ _) h e = absurd (ground (arith, e))
  Turn-keeps id _ _ (finishes t outputs _ _ e1 e2 e3) h e =
      rw (e1, e2, e3) (ground (arith, h, lookup-insert node.id id outputs s.outputs))
  Turn-keeps id _ _ (fails t e1 e2 e3) h e =
      rw (e1, e2, e3)
        (elim (Bool-cases (has id s.failed)) [
          | inl there ↦ ground (arith, has-append_left id s.failed (node.id ∷ []) there)
          | inr not_there ↦ ground (arith, h, not_there)
        ])
  Turn-keeps id _ _ (passes t e1 e2 e3) h e =
      rw (e1, e2, e3)
        (elim (Bool-cases (has id s.skipped)) [
          | inl there ↦ ground (arith, has-append_left id s.skipped (node.id ∷ []) there)
          | inr not_there ↦ ground (arith, h, not_there)
        ])

module _ (engine : Engine) (edges : List Edge) where
  goes_on-has_outcome :
      (id : String) (rest : Progress → Progress) (found : Progress × Bool)
      → (found.1 ≡ true
          → (rest found.0).is_cancelled ≡ false
          → has_outcome id (rest found.0) ≡ true)
      → (found.1 ≡ false → found.0.is_cancelled ≡ true)
      → (goes_on_with engine edges rest found).is_cancelled ≡ false
      → has_outcome id (goes_on_with engine edges rest found) ≡ true
  goes_on-has_outcome id rest (t, true) h stopped runs = h refl runs
  goes_on-has_outcome id rest (t, false) h stopped runs =
      absurd (ground (arith, runs, stopped refl))

  run_nodes-keeps :
      (id : String) (visits : List (Visit × WorkflowNode)) (s : Progress)
      → has_outcome id s ≡ true
      → (run_nodes engine edges visits s).is_cancelled ≡ false
      → has_outcome id (run_nodes engine edges visits s) ≡ true
  unfolding run_nodes
  run_nodes-keeps id [] s h runs = h
  run_nodes-keeps id ((r, node) ∷ rest) s h runs =
      let made = visit_node-IsTurn engine edges r node s in
      goes_on-has_outcome id (run_nodes engine edges rest) (visit_node engine edges r node s)
        (λ on. run_nodes-keeps id rest _ (Turn-keeps edges node s id _ _ made h on))
        (Turn-stops edges node s _ _ made) runs

  -- When a run without control flow is not cancelled, every node that it is given has outputs, or is
  -- listed as failed, or is listed as skipped.
  pub every_node_has_outcome :
      (visits : List (Visit × WorkflowNode)) (s : Progress) (k : ℕ) (r : Visit)
      (node : WorkflowNode)
      → get_elem? visits k ≡ some (r, node)
      → (run_nodes engine edges visits s).is_cancelled ≡ false
      → has_outcome node.id (run_nodes engine edges visits s) ≡ true
  unfolding run_nodes
  every_node_has_outcome [] s k r node at_k runs = absurd (ground (arith, at_k))
  every_node_has_outcome ((q, first) ∷ rest) s zero r node at_k runs =
      let same : first ≡ node = ground (arith, at_k) in
      let made = visit_node-IsTurn engine edges q first s in
      subst
        (λ (n : WorkflowNode).
          has_outcome n.id (run_nodes engine edges ((q, first) ∷ rest) s) ≡ true)
        same
        (goes_on-has_outcome first.id (run_nodes engine edges rest)
          (visit_node engine edges q first s)
          (λ on. run_nodes-keeps first.id rest _ (Turn-settles edges first s _ _ made on))
          (Turn-stops edges first s _ _ made) runs)
  every_node_has_outcome ((q, first) ∷ rest) s (suc k) r node at_k runs =
      goes_on-has_outcome node.id (run_nodes engine edges rest) (visit_node engine edges q first s)
        (λ _. every_node_has_outcome rest _ k r node at_k)
        (Turn-stops edges first s _ _ (visit_node-IsTurn engine edges q first s)) runs

-- ===== src/Workflow/GateBudget.antt =====
-- crates/lingxi-spec/src/validation.rs: `validate_gate_budget`, by the names of the parameters that it
-- reports, against `gate_budget` of the scheduler. The `positive_integer` of both files is the same code.
use ling_xi_agent.Prelude.{
  ℕ, ◌≤◌, String, Bool, true, false, Option, Option-cases, none, some, List, [], ◌∷◌, ◌++◌, ◌≡◌,
  ◌↔◌, inl, inr, arith, leb,
}
use ling_xi_agent.Workflow.Model.{WorkflowNode}
use ling_xi_agent.Flow.Gate.{limit_of, gate_budget, positive_integer}

abbrev pub most_iterations : ℕ
most_iterations = 1000000

abbrev pub most_millis : ℕ
most_millis = 86400000

abbrev pub is_within : Option ℕ → ℕ → Bool
is_within none maximum = false
is_within (some value) maximum = leb value maximum

unfoldable pub invalid_limit : WorkflowNode → String → ℕ → List String
unfolding positive_integer
invalid_limit node name maximum = elim (is_within (limit_of name node) maximum) [
  | true ↦ []
  | false ↦ name ∷ []
]

unfoldable pub validate_gate_budget : WorkflowNode → List String
unfolding invalid_limit
validate_gate_budget node =
    invalid_limit node "maxIterations" most_iterations ++ invalid_limit node "timeoutMs" most_millis

-- Validation reports nothing about the parameters of a gate exactly when the scheduler finds a budget
-- in them, of at most 1000000 iterations and 86400000 ms.
pub gate_budget_validated :
    (node : WorkflowNode)
    → (validate_gate_budget node ≡ []) ↔ (
        (iterations : ℕ) × ((millis : ℕ) × ((gate_budget node ≡ some (iterations, millis))
            × ((iterations ≤ most_iterations) × (millis ≤ most_millis)))))
unfolding validate_gate_budget invalid_limit gate_budget
gate_budget_validated node = elim (Option-cases (limit_of "maxIterations" node)) [
  | inl absent ↦ (
    (λ e. absurd (ground (arith, e, absent))),
    (λ found. absurd (ground (arith, found.1.1.0, absent))),
  )
  | inr (m, e1) ↦ elim (Option-cases (limit_of "timeoutMs" node)) [
    | inl absent ↦ (
      (λ e. absurd (ground (arith, e, e1, absent))),
      (λ found. absurd (ground (arith, found.1.1.0, e1, absent))),
    )
    | inr (t, e2) ↦ (
      (λ e. (
        m,
        (t, (ground (arith, e1, e2), (ground (arith, e, e1, e2), ground (arith, e, e1, e2)))),
      )),
      (λ found. ground (arith, found.1.1.0, found.1.1.1.0, found.1.1.1.1, e1, e2)),
    )
  ]
]

-- ===== src/Workflow/Examples.antt =====
-- crates/lingxi-spec/src/validation.rs: the parameters of one loop gate.
use ling_xi_agent.Prelude.{ℕ, ◌≤◌, none, some, [], ◌∷◌, ◌≡◌, ◌↔◌, true, refl, lookup}
use ling_xi_agent.Protocol.Json.{number, pos_int}
use ling_xi_agent.Workflow.Model.{WorkflowNode}
use ling_xi_agent.Flow.Gate.{gate_budget, positive_integer}
use ling_xi_agent.Workflow.GateBudget.{
  validate_gate_budget, invalid_limit, most_iterations, most_millis, gate_budget_validated,
}

abbrev gate : WorkflowNode
gate = record {
  id = "gate";
  kind = "core.loop_gate";
  position = record { x = 0; y = 0 };
  params = ("maxIterations", number (pos_int 2000000)) ∷ ("timeoutMs", number (pos_int 1000)) ∷ [];
  enabled = true;
  subgraph_id = none;
}

too_many_test : validate_gate_budget gate ≡ "maxIterations" ∷ []
unfolding validate_gate_budget invalid_limit positive_integer lookup
too_many_test = refl

gate_budget_validated_example : (validate_gate_budget gate ≡ []) ↔ (
    (iterations : ℕ) × ((millis : ℕ) × ((gate_budget gate ≡ some (iterations, millis))
        × ((iterations ≤ most_iterations) × (millis ≤ most_millis)))))
gate_budget_validated_example = gate_budget_validated gate

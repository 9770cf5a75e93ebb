-- ===== src/Validation/Issues.antt =====
-- crates/lingxi-spec/src/validation.rs: issues and reports. An issue keeps its code, its severity and its
-- path, and not its message. A check is a function that returns the issues it pushes, in their order.
use ling_xi_agent.Prelude.{
  ℕ, suc, ◌+◌, ◌-◌, Bool, true, false, List, [], ◌∷◌, ◌++◌, String, Dict, Option, none, some,
  lookup, length, nat_eq, ◌==◌, if◌then◌else◌,
}
use ling_xi_agent.Context.Message.{AssetRef}
use ling_xi_agent.Workflow.Ports.{NodeSpec}
use ling_xi_agent.Workflow.Model.{Workflow, WorkflowNode, Subgraph, composite_node_kind}

pub data IssueCode : Type 0 where
  unsupported_schema empty_workflow duplicate_node_id empty_node_id unknown_kind : IssueCode
  invalid_position param_missing param_type_mismatch param_invalid_option : IssueCode
  param_unknown duplicate_edge_id self_loop dangling_source dangling_target : IssueCode
  unknown_port type_mismatch input_conflict duplicate_edge unconnected_input : IssueCode
  cycle control_required loop_multiple_gates loop_uncontrolled_cycle : IssueCode
  loop_no_exit_path loop_missing_trigger loop_invalid_budget : IssueCode
  subgraph_duplicate_id subgraph_unknown_reference subgraph_invalid_port : IssueCode
  subgraph_invalid_binding subgraph_unsupported_version : IssueCode
  subgraph_recursive_reference subgraph_nested_definitions : IssueCode
  subgraph_nested_loop_unsupported asset_unknown asset_invalid : IssueCode

pub data Severity : Type 0 where
  error warning : Severity

pub record ValidationIssue : Type 0 where
  pub code : IssueCode
  pub severity : Severity
  pub path : String

abbrev pub error_at : IssueCode → String → ValidationIssue
error_at code path = record { code = code; severity = error; path = path }

abbrev pub warning_at : IssueCode → String → ValidationIssue
warning_at code path = record { code = code; severity = warning; path = path }

-- an error if the test holds
abbrev pub error_if : Bool → IssueCode → String → List ValidationIssue
error_if true code path = error_at code path ∷ []
error_if false code path = []

abbrev pub is_error : ValidationIssue → Bool
is_error issue = elim issue.severity [ error ↦ true | warning ↦ false ]

unfoldable pub count_errors : List ValidationIssue → ℕ
count_errors [] = 0
count_errors (issue ∷ rest) = (if is_error issue then 1 else 0) + count_errors rest

pub record ValidationReport : Type 0 where
  pub ok : Bool
  pub schema_version : String
  pub node_count : ℕ
  pub edge_count : ℕ
  pub errors : ℕ
  pub warnings : ℕ
  pub issues : List ValidationIssue

unfoldable pub report : Workflow → List ValidationIssue → ValidationReport
unfolding count_errors
report workflow issues =
    let errors = count_errors issues in
    record {
      ok = nat_eq errors 0;
      schema_version = workflow.graph.schema_version;
      node_count = length workflow.graph.nodes;
      edge_count = length workflow.graph.edges;
      errors = errors;
      warnings = length issues - errors;
      issues = issues;
    }

pub record ValidationContext : Type 0 where
  pub resolver : String → Option NodeSpec
  pub subgraphs : Dict Subgraph
  pub specs : Dict NodeSpec
  pub assets : Dict AssetRef

unfoldable pub spec_in : ValidationContext → WorkflowNode → Option NodeSpec
spec_in context node =
    if node.kind == composite_node_kind
    then elim node.subgraph_id [ none ↦ none | some id ↦ lookup id context.specs ]
    else context.resolver node.kind

-- the issues of a check for each element of a list, with its index
abbrev pub for_each {ℓ} :
    {A : Type ℓ} → (ℕ → A → List ValidationIssue) → ℕ → List A → List ValidationIssue
for_each check index [] = []
for_each check index (x ∷ rest) = check index x ++ for_each check (suc index) rest

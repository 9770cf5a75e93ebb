-- ===== src/Protocol/Config.antt =====
-- crates/lingxi-runtime/src/agent_protocol.rs: budgets, usage, configurations and their revisions
use ling_xi_agent.Prelude.{
  ℕ, ◌+◌, ◌-◌, ◌^◌, min, String, Bool, true, false, ◌&&◌, Option, List, [], ◌∷◌, ◌++◌, ◌==◌, nat_eq,
  is_blank, if◌then◌else◌,
}
use ling_xi_agent.Errors.{Result, ◌>>◌, fail_if, agent_invalid_config, agent_invalid_budget}
use ling_xi_agent.Protocol.Float.{F64, f64_eq}

pub record AgentBudget : Type 0 where
  pub max_iterations : ℕ  -- u32
  pub max_tool_calls : ℕ  -- u32
  pub max_total_tokens : ℕ  -- u64
  pub timeout_ms : ℕ  -- u64

unfoldable pub validate_budget : AgentBudget → Result (Unit {0})
validate_budget budget = do
  fail_if (nat_eq budget.max_iterations 0) agent_invalid_budget
  fail_if (nat_eq budget.max_tool_calls 0) agent_invalid_budget
  fail_if (nat_eq budget.timeout_ms 0) agent_invalid_budget

pub record AgentUsage : Type 0 where
  pub iterations : ℕ  -- u32
  pub model_calls : ℕ  -- u32
  pub tool_calls : ℕ  -- u32
  pub prompt_tokens : ℕ  -- u64
  pub completion_tokens : ℕ  -- u64
  pub elapsed_ms : ℕ  -- u64

-- `AgentUsage::default()`
abbrev pub no_usage : AgentUsage
no_usage = record {
  iterations = 0;
  model_calls = 0;
  tool_calls = 0;
  prompt_tokens = 0;
  completion_tokens = 0;
  elapsed_ms = 0;
}

-- `saturating_add` on `u64`
unfoldable pub total_tokens : AgentUsage → ℕ
total_tokens usage = min (usage.prompt_tokens + usage.completion_tokens) (2 ^ 64 - 1)

pub record AgentConfigSnapshot : Type 0 where
  pub revision : ℕ  -- u64
  pub model : String
  pub temperature : F64
  pub reasoning : String
  pub role_prompt : String
  pub system_prompt : String
  pub max_iterations : ℕ
  pub max_tool_calls : ℕ
  pub max_total_tokens : ℕ
  pub timeout_ms : ℕ
  pub toolset : List String
  pub skills : List String
  pub lsp : List String

-- `AgentConfigSnapshot::default()`; the temperature is 0.2
abbrev pub default_config : AgentConfigSnapshot
default_config = record {
  revision = 0;
  model = "gpt-4o-mini";
  temperature = 0x3fc999999999999a;
  reasoning = "auto";
  role_prompt = "You are a capable autonomous agent.";
  system_prompt = "";
  max_iterations = 12;
  max_tool_calls = 48;
  max_total_tokens = 0;
  timeout_ms = 300_000;
  toolset = [];
  skills = [];
  lsp = [];
}

unfoldable pub budget : AgentConfigSnapshot → AgentBudget
budget config = record {
  max_iterations = config.max_iterations;
  max_tool_calls = config.max_tool_calls;
  max_total_tokens = config.max_total_tokens;
  timeout_ms = config.timeout_ms;
}

unfoldable pub validate_config : AgentConfigSnapshot → Result (Unit {0})
unfolding validate_budget budget
validate_config config = do
  validate_budget (budget config)
  fail_if (is_blank config.model) agent_invalid_config

unfoldable pub texts_eq : List String → List String → Bool
texts_eq [] [] = true
texts_eq [] (_ ∷ _) = false
texts_eq (_ ∷ _) [] = false
texts_eq (s ∷ ss) (t ∷ ts) = s == t && texts_eq ss ts

-- one `if before != after { changes.push(..) }`
abbrev changed : Bool → String → List String
changed same field = if same then [] else field ∷ []

-- The fields that differ, by their names: what a change shows of the two values is text for the
-- user. The revision is not among the compared fields.
unfoldable pub diff : AgentConfigSnapshot → AgentConfigSnapshot → List String
unfolding texts_eq f64_eq
diff before next =
    changed (before.model == next.model) "model"
    ++ changed (before.reasoning == next.reasoning) "reasoning"
    ++ changed (f64_eq before.temperature next.temperature) "temperature"
    ++ changed (nat_eq before.max_iterations next.max_iterations) "maxIterations"
    ++ changed (nat_eq before.max_tool_calls next.max_tool_calls) "maxToolCalls"
    ++ changed (nat_eq before.max_total_tokens next.max_total_tokens) "maxTotalTokens"
    ++ changed (nat_eq before.timeout_ms next.timeout_ms) "timeoutMs"
    ++ changed (before.role_prompt == next.role_prompt) "rolePrompt"
    ++ changed (before.system_prompt == next.system_prompt) "systemPrompt"
    ++ changed (texts_eq before.toolset next.toolset) "toolset"
    ++ changed (texts_eq before.skills next.skills) "skills"
    ++ changed (texts_eq before.lsp next.lsp) "lsp"

pub record AgentConfigRevision : Type 0 where
  pub revision : ℕ
  pub status : String
  pub applied_at_ms : Option ℕ
  pub before : AgentConfigSnapshot
  pub after : AgentConfigSnapshot
  pub changes : List String
  pub detail : Option String

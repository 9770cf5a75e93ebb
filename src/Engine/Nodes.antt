-- ===== src/Engine/Nodes.antt =====
-- crates/lingxi-runtime/src/context.rs and builtin.rs: what an executor reads of its node, and the executors
-- and specifications of the built-in kinds. What is logged is left out, and what the user answers to an
-- interaction is in the context. The sum of floats, `to_uppercase`, the text of a JSON value and the
-- float of a JSON number are parameters.
use ling_xi_agent.Prelude.{
  String, Bool, false, ◌||◌, Option, none, some, List, [], lookup, insert, if◌then◌else◌,
}
use ling_xi_agent.Protocol.Float.{F64, f64_eq, f64_lt, is_finite}
use ling_xi_agent.Protocol.Json.{Number, float, Value, null, bool, number, string}
use ling_xi_agent.Permissions.Authorize.{InteractionDecision, rejected}
use ling_xi_agent.Workflow.Ports.{
  PortSpec, ParamSpec, ParamKind, NodeSpec, DataType, ControlKind, param_spec,
}
use ling_xi_agent.Flow.State.{NodeError, Values}
use ling_xi_agent.Flow.Nodes.{missing_input}

pub data Got (A : Type 0) : Type 0 where
  got : A → Got A
  fails : NodeError → Got A

infixl 5 ◌>>=◌
unfoldable pub ◌>>=◌ : {A B : Type 0} → Got A → (A → Got B) → Got B
fails error >>= next = fails error
got value >>= next = next value

abbrev pub invalid_param : NodeError
invalid_param = "node.invalid_param"

abbrev pub invalid_input : NodeError
invalid_input = "node.invalid_input"

abbrev pub interaction_denied : NodeError
interaction_denied = "node.interaction_denied"

abbrev pub node_cancelled : NodeError
node_cancelled = "node.cancelled"

pub record NodeContext : Type 0 where
  pub params : Values
  pub spec : NodeSpec
  pub inputs : Values
  pub is_cancelled : Bool
  pub decision : Got InteractionDecision  -- what `request_interaction` returns

pub record Primitives : Type 0 where
  pub as_f64 : Number → Option F64
  pub add : F64 → F64 → F64
  pub to_uppercase : String → String
  pub display_value : Value → String

unfoldable pub param : NodeContext → String → Option Value
unfolding param_spec
param ctx name = elim (lookup name ctx.params) [
  | some value ↦ some value
  | none ↦ elim (param_spec ctx.spec name) [ none ↦ none | some p ↦ p.default_value ]
]

-- A value of the wanted shape, or the error for another shape, or for none.
abbrev pub as_text : NodeError → NodeError → Option Value → Got String
as_text wrong absent (some (string text)) = got text
as_text wrong absent (some _) = fails wrong
as_text wrong absent none = fails absent

abbrev pub as_bool : NodeError → NodeError → Option Value → Got Bool
as_bool wrong absent (some (bool b)) = got b
as_bool wrong absent (some _) = fails wrong
as_bool wrong absent none = fails absent

abbrev pub or_fail : NodeError → Option F64 → Got F64
or_fail error none = fails error
or_fail error (some value) = got value

abbrev pub as_number : (Number → Option F64) → NodeError → NodeError → Option Value → Got F64
as_number as_f64 wrong absent (some (number n)) = or_fail wrong (as_f64 n)
as_number as_f64 wrong absent (some _) = fails wrong
as_number as_f64 wrong absent none = fails absent

unfoldable pub string_param : NodeContext → String → Got String
unfolding param
string_param ctx name = as_text invalid_param invalid_param (param ctx name)

unfoldable pub bool_param : NodeContext → String → Got Bool
unfolding param
bool_param ctx name = as_bool invalid_param invalid_param (param ctx name)

unfoldable pub text_input : NodeContext → String → Got String
text_input ctx name = as_text invalid_input missing_input (lookup name ctx.inputs)

unfoldable pub check_cancelled : NodeContext → Got (Unit {0})
check_cancelled ctx = if ctx.is_cancelled then fails node_cancelled else got tt

-- `NodeOutput::new().with(..)`
abbrev pub with_output : String → Value → Values
with_output port value = insert port value []

-- `Value::from`, of a float
abbrev pub from_f64 : F64 → Value
from_f64 value = if is_finite value then number (float value) else null

abbrev pub or_null : Option Value → Value
or_null none = null
or_null (some value) = value

abbrev pub or_missing : Option Value → Got Value
or_missing none = fails missing_input
or_missing (some value) = got value

-- `a >= b`
abbrev pub at_least : F64 → F64 → Bool
at_least a b = f64_eq a b || f64_lt b a

abbrev pub port : String → DataType → Bool → Bool → PortSpec
port name type required control = record {
  name = name;
  data_type = type;
  required = required;
  control = control;
  group = none;
}

abbrev pub with_default : String → ParamKind → Value → ParamSpec
with_default name kind value = record {
  name = name;
  kind = kind;
  default_value = some value;
  required = false;
  options = [];
}

abbrev pub node_spec :
    String → ControlKind → List String → List PortSpec → List PortSpec → List ParamSpec → NodeSpec
node_spec kind control capabilities inputs outputs params = record {
  kind = kind;
  inputs = inputs;
  outputs = outputs;
  params = params;
  capabilities = capabilities;
  control = control;
}

-- a kind with its executor
abbrev pub Entry : Type 0
Entry = NodeSpec × (NodeContext → Got Values)

-- the payload of an approval, unless it was rejected
abbrev pub approve : NodeContext → InteractionDecision → Got Values
approve ctx rejected = fails interaction_denied
approve ctx _ = got (with_output "payload" (or_null (lookup "payload" ctx.inputs)))

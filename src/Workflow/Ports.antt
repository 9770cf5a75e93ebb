-- ===== src/Workflow/Ports.antt =====
-- crates/lingxi-spec/src/node.rs: the types of ports, and the specification of a node kind. The texts
-- of the editor are left out.
use ling_xi_agent.Prelude.{
  String, Bool, true, false, ◌||◌, ◌&&◌, Option, none, some, List, [], ◌∷◌, ◌++◌, any, ◌==◌,
  if◌then◌else◌,
}
use ling_xi_agent.Protocol.Json.{Value}

pub data DataType : Type 0 where
  text number boolean json image audio video document any_type : DataType

abbrev pub type_eq : DataType → DataType → Bool
type_eq text text = true
type_eq number number = true
type_eq boolean boolean = true
type_eq json json = true
type_eq image image = true
type_eq audio audio = true
type_eq video video = true
type_eq document document = true
type_eq any_type any_type = true
type_eq _ _ = false

unfoldable pub is_media : DataType → Bool
is_media type = elim type [
  | image ↦ true
  | audio ↦ true
  | video ↦ true
  | document ↦ true
  | _ ↦ false
]

-- `self.accepts(source)`
unfoldable pub accepts : DataType → DataType → Bool
unfolding is_media
accepts self source =
    if type_eq self any_type || (type_eq source any_type || type_eq self source)
    then true
    else type_eq self json && is_media source

pub data ControlKind : Type 0 where
  normal branch loop_gate : ControlKind

pub record PortSpec : Type 0 where
  pub name : String
  pub data_type : DataType
  pub required : Bool
  pub control : Bool
  pub group : Option String

pub data ParamKind : Type 0 where
  text text_area number boolean select asset : ParamKind

-- the options of a parameter are their values
pub record ParamSpec : Type 0 where
  pub name : String
  pub kind : ParamKind
  pub default_value : Option Value
  pub required : Bool
  pub options : List String

pub record NodeSpec : Type 0 where
  pub kind : String
  pub inputs : List PortSpec
  pub outputs : List PortSpec
  pub params : List ParamSpec
  pub capabilities : List String
  pub control : ControlKind

unfoldable pub find_port : String → List PortSpec → Option PortSpec
find_port name [] = none
find_port name (port ∷ rest) = if port.name == name then some port else find_port name rest

unfoldable pub input_port : NodeSpec → String → Option PortSpec
unfolding find_port
input_port spec name = find_port name spec.inputs

unfoldable pub output_port : NodeSpec → String → Option PortSpec
unfolding find_port
output_port spec name = find_port name spec.outputs

unfoldable pub find_param : String → List ParamSpec → Option ParamSpec
find_param name [] = none
find_param name (param ∷ rest) = if param.name == name then some param else find_param name rest

unfoldable pub param_spec : NodeSpec → String → Option ParamSpec
unfolding find_param
param_spec spec name = find_param name spec.params

unfoldable pub capability : String → NodeSpec → NodeSpec
capability name spec =
    if any (λ existing. existing == name) spec.capabilities
    then spec
    else record spec { capabilities = spec.capabilities ++ name ∷ [] }

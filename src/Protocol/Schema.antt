-- ===== src/Protocol/Schema.antt =====
-- crates/lingxi-runtime/src/agent_protocol.rs: the JSON Schema subset, `validate_json_schema`. What
-- is pushed on the list of violations is returned. A violation keeps where it is and what is wrong
-- as data; the program formats them as text. `as_f64` is the conversion of `serde_json::Number`.
use Prim.Native.String.{count}
use ling_xi_agent.Prelude.{
  ℕ, suc, String, Bool, true, false, not, ◌||◌, Option, none, some, List, [], ◌∷◌, ◌++◌, any,
  is_some, ltb, ◌==◌, if◌then◌else◌,
}
use ling_xi_agent.Protocol.Float.{F64, f64_lt}
use ling_xi_agent.Protocol.Json.{
  Number, pos_int, neg_int, Value, null, bool, number, string, array, object, Items, no_items, item,
  Fields, no_fields, field, get, value_eq, as_u64,
}

pub data Segment : Type 0 where
  property : String → Segment
  position : ℕ → Segment

pub data Problem : Type 0 where
  schema_not_object wrong_type not_an_option : Problem
  below_minimum above_maximum : Problem
  too_short too_long : ℕ → Problem
  missing_property unexpected_property : String → Problem

pub record Violation : Type 0 where
  pub at : List Segment
  pub problem : Problem

abbrev when : Bool → List Segment → Problem → List Violation
when true at problem = record { at = at; problem = problem } ∷ []
when false at problem = []

unfoldable pub type_matches : String → Value → Bool
type_matches name value =
    if name == "object"
    then elim value [ object _ ↦ true | _ ↦ false ]
    else if name == "array"
    then elim value [ array _ ↦ true | _ ↦ false ]
    else if name == "string"
    then elim value [ string _ ↦ true | _ ↦ false ]
    else if name == "number"
    then elim value [ number _ ↦ true | _ ↦ false ]
    else if name == "integer"
    then elim value [ number (pos_int _) ↦ true | number (neg_int _) ↦ true | _ ↦ false ]
    else if name == "boolean"
    then elim value [ bool _ ↦ true | _ ↦ false ]
    else if name == "null"
    then elim value [ null ↦ true | _ ↦ false ]
    else true

abbrev texts : Items → List String
texts no_items = []
texts (item (string s) rest) = s ∷ texts rest
texts (item _ rest) = texts rest

-- the names that `type` allows; none of them means that any value passes
abbrev allowed_types : Option Value → List String
allowed_types (some (string name)) = name ∷ []
allowed_types (some (array names)) = texts names
allowed_types _ = []

abbrev type_ok : List String → Value → Bool
type_ok [] value = true
type_ok (name ∷ names) value = any (λ n. type_matches n value) (name ∷ names)

abbrev contains_value : Items → Value → Bool
contains_value no_items value = false
contains_value (item option rest) value = value_eq option value || contains_value rest value

enum_part : Option Value → Value → List Segment → List Violation
enum_part (some (array options)) value at =
    when (not (contains_value options value)) at not_an_option
enum_part _ value at = []

bound_u64 : Option Value → Option ℕ
bound_u64 none = none
bound_u64 (some v) = as_u64 v

min_length_part : Option ℕ → String → List Segment → List Violation
min_length_part none text at = []
min_length_part (some least) text at = when (ltb (count text) least) at (too_short least)

max_length_part : Option ℕ → String → List Segment → List Violation
max_length_part none text at = []
max_length_part (some most) text at = when (ltb most (count text)) at (too_long most)

length_part : Fields → Value → List Segment → List Violation
unfolding bound_u64 min_length_part max_length_part
length_part schema (string text) at =
    min_length_part (bound_u64 (get "minLength" schema)) text at
    ++ max_length_part (bound_u64 (get "maxLength" schema)) text at
length_part schema _ at = []

abbrev has : String → Fields → Bool
has key fields = is_some (get key fields)

required_part : Items → Fields → List Segment → List Violation
required_part no_items value at = []
required_part (item (string key) rest) value at =
    when (not (has key value)) at (missing_property key) ++ required_part rest value at
required_part (item _ rest) value at = required_part rest value at

required_of : Option Value → Fields → List Segment → List Violation
unfolding required_part
required_of (some (array keys)) value at = required_part keys value at
required_of _ value at = []

known_properties : Option Value → Fields
known_properties (some (object properties)) = properties
known_properties _ = no_fields

unexpected_part : Fields → Fields → List Segment → List Violation
unexpected_part known no_fields at = []
unexpected_part known (field key _ rest) at =
    when (not (has key known)) at (unexpected_property key) ++ unexpected_part known rest at

additional_part : Fields → Fields → List Segment → List Violation
unfolding unexpected_part known_properties
additional_part schema value at = elim (get "additionalProperties" schema) [
  | some (bool false) ↦ unexpected_part (known_properties (get "properties" schema)) value at
  | _ ↦ []
]

each_item : (Value → List Segment → List Violation) → Items → ℕ → List Segment → List Violation
each_item check no_items index at = []
each_item check (item child rest) index at =
    check child (at ++ position index ∷ []) ++ each_item check rest (suc index) at

in_array : (Value → List Segment → List Violation) → Value → List Segment → List Violation
unfolding each_item
in_array check (array values) at = each_item check values 0 at
in_array check _ at = []

module _ (as_f64 : Number → F64) where
  bound_f64 : Option Value → Option F64
  bound_f64 (some (number n)) = some (as_f64 n)
  bound_f64 _ = none

  minimum_part : Option F64 → F64 → List Segment → List Violation
  minimum_part none n at = []
  minimum_part (some least) n at = when (f64_lt n least) at below_minimum

  maximum_part : Option F64 → F64 → List Segment → List Violation
  maximum_part none n at = []
  maximum_part (some most) n at = when (f64_lt most n) at above_maximum

  range_part : Fields → Value → List Segment → List Violation
  unfolding bound_f64 minimum_part maximum_part
  range_part schema (number n) at =
      minimum_part (bound_f64 (get "minimum" schema)) (as_f64 n) at
      ++ maximum_part (bound_f64 (get "maximum" schema)) (as_f64 n) at
  range_part schema _ at = []

  -- The keywords that look at the value alone, and not at its children.
  unfoldable pub own_violations : Fields → Value → List Segment → List Violation
  unfolding enum_part length_part range_part
  own_violations schema value at =
      enum_part (get "enum" schema) value at
      ++ length_part schema value at
      ++ range_part schema value at

  required_keys : Fields → Value → List Segment → List Violation
  unfolding required_of
  required_keys schema (object value) at = required_of (get "required" schema) value at
  required_keys schema _ at = []

  unexpected_keys : Fields → Value → List Segment → List Violation
  unfolding additional_part
  unexpected_keys schema (object value) at = additional_part schema value at
  unexpected_keys schema _ at = []

  -- A child schema is found by walking the entries, so that the recursion is on the schema.
  unfoldable mutual
    unfolding own_violations required_keys unexpected_keys in_array get

    pub validate_json_schema : Value → Value → List Segment → List Violation
    validate_json_schema (object schema) value at =
        if not (type_ok (allowed_types (get "type" schema)) value)
        then when true at wrong_type
        else own_violations schema value at
          ++ required_keys schema value at
          ++ children schema value at
          ++ unexpected_keys schema value at
          ++ items_of schema value at
    validate_json_schema _ value at = when true at schema_not_object

    pub children : Fields → Value → List Segment → List Violation
    children no_fields value at = []
    children (field key schema rest) value at =
        if key == "properties" then properties_of schema value at else children rest value at

    pub properties_of : Value → Value → List Segment → List Violation
    properties_of (object properties) (object value) at = each_property properties value at
    properties_of _ _ at = []

    pub each_property : Fields → Fields → List Segment → List Violation
    each_property no_fields value at = []
    each_property (field key schema rest) value at =
        elim (get key value) [
          | none ↦ []
          | some child ↦ validate_json_schema schema child (at ++ property key ∷ [])
        ]
        ++ each_property rest value at

    pub items_of : Fields → Value → List Segment → List Violation
    items_of no_fields value at = []
    items_of (field key schema rest) value at =
        if key == "items"
        then in_array (validate_json_schema schema) value at
        else items_of rest value at

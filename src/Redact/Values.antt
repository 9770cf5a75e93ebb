-- ===== src/Redact/Values.antt =====
-- apps/desktop/src-tauri/src/redact.rs: keys and JSON values, and the configuration of an agent. There
-- is no value when `redact_text` panics.
use Prim.Native.Char.{code}
use ling_xi_agent.Prelude.{
  ℕ, String, Bool, true, false, ◌||◌, ◌&&◌, Option, none, some, List, [], ◌∷◌, any, nat_eq,
}
use ling_xi_agent.Protocol.Json.{
  Value, string, array, object, Fields, no_fields, field, Items, no_items, item,
}
use ling_xi_agent.Protocol.Config.{AgentConfigSnapshot}
use ling_xi_agent.Redact.Scan.{redacted, is_alphanumeric, lower_code}
use ling_xi_agent.Redact.Text.{redact_text}

-- `normalized`, as code points
unfoldable pub normalized : String → List ℕ
unfolding is_alphanumeric
normalized String.[] = []
normalized (String.◌∷◌ ch rest) = elim (is_alphanumeric ch) [
  | true ↦ lower_code ch ∷ normalized rest
  | false ↦ normalized rest
]

abbrev codes_eq : List ℕ → String → Bool
codes_eq [] String.[] = true
codes_eq [] (String.◌∷◌ c word) = false
codes_eq (n ∷ rest) String.[] = false
codes_eq (n ∷ rest) (String.◌∷◌ c word) = nat_eq n (code c) && codes_eq rest word

abbrev ends_with : List ℕ → String → Bool
ends_with [] word = codes_eq [] word
ends_with (n ∷ rest) word = codes_eq (n ∷ rest) word || ends_with rest word

abbrev sensitive_names : List String
sensitive_names =
    "token" ∷ "accesstoken" ∷ "authtoken" ∷ "refreshtoken" ∷ "idtoken" ∷ "apikey" ∷ "secret"
    ∷ "clientsecret" ∷ "password" ∷ "passwd" ∷ "authorization" ∷ "credential" ∷ "credentials"
    ∷ "privatekey" ∷ []

unfoldable pub is_sensitive_key : String → Bool
unfolding normalized
is_sensitive_key key =
    let name = normalized key in
    any (codes_eq name) sensitive_names
    || any (ends_with name) ("token" ∷ "secret" ∷ "password" ∷ [])

abbrev pub with_string : Option String → Option Value
with_string none = none
with_string (some text) = some (string text)

abbrev pub with_items : Option Items → Option Value
with_items none = none
with_items (some items) = some (array items)

abbrev pub with_fields : Option Fields → Option Value
with_fields none = none
with_fields (some fields) = some (object fields)

abbrev pub cons_item : Option Value → Option Items → Option Items
cons_item (some value) (some rest) = some (item value rest)
cons_item _ _ = none

abbrev pub cons_field : String → Option Value → Option Fields → Option Fields
cons_field key (some value) (some rest) = some (field key value rest)
cons_field key _ _ = none

-- The value of a field whose key is sensitive is not looked at.
abbrev pub field_value : Bool → Option Value → Option Value
field_value true value = some (string redacted)
field_value false value = value

unfoldable mutual
  unfolding redact_text is_sensitive_key

  pub redact_json : Value → Option Value
  redact_json (object fields) = with_fields (redact_fields fields)
  redact_json (array items) = with_items (redact_items items)
  redact_json (string text) = with_string (redact_text text)
  redact_json value = some value

  pub redact_items : Items → Option Items
  redact_items no_items = some no_items
  redact_items (item value rest) = cons_item (redact_json value) (redact_items rest)

  pub redact_fields : Fields → Option Fields
  redact_fields no_fields = some no_fields
  redact_fields (field key value rest) =
      cons_field key (field_value (is_sensitive_key key) (redact_json value)) (redact_fields rest)

unfoldable pub redact_config : AgentConfigSnapshot → Option AgentConfigSnapshot
unfolding redact_text
redact_config config = elim (redact_text config.role_prompt) [
  | none ↦ none
  | some role_prompt ↦ elim (redact_text config.system_prompt) [
    | none ↦ none
    | some system_prompt ↦ elim (redact_text config.model) [
      | none ↦ none
      | some model ↦ some (record config {
        role_prompt = role_prompt;
        system_prompt = system_prompt;
        model = model;
      })
    ]
  ]
]

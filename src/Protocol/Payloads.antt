-- ===== src/Protocol/Payloads.antt =====
-- crates/lingxi-runtime/src/agent_protocol.rs: `message_payload_schema`
use ling_xi_agent.Prelude.{
  String, true, ◌||◌, Option, none, some, List, [], ◌∷◌, ◌==◌, if◌then◌else◌,
}
use ling_xi_agent.Protocol.Json.{
  Value, bool, number, pos_int, string, array, object, object_of, strings,
}
use ling_xi_agent.Protocol.MessageKinds

abbrev text_schema : Value
text_schema =
    object (object_of (("minLength", number (pos_int 1)) ∷ ("type", string "string") ∷ []))

abbrev types_schema : List String → Value
types_schema names = object (object_of (("type", array (strings names)) ∷ []))

abbrev options_schema : List String → Value
options_schema options =
    object (object_of (("enum", array (strings options)) ∷ ("type", string "string") ∷ []))

abbrev object_schema : List (String × Value) → List String → Value
object_schema properties required = object (
    object_of (
      ("additionalProperties", bool true)
      ∷ ("properties", object (object_of properties))
      ∷ ("required", array (strings required))
      ∷ ("type", string "object")
      ∷ []))

abbrev request_schema : Value
request_schema =
    object_schema
      (("context", types_schema ("object" ∷ "string" ∷ "null" ∷ []))
        ∷ ("instruction", text_schema)
        ∷ [])
      ("instruction" ∷ [])

abbrev result_schema : Value
result_schema =
    object_schema
      (("data", types_schema ("object" ∷ "array" ∷ "string" ∷ "null" ∷ []))
        ∷ ("status", options_schema ("completed" ∷ "blocked" ∷ "failed" ∷ []))
        ∷ ("summary", text_schema)
        ∷ [])
      ("summary" ∷ "status" ∷ [])

abbrev feedback_schema : Value
feedback_schema =
    object_schema
      (("feedback", text_schema)
        ∷ ("verdict", options_schema ("pass" ∷ "fail" ∷ "revise" ∷ []))
        ∷ [])
      ("feedback" ∷ [])

abbrev progress_schema : Value
progress_schema =
    object_schema
      ((
        "percent",
        object (
            object_of (
              ("maximum", number (pos_int 100))
              ∷ ("minimum", number (pos_int 0))
              ∷ ("type", string "number")
              ∷ [])),
      )
        ∷ ("step", text_schema)
        ∷ [])
      ("step" ∷ [])

unfoldable pub message_payload_schema : String → Option Value
message_payload_schema kind =
    if kind == MessageKinds.request || kind == MessageKinds.handoff
    then some request_schema
    else if kind == MessageKinds.result
    then some result_schema
    else if kind == MessageKinds.feedback
    then some feedback_schema
    else if kind == MessageKinds.question
    then some (object_schema (("question", text_schema) ∷ []) ("question" ∷ []))
    else if kind == MessageKinds.blocked
    then some (object_schema (("reason", text_schema) ∷ []) ("reason" ∷ []))
    else if kind == MessageKinds.progress
    then some progress_schema
    else none

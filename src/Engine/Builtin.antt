-- ===== src/Engine/Builtin.antt =====
-- crates/lingxi-runtime/src/builtin.rs: the built-in kinds that `register` adds itself, each with its
-- executor, and which outputs these produce.
use Prim.Native.String.{◌++◌}
use ling_xi_agent.Prelude.{
  String, true, false, none, some, List, [], ◌∷◌, lookup, insert, if◌then◌else◌,
}
use ling_xi_agent.Protocol.Float.{F64}
use ling_xi_agent.Protocol.Json.{number, float, bool, string}
use ling_xi_agent.Workflow.Ports.{
  DataType, NodeSpec, ParamKind, any_type, normal, branch, loop_gate,
}
use ling_xi_agent.Flow.State.{Values}
use ling_xi_agent.Flow.Nodes.{executor_failed, missing_input}
use ling_xi_agent.Engine.Nodes.{
  Got, got, fails, ◌>>=◌, NodeContext, Primitives, Entry, string_param, bool_param, text_input,
  check_cancelled, as_number, as_bool, or_missing, or_null, at_least, from_f64, approve,
  invalid_param, invalid_input, with_output, param, port, with_default, node_spec,
}

module _ (rust : Primitives) where
  unfoldable pub number_param : NodeContext → String → Got F64
  unfolding param
  number_param ctx name = as_number rust.as_f64 invalid_param invalid_param (param ctx name)

  unfoldable pub number_input : NodeContext → String → Got F64
  number_input ctx name = as_number rust.as_f64 invalid_input missing_input (lookup name ctx.inputs)

  -- the count that comes in, or the start
  unfoldable pub count_in : NodeContext → Got F64
  unfolding number_param
  count_in ctx = elim (lookup "value" ctx.inputs) [
    | none ↦ number_param ctx "start"
    | some value ↦ as_number rust.as_f64 invalid_input invalid_input (some value)
  ]

  abbrev pub text_input_spec : NodeSpec
  text_input_spec =
      node_spec "core.text_input" normal [] ([]) (port "text" DataType.text false false ∷ [])
        (with_default "text" ParamKind.text_area (string "") ∷ [])

  abbrev pub text_input_node : NodeContext → Got Values
  text_input_node ctx = check_cancelled ctx >>= λ _.
      string_param ctx "text" >>= λ text. got (with_output "text" (string text))

  abbrev pub number_input_spec : NodeSpec
  number_input_spec =
      node_spec "core.number_input" normal [] ([]) (port "number" DataType.number false false ∷ [])
        (with_default "value" ParamKind.number (number (float 0)) ∷ [])

  abbrev pub number_input_node : NodeContext → Got Values
  number_input_node ctx = check_cancelled ctx >>= λ _.
      number_param ctx "value" >>= λ value. got (with_output "number" (from_f64 value))

  abbrev pub uppercase_spec : NodeSpec
  uppercase_spec =
      node_spec "core.text_uppercase" normal [] (port "text" DataType.text true false ∷ [])
        (port "text" DataType.text false false ∷ []) ([])

  abbrev pub uppercase_node : NodeContext → Got Values
  uppercase_node ctx = check_cancelled ctx >>= λ _.
      text_input ctx "text" >>= λ text. got (with_output "text" (string (rust.to_uppercase text)))

  abbrev pub concat_spec : NodeSpec
  concat_spec =
      node_spec "core.text_concat" normal []
        (port "a" DataType.text true false ∷ port "b" DataType.text true false ∷ [])
        (port "text" DataType.text false false ∷ [])
        (with_default "separator" ParamKind.text (string "") ∷ [])

  abbrev pub concat_node : NodeContext → Got Values
  concat_node ctx = check_cancelled ctx >>= λ _. text_input ctx "a" >>= λ a.
      text_input ctx "b" >>= λ b. string_param ctx "separator" >>= λ separator.
      got (with_output "text" (string (a ++ (separator ++ b))))

  abbrev pub number_add_spec : NodeSpec
  number_add_spec =
      node_spec "core.number_add" normal []
        (port "a" DataType.number true false ∷ port "b" DataType.number true false ∷ [])
        (port "number" DataType.number false false ∷ []) ([])

  abbrev pub number_add_node : NodeContext → Got Values
  number_add_node ctx = check_cancelled ctx >>= λ _. number_input ctx "a" >>= λ a.
      number_input ctx "b" >>= λ b. got (with_output "number" (from_f64 (rust.add a b)))

  abbrev pub log_spec : NodeSpec
  log_spec =
      node_spec "core.log" normal []
        (port "value" any_type true false ∷ port "run" any_type false true ∷ [])
        (port "text" DataType.text false false ∷ [])
        (with_default "prefix" ParamKind.text (string "") ∷ [])

  abbrev pub log_node : NodeContext → Got Values
  log_node ctx = check_cancelled ctx >>= λ _. or_missing (lookup "value" ctx.inputs) >>= λ value.
      string_param ctx "prefix" >>= λ prefix.
      got (with_output "text" (string (prefix ++ rust.display_value value)))

  abbrev pub approval_spec : NodeSpec
  approval_spec =
      node_spec "core.approval" normal ("interaction" ∷ [])
        (port "payload" any_type false false ∷ []) (port "payload" any_type false false ∷ [])
        (with_default "prompt" ParamKind.text_area (string "Approve this step?") ∷ [])

  abbrev pub approval_node : NodeContext → Got Values
  approval_node ctx = check_cancelled ctx >>= λ _.
      string_param ctx "prompt" >>= λ _. ctx.decision >>= λ decision. approve ctx decision

  abbrev pub boolean_input_spec : NodeSpec
  boolean_input_spec =
      node_spec "core.boolean_input" normal [] ([])
        (port "boolean" DataType.boolean false false ∷ [])
        (with_default "value" ParamKind.boolean (bool false) ∷ [])

  abbrev pub boolean_input_node : NodeContext → Got Values
  boolean_input_node ctx = check_cancelled ctx >>= λ _.
      bool_param ctx "value" >>= λ value. got (with_output "boolean" (bool value))

  abbrev pub condition_spec : NodeSpec
  condition_spec =
      node_spec "core.condition" branch []
        (port "condition" DataType.boolean true false ∷ port "payload" any_type false false ∷ [])
        (port "true" any_type false true ∷ port "false" any_type false true ∷ []) ([])

  abbrev pub condition_node : NodeContext → Got Values
  condition_node ctx = check_cancelled ctx >>= λ _.
      as_bool invalid_input missing_input (lookup "condition" ctx.inputs) >>= λ condition.
      got (
        with_output (if condition then "true" else "false") (or_null (lookup "payload" ctx.inputs)))

  abbrev pub loop_gate_spec : NodeSpec
  loop_gate_spec =
      node_spec "core.loop_gate" loop_gate []
        (port "start" any_type false true
          ∷ port "next" any_type false true
          ∷ port "stop" any_type false true
          ∷ port "value" any_type false false
          ∷ [])
        (port "continue" any_type false true
          ∷ port "exit" any_type false true
          ∷ port "value" any_type false false
          ∷ [])
        (with_default "maxIterations" ParamKind.number (number (float 0x4024000000000000))
          ∷ with_default "timeoutMs" ParamKind.number (number (float 0x40ed4c0000000000))
          ∷ [])

  abbrev pub loop_gate_node : NodeContext → Got Values
  loop_gate_node ctx = fails executor_failed

  abbrev pub counter_spec : NodeSpec
  counter_spec =
      node_spec "core.counter" normal [] (port "value" DataType.number false false ∷ [])
        (port "number" DataType.number false false ∷ port "done" DataType.boolean false false ∷ [])
        (with_default "start" ParamKind.number (number (float 0))
          ∷ with_default "step" ParamKind.number (number (float 0x3ff0000000000000))
          ∷ with_default "threshold" ParamKind.number (number (float 0x4008000000000000))
          ∷ [])

  abbrev pub counter_node : NodeContext → Got Values
  counter_node ctx = check_cancelled ctx >>= λ _. count_in ctx >>= λ current.
      number_param ctx "step" >>= λ step. number_param ctx "threshold" >>= λ threshold.
      let following = rust.add current step in
      got (
        insert "done" (bool (at_least following threshold))
          (with_output "number" (from_f64 following)))

  -- in the order of their registration
  unfoldable pub builtin_entries : List Entry
  builtin_entries =
      (text_input_spec, text_input_node)
      ∷ (number_input_spec, number_input_node)
      ∷ (uppercase_spec, uppercase_node)
      ∷ (concat_spec, concat_node)
      ∷ (number_add_spec, number_add_node)
      ∷ (log_spec, log_node)
      ∷ (approval_spec, approval_node)
      ∷ (boolean_input_spec, boolean_input_node)
      ∷ (condition_spec, condition_node)
      ∷ (loop_gate_spec, loop_gate_node)
      ∷ (counter_spec, counter_node)
      ∷ []

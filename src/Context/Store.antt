-- ===== src/Context/Store.antt =====
-- crates/lingxi-runtime/src/conversation.rs: the store of conversations and its limits. `printed_len`
-- is the length of a JSON value that `serde_json` prints; handles are fresh.
use Prim.Native.Nat.{◌/◌}
use Prim.Native.String.{◌++◌ as ◌+++◌}
use ling_xi_agent.Prelude.{
  ℕ, zero, suc, ◌+◌, String, Bool, true, false, ◌||◌, Option, none, some, List, [], ◌∷◌, ◌++◌, Dict,
  lookup, insert, remove, length, ltb, ◌==◌, map, if◌then◌else◌,
}
use ling_xi_agent.Errors.{
  Result, ok, err, context_unknown_handle, context_invalid_messages, context_overflow,
}
use ling_xi_agent.Protocol.Json.{Value}
use ling_xi_agent.Context.Message.{ChatMessage, ToolCall, system, char_count, tool_message}

pub record ToolResultRecord : Type 0 where
  pub tool_call_id : String
  pub name : String
  pub content : String
  pub error : Bool

pub data OverflowPolicy : Type 0 where
  trim_oldest error : OverflowPolicy

unfoldable pub parse_policy : String → OverflowPolicy
parse_policy value = if value == "error" then error else trim_oldest

pub record ContextSnapshot : Type 0 where
  pub handle : String
  pub messages : List ChatMessage
  pub count : ℕ
  pub estimated_tokens : ℕ
  pub trimmed : ℕ

abbrev pub Store : Type 0
Store = Dict (List ChatMessage)

abbrev pub at_least_one : ℕ → ℕ
at_least_one zero = 1
at_least_one (suc n) = suc n

abbrev pub is_system : ChatMessage → Bool
is_system m = elim m.role [ system ↦ true | _ ↦ false ]

-- without the first message that is not the system's
unfoldable pub remove_first : List ChatMessage → Option (List ChatMessage)
remove_first [] = none
remove_first (m ∷ rest) =
    let later = remove_first rest in
    if is_system m then elim later [ none ↦ none | some kept ↦ some (m ∷ kept) ] else some rest

-- a tool's result as a message
unfoldable pub result_message : ToolResultRecord → ChatMessage
unfolding tool_message
result_message r =
    let content = if r.error then "ERROR: " +++ r.content else r.content in
    let message = tool_message r.tool_call_id content in
    if r.name == "" then message else record message { name = some r.name }

module _ (printed_len : Value → ℕ) where
  calls_tokens : List ToolCall → ℕ
  calls_tokens [] = 0
  calls_tokens (call ∷ rest) = 8 + printed_len call.arguments / 4 + calls_tokens rest

  unfoldable pub estimate_tokens : List ChatMessage → ℕ
  unfolding calls_tokens
  estimate_tokens [] = 0
  estimate_tokens (m ∷ rest) =
      4 + char_count m.content / 4 + calls_tokens m.tool_calls + estimate_tokens rest

  abbrev pub is_over : ℕ → ℕ → List ChatMessage → Bool
  is_over max_messages max_tokens messages =
      ltb max_messages (length messages) || ltb max_tokens (estimate_tokens messages)

  -- The loop of `enforce_limits`, with as many removals as there is fuel: the number of the messages is
  -- enough. A loop that runs out of it while a limit is exceeded has not succeeded.
  unfoldable pub trim :
      ℕ → ℕ → ℕ → OverflowPolicy → List ChatMessage → ℕ → List ChatMessage × Result ℕ
  unfolding remove_first
  trim zero max_messages max_tokens policy messages removed =
      elim (is_over max_messages max_tokens messages) [
        | false ↦ (messages, ok removed)
        | true ↦ (messages, err context_overflow)
      ]
  trim (suc fuel) max_messages max_tokens policy messages removed =
      elim (is_over max_messages max_tokens messages) [
        | false ↦ (messages, ok removed)
        | true ↦ elim policy [
          | error ↦ (messages, err context_overflow)
          | trim_oldest ↦ elim (remove_first messages) [
            | none ↦ (messages, err context_overflow)
            | some rest ↦ trim fuel max_messages max_tokens trim_oldest rest (removed + 1)
          ]
        ]
      ]

  unfoldable pub enforce_limits :
      ℕ → ℕ → OverflowPolicy → List ChatMessage → List ChatMessage × Result ℕ
  unfolding trim
  enforce_limits max_messages max_tokens policy messages =
      trim (length messages) (at_least_one max_messages) (at_least_one max_tokens) policy messages 0

  unfoldable pub push_message :
      ℕ → ℕ → OverflowPolicy → ChatMessage → List ChatMessage → List ChatMessage × Result ℕ
  unfolding enforce_limits
  push_message max_messages max_tokens policy m messages =
      enforce_limits max_messages max_tokens policy (messages ++ m ∷ [])

  -- `for message in messages { trimmed += push_message(..)?; }`
  unfoldable pub push_all :
      ℕ → ℕ → OverflowPolicy → List ChatMessage → List ChatMessage → ℕ → List ChatMessage × Result ℕ
  unfolding push_message
  push_all max_messages max_tokens policy [] entry trimmed = (entry, ok trimmed)
  push_all max_messages max_tokens policy (m ∷ rest) entry trimmed =
      let (pushed, outcome) = push_message max_messages max_tokens policy m entry in
      elim outcome [
        | err e ↦ (pushed, err e)
        | ok n ↦ push_all max_messages max_tokens policy rest pushed (trimmed + n)
      ]

  unfoldable pub snapshot_of : String → List ChatMessage → ℕ → ContextSnapshot
  unfolding estimate_tokens
  snapshot_of handle messages trimmed = record {
    handle = handle;
    messages = messages;
    count = length messages;
    estimated_tokens = estimate_tokens messages;
    trimmed = trimmed;
  }

  is_empty : List ChatMessage → Bool
  is_empty [] = true
  is_empty (_ ∷ _) = false

  unfoldable pub init :
      String → List ChatMessage → ℕ → ℕ → OverflowPolicy → Store → Store × Result ContextSnapshot
  unfolding push_all snapshot_of is_empty
  init handle messages max_messages max_tokens policy store =
      if is_empty messages
      then (store, err context_invalid_messages)
      else let (entry, outcome) = push_all max_messages max_tokens policy messages [] 0 in
        elim outcome [
          | err e ↦ (store, err e)
          | ok trimmed ↦ (insert handle entry store, ok (snapshot_of handle entry trimmed))
        ]

  -- The conversation is taken out of the store, and put back only at the end.
  unfoldable pub update :
      String
      → List ChatMessage
      → List ToolResultRecord
      → ℕ
      → ℕ
      → OverflowPolicy
      → Store
      → Store × Result ContextSnapshot
  unfolding push_all snapshot_of result_message
  update handle messages results max_messages max_tokens policy store =
      let taken = remove handle store in
      elim (lookup handle store) [
        | none ↦ (store, err context_unknown_handle)
        | some entry ↦
            let (first, outcome) = push_all max_messages max_tokens policy messages entry 0 in
            elim outcome [
              | err e ↦ (taken, err e)
              | ok n ↦
                  let (second, outcome) =
                    push_all max_messages max_tokens policy (map result_message results) first n in
                  elim outcome [
                    | err e ↦ (taken, err e)
                    | ok trimmed ↦
                        (insert handle second taken, ok (snapshot_of handle second trimmed))
                  ]
            ]
      ]

  unfoldable pub snapshot : String → Store → Result ContextSnapshot
  unfolding snapshot_of
  snapshot handle store = elim (lookup handle store) [
    | none ↦ err context_unknown_handle
    | some entry ↦ ok (snapshot_of handle entry 0)
  ]

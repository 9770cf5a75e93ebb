-- ===== src/Protocol/Envelope.antt =====
-- crates/lingxi-runtime/src/agent_protocol.rs: messages and their validation. A message takes its id,
-- a fresh UUID in the program, as an argument.
use Prim.Native.Char.{code}
use Prim.Native.String.{len}
use ling_xi_agent.Prelude.{
  ℕ, ◌*◌, String, Bool, true, false, not, ◌&&◌, ◌||◌, Option, none, some, List, [], ◌∷◌, any,
  length, ltb, leb, nat_eq, ◌==◌, is_blank,
}
use ling_xi_agent.Errors.{
  Result, ok, err, ◌>>◌, fail_if, agent_invalid_message, agent_unsupported_protocol,
  agent_invalid_artifact, agent_message_too_large,
}
use ling_xi_agent.Protocol.Config.{AgentBudget, validate_budget}
use ling_xi_agent.Protocol.Float.{F64}
use ling_xi_agent.Protocol.Json.{Number, Value}
use ling_xi_agent.Protocol.MessageKinds.{all_kinds}
use ling_xi_agent.Protocol.MessageStatus
use ling_xi_agent.Protocol.Payloads.{message_payload_schema}
use ling_xi_agent.Protocol.Schema.{Violation, property, validate_json_schema}

pub record ArtifactRef : Type 0 where
  pub id : String
  pub name : String
  pub kind : String
  pub mime : String
  pub size : ℕ  -- u64
  pub digest : String
  pub uri : Option String

pub record AgentMessageEnvelope : Type 0 where
  pub schema_version : String
  pub message_id : String
  pub task_id : String
  pub sender : String
  pub recipient : String
  pub message_type : String
  pub status : String
  pub payload : Value
  pub artifact_refs : List ArtifactRef
  pub correlation_id : Option String
  pub idempotency_key : String
  pub created_at_ms : ℕ

-- What the program uses of `serde_json` besides its data: the length of a message's encoding, and
-- the conversion of a number to `f64`.
pub record Serde : Type 0 where
  pub encoded_len : AgentMessageEnvelope → ℕ
  pub as_f64 : Number → F64

abbrev pub protocol_version : String
protocol_version = "1.0"

abbrev pub max_artifact_refs : ℕ
max_artifact_refs = 64

abbrev pub max_message_bytes : ℕ
max_message_bytes = 512 * 1024

-- `options.contains(&value)`
abbrev pub one_of : List String → String → Bool
one_of options value = any (λ option. option == value) options

-- `char::is_ascii_hexdigit` for every character
unfoldable pub all_hex : String → Bool
all_hex String.[] = true
all_hex (String.◌∷◌ ch s) =
    let c = code ch in
    ((leb b'0' c && leb c b'9') || (leb b'a' c && leb c b'f') || (leb b'A' c && leb c b'F'))
    && all_hex s

unfoldable pub validate_artifact : ArtifactRef → Result (Unit {0})
unfolding all_hex
validate_artifact artifact = do
  fail_if (is_blank artifact.id || is_blank artifact.name) agent_invalid_artifact
  fail_if
      (not (artifact.digest == "")
        && (not (nat_eq (len artifact.digest) 64) || not (all_hex artifact.digest)))
      agent_invalid_artifact

each_artifact : List ArtifactRef → Result (Unit {0})
unfolding validate_artifact
each_artifact [] = ok tt
each_artifact (artifact ∷ rest) =
    let others = each_artifact rest in do validate_artifact artifact; others

unfoldable pub validate_artifacts : List ArtifactRef → Result (Unit {0})
unfolding each_artifact
validate_artifacts artifacts = do
  fail_if (ltb max_artifact_refs (length artifacts)) agent_invalid_artifact
  each_artifact artifacts

unfoldable pub validate_version : String → Result (Unit {0})
validate_version version =
    fail_if (not (one_of (protocol_version ∷ []) version)) agent_unsupported_protocol

unfoldable pub require_text : String → Result (Unit {0})
require_text value = fail_if (is_blank value) agent_invalid_message

-- `AgentMessageEnvelope::new`
unfoldable pub new_message :
    ℕ → String → String → String → String → String → Value → AgentMessageEnvelope
new_message now_ms message_id task_id sender recipient message_type payload = record {
  schema_version = protocol_version;
  message_id = message_id;
  task_id = task_id;
  sender = sender;
  recipient = recipient;
  message_type = message_type;
  status = MessageStatus.queued;
  payload = payload;
  artifact_refs = [];
  correlation_id = none;
  idempotency_key = message_id;
  created_at_ms = now_ms;
}

abbrev no_violation : List Violation → Bool
no_violation [] = true
no_violation (_ ∷ _) = false

module _ (serde : Serde) where
  payload_check : Option Value → Value → Result (Unit {0})
  payload_check none payload = err agent_invalid_message
  payload_check (some schema) payload =
      fail_if
        (not (
          no_violation
            (validate_json_schema serde.as_f64 schema payload (property "payload" ∷ []))))
        agent_invalid_message

  -- `AgentMessageEnvelope::validate`
  unfoldable pub validate_message : AgentMessageEnvelope → Result (Unit {0})
  unfolding validate_version require_text validate_artifacts payload_check
  validate_message message = do
    validate_version message.schema_version
    require_text message.message_id
    require_text message.task_id
    require_text message.sender
    require_text message.recipient
    require_text message.idempotency_key
    fail_if (not (one_of all_kinds message.message_type)) agent_invalid_message
    fail_if (not (one_of MessageStatus.all_statuses message.status)) agent_invalid_message
    validate_artifacts message.artifact_refs
    fail_if (ltb max_message_bytes (serde.encoded_len message)) agent_message_too_large
    payload_check (message_payload_schema message.message_type) message.payload

pub record TaskEnvelope : Type 0 where
  pub schema_version : String
  pub task_id : String
  pub session_id : String
  pub parent_task_id : Option String
  pub sender : String
  pub recipient : String
  pub instruction : String
  pub artifacts : List ArtifactRef
  pub budget : Option AgentBudget
  pub correlation_id : Option String
  pub idempotency_key : String
  pub created_at_ms : ℕ
  pub metadata : Value

budget_check : Option AgentBudget → Result (Unit {0})
budget_check none = ok tt
budget_check (some budget) = validate_budget budget

-- `TaskEnvelope::validate`
unfoldable pub validate_task : TaskEnvelope → Result (Unit {0})
unfolding validate_version require_text validate_artifacts budget_check validate_budget
validate_task task = do
  validate_version task.schema_version
  require_text task.task_id
  require_text task.session_id
  require_text task.sender
  require_text task.recipient
  require_text task.instruction
  require_text task.idempotency_key
  validate_artifacts task.artifacts
  budget_check task.budget

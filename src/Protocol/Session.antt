-- ===== src/Protocol/Session.antt =====
-- crates/lingxi-runtime/src/agent_protocol.rs: agent instances, their activations and task sessions
use Prim.Native.String.{◌++◌}
use ling_xi_agent.Prelude.{ℕ, String, Bool, Option, none, List, [], Dict, decimal}
use ling_xi_agent.Protocol.Config.{AgentConfigSnapshot, AgentConfigRevision, AgentUsage, no_usage}
use ling_xi_agent.Protocol.Envelope.{ArtifactRef, AgentMessageEnvelope}
use ling_xi_agent.Protocol.Json.{Value}
use ling_xi_agent.Protocol.States

-- event.rs
pub record ScopeFrame : Type 0 where
  pub instance_id : String
  pub subgraph_id : String
  pub label : String

unfoldable pub activation_id : String → ℕ → String
activation_id instance_id index = instance_id ++ ("#activation-" ++ decimal index)

pub record ActivationRecord : Type 0 where
  pub activation_id : String
  pub index : ℕ  -- u64
  pub state : String
  pub started_at_ms : ℕ
  pub finished_at_ms : Option ℕ
  pub config_revision : ℕ
  pub iterations : ℕ
  pub user_response : Option String
  pub agent_message_id : Option String
  pub error : Option String

pub record AgentInstance : Type 0 where
  pub instance_id : String
  pub node_id : String
  pub label : String
  pub scope : List ScopeFrame
  pub state : String
  pub current_activation : Option String
  pub activations : List ActivationRecord
  pub config : AgentConfigSnapshot
  pub config_revisions : List AgentConfigRevision
  pub usage : AgentUsage
  pub pending_directives : List String
  pub created_at_ms : ℕ
  pub updated_at_ms : ℕ

-- `AgentInstance::new`
unfoldable pub new_instance :
    ℕ → String → String → String → List ScopeFrame → AgentConfigSnapshot → AgentInstance
new_instance now_ms instance_id node_id label scope config = record {
  instance_id = instance_id;
  node_id = node_id;
  label = label;
  scope = scope;
  state = States.pending;
  current_activation = none;
  activations = [];
  config = config;
  config_revisions = [];
  usage = no_usage;
  pending_directives = [];
  created_at_ms = now_ms;
  updated_at_ms = now_ms;
}

pub record PendingReview : Type 0 where
  pub review_id : String
  pub agent_instance_id : String
  pub activation_id : String
  pub tool_name : String
  pub tool_call_id : String
  pub reason : String
  pub arguments : Value
  pub created_at_ms : ℕ
  pub resolved : Bool

pub record TaskSession : Type 0 where
  pub session_id : String
  pub run_id : String
  pub workflow_id : String
  pub workflow_name : String
  pub workflow_revision : ℕ
  pub state : String
  pub created_at_ms : ℕ
  pub updated_at_ms : ℕ
  pub agents : Dict AgentInstance
  pub messages : List AgentMessageEnvelope
  pub pending_reviews : List PendingReview
  pub artifacts : List ArtifactRef

-- `TaskSession::new`
unfoldable pub new_session : ℕ → String → String → String → TaskSession
new_session now_ms run_id workflow_id workflow_name = record {
  session_id = "session-" ++ run_id;
  run_id = run_id;
  workflow_id = workflow_id;
  workflow_name = workflow_name;
  workflow_revision = 1;
  state = States.pending;
  created_at_ms = now_ms;
  updated_at_ms = now_ms;
  agents = [];
  messages = [];
  pending_reviews = [];
  artifacts = [];
}

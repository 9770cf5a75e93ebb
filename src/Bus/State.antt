-- ===== src/Bus/State.antt =====
-- crates/lingxi-runtime/src/agent_bus.rs: the bus, and the control block of one agent. The methods of
-- `AgentRuntime` work on atomics and on queues behind locks: each is one step on a record. Waking the
-- waiting tasks changes no state.
use ling_xi_agent.Prelude.{
  ℕ, String, Bool, true, false, Option, none, some, List, [], ◌∷◌, ◌++◌, Dict, lookup, unwrap_or,
  insert, is_blank, if◌then◌else◌,
}
use ling_xi_agent.Protocol.Config.{AgentConfigSnapshot}
use ling_xi_agent.Protocol.Envelope.{AgentMessageEnvelope}
use ling_xi_agent.Protocol.Session.{TaskSession, new_session}

pub record Delivery : Type 0 where
  pub message : AgentMessageEnvelope
  pub duplicate : Bool

pub record AgentRuntime : Type 0 where
  pub is_paused : Bool
  pub is_cancelled : Bool
  pub pending_config : Option AgentConfigSnapshot
  pub directives : List String

-- `AgentRuntime::default()`
abbrev pub fresh_runtime : AgentRuntime
fresh_runtime = record {
  is_paused = false;
  is_cancelled = false;
  pending_config = none;
  directives = [];
}

unfoldable pub pause : AgentRuntime → AgentRuntime
pause r = record r { is_paused = true }

unfoldable pub resume : AgentRuntime → AgentRuntime
resume r = record r { is_paused = false }

unfoldable pub cancel : AgentRuntime → AgentRuntime
cancel r = record r { is_cancelled = true }

unfoldable pub queue_directive : String → AgentRuntime → AgentRuntime
queue_directive text r =
    if is_blank text then r else record r { directives = r.directives ++ text ∷ [] }

unfoldable pub take_directives : AgentRuntime → AgentRuntime × List String
take_directives r = (record r { directives = [] }, r.directives)

unfoldable pub set_pending_config : AgentConfigSnapshot → AgentRuntime → AgentRuntime
set_pending_config config r = record r { pending_config = some config }

unfoldable pub take_pending_config : AgentRuntime → AgentRuntime × Option AgentConfigSnapshot
take_pending_config r = (record r { pending_config = none }, r.pending_config)

pub record BusState : Type 0 where
  pub session : Option TaskSession
  pub messages : Dict AgentMessageEnvelope
  pub idempotency : Dict String
  pub inbox : Dict (List String)
  pub delivered : List String

pub record AgentBus : Type 0 where
  pub state : BusState
  pub open state use *
  pub controls : Dict AgentRuntime
  pub queue_limit : ℕ
  pub message_limit : ℕ

abbrev pub default_queue_limit : ℕ
default_queue_limit = 128

abbrev pub default_message_limit : ℕ
default_message_limit = 4096

unfoldable pub with_limits : TaskSession → ℕ → ℕ → AgentBus
with_limits session queue_limit message_limit = record {
  state = record {
    session = some session;
    messages = [];
    idempotency = [];
    inbox = [];
    delivered = [];
  };
  controls = [];
  queue_limit = queue_limit;
  message_limit = message_limit;
}

unfoldable pub new : TaskSession → AgentBus
unfolding with_limits
new session = with_limits session default_queue_limit default_message_limit

-- `AgentBus::session`
unfoldable pub session_of : ℕ → AgentBus → TaskSession
session_of now_ms bus = unwrap_or bus.session (new_session now_ms "unknown" "unknown" "unknown")

unfoldable pub runtime : String → AgentBus → Option AgentRuntime
runtime instance_id bus = lookup instance_id bus.controls

-- `ensure_runtime(id)`, and then a change of what it returns
unfoldable pub with_runtime : String → (AgentRuntime → AgentRuntime) → AgentBus → AgentBus
with_runtime instance_id change bus = record bus {
  controls =
      insert instance_id (change (unwrap_or (lookup instance_id bus.controls) fresh_runtime))
        bus.controls;
}

unfoldable pub with_session : (TaskSession → TaskSession) → AgentBus → AgentBus
with_session change bus = elim bus.session [
  | none ↦ bus
  | some session ↦ record bus { state = record bus.state { session = some (change session) } }
]

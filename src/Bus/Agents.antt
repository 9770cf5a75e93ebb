-- ===== src/Bus/Agents.antt =====
-- crates/lingxi-runtime/src/agent_bus.rs: the registry of agents, their states and activations. A
-- method takes the bus last; one that can fail returns the bus beside the error, since what was
-- changed before the error stays changed.
use ling_xi_agent.Prelude.{
  ℕ, ◌+◌, String, Bool, true, false, ◌||◌, Option, none, some, List, [], ◌∷◌, ◌++◌, Dict, lookup,
  insert, insert_new, adjust, values, map, any, length, ◌==◌, if◌then◌else◌,
}
use ling_xi_agent.Errors.{Result, ok, err, bus_unknown_recipient}
use ling_xi_agent.Protocol.Config.{AgentConfigSnapshot, AgentUsage, no_usage}
use ling_xi_agent.Protocol.Envelope.{AgentMessageEnvelope}
use ling_xi_agent.Protocol.MessageStatus
use ling_xi_agent.Protocol.Session.{ActivationRecord, AgentInstance, TaskSession, activation_id}
use ling_xi_agent.Protocol.States
use ling_xi_agent.Bus.State.{
  AgentBus, fresh_runtime, pause, resume, cancel, with_runtime, with_session,
}

-- `PRIORITY` of `update_session_state`
abbrev pub priority : List String
priority =
    States.running ∷ States.waiting_approval ∷ States.paused ∷ States.pending ∷ States.blocked
    ∷ States.failed ∷ States.cancelled ∷ States.interrupted ∷ []

abbrev pub contains_text : List String → String → Bool
contains_text texts text = any (λ t. t == text) texts

-- the first candidate that some agent is in, or else `completed`
unfoldable pub first_of_states : List String → List String → String
first_of_states [] states = States.completed
first_of_states (candidate ∷ rest) states =
    if contains_text states candidate then candidate else first_of_states rest states

unfoldable pub update_session_state : ℕ → TaskSession → TaskSession
unfolding first_of_states
update_session_state now_ms session = record session {
  state = first_of_states priority (map (λ (a : AgentInstance). a.state) (values session.agents));
  updated_at_ms = now_ms;
}

-- the session with one agent changed
unfoldable pub with_agent : String → (AgentInstance → AgentInstance) → TaskSession → TaskSession
with_agent instance_id change session = record session {
  agents = adjust instance_id change session.agents;
}

unfoldable pub agent : String → AgentBus → Option AgentInstance
agent instance_id bus = elim bus.session [
  | none ↦ none
  | some session ↦ lookup instance_id session.agents
]

unfoldable pub refresh : ℕ → AgentInstance → AgentInstance → AgentInstance
refresh now_ms new old = record old {
  label = new.label;
  node_id = new.node_id;
  scope = new.scope;
  updated_at_ms = now_ms;
}

unfoldable pub register_instance : ℕ → AgentInstance → AgentBus → AgentBus × Bool
unfolding with_agent refresh
register_instance now_ms new bus = elim bus.session [
  | none ↦ (bus, false)
  | some session ↦ elim (lookup new.instance_id session.agents) [
    | some existing ↦ (
      record bus {
        state = record bus.state {
          session = some (with_agent new.instance_id (refresh now_ms new) session);
        };
      },
      false,
    )
    | none ↦ (
      record bus {
        state = record bus.state {
          session = some (record session {
            agents = insert new.instance_id new session.agents;
            updated_at_ms = now_ms;
          });
        };
        controls = insert_new new.instance_id fresh_runtime bus.controls;
      },
      true,
    )
  ]
]

-- `iter_mut().find(|record| record.activation_id == id)`, and a change of what it finds
unfoldable pub with_activation :
    String → (ActivationRecord → ActivationRecord) → List ActivationRecord → List ActivationRecord
with_activation id change [] = []
with_activation id change (r ∷ rest) =
    if r.activation_id == id then change r ∷ rest else r ∷ with_activation id change rest

unfoldable pub enter_current :
    String → Option String → List ActivationRecord → List ActivationRecord
unfolding with_activation
enter_current value none activations = activations
enter_current value (some id) activations =
    with_activation id (λ r. record r { state = value }) activations

unfoldable pub enter_state : ℕ → String → AgentInstance → AgentInstance
unfolding enter_current
enter_state now_ms value a = record a {
  state = value;
  updated_at_ms = now_ms;
  activations = enter_current value a.current_activation a.activations;
}

-- An operation on one registered agent, which fails if there is none of that id; the state of the
-- session is worked out anew.
unfoldable pub on_agent :
    ℕ → String → (AgentInstance → AgentInstance) → AgentBus → AgentBus × Result (Unit {0})
unfolding with_agent
on_agent now_ms instance_id change bus = elim bus.session [
  | none ↦ (bus, err bus_unknown_recipient)
  | some session ↦ elim (lookup instance_id session.agents) [
    | none ↦ (bus, err bus_unknown_recipient)
    | some _ ↦ (
      record bus {
        state = record bus.state {
          session = some (update_session_state now_ms (with_agent instance_id change session));
        };
      },
      ok tt,
    )
  ]
]

unfoldable pub set_instance_state : ℕ → String → String → AgentBus → AgentBus × Result (Unit {0})
unfolding on_agent enter_state
set_instance_state now_ms instance_id value bus =
    on_agent now_ms instance_id (enter_state now_ms value) bus

unfoldable pub pause_agent : ℕ → String → AgentBus → AgentBus × Result (Unit {0})
unfolding set_instance_state with_runtime pause
pause_agent now_ms instance_id bus =
    set_instance_state now_ms instance_id States.pausing (with_runtime instance_id pause bus)

unfoldable pub state_of : Option AgentInstance → Option String
state_of none = none
state_of (some a) = some a.state

unfoldable pub is_held : Option String → Bool
is_held none = false
is_held (some state) = state == States.paused || state == States.pausing

unfoldable pub resume_agent : ℕ → String → AgentBus → AgentBus × Result (Unit {0})
unfolding set_instance_state with_runtime resume agent state_of is_held
resume_agent now_ms instance_id bus =
    let resumed = with_runtime instance_id resume bus in
    if is_held (state_of (agent instance_id resumed))
    then set_instance_state now_ms instance_id States.running resumed
    else (resumed, ok tt)

unfoldable pub cancel_agent : String → AgentBus → AgentBus × Result (Unit {0})
unfolding with_runtime cancel
cancel_agent instance_id bus = (with_runtime instance_id cancel bus, ok tt)

unfoldable pub begin : ℕ → String → AgentConfigSnapshot → AgentInstance → AgentInstance
begin now_ms instance_id config a =
    let index = length a.activations + 1 in
    let id = activation_id instance_id index in
    record a {
      current_activation = some id;
      state = States.running;
      usage = no_usage;
      activations =
          a.activations
          ++ record {
            activation_id = id;
            index = index;
            state = States.running;
            started_at_ms = now_ms;
            finished_at_ms = none;
            config_revision = config.revision;
            iterations = 0;
            user_response = none;
            agent_message_id = none;
            error = none;
          }
            ∷ [];
      updated_at_ms = now_ms;
    }

-- The id that is returned is the one that `begin` stores.
unfoldable pub start_activation :
    ℕ → String → AgentConfigSnapshot → AgentBus → AgentBus × Result String
unfolding on_agent begin agent
start_activation now_ms instance_id config bus = elim (agent instance_id bus) [
  | none ↦ (bus, err bus_unknown_recipient)
  | some a ↦ (
    (on_agent now_ms instance_id (begin now_ms instance_id config) bus).0,
    ok (activation_id instance_id (length a.activations + 1)),
  )
]

-- what `finish_activation` is told
pub record Finish : Type 0 where
  pub activation : String
  pub state_value : String
  pub usage : AgentUsage
  pub user_response : Option String
  pub agent_message_id : Option String
  pub error : Option String

unfoldable pub close : ℕ → Finish → ActivationRecord → ActivationRecord
close now_ms f r = record r {
  state = f.state_value;
  finished_at_ms = some now_ms;
  iterations = f.usage.iterations;
  user_response = f.user_response;
  agent_message_id = f.agent_message_id;
  error = f.error;
}

unfoldable pub finished : ℕ → Finish → AgentInstance → AgentInstance
unfolding close with_activation
finished now_ms f a = record a {
  activations = with_activation f.activation (close now_ms f) a.activations;
  state = f.state_value;
  usage = f.usage;
  updated_at_ms = now_ms;
}

unfoldable pub complete_message :
    Option String → Dict AgentMessageEnvelope → Dict AgentMessageEnvelope
complete_message none messages = messages
complete_message (some id) messages =
    adjust id (λ (m : AgentMessageEnvelope). record m { status = MessageStatus.completed }) messages

unfoldable pub finish_activation : ℕ → String → Finish → AgentBus → AgentBus × Result (Unit {0})
unfolding on_agent finished complete_message agent
finish_activation now_ms instance_id f bus = elim (agent instance_id bus) [
  | none ↦ (bus, ok tt)
  | some _ ↦
      let closed = (on_agent now_ms instance_id (finished now_ms f) bus).0 in
      (
        record closed {
          state = record closed.state {
            messages = complete_message f.agent_message_id closed.messages;
          };
        },
        ok tt,
      )
]

unfoldable pub record_usage :
    ℕ → String → String → AgentUsage → AgentBus → AgentBus × Result (Unit {0})
unfolding with_session with_agent with_activation
record_usage now_ms instance_id activation usage bus = (
  with_session
      (with_agent instance_id (λ (a : AgentInstance). record a {
        usage = usage;
        updated_at_ms = now_ms;
        activations =
            with_activation activation (λ r. record r { iterations = usage.iterations })
              a.activations;
      }))
      bus,
  ok tt,
)

unfoldable pub complete_session : ℕ → String → AgentBus → AgentBus
unfolding with_session
complete_session now_ms value bus =
    with_session (λ (s : TaskSession). record s { state = value; updated_at_ms = now_ms }) bus

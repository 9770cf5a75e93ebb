-- ===== src/Bus/Examples.antt =====
-- The theorems on the bus at concrete sessions, after the source's own unit tests: two agents, and
-- inboxes that hold one or two messages.
use ling_xi_agent.Prelude.{
  contains_key, none, ◌+◌, ◌++◌, is_blank, insert, adjust, String, true, false, ◌≡◌, ◌≢◌, refl, inr,
  some, [], ◌∷◌, lookup, drop, ◌==◌, if◌then◌else◌, arith, eq_iff,
}
use ling_xi_agent.Errors.{ok, err, bus_queue_full, bus_forbidden}
use ling_xi_agent.Protocol.Config.{
  no_usage, validate_config, diff, AgentConfigSnapshot, default_config,
}
use ling_xi_agent.Protocol.Envelope.{validate_message, AgentMessageEnvelope, Serde, new_message}
use ling_xi_agent.Protocol.Json.{string, object, object_of}
use ling_xi_agent.Protocol.MessageKinds
use ling_xi_agent.Protocol.Session.{
  ActivationRecord, activation_id, AgentInstance, TaskSession, new_instance, new_session,
}
use ling_xi_agent.Protocol.States
use ling_xi_agent.Protocol.Payloads.{message_payload_schema}
use ling_xi_agent.Protocol.Schema.{validate_json_schema, type_matches}
use ling_xi_agent.Bus.State.{AgentBus, with_limits}
use ling_xi_agent.Bus.Agents.{Finish, start_activation, finish_activation, pause_agent, agent}
use ling_xi_agent.Bus.Messages.{others, recipients, ids, send, receive}
use ling_xi_agent.Bus.Config.{find_revision, next_revision, apply_config, apply_pending_config}
use ling_xi_agent.Bus.Sessions.{pausing_completes_session}
use ling_xi_agent.Bus.Queues.{receive_in_order}
use ling_xi_agent.Bus.Sound.{IsSound}
use ling_xi_agent.Bus.Traces.{here, after_step, sent, received, reachable-IsSound}
use ling_xi_agent.Bus.Idempotency.{send_again}
use ling_xi_agent.Bus.Broadcast.{queue_of, broadcast_twice}
use ling_xi_agent.Bus.Admission.{
  IsSender, IsRecipient, send_admitted, send_refused, apply_config_guarded,
}
use ling_xi_agent.Bus.Activations.{activation_recorded}
use ling_xi_agent.Bus.Revisions.{config_taken_over}

-- Every message is short, and no number is compared.
abbrev serde : Serde
serde = record { encoded_len = λ _. 100; as_f64 = λ _. 0 }

abbrev alpha : AgentInstance
unfolding new_instance
alpha = new_instance 1 "alpha" "node-a" "Alpha" [] default_config

abbrev beta : AgentInstance
unfolding new_instance
beta = new_instance 1 "beta" "node-b" "Beta" [] default_config

abbrev session : TaskSession
unfolding new_session
session = record (new_session 1 "run-1" "flow-1" "Flow") {
  agents = ("alpha", alpha) ∷ ("beta", beta) ∷ [];
}

abbrev bus : AgentBus
unfolding with_limits
bus = with_limits session 2 10

abbrev ask_beta : AgentMessageEnvelope
unfolding new_message
ask_beta =
    record (new_message 5 "m-1" "task-1" "alpha" "beta" MessageKinds.request
      (object (object_of (("instruction", string "look it up") ∷ [])))) {
        idempotency_key = "key-1";
      }

abbrev retry : AgentMessageEnvelope
retry = record ask_beta { message_id = "m-2"; created_at_ms = 9 }

text_ne : (s t : String) → (s == t) ≡ false → s ≢ t
text_ne s t h = ground (arith, eq_iff s t)

send_again_example :
    send serde 20 retry (send serde 10 ask_beta bus).0
    ≡ ((send serde 10 ask_beta bus).0, ok (record { message = ask_beta; duplicate = true }))
unfolding bus session validate_message ask_beta is_blank message_payload_schema validate_json_schema
    type_matches send lookup recipients
send_again_example =
    send_again serde 10 20 ask_beta retry bus (tt, tt, omega arith) (omega arith) refl refl refl

reachable-IsSound_example :
    IsSound (receive "beta" 1 (send serde 10 ask_beta (with_limits session 2 10)).0).0
unfolding session
reachable-IsSound_example =
    reachable-IsSound serde session 2 10
      (receive "beta" 1 (send serde 10 ask_beta (with_limits session 2 10)).0).0 refl
      (after_step (after_step here (sent 10 ask_beta (with_limits session 2 10)))
        (received "beta" 1 (send serde 10 ask_beta (with_limits session 2 10)).0))

-- the bus with the message in the inbox of `beta`
abbrev loaded : AgentBus
loaded = record bus {
  state = record bus.state {
    session = some (record session { messages = ask_beta ∷ [] });
    messages = ("m-1", ask_beta) ∷ [];
    inbox = ("beta", "m-1" ∷ []) ∷ [];
  };
}

receive_in_order_example :
    (ids (receive "beta" 5 loaded).1 ≡ "m-1" ∷ [])
    × ((other : String)
        → lookup other (receive "beta" 5 loaded).0.inbox
          ≡ (if "beta" == other then some (drop 5 ("m-1" ∷ [])) else lookup other loaded.inbox))
unfolding lookup ask_beta
receive_in_order_example =
    receive_in_order "beta" 5 ("m-1" ∷ []) loaded refl ((ask_beta, refl, refl), tt)

-- `beta` has completed its activation, and `alpha` is running
abbrev working : TaskSession
working = record session {
  agents =
      ("alpha", record alpha { state = States.running })
      ∷ ("beta", record beta { state = States.completed })
      ∷ [];
}

pausing_completes_session_example :
    (after : TaskSession) × ((pause_agent 40 "alpha"
        (record bus { state = record bus.state { session = some working } })).0.session
      ≡ some after)
    × (after.state ≡ States.completed)
unfolding lookup
pausing_completes_session_example =
    pausing_completes_session 40 "alpha" (record alpha { state = States.running }) working
      (record bus { state = record bus.state { session = some working } }) refl refl (inr refl, tt)

-- room for three messages, and `beta` has three
abbrev wider : AgentBus
wider = record bus {
  state = record bus.state { inbox = ("beta", "x" ∷ "y" ∷ "z" ∷ []) ∷ [] };
  queue_limit = 3;
}

abbrev notice : AgentMessageEnvelope
notice = record ask_beta { sender = "user"; recipient = "broadcast" }

broadcast_twice_example :
    ((send serde 50 notice wider).1 ≡ err bus_queue_full)
    × ((send serde 60 notice (receive "beta" 1 (send serde 50 notice wider).0).0).1
        ≡ ok (record { message = notice; duplicate = false }))
    × (queue_of "alpha" (send serde 60 notice (receive "beta" 1 (send serde 50 notice wider).0).0).0
        ≡ "m-1" ∷ "m-1" ∷ [])
unfolding lookup ask_beta bus validate_message is_blank message_payload_schema validate_json_schema
    type_matches recipients others session
broadcast_twice_example =
    broadcast_twice serde 50 60 1 notice session "alpha" "beta" ("x" ∷ "y" ∷ "z" ∷ []) wider refl
      (refl, refl, refl, refl) (text_ne "alpha" "beta" refl) (omega arith) refl refl (omega arith)

abbrev cheap : AgentConfigSnapshot
cheap = record default_config { model = "cheap" }

abbrev strong : AgentConfigSnapshot
strong = record default_config { model = "strong" }

config_taken_over_example :
    ((apply_pending_config 70 "alpha" default_config (apply_config 60 "alpha" cheap 0 bus).0).1
      ≡ ok (record cheap { revision = 1 }))
    × ((after : AgentInstance) × (agent "alpha"
            (apply_pending_config 70 "alpha" default_config
              (apply_config 60 "alpha" cheap 0 bus).0).0
          ≡ some after)
        × (after.config ≡ record cheap { revision = 1 }))
unfolding validate_config is_blank agent bus lookup session diff alpha find_revision apply_config
    adjust insert apply_pending_config
config_taken_over_example =
    config_taken_over 60 70 "alpha" default_config cheap alpha bus refl refl refl refl

send_admitted_example :
    (validate_message serde ask_beta ≡ ok tt)
    × (s : TaskSession) × (bus.session ≡ some s)
    × IsSender s "alpha"
    × IsRecipient s "beta"
    × (lookup "key-1" bus.idempotency ≡ none)
    × (contains_key "m-1" bus.messages ≡ false)
unfolding bus session validate_message ask_beta is_blank message_payload_schema validate_json_schema
    type_matches send lookup recipients
send_admitted_example = send_admitted serde 10 ask_beta bus refl

abbrev forged : AgentMessageEnvelope
forged = record ask_beta { sender = "mallory" }

forbidden_ne : bus_forbidden ≢ bus_queue_full
forbidden_ne = ground arith

send_refused_example : (send serde 10 forged bus).0 ≡ bus
unfolding bus session validate_message ask_beta is_blank message_payload_schema validate_json_schema
    type_matches send lookup recipients
send_refused_example = send_refused serde 10 forged bus bus_forbidden refl forbidden_ne

apply_config_guarded_example :
    (validate_config cheap ≡ ok tt)
    × (a : AgentInstance) × (agent "alpha" bus ≡ some a)
    × (a.config.revision ≡ 0)
    × ((next_revision default_config cheap).after ≡ record cheap { revision = 0 + 1 })
unfolding validate_config is_blank agent bus lookup session diff alpha find_revision apply_config
    adjust insert apply_pending_config next_revision
apply_config_guarded_example =
    apply_config_guarded 60 "alpha" cheap 0 bus (next_revision default_config cheap) refl

abbrev finish : Finish
unfolding activation_id
finish = record {
  activation = activation_id "alpha" 1;
  state_value = States.completed;
  usage = no_usage;
  user_response = some "done";
  agent_message_id = none;
  error = none;
}

activation_recorded_example :
    (after : AgentInstance) × (r : ActivationRecord) × (agent "alpha"
        (finish_activation 90 "alpha" finish (start_activation 80 "alpha" default_config bus).0).0
      ≡ some after)
    × (after.state ≡ States.completed)
    × (after.activations ≡ alpha.activations ++ r ∷ [])
    × (r.activation_id ≡ finish.activation)
    × (r.started_at_ms ≡ 80)
    × (r.finished_at_ms ≡ some 90)
    × (r.config_revision ≡ 0)
    × (r.state ≡ States.completed)
unfolding bus session alpha agent lookup start_activation finish
activation_recorded_example =
    activation_recorded 80 90 "alpha" default_config finish alpha bus refl tt refl

-- ===== src/Bus/Sound.antt =====
-- The operations of agent_bus.rs that leave the messages of the session and the inboxes alone.
use ling_xi_agent.Prelude.{
  ℕ, String, Option, none, some, List, [], ◌∷◌, Dict, ◌≡◌, lookup-adjust, arith, Option-cases,
  Bool-cases, ◌==◌, inl, inr,
}
use ling_xi_agent.Protocol.Config.{AgentConfigSnapshot}
use ling_xi_agent.Protocol.MessageStatus
use ling_xi_agent.Protocol.Envelope.{AgentMessageEnvelope}
use ling_xi_agent.Protocol.Session.{AgentInstance, TaskSession}
use ling_xi_agent.Bus.State.{AgentBus, with_session, with_runtime}
use ling_xi_agent.Bus.Agents.{
  agent, on_agent, update_session_state, with_agent, Finish, finished, complete_message,
  finish_activation, register_instance,
}
use ling_xi_agent.Bus.Bounds.{IsBounded}
use ling_xi_agent.Bus.Config.{apply_config, mark_config_applied, take_pending, apply_pending_config}
use ling_xi_agent.Bus.History.{history, IsConsistent}
use ling_xi_agent.Bus.Queues.{AllStored}

-- The inboxes are bounded, and the history agrees with the table of messages.
abbrev pub IsSound : AgentBus → Type 0
IsSound bus = IsBounded bus.queue_limit bus.inbox × IsConsistent bus

-- Nothing that the messages depend on has changed.
abbrev pub Untouched : AgentBus → AgentBus → Type 0
Untouched before after =
    (history after.session ≡ history before.session)
    × (after.messages ≡ before.messages)
    × (after.inbox ≡ before.inbox)
    × (after.queue_limit ≡ before.queue_limit)
    × (after.message_limit ≡ before.message_limit)

pub Untouched-IsSound :
    (before after : AgentBus) → Untouched before after → IsSound before → IsSound after
Untouched-IsSound before after (a, b, c, d, e) h = rw (a, b, c, d, e) h

on_agent-Untouched :
    (now_ms : ℕ) (id : String) (change : AgentInstance → AgentInstance) (bus : AgentBus)
    → Untouched bus (on_agent now_ms id change bus).0
unfolding on_agent update_session_state with_agent
on_agent-Untouched now_ms id change bus = ground arith

pub on_agent-IsSound :
    (now_ms : ℕ) (id : String) (change : AgentInstance → AgentInstance) (bus : AgentBus)
    → IsSound bus
    → IsSound (on_agent now_ms id change bus).0
on_agent-IsSound now_ms id change bus h =
    Untouched-IsSound bus (on_agent now_ms id change bus).0
      (on_agent-Untouched now_ms id change bus) h

-- a change of the session that keeps its messages
pub with_session-IsSound :
    (change : TaskSession → TaskSession) (bus : AgentBus)
    → ((s : TaskSession) → (change s).messages ≡ s.messages)
    → IsSound bus
    → IsSound (with_session change bus)
unfolding with_session
with_session-IsSound change bus kept h = elim (Option-cases bus.session) [
  | inl e ↦ rw (with_session, e) h
  | inr (session, e) ↦
      Untouched-IsSound bus (with_session change bus) (ground (arith, e, kept session)) h
]

register_instance-Untouched :
    (now_ms : ℕ) (new : AgentInstance) (bus : AgentBus)
    → Untouched bus (register_instance now_ms new bus).0
unfolding register_instance with_agent
register_instance-Untouched now_ms new bus = ground arith

pub register_instance-IsSound :
    (now_ms : ℕ) (new : AgentInstance) (bus : AgentBus)
    → IsSound bus
    → IsSound (register_instance now_ms new bus).0
register_instance-IsSound now_ms new bus h =
    Untouched-IsSound bus (register_instance now_ms new bus).0
      (register_instance-Untouched now_ms new bus) h

complete-AllStored :
    (completed : Option String) (l : List String) (messages : Dict AgentMessageEnvelope)
    → AllStored l messages
    → AllStored l (complete_message completed messages)
unfolding complete_message
complete-AllStored none l messages h = h
complete-AllStored (some id) [] messages h = tt
complete-AllStored (some id) (j ∷ l) messages ((m, found, own), h) = (
  elim (Bool-cases (id == j)) [
    | inl here ↦ (
      record m { status = MessageStatus.completed },
      ground (arith, lookup-adjust id j completed messages, here, found),
      own,
    )
    | inr away ↦ (m, ground (arith, lookup-adjust id j completed messages, away, found), own)
  ],
  complete-AllStored (some id) l messages h,
)
  where
    completed : AgentMessageEnvelope → AgentMessageEnvelope
    completed n = record n { status = MessageStatus.completed }

pub finish_activation-IsSound :
    (now_ms : ℕ) (id : String) (f : Finish) (bus : AgentBus)
    → IsSound bus
    → IsSound (finish_activation now_ms id f bus).0
unfolding finish_activation
finish_activation-IsSound now_ms id f bus h = elim (Option-cases (agent id bus)) [
  | inl e ↦ rw (finish_activation, e) h
  | inr (a, e) ↦
      let closed = (on_agent now_ms id (finished now_ms f) bus).0 in
      let (bounded, (distinct, stored, few)) =
        on_agent-IsSound now_ms id (finished now_ms f) bus h in
      let still =
        complete-AllStored f.agent_message_id (history closed.session) closed.messages stored in
      rw (finish_activation, e) (bounded, (distinct, still, few))
]

pub apply_config-IsSound :
    (now_ms : ℕ) (id : String) (next : AgentConfigSnapshot) (expected : ℕ) (bus : AgentBus)
    → IsSound bus
    → IsSound (apply_config now_ms id next expected bus).0
unfolding apply_config with_session with_runtime with_agent
apply_config-IsSound now_ms id next expected bus h =
    Untouched-IsSound bus (apply_config now_ms id next expected bus).0 (ground arith) h

pub mark_config_applied-IsSound :
    (now_ms : ℕ) (id : String) (revision : ℕ) (bus : AgentBus)
    → IsSound bus
    → IsSound (mark_config_applied now_ms id revision bus).0
unfolding mark_config_applied with_session with_agent
mark_config_applied-IsSound now_ms id revision bus h =
    Untouched-IsSound bus (mark_config_applied now_ms id revision bus).0 (ground arith) h

pub apply_pending_config-IsSound :
    (now_ms : ℕ) (id : String) (config : AgentConfigSnapshot) (bus : AgentBus)
    → IsSound bus
    → IsSound (apply_pending_config now_ms id config bus).0
unfolding apply_pending_config take_pending mark_config_applied with_session with_agent
apply_pending_config-IsSound now_ms id config bus h =
    Untouched-IsSound bus (apply_pending_config now_ms id config bus).0 (ground arith) h

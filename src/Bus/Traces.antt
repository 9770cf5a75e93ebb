-- ===== src/Bus/Traces.antt =====
-- What holds in every state that the operations of agent_bus.rs reach from a new session.
use Prim.Native.String.{◌++◌ as ◌+++◌}
use ling_xi_agent.Prelude.{
  some, is_blank, ◌∷◌, ℕ, String, List, ◌≡◌, refl, subst, sym, [], lookup, arith, Option-cases,
  Bool-cases, inl, inr,
}
use ling_xi_agent.Errors.{Result-cases}
use ling_xi_agent.Protocol.Config.{AgentConfigSnapshot, AgentUsage}
use ling_xi_agent.Protocol.Json.{Value, string, object, object_of}
use ling_xi_agent.Protocol.MessageKinds
use ling_xi_agent.Protocol.Envelope.{
  AgentMessageEnvelope, ArtifactRef, Serde, new_message, validate_message,
}
use ling_xi_agent.Protocol.Session.{AgentInstance, TaskSession}
use ling_xi_agent.Bus.State.{AgentBus, AgentRuntime, pause, resume, with_runtime, with_limits}
use ling_xi_agent.Bus.Agents.{
  agent, is_held, state_of, pause_agent, resume_agent, cancel_agent, set_instance_state,
  start_activation, Finish, finish_activation, register_instance, record_usage, complete_session,
  with_agent,
}
use ling_xi_agent.Bus.Messages.{accept, deliver, store, send, receive, acknowledge}
use ling_xi_agent.Bus.Bounds.{IsBounded, accept-IsBounded, receive-IsBounded}
use ling_xi_agent.Bus.Sound.{
  IsSound, on_agent-IsSound, with_session-IsSound, register_instance-IsSound,
  finish_activation-IsSound, apply_config-IsSound, mark_config_applied-IsSound,
  apply_pending_config-IsSound,
}
use ling_xi_agent.Bus.Config.{
  apply_config, mark_config_applied, reject_config, apply_pending_config, intervention, add_review,
  add_artifacts,
}
use ling_xi_agent.Bus.History.{send-IsConsistent, receive-IsConsistent, acknowledge-IsConsistent}

pub receive-queue_limit :
    (recipient : String) (limit : ℕ) (bus : AgentBus)
    → (receive recipient limit bus).0.queue_limit ≡ bus.queue_limit
unfolding receive
receive-queue_limit recipient limit bus = ground arith

acknowledge-inbox :
    (id status : String) (bus : AgentBus)
    → ((acknowledge id status bus).0.queue_limit ≡ bus.queue_limit)
      × ((acknowledge id status bus).0.inbox ≡ bus.inbox)
unfolding acknowledge
acknowledge-inbox id status bus = ground arith

module _ (serde : Serde) where
  pub data Step : AgentBus → AgentBus → Type 0 where
    sent :
        (now_ms : ℕ) (m : AgentMessageEnvelope) (bus : AgentBus)
        → Step bus (send serde now_ms m bus).0
    received :
        (recipient : String) (limit : ℕ) (bus : AgentBus) → Step bus (receive recipient limit bus).0
    acknowledged : (id status : String) (bus : AgentBus) → Step bus (acknowledge id status bus).0
    paused : (now_ms : ℕ) (id : String) (bus : AgentBus) → Step bus (pause_agent now_ms id bus).0
    resumed : (now_ms : ℕ) (id : String) (bus : AgentBus) → Step bus (resume_agent now_ms id bus).0
    cancelled : (id : String) (bus : AgentBus) → Step bus (cancel_agent id bus).0
    moved :
        (now_ms : ℕ) (id value : String) (bus : AgentBus)
        → Step bus (set_instance_state now_ms id value bus).0
    started :
        (now_ms : ℕ) (id : String) (config : AgentConfigSnapshot) (bus : AgentBus)
        → Step bus (start_activation now_ms id config bus).0
    closed :
        (now_ms : ℕ) (id : String) (f : Finish) (bus : AgentBus)
        → Step bus (finish_activation now_ms id f bus).0
    registered :
        (now_ms : ℕ) (new : AgentInstance) (bus : AgentBus)
        → Step bus (register_instance now_ms new bus).0
    used :
        (now_ms : ℕ) (id activation : String) (usage : AgentUsage) (bus : AgentBus)
        → Step bus (record_usage now_ms id activation usage bus).0
    ended :
        (now_ms : ℕ) (value : String) (bus : AgentBus)
        → Step bus (complete_session now_ms value bus)
    intervened :
        (now_ms : ℕ) (message_id id text : String) (bus : AgentBus)
        → Step bus (intervention serde now_ms message_id id text bus).0
    configured :
        (now_ms : ℕ) (id : String) (next : AgentConfigSnapshot) (expected : ℕ) (bus : AgentBus)
        → Step bus (apply_config now_ms id next expected bus).0
    config_applied :
        (now_ms : ℕ) (id : String) (revision : ℕ) (bus : AgentBus)
        → Step bus (mark_config_applied now_ms id revision bus).0
    config_rejected :
        (id : String) (revision : ℕ) (detail : String) (bus : AgentBus)
        → Step bus (reject_config id revision detail bus)
    config_taken :
        (now_ms : ℕ) (id : String) (config : AgentConfigSnapshot) (bus : AgentBus)
        → Step bus (apply_pending_config now_ms id config bus).0
    reviewed :
        (now_ms : ℕ) (review_id id activation tool_name tool_call_id reason : String)
        (arguments : Value) (bus : AgentBus)
        → Step bus
            (add_review now_ms review_id id activation tool_name tool_call_id reason arguments
              bus).0
    made : (artifacts : List ArtifactRef) (bus : AgentBus) → Step bus (add_artifacts artifacts bus)
    -- what a caller does to the runtime that `ensure_runtime` returns
    controlled :
        (id : String) (change : AgentRuntime → AgentRuntime) (bus : AgentBus)
        → Step bus (with_runtime id change bus)

  pub data Reach (origin : AgentBus) : AgentBus → Type 0 where
    here : Reach origin origin
    after_step : {bus after : AgentBus} → Reach origin bus → Step bus after → Reach origin after

  send-IsBounded :
      (now_ms : ℕ) (m : AgentMessageEnvelope) (bus : AgentBus)
      → IsBounded bus.queue_limit bus.inbox
      → IsBounded bus.queue_limit (send serde now_ms m bus).0.inbox
  unfolding send
  send-IsBounded now_ms m bus h = elim (Result-cases (validate_message serde m)) [
    | inl (_, e) ↦ rw (send, e) (accept-IsBounded now_ms m bus h)
    | inr (_, e) ↦ rw (send, e) h
  ]

  send-queue_limit :
      (now_ms : ℕ) (m : AgentMessageEnvelope) (bus : AgentBus)
      → (send serde now_ms m bus).0.queue_limit ≡ bus.queue_limit
  unfolding send accept deliver store
  send-queue_limit now_ms m bus = ground arith

  sent-IsSound :
      (now_ms : ℕ) (m : AgentMessageEnvelope) (bus : AgentBus)
      → IsSound bus
      → IsSound (send serde now_ms m bus).0
  sent-IsSound now_ms m bus (b, c) = (
    subst (λ n. IsBounded n (send serde now_ms m bus).0.inbox) (sym (send-queue_limit now_ms m bus))
        (send-IsBounded now_ms m bus b),
    send-IsConsistent serde now_ms m bus c,
  )

  intervention-IsSound :
      (now_ms : ℕ) (message_id id text : String) (bus : AgentBus)
      → IsSound bus
      → IsSound (intervention serde now_ms message_id id text bus).0
  unfolding intervention with_runtime new_message
  intervention-IsSound now_ms message_id id text bus h =
      let message =
        record (new_message now_ms message_id ("task-" +++ id) "user" id MessageKinds.feedback
          (object (object_of (("feedback", string text) ∷ ("verdict", string "revise") ∷ [])))) {
            correlation_id = some id;
          } in
      let sent = sent-IsSound now_ms message bus h in
      elim (Bool-cases (is_blank text)) [
        | inl e ↦ rw (intervention, e) h
        | inr e ↦ elim (Result-cases (send serde now_ms message bus).1) [
          | inl (_, e1) ↦ rw (intervention, e, e1) sent
          | inr (_, e1) ↦ rw (intervention, e, e1) sent
        ]
      ]

  step-IsSound : (before after : AgentBus) → Step before after → IsSound before → IsSound after
  unfolding pause_agent resume_agent cancel_agent set_instance_state start_activation with_runtime
      record_usage complete_session reject_config add_review add_artifacts with_agent
  step-IsSound before after (sent now_ms m bus) h = sent-IsSound now_ms m bus h
  step-IsSound before after (received recipient limit bus) (b, c) = (
    subst (λ n. IsBounded n (receive recipient limit bus).0.inbox)
        (sym (receive-queue_limit recipient limit bus))
        (receive-IsBounded bus.queue_limit recipient limit bus b),
    receive-IsConsistent recipient limit bus c,
  )
  step-IsSound before after (acknowledged id status bus) (b, c) = (
    rw ((acknowledge-inbox id status bus).0, (acknowledge-inbox id status bus).1) b,
    acknowledge-IsConsistent id status bus c,
  )
  step-IsSound before after (paused now_ms id bus) h =
      on_agent-IsSound now_ms id _ (with_runtime id pause bus) h
  step-IsSound before after (resumed now_ms id bus) h =
      elim (Bool-cases (is_held (state_of (agent id (with_runtime id resume bus))))) [
        | inl e ↦ rw (resume_agent, e) (on_agent-IsSound now_ms id _ (with_runtime id resume bus) h)
        | inr e ↦ rw (resume_agent, e) h
      ]
  step-IsSound before after (cancelled id bus) h = h
  step-IsSound before after (moved now_ms id value bus) h = on_agent-IsSound now_ms id _ bus h
  step-IsSound before after (started now_ms id config bus) h = elim (Option-cases (agent id bus)) [
    | inl e ↦ rw (start_activation, e) h
    | inr (a, e) ↦ rw (start_activation, e) (on_agent-IsSound now_ms id _ bus h)
  ]
  step-IsSound before after (closed now_ms id f bus) h = finish_activation-IsSound now_ms id f bus h
  step-IsSound before after (registered now_ms new bus) h =
      register_instance-IsSound now_ms new bus h
  step-IsSound before after (used now_ms id activation usage bus) h =
      with_session-IsSound _ bus (λ s. refl) h
  step-IsSound before after (ended now_ms value bus) h = with_session-IsSound _ bus (λ s. refl) h
  step-IsSound before after (intervened now_ms message_id id text bus) h =
      intervention-IsSound now_ms message_id id text bus h
  step-IsSound before after (configured now_ms id next expected bus) h =
      apply_config-IsSound now_ms id next expected bus h
  step-IsSound before after (config_applied now_ms id revision bus) h =
      mark_config_applied-IsSound now_ms id revision bus h
  step-IsSound before after (config_rejected id revision detail bus) h =
      with_session-IsSound _ bus (λ s. refl) h
  step-IsSound before after (config_taken now_ms id config bus) h =
      apply_pending_config-IsSound now_ms id config bus h
  step-IsSound before after (reviewed now_ms review_id id activation tool call reason arguments bus)
        h =
      with_session-IsSound _ bus (λ s. refl) h
  step-IsSound before after (made artifacts bus) h = with_session-IsSound _ bus (λ s. refl) h
  step-IsSound before after (controlled id change bus) h = h

  Reach-IsSound : (origin bus : AgentBus) → IsSound origin → Reach origin bus → IsSound bus
  Reach-IsSound origin bus h here = h
  Reach-IsSound origin bus h (after_step earlier last) =
      step-IsSound _ bus last (Reach-IsSound origin _ h earlier)

  -- Whatever operations of the bus are made, with whatever arguments and in any order, from a new
  -- session without messages: no queue grows over the queue limit, the session keeps no more messages
  -- than the message limit, no two of them have the same id, and the table of messages has a message
  -- with the id of each of them. The operations are send, receive, acknowledge and intervention,
  -- registering, pausing, resuming and cancelling an agent and moving it to a state, starting and
  -- finishing an activation, recording usage, applying, marking as applied, rejecting and taking over a
  -- configuration, adding reviews and artifacts, completing the session, and any change of the control
  -- of an agent. That the table and the session have the same contents for an id is not claimed.
  pub reachable-IsSound :
      (session : TaskSession) (queue_limit message_limit : ℕ) (bus : AgentBus)
      → session.messages ≡ []
      → Reach (with_limits session queue_limit message_limit) bus
      → IsSound bus
  unfolding with_limits lookup
  reachable-IsSound session queue_limit message_limit bus none_yet reached =
      Reach-IsSound (with_limits session queue_limit message_limit) bus
        (λ r. omega arith, rw none_yet (tt, tt, omega arith)) reached

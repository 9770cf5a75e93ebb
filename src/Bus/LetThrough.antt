-- ===== src/Bus/LetThrough.antt =====
-- The guards of `send` in agent_bus.rs, and that neither a failed delivery nor receiving closes them.
use ling_xi_agent.Prelude.{
  refl, Option-cases, inl, inr, none, contains_key, take, ℕ, false, String, ◌≡◌, ap, ◌∙◌, some,
  List, [], ◌∷◌, drop, lookup, lookup-insert, insert, arith, eq_iff,
}
use ling_xi_agent.Errors.{ok, err, bus_queue_full, Result-cases}
use ling_xi_agent.Protocol.Envelope.{AgentMessageEnvelope, Serde, validate_message}
use ling_xi_agent.Protocol.Session.{TaskSession}
use ling_xi_agent.Bus.State.{AgentBus, BusState}
use ling_xi_agent.Bus.Messages.{
  enqueue_all, deliver, receive, send, accept, recipients, collect, sync_session, set_statuses,
  mark_delivered,
}
use ling_xi_agent.Bus.History.{collect-session}
use ling_xi_agent.Bus.Queues.{after_marking}

collect-idempotency :
    (queue : List String) (s : BusState) → (collect queue s).0.idempotency ≡ s.idempotency
unfolding collect
collect-idempotency [] s = refl
collect-idempotency (id ∷ rest) s = elim (Option-cases (lookup id s.messages)) [
  | inl e ↦ rw (collect, e) (collect-idempotency rest s)
  | inr (m, e) ↦ rw (collect, e) (collect-idempotency rest (after_marking id m s))
]

-- a message that is not in the table is not put into it by receiving
collect-missing :
    (id : String) (queue : List String) (s : BusState)
    → contains_key id s.messages ≡ false
    → contains_key id (collect queue s).0.messages ≡ false
unfolding collect
collect-missing id [] s missing = missing
collect-missing id (j ∷ rest) s missing = elim (Option-cases (lookup j s.messages)) [
  | inl e ↦ rw (collect, e) (collect-missing id rest s missing)
  | inr (m, e) ↦
      rw (collect, e)
        (collect-missing id rest (after_marking j m s) (
          ground
            (arith, missing, e, lookup-insert j id (mark_delivered m) s.messages, eq_iff j id)))
]

-- the guards of `send` let the message through to the targets
abbrev pub IsLetThrough : AgentMessageEnvelope → TaskSession → List String → AgentBus → Type 0
IsLetThrough m session targets bus =
    (bus.session ≡ some session)
    × (lookup m.idempotency_key bus.idempotency ≡ none)
    × (contains_key m.message_id bus.messages ≡ false)
    × (recipients session m ≡ ok targets)

pub receive-IsLetThrough :
    (recipient : String) (n : ℕ) (m : AgentMessageEnvelope) (session : TaskSession)
    (targets : List String) (bus : AgentBus)
    → IsLetThrough m session targets bus
    → (after : TaskSession) × IsLetThrough m after targets (receive recipient n bus).0
unfolding receive sync_session recipients
receive-IsLetThrough recipient n m session targets bus (started, key, new, known) =
    elim (Option-cases (lookup recipient bus.inbox)) [
      | inl e ↦ (session, rw (receive, e) (started, key, new, known))
      | inr (queue, e) ↦
          let s = record bus.state { inbox = insert recipient (drop n queue) bus.inbox } in
          let (after, output) = collect (take n queue) s in
          let held : after.session ≡ some session = collect-session (take n queue) s ∙ started in
          let synced = record session { messages = set_statuses output session.messages } in
          (
            synced,
            rw (receive, e)
                (
                  ap (sync_session output) held,
                  ap (lookup m.idempotency_key) (collect-idempotency (take n queue) s) ∙ key,
                  collect-missing m.message_id (take n queue) s new,
                  known,
                ),
          )
    ]

pub failed-IsLetThrough :
    (now_ms : ℕ) (m : AgentMessageEnvelope) (session : TaskSession) (targets : List String)
    (bus : AgentBus)
    → (deliver now_ms m session targets bus).1 ≡ err bus_queue_full
    → IsLetThrough m session targets bus
    → IsLetThrough m session targets (deliver now_ms m session targets bus).0
unfolding deliver
failed-IsLetThrough now_ms m session targets bus failed h =
    elim (Result-cases (enqueue_all bus.queue_limit m.message_id targets bus.inbox).1) [
      | inl (_, e) ↦ absurd (ground (arith, e, failed))
      | inr (_, e) ↦ rw (deliver, e) h
    ]

module _ (serde : Serde) where
  pub send-deliver :
      (now_ms : ℕ) (m : AgentMessageEnvelope) (session : TaskSession) (targets : List String)
      (bus : AgentBus)
      → validate_message serde m ≡ ok tt
      → IsLetThrough m session targets bus
      → send serde now_ms m bus ≡ deliver now_ms m session targets bus
  unfolding send accept
  send-deliver now_ms m session targets bus valid (started, key, new, known) =
      simp (send, accept, valid, started, key, new, known)

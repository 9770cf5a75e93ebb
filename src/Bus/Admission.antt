-- ===== src/Bus/Admission.antt =====
-- What agent_bus.rs lets in: which messages `send` stores, which configurations `apply_config` takes,
-- and that a refusal changes nothing.
use ling_xi_agent.Prelude.{
  eq_iff, ℕ, ◌+◌, String, true, false, ◌≡◌, ◌≢◌, refl, sym, ap, ◌∙◌, ◌⊎◌, inl, inr, none, some,
  List, [], ◌∷◌, contains_key, lookup, arith, Option-cases,
}
use ling_xi_agent.Errors.{ErrorCode, ok, err, Result-cases, bus_queue_full}
use ling_xi_agent.Protocol.Config.{AgentConfigSnapshot, AgentConfigRevision, validate_config}
use ling_xi_agent.Protocol.Envelope.{AgentMessageEnvelope, Serde, validate_message}
use ling_xi_agent.Protocol.Session.{AgentInstance, TaskSession}
use ling_xi_agent.Bus.State.{AgentBus}
use ling_xi_agent.Bus.Agents.{agent}
use ling_xi_agent.Bus.Messages.{Inbox, enqueue, enqueue_all, deliver, accept, recipients, send}
use ling_xi_agent.Bus.Config.{apply_config, next_revision}
use ling_xi_agent.Bus.Accept.{accept-cases, is_first}

-- the message may come from there
abbrev pub IsSender : TaskSession → String → Type 0
IsSender session id = (id ≡ "user") ⊎ ((id ≡ "workflow") ⊎ (contains_key id session.agents ≡ true))

-- the message may go there
abbrev pub IsRecipient : TaskSession → String → Type 0
IsRecipient session id =
    (contains_key id session.agents ≡ true) ⊎ ((id ≡ "broadcast") ⊎ (id ≡ "user"))

recipients-ends :
    (session : TaskSession) (m : AgentMessageEnvelope) (targets : List String)
    → recipients session m ≡ ok targets
    → IsSender session m.sender × IsRecipient session m.recipient
unfolding recipients
recipients-ends session m targets h = (
  ground (arith, eq_iff m.sender "user", eq_iff m.sender "workflow", h),
  ground (arith, eq_iff m.recipient "broadcast", eq_iff m.recipient "user", h),
)

enqueue_all-err :
    (limit : ℕ) (id : String) (targets : List String) (inbox : Inbox) (code : ErrorCode)
    → (enqueue_all limit id targets inbox).1 ≡ err code
    → code ≡ bus_queue_full
unfolding enqueue_all enqueue
enqueue_all-err limit id [] inbox code h = absurd (ground (arith, h))
enqueue_all-err limit id (r ∷ rs) inbox code h =
    let (queued, outcome) = enqueue limit id r inbox in
    ground (arith, h, enqueue_all-err limit id rs queued code)

deliver-err :
    (now_ms : ℕ) (m : AgentMessageEnvelope) (session : TaskSession) (targets : List String)
    (bus : AgentBus) (code : ErrorCode)
    → (deliver now_ms m session targets bus).1 ≡ err code
    → code ≡ bus_queue_full
unfolding deliver
deliver-err now_ms m session targets bus code h =
    ground (arith, h, enqueue_all-err bus.queue_limit m.message_id targets bus.inbox code)

accept-refused :
    (now_ms : ℕ) (m : AgentMessageEnvelope) (bus : AgentBus) (code : ErrorCode)
    → (accept now_ms m bus).1 ≡ err code
    → code ≢ bus_queue_full
    → (accept now_ms m bus).0 ≡ bus
accept-refused now_ms m bus code failed other = elim (accept-cases now_ms m bus) [
  | inl (_, _, e) ↦ ap (λ o. o.0) e
  | inr (session, targets, _, _, _, _, e) ↦
      absurd (other (deliver-err now_ms m session targets bus code (rw e at failed)))
]

module _ (serde : Serde) (now_ms : ℕ) (m : AgentMessageEnvelope) (bus : AgentBus) where
  -- A message that is stored is valid, comes from an agent of the session, the user or the workflow,
  -- goes to an agent of the session, to all of them or to the user, and its idempotency key and its id
  -- are new.
  pub send_admitted :
      (send serde now_ms m bus).1 ≡ ok (record { message = m; duplicate = false })
      → (validate_message serde m ≡ ok tt)
        × (session : TaskSession) × (bus.session ≡ some session)
        × IsSender session m.sender
        × IsRecipient session m.recipient
        × (lookup m.idempotency_key bus.idempotency ≡ none)
        × (contains_key m.message_id bus.messages ≡ false)
  unfolding send
  send_admitted sent = elim (Result-cases (validate_message serde m)) [
    | inr (code, e) ↦ absurd (ground (arith, e, sent))
    | inl (_, e) ↦ elim (accept-cases now_ms m bus) [
      | inl (outcome, repeated, f) ↦
          absurd (ground (arith, repeated, ap is_first (rw f at (rw (send, e) at sent))))
      | inr (session, targets, started, key, new, known, _) ↦
          let (from, to) = recipients-ends session m targets known in
          (e, session, started, from, to, key, new)
    ]
  ]

  -- A send that fails for any other reason than a full inbox changes nothing.
  pub send_refused :
      (code : ErrorCode)
      → (send serde now_ms m bus).1 ≡ err code
      → code ≢ bus_queue_full
      → (send serde now_ms m bus).0 ≡ bus
  unfolding send
  send_refused code failed other = elim (Result-cases (validate_message serde m)) [
    | inr (_, e) ↦ rw (send, e) refl
    | inl (_, e) ↦ rw (send, e) (accept-refused now_ms m bus code (rw (send, e) at failed) other)
  ]

-- A configuration is accepted only if it is valid, and asked for at the agent's present revision; the
-- accepted one is the wanted one with the next revision number.
pub apply_config_guarded :
    (now_ms : ℕ) (id : String) (next : AgentConfigSnapshot) (expected : ℕ) (bus : AgentBus)
    (revision : AgentConfigRevision)
    → (apply_config now_ms id next expected bus).1 ≡ ok revision
    → (validate_config next ≡ ok tt)
      × (a : AgentInstance) × (agent id bus ≡ some a)
      × (a.config.revision ≡ expected)
      × (revision.after ≡ record next { revision = expected + 1 })
unfolding apply_config next_revision
apply_config_guarded now_ms id next expected bus revision h =
    elim (Result-cases (validate_config next)) [
      | inr (_, e) ↦ absurd (ground (arith, e, h))
      | inl (_, e) ↦ elim (Option-cases (agent id bus)) [
        | inl f ↦ absurd (ground (arith, e, f, h))
        | inr (a, f) ↦
            let same : a.config.revision ≡ expected = ground (arith, e, f, h) in
            let made : next_revision a.config next ≡ revision = ground (arith, e, f, h) in
            (
              e,
              a,
              f,
              same,
              ap (λ (r : AgentConfigRevision). r.after) (sym made)
                  ∙ ap (λ (n : ℕ). record next { revision = n + 1 }) same,
            )
      ]
    ]

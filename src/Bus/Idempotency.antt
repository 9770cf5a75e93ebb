-- ===== src/Bus/Idempotency.antt =====
-- Sending again in agent_bus.rs: the same idempotency key, for a message that was already sent.
use ling_xi_agent.Prelude.{
  ℕ, zero, suc, ◌≤◌, String, true, false, ◌≡◌, refl, ◌∙◌, ap, some, List, [], ◌∷◌, ◌++◌, Dict,
  contains_key, lookup, insert, lookup-insert, take, length, length-append, arith, eq_refl, inl,
  inr,
}
use ling_xi_agent.Errors.{ErrorCode, ok, err, Result-cases}
use ling_xi_agent.Protocol.Envelope.{AgentMessageEnvelope, Serde, validate_message}
use ling_xi_agent.Protocol.Session.{TaskSession}
use ling_xi_agent.Bus.State.{AgentBus}
use ling_xi_agent.Bus.Messages.{
  ids, excess, store, deliver, accept, send, enqueue_all, duplicate_of,
}
use ling_xi_agent.Bus.Accept.{accept-cases, is_first}
use ling_xi_agent.Bus.Table.{Absent, missing-Absent, Absent-take, lookup-remove_all, ids-take}
use ling_xi_agent.Bus.History.{IsConsistent, length-ids}

-- The message that was just appended is not among those that leave.
take-append :
    (n : ℕ) (l : List AgentMessageEnvelope) (m : AgentMessageEnvelope)
    → n ≤ length l
    → take n (l ++ m ∷ []) ≡ take n l
take-append zero l m h = refl
take-append (suc n) [] m h = absurd (omega (arith, h))
take-append (suc n) (k ∷ l) m h = ap (λ t. k ∷ t) (take-append n l m (omega (arith, h)))

excess_le :
    (limit : ℕ) (l : List AgentMessageEnvelope) (m : AgentMessageEnvelope)
    → 1 ≤ limit
    → length l ≤ limit
    → excess limit (l ++ m ∷ []) ≤ length l
excess_le limit l m h g = ground (arith, length-append l (m ∷ []))

store-lookup :
    (now_ms : ℕ) (m : AgentMessageEnvelope) (session : TaskSession) (inbox : Dict (List String))
    (bus : AgentBus)
    → contains_key m.message_id bus.messages ≡ false
    → bus.session ≡ some session
    → 1 ≤ bus.message_limit
    → IsConsistent bus
    → lookup m.message_id (store now_ms m session inbox bus).messages ≡ some m
unfolding store
store-lookup now_ms m session inbox bus new started positive h =
    let all = session.messages ++ m ∷ [] in
    let n = excess bus.message_limit all in
    let (d, stored, b) = rw started at h in
    let old : Absent m.message_id (ids session.messages) =
      missing-Absent m.message_id (ids session.messages) bus.messages new stored in
    let kept : n ≤ length session.messages =
      excess_le bus.message_limit session.messages m positive
        (omega (arith, b, length-ids session.messages)) in
    let table = insert m.message_id m bus.messages in
    rw (take-append n session.messages m kept, ids-take n session.messages)
      (lookup-remove_all m.message_id (take n (ids session.messages)) table
          (Absent-take m.message_id n (ids session.messages) old)
        ∙ ground
            (arith, lookup-insert m.message_id m.message_id m bus.messages, eq_refl m.message_id))

store-key :
    (now_ms : ℕ) (m retry : AgentMessageEnvelope) (session : TaskSession)
    (inbox : Dict (List String)) (bus : AgentBus)
    → retry.idempotency_key ≡ m.idempotency_key
    → lookup retry.idempotency_key (store now_ms m session inbox bus).idempotency
      ≡ some m.message_id
unfolding store
store-key now_ms m retry session inbox bus same =
    let key = m.idempotency_key in
    rw same (ground (arith, lookup-insert key key m.message_id bus.idempotency, eq_refl key))

accept-known :
    (now_ms : ℕ) (m stored : AgentMessageEnvelope) (id : String) (session : TaskSession)
    (bus : AgentBus)
    → bus.session ≡ some session
    → lookup m.idempotency_key bus.idempotency ≡ some id
    → lookup id bus.messages ≡ some stored
    → accept now_ms m bus ≡ (bus, ok (record { message = stored; duplicate = true }))
unfolding accept duplicate_of
accept-known now_ms m stored id session bus started known found =
    simp (accept, duplicate_of, started, known, found)

deliver_again :
    (now_ms later_ms : ℕ) (m retry : AgentMessageEnvelope) (session : TaskSession)
    (targets : List String) (bus : AgentBus)
    → contains_key m.message_id bus.messages ≡ false
    → bus.session ≡ some session
    → 1 ≤ bus.message_limit
    → IsConsistent bus
    → retry.idempotency_key ≡ m.idempotency_key
    → (deliver now_ms m session targets bus).1 ≡ ok (record { message = m; duplicate = false })
    → accept later_ms retry (deliver now_ms m session targets bus).0
      ≡ ((deliver now_ms m session targets bus).0, ok (record { message = m; duplicate = true }))
unfolding deliver
deliver_again now_ms later_ms m retry session targets bus new started positive h same sent =
    let queued = enqueue_all bus.queue_limit m.message_id targets bus.inbox in
    elim (Result-cases queued.1) [
      | inr (code, e) ↦ absurd (ground (arith, e, sent))
      | inl (_, e) ↦
          rw (deliver, e)
            (accept-known later_ms retry m m.message_id _ (store now_ms m session queued.0 bus) refl
              (store-key now_ms m retry session queued.0 bus same)
              (store-lookup now_ms m session queued.0 bus new started positive h))
    ]

module _ (serde : Serde) where
  send-accept :
      (now_ms : ℕ) (m : AgentMessageEnvelope) (bus : AgentBus)
      → validate_message serde m ≡ ok tt
      → send serde now_ms m bus ≡ accept now_ms m bus
  unfolding send
  send-accept now_ms m bus valid = simp (send, valid)

  send_invalid :
      (now_ms : ℕ) (m : AgentMessageEnvelope) (bus : AgentBus) (code : ErrorCode)
      → validate_message serde m ≡ err code
      → (send serde now_ms m bus).1 ≡ err code
  unfolding send
  send_invalid now_ms m bus code e = simp (send, e)

  accept_again :
      (now_ms later_ms : ℕ) (m retry : AgentMessageEnvelope) (bus : AgentBus)
      → IsConsistent bus
      → 1 ≤ bus.message_limit
      → retry.idempotency_key ≡ m.idempotency_key
      → (accept now_ms m bus).1 ≡ ok (record { message = m; duplicate = false })
      → accept later_ms retry (accept now_ms m bus).0
        ≡ ((accept now_ms m bus).0, ok (record { message = m; duplicate = true }))
  accept_again now_ms later_ms m retry bus h positive same sent = elim (accept-cases now_ms m bus) [
    | inl (outcome, repeated, e) ↦ absurd (ground (arith, repeated, ap is_first (rw e at sent)))
    | inr (session, targets, started, _, new, _, e) ↦ rw e (
        deliver_again now_ms later_ms m retry session targets bus new started positive h same
          (rw e at sent))
  ]

  -- A second send with the idempotency key of a message that was just sent changes nothing and
  -- answers with the message that was sent first, marked as a duplicate, whatever else the second
  -- message says, if it is valid; the bus was consistent before and keeps at least one message.
  pub send_again :
      (now_ms later_ms : ℕ) (m retry : AgentMessageEnvelope) (bus : AgentBus)
      → IsConsistent bus
      → 1 ≤ bus.message_limit
      → validate_message serde retry ≡ ok tt
      → retry.idempotency_key ≡ m.idempotency_key
      → (send serde now_ms m bus).1 ≡ ok (record { message = m; duplicate = false })
      → send serde later_ms retry (send serde now_ms m bus).0
        ≡ ((send serde now_ms m bus).0, ok (record { message = m; duplicate = true }))
  send_again now_ms later_ms m retry bus h positive valid same sent =
      elim (Result-cases (validate_message serde m)) [
        | inr (code, e) ↦ absurd (ground (arith, send_invalid now_ms m bus code e, sent))
        | inl (_, e) ↦ rw (send-accept now_ms m bus e) (
            send-accept later_ms retry (accept now_ms m bus).0 valid
            ∙ accept_again now_ms later_ms m retry bus h positive same
                (rw (send-accept now_ms m bus e) at sent))
      ]

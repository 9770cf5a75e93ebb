-- ===== src/Bus/Broadcast.antt =====
-- A message of agent_bus.rs to several recipients, one of whom has a full inbox.
use ling_xi_agent.Prelude.{
  ℕ, false, ◌+◌, ◌≤◌, ◌<◌, String, ◌≡◌, ◌≢◌, sym, ap, ◌∙◌, some, List, [], ◌∷◌, ◌++◌, unwrap_or,
  length, append_assoc, length-append, length-drop, drop, lookup, lookup-insert, insert, arith,
  eq_iff, eq_refl,
}
use ling_xi_agent.Errors.{ok, err, bus_queue_full}
use ling_xi_agent.Protocol.Envelope.{AgentMessageEnvelope, Serde, validate_message}
use ling_xi_agent.Protocol.Session.{TaskSession}
use ling_xi_agent.Bus.State.{AgentBus}
use ling_xi_agent.Bus.Messages.{enqueue, enqueue_all, deliver, store, receive, send}
use ling_xi_agent.Bus.Queues.{receive-inbox}
use ling_xi_agent.Bus.LetThrough.{
  IsLetThrough, receive-IsLetThrough, failed-IsLetThrough, send-deliver,
}
use ling_xi_agent.Bus.Traces.{receive-queue_limit}

-- the queue of a recipient, empty where there is none
abbrev pub queue_of : String → AgentBus → List String
queue_of id bus = unwrap_or (lookup id bus.inbox) []

-- Delivering to two recipients, of which the first has room and the second has a full inbox, fails, and
-- the message's id stays behind in the first one's queue, although the message is not stored: neither
-- the table nor the session nor the keys nor the full inbox have changed.
broadcast_partial :
    (now_ms : ℕ) (m : AgentMessageEnvelope) (session : TaskSession) (first full : String)
    (bus : AgentBus)
    → first ≢ full
    → length (queue_of first bus) < bus.queue_limit
    → bus.queue_limit ≤ length (queue_of full bus)
    → let after = deliver now_ms m session (first ∷ full ∷ []) bus in
      (after.1 ≡ err bus_queue_full)
      × (queue_of first after.0 ≡ queue_of first bus ++ m.message_id ∷ [])
      × (lookup full after.0.inbox ≡ some (queue_of full bus))
      × (after.0.messages ≡ bus.messages)
      × (after.0.session ≡ bus.session)
      × (after.0.idempotency ≡ bus.idempotency)
unfolding deliver enqueue_all enqueue
broadcast_partial now_ms m session first full bus other room is_full =
    let old = unwrap_or (lookup first bus.inbox) [] in
    let once = old ++ m.message_id ∷ [] in
    ground (
      arith,
      lookup-insert first full once bus.inbox,
      lookup-insert first first once bus.inbox,
      lookup-insert full full (queue_of full bus) (insert first once bus.inbox),
      lookup-insert full first (queue_of full bus) (insert first once bus.inbox),
      eq_iff first full,
      eq_iff full first,
      eq_refl first,
      eq_refl full,
      other,
    )

-- Where both recipients have room, the message is queued for both.
broadcast_room :
    (now_ms : ℕ) (m : AgentMessageEnvelope) (session : TaskSession) (first other : String)
    (bus : AgentBus)
    → first ≢ other
    → length (queue_of first bus) < bus.queue_limit
    → length (queue_of other bus) < bus.queue_limit
    → let after = deliver now_ms m session (first ∷ other ∷ []) bus in
      (after.1 ≡ ok (record { message = m; duplicate = false }))
      × (queue_of first after.0 ≡ queue_of first bus ++ m.message_id ∷ [])
unfolding deliver enqueue_all enqueue store
broadcast_room now_ms m session first other bus differ room room' =
    let once = queue_of first bus ++ m.message_id ∷ [] in
    let once' = queue_of other bus ++ m.message_id ∷ [] in
    ground (
      arith,
      lookup-insert first other once bus.inbox,
      lookup-insert first first once bus.inbox,
      lookup-insert other first once' (insert first once bus.inbox),
      eq_iff first other,
      eq_iff other first,
      eq_refl first,
      differ,
    )

receive_other :
    (recipient other : String) (n : ℕ) (queue : List String) (bus : AgentBus)
    → recipient ≢ other
    → lookup recipient bus.inbox ≡ some queue
    → (queue_of other (receive recipient n bus).0 ≡ queue_of other bus)
      × (queue_of recipient (receive recipient n bus).0 ≡ drop n queue)
      × ((receive recipient n bus).0.queue_limit ≡ bus.queue_limit)
receive_other recipient other n queue bus differ found = ground (
  arith,
  receive-inbox recipient n queue bus found other,
  receive-inbox recipient n queue bus found recipient,
  receive-queue_limit recipient n bus,
  eq_iff recipient other,
  eq_refl recipient,
  differ,
)

deliver-queue_limit :
    (now_ms : ℕ) (m : AgentMessageEnvelope) (session : TaskSession) (targets : List String)
    (bus : AgentBus)
    → (deliver now_ms m session targets bus).0.queue_limit ≡ bus.queue_limit
unfolding deliver store
deliver-queue_limit now_ms m session targets bus = ground arith

-- The same delivery, repeated after at least one message was read from the full inbox.
deliver_twice :
    (now_ms later_ms n : ℕ) (m : AgentMessageEnvelope) (session later_session : TaskSession)
    (first full : String) (queue : List String) (bus : AgentBus)
    → first ≢ full
    → length (queue_of first bus) + 1 < bus.queue_limit
    → lookup full bus.inbox ≡ some queue
    → length queue ≡ bus.queue_limit
    → 1 ≤ n
    → let failed = deliver now_ms m session (first ∷ full ∷ []) bus in
      let again =
        deliver later_ms m later_session (first ∷ full ∷ []) (receive full n failed.0).0 in
      (failed.1 ≡ err bus_queue_full)
      × (again.1 ≡ ok (record { message = m; duplicate = false }))
      × (queue_of first again.0 ≡ queue_of first bus ++ m.message_id ∷ m.message_id ∷ [])
deliver_twice now_ms later_ms n m session later_session first full queue bus differ room found
      is_full positive =
    let failed = deliver now_ms m session (first ∷ full ∷ []) bus in
    let one =
      broadcast_partial now_ms m session first full bus differ (omega (arith, room))
        (rw found (omega (arith, is_full))) in
    let drained = (receive full n failed.0).0 in
    let (same, rest, limit) =
      receive_other full first n (queue_of full bus) failed.0 (λ e. differ (sym e)) one.2 in
    let kept = limit ∙ deliver-queue_limit now_ms m session (first ∷ full ∷ []) bus in
    let held = same ∙ one.1 in
    let left = rest ∙ ap (λ q. drop n (unwrap_or q [])) found in
    let two =
      broadcast_room later_ms m later_session first full drained differ
        (omega (
          arith,
          kept,
          ap length held,
          length-append (queue_of first bus) (m.message_id ∷ []),
          room,
        ))
        (omega (arith, kept, ap length left, length-drop n queue, is_full, positive, room)) in
    (
      one.0,
      two.0,
      two.1
          ∙ ap (λ q. q ++ m.message_id ∷ []) held
          ∙ append_assoc (queue_of first bus) (m.message_id ∷ []) (m.message_id ∷ []),
    )

module _ (serde : Serde) where
  -- A valid message with a new id and a new key, whose recipients are two agents of the session (by
  -- `recipients`), of whom the first has room for two messages and the second has a full inbox: sending
  -- it fails. When the same send is repeated after at least one message was read from the full inbox,
  -- it succeeds as a first delivery, and the first recipient has the message's id twice at the end of
  -- the queue.
  pub broadcast_twice :
      (now_ms later_ms n : ℕ) (m : AgentMessageEnvelope) (session : TaskSession)
      (first full : String) (queue : List String) (bus : AgentBus)
      → validate_message serde m ≡ ok tt
      → IsLetThrough m session (first ∷ full ∷ []) bus
      → first ≢ full
      → length (queue_of first bus) + 1 < bus.queue_limit
      → lookup full bus.inbox ≡ some queue
      → length queue ≡ bus.queue_limit
      → 1 ≤ n
      → let failed = send serde now_ms m bus in
        let again = send serde later_ms m (receive full n failed.0).0 in
        (failed.1 ≡ err bus_queue_full)
        × (again.1 ≡ ok (record { message = m; duplicate = false }))
        × (queue_of first again.0 ≡ queue_of first bus ++ m.message_id ∷ m.message_id ∷ [])
  broadcast_twice now_ms later_ms n m session first full queue bus valid through differ room found
        is_full positive =
      let targets = first ∷ full ∷ [] in
      let twice =
        deliver_twice now_ms later_ms n m session session first full queue bus differ room found
          is_full positive in
      let failed = (deliver now_ms m session targets bus).0 in
      let (after, still) =
        receive-IsLetThrough full n m session targets failed
          (failed-IsLetThrough now_ms m session targets bus twice.0 through) in
      rw
        (
          send-deliver serde now_ms m session targets bus valid through,
          send-deliver serde later_ms m after targets (receive full n failed).0 valid still,
        )
        (deliver_twice now_ms later_ms n m session after first full queue bus differ room found
          is_full positive)

-- ===== src/Bus/Messages.antt =====
-- crates/lingxi-runtime/src/agent_bus.rs: sending, receiving and acknowledging messages. `serde` is
-- what message validation uses of `serde_json`.
use ling_xi_agent.Prelude.{
  ℕ, ◌-◌, String, true, false, not, ◌&&◌, ◌||◌, Option, none, some, List, [], ◌∷◌, ◌++◌, Dict,
  lookup, insert, remove, contains_key, keys, take, drop, length, map, leb, ltb, unwrap_or, ◌==◌,
  if◌then◌else◌,
}
use ling_xi_agent.Errors.{
  Result, ok, err, agent_invalid_message, bus_duplicate, bus_unknown_recipient, bus_queue_full,
  bus_forbidden,
}
use ling_xi_agent.Protocol.Envelope.{AgentMessageEnvelope, Serde, validate_message, one_of}
use ling_xi_agent.Protocol.MessageStatus
use ling_xi_agent.Protocol.Session.{TaskSession}
use ling_xi_agent.Bus.State.{AgentBus, BusState, Delivery, session_of}

abbrev pub Inbox : Type 0
Inbox = Dict (List String)

-- `or_default` makes the queue even where the message is then refused.
unfoldable pub enqueue : ℕ → String → String → Inbox → Inbox × Result (Unit {0})
enqueue queue_limit message_id recipient inbox =
    let queue = unwrap_or (lookup recipient inbox) [] in
    if leb queue_limit (length queue)
    then (insert recipient queue inbox, err bus_queue_full)
    else (insert recipient (queue ++ message_id ∷ []) inbox, ok tt)

-- `for id in &recipients { self.enqueue(..)?; }`: what was queued before the error stays queued.
unfoldable pub enqueue_all : ℕ → String → List String → Inbox → Inbox × Result (Unit {0})
unfolding enqueue
enqueue_all queue_limit message_id [] inbox = (inbox, ok tt)
enqueue_all queue_limit message_id (recipient ∷ rest) inbox =
    let (queued, outcome) = enqueue queue_limit message_id recipient inbox in
    elim outcome [ err e ↦ (queued, err e) | ok _ ↦ enqueue_all queue_limit message_id rest queued ]

unfoldable pub others : String → List String → List String
others sender [] = []
others sender (id ∷ ids) = let rest = others sender ids in if id == sender then rest else id ∷ rest

-- Who the message goes to, after the tests of both ends.
unfoldable pub recipients : TaskSession → AgentMessageEnvelope → Result (List String)
unfolding others
recipients session m =
    if not (m.sender == "user" || (m.sender == "workflow" || contains_key m.sender session.agents))
    then err bus_forbidden
    else if not (contains_key m.recipient session.agents)
        && (not (m.recipient == "broadcast") && not (m.recipient == "user"))
    then err bus_unknown_recipient
    else if m.recipient == "broadcast"
    then ok (others m.sender (keys session.agents))
    else if m.recipient == "user"
    then ok []
    else ok (m.recipient ∷ [])

unfoldable pub remove_all : List String → Dict AgentMessageEnvelope → Dict AgentMessageEnvelope
remove_all [] messages = messages
remove_all (id ∷ ids) messages = remove_all ids (remove id messages)

abbrev pub ids : List AgentMessageEnvelope → List String
ids messages = map (λ (m : AgentMessageEnvelope). m.message_id) messages

-- how many of the oldest messages are over the limit
abbrev pub excess : ℕ → List AgentMessageEnvelope → ℕ
excess message_limit messages =
    if ltb message_limit (length messages) then length messages - message_limit else 0

-- the part of `send` behind the queues
unfoldable pub store : ℕ → AgentMessageEnvelope → TaskSession → Inbox → AgentBus → AgentBus
unfolding remove_all
store now_ms m session inbox bus =
    let history = session.messages ++ m ∷ [] in
    let n = excess bus.message_limit history in
    record bus {
      state = record bus.state {
        session = some (record session { messages = drop n history; updated_at_ms = now_ms });
        idempotency = insert m.idempotency_key m.message_id bus.idempotency;
        messages = remove_all (ids (take n history)) (insert m.message_id m bus.messages);
        inbox = inbox;
      };
    }

unfoldable pub deliver :
    ℕ → AgentMessageEnvelope → TaskSession → List String → AgentBus → AgentBus × Result Delivery
unfolding enqueue_all store
deliver now_ms m session targets bus =
    let (inbox, outcome) = enqueue_all bus.queue_limit m.message_id targets bus.inbox in
    elim outcome [
      | err e ↦ (record bus { state = record bus.state { inbox = inbox } }, err e)
      | ok _ ↦ (store now_ms m session inbox bus, ok (record { message = m; duplicate = false }))
    ]

-- the existing message of an idempotency key
unfoldable pub duplicate_of : String → AgentBus → Result Delivery
duplicate_of id bus = elim (lookup id bus.messages) [
  | none ↦ err bus_duplicate
  | some stored ↦ ok (record { message = stored; duplicate = true })
]

-- `send` for a valid message
unfoldable pub accept : ℕ → AgentMessageEnvelope → AgentBus → AgentBus × Result Delivery
unfolding deliver duplicate_of
accept now_ms m bus = elim bus.session [
  | none ↦ (bus, err bus_unknown_recipient)
  | some session ↦ elim (lookup m.idempotency_key bus.idempotency) [
    | some existing ↦ (bus, duplicate_of existing bus)
    | none ↦
        if contains_key m.message_id bus.messages
        then (bus, err bus_duplicate)
        else elim (recipients session m) [
          | err e ↦ (bus, err e)
          | ok targets ↦ deliver now_ms m session targets bus
        ]
  ]
]

module _ (serde : Serde) where
  unfoldable pub send : ℕ → AgentMessageEnvelope → AgentBus → AgentBus × Result Delivery
  unfolding accept
  send now_ms m bus = elim (validate_message serde m) [
    | err e ↦ (bus, err e)
    | ok _ ↦ accept now_ms m bus
  ]

abbrev pub mark_delivered : AgentMessageEnvelope → AgentMessageEnvelope
mark_delivered m =
    if m.status == MessageStatus.queued then record m { status = MessageStatus.delivered } else m

-- `iter_mut().find(|stored| stored.message_id == id)`, and a new status for what it finds
unfoldable pub set_status : String → String → List AgentMessageEnvelope → List AgentMessageEnvelope
set_status id status [] = []
set_status id status (m ∷ rest) =
    if m.message_id == id
    then record m { status = status } ∷ rest
    else m ∷ set_status id status rest

-- The loop over the ids that were taken from the queue. An id whose message is gone is skipped.
unfoldable pub collect : List String → BusState → BusState × List AgentMessageEnvelope
collect [] s = (s, [])
collect (id ∷ rest) s =
    let skipped = collect rest s in
    elim (lookup id s.messages) [
      | none ↦ skipped
      | some m ↦
          let marked = mark_delivered m in
          let (s', output) = collect rest (record s {
            messages = insert id marked s.messages;
            delivered = s.delivered ++ id ∷ [];
          }) in
          (s', marked ∷ output)
    ]

unfoldable pub set_statuses :
    List AgentMessageEnvelope → List AgentMessageEnvelope → List AgentMessageEnvelope
unfolding set_status
set_statuses [] stored = stored
set_statuses (m ∷ rest) stored = set_statuses rest (set_status m.message_id m.status stored)

unfoldable pub sync_session : List AgentMessageEnvelope → Option TaskSession → Option TaskSession
unfolding set_statuses
sync_session output none = none
sync_session output (some session) =
    some (record session { messages = set_statuses output session.messages })

unfoldable pub receive : String → ℕ → AgentBus → AgentBus × List AgentMessageEnvelope
unfolding collect sync_session
receive recipient limit bus = elim (lookup recipient bus.inbox) [
  | none ↦ (bus, [])
  | some queue ↦
      let (s, output) =
        collect (take limit queue)
          (record bus.state { inbox = insert recipient (drop limit queue) bus.inbox }) in
      (record bus { state = record s { session = sync_session output s.session } }, output)
]

unfoldable pub sync_status : String → String → Option TaskSession → Option TaskSession
unfolding set_status
sync_status id status none = none
sync_status id status (some session) =
    some (record session { messages = set_status id status session.messages })

unfoldable pub acknowledge : String → String → AgentBus → AgentBus × Result (Unit {0})
unfolding sync_status
acknowledge message_id status bus =
    if not (one_of MessageStatus.final_statuses status)
    then (bus, err agent_invalid_message)
    else elim (lookup message_id bus.messages) [
      | none ↦ (bus, err bus_unknown_recipient)
      | some m ↦ (
        record bus {
          state = record bus.state {
            messages = insert message_id (record m { status = status }) bus.messages;
            session = sync_status message_id status bus.session;
          };
        },
        ok tt,
      )
    ]

concerning : String → List AgentMessageEnvelope → List AgentMessageEnvelope
concerning id [] = []
concerning id (m ∷ rest) =
    let others = concerning id rest in
    if m.sender == id || m.recipient == id then m ∷ others else others

unfoldable pub messages_for : ℕ → String → AgentBus → List AgentMessageEnvelope
unfolding concerning session_of
messages_for now_ms instance_id bus = concerning instance_id (session_of now_ms bus).messages

-- ===== src/Bus/Queues.antt =====
-- The queues of agent_bus.rs: what receiving takes out, and in which order.
use ling_xi_agent.Prelude.{
  ℕ, String, ◌≡◌, refl, ◌∙◌, ap, some, List, [], ◌∷◌, ◌++◌, ◌==◌, Dict, lookup, insert,
  lookup-insert, take, drop, arith, eq_iff, Option-cases, Bool-cases, inl, inr, if◌then◌else◌,
}
use ling_xi_agent.Protocol.Envelope.{AgentMessageEnvelope}
use ling_xi_agent.Bus.State.{AgentBus, BusState}
use ling_xi_agent.Bus.Messages.{mark_delivered, collect, receive, ids}

-- each id has a message in the table, which carries that id
abbrev pub AllStored : List String → Dict AgentMessageEnvelope → Type 0
AllStored [] messages = Unit
AllStored (id ∷ rest) messages =
    ((m : AgentMessageEnvelope) × (lookup id messages ≡ some m) × (m.message_id ≡ id))
    × AllStored rest messages

pub mark_delivered-id : (m : AgentMessageEnvelope) → (mark_delivered m).message_id ≡ m.message_id
mark_delivered-id m = ground arith

pub insert-AllStored :
    (id : String) (m : AgentMessageEnvelope) (rest : List String)
    (messages : Dict AgentMessageEnvelope)
    → m.message_id ≡ id
    → AllStored rest messages
    → AllStored rest (insert id m messages)
insert-AllStored id m [] messages e h = tt
insert-AllStored id m (j ∷ rest) messages e ((n, found, own), h) = (
  elim (Bool-cases (id == j)) [
    | inl same ↦ (m, ground (arith, lookup-insert id j m messages), ground (arith, eq_iff id j))
    | inr other ↦ (n, ground (arith, lookup-insert id j m messages), own)
  ],
  insert-AllStored id m rest messages e h,
)

-- the state after `collect` has taken one message out
abbrev pub after_marking : String → AgentMessageEnvelope → BusState → BusState
after_marking id m s = record s {
  messages = insert id (mark_delivered m) s.messages;
  delivered = s.delivered ++ id ∷ [];
}

pub collect-inbox : (queue : List String) (s : BusState) → (collect queue s).0.inbox ≡ s.inbox
unfolding collect
collect-inbox [] s = refl
collect-inbox (id ∷ rest) s = elim (Option-cases (lookup id s.messages)) [
  | inl e ↦ rw (collect, e) (collect-inbox rest s)
  | inr (m, e) ↦ rw (collect, e) (collect-inbox rest (after_marking id m s))
]

collect-ids :
    (queue : List String) (s : BusState)
    → AllStored queue s.messages
    → ids (collect queue s).1 ≡ queue
unfolding collect
collect-ids [] s h = refl
collect-ids (id ∷ rest) s ((m, found, own), h) =
    let marked = mark_delivered-id m ∙ own in
    let rest_stored = insert-AllStored id (mark_delivered m) rest s.messages marked h in
    rw (collect, found)
      (ap (λ x. x ∷ ids (collect rest (after_marking id m s)).1) marked
        ∙ ap (λ xs. id ∷ xs) (collect-ids rest (after_marking id m s) rest_stored))

pub receive-inbox :
    (recipient : String) (limit : ℕ) (queue : List String) (bus : AgentBus)
    → lookup recipient bus.inbox ≡ some queue
    → (other : String)
    → lookup other (receive recipient limit bus).0.inbox
      ≡ (if recipient == other then some (drop limit queue) else lookup other bus.inbox)
unfolding receive
receive-inbox recipient limit queue bus found other =
    let inbox = insert recipient (drop limit queue) bus.inbox in
    rw (receive, found)
      (ap (lookup other) (collect-inbox (take limit queue) (record bus.state { inbox = inbox }))
        ∙ lookup-insert recipient other (drop limit queue) bus.inbox)

-- Receiving hands out the messages whose ids stand first in the recipient's queue, in the order of
-- the queue, each as often as its id stands there and at most `limit` in all, where the messages of
-- the queue are still in the table; these ids leave the queue, and no other inbox changes.
pub receive_in_order :
    (recipient : String) (limit : ℕ) (queue : List String) (bus : AgentBus)
    → lookup recipient bus.inbox ≡ some queue
    → AllStored (take limit queue) bus.messages
    → (ids (receive recipient limit bus).1 ≡ take limit queue)
      × ((other : String)
          → lookup other (receive recipient limit bus).0.inbox
            ≡ (if recipient == other then some (drop limit queue) else lookup other bus.inbox))
unfolding receive
receive_in_order recipient limit queue bus found stored =
    let inbox = insert recipient (drop limit queue) bus.inbox in
    (
      rw (receive, found)
          (collect-ids (take limit queue) (record bus.state { inbox = inbox }) stored),
      receive-inbox recipient limit queue bus found,
    )

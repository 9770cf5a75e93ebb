-- ===== src/Bus/Bounds.antt =====
-- The bound on the queues of agent_bus.rs.
use ling_xi_agent.Prelude.{
  ℕ, ◌≤◌, String, List, [], ◌∷◌, ◌++◌, lookup, lookup-insert, length, length-append, length-drop,
  unwrap_or, arith, eq_iff, Option-cases, inl, inr,
}
use ling_xi_agent.Protocol.Envelope.{AgentMessageEnvelope}
use ling_xi_agent.Protocol.Session.{TaskSession}
use ling_xi_agent.Bus.State.{AgentBus}
use ling_xi_agent.Bus.Messages.{Inbox, enqueue, enqueue_all, deliver, store, receive, accept}
use ling_xi_agent.Bus.Queues.{receive-inbox}
use ling_xi_agent.Bus.Accept.{accept-cases}

-- no queue is longer than the limit
abbrev pub IsBounded : ℕ → Inbox → Type 0
IsBounded limit inbox =
    (recipient : String) → length (unwrap_or (lookup recipient inbox) []) ≤ limit

enqueue-IsBounded :
    (limit : ℕ) (id recipient : String) (inbox : Inbox)
    → IsBounded limit inbox
    → IsBounded limit (enqueue limit id recipient inbox).0
unfolding enqueue
enqueue-IsBounded limit id recipient inbox h r =
    let old = unwrap_or (lookup recipient inbox) [] in
    ground (
      arith,
      lookup-insert recipient r old inbox,
      lookup-insert recipient r (old ++ id ∷ []) inbox,
      length-append old (id ∷ []),
      eq_iff recipient r,
      h r,
      h recipient,
    )

enqueue_all-IsBounded :
    (limit : ℕ) (id : String) (recipients : List String) (inbox : Inbox)
    → IsBounded limit inbox
    → IsBounded limit (enqueue_all limit id recipients inbox).0
unfolding enqueue_all
enqueue_all-IsBounded limit id [] inbox h recipient = h recipient
enqueue_all-IsBounded limit id (r ∷ rs) inbox h recipient =
    let one = enqueue-IsBounded limit id r inbox h in
    let (queued, outcome) = enqueue limit id r inbox in
    ground (arith, one recipient, enqueue_all-IsBounded limit id rs queued one recipient)

pub receive-IsBounded :
    (limit : ℕ) (recipient : String) (n : ℕ) (bus : AgentBus)
    → IsBounded limit bus.inbox
    → IsBounded limit (receive recipient n bus).0.inbox
unfolding receive
receive-IsBounded limit recipient n bus h = elim (Option-cases (lookup recipient bus.inbox)) [
  | inl e ↦ rw (receive, e) h
  | inr (queue, e) ↦ λ other. ground (
    arith,
    receive-inbox recipient n queue bus e other,
    length-drop n queue,
    h recipient,
    h other,
  )
]

deliver-IsBounded :
    (now_ms : ℕ) (m : AgentMessageEnvelope) (session : TaskSession) (targets : List String)
    (bus : AgentBus)
    → IsBounded bus.queue_limit bus.inbox
    → IsBounded bus.queue_limit (deliver now_ms m session targets bus).0.inbox
unfolding deliver store
deliver-IsBounded now_ms m session targets bus h recipient =
    ground (arith, enqueue_all-IsBounded bus.queue_limit m.message_id targets bus.inbox h recipient)

pub accept-IsBounded :
    (now_ms : ℕ) (m : AgentMessageEnvelope) (bus : AgentBus)
    → IsBounded bus.queue_limit bus.inbox
    → IsBounded bus.queue_limit (accept now_ms m bus).0.inbox
accept-IsBounded now_ms m bus h = elim (accept-cases now_ms m bus) [
  | inl (outcome, _, e) ↦ rw e h
  | inr (session, targets, _, _, _, _, e) ↦ rw e (deliver-IsBounded now_ms m session targets bus h)
]

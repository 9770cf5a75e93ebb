-- ===== src/Bus/Accept.antt =====
-- The branches of `send` in agent_bus.rs.
use ling_xi_agent.Prelude.{
  ℕ, String, Bool, false, not, arith, ◌≡◌, refl, ◌⊎◌, none, some, List, contains_key, lookup,
  Option-cases, Bool-cases, inl, inr,
}
use ling_xi_agent.Errors.{Result, ok, err, bus_unknown_recipient, bus_duplicate, Result-cases}
use ling_xi_agent.Protocol.Envelope.{AgentMessageEnvelope}
use ling_xi_agent.Protocol.Session.{TaskSession}
use ling_xi_agent.Bus.State.{Delivery, AgentBus}
use ling_xi_agent.Bus.Messages.{deliver, accept, recipients, duplicate_of}

-- the message was stored
abbrev pub is_first : Result Delivery → Bool
is_first (err _) = false
is_first (ok delivery) = not delivery.duplicate

duplicate_of-is_first : (id : String) (bus : AgentBus) → is_first (duplicate_of id bus) ≡ false
unfolding duplicate_of
duplicate_of-is_first id bus = ground arith

-- `accept` either leaves the bus alone, or delivers a message with a new id and a new key.
abbrev pub Accepted : ℕ → AgentMessageEnvelope → AgentBus → Type 0
Accepted now_ms m bus =
    (session : TaskSession) × (targets : List String) × (bus.session ≡ some session)
    × (lookup m.idempotency_key bus.idempotency ≡ none)
    × (contains_key m.message_id bus.messages ≡ false)
    × (recipients session m ≡ ok targets)
    × (accept now_ms m bus ≡ deliver now_ms m session targets bus)

pub accept-cases :
    (now_ms : ℕ) (m : AgentMessageEnvelope) (bus : AgentBus)
    → ((outcome : Result Delivery) × (is_first outcome ≡ false)
        × (accept now_ms m bus ≡ (bus, outcome)))
      ⊎ Accepted now_ms m bus
unfolding accept
accept-cases now_ms m bus = elim (Option-cases bus.session) [
  | inl e ↦ inl (err bus_unknown_recipient, refl, simp (accept, e))
  | inr (session, e) ↦ elim (Option-cases (lookup m.idempotency_key bus.idempotency)) [
    | inr (id, f) ↦ inl (duplicate_of id bus, duplicate_of-is_first id bus, simp (accept, e, f))
    | inl f ↦ elim (Bool-cases (contains_key m.message_id bus.messages)) [
      | inl g ↦ inl (err bus_duplicate, refl, simp (accept, e, f, g))
      | inr g ↦ elim (Result-cases (recipients session m)) [
        | inl (targets, k) ↦ inr (session, targets, e, f, g, k, simp (accept, e, f, g, k))
        | inr (code, k) ↦ inl (err code, refl, simp (accept, e, f, g, k))
      ]
    ]
  ]
]

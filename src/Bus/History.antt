-- ===== src/Bus/History.antt =====
-- The message history of agent_bus.rs: the invariant that ties a session's messages to the table of
-- messages, that its operations keep it, and that a message is sent once for each key.
use ling_xi_agent.Prelude.{
  ℕ, ◌≤◌, String, false, ◌≡◌, refl, ◌∙◌, sym, ap, subst, Option, none, some, List, [], ◌∷◌, ◌++◌,
  Dict, contains_key, lookup, insert, lookup-insert, take, drop, length, length-map, length-drop,
  arith, eq_refl, Option-cases, Bool-cases, inl, inr,
}
use ling_xi_agent.Errors.{Result-cases}
use ling_xi_agent.Protocol.Envelope.{one_of, AgentMessageEnvelope, Serde, validate_message}
use ling_xi_agent.Protocol.MessageStatus
use ling_xi_agent.Protocol.Session.{TaskSession}
use ling_xi_agent.Bus.State.{AgentBus, BusState}
use ling_xi_agent.Bus.Messages.{
  ids, excess, remove_all, store, deliver, accept, send, enqueue_all, collect, receive, acknowledge,
  mark_delivered, set_status, set_statuses, sync_session, sync_status,
}
use ling_xi_agent.Bus.Queues.{after_marking, mark_delivered-id, AllStored, insert-AllStored}
use ling_xi_agent.Bus.Accept.{accept-cases}
use ling_xi_agent.Bus.Table.{
  Distinct, missing-Absent, Distinct-append, Distinct-drop, AllStored-append, replace-AllStored,
  evict-AllStored, ids-drop, ids-take, ids-append,
}

-- The history holds the ids of a list: each once, each in the table, and no more than the limit.
abbrev pub IsHistory : ℕ → List String → Dict AgentMessageEnvelope → Type 0
IsHistory limit l messages = Distinct l × AllStored l messages × (length l ≤ limit)

same-IsHistory :
    {l k : List String} (limit : ℕ) (messages : Dict AgentMessageEnvelope)
    → k ≡ l
    → IsHistory limit l messages
    → IsHistory limit k messages
same-IsHistory limit messages e h = subst (λ l. IsHistory limit l messages) (sym e) h

-- the ids of the session's messages
abbrev pub history : Option TaskSession → List String
history none = []
history (some session) = ids session.messages

abbrev pub IsConsistent : AgentBus → Type 0
IsConsistent bus = IsHistory bus.message_limit (history bus.session) bus.messages

append-IsHistory :
    (m : AgentMessageEnvelope) (l : List String) (messages : Dict AgentMessageEnvelope)
    → contains_key m.message_id messages ≡ false
    → Distinct l
    → AllStored l messages
    → Distinct (l ++ m.message_id ∷ [])
      × AllStored (l ++ m.message_id ∷ []) (insert m.message_id m messages)
append-IsHistory m l messages new d h =
    let id = m.message_id in
    (
      Distinct-append id l (missing-Absent id l messages new h) d,
      AllStored-append l (id ∷ []) (insert id m messages) (insert-AllStored id m l messages refl h)
          ((m, ground (arith, lookup-insert id id m messages, eq_refl id), refl), tt),
    )

pub length-ids : (l : List AgentMessageEnvelope) → length (ids l) ≡ length l
length-ids l = length-map (λ (m : AgentMessageEnvelope). m.message_id) l

excess_bound :
    (limit : ℕ) (l : List AgentMessageEnvelope) → length (ids (drop (excess limit l) l)) ≤ limit
excess_bound limit l =
    let n = excess limit l in ground (arith, length-ids (drop n l), length-drop n l)

store-IsHistory :
    (now_ms : ℕ) (m : AgentMessageEnvelope) (session : TaskSession) (inbox : Dict (List String))
    (bus : AgentBus)
    → contains_key m.message_id bus.messages ≡ false
    → IsHistory bus.message_limit (ids session.messages) bus.messages
    → IsConsistent (store now_ms m session inbox bus)
unfolding store
store-IsHistory now_ms m session inbox bus new (d, h, b) =
    let all = session.messages ++ m ∷ [] in
    let n = excess bus.message_limit all in
    let table = insert m.message_id m bus.messages in
    let (d', h') = append-IsHistory m (ids session.messages) bus.messages new d h in
    let together = ids-append session.messages m in
    let all_distinct : Distinct (ids all) = rw together d' in
    let all_stored : AllStored (ids all) table = rw together h' in
    let distinct : Distinct (ids (drop n all)) =
      rw (ids-drop n all) (Distinct-drop n (ids all) all_distinct) in
    let stored : AllStored (ids (drop n all)) (remove_all (ids (take n all)) table) =
      rw (ids-drop n all, ids-take n all)
        (evict-AllStored n (ids all) table all_distinct all_stored) in
    (distinct, stored, excess_bound bus.message_limit all)

deliver-IsConsistent :
    (now_ms : ℕ) (m : AgentMessageEnvelope) (session : TaskSession) (targets : List String)
    (bus : AgentBus)
    → bus.session ≡ some session
    → contains_key m.message_id bus.messages ≡ false
    → IsConsistent bus
    → IsConsistent (deliver now_ms m session targets bus).0
unfolding deliver
deliver-IsConsistent now_ms m session targets bus started new h =
    elim (Result-cases (enqueue_all bus.queue_limit m.message_id targets bus.inbox).1) [
      | inl (_, e) ↦
          rw (deliver, e)
            (store-IsHistory now_ms m session
              (enqueue_all bus.queue_limit m.message_id targets bus.inbox).0 bus new
              (rw started at h))
      | inr (_, e) ↦ rw (deliver, e) h
    ]

pub accept-IsConsistent :
    (now_ms : ℕ) (m : AgentMessageEnvelope) (bus : AgentBus)
    → IsConsistent bus
    → IsConsistent (accept now_ms m bus).0
accept-IsConsistent now_ms m bus h = elim (accept-cases now_ms m bus) [
  | inl (outcome, _, e) ↦ rw e h
  | inr (session, targets, started, _, new, _, e) ↦
      rw e (deliver-IsConsistent now_ms m session targets bus started new h)
]

collect-AllStored :
    (l queue : List String) (s : BusState)
    → AllStored l s.messages
    → AllStored l (collect queue s).0.messages
unfolding collect
collect-AllStored l [] s h = h
collect-AllStored l (id ∷ rest) s h = elim (Option-cases (lookup id s.messages)) [
  | inl e ↦ rw (collect, e) (collect-AllStored l rest s h)
  | inr (m, e) ↦
      rw (collect, e)
        (collect-AllStored l rest (after_marking id m s)
          (replace-AllStored id m (mark_delivered m) l s.messages e (mark_delivered-id m) h))
]

pub collect-session : (queue : List String) (s : BusState) → (collect queue s).0.session ≡ s.session
unfolding collect
collect-session [] s = refl
collect-session (id ∷ rest) s = elim (Option-cases (lookup id s.messages)) [
  | inl e ↦ rw (collect, e) (collect-session rest s)
  | inr (m, e) ↦ rw (collect, e) (collect-session rest (after_marking id m s))
]

set_status-ids :
    (id status : String) (l : List AgentMessageEnvelope) → ids (set_status id status l) ≡ ids l
unfolding set_status
set_status-ids id status [] = refl
set_status-ids id status (m ∷ rest) = ground (arith, set_status-ids id status rest)

set_statuses-ids : (output l : List AgentMessageEnvelope) → ids (set_statuses output l) ≡ ids l
unfolding set_statuses
set_statuses-ids [] l = refl
set_statuses-ids (m ∷ output) l =
    set_statuses-ids output (set_status m.message_id m.status l)
    ∙ set_status-ids m.message_id m.status l

sync_session-history :
    (output : List AgentMessageEnvelope) (session : Option TaskSession)
    → history (sync_session output session) ≡ history session
unfolding sync_session
sync_session-history output none = refl
sync_session-history output (some session) = set_statuses-ids output session.messages

sync_status-history :
    (id status : String) (session : Option TaskSession)
    → history (sync_status id status session) ≡ history session
unfolding sync_status
sync_status-history id status none = refl
sync_status-history id status (some session) = set_status-ids id status session.messages

pub receive-IsConsistent :
    (recipient : String) (limit : ℕ) (bus : AgentBus)
    → IsConsistent bus
    → IsConsistent (receive recipient limit bus).0
unfolding receive
receive-IsConsistent recipient limit bus (d, h, b) =
    elim (Option-cases (lookup recipient bus.inbox)) [
      | inl e ↦ rw (receive, e) (d, h, b)
      | inr (queue, e) ↦
          let s = record bus.state { inbox = insert recipient (drop limit queue) bus.inbox } in
          let taken = take limit queue in
          let (after, output) = collect taken s in
          let same : history (sync_session output after.session) ≡ history bus.session =
            sync_session-history output after.session ∙ ap history (collect-session taken s) in
          rw (receive, e)
            (same-IsHistory bus.message_limit after.messages same
              (d, collect-AllStored (history bus.session) taken s h, b))
    ]

pub acknowledge-IsConsistent :
    (id status : String) (bus : AgentBus)
    → IsConsistent bus
    → IsConsistent (acknowledge id status bus).0
unfolding acknowledge
acknowledge-IsConsistent id status bus h =
    elim (Bool-cases (one_of MessageStatus.final_statuses status)) [
      | inr e ↦ rw (acknowledge, e) h
      | inl e ↦ elim (Option-cases (lookup id bus.messages)) [
        | inl f ↦ rw (acknowledge, e, f) h
        | inr (m, f) ↦
            let next = record m { status = status } in
            rw (acknowledge, e, f)
              (same-IsHistory bus.message_limit (insert id next bus.messages)
                (sync_status-history id status bus.session)
                (
                  h.0,
                  replace-AllStored id m next (history bus.session) bus.messages f refl h.1,
                  h.2,
                ))
      ]
    ]

module _ (serde : Serde) where
  pub send-IsConsistent :
      (now_ms : ℕ) (m : AgentMessageEnvelope) (bus : AgentBus)
      → IsConsistent bus
      → IsConsistent (send serde now_ms m bus).0
  unfolding send
  send-IsConsistent now_ms m bus h = elim (Result-cases (validate_message serde m)) [
    | inl (_, e) ↦ rw (send, e) (accept-IsConsistent now_ms m bus h)
    | inr (_, e) ↦ rw (send, e) h
  ]

-- ===== src/Bus/Revisions.antt =====
-- Configuration revisions of agent_bus.rs: from `apply_config` to the runner that takes the new
-- configuration over.
use ling_xi_agent.Prelude.{
  ℕ, ◌+◌, String, true, false, ◌≡◌, refl, ap, ◌∙◌, Option, none, some, List, [], ◌∷◌, ◌++◌, map,
  nat_eq, lookup, lookup-insert, lookup-adjust, unwrap_or, Option-cases, inl, inr, arith, eq_refl,
}
use ling_xi_agent.Errors.{ok}
use ling_xi_agent.Protocol.Config.{AgentConfigSnapshot, AgentConfigRevision, validate_config, diff}
use ling_xi_agent.Protocol.Session.{AgentInstance}
use ling_xi_agent.Bus.State.{
  AgentBus, fresh_runtime, AgentRuntime, runtime, with_runtime, with_session, set_pending_config,
  take_pending_config,
}
use ling_xi_agent.Bus.Agents.{agent, with_agent}
use ling_xi_agent.Bus.Config.{
  apply_config, supersede, next_revision, add_revision, find_revision, take_over,
  mark_config_applied, take_pending, apply_pending_config, is_empty,
}

nat_eq_refl : (n : ℕ) → nat_eq n n ≡ true
nat_eq_refl n = ground arith

-- what an accepted configuration change does to the bus
abbrev changed : ℕ → String → AgentConfigRevision → AgentBus → AgentBus
changed now_ms id revision bus =
    with_runtime id (set_pending_config revision.after)
      (with_session (with_agent id (add_revision now_ms revision)) bus)

apply_config-accepted :
    (now_ms : ℕ) (id : String) (next : AgentConfigSnapshot) (a : AgentInstance) (bus : AgentBus)
    → validate_config next ≡ ok tt
    → agent id bus ≡ some a
    → is_empty (diff a.config (record next { revision = a.config.revision + 1 })) ≡ false
    → apply_config now_ms id next a.config.revision bus
      ≡ (changed now_ms id (next_revision a.config next) bus, ok (next_revision a.config next))
unfolding apply_config next_revision
apply_config-accepted now_ms id next a bus valid found differ =
    simp (apply_config, valid, found, nat_eq_refl a.config.revision, differ)

agent-changed :
    (now_ms : ℕ) (id : String) (revision : AgentConfigRevision) (a : AgentInstance) (bus : AgentBus)
    → agent id bus ≡ some a
    → agent id (changed now_ms id revision bus) ≡ some (add_revision now_ms revision a)
unfolding agent with_session with_agent with_runtime
agent-changed now_ms id revision a bus found = elim (Option-cases bus.session) [
  | inl e ↦ absurd (ground (arith, e, found))
  | inr (session, e) ↦ ground (
    arith,
    lookup-adjust id id (add_revision now_ms revision) session.agents,
    eq_refl id,
    e,
    found,
  )
]

runtime-changed :
    (now_ms : ℕ) (id : String) (revision : AgentConfigRevision) (bus : AgentBus)
    → (r : AgentRuntime) × (runtime id (changed now_ms id revision bus) ≡ some r)
      × (r.pending_config ≡ some revision.after)
unfolding runtime with_runtime set_pending_config with_session
runtime-changed now_ms id revision bus =
    let before = with_session (with_agent id (add_revision now_ms revision)) bus in
    let r =
      set_pending_config revision.after (unwrap_or (lookup id before.controls) fresh_runtime) in
    (r, ground (arith, lookup-insert id id r before.controls, eq_refl id), refl)

-- The runner takes over the first revision with the number of what is pending.
pending_taken :
    (now_ms : ℕ) (id : String) (own next : AgentConfigSnapshot) (change : AgentConfigRevision)
    (a : AgentInstance) (r : AgentRuntime) (bus : AgentBus)
    → agent id bus ≡ some a
    → runtime id bus ≡ some r
    → r.pending_config ≡ some next
    → find_revision next.revision a.config_revisions ≡ some change
    → let after = apply_pending_config now_ms id own bus in
      (after.1 ≡ ok change.after) × (agent id after.0 ≡ some (take_over now_ms change a))
unfolding apply_pending_config take_pending take_pending_config mark_config_applied with_session
    with_agent agent
pending_taken now_ms id own next change a r bus found running pending listed =
    elim (Option-cases bus.session) [
      | inl e ↦ absurd (ground (arith, e, found))
      | inr (session, e) ↦ ground (
        arith,
        lookup-adjust id id (take_over now_ms change) session.agents,
        eq_refl id,
        e,
        found,
        running,
        pending,
        listed,
      )
    ]

-- the revision that stands first, if there is one, or else the new one
abbrev first_or : Option AgentConfigRevision → AgentConfigRevision → AgentConfigRevision
first_or none revision = revision
first_or (some change) revision = supersede change

find_revision-append :
    (n : ℕ) (l : List AgentConfigRevision) (revision : AgentConfigRevision)
    → revision.revision ≡ n
    → find_revision n (map supersede l ++ revision ∷ [])
      ≡ some (first_or (find_revision n l) revision)
unfolding find_revision
find_revision-append n [] revision e = ground (arith, e)
find_revision-append n (change ∷ l) revision e = ground (arith, find_revision-append n l revision e)

-- A valid configuration that is applied at the agent's revision, and that changes something, becomes
-- the agent's: it gets the next revision, the runner takes it over at its next step, and the agent's
-- record holds it, where the agent has no earlier change with that number.
pub config_taken_over :
    (now_ms later_ms : ℕ) (id : String) (own next : AgentConfigSnapshot) (a : AgentInstance)
    (bus : AgentBus)
    → validate_config next ≡ ok tt
    → agent id bus ≡ some a
    → is_empty (diff a.config (record next { revision = a.config.revision + 1 })) ≡ false
    → find_revision (a.config.revision + 1) a.config_revisions ≡ none
    → let wanted = record next { revision = a.config.revision + 1 } in
      let asked = apply_config now_ms id next a.config.revision bus in
      let done = apply_pending_config later_ms id own asked.0 in
      (done.1 ≡ ok wanted)
      × ((after : AgentInstance) × (agent id done.0 ≡ some after) × (after.config ≡ wanted))
unfolding next_revision add_revision take_over
config_taken_over now_ms later_ms id own next a bus valid found differ fresh =
    let rev = next_revision a.config next in
    let listing = add_revision now_ms rev a in
    let (r, running, pending) = runtime-changed now_ms id rev bus in
    let listed =
      find_revision-append (a.config.revision + 1) a.config_revisions rev refl
      ∙ ap (λ o. some (first_or o rev)) fresh in
    let taken =
      pending_taken later_ms id own rev.after rev listing r (changed now_ms id rev bus)
        (agent-changed now_ms id rev a bus found) running pending listed in
    rw (apply_config-accepted now_ms id next a bus valid found differ)
      (taken.0, (take_over later_ms rev listing, taken.1, refl))

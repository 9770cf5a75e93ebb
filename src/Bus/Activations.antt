-- ===== src/Bus/Activations.antt =====
-- Activations in agent_bus.rs: an activation that is started and finished leaves one closed record.
use ling_xi_agent.Prelude.{
  ℕ, ◌+◌, String, false, ◌≡◌, refl, inl, inr, none, some, List, [], ◌∷◌, ◌++◌, ◌==◌, length,
  lookup-adjust, arith, eq_refl, eq_iff, Option-cases,
}
use ling_xi_agent.Errors.{ok}
use ling_xi_agent.Protocol.Config.{AgentConfigSnapshot}
use ling_xi_agent.Protocol.Session.{ActivationRecord, AgentInstance, activation_id}
use ling_xi_agent.Protocol.States
use ling_xi_agent.Bus.State.{AgentBus}
use ling_xi_agent.Bus.Agents.{
  agent, on_agent, with_agent, update_session_state, with_activation, begin, start_activation,
  Finish, close, finished, finish_activation,
}

-- no record has the id
abbrev pub Unused : String → List ActivationRecord → Type 0
Unused id [] = Unit
Unused id (r ∷ rest) = ((r.activation_id == id) ≡ false) × Unused id rest

with_activation-append :
    (id : String) (change : ActivationRecord → ActivationRecord) (l : List ActivationRecord)
    (r : ActivationRecord)
    → Unused id l
    → r.activation_id ≡ id
    → with_activation id change (l ++ r ∷ []) ≡ l ++ change r ∷ []
unfolding with_activation
with_activation-append id change [] r h e = ground (arith, eq_iff r.activation_id id, e)
with_activation-append id change (k ∷ l) r h e =
    ground (arith, h.0, with_activation-append id change l r h.1 e)

agent-on_agent :
    (now_ms : ℕ) (id : String) (change : AgentInstance → AgentInstance) (a : AgentInstance)
    (bus : AgentBus)
    → agent id bus ≡ some a
    → agent id (on_agent now_ms id change bus).0 ≡ some (change a)
unfolding on_agent agent with_agent update_session_state
agent-on_agent now_ms id change a bus found = elim (Option-cases bus.session) [
  | inl e ↦ absurd (ground (arith, e, found))
  | inr (session, e) ↦
      ground (arith, lookup-adjust id id change session.agents, eq_refl id, e, found)
]

agent-start :
    (now_ms : ℕ) (id : String) (config : AgentConfigSnapshot) (a : AgentInstance) (bus : AgentBus)
    → agent id bus ≡ some a
    → (agent id (start_activation now_ms id config bus).0 ≡ some (begin now_ms id config a))
      × ((start_activation now_ms id config bus).1
          ≡ ok (activation_id id (length a.activations + 1)))
unfolding start_activation
agent-start now_ms id config a bus found = (
  rw (start_activation, found) (agent-on_agent now_ms id (begin now_ms id config) a bus found),
  rw (start_activation, found) refl,
)

agent-finish :
    (now_ms : ℕ) (id : String) (f : Finish) (a : AgentInstance) (bus : AgentBus)
    → agent id bus ≡ some a
    → agent id (finish_activation now_ms id f bus).0 ≡ some (finished now_ms f a)
unfolding finish_activation agent
agent-finish now_ms id f a bus found =
    rw (finish_activation, found) (agent-on_agent now_ms id (finished now_ms f) a bus found)

-- An activation that is started, under an id that no record of the agent has, and finished under the
-- id that starting returned, adds one record behind the earlier ones, which stay: with that id, both
-- times, the revision of the configuration and the final state, which is also the agent's.
pub activation_recorded :
    (t1 t2 : ℕ) (id : String) (config : AgentConfigSnapshot) (f : Finish) (a : AgentInstance)
    (bus : AgentBus)
    → agent id bus ≡ some a
    → Unused f.activation a.activations
    → (start_activation t1 id config bus).1 ≡ ok f.activation
    → let done = (finish_activation t2 id f (start_activation t1 id config bus).0).0 in
      (after : AgentInstance) × (r : ActivationRecord) × (agent id done ≡ some after)
      × (after.state ≡ f.state_value)
      × (after.activations ≡ a.activations ++ r ∷ [])
      × (r.activation_id ≡ f.activation)
      × (r.started_at_ms ≡ t1)
      × (r.finished_at_ms ≡ some t2)
      × (r.config_revision ≡ config.revision)
      × (r.state ≡ f.state_value)
unfolding finished begin close
activation_recorded t1 t2 id config f a bus found unused started =
    let (begun, named) = agent-start t1 id config a bus found in
    let same : activation_id id (length a.activations + 1) ≡ f.activation =
      ground (arith, named, started) in
    let fresh : ActivationRecord = record {
      activation_id = activation_id id (length a.activations + 1);
      index = length a.activations + 1;
      state = States.running;
      started_at_ms = t1;
      finished_at_ms = none;
      config_revision = config.revision;
      iterations = 0;
      user_response = none;
      agent_message_id = none;
      error = none;
    } in
    (
      finished t2 f (begin t1 id config a),
      close t2 f fresh,
      agent-finish t2 id f (begin t1 id config a) (start_activation t1 id config bus).0 begun,
      refl,
      with_activation-append f.activation (close t2 f) a.activations fresh unused same,
      same,
      refl,
      refl,
      refl,
      refl,
    )

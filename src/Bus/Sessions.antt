-- ===== src/Bus/Sessions.antt =====
-- How the state of a task session follows from the states of its agents.
use ling_xi_agent.Prelude.{
  ℕ, String, Bool, true, false, ◌≡◌, refl, ◌⊎◌, some, List, [], ◌∷◌, Dict, lookup, adjust, values,
  map, arith, eq_iff, inl, inr, ◌==◌, if◌then◌else◌,
}
use ling_xi_agent.Protocol.Session.{AgentInstance, TaskSession}
use ling_xi_agent.Protocol.States
use ling_xi_agent.Bus.State.{AgentBus, with_runtime}
use ling_xi_agent.Bus.Agents.{
  priority, contains_text, first_of_states, update_session_state, on_agent, with_agent, enter_state,
  set_instance_state, pause_agent,
}

-- none of the states is one of the listed
abbrev NoneIn : List String → List String → Type 0
NoneIn listed [] = Unit
NoneIn listed (s ∷ states) = (contains_text listed s ≡ false) × NoneIn listed states

NoneIn-cons :
    (c : String) (listed states : List String)
    → NoneIn (c ∷ listed) states
    → (contains_text states c ≡ false) × NoneIn listed states
NoneIn-cons c listed [] h = (refl, tt)
NoneIn-cons c listed (s ∷ states) h =
    let rest = NoneIn-cons c listed states h.1 in
    (ground (arith, eq_iff c s, eq_iff s c), (ground arith, rest.1))

first_of_states-completed :
    (listed states : List String)
    → NoneIn listed states
    → first_of_states listed states ≡ States.completed
unfolding first_of_states
first_of_states-completed [] states h = refl
first_of_states-completed (c ∷ listed) states h =
    let (away, rest) = NoneIn-cons c listed states h in
    rw away (first_of_states-completed listed states rest)

-- each agent is pausing or has completed
abbrev AllIdle : Dict AgentInstance → Type 0
AllIdle [] = Unit
AllIdle ((j, a) ∷ rest) = ((a.state ≡ States.pausing) ⊎ (a.state ≡ States.completed)) × AllIdle rest

-- each agent but that of the given id is pausing or has completed
abbrev OthersIdle : String → Dict AgentInstance → Type 0
OthersIdle id [] = Unit
OthersIdle id ((j, a) ∷ rest) =
    if j == id
    then AllIdle rest
    else ((a.state ≡ States.pausing) ⊎ (a.state ≡ States.completed)) × OthersIdle id rest

completed_is_last : contains_text priority States.completed ≡ false
completed_is_last = refl

pausing_is_missing : contains_text priority States.pausing ≡ false
pausing_is_missing = refl

idle_is_missing :
    (s : String) → (s ≡ States.pausing) ⊎ (s ≡ States.completed) → contains_text priority s ≡ false
idle_is_missing s (inl e) = rw e pausing_is_missing
idle_is_missing s (inr e) = rw e completed_is_last

AllIdle-NoneIn :
    (agents : Dict AgentInstance)
    → AllIdle agents
    → NoneIn priority (map (λ (a : AgentInstance). a.state) (values agents))
AllIdle-NoneIn [] h = tt
AllIdle-NoneIn ((j, a) ∷ rest) h = (idle_is_missing a.state h.0, AllIdle-NoneIn rest h.1)

abbrev states : Dict AgentInstance → List String
states agents = map (λ (a : AgentInstance). a.state) (values agents)

pausing-NoneIn :
    (now_ms : ℕ) (id : String) (agents : Dict AgentInstance)
    → OthersIdle id agents
    → NoneIn priority (states (adjust id (enter_state now_ms States.pausing) agents))
unfolding adjust enter_state
pausing-NoneIn now_ms id [] h = tt
pausing-NoneIn now_ms id ((j, a) ∷ rest) h = go (pausing-NoneIn now_ms id rest) (j == id) refl
  where
    go :
        (OthersIdle id rest
          → NoneIn priority (states (adjust id (enter_state now_ms States.pausing) rest)))
        → (b : Bool) → (j == id) ≡ b
        → NoneIn priority (
            states (
              if b
              then (j, enter_state now_ms States.pausing a) ∷ rest
              else (j, a) ∷ adjust id (enter_state now_ms States.pausing) rest))
    go later true e = (pausing_is_missing, AllIdle-NoneIn rest (rw e at h))
    go later false e = let other = rw e at h in (idle_is_missing a.state other.0, later other.1)

-- Pausing an agent while every other agent of the session is pausing or has completed shows the
-- session as completed, although the paused agent has not finished: `pausing` is in no place of the
-- list of priorities.
pub pausing_completes_session :
    (now_ms : ℕ) (id : String) (a : AgentInstance) (session : TaskSession) (bus : AgentBus)
    → bus.session ≡ some session
    → lookup id session.agents ≡ some a
    → OthersIdle id session.agents
    → (after : TaskSession) × ((pause_agent now_ms id bus).0.session ≡ some after)
      × (after.state ≡ States.completed)
unfolding pause_agent with_runtime set_instance_state on_agent update_session_state
pausing_completes_session now_ms id a session bus hs ha idle = (
  update_session_state now_ms (with_agent id (enter_state now_ms States.pausing) session),
  rw (hs, on_agent, ha) refl,
  first_of_states-completed priority _ (pausing-NoneIn now_ms id session.agents idle),
)

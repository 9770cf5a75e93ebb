-- ===== src/Bus/Config.antt =====
-- crates/lingxi-runtime/src/agent_bus.rs: configuration revisions of an agent, interventions, reviews
-- and artifacts. agent_runner.rs: `apply_pending_config`, by which the runner takes a new
-- configuration over.
use Prim.Native.String.{◌++◌ as ◌+++◌}
use ling_xi_agent.Prelude.{
  ℕ, ◌+◌, String, Bool, true, false, not, Option, none, some, List, [], ◌∷◌, ◌++◌, insert, any, map,
  nat_eq, ◌==◌, is_blank, if◌then◌else◌,
}
use ling_xi_agent.Errors.{
  Result, ok, err, agent_invalid_config, agent_invalid_message, bus_unknown_recipient,
}
use ling_xi_agent.Protocol.Config.{AgentConfigSnapshot, AgentConfigRevision, validate_config, diff}
use ling_xi_agent.Protocol.ConfigStatus
use ling_xi_agent.Protocol.Envelope.{AgentMessageEnvelope, ArtifactRef, Serde, new_message}
use ling_xi_agent.Protocol.Json.{Value, string, object, object_of}
use ling_xi_agent.Protocol.MessageKinds
use ling_xi_agent.Protocol.Session.{AgentInstance, PendingReview, TaskSession}
use ling_xi_agent.Bus.State.{
  AgentBus, queue_directive, set_pending_config, take_pending_config, with_runtime, with_session,
  runtime,
}
use ling_xi_agent.Bus.Agents.{with_agent, agent}
use ling_xi_agent.Bus.Messages.{send}

abbrev pub supersede : AgentConfigRevision → AgentConfigRevision
supersede change =
    if change.status == ConfigStatus.pending
    then record change { status = ConfigStatus.superseded }
    else change

abbrev pub is_empty : List String → Bool
is_empty [] = true
is_empty (_ ∷ _) = false

-- The revision that `apply_config` makes of a wanted configuration. Its number is a `u64` there, which
-- the sum is taken to fit.
unfoldable pub next_revision : AgentConfigSnapshot → AgentConfigSnapshot → AgentConfigRevision
next_revision before next =
    let after = record next { revision = before.revision + 1 } in
    record {
      revision = after.revision;
      status = ConfigStatus.pending;
      applied_at_ms = none;
      before = before;
      after = after;
      changes = diff before after;
      detail = none;
    }

unfoldable pub add_revision : ℕ → AgentConfigRevision → AgentInstance → AgentInstance
add_revision now_ms revision a = record a {
  config_revisions = map supersede a.config_revisions ++ revision ∷ [];
  updated_at_ms = now_ms;
}

unfoldable pub apply_config :
    ℕ → String → AgentConfigSnapshot → ℕ → AgentBus → AgentBus × Result AgentConfigRevision
unfolding next_revision add_revision with_agent with_session with_runtime set_pending_config agent
apply_config now_ms instance_id next expected_revision bus = elim (validate_config next) [
  | err e ↦ (bus, err e)
  | ok _ ↦ elim (agent instance_id bus) [
    | none ↦ (bus, err bus_unknown_recipient)
    | some a ↦
        let revision = next_revision a.config next in
        if not (nat_eq a.config.revision expected_revision)
        then (bus, err agent_invalid_config)
        else if is_empty revision.changes
        then (bus, err agent_invalid_config)
        else (
          with_runtime instance_id (set_pending_config revision.after)
              (with_session (with_agent instance_id (add_revision now_ms revision)) bus),
          ok revision,
        )
  ]
]

unfoldable pub find_revision : ℕ → List AgentConfigRevision → Option AgentConfigRevision
find_revision revision [] = none
find_revision revision (change ∷ rest) =
    if nat_eq change.revision revision then some change else find_revision revision rest

-- a change of the first revision with that number
unfoldable pub with_revision :
    ℕ
    → (AgentConfigRevision → AgentConfigRevision)
    → List AgentConfigRevision
    → List AgentConfigRevision
with_revision revision f [] = []
with_revision revision f (change ∷ rest) =
    if nat_eq change.revision revision
    then f change ∷ rest
    else change ∷ with_revision revision f rest

abbrev pub mark_applied : ℕ → AgentConfigRevision → AgentConfigRevision
mark_applied now_ms change = record change {
  status = ConfigStatus.applied;
  applied_at_ms = some now_ms;
}

unfoldable pub take_over : ℕ → AgentConfigRevision → AgentInstance → AgentInstance
unfolding with_revision
take_over now_ms change a = record a {
  config_revisions = with_revision change.revision (mark_applied now_ms) a.config_revisions;
  config = change.after;
  updated_at_ms = now_ms;
}

unfoldable pub mark_config_applied :
    ℕ → String → ℕ → AgentBus → AgentBus × Result AgentConfigSnapshot
unfolding find_revision take_over with_agent with_session agent
mark_config_applied now_ms instance_id revision bus = elim (agent instance_id bus) [
  | none ↦ (bus, err bus_unknown_recipient)
  | some a ↦ elim (find_revision revision a.config_revisions) [
    | none ↦ (bus, err agent_invalid_config)
    | some change ↦
        (with_session (with_agent instance_id (take_over now_ms change)) bus, ok change.after)
  ]
]

unfoldable pub reject_config : String → ℕ → String → AgentBus → AgentBus
unfolding with_session with_agent with_revision
reject_config instance_id revision detail bus =
    with_session
      (with_agent instance_id (λ (a : AgentInstance). record a {
        config_revisions =
            with_revision revision
              (λ (c : AgentConfigRevision). record c {
                status = ConfigStatus.rejected;
                detail = some detail;
              })
              a.config_revisions;
      }))
      bus

-- `runtime(id).and_then(|runtime| runtime.take_pending_config())`
unfoldable pub take_pending : String → AgentBus → AgentBus × Option AgentConfigSnapshot
unfolding runtime take_pending_config
take_pending instance_id bus = elim (runtime instance_id bus) [
  | none ↦ (bus, none)
  | some r ↦
      let (r', config) = take_pending_config r in
      (record bus { controls = insert instance_id r' bus.controls }, config)
]

-- the runner's own copy of the configuration, taken over from what is pending
unfoldable pub apply_pending_config :
    ℕ → String → AgentConfigSnapshot → AgentBus → AgentBus × Result AgentConfigSnapshot
unfolding take_pending mark_config_applied
apply_pending_config now_ms instance_id config bus =
    let (taken, pending) = take_pending instance_id bus in
    elim pending [
      | none ↦ (taken, ok config)
      | some next ↦ mark_config_applied now_ms instance_id next.revision taken
    ]

module _ (serde : Serde) where
  -- `message_id` is the fresh id of the message.
  unfoldable pub intervention :
      ℕ → String → String → String → AgentBus → AgentBus × Result AgentMessageEnvelope
  unfolding new_message send with_runtime queue_directive
  intervention now_ms message_id instance_id text bus =
      let message =
        record (new_message now_ms message_id ("task-" +++ instance_id) "user" instance_id
          MessageKinds.feedback
          (object (object_of (("feedback", string text) ∷ ("verdict", string "revise") ∷ [])))) {
            correlation_id = some instance_id;
          } in
      let (sent, outcome) = send serde now_ms message bus in
      if is_blank text then (bus, err agent_invalid_message) else elim outcome [
        | err e ↦ (sent, err e)
        | ok delivery ↦ (with_runtime instance_id (queue_directive text) sent, ok delivery.message)
      ]

-- `review_id` is fresh.
unfoldable pub add_review :
    ℕ
    → String
    → String
    → String
    → String
    → String
    → String
    → Value
    → AgentBus
    → AgentBus × PendingReview
unfolding with_session
add_review now_ms review_id instance_id activation tool_name tool_call_id reason arguments bus =
    let review : PendingReview = record {
      review_id = review_id;
      agent_instance_id = instance_id;
      activation_id = activation;
      tool_name = tool_name;
      tool_call_id = tool_call_id;
      reason = reason;
      arguments = arguments;
      created_at_ms = now_ms;
      resolved = false;
    } in
    (
      with_session
          (λ (s : TaskSession). record s {
            pending_reviews = s.pending_reviews ++ review ∷ [];
            updated_at_ms = now_ms;
          })
          bus,
      review,
    )

unfoldable pub merge_artifacts : List ArtifactRef → List ArtifactRef → List ArtifactRef
merge_artifacts [] known = known
merge_artifacts (a ∷ rest) known =
    merge_artifacts rest
      (if any (λ (k : ArtifactRef). k.id == a.id) known then known else known ++ a ∷ [])

unfoldable pub add_artifacts : List ArtifactRef → AgentBus → AgentBus
unfolding with_session merge_artifacts
add_artifacts artifacts bus =
    with_session
      (λ (s : TaskSession). record s { artifacts = merge_artifacts artifacts s.artifacts }) bus

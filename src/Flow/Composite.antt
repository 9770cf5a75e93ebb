-- ===== src/Flow/Composite.antt =====
-- crates/lingxi-runtime/src/control_flow.rs: `run_composite`, which runs a subgraph with a scheduler of
-- its own. That run is a parameter here, which `Run` gives.
use ling_xi_agent.Prelude.{
  ℕ, String, Bool, true, false, not, ◌||◌, ◌&&◌, Option, none, some, List, [], ◌∷◌, ◌++◌, insert,
  lookup, map, contains_key, ◌==◌, if◌then◌else◌,
}
use ling_xi_agent.Protocol.Json.{Value}
use ling_xi_agent.Workflow.Model.{
  WorkflowNode, PortBinding, SubgraphInput, SubgraphOutput, Subgraph,
}
use ling_xi_agent.Flow.State.{
  Setting, Scheduler, Event, Seeds, Values, NodeError, node_started, at, spec_of, deadline, emit,
}
use ling_xi_agent.Flow.Gate.{loop_timeout}
use ling_xi_agent.Flow.Nodes.{
  Next, goes_on, ends, starves, missing_input, count_activation, finish_node, fail_here,
  cancel_node,
}

abbrev pub unknown_reference : NodeError
unknown_reference = "subgraph.unknown_reference"

abbrev pub lacks_subgraph_input : Values → List SubgraphInput → Bool
lacks_subgraph_input inputs [] = false
lacks_subgraph_input inputs (input ∷ rest) =
    (input.port.required && not (contains_key input.port.name inputs))
    || lacks_subgraph_input inputs rest

-- `seeds.insert(key, value)`
unfoldable pub put_seed : String × String → Value → Seeds → Seeds
put_seed (node_id, port) value [] = ((node_id, port), value) ∷ []
put_seed (node_id, port) value (((target, name), old) ∷ rest) =
    let others = put_seed (node_id, port) value rest in
    if target == node_id && name == port
    then ((node_id, port), value) ∷ rest
    else ((target, name), old) ∷ others

unfoldable pub seed_targets : Value → List PortBinding → Seeds → Seeds
unfolding put_seed
seed_targets value [] seeds = seeds
seed_targets value (target ∷ rest) seeds =
    seed_targets value rest (put_seed (target.node_id, target.port) value seeds)

unfoldable pub seeds_for : Values → List SubgraphInput → Seeds → Seeds
unfolding seed_targets
seeds_for inputs [] seeds = seeds
seeds_for inputs (input ∷ rest) seeds =
    seeds_for inputs rest (elim (lookup input.port.name inputs) [
      | none ↦ seeds
      | some value ↦ seed_targets value input.targets seeds
    ])

-- what the subgraph's outputs take from the nodes inside
unfoldable pub subgraph_outputs : Scheduler → List SubgraphOutput → Values → Values
subgraph_outputs inner [] outputs = outputs
subgraph_outputs inner (output ∷ rest) outputs =
    subgraph_outputs inner rest (elim (lookup output.source.node_id inner.latest_outputs) [
      | none ↦ outputs
      | some produced ↦ elim (lookup output.source.port produced) [
        | none ↦ outputs
        | some value ↦ insert output.port.name value outputs
      ]
    ])

abbrev pub inner_setting : Setting → Scheduler → Subgraph → Setting
inner_setting f s subgraph = record f { graph = subgraph.workflow; parent_deadline = deadline f s }

abbrev pub scoped : String → Event → Event
scoped node_id event = record event { scope = node_id ∷ event.scope }

abbrev pub has_failed : Scheduler → Bool
has_failed s = s.timed_out || elim s.failed [ [] ↦ false | _ ∷ _ ↦ true ]

abbrev pub failure_of : Scheduler → NodeError
failure_of s = elim s.first_failure [ none ↦ loop_timeout | some error ↦ error ]

module _ (f : Setting) (index : ℕ) (node : WorkflowNode) where
  -- After the run of the subgraph. `is_cancelled` is the reading of the run's control then.
  unfoldable pub settle_composite : Subgraph → Bool → ℕ → Scheduler → Scheduler → Scheduler × Next
  unfolding finish_node fail_here cancel_node subgraph_outputs
  settle_composite subgraph is_cancelled activation inner s =
      elim (inner.cancelled || is_cancelled) [
        | true ↦ (cancel_node f index node activation s, ends)
        | false ↦ elim (has_failed inner) [
          | true ↦ (fail_here f index node activation (failure_of inner) s, goes_on)
          | false ↦ (
            finish_node f index node activation (subgraph_outputs inner subgraph.outputs []) s,
            goes_on,
          )
        ]
      ]

  unfoldable pub with_inner_events : Scheduler → Scheduler → Scheduler
  with_inner_events inner s = record s { events = s.events ++ map (scoped node.id) inner.events }

  -- The Boolean beside the scheduler of the subgraph says whether its run has ended.
  unfoldable pub run_subgraph :
      (Setting → Seeds → Scheduler × Bool)
      → Subgraph
      → Bool
      → Values
      → ℕ
      → Scheduler
      → Scheduler × Next
  unfolding seeds_for settle_composite with_inner_events
  run_subgraph run subgraph is_cancelled inputs activation s =
      let (inner, ended) = run (inner_setting f s subgraph) (seeds_for inputs subgraph.inputs []) in
      let told = with_inner_events inner s in
      elim ended [
        | false ↦ (told, starves)
        | true ↦ settle_composite subgraph is_cancelled activation inner told
      ]

  abbrev pub subgraph_of : Option Subgraph
  subgraph_of = elim (spec_of f node) [
    | none ↦ none
    | some _ ↦ elim node.subgraph_id [ none ↦ none | some id ↦ lookup id f.subgraphs ]
  ]

  unfoldable pub run_composite :
      (Setting → Seeds → Scheduler × Bool) → Bool → Values → Scheduler → Scheduler × Next
  unfolding count_activation emit run_subgraph
  run_composite run is_cancelled inputs before =
      let s = count_activation f index before in
      let activation = at s.activations index in
      let started = emit activation node s.current_iteration node_started s in
      elim subgraph_of [
        | none ↦ (fail_here f index node activation unknown_reference s, goes_on)
        | some subgraph ↦ elim (lacks_subgraph_input inputs subgraph.inputs) [
          | true ↦ (fail_here f index node activation missing_input started, goes_on)
          | false ↦ run_subgraph run subgraph is_cancelled inputs activation started
        ]
      ]

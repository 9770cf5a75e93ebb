-- ===== src/Flow/Edges.antt =====
-- crates/lingxi-runtime/src/control_flow.rs: values on edges, branches that are not taken, and nodes
-- that are skipped or fail.
use ling_xi_agent.Prelude.{
  ℕ, zero, suc, String, Bool, true, false, not, ◌&&◌, Option, none, some, List, [], ◌∷◌, lookup,
  insert, remove, get_elem?, length, any, nat_eq, ◌==◌, if◌then◌else◌,
}
use ling_xi_agent.Protocol.Json.{Value}
use ling_xi_agent.Workflow.Ports.{NodeSpec, ControlKind, loop_gate}
use ling_xi_agent.Workflow.Model.{Edge, WorkflowNode, data_edge, control_edge, position}
use ling_xi_agent.Flow.State.{
  blocked, Setting, Scheduler, Seeds, Values, NodeError, node_skipped, node_failed, mem, has, put,
  push_new, drop_text, at, spec_of, role, incoming, outgoing, emit,
}
use ling_xi_agent.Flow.Ready.{evaluate}

unfoldable pub seed_of : String → String → Seeds → Option Value
seed_of node_id port [] = none
seed_of node_id port (((target, name), value) ∷ rest) =
    if target == node_id && name == port then some value else seed_of node_id port rest

abbrev pub or_else : Option Value → Option Value → Option Value
or_else none other = other
or_else (some value) other = some value

abbrev pub with_input : String → Option Value → Values → Values
with_input port none inputs = inputs
with_input port (some value) inputs = insert port value inputs

-- One round of the loop over the incoming edges: the value is read, a control token is used up, and a
-- data value is no longer fresh.
unfoldable pub consume_edge : Edge → Scheduler × Values → Scheduler × Values
unfolding drop_text seed_of
consume_edge edge (s, inputs) =
    let value = or_else (lookup edge.id s.tokens) (seed_of edge.target edge.target_port s.seeds) in
    (
      elim edge.kind [
        | control_edge ↦ record s { tokens = remove edge.id s.tokens }
        | data_edge ↦ record s { fresh_data = drop_text edge.id s.fresh_data }
      ],
      with_input edge.target_port value inputs,
    )

unfoldable pub consume_edges : List Edge → Scheduler × Values → Scheduler × Values
unfolding consume_edge
consume_edges [] found = found
consume_edges (edge ∷ rest) found = consume_edges rest (consume_edge edge found)

-- The node's seeds are read as well; those of control ports are used up.
unfoldable pub consume_seeds : String → (String → Bool) → Seeds → Values → Seeds × Values
consume_seeds node_id is_control [] inputs = ([], inputs)
consume_seeds node_id is_control (((target, port), value) ∷ rest) inputs =
    let mine = target == node_id in
    let (kept, found) =
      consume_seeds node_id is_control rest (if mine then insert port value inputs else inputs) in
    if mine && is_control port then (kept, found) else (((target, port), value) ∷ kept, found)

-- one of the names in `control_ports`
abbrev pub is_control_name : Option NodeSpec → String → Bool
is_control_name none port = false
is_control_name (some spec) port = any (λ p. p.control && p.name == port) spec.inputs

unfoldable pub consume_inputs : Setting → ℕ → WorkflowNode → Scheduler → Scheduler × Values
unfolding consume_edges consume_seeds
consume_inputs f index node s =
    let (read, inputs) = consume_edges (incoming f index) (s, []) in
    let (seeds, all) = consume_seeds node.id (is_control_name (spec_of f node)) read.seeds inputs in
    (record read { seeds = seeds }, all)

-- A node that may be skipped because one of its edges has become inactive.
abbrev pub is_dead : Setting → ℕ → Scheduler → Bool
is_dead f target s =
    not (mem target s.settled)
    && (nat_eq (at s.activations target) 0
        && elim (evaluate f s target) [ blocked ↦ true | _ ↦ false ])

-- `skip` is `skip_node`, which an edge that becomes inactive may call for its target.
unfoldable pub deactivate_edge_with :
    (ℕ → Scheduler → Scheduler) → Setting → Edge → Scheduler → Scheduler
deactivate_edge_with skip f edge s =
    let marked = record s { inactive = put edge.id s.inactive } in
    elim (has edge.id s.inactive) [
      | true ↦ s
      | false ↦ elim (position edge.target f.graph.nodes) [
        | none ↦ marked
        | some target ↦ elim (is_dead f target marked) [
          | true ↦ skip target marked
          | false ↦ marked
        ]
      ]
    ]

unfoldable pub deactivate_edges_with :
    (ℕ → Scheduler → Scheduler) → Setting → List Edge → Scheduler → Scheduler
unfolding deactivate_edge_with
deactivate_edges_with skip f [] s = s
deactivate_edges_with skip f (edge ∷ rest) s =
    deactivate_edges_with skip f rest (deactivate_edge_with skip f edge s)

-- the node is settled, and reported as skipped
unfoldable pub mark_skipped : ℕ → WorkflowNode → Scheduler → Scheduler
unfolding emit
mark_skipped index node s =
    let told = emit (at s.activations index) node s.current_iteration node_skipped s in
    record told { settled = index ∷ told.settled; skipped = push_new node.id told.skipped }

-- `skip_node` with a bound on the nodes that it skips one after another. Each of them is settled, so
-- that the number of nodes is enough.
unfoldable pub skip_node_within : ℕ → Setting → ℕ → Scheduler → Scheduler
unfolding deactivate_edges_with mark_skipped
skip_node_within zero f index s = s
skip_node_within (suc fuel) f index s = elim (mem index s.settled) [
  | true ↦ s
  | false ↦ elim (get_elem? f.graph.nodes index) [
    | none ↦ s
    | some node ↦
        deactivate_edges_with (skip_node_within fuel f) f (outgoing f index)
          (mark_skipped index node s)
  ]
]

unfoldable pub skip_node : Setting → ℕ → Scheduler → Scheduler
unfolding skip_node_within
skip_node f = skip_node_within (length f.graph.nodes) f

unfoldable pub deactivate_edge : Setting → Edge → Scheduler → Scheduler
unfolding deactivate_edge_with skip_node
deactivate_edge f = deactivate_edge_with (skip_node f) f

unfoldable pub deactivate_outgoing : Setting → ℕ → Scheduler → Scheduler
unfolding deactivate_edges_with skip_node
deactivate_outgoing f index = deactivate_edges_with (skip_node f) f (outgoing f index)

-- a value on an edge
unfoldable pub deliver : Edge → Value → Scheduler → Scheduler
unfolding drop_text
deliver edge value s = record s {
  inactive = drop_text edge.id s.inactive;
  tokens = insert edge.id value s.tokens;
  fresh_data = elim edge.kind [
    | data_edge ↦ put edge.id s.fresh_data
    | control_edge ↦ s.fresh_data
  ];
}

-- no value on an edge
unfoldable pub withhold : Setting → Bool → Edge → Scheduler → Scheduler
unfolding deactivate_edge drop_text
withhold f defer_absent edge s =
    let quiet = record s {
      tokens = remove edge.id s.tokens;
      fresh_data = drop_text edge.id s.fresh_data;
    } in
    elim defer_absent [
      | true ↦ s
      | false ↦ elim edge.kind [ data_edge ↦ quiet | control_edge ↦ deactivate_edge f edge s ]
    ]

unfoldable pub propagate_edges : Setting → Bool → Values → List Edge → Scheduler → Scheduler
unfolding deliver withhold
propagate_edges f defer_absent outputs [] s = s
propagate_edges f defer_absent outputs (edge ∷ rest) s =
    propagate_edges f defer_absent outputs rest (elim (lookup edge.source_port outputs) [
      | some value ↦ deliver edge value s
      | none ↦ withhold f defer_absent edge s
    ])

abbrev pub is_gate : ControlKind → Bool
is_gate kind = elim kind [ loop_gate ↦ true | _ ↦ false ]

unfoldable pub propagate_outputs : Setting → ℕ → WorkflowNode → Values → Scheduler → Scheduler
unfolding propagate_edges role
propagate_outputs f index node outputs s =
    propagate_edges f (is_gate (role f node)) outputs (outgoing f index) s

-- the error is kept if it is the first, and the node is settled as failed
unfoldable pub mark_failed : ℕ → WorkflowNode → ℕ → Option ℕ → NodeError → Scheduler → Scheduler
unfolding emit
mark_failed index node activation iteration error s =
    let told = emit activation node iteration (node_failed error) s in
    record told {
      first_failure = elim s.first_failure [ none ↦ some error | some first ↦ some first ];
      settled = if mem index s.settled then s.settled else index ∷ s.settled;
      failed = push_new node.id s.failed;
    }

unfoldable pub fail_started :
    Setting → ℕ → WorkflowNode → ℕ → Option ℕ → NodeError → Scheduler → Scheduler
unfolding mark_failed deactivate_outgoing
fail_started f index node activation iteration error s =
    deactivate_outgoing f index (mark_failed index node activation iteration error s)

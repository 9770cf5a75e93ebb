-- ===== src/Flow/State.antt =====
-- crates/lingxi-runtime/src/control_flow.rs: the state of the scheduler. What it never changes stands
-- in `Setting`: the graph, the node kinds of the registry, and the policy that authorizes a node's
-- capabilities. Events keep the node, the activation and the iteration, and not the texts.
use ling_xi_agent.Prelude.{
  ℕ, zero, suc, ◌+◌, String, Bool, false, Option, none, some, List, [], ◌∷◌, ◌++◌, Dict, lookup,
  get_elem?, nat_eq, min, any, unwrap_or, ◌==◌, if◌then◌else◌,
}
use ling_xi_agent.Protocol.Json.{Value}
use ling_xi_agent.Workflow.Ports.{NodeSpec, ControlKind, normal}
use ling_xi_agent.Workflow.Model.{
  Graph, Edge, WorkflowNode, Subgraph, composite_node_kind, position,
}

pub data Ready : Type 0 where
  wait go blocked : Ready

-- a reading of the clock, in milliseconds
abbrev pub Instant : Type 0
Instant = ℕ

pub record LoopState : Type 0 where
  pub gate : ℕ
  pub iteration : ℕ  -- u32
  pub deadline : Instant

-- the code of a `NodeError`
abbrev pub NodeError : Type 0
NodeError = String

-- values by the name of their port
abbrev pub Values : Type 0
Values = Dict Value

pub data Happened : Type 0 where
  node_started node_skipped node_cancelled : Happened
  node_finished : Values → Happened
  node_failed : NodeError → Happened

-- a `RunEvent` about a node; the scope names the composite nodes around it, the outermost first
pub record Event : Type 0 where
  pub scope : List String
  pub node_id : String
  pub activation : ℕ
  pub iteration : Option ℕ
  pub what : Happened

pub record Setting : Type 0 where
  pub graph : Graph
  pub subgraphs : Dict Subgraph
  pub composite_specs : Dict NodeSpec
  pub registry : String → Option NodeSpec
  pub has_executor : String → Bool
  pub authorize : WorkflowNode → String → Option NodeError
  pub parent_deadline : Option Instant

abbrev pub Seeds : Type 0
Seeds = List ((String × String) × Value)

pub record Scheduler : Type 0 where
  pub seeds : Seeds
  pub tokens : Values
  pub fresh_data : List String
  pub inactive : List String
  pub queue : List ℕ
  pub queued : List ℕ
  pub settled : List ℕ
  pub fired_sources : List ℕ
  pub activations : List ℕ
  pub latest_outputs : Dict Values
  pub failed : List String
  pub skipped : List String
  pub first_failure : Option NodeError
  pub cancelled : Bool
  pub timed_out : Bool
  pub loop_state : Option LoopState
  pub current_iteration : Option ℕ
  pub events : List Event

abbrev pub zeros : List WorkflowNode → List ℕ
zeros [] = []
zeros (_ ∷ rest) = 0 ∷ zeros rest

unfoldable pub new : Setting → Seeds → Scheduler
new f seeds = record {
  seeds = seeds;
  tokens = [];
  fresh_data = [];
  inactive = [];
  queue = [];
  queued = [];
  settled = [];
  fired_sources = [];
  activations = zeros f.graph.nodes;
  latest_outputs = [];
  failed = [];
  skipped = [];
  first_failure = none;
  cancelled = false;
  timed_out = false;
  loop_state = none;
  current_iteration = none;
  events = [];
}

-- sets, as lists
abbrev pub mem : ℕ → List ℕ → Bool
mem i set = any (λ j. nat_eq j i) set

abbrev pub has : String → List String → Bool
has id set = any (λ j. j == id) set

abbrev pub put : String → List String → List String
put id set = if has id set then set else id ∷ set

unfoldable pub drop_text : String → List String → List String
drop_text id [] = []
drop_text id (j ∷ rest) = let kept = drop_text id rest in if j == id then kept else j ∷ kept

unfoldable pub drop_index : ℕ → List ℕ → List ℕ
drop_index i [] = []
drop_index i (j ∷ rest) = let kept = drop_index i rest in if nat_eq j i then kept else j ∷ kept

-- `list.push(id)` unless it is there
abbrev pub push_new : String → List String → List String
push_new id list = if has id list then list else list ++ id ∷ []

-- `activations[index]`
abbrev pub at : List ℕ → ℕ → ℕ
at counts i = unwrap_or (get_elem? counts i) 0

-- `activations[index] += 1`
unfoldable pub bump : ℕ → List ℕ → List ℕ
bump i [] = []
bump zero (n ∷ rest) = (n + 1) ∷ rest
bump (suc i) (n ∷ rest) = n ∷ bump i rest

unfoldable pub spec_of : Setting → WorkflowNode → Option NodeSpec
spec_of f node =
    if node.kind == composite_node_kind
    then elim node.subgraph_id [ none ↦ none | some id ↦ lookup id f.composite_specs ]
    else f.registry node.kind

unfoldable pub role : Setting → WorkflowNode → ControlKind
unfolding spec_of
role f node = elim (spec_of f node) [ none ↦ normal | some spec ↦ spec.control ]

abbrev pub is_at : Option ℕ → ℕ → Bool
is_at none i = false
is_at (some j) i = nat_eq j i

abbrev pub keep_edges : (Edge → Bool) → List Edge → List Edge
keep_edges test [] = []
keep_edges test (e ∷ rest) = if test e then e ∷ keep_edges test rest else keep_edges test rest

unfoldable pub incoming : Setting → ℕ → List Edge
unfolding position
incoming f i = keep_edges (λ e. is_at (position e.target f.graph.nodes) i) f.graph.edges

unfoldable pub outgoing : Setting → ℕ → List Edge
unfolding position
outgoing f i = keep_edges (λ e. is_at (position e.source f.graph.nodes) i) f.graph.edges

unfoldable pub deadline : Setting → Scheduler → Option Instant
deadline f s = elim s.loop_state [
  | none ↦ f.parent_deadline
  | some state ↦ elim f.parent_deadline [
    | none ↦ some state.deadline
    | some outer ↦ some (min state.deadline outer)
  ]
]

-- an event about a node, at its present activation
unfoldable pub emit : ℕ → WorkflowNode → Option ℕ → Happened → Scheduler → Scheduler
emit activation node iteration what s = record s {
  events =
      s.events
      ++ record {
        scope = [];
        node_id = node.id;
        activation = activation;
        iteration = iteration;
        what = what;
      }
        ∷ [];
}

-- ===== src/Workflow/Model.antt =====
-- crates/lingxi-spec/src/model.rs: nodes, edges and subgraphs, and `composite_specs` of validation.rs
-- there. A subgraph's own workflow is a graph of nodes and edges: of the
-- subgraphs that a document may wrongly define in there, only the keys are kept. The
-- labels and descriptions of the editor are left out.
use ling_xi_agent.Prelude.{
  ℕ, suc, String, Bool, Option, none, some, List, [], ◌∷◌, Dict, map, ◌==◌, if◌then◌else◌,
}
use ling_xi_agent.Protocol.Float.{F64}
use ling_xi_agent.Protocol.Json.{Value}
use ling_xi_agent.Context.Message.{AssetRef}
use ling_xi_agent.Workflow.Ports.{PortSpec, NodeSpec, normal}

abbrev pub composite_node_kind : String
composite_node_kind = "core.composite"

pub record Position : Type 0 where
  pub x : F64
  pub y : F64

pub record WorkflowNode : Type 0 where
  pub id : String
  pub kind : String
  pub position : Position
  pub params : Dict Value
  pub enabled : Bool
  pub subgraph_id : Option String

pub data EdgeKind : Type 0 where
  data_edge control_edge : EdgeKind

pub record Edge : Type 0 where
  pub id : String
  pub source : String
  pub source_port : String
  pub target : String
  pub target_port : String
  pub kind : EdgeKind

pub record Graph : Type 0 where
  pub schema_version : String
  pub nodes : List WorkflowNode
  pub edges : List Edge

pub record PortBinding : Type 0 where
  pub node_id : String
  pub port : String
  pub edge_id : Option String

pub record SubgraphInput : Type 0 where
  pub port : PortSpec
  pub targets : List PortBinding

pub record SubgraphOutput : Type 0 where
  pub port : PortSpec
  pub source : PortBinding

pub record Subgraph : Type 0 where
  pub id : String
  pub version : ℕ
  pub name : String
  pub workflow : Graph
  pub nested : List String  -- the keys of `workflow.subgraphs`
  pub inputs : List SubgraphInput
  pub outputs : List SubgraphOutput

pub record Workflow : Type 0 where
  pub id : String
  pub graph : Graph
  pub subgraphs : Dict Subgraph
  pub assets : Dict AssetRef

unfoldable pub composite_spec : Subgraph → NodeSpec
composite_spec subgraph = record {
  kind = composite_node_kind;
  inputs = map (λ (i : SubgraphInput). i.port) subgraph.inputs;
  outputs = map (λ (o : SubgraphOutput). o.port) subgraph.outputs;
  params = [];
  capabilities = [];
  control = normal;
}

unfoldable pub composite_specs : Dict Subgraph → Dict NodeSpec
unfolding composite_spec
composite_specs [] = []
composite_specs ((key, subgraph) ∷ rest) = (key, composite_spec subgraph) ∷ composite_specs rest

-- The first place of a node with that id: `index.entry(id).or_insert(position)`.
unfoldable pub position : String → List WorkflowNode → Option ℕ
position id [] = none
position id (node ∷ rest) =
    let later = position id rest in
    if node.id == id then some 0 else elim later [ none ↦ none | some i ↦ some (suc i) ]

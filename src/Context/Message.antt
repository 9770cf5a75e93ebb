-- ===== src/Context/Message.antt =====
-- Conversation messages: `ChatMessage` of crates/lingxi-runtime/src/provider.rs, the content of
-- content.rs there, and `AssetRef` of crates/lingxi-spec/src/model.rs.
use Prim.Native.String.{count}
use ling_xi_agent.Prelude.{ℕ, ◌+◌, String, Option, none, some, List, [], ◌∷◌, Dict}
use ling_xi_agent.Protocol.Json.{Value}

pub data AssetKind : Type 0 where
  image audio video document : AssetKind

pub record AssetRef : Type 0 where
  pub id : String
  pub name : String
  pub mime : String
  pub size : ℕ  -- u64
  pub sha256 : String
  pub kind : AssetKind
  pub source : String
  pub metadata : Dict Value

pub data AudioMode : Type 0 where
  native transcribed : AudioMode

pub data VideoMode : Type 0 where
  native frames : VideoMode

pub data DocumentMode : Type 0 where
  native extracted : DocumentMode

pub record VideoFrame : Type 0 where
  pub asset : AssetRef
  pub timestamp_ms : ℕ

pub data ContentPart : Type 0 where
  text : String → Option String → ContentPart
  image : AssetRef → Option String → ContentPart
  audio : AssetRef → AudioMode → Option String → ContentPart
  video : AssetRef → VideoMode → List VideoFrame → Option (ℕ × ℕ) → ContentPart
  document : AssetRef → DocumentMode → Option String → List ℕ → ContentPart

pub data MessageContent : Type 0 where
  text : String → MessageContent
  parts : List ContentPart → MessageContent

part_count : ContentPart → ℕ
part_count (text t _) = count t
part_count _ = 0

parts_count : List ContentPart → ℕ
unfolding part_count
parts_count [] = 0
parts_count (p ∷ rest) = part_count p + parts_count rest

unfoldable pub char_count : MessageContent → ℕ
unfolding parts_count
char_count (text t) = count t
char_count (parts ps) = parts_count ps

pub data MessageRole : Type 0 where
  system user assistant tool : MessageRole

pub record ToolCall : Type 0 where
  pub id : String
  pub name : String
  pub arguments : Value

pub record ChatMessage : Type 0 where
  pub role : MessageRole
  pub content : MessageContent
  pub tool_calls : List ToolCall
  pub tool_call_id : Option String
  pub name : Option String

-- `ChatMessage::tool`
unfoldable pub tool_message : String → String → ChatMessage
tool_message tool_call_id content = record {
  role = tool;
  content = text content;
  tool_calls = [];
  tool_call_id = some tool_call_id;
  name = none;
}

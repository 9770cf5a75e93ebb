-- ===== src/Permissions/Policy.antt =====
-- crates/lingxi-runtime/src/permissions.rs: modes, classes, policies and the keys of the caches.
-- `to_lowercase` is taken as an argument: it reads the Unicode tables of the standard library.
use Prim.Native.String.{◌++◌}
use text.Mathlib.Text.{starts_with}
use ling_xi_agent.Prelude.{
  ℕ, String, Bool, true, false, ◌||◌, Option, none, some, List, [], ◌∷◌, any, ◌==◌, leb, trim,
  if◌then◌else◌,
}

pub data PermissionMode : Type 0 where
  ask workspace yolo : PermissionMode

-- `mode as u8`
abbrev pub rank : PermissionMode → ℕ
rank ask = 0
rank workspace = 1
rank yolo = 2

-- the derived `PartialEq`
abbrev pub mode_eq : PermissionMode → PermissionMode → Bool
mode_eq ask ask = true
mode_eq workspace workspace = true
mode_eq yolo yolo = true
mode_eq _ _ = false

unfoldable pub parse : (String → String) → String → Option PermissionMode
parse to_lowercase value =
    let word = to_lowercase (trim value) in
    if word == "ask"
    then some ask
    else if word == "workspace"
    then some workspace
    else if word == "yolo"
    then some yolo
    else none

unfoldable pub as_str : PermissionMode → String
as_str ask = "ask"
as_str workspace = "workspace"
as_str yolo = "yolo"

pub data PermissionClass : Type 0 where
  network process filesystem tool : PermissionClass

unfoldable pub key : PermissionClass → String
key network = "network"
key process = "process"
key filesystem = "filesystem"
key tool = "tool"

pub record PermissionPolicy : Type 0 where
  pub run_id : String
  pub project_id : Option String
  pub session_id : Option String
  pub mode : PermissionMode
  pub allowed_capabilities : List String
  pub allowed_targets : List String
  pub expires_at_ms : Option ℕ
  pub revision : ℕ  -- u32

unfoldable pub new : String → PermissionMode → PermissionPolicy
new run_id mode = record {
  run_id = run_id;
  project_id = none;
  session_id = none;
  mode = mode;
  allowed_capabilities = [];
  allowed_targets = [];
  expires_at_ms = none;
  revision = 1;
}

unfoldable pub expired : PermissionPolicy → ℕ → Bool
expired policy now_ms = elim policy.expires_at_ms [ none ↦ false | some expiry ↦ leb expiry now_ms ]

abbrev is_empty : List String → Bool
is_empty [] = true
is_empty (_ ∷ _) = false

unfoldable pub allows_class : PermissionPolicy → PermissionClass → Bool
allows_class policy class =
    is_empty policy.allowed_capabilities
    || any (λ item. item == key class) policy.allowed_capabilities

unfoldable pub allows_target : PermissionPolicy → String → Bool
allows_target policy target =
    is_empty policy.allowed_targets
    || any (λ prefix. target == prefix || starts_with target (prefix ++ "/")) policy.allowed_targets

-- `format!("{run_id}\u{1f}")`
unfoldable pub run_prefix : String → String
run_prefix run_id = run_id ++ "\u{1f}"

-- `format!("{run_id}\u{1f}{node_id}\u{1f}")`
unfoldable pub node_prefix : String → String → String
unfolding run_prefix
node_prefix run_id node_id = run_prefix run_id ++ (node_id ++ "\u{1f}")

unfoldable pub mode_key : String → String → String
unfolding run_prefix
mode_key run_id node_id = run_prefix run_id ++ node_id

unfoldable pub approval_key : String → String → PermissionClass → String → String
unfolding node_prefix key
approval_key run_id node_id class target =
    node_prefix run_id node_id ++ (key class ++ ("\u{1f}" ++ target))

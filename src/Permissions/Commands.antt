-- ===== src/Permissions/Commands.antt =====
-- crates/lingxi-runtime/src/permissions.rs: which targets a mode lets through without a prompt.
-- `to_lowercase` is a parameter: it reads the Unicode tables of the standard library.
use Prim.Native.Char.{code}
use ling_xi_agent.Prelude.{
  String, Bool, true, false, not, ◌&&◌, List, [], ◌∷◌, any, get_elem?, unwrap_or, nat_eq, ◌==◌,
  split_whitespace, contains, if◌then◌else◌,
}
use ling_xi_agent.Permissions.Policy.{
  PermissionMode, ask, workspace, yolo, PermissionClass, process, filesystem,
}
use ling_xi_agent.Permissions.Targets.{file_name, safe_relative}

-- `matches!(word, "a" | "b")`
abbrev pub one_of : List String → String → Bool
one_of options word = any (λ option. word == option) options

abbrev pub workspace_commands : List String
workspace_commands =
    "cargo" ∷ "npm" ∷ "pnpm" ∷ "node" ∷ "python" ∷ "python3" ∷ "pytest" ∷ "npx" ∷ "go" ∷ "rustc"
    ∷ "dotnet" ∷ []

abbrev pub high_risk_patterns : List String
high_risk_patterns =
    "rm -rf" ∷ "rm -fr" ∷ "sudo " ∷ "git push" ∷ "cargo publish" ∷ "cargo clean" ∷ "npm publish"
    ∷ "pnpm publish" ∷ "git reset --hard" ∷ "git clean -" ∷ "chmod 777" ∷ "mkfs" ∷ "shutdown"
    ∷ "reboot" ∷ "> /dev/" ∷ "curl | sh" ∷ "wget | sh" ∷ "del /f" ∷ "format " ∷ []

abbrev pub sensitive_patterns : List String
sensitive_patterns =
    ".env" ∷ ".ssh/" ∷ "id_rsa" ∷ "id_ed25519" ∷ ".aws/credentials" ∷ ".npmrc" ∷ ".pypirc"
    ∷ "secrets." ∷ []

-- `target.replace('\\', "/")`
unfoldable pub forward_slashes : String → String
forward_slashes String.[] = String.[]
forward_slashes (String.◌∷◌ c s) =
    if nat_eq (code c) b'\\'
    then String.◌∷◌ "/" (forward_slashes s)
    else String.◌∷◌ c (forward_slashes s)

-- the name of the program that a command line starts
unfoldable pub command_name : String → String
unfolding split_whitespace file_name
command_name target =
    unwrap_or (file_name (unwrap_or (get_elem? (split_whitespace target) 0) "")) ""

module _ (to_lowercase : String → String) where
  unfoldable pub high_risk_target : String → Bool
  unfolding contains
  high_risk_target target = any (contains (to_lowercase target)) high_risk_patterns

  unfoldable pub sensitive_target : String → Bool
  unfolding contains forward_slashes
  sensitive_target target =
      any (contains (to_lowercase (forward_slashes target))) sensitive_patterns

  unfoldable pub safe_process : String → Bool
  unfolding command_name
  safe_process target =
      one_of workspace_commands (command_name target) && not (high_risk_target target)

  -- The `match` on the command; `sub` is the second token.
  unfoldable pub project_check : String → String → List String → Bool
  project_check command sub tokens =
      if command == "cargo"
      then one_of
          ("test" ∷ "check" ∷ "build" ∷ "clippy" ∷ "fmt" ∷ "metadata" ∷ "tree" ∷ "bench" ∷ []) sub
      else if one_of ("npm" ∷ "pnpm" ∷ []) command
      then one_of ("test" ∷ "run" ∷ "build" ∷ "lint" ∷ "check" ∷ "typecheck" ∷ []) sub
        && not (any (one_of ("install" ∷ "add" ∷ "publish" ∷ "exec" ∷ [])) tokens)
      else if command == "go"
      then one_of ("test" ∷ "build" ∷ "vet" ∷ []) sub
      else if command == "dotnet"
      then one_of ("build" ∷ "test" ∷ []) sub
      else if command == "pytest"
      then true
      else if command == "node"
      then sub == "--test"
      else if one_of ("python" ∷ "python3" ∷ []) command
      then sub == "-m" && unwrap_or (get_elem? tokens 2) "" == "pytest"
      else false

  unfoldable pub workspace_process_allowed : String → Bool
  unfolding split_whitespace
  workspace_process_allowed target =
      let tokens = split_whitespace target in
      safe_process target
      && project_check (command_name target) (unwrap_or (get_elem? tokens 1) "") tokens

  -- `auto_allowed` past the test for sensitive targets
  unfoldable pub routine : PermissionMode → PermissionClass → String → Bool → Bool
  routine ask filesystem target read_only = read_only && safe_relative target
  routine ask _ target read_only = false
  routine workspace filesystem target read_only = safe_relative target
  routine workspace process target read_only = workspace_process_allowed target
  routine workspace _ target read_only = false
  routine yolo filesystem target read_only = not (high_risk_target target) && safe_relative target
  routine yolo process target read_only = not (high_risk_target target) && safe_process target
  routine yolo _ target read_only = not (high_risk_target target)

  unfoldable pub auto_allowed : PermissionMode → PermissionClass → String → Bool → Bool
  unfolding routine
  auto_allowed mode class target read_only =
      not (sensitive_target target) && routine mode class target read_only

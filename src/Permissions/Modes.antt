-- ===== src/Permissions/Modes.antt =====
-- How the three modes compare, and what an agent node's own mode can do to the run's.
use ling_xi_agent.Prelude.{
  ℕ, if◌then◌else◌, ltb, min, String, Bool, true, false, ◌≡◌, ◌≢◌, some, arith, lookup, eq_refl,
  eq_iff, lookup-insert, ltb, ◌≤◌, min, if◌then◌else◌,
}
use ling_xi_agent.Permissions.Policy.{
  PermissionMode, yolo, rank, PermissionClass, filesystem, mode_key,
}
use ling_xi_agent.Permissions.Commands.{
  high_risk_target, safe_process, workspace_process_allowed, auto_allowed,
}
use ling_xi_agent.Permissions.Manager.{
  PermissionManager, note, policy_for, mode_for, clear_run_approvals, clear_node_approvals,
  set_mode, set_agent_mode,
}

-- A wider mode lets through, with no prompt, whatever a narrower one does: ask, workspace, yolo, in
-- this order. The exception is a file target that looks like a dangerous command, which `yolo` stops.
pub auto_allowed_mono :
    (to_lowercase : String → String) (m n : PermissionMode) (class : PermissionClass)
    (target : String) (read_only : Bool)
    → rank m ≤ rank n
    → (n ≡ yolo → class ≡ filesystem → high_risk_target to_lowercase target ≡ false)
    → auto_allowed to_lowercase m class target read_only ≡ true
    → auto_allowed to_lowercase n class target read_only ≡ true
unfolding auto_allowed workspace_process_allowed safe_process
auto_allowed_mono to_lowercase m n class target read_only h calm allowed = ground arith

-- the mode that a node gets when it asks for one
abbrev narrowed : ℕ → String → String → PermissionMode → PermissionManager → PermissionMode
narrowed now_ms run_id node_id mode s =
    if ltb (rank (mode_for now_ms run_id node_id s)) (rank mode)
    then mode_for now_ms run_id node_id s
    else mode

-- After a node asks for a mode, its mode is the narrower of that mode and the one that it had: it is
-- never widened.
set_agent_mode-mode_for :
    (now_ms : ℕ) (run_id node_id : String) (mode : PermissionMode) (s : PermissionManager)
    → rank (mode_for now_ms run_id node_id (set_agent_mode now_ms run_id node_id mode s))
      ≡ min (rank mode) (rank (mode_for now_ms run_id node_id s))
unfolding mode_for set_agent_mode note policy_for clear_node_approvals
set_agent_mode-mode_for now_ms run_id node_id mode s =
    let k = mode_key run_id node_id in
    ground
      (arith, lookup-insert k k (narrowed now_ms run_id node_id mode s) s.agent_modes, eq_refl k)

-- A node's mode stays when another node of the run, or a node of another run, asks for one.
set_agent_mode-mode_for_other :
    (now_ms : ℕ) (run_id node_id run node : String) (mode : PermissionMode) (s : PermissionManager)
    → mode_key run_id node_id ≢ mode_key run node
    → mode_for now_ms run node (set_agent_mode now_ms run_id node_id mode s)
      ≡ mode_for now_ms run node s
unfolding mode_for set_agent_mode note policy_for clear_node_approvals
set_agent_mode-mode_for_other now_ms run_id node_id run node mode s ne =
    let k = mode_key run_id node_id in
    let j = mode_key run node in
    ground
      (arith, lookup-insert k j (narrowed now_ms run_id node_id mode s) s.agent_modes, eq_iff k j)

-- A node that has a mode of its own keeps it through every switch of the run's mode, also when the
-- run is switched to a narrower one.
pub set_mode-keeps_agent_mode :
    (now_ms later : ℕ) (run_id node_id : String) (own mode : PermissionMode) (s : PermissionManager)
    → lookup (mode_key run_id node_id) s.agent_modes ≡ some own
    → mode_for later run_id node_id (set_mode now_ms run_id mode s) ≡ own
unfolding mode_for set_mode note clear_run_approvals
set_mode-keeps_agent_mode now_ms later run_id node_id own mode s h = ground arith

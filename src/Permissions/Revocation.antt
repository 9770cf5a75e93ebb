-- ===== src/Permissions/Revocation.antt =====
-- What `set_mode` and `revoke_run` take back.
use text.Mathlib.Text.{starts_with}
use ling_xi_agent.Prelude.{
  ℕ, String, false, not, ◌≡◌, none, arith, lookup, eq_refl, lookup-retain, lookup-remove,
}
use ling_xi_agent.Permissions.Policy.{
  PermissionMode, ask, mode_eq, PermissionClass, new, expired, approval_key, mode_key, run_prefix,
}
use ling_xi_agent.Permissions.Keys.{approval_key-starts_with, mode_key-starts_with}
use ling_xi_agent.Permissions.Manager.{
  PermissionManager, note, policy_for, mode_for, clear_run_approvals, set_mode, is_approved_for,
  revoke_run,
}

lookup-clear_run_approvals :
    (run_id node_id : String) (class : PermissionClass) (target : String) (s : PermissionManager)
    → lookup (approval_key run_id node_id class target) (clear_run_approvals run_id s).approved
      ≡ none
unfolding clear_run_approvals
lookup-clear_run_approvals run_id node_id class target s =
    rw (lookup-retain, approval_key-starts_with run_id node_id class target)

-- A live switch to another mode drops every cached approval of the run: at any later time, for every
-- node, class and target, nothing of the run is approved any more.
pub set_mode-revokes :
    (now_ms later : ℕ) (run_id node_id : String) (mode : PermissionMode) (class : PermissionClass)
    (target : String) (s : PermissionManager)
    → mode_eq (policy_for now_ms run_id s).mode mode ≡ false
    → is_approved_for later run_id node_id class target (set_mode now_ms run_id mode s) ≡ false
unfolding set_mode note is_approved_for clear_run_approvals
set_mode-revokes now_ms later run_id node_id mode class target s h = ground (
  arith,
  lookup-clear_run_approvals run_id node_id class target s,
  lookup-clear_run_approvals run_id "*" class target s,
)

-- Revoking a run leaves nothing of it: no approval holds for any node, and its policy and the mode of
-- each of its nodes are the defaults of an unknown run.
pub revoke_run-forgets :
    (now_ms : ℕ) (run_id node_id : String) (class : PermissionClass) (target : String)
    (s : PermissionManager)
    → (is_approved_for now_ms run_id node_id class target (revoke_run run_id s) ≡ false)
      × (policy_for now_ms run_id (revoke_run run_id s) ≡ new run_id ask)
      × (mode_for now_ms run_id node_id (revoke_run run_id s) ≡ ask)
unfolding revoke_run is_approved_for policy_for mode_for new expired
revoke_run-forgets now_ms run_id node_id class target s = (
  ground (
    arith,
    lookup-clear_run_approvals run_id node_id class target s,
    lookup-clear_run_approvals run_id "*" class target s,
  ),
  ground (arith, lookup-remove run_id run_id s.policies, eq_refl run_id),
  ground (
    arith,
    lookup-remove run_id run_id s.policies,
    eq_refl run_id,
    lookup-retain (λ key. not (starts_with key (run_prefix run_id))) (mode_key run_id node_id)
        s.agent_modes,
    mode_key-starts_with run_id node_id,
  ),
)

-- ===== src/Permissions/Isolation.antt =====
-- What `set_mode` and `revoke_run` on one run do to the other runs.
use text.Mathlib.Text.{starts_with}
use ling_xi_agent.Prelude.{
  ℕ, String, not, ◌≡◌, ◌≢◌, arith, lookup, eq_iff, Bool-cases, inl, inr, lookup-retain,
  lookup-insert, lookup-remove,
}
use ling_xi_agent.Permissions.Policy.{
  PermissionMode, mode_eq, PermissionClass, approval_key, mode_key, run_prefix,
}
use ling_xi_agent.Permissions.Keys.{
  IsPlain, approval_key-starts_with_other, mode_key-starts_with_other,
}
use ling_xi_agent.Permissions.Manager.{
  PermissionManager, note, policy_for, mode_for, clear_run_approvals, set_mode, is_approved_for,
  revoke_run,
}

-- Two managers answer alike for one run.
pub record SameRun (run : String) (s t : PermissionManager) : Type 0 where
  pub policy : (now : ℕ) → policy_for now run s ≡ policy_for now run t
  pub mode : (now : ℕ) (node : String) → mode_for now run node s ≡ mode_for now run node t
  pub approval :
      (now : ℕ) (node : String) (class : PermissionClass) (target : String)
      → is_approved_for now run node class target s ≡ is_approved_for now run node class target t

module _ (run other : String) (pr : IsPlain run) (po : IsPlain other) (ne : run ≢ other) where
  approved_other :
      (node : String) (class : PermissionClass) (target : String) (s : PermissionManager)
      → lookup (approval_key other node class target) (clear_run_approvals run s).approved
        ≡ lookup (approval_key other node class target) s.approved
  unfolding clear_run_approvals
  approved_other node class target s =
      rw (lookup-retain, approval_key-starts_with_other run other node class target pr po ne)

  policies_set_mode :
      (now_ms : ℕ) (mode : PermissionMode) (s : PermissionManager)
      → lookup other (set_mode now_ms run mode s).policies ≡ lookup other s.policies
  unfolding set_mode note clear_run_approvals
  policies_set_mode now_ms mode s =
      elim (Bool-cases (mode_eq (policy_for now_ms run s).mode mode)) [
        | inl same ↦ rw (same, lookup-insert) (ground (arith, eq_iff run other))
        | inr changed ↦ rw (changed, lookup-insert) (ground (arith, eq_iff run other))
      ]

  agent_modes_set_mode :
      (now_ms : ℕ) (mode : PermissionMode) (s : PermissionManager)
      → (set_mode now_ms run mode s).agent_modes ≡ s.agent_modes
  unfolding set_mode note clear_run_approvals
  agent_modes_set_mode now_ms mode s = ground arith

  approved_set_mode :
      (now_ms : ℕ) (mode : PermissionMode) (node : String) (class : PermissionClass)
      (target : String) (s : PermissionManager)
      → lookup (approval_key other node class target) (set_mode now_ms run mode s).approved
        ≡ lookup (approval_key other node class target) s.approved
  unfolding set_mode note clear_run_approvals
  approved_set_mode now_ms mode node class target s =
      ground (arith, approved_other node class target s)

  policy_set_mode :
      (now_ms now : ℕ) (mode : PermissionMode) (s : PermissionManager)
      → policy_for now other (set_mode now_ms run mode s) ≡ policy_for now other s
  unfolding policy_for
  policy_set_mode now_ms now mode s = rw (policies_set_mode now_ms mode s)

  -- A live switch of one run's mode changes nothing for another run: its policy, the modes of its
  -- nodes and its approvals stay. The ids of the two runs differ and hold no unit separator.
  pub set_mode_isolated :
      (now_ms : ℕ) (mode : PermissionMode) (s : PermissionManager)
      → SameRun other (set_mode now_ms run mode s) s
  unfolding mode_for is_approved_for
  set_mode_isolated now_ms mode s = record {
    policy = λ now. policy_set_mode now_ms now mode s;
    mode = λ now node. simp (agent_modes_set_mode, policy_set_mode);
    approval = λ now node class target. rw (
      approved_set_mode now_ms mode node class target s,
      approved_set_mode now_ms mode "*" class target s,
    );
  }

  -- Revoking one run changes nothing for another run: its policy, the modes of its nodes and its
  -- approvals stay. The ids of the two runs differ and hold no unit separator.
  revoke_run_isolated : (s : PermissionManager) → SameRun other (revoke_run run s) s
  unfolding revoke_run policy_for mode_for is_approved_for
  revoke_run_isolated s = record {
    policy = λ now. ground (arith, lookup-remove run other s.policies, eq_iff run other);
    mode = λ now node. ground (
      arith,
      lookup-remove run other s.policies,
      eq_iff run other,
      lookup-retain (λ key. not (starts_with key (run_prefix run))) (mode_key other node)
          s.agent_modes,
      mode_key-starts_with_other run other node pr po ne,
    );
    approval = λ now node class target.
        ground (arith, approved_other node class target s, approved_other "*" class target s);
  }

-- ===== src/Permissions/Grants.antt =====
-- When `authorize_with` lets a request through, and what it remembers.
use ling_xi_agent.Prelude.{
  ℕ, ◌<◌, String, true, false, ◌≡◌, ◌⊎◌, ◌↔◌, unwrap_or, arith, lookup-insert, eq_refl,
}
use ling_xi_agent.Errors.{ok}
use ling_xi_agent.Permissions.Policy.{allows_class, allows_target, approval_key}
use ling_xi_agent.Permissions.Commands.{auto_allowed}
use ling_xi_agent.Permissions.Manager.{
  PermissionManager, u64_max, note, policy_for, mode_for, is_approved_for,
}
use ling_xi_agent.Permissions.Authorize.{
  Clock, Request, Wait, approved, approved_once, note_request, authorize_with,
}

-- the class and the target are within the run's policy
abbrev pub InScope : ℕ → Request → PermissionManager → Type 0
InScope now r s =
    (allows_class (policy_for now r.run_id s) r.class ≡ true)
    × (allows_target (policy_for now r.run_id s) r.target ≡ true)

module _ (to_lowercase : String → String) (clock : Clock) (r : Request) (wait : Wait) where
  abbrev pub Cleared : PermissionManager → Type 0
  Cleared s =
      (is_approved_for clock.at_approval r.run_id r.node_id r.class r.target s ≡ true)
      ⊎ (auto_allowed to_lowercase (mode_for clock.at_mode r.run_id r.node_id s) r.class r.target
            r.read_only
          ≡ true)

  -- the node's mode does not let the request through
  abbrev pub IsManual : PermissionManager → Type 0
  IsManual s =
      auto_allowed to_lowercase (mode_for clock.at_mode r.run_id r.node_id s) r.class r.target
        r.read_only
      ≡ false

  -- A request that has to be checked is granted exactly when its class and its target are within the
  -- run's policy, and it is cached as approved, or the node's mode lets it through, or the user
  -- answers the prompt with either of the two approvals.
  pub authorize_with_granted :
      (s : PermissionManager)
      → r.require_prompt ≡ true
      → ((authorize_with to_lowercase clock r wait s).1 ≡ ok tt) ↔ (
          InScope clock.at_policy r s
          × (Cleared s
              ⊎ (((wait s).decision ≡ ok approved) ⊎ ((wait s).decision ≡ ok approved_once))))
  unfolding authorize_with
  authorize_with_granted s h = (λ e. ground arith, λ e. ground arith)

  -- A prompt that is answered "for this session" stores an approval that holds for this run, node,
  -- class and target until the run's policy expires, where the request has to be checked, is within
  -- the policy, was not approved before, and is not let through by the node's mode.
  pub approval_remembered :
      (later : ℕ) (s : PermissionManager)
      → r.require_prompt ≡ true
      → InScope clock.at_policy r s
      → is_approved_for clock.at_approval r.run_id r.node_id r.class r.target s ≡ false
      → IsManual s
      → (wait s).decision ≡ ok approved
      → later < unwrap_or (policy_for clock.at_policy r.run_id s).expires_at_ms u64_max
      → is_approved_for later r.run_id r.node_id r.class r.target
          (authorize_with to_lowercase clock r wait s).0
        ≡ true
  unfolding authorize_with note_request note is_approved_for
  approval_remembered later s h scope miss manual e soon = ground (
    arith,
    lookup-insert (approval_key r.run_id r.node_id r.class r.target)
        (approval_key r.run_id r.node_id r.class r.target)
        (unwrap_or (policy_for clock.at_policy r.run_id s).expires_at_ms u64_max)
        (wait s).manager.approved,
    eq_refl (approval_key r.run_id r.node_id r.class r.target),
  )

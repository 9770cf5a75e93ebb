-- ===== src/Permissions/Authorize.antt =====
-- crates/lingxi-runtime/src/permissions.rs: `authorize_with`, split where it waits for the user's
-- decision. `wait` is what the prompt brings back: the manager as the other tasks left it meanwhile,
-- the clock's reading then, and the broker's answer (context.rs, `request_interaction`). What is before
-- the prompt is one step on the manager.
use ling_xi_agent.Prelude.{ℕ, String, Bool, not, ◌||◌, unwrap_or, insert, Option, if◌then◌else◌}
use ling_xi_agent.Errors.{Result, ok, err, capability_denied}
use ling_xi_agent.Permissions.Policy.{
  PermissionMode, PermissionClass, key, allows_class, allows_target, approval_key,
}
use ling_xi_agent.Permissions.Commands.{auto_allowed}
use ling_xi_agent.Permissions.Manager.{
  PermissionManager, u64_max, note, policy_for, mode_for, is_approved_for,
}

pub data InteractionDecision : Type 0 where
  approved approved_once rejected : InteractionDecision

-- the arguments of one call; `ctx` gives the run and the node
pub record Request : Type 0 where
  pub run_id : String
  pub node_id : String
  pub class : PermissionClass
  pub target : String
  pub detail : String
  pub require_prompt : Bool
  pub read_only : Bool

-- The readings of the clock before the prompt: `policy_for`, `mode_for`, `is_approved_for` and `record`
-- each look at it.
pub record Clock : Type 0 where
  pub at_policy : ℕ
  pub at_mode : ℕ
  pub at_approval : ℕ
  pub at_note : ℕ

pub record Answer : Type 0 where
  pub manager : PermissionManager
  pub now_ms : ℕ
  pub decision : Result InteractionDecision

abbrev pub Wait : Type 0
Wait = PermissionManager → Answer

-- an audit entry for the request
unfoldable pub note_request :
    ℕ → PermissionMode → String → String → Request → PermissionManager → PermissionManager
note_request now_ms mode decision detail r s =
    note now_ms r.run_id r.node_id mode (key r.class) r.target decision detail s

-- what happens once the prompt is answered
unfoldable pub settle :
    PermissionMode
    → Option ℕ
    → Request
    → ℕ
    → Result InteractionDecision
    → PermissionManager
    → PermissionManager × Result (Unit {0})
settle mode expires_at_ms r now_ms (ok approved) s =
    let granted = record s {
      approved =
          insert (approval_key r.run_id r.node_id r.class r.target)
            (unwrap_or expires_at_ms u64_max) s.approved;
    } in
    (note_request now_ms mode "approved" r.detail r granted, ok tt)
settle mode expires_at_ms r now_ms (ok approved_once) s =
    (note_request now_ms mode "approved_once" r.detail r s, ok tt)
settle mode expires_at_ms r now_ms (ok rejected) s =
    (note_request now_ms mode "rejected" r.detail r s, err capability_denied)
settle mode expires_at_ms r now_ms (err e) s = (s, err e)

module _ (to_lowercase : String → String) where
  unfoldable pub authorize_with :
      Clock → Request → Wait → PermissionManager → PermissionManager × Result (Unit {0})
  unfolding settle
  authorize_with clock r wait s =
      let policy = policy_for clock.at_policy r.run_id s in
      let mode = mode_for clock.at_mode r.run_id r.node_id s in
      let answer = wait s in
      if not r.require_prompt
      then (s, ok tt)
      else if not (allows_class policy r.class) || not (allows_target policy r.target)
      then (
        note_request clock.at_note mode "denied" "target is outside the run policy scope" r s,
        err capability_denied,
      )
      else if is_approved_for clock.at_approval r.run_id r.node_id r.class r.target s
      then (s, ok tt)
      else if auto_allowed to_lowercase mode r.class r.target r.read_only
      then (note_request clock.at_note mode "auto" r.detail r s, ok tt)
      else settle mode policy.expires_at_ms r answer.now_ms answer.decision answer.manager

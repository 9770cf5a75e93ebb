-- ===== src/Permissions/Examples.antt =====
-- The permission theorems on concrete runs.
use ling_xi_agent.Prelude.{
  ℕ, ◌≤◌, String, true, false, ◌≡◌, ◌≢◌, refl, ◌↔◌, ◌⊎◌, [], ◌∷◌, retain, insert, nat_eq, lookup,
  length, ◌==◌, arith, eq_iff,
}
use ling_xi_agent.Errors.{ok}
use ling_xi_agent.Permissions.Policy.{
  approval_key, ask, workspace, yolo, process, network, mode_key, new, expired, allows_class,
  allows_target,
}
use ling_xi_agent.Permissions.Targets.{components, safe_relative}
use ling_xi_agent.Permissions.Commands.{
  workspace_process_allowed, safe_process, project_check, auto_allowed, high_risk_target,
  sensitive_target,
}
use ling_xi_agent.Permissions.Manager.{
  note, clear_run_approvals, PermissionManager, PermissionAuditEntry, empty, audit_limit, set_mode,
  set_agent_mode, mode_for, policy_for, pre_approve, is_approved_for, revoke_run,
}
use ling_xi_agent.Permissions.Authorize.{
  InteractionDecision, Clock, Request, Wait, approved, approved_once, authorize_with,
}
use ling_xi_agent.Permissions.Resolution.{walk, Below, safe_relative-Below}
use ling_xi_agent.Permissions.Revocation.{set_mode-revokes, revoke_run-forgets}
use ling_xi_agent.Permissions.Modes.{auto_allowed_mono, set_mode-keeps_agent_mode}
use ling_xi_agent.Permissions.Keys.{IsPlain}
use ling_xi_agent.Permissions.Isolation.{SameRun, set_mode_isolated}
use ling_xi_agent.Permissions.Grants.{InScope, Cleared, authorize_with_granted, approval_remembered}
use ling_xi_agent.Permissions.Audit.{here, next, set_mode_step, audit_bounded}

-- texts that are in lower case already
abbrev same : String → String
same s = s

-- a run in the mode `workspace` with one approval
abbrev run_one : PermissionManager
unfolding set_mode pre_approve
run_one = pre_approve "run-1" network "example.org" (set_mode 10 "run-1" workspace empty)

abbrev fetch : Request
fetch = record {
  run_id = "run-1";
  node_id = "node-a";
  class = network;
  target = "api.test";
  detail = "fetch";
  require_prompt = true;
  read_only = false;
}

-- the user's answer, half a second later, while nothing else happens
abbrev answers : InteractionDecision → Wait
answers decision s = record { manager = s; now_ms = 520; decision = ok decision }

text_ne : (s t : String) → (s == t) ≡ false → s ≢ t
text_ne s t h = ground (arith, eq_iff s t)

set_mode-revokes_example :
    is_approved_for 30 "run-1" "node-a" network "example.org" (set_mode 20 "run-1" ask run_one)
    ≡ false
unfolding policy_for set_mode expired run_one note new clear_run_approvals insert
set_mode-revokes_example =
    set_mode-revokes 20 30 "run-1" "node-a" ask network "example.org" run_one refl

revoke_run-forgets_example :
    (is_approved_for 30 "run-1" "node-a" network "example.org" (revoke_run "run-1" run_one) ≡ false)
    × (policy_for 30 "run-1" (revoke_run "run-1" run_one) ≡ new "run-1" ask)
    × (mode_for 30 "run-1" "node-a" (revoke_run "run-1" run_one) ≡ ask)
revoke_run-forgets_example = revoke_run-forgets 30 "run-1" "node-a" network "example.org" run_one

abbrev ticking : Clock
ticking = record { at_policy = 20; at_mode = 21; at_approval = 22; at_note = 23 }

authorize_with_granted_example :
    ((authorize_with same ticking fetch (answers approved_once) run_one).1 ≡ ok tt) ↔ (
      InScope ticking.at_policy fetch run_one
      × (Cleared same ticking fetch (answers approved_once) run_one
          ⊎ ((((answers approved_once) run_one).decision ≡ ok approved)
              ⊎ (((answers approved_once) run_one).decision ≡ ok approved_once))))
authorize_with_granted_example =
    authorize_with_granted same ticking fetch (answers approved_once) run_one refl

approval_remembered_example :
    is_approved_for 9000 "run-1" "node-a" network "api.test"
      (authorize_with same ticking fetch (answers approved) run_one).0
    ≡ true
unfolding policy_for set_mode run_one pre_approve is_approved_for auto_allowed mode_for allows_class
    allows_target expired note new clear_run_approvals insert retain approval_key sensitive_target
approval_remembered_example =
    approval_remembered same ticking fetch (answers approved) 9000 run_one refl (refl, refl) refl
      refl refl (omega arith)

safe_relative-Below_example :
    Below ("project" ∷ "home" ∷ []) (walk ("project" ∷ "home" ∷ []) (components "./src//main.rs"))
unfolding safe_relative
safe_relative-Below_example = safe_relative-Below ("project" ∷ "home" ∷ []) "./src//main.rs" refl

auto_allowed_mono_example : auto_allowed same yolo process "cargo test" false ≡ true
unfolding auto_allowed sensitive_target workspace_process_allowed safe_process high_risk_target
    project_check
auto_allowed_mono_example =
    auto_allowed_mono same workspace yolo process "cargo test" false (omega arith) (λ _ _. refl)
      refl

-- node-a asked for `workspace`; later the user switches the run to `ask`
set_mode-keeps_agent_mode_example :
    mode_for 60 "run-1" "node-a"
      (set_mode 50 "run-1" ask (set_agent_mode 40 "run-1" "node-a" workspace run_one))
    ≡ workspace
unfolding set_agent_mode set_mode pre_approve lookup mode_for note policy_for expired new
    clear_run_approvals insert mode_key
set_mode-keeps_agent_mode_example =
    set_mode-keeps_agent_mode 50 60 "run-1" "node-a" workspace ask
      (set_agent_mode 40 "run-1" "node-a" workspace run_one) refl

code_ne : (n m : ℕ) → nat_eq n m ≡ false → n ≢ m
code_ne n m h = ground arith

IsPlain-one : IsPlain "run-1"
IsPlain-one = (
  code_ne 114 31 refl,
  (code_ne 117 31 refl, (code_ne 110 31 refl, (code_ne 45 31 refl, (code_ne 49 31 refl, tt)))),
)

IsPlain-two : IsPlain "run-2"
IsPlain-two = (
  code_ne 114 31 refl,
  (code_ne 117 31 refl, (code_ne 110 31 refl, (code_ne 45 31 refl, (code_ne 50 31 refl, tt)))),
)

set_mode_isolated_example : SameRun "run-2" (set_mode 20 "run-1" ask run_one) run_one
set_mode_isolated_example =
    set_mode_isolated "run-1" "run-2" IsPlain-one IsPlain-two (text_ne "run-1" "run-2" refl) 20 ask
      run_one

audit_bounded_example : length (set_mode 5 "run-1" yolo empty).audit ≤ audit_limit
audit_bounded_example =
    audit_bounded same (set_mode 5 "run-1" yolo empty)
      (next here (set_mode_step 5 "run-1" yolo empty))

abbrev entry : PermissionAuditEntry
entry = record {
  at_ms = 1;
  run_id = "run-1";
  node_id = "node-a";
  mode = ask;
  class = "network";
  target = "api.test";
  decision = "auto";
  detail = "fetch";
}

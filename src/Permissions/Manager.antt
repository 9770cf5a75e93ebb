-- ===== src/Permissions/Manager.antt =====
-- crates/lingxi-runtime/src/permissions.rs: `PermissionManager`. A method takes the manager last and
-- returns the new one. Each is one step, with one reading `now_ms` of the clock. `set_policy`,
-- `set_mode`, `set_agent_mode`, `mode_for` and `revoke_run` take their locks one after the other: what
-- another task does between two of them is not modelled.
use Prim.Native.String.{◌++◌ as ◌+++◌}
use text.Mathlib.Text.{starts_with}
use ling_xi_agent.Prelude.{
  ℕ, ◌+◌, ◌-◌, ◌^◌, String, Bool, false, not, ◌||◌, Option, none, some, List, [], ◌∷◌, ◌++◌, Dict,
  lookup, insert, remove, retain, length, drop, ltb, unwrap_or, ◌==◌, decimal, if◌then◌else◌, min,
}
use ling_xi_agent.Permissions.Policy.{
  PermissionMode, ask, rank, mode_eq, as_str, PermissionClass, PermissionPolicy, new, expired,
  run_prefix, node_prefix, mode_key, approval_key,
}

pub record PermissionAuditEntry : Type 0 where
  pub at_ms : ℕ
  pub run_id : String
  pub node_id : String
  pub mode : PermissionMode
  pub class : String
  pub target : String
  pub decision : String
  pub detail : String

pub record PermissionManager : Type 0 where
  pub approved : Dict ℕ
  pub policies : Dict PermissionPolicy
  pub agent_modes : Dict PermissionMode
  pub audit : List PermissionAuditEntry

abbrev pub empty : PermissionManager
empty = record { approved = []; policies = []; agent_modes = []; audit = [] }

abbrev pub u64_max : ℕ
u64_max = 2 ^ 64 - 1

abbrev pub u32_max : ℕ
u32_max = 2 ^ 32 - 1

abbrev pub audit_limit : ℕ
audit_limit = 2000

-- `push`, and then `drain` of what is over the limit, from the front
unfoldable pub push_audit :
    PermissionAuditEntry → List PermissionAuditEntry → List PermissionAuditEntry
push_audit entry entries =
    let audit = entries ++ entry ∷ [] in
    if ltb audit_limit (length audit) then drop (length audit - audit_limit) audit else audit

unfoldable pub note :
    ℕ
    → String
    → String
    → PermissionMode
    → String
    → String
    → String
    → String
    → PermissionManager
    → PermissionManager
unfolding push_audit
note now_ms run_id node_id mode class target decision detail s = record s {
  audit =
      push_audit
        (record {
          at_ms = now_ms;
          run_id = run_id;
          node_id = node_id;
          mode = mode;
          class = class;
          target = target;
          decision = decision;
          detail = detail;
        })
        s.audit;
}

unfoldable pub policy_for : ℕ → String → PermissionManager → PermissionPolicy
unfolding lookup
policy_for now_ms run_id s =
    let policy = unwrap_or (lookup run_id s.policies) (new run_id ask) in
    if expired policy now_ms then record policy { mode = ask } else policy

unfoldable pub mode_for : ℕ → String → String → PermissionManager → PermissionMode
mode_for now_ms run_id node_id s =
    unwrap_or (lookup (mode_key run_id node_id) s.agent_modes) (policy_for now_ms run_id s).mode

unfoldable pub clear_run_approvals : String → PermissionManager → PermissionManager
clear_run_approvals run_id s = record s {
  approved = retain (λ key. not (starts_with key (run_prefix run_id))) s.approved;
}

unfoldable pub clear_node_approvals : String → String → PermissionManager → PermissionManager
clear_node_approvals run_id node_id s = record s {
  approved = retain (λ key. not (starts_with key (node_prefix run_id node_id))) s.approved;
}

revision_of : Option PermissionPolicy → ℕ
revision_of none = 0
revision_of (some policy) = policy.revision

unfoldable pub set_policy : ℕ → PermissionPolicy → PermissionManager → PermissionManager
unfolding revision_of
set_policy now_ms policy s =
    let previous = lookup policy.run_id s.policies in
    note now_ms policy.run_id "*" policy.mode "policy" policy.run_id "policy.updated"
      ("mode "
        +++ as_str policy.mode
        +++ " revision "
        +++ decimal policy.revision
        +++ " (previous revision "
        +++ decimal (revision_of previous)
        +++ ")")
      (record s { policies = insert policy.run_id policy s.policies })

-- `saturating_add(1)` on a `u32`
switched : PermissionMode → PermissionPolicy → PermissionPolicy
switched mode policy = record policy { mode = mode; revision = min (policy.revision + 1) u32_max }

switch : String → PermissionMode → Option PermissionPolicy → PermissionPolicy
unfolding switched
switch run_id mode (some policy) = switched mode policy
switch run_id mode none = new run_id mode

unfoldable pub set_mode : ℕ → String → PermissionMode → PermissionManager → PermissionManager
unfolding switch
set_mode now_ms run_id mode s =
    let previous = (policy_for now_ms run_id s).mode in
    let entry = switch run_id mode (lookup run_id s.policies) in
    let changed = record s { policies = insert run_id entry s.policies } in
    note now_ms run_id "*" mode "policy" run_id "policy.mode" "permission mode changed live"
      (if mode_eq previous mode then changed else clear_run_approvals run_id changed)

unfoldable pub set_agent_mode :
    ℕ → String → String → PermissionMode → PermissionManager → PermissionManager
set_agent_mode now_ms run_id node_id mode s =
    let current = mode_for now_ms run_id node_id s in
    let effective = if ltb (rank current) (rank mode) then current else mode in
    let changed = record s {
      agent_modes = insert (mode_key run_id node_id) effective s.agent_modes;
    } in
    if mode_eq effective current
    then changed
    else note now_ms run_id node_id effective "policy" node_id "policy.agent"
        "agent node tightened its permission mode" (clear_node_approvals run_id node_id changed)

-- `approved.get(key).is_some_and(|expiry| *expiry > now)`
unfoldable pub is_live : ℕ → Option ℕ → Bool
is_live now_ms none = false
is_live now_ms (some expiry) = ltb now_ms expiry

unfoldable pub is_approved : ℕ → String → PermissionClass → String → PermissionManager → Bool
unfolding is_live
is_approved now_ms run_id class target s =
    is_live now_ms (lookup (approval_key run_id "*" class target) s.approved)

unfoldable pub is_approved_for :
    ℕ → String → String → PermissionClass → String → PermissionManager → Bool
unfolding is_live
is_approved_for now_ms run_id node_id class target s =
    is_live now_ms (lookup (approval_key run_id node_id class target) s.approved)
    || is_live now_ms (lookup (approval_key run_id "*" class target) s.approved)

unfoldable pub pre_approve_until :
    String → PermissionClass → String → ℕ → PermissionManager → PermissionManager
pre_approve_until run_id class target expires_at_ms s = record s {
  approved = insert (approval_key run_id "*" class target) expires_at_ms s.approved;
}

unfoldable pub pre_approve :
    String → PermissionClass → String → PermissionManager → PermissionManager
unfolding pre_approve_until
pre_approve run_id class target s = pre_approve_until run_id class target u64_max s

unfoldable pub revoke_run : String → PermissionManager → PermissionManager
unfolding clear_run_approvals
revoke_run run_id s = record s {
  approved = (clear_run_approvals run_id s).approved;
  policies = remove run_id s.policies;
  agent_modes = retain (λ key. not (starts_with key (run_prefix run_id))) s.agent_modes;
}

unfoldable pub only :
    (PermissionAuditEntry → Bool) → List PermissionAuditEntry → List PermissionAuditEntry
only keep [] = []
only keep (e ∷ es) = let rest = only keep es in if keep e then e ∷ rest else rest

unfoldable pub audit_for : String → PermissionManager → List PermissionAuditEntry
unfolding only
audit_for run_id s = only (λ entry. entry.run_id == run_id) s.audit

unfoldable pub clear_audit : String → PermissionManager → PermissionManager
unfolding only
clear_audit run_id s = record s { audit = only (λ entry. not (entry.run_id == run_id)) s.audit }

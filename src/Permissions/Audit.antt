-- ===== src/Permissions/Audit.antt =====
-- The audit trail under any sequence of calls.
use ling_xi_agent.Prelude.{
  false, ℕ, zero, suc, ◌≤◌, ◌-◌, ◌+◌, String, Option, Bool, ◌≡◌, refl, sym, List, [], ◌∷◌, ◌++◌,
  arith, length, take, drop, length-append, length-drop, Bool-cases, inl, inr, ltb,
}
use ling_xi_agent.Errors.{Result, ok, err}
use ling_xi_agent.Permissions.Policy.{PermissionMode, PermissionClass, PermissionPolicy}
use ling_xi_agent.Permissions.Manager.{
  PermissionAuditEntry, PermissionManager, empty, audit_limit, push_audit, note, set_policy,
  set_mode, set_agent_mode, clear_node_approvals, pre_approve_until, revoke_run, clear_audit, only,
}
use ling_xi_agent.Permissions.Authorize.{
  Request, InteractionDecision, approved, approved_once, rejected, note_request, settle,
  authorize_with, Clock,
}

abbrev IsBounded : PermissionManager → Type 0
IsBounded s = length s.audit ≤ audit_limit

push_audit-le :
    (entry : PermissionAuditEntry) (entries : List PermissionAuditEntry)
    → length (push_audit entry entries) ≤ audit_limit
unfolding push_audit
push_audit-le entry entries =
    ground
      (arith, length-drop (length (entries ++ entry ∷ []) - audit_limit) (entries ++ entry ∷ []))

note-IsBounded :
    (now_ms : ℕ) (run_id node_id : String) (mode : PermissionMode)
    (class target decision detail : String) (s : PermissionManager)
    → IsBounded (note now_ms run_id node_id mode class target decision detail s)
unfolding note
note-IsBounded now_ms run_id node_id mode class target decision detail s = push_audit-le _ s.audit

-- One call of the manager, by whatever task. A prompt that is answered is a step of its own, since
-- other calls come between the question and the answer.
pub data Step (to_lowercase : String → String)
    : PermissionManager → PermissionManager → Type 0 where
  set_policy_step :
      (now_ms : ℕ) (policy : PermissionPolicy) (s : PermissionManager)
      → Step to_lowercase s (set_policy now_ms policy s)
  set_mode_step :
      (now_ms : ℕ) (run_id : String) (mode : PermissionMode) (s : PermissionManager)
      → Step to_lowercase s (set_mode now_ms run_id mode s)
  set_agent_mode_step :
      (now_ms : ℕ) (run_id node_id : String) (mode : PermissionMode) (s : PermissionManager)
      → Step to_lowercase s (set_agent_mode now_ms run_id node_id mode s)
  pre_approve_step :
      (run_id : String) (class : PermissionClass) (target : String) (expiry : ℕ)
      (s : PermissionManager)
      → Step to_lowercase s (pre_approve_until run_id class target expiry s)
  revoke_step :
      (run_id : String) (s : PermissionManager) → Step to_lowercase s (revoke_run run_id s)
  clear_audit_step :
      (run_id : String) (s : PermissionManager) → Step to_lowercase s (clear_audit run_id s)
  authorize_step :
      (clock : Clock) (r : Request) (later : ℕ) (decision : Result InteractionDecision)
      (s : PermissionManager)
      → Step to_lowercase s
          (authorize_with to_lowercase clock r
            (λ t. record { manager = t; now_ms = later; decision = decision })
            s).0
  settle_step :
      (mode : PermissionMode) (expiry : Option ℕ) (r : Request) (now_ms : ℕ)
      (decision : Result InteractionDecision) (s : PermissionManager)
      → Step to_lowercase s (settle mode expiry r now_ms decision s).0

pub data Reach (to_lowercase : String → String) (s : PermissionManager)
    : PermissionManager → Type 0 where
  here : Reach to_lowercase s s
  next :
      {t u : PermissionManager}
      → Reach to_lowercase s t
      → Step to_lowercase t u
      → Reach to_lowercase s u

length-only :
    (keep : PermissionAuditEntry → Bool) (es : List PermissionAuditEntry)
    → length (only keep es) ≤ length es
unfolding only
length-only keep [] = omega arith
length-only keep (e ∷ es) = ground (arith, length-only keep es)

settle-IsBounded :
    (mode : PermissionMode) (expiry : Option ℕ) (r : Request) (now_ms : ℕ)
    (decision : Result InteractionDecision) (s : PermissionManager)
    → IsBounded s
    → IsBounded (settle mode expiry r now_ms decision s).0
unfolding settle note_request note
settle-IsBounded mode expiry r now_ms (ok approved) s h = push_audit-le _ s.audit
settle-IsBounded mode expiry r now_ms (ok approved_once) s h = push_audit-le _ s.audit
settle-IsBounded mode expiry r now_ms (ok rejected) s h = push_audit-le _ s.audit
settle-IsBounded mode expiry r now_ms (err e) s h = h

set_agent_mode-IsBounded :
    (now_ms : ℕ) (run_id node_id : String) (mode : PermissionMode) (s : PermissionManager)
    → IsBounded s
    → IsBounded (set_agent_mode now_ms run_id node_id mode s)
unfolding set_agent_mode note clear_node_approvals
set_agent_mode-IsBounded now_ms run_id node_id mode s h = grind (arith, push_audit-le)

authorize_with-IsBounded :
    (to_lowercase : String → String) (clock : Clock) (r : Request) (later : ℕ)
    (decision : Result InteractionDecision) (s : PermissionManager)
    → IsBounded s
    → IsBounded
        (authorize_with to_lowercase clock r
          (λ t. record { manager = t; now_ms = later; decision = decision })
          s).0
unfolding authorize_with note_request note
authorize_with-IsBounded to_lowercase clock r later decision s h = grind (arith, push_audit-le)

Step-IsBounded :
    {to_lowercase : String → String} {s t : PermissionManager}
    → Step to_lowercase s t
    → IsBounded s
    → IsBounded t
unfolding set_policy set_mode pre_approve_until revoke_run clear_audit
Step-IsBounded (set_policy_step now_ms policy s) h = note-IsBounded _ _ _ _ _ _ _ _ _
Step-IsBounded (set_mode_step now_ms run_id mode s) h = note-IsBounded _ _ _ _ _ _ _ _ _
Step-IsBounded (set_agent_mode_step now_ms run_id node_id mode s) h =
    set_agent_mode-IsBounded now_ms run_id node_id mode s h
Step-IsBounded (pre_approve_step run_id class target expiry s) h = h
Step-IsBounded (revoke_step run_id s) h = h
Step-IsBounded (clear_audit_step run_id s) h = omega (arith, length-only _ s.audit)
Step-IsBounded (authorize_step clock r later decision s) h =
    authorize_with-IsBounded _ clock r later decision s h
Step-IsBounded (settle_step mode expiry r now_ms decision s) h =
    settle-IsBounded mode expiry r now_ms decision s h

Reach-IsBounded :
    {to_lowercase : String → String} {s t : PermissionManager}
    → IsBounded s
    → Reach to_lowercase s t
    → IsBounded t
Reach-IsBounded h here = h
Reach-IsBounded h (next r st) = Step-IsBounded st (Reach-IsBounded h r)

-- Whatever calls are made from a new manager, in whatever order, the audit trail never holds more
-- than 2000 entries.
pub audit_bounded :
    (to_lowercase : String → String) (s : PermissionManager)
    → Reach to_lowercase empty s
    → length s.audit ≤ audit_limit
audit_bounded to_lowercase s r = Reach-IsBounded (omega arith) r

take-append-drop : {A : Type 0} (n : ℕ) (xs : List A) → take n xs ++ drop n xs ≡ xs
take-append-drop zero xs = refl
take-append-drop (suc n) [] = refl
take-append-drop (suc n) (x ∷ xs) = rw (take-append-drop n xs)

-- A new entry costs only the oldest ones, and only those over the limit: the old trail with the entry
-- behind it is as many of its first entries as are over the limit, followed by the new trail.
push_audit_drops_oldest :
    (entry : PermissionAuditEntry) (entries : List PermissionAuditEntry)
    → entries ++ entry ∷ []
      ≡ take (length entries + 1 - audit_limit) (entries ++ entry ∷ []) ++ push_audit entry entries
unfolding push_audit
push_audit_drops_oldest entry entries =
    let all = entries ++ entry ∷ [] in
    let n = length entries + 1 - audit_limit in
    let size : length all ≡ length entries + 1 = length-append entries (entry ∷ []) in
    let fits : ltb audit_limit (length all) ≡ false → n ≡ 0 =
      λ under. ground (arith, under, size) in
    elim (Bool-cases (ltb audit_limit (length all))) [
      | inl over ↦ rw (over, size) (sym (take-append-drop n all))
      | inr under ↦ rw (under, fits under) refl
    ]

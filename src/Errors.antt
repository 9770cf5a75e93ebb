-- ===== src/Errors.antt =====
-- crates/lingxi-runtime/src/error.rs: the codes of `NodeError` that the modelled parts raise. The
-- text of a message is left out: it is formatted for people and nothing reads it back.
use ling_xi_agent.Prelude.{Bool, true, false, ◌≡◌, refl, ◌⊎◌, inl, inr}

pub data ErrorCode : Type 0 where
  capability_denied : ErrorCode
  agent_invalid_config agent_invalid_budget agent_invalid_message : ErrorCode
  agent_unsupported_protocol agent_invalid_artifact agent_message_too_large : ErrorCode
  context_unknown_handle context_invalid_messages context_overflow : ErrorCode
  bus_duplicate bus_unknown_recipient bus_queue_full bus_forbidden : ErrorCode

pub data Result {ℓ} (A : Type ℓ) : Type ℓ where
  ok : A → Result A
  err : ErrorCode → Result A

infixl 5 ◌>>=◌ ◌>>◌
abbrev pub ◌>>=◌ {ℓ κ} : {A : Type ℓ} {B : Type κ} → Result A → (A → Result B) → Result B
err code >>= next = err code
ok value >>= next = next value

abbrev pub ◌>>◌ {ℓ} : {B : Type ℓ} → Result (Unit {0}) → Result B → Result B
check >> next = check >>= λ _. next

-- `if test { return Err(code) }`
abbrev pub fail_if : Bool → ErrorCode → Result (Unit {0})
fail_if false code = ok tt
fail_if true code = err code

pub Result-cases {ℓ} :
    {A : Type ℓ} (r : Result A) → ((a : A) × (r ≡ ok a)) ⊎ ((e : ErrorCode) × (r ≡ err e))
Result-cases (ok a) = inl (a, refl)
Result-cases (err e) = inr (e, refl)

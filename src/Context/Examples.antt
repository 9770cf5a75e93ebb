-- ===== src/Context/Examples.antt =====
-- The theorems on conversations at concrete ones: a system message and two of the user's.
use ling_xi_agent.Prelude.{
  ◌↔◌, ℕ, ◌+◌, ◌≤◌, String, false, ◌≡◌, ◌≢◌, refl, none, some, List, [], ◌∷◌, ◌==◌, lookup, length,
  arith, eq_iff,
}
use ling_xi_agent.Errors.{ok, err, context_unknown_handle, context_overflow}
use ling_xi_agent.Protocol.Json.{Value}
use ling_xi_agent.Context.Message.{ChatMessage, MessageRole, system, user, text, char_count}
use ling_xi_agent.Context.Store.{
  Store, trim_oldest, error, estimate_tokens, enforce_limits, trim, remove_first, update,
  snapshot_of, push_all, push_message,
}
use ling_xi_agent.Context.Limits.{systems, enforce_limits_within, enforce_limits_succeeds}
use ling_xi_agent.Context.Loss.{failed_update_loses, update_stored}

-- No message calls a tool.
abbrev no_calls : Value → ℕ
no_calls _ = 0

abbrev said : MessageRole → String → ChatMessage
said role t = record {
  role = role;
  content = text t;
  tool_calls = [];
  tool_call_id = none;
  name = none;
}

abbrev talk : List ChatMessage
talk = said system "be brief" ∷ said user "hello" ∷ said user "again" ∷ []

abbrev two_talks : Store
two_talks = ("ctx-1", talk) ∷ ("ctx-2", said user "other" ∷ []) ∷ []

text_ne : (s t : String) → (s == t) ≡ false → s ≢ t
text_ne s t h = ground (arith, eq_iff s t)

enforce_limits_within_example :
    (length (enforce_limits no_calls 2 100 trim_oldest talk).0 ≤ 2)
    × (estimate_tokens no_calls (enforce_limits no_calls 2 100 trim_oldest talk).0 ≤ 100)
    × (length (enforce_limits no_calls 2 100 trim_oldest talk).0 + 1 ≡ 3)
    × (systems (enforce_limits no_calls 2 100 trim_oldest talk).0 ≡ systems talk)
unfolding enforce_limits trim estimate_tokens remove_first char_count
enforce_limits_within_example = enforce_limits_within no_calls 2 100 trim_oldest talk 1 refl

enforce_limits_succeeds_example :
    ((n : ℕ) × ((enforce_limits no_calls 2 100 trim_oldest talk).1 ≡ ok n))
    ↔ ((length (systems talk) ≤ 2) × (estimate_tokens no_calls (systems talk) ≤ 100))
enforce_limits_succeeds_example = enforce_limits_succeeds no_calls 2 100 talk

-- a fourth message, where three are allowed
failed_update_loses_example :
    (lookup "ctx-1" (update no_calls "ctx-1" (said user "more" ∷ []) [] 3 100 error two_talks).0
      ≡ none)
    × (update no_calls "ctx-1"
          (said user "more" ∷ [])
          []
          3
          100
          error
          (update no_calls "ctx-1" (said user "more" ∷ []) [] 3 100 error two_talks).0
        ≡ (
          (update no_calls "ctx-1" (said user "more" ∷ []) [] 3 100 error two_talks).0,
          err context_unknown_handle,
        ))
unfolding update lookup push_all push_message enforce_limits trim estimate_tokens
failed_update_loses_example =
    failed_update_loses no_calls "ctx-1" (said user "more" ∷ []) [] 3 100 error two_talks
      context_overflow refl

update_stored_example :
    (lookup "ctx-1" (update no_calls "ctx-1" (said user "more" ∷ []) [] 4 100 error two_talks).0
      ≡ some
          (said system "be brief" ∷ said user "hello" ∷ said user "again" ∷ said user "more" ∷ []))
    × (lookup "ctx-2" (update no_calls "ctx-1" (said user "more" ∷ []) [] 4 100 error two_talks).0
        ≡ lookup "ctx-2" two_talks)
unfolding update lookup push_all push_message enforce_limits trim estimate_tokens snapshot_of
    char_count
update_stored_example =
    update_stored no_calls "ctx-1" "ctx-2" (said user "more" ∷ []) [] 4 100 error two_talks
      (snapshot_of no_calls "ctx-1"
        (said system "be brief" ∷ said user "hello" ∷ said user "again" ∷ said user "more" ∷ []) 0)
      refl (text_ne "ctx-1" "ctx-2" refl)

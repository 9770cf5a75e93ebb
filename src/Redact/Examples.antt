-- ===== src/Redact/Examples.antt =====
-- apps/desktop/src-tauri/src/redact.rs: a value with a password, and texts.
use ling_xi_agent.Prelude.{true, none, some, is_some, is_whitespace, ◌≡◌, refl}
use ling_xi_agent.Protocol.Json.{Value, string, object, array, no_fields, field, no_items, item}
use ling_xi_agent.Redact.Scan.{redacted}
use ling_xi_agent.Redact.Text.{redact_text}
use ling_xi_agent.Redact.Values.{redact_json}
use ling_xi_agent.Redact.Hidden.{hides, redact_json-hides}
use ling_xi_agent.Redact.Ends.{mentions}
use ling_xi_agent.Redact.Total.{redact_text-total}

abbrev login : Value
login = object (
    field "items" (array (item (object (field "Access-Token" (string "p") no_fields)) no_items))
      (field "note" (string "Bearer abcd.efgh") no_fields))

abbrev hidden_login : Value
hidden_login = object (
    field "items"
      (array (item (object (field "Access-Token" (string redacted) no_fields)) no_items))
      (field "note" (string "Bearer [REDACTED]") no_fields))

login_hidden : redact_json login ≡ some hidden_login
unfolding redact_json is_whitespace
login_hidden = refl

redact_json-hides_example : hides hidden_login ≡ true
redact_json-hides_example = redact_json-hides login hidden_login login_hidden

redact_text-total_example : is_some (redact_text "api_key = sk-0123456789abcdef") ≡ true
unfolding mentions
redact_text-total_example = redact_text-total "api_key = sk-0123456789abcdef" refl

key_test : redact_text "password=hunter22 ok" ≡ some "password=[REDACTED] ok"
unfolding redact_text is_whitespace
key_test = refl

bearer_test : redact_text "Bearer abcd.efgh" ≡ some "Bearer [REDACTED]"
unfolding redact_text is_whitespace
bearer_test = refl

-- the slice of `lower` ends in front of the index
panic_test : redact_text "see the notes on authorization: soon" ≡ none
unfolding redact_text is_whitespace
panic_test = refl

-- a key in quotes, as in the arguments of a tool
quoted_key_test : redact_text "{\"password\":\"hunter22\"}" ≡ some "{\"password\":\"hunter22\"}"
unfolding redact_text is_whitespace
quoted_key_test = refl

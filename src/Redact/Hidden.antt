-- ===== src/Redact/Hidden.antt =====
-- apps/desktop/src-tauri/src/redact.rs: what is left of a JSON value.
use ling_xi_agent.Prelude.{
  String, Bool, true, false, ◌&&◌, Bool-cases, Option, Option-cases, none, some, ◌≡◌, refl, subst,
  inl, inr, arith, ◌==◌, eq_iff, if◌then◌else◌,
}
use ling_xi_agent.Protocol.Json.{
  Value, null, bool, number, string, array, object, Fields, no_fields, field, Items, no_items, item,
}
use ling_xi_agent.Redact.Scan.{redacted}
use ling_xi_agent.Redact.Text.{redact_text}
use ling_xi_agent.Redact.Values.{
  is_sensitive_key, field_value, cons_field, cons_item, with_fields, with_items, with_string,
  redact_json, redact_items, redact_fields,
}

abbrev is_hidden : Value → Bool
is_hidden (string text) = text == redacted
is_hidden _ = false

-- Every field with a sensitive key, at every depth, is the text that stands for a secret.
unfoldable mutual
  unfolding is_sensitive_key

  pub hides : Value → Bool
  hides (object fields) = hides_fields fields
  hides (array items) = hides_items items
  hides value = true

  pub hides_items : Items → Bool
  hides_items no_items = true
  hides_items (item value rest) = hides value && hides_items rest

  pub hides_fields : Fields → Bool
  hides_fields no_fields = true
  hides_fields (field key value rest) =
      (if is_sensitive_key key then is_hidden value else hides value) && hides_fields rest

abbrev hides_in : Option Value → Bool
hides_in none = true
hides_in (some value) = hides value

abbrev hides_items_in : Option Items → Bool
hides_items_in none = true
hides_items_in (some items) = hides_items items

abbrev hides_fields_in : Option Fields → Bool
hides_fields_in none = true
hides_fields_in (some fields) = hides_fields fields

with_items-hides :
    (items : Option Items) → hides_items_in items ≡ true → hides_in (with_items items) ≡ true
unfolding hides
with_items-hides none e = refl
with_items-hides (some items) e = e

with_fields-hides :
    (fields : Option Fields) → hides_fields_in fields ≡ true → hides_in (with_fields fields) ≡ true
unfolding hides
with_fields-hides none e = refl
with_fields-hides (some entries) e = e

with_string-hides : (text : Option String) → hides_in (with_string text) ≡ true
unfolding hides
with_string-hides none = refl
with_string-hides (some text) = refl

cons_item-hides :
    (value : Option Value) (items : Option Items)
    → hides_in value ≡ true
    → hides_items_in items ≡ true
    → hides_items_in (cons_item value items) ≡ true
unfolding hides
cons_item-hides none items e h = refl
cons_item-hides (some value) none e h = refl
cons_item-hides (some value) (some items) e h = ground (arith, e, h)

cons_field-hides :
    (key : String) (value : Option Value) (fields : Option Fields)
    → hides_in value ≡ true
    → hides_fields_in fields ≡ true
    → hides_fields_in (cons_field key (field_value (is_sensitive_key key) value) fields) ≡ true
unfolding hides
cons_field-hides key value fields e h = elim (Bool-cases (is_sensitive_key key)) [
  | inl sensitive ↦ elim (Option-cases fields) [
    | inl absent ↦ rw (absent, sensitive) refl
    | inr (rest, found) ↦ ground (arith, sensitive, found, h, (eq_iff redacted redacted).1 refl)
  ]
  | inr plain ↦ elim (Option-cases value) [
    | inl panicked ↦ rw (plain, panicked) refl
    | inr (kept, at_value) ↦ elim (Option-cases fields) [
      | inl absent ↦ rw (plain, at_value, absent) refl
      | inr (rest, found) ↦ ground (arith, plain, at_value, found, e, h)
    ]
  ]
]

mutual
  unfolding redact_json hides

  json-hides : (value : Value) → hides_in (redact_json value) ≡ true
  json-hides (object fields) = with_fields-hides (redact_fields fields) (fields-hides fields)
  json-hides (array items) = with_items-hides (redact_items items) (items-hides items)
  json-hides (string text) = with_string-hides (redact_text text)
  json-hides null = refl
  json-hides (bool b) = refl
  json-hides (number n) = refl

  items-hides : (items : Items) → hides_items_in (redact_items items) ≡ true
  items-hides no_items = refl
  items-hides (item value rest) =
      cons_item-hides (redact_json value) (redact_items rest) (json-hides value) (items-hides rest)

  fields-hides : (fields : Fields) → hides_fields_in (redact_fields fields) ≡ true
  fields-hides no_fields = refl
  fields-hides (field key value rest) =
      cons_field-hides key (redact_json value) (redact_fields rest) (json-hides value)
        (fields-hides rest)

-- What `redact_json` leaves of a JSON value has `[REDACTED]` at every field whose key is sensitive, at
-- every depth.
pub redact_json-hides :
    (value redacted_value : Value)
    → redact_json value ≡ some redacted_value
    → hides redacted_value ≡ true
redact_json-hides value redacted_value e =
    subst (λ (o : Option Value). hides_in o ≡ true) e (json-hides value)

-- ===== src/Redact/Text.antt =====
-- apps/desktop/src-tauri/src/redact.rs: `redact_text`. A position of the text is what stands from there on,
-- with its index in bytes and the character in front of it; a span is the text up to a secret, the
-- secret, and the text behind it. The slices of the code are at positions of this kind, and cannot fail,
-- but for those of `scheme_rule`: the first takes the lower-cased rest at an index of the whole text, and
-- the second is behind a scheme that the first may have found elsewhere.
use Prim.Native.Char.{Char, code}
use Prim.Native.String.{String, [], ◌∷◌, ◌++◌}
use ling_xi_agent.Prelude.{
  ℕ, zero, suc, ◌+◌, ◌-◌, true, false, not, ◌&&◌, ◌||◌, Option, none, some, List, ltb, leb, nat_eq,
  is_whitespace, ◌==◌, if◌then◌else◌,
}
use ling_xi_agent.Redact.Scan.{
  redacted, is_one_of, char_bytes, bytes, chars, starts_with, starts_with_lower, cut, slice_from,
  span_while, is_blank_char, consume_token, boundary_before,
}

-- What a rule says: `next` leaves the position to the rules behind it.
pub data Verdict : Type 0 where
  next nothing panics : Verdict
  secret : String → String → String → Verdict

-- a secret of more bytes than a number
unfoldable pub if_longer : ℕ → String → String × String → Verdict → Verdict
unfolding bytes
if_longer least front (token, behind) otherwise =
    if ltb least (bytes token) then secret front token behind else otherwise

unfoldable pub bearer_rule : String → Verdict
unfolding starts_with_lower cut consume_token if_longer
bearer_rule text =
    let (front, value) = cut 7 text in
    if starts_with_lower text "bearer " then if_longer 3 front (consume_token value) next else next

unfoldable pub prefix_rule : Option Char → String → String → Verdict
unfolding starts_with_lower cut consume_token boundary_before bytes chars
prefix_rule before text prefix = elim (starts_with_lower text prefix && boundary_before before) [
  | false ↦ next
  | true ↦
      let (front, value) = cut (chars prefix) text in
      let (token, behind) = consume_token value in
      if leb 12 (bytes token) then secret [] (front ++ token) behind else next
]

-- The slice of `lower`, which starts at the position, is taken at the index in the whole text.
unfoldable pub scheme_rule : ℕ → String → String → String → String → Verdict
unfolding bytes chars slice_from starts_with starts_with_lower consume_token cut if_longer
scheme_rule index text front value scheme = elim (slice_from (index + bytes front) text) [
  | none ↦ panics
  | some tail ↦ elim (starts_with_lower tail scheme) [
    | false ↦ next
    | true ↦ elim (slice_from (bytes scheme) value) [
      | none ↦ panics
      | some token ↦ elim (starts_with token redacted) [
        | true ↦ nothing
        | false ↦
            if_longer 3 (front ++ (cut (chars value - chars token) value).0) (consume_token token)
              next
      ]
    ]
  ]
]

abbrev pub or_next : Verdict → Verdict → Verdict
or_next next other = other
or_next verdict other = verdict

unfoldable pub authorization_rule : ℕ → String → String → String → Verdict
unfolding scheme_rule span_while if_longer
authorization_rule index text front value = or_next (scheme_rule index text front value "bearer ") (
    or_next (scheme_rule index text front value "basic ")
      (if_longer 2 front (span_while (λ ch. not (is_one_of "\n\r" ch)) value) next))

-- the value up to the end of a word
unfoldable pub word_rule : String → String → Verdict
unfolding span_while if_longer is_whitespace
word_rule front value =
    if_longer 2 front (span_while (λ ch. not (is_whitespace ch || is_one_of ",;&}]\"'" ch)) value)
      next

-- the value in quotes
unfoldable pub quoted_rule : String → Char → String → Verdict
unfolding starts_with span_while if_longer
quoted_rule front quote inner = elim (starts_with inner redacted) [
  | true ↦ nothing
  | false ↦
      if_longer 2 (front ++ (quote ∷ []))
        (span_while (λ ch. not (nat_eq (code ch) (code quote))) inner) next
]

unfoldable pub value_rule : String → String → Verdict
unfolding word_rule quoted_rule
value_rule front [] = next
value_rule front (quote ∷ inner) = elim (is_one_of "\"'" quote) [
  | true ↦ quoted_rule front quote inner
  | false ↦ word_rule front (quote ∷ inner)
]

unfoldable pub key_value_rule : ℕ → String → String → String → String → Verdict
unfolding starts_with authorization_rule value_rule
key_value_rule index text key front value = elim (starts_with value redacted) [
  | true ↦ nothing
  | false ↦
      let by_value = value_rule front value in
      elim (key == "authorization") [
        | true ↦ or_next (authorization_rule index text front value) by_value
        | false ↦ by_value
      ]
]

-- what stands behind the key and the blanks after it
unfoldable pub separated_rule : ℕ → String → String → String → String → String → Verdict
unfolding span_while key_value_rule
separated_rule index text key name gap [] = next
separated_rule index text key name gap (separator ∷ behind) = elim (is_one_of "=:" separator) [
  | false ↦ next
  | true ↦
      let (blanks, value) = span_while is_blank_char behind in
      key_value_rule index text key (((name ++ gap) ++ (separator ∷ [])) ++ blanks) value
]

unfoldable pub key_rule : ℕ → Option Char → String → String → Verdict
unfolding starts_with_lower boundary_before cut chars span_while separated_rule
key_rule index before text key = elim (starts_with_lower text key && boundary_before before) [
  | false ↦ next
  | true ↦
      let (name, after_key) = cut (chars key) text in
      let (gap, separated) = span_while is_blank_char after_key in
      separated_rule index text key name gap separated
]

-- the rules for the entries of a list, in their order
unfoldable pub first_of : (String → Verdict) → List String → Verdict
first_of rule List.[] = next
first_of rule (List.◌∷◌ entry rest) = let later = first_of rule rest in or_next (rule entry) later

abbrev pub prefixes : List String
prefixes = List.◌∷◌ "sk-" (
    List.◌∷◌ "ghp_"
      (List.◌∷◌ "github_pat_" (List.◌∷◌ "xoxb-" (List.◌∷◌ "xoxp-" (List.◌∷◌ "akia" List.[])))))

abbrev pub secret_keys : List String
secret_keys = List.◌∷◌ "api_key" (
    List.◌∷◌ "apikey" (
      List.◌∷◌ "token" (
        List.◌∷◌ "api-key" (
          List.◌∷◌ "access_token" (
            List.◌∷◌ "auth_token" (
              List.◌∷◌ "client_secret"
                (List.◌∷◌ "password" (List.◌∷◌ "secret" (List.◌∷◌ "authorization" List.[])))))))))

unfoldable pub secret_span : ℕ → Option Char → String → Verdict
unfolding bearer_rule prefix_rule key_rule first_of
secret_span index before text = or_next (bearer_rule text) (
    or_next (first_of (prefix_rule before text) prefixes)
      (first_of (key_rule index before text) secret_keys))

abbrev pub last_char : Option Char → String → Option Char
last_char before [] = before
last_char before (c ∷ rest) = last_char (some c) rest

abbrev pub put_in_front : String → Option String → Option String
put_in_front text none = none
put_in_front text (some rest) = some (text ++ rest)

abbrev pub put_char : Char → Option String → Option String
put_char c none = none
put_char c (some rest) = some (c ∷ rest)

-- the round of the loop at a character: the rest is redacted as it stands, or behind a secret
unfoldable pub resume :
    Verdict → Char → Option String → (String → String → String → Option String) → Option String
resume panics c plain behind_secret = none
resume (secret front token behind) c plain behind_secret =
    put_in_front (front ++ redacted) (behind_secret front token behind)
resume next c plain behind_secret = put_char c plain
resume nothing c plain behind_secret = put_char c plain

-- The loop with a bound on its rounds: each round takes a character at least, so that the length of the
-- text is enough. There is no text when it panics.
unfoldable pub redact_from : ℕ → ℕ → Option Char → String → Option String
unfolding secret_span bytes resume
redact_from fuel index before [] = some []
redact_from zero index before (c ∷ rest) = none
redact_from (suc fuel) index before (c ∷ rest) =
    let plain = redact_from fuel (index + char_bytes c) (some c) rest in
    resume (secret_span index before (c ∷ rest)) c plain (λ front token behind.
      redact_from fuel (index + (bytes front + bytes token)) (last_char before (front ++ token))
        behind)

unfoldable pub redact_text : String → Option String
unfolding redact_from chars
redact_text input = redact_from (chars input) 0 none input

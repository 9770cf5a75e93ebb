-- ===== src/Redact/Fit.antt =====
-- apps/desktop/src-tauri/src/redact.rs: the rules of `secret_span` on a text without the word `authorization`.
use Prim.Native.Char.{Char, code}
use Prim.Native.String.{String, [], ◌∷◌, ◌++◌}
use ling_xi_agent.Prelude.{
  ℕ, suc, ◌≤◌, Bool, true, false, not, ◌&&◌, ◌||◌, Bool-cases, Option, List, ◌≡◌, refl, inl, inr,
  arith, ltb, leb, nat_eq, is_whitespace, ◌==◌,
}
use ling_xi_agent.Redact.Scan.{
  bytes, chars, redacted, starts_with, starts_with_lower, cut, span_while, consume_token,
  boundary_before, is_blank_char, is_one_of, is_alphanumeric,
}
use ling_xi_agent.Redact.Text.{
  Verdict, next, nothing, panics, secret, if_longer, bearer_rule, prefix_rule, key_rule,
  separated_rule, key_value_rule, value_rule, word_rule, quoted_rule, first_of, or_next, prefixes,
  secret_keys, secret_span,
}
use ling_xi_agent.Redact.Ends.{
  mentions, mentions-start, IsEndOf, IsEndOf-trans, tail_ends, cut-IsEndOf, span-IsEndOf,
}

-- What is left behind a secret is shorter, and mentions nothing.
unfoldable pub IsFit : String → Verdict → Type 0
IsFit text next = Unit {0}
IsFit text nothing = Unit {0}
IsFit text panics = true ≡ false
IsFit text (secret front token behind) =
    (mentions behind ≡ false) × (suc (chars behind) ≤ chars text)

next-IsFit : (text : String) → IsFit text next
unfolding IsFit
next-IsFit text = tt

or_next-IsFit :
    (text : String) (a b : Verdict) → IsFit text a → IsFit text b → IsFit text (or_next a b)
unfolding IsFit
or_next-IsFit text next b fit later = later
or_next-IsFit text nothing b fit later = tt
or_next-IsFit text panics b fit later = fit
or_next-IsFit text (secret _ _ _) b fit later = fit

first_true : (a b : Bool) → (a && b) ≡ true → a ≡ true
first_true true b e = refl
first_true false b e = e

module _ (text : String) (quiet : mentions text ≡ false) where
  if_longer-IsFit :
      (least : ℕ) (front : String) (test : Char → Bool) (value : String) (otherwise : Verdict)
      → IsEndOf text value
      → IsFit text otherwise
      → IsFit text (if_longer least front (span_while test value) otherwise)
  unfolding if_longer IsFit
  if_longer-IsFit least front test value otherwise ends fit =
      let (token, behind) = span_while test value in
      let (rest_ends, shorter) = span-IsEndOf test value in
      let behind_ends = IsEndOf-trans text value behind ends rest_ends in
      elim (Bool-cases (ltb least (bytes token))) [
        | inl long ↦
            let less = shorter (ground (arith, long)) in
            simp (if_longer, long) (behind_ends.0 quiet, omega (arith, less, ends.1))
        | inr short ↦ simp (if_longer, short) fit
      ]

  bearer-IsFit : IsFit text (bearer_rule text)
  unfolding bearer_rule consume_token IsFit
  bearer-IsFit = elim (Bool-cases (starts_with_lower text "bearer ")) [
    | inl e ↦
        simp (bearer_rule, e) (if_longer-IsFit 3 _ _ (cut 7 text).1 next (cut-IsEndOf 7 text) tt)
    | inr e ↦ simp (bearer_rule, e) tt
  ]

  prefix-IsFit :
      (before : Option Char) (prefix : String) → IsFit text (prefix_rule before text prefix)
  unfolding prefix_rule consume_token IsFit
  prefix-IsFit before prefix =
      elim (Bool-cases (starts_with_lower text prefix && boundary_before before)) [
        | inr e ↦ simp (prefix_rule, e) tt
        | inl e ↦
            let value = (cut (chars prefix) text).1 in
            let ends = cut-IsEndOf (chars prefix) text in
            let (rest_ends, shorter) =
              span-IsEndOf (λ ch. is_alphanumeric ch || is_one_of "-_.~+" ch) value in
            let (token, behind) = consume_token value in
            elim (Bool-cases (leb 12 (bytes token))) [
              | inr short ↦ simp (prefix_rule, e, short) tt
              | inl long ↦
                  let less = shorter (ground (arith, long)) in
                  simp (prefix_rule, e, long)
                    (
                      (IsEndOf-trans text value behind ends rest_ends).0 quiet,
                      omega (arith, less, ends.1),
                    )
            ]
      ]

  word-IsFit : (front value : String) → IsEndOf text value → IsFit text (word_rule front value)
  unfolding word_rule
  word-IsFit front value ends =
      if_longer-IsFit 2 front (λ ch. not (is_whitespace ch || is_one_of ",;&}]\"'" ch)) value next
        ends (next-IsFit text)

  quoted-IsFit :
      (front : String) (quote : Char) (inner : String)
      → IsEndOf text inner
      → IsFit text (quoted_rule front quote inner)
  unfolding quoted_rule IsFit
  quoted-IsFit front quote inner ends = elim (Bool-cases (starts_with inner redacted)) [
    | inl e ↦ simp (quoted_rule, e) tt
    | inr e ↦
        simp (quoted_rule, e)
          (if_longer-IsFit 2 (front ++ (quote ∷ [])) (λ ch. not (nat_eq (code ch) (code quote)))
            inner next ends tt)
  ]

  value-IsFit : (front value : String) → IsEndOf text value → IsFit text (value_rule front value)
  unfolding value_rule IsFit
  value-IsFit front [] ends = tt
  value-IsFit front (quote ∷ inner) ends = elim (Bool-cases (is_one_of "\"'" quote)) [
    | inr e ↦ rw (value_rule, e) (word-IsFit front (quote ∷ inner) ends)
    | inl e ↦
        rw (value_rule, e)
          (quoted-IsFit front quote inner
            (IsEndOf-trans text (quote ∷ inner) inner ends (tail_ends quote inner)))
  ]

  -- a key that is not `authorization`
  key_value-IsFit :
      (index : ℕ) (key front value : String)
      → (key == "authorization") ≡ false
      → IsEndOf text value
      → IsFit text (key_value_rule index text key front value)
  unfolding key_value_rule IsFit
  key_value-IsFit index key front value other ends =
      elim (Bool-cases (starts_with value redacted)) [
        | inl e ↦ simp (key_value_rule, e) tt
        | inr e ↦ simp (key_value_rule, e, other) (value-IsFit front value ends)
      ]

  separated-IsFit :
      (index : ℕ) (key name gap separated : String)
      → IsEndOf text separated
      → (key == "authorization") ≡ false
      → IsFit text (separated_rule index text key name gap separated)
  unfolding separated_rule IsFit
  separated-IsFit index key name gap [] ends other = tt
  separated-IsFit index key name gap (separator ∷ behind) ends other =
      elim (Bool-cases (is_one_of "=:" separator)) [
        | inr e ↦ simp (separated_rule, e) tt
        | inl e ↦
            let value = (span_while is_blank_char behind).1 in
            let behind_ends =
              IsEndOf-trans text (separator ∷ behind) behind ends (tail_ends separator behind) in
            let value_ends =
              IsEndOf-trans text behind value behind_ends (span-IsEndOf is_blank_char behind).0 in
            simp (separated_rule, e) (key_value-IsFit index key _ value other value_ends)
      ]

  key-IsFit :
      (index : ℕ) (before : Option Char) (key : String)
      → (starts_with_lower text key ≡ true → (key == "authorization") ≡ false)
      → IsFit text (key_rule index before text key)
  unfolding key_rule IsFit
  key-IsFit index before key other =
      elim (Bool-cases (starts_with_lower text key && boundary_before before)) [
        | inr e ↦ simp (key_rule, e) tt
        | inl e ↦
            let after_key = (cut (chars key) text).1 in
            let gap = span-IsEndOf is_blank_char after_key in
            let separated = (span_while is_blank_char after_key).1 in
            let ends =
              IsEndOf-trans text after_key separated (cut-IsEndOf (chars key) text) gap.0 in
            simp (key_rule, e)
              (separated-IsFit index key _ _ separated ends (other (first_true _ _ e)))
      ]

  prefixes-IsFit :
      (before : Option Char) (list : List String)
      → IsFit text (first_of (prefix_rule before text) list)
  unfolding first_of
  prefixes-IsFit before List.[] = next-IsFit text
  prefixes-IsFit before (List.◌∷◌ prefix rest) =
      or_next-IsFit text _ _ (prefix-IsFit before prefix) (prefixes-IsFit before rest)

  abbrev OtherKeys : List String → Type 0
  OtherKeys List.[] = Unit {0}
  OtherKeys (List.◌∷◌ key rest) =
      (starts_with_lower text key ≡ true → (key == "authorization") ≡ false) × OtherKeys rest

  keys-IsFit :
      (index : ℕ) (before : Option Char) (list : List String)
      → OtherKeys list
      → IsFit text (first_of (key_rule index before text) list)
  unfolding first_of
  keys-IsFit index before List.[] others = next-IsFit text
  keys-IsFit index before (List.◌∷◌ key rest) (other, others) =
      or_next-IsFit text _ _ (key-IsFit index before key other)
        (keys-IsFit index before rest others)

  no_authorization :
      starts_with_lower text "authorization" ≡ true → ("authorization" == "authorization") ≡ false
  no_authorization e = absurd (ground (arith, e, mentions-start text quiet))

  pub span-IsFit : (index : ℕ) (before : Option Char) → IsFit text (secret_span index before text)
  unfolding secret_span
  span-IsFit index before = or_next-IsFit text (bearer_rule text) _ bearer-IsFit (
      or_next-IsFit text _ _ (prefixes-IsFit before prefixes) (
        keys-IsFit index before secret_keys (
          (λ _. refl),
          (
            (λ _. refl),
            (
              (λ _. refl),
              (
                (λ _. refl),
                (
                  (λ _. refl),
                  (
                    (λ _. refl),
                    ((λ _. refl), ((λ _. refl), ((λ _. refl), (no_authorization, tt)))),
                  ),
                ),
              ),
            ),
          ),
        )))

-- ===== src/Redact/Total.antt =====
-- apps/desktop/src-tauri/src/redact.rs: `redact_text` ends, and panics at the key `authorization` only.
use Prim.Native.Char.{Char}
use Prim.Native.String.{String, [], ◌∷◌, ◌++◌}
use ling_xi_agent.Prelude.{
  ℕ, zero, suc, ◌+◌, ◌≤◌, true, false, Option, none, some, is_some, ◌≡◌, refl, arith,
}
use ling_xi_agent.Redact.Scan.{bytes, chars, char_bytes, redacted}
use ling_xi_agent.Redact.Text.{
  Verdict, next, nothing, panics, secret, secret_span, last_char, put_in_front, put_char, resume,
  redact_from, redact_text,
}
use ling_xi_agent.Redact.Ends.{mentions, mentions-rest}
use ling_xi_agent.Redact.Fit.{IsFit, span-IsFit}

put-total :
    (c : Char) (plain : Option String) → is_some plain ≡ true → is_some (put_char c plain) ≡ true
put-total c none e = e
put-total c (some rest) e = refl

front-total :
    (front : String) (rest : Option String)
    → is_some rest ≡ true
    → is_some (put_in_front front rest) ≡ true
front-total front none e = e
front-total front (some rest) e = refl

resume-total :
    (verdict : Verdict) (text : String) (c : Char) (plain : Option String)
    (behind_secret : String → String → String → Option String)
    → IsFit text verdict
    → is_some plain ≡ true
    → ((front token behind : String)
        → mentions behind ≡ false
        → suc (chars behind) ≤ chars text
        → is_some (behind_secret front token behind) ≡ true)
    → is_some (resume verdict c plain behind_secret) ≡ true
unfolding resume IsFit
resume-total next text c plain k fit ok later = put-total c plain ok
resume-total nothing text c plain k fit ok later = put-total c plain ok
resume-total panics text c plain k fit ok later = absurd (ground (arith, fit))
resume-total (secret front token behind) text c plain k fit ok later =
    front-total (front ++ redacted) (k front token behind) (later front token behind fit.0 fit.1)

redact_from-total :
    (fuel index : ℕ) (before : Option Char) (text : String)
    → chars text ≤ fuel
    → mentions text ≡ false
    → is_some (redact_from fuel index before text) ≡ true
unfolding redact_from chars
redact_from-total fuel index before [] enough quiet = refl
redact_from-total zero index before (c ∷ rest) enough quiet = absurd (omega (arith, enough))
redact_from-total (suc fuel) index before (c ∷ rest) enough quiet =
    resume-total (secret_span index before (c ∷ rest)) (c ∷ rest) c _ _
      (span-IsFit (c ∷ rest) quiet index before)
      (redact_from-total fuel (index + char_bytes c) (some c) rest (omega (arith, enough))
        (mentions-rest c rest quiet))
      (λ front token behind unmentioned less.
        redact_from-total fuel (index + (bytes front + bytes token))
          (last_char before (front ++ token)) behind (omega (arith, enough, less)) unmentioned)

-- If the word "authorization" stands nowhere in a text, in lower or upper case, then `redact_text`
-- returns a text: its loop ends within as many rounds as the text has characters, and the slices of
-- `scheme_rule`, which can fail in the model, do not panic.
pub redact_text-total : (text : String) → mentions text ≡ false → is_some (redact_text text) ≡ true
unfolding redact_text
redact_text-total text quiet = redact_from-total (chars text) 0 none text (omega arith) quiet

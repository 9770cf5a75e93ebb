-- ===== src/Redact/Ends.antt =====
-- apps/desktop/src-tauri/src/redact.rs: the ends of a text that does not mention `authorization`.
use Prim.Native.Char.{Char}
use Prim.Native.String.{String, [], ◌∷◌}
use ling_xi_agent.Prelude.{
  ℕ, zero, suc, ◌≤◌, Bool, true, false, ◌||◌, Bool-cases, ◌≡◌, refl, inl, inr, arith,
}
use ling_xi_agent.Redact.Scan.{bytes, chars, starts_with_lower, cut, span_while}

-- the word stands somewhere in the text, in lower or upper case
unfoldable pub mentions : String → Bool
unfolding starts_with_lower
mentions [] = false
mentions (c ∷ rest) =
    let later = mentions rest in starts_with_lower (c ∷ rest) "authorization" || later

pub mentions-rest : (c : Char) (rest : String) → mentions (c ∷ rest) ≡ false → mentions rest ≡ false
unfolding mentions
mentions-rest c rest e = second (starts_with_lower (c ∷ rest) "authorization") (mentions rest) e
  where
    second : (a b : Bool) → (a || b) ≡ false → b ≡ false
    second true b e = absurd (ground (arith, e))
    second false b e = e

pub mentions-start :
    (text : String) → mentions text ≡ false → starts_with_lower text "authorization" ≡ false
unfolding mentions starts_with_lower
mentions-start [] e = refl
mentions-start (c ∷ rest) e = first (starts_with_lower (c ∷ rest) "authorization") (mentions rest) e
  where
    first : (a b : Bool) → (a || b) ≡ false → a ≡ false
    first true b e = e
    first false b e = refl

-- a part at the end of a text
abbrev pub IsEndOf : String → String → Type 0
IsEndOf text behind =
    (mentions text ≡ false → mentions behind ≡ false) × (chars behind ≤ chars text)

pub cut-IsEndOf : (n : ℕ) (text : String) → IsEndOf text (cut n text).1
unfolding cut chars
cut-IsEndOf zero text = ((λ e. e), omega arith)
cut-IsEndOf (suc n) [] = ((λ e. e), omega arith)
cut-IsEndOf (suc n) (c ∷ rest) =
    let (quiet, shorter) = cut-IsEndOf n rest in
    ((λ e. quiet (mentions-rest c rest e)), omega (arith, shorter))

pub span-IsEndOf :
    (test : Char → Bool) (text : String)
    → IsEndOf text (span_while test text).1
      × ((1 ≤ bytes (span_while test text).0) → suc (chars (span_while test text).1) ≤ chars text)
unfolding span_while chars bytes
span-IsEndOf test [] = (((λ e. e), omega arith), (λ h. absurd (omega (arith, h))))
span-IsEndOf test (c ∷ rest) =
    let ((quiet, shorter), _) = span-IsEndOf test rest in
    elim (Bool-cases (test c)) [
      | inl holds ↦
          simp (span_while, holds)
            (
              ((λ e. quiet (mentions-rest c rest e)), omega (arith, shorter)),
              (λ _. omega (arith, shorter)),
            )
      | inr fails ↦
          simp (span_while, fails) (((λ e. e), omega arith), (λ h. absurd (omega (arith, h))))
    ]

pub IsEndOf-trans :
    (text middle behind : String)
    → IsEndOf text middle
    → IsEndOf middle behind
    → IsEndOf text behind
IsEndOf-trans text middle behind (quiet, short) (quieter, shorter) =
    ((λ e. quieter (quiet e)), omega (arith, short, shorter))

pub tail_ends : (c : Char) (rest : String) → IsEndOf (c ∷ rest) rest
unfolding chars
tail_ends c rest = (mentions-rest c rest, omega arith)

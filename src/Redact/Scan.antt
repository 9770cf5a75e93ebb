-- ===== src/Redact/Scan.antt =====
-- apps/desktop/src-tauri/src/redact.rs: characters, slices and tokens of texts.
use Prim.Native.Char.{Char, code}
use Prim.Native.String.{String, [], ◌∷◌}
use ling_xi_agent.Prelude.{
  ℕ, zero, suc, ◌+◌, ◌-◌, Bool, true, false, not, ◌&&◌, ◌||◌, Option, none, some, leb, nat_eq,
  if◌then◌else◌,
}

abbrev pub redacted : String
redacted = "[REDACTED]"

abbrev pub code_in : ℕ → ℕ → Char → Bool
code_in low high ch = leb low (code ch) && leb (code ch) high

unfoldable pub is_alphanumeric : Char → Bool
is_alphanumeric ch = code_in 48 57 ch || (code_in 65 90 ch || code_in 97 122 ch)

-- `to_ascii_lowercase`, as a code point
abbrev pub lower_code : Char → ℕ
lower_code ch = if code_in 65 90 ch then code ch + 32 else code ch

abbrev pub is_one_of : String → Char → Bool
is_one_of [] ch = false
is_one_of (c ∷ rest) ch = nat_eq (code c) (code ch) || is_one_of rest ch

-- `len_utf8`
abbrev pub char_bytes : Char → ℕ
char_bytes ch =
    let c = code ch in
    if leb c 0x7f then 1 else if leb c 0x7ff then 2 else if leb c 0xffff then 3 else 4

unfoldable pub bytes : String → ℕ
bytes [] = 0
bytes (c ∷ rest) = char_bytes c + bytes rest

-- `chars().count()`
unfoldable pub chars : String → ℕ
chars [] = 0
chars (c ∷ rest) = suc (chars rest)

unfoldable pub starts_with : String → String → Bool
starts_with text [] = true
starts_with [] (k ∷ key) = false
starts_with (c ∷ rest) (k ∷ key) = nat_eq (code c) (code k) && starts_with rest key

-- `lower.starts_with(key)`
unfoldable pub starts_with_lower : String → String → Bool
starts_with_lower text [] = true
starts_with_lower [] (k ∷ key) = false
starts_with_lower (c ∷ rest) (k ∷ key) =
    nat_eq (lower_code c) (code k) && starts_with_lower rest key

-- the text in front of a number of characters, and behind it
unfoldable pub cut : ℕ → String → String × String
cut zero text = ([], text)
cut (suc n) [] = ([], [])
cut (suc n) (c ∷ rest) = let (front, behind) = cut n rest in (c ∷ front, behind)

-- `&text[n..]`, which panics behind the end, or within a character
unfoldable pub slice_from : ℕ → String → Option String
slice_from zero text = some text
slice_from (suc n) [] = none
slice_from (suc n) (c ∷ rest) = elim (leb (char_bytes c) (suc n)) [
  | true ↦ slice_from (suc n - char_bytes c) rest
  | false ↦ none
]

-- the characters as long as a test holds, and what follows
unfoldable pub span_while : (Char → Bool) → String → String × String
span_while test [] = ([], [])
span_while test (c ∷ rest) =
    let (front, behind) = span_while test rest in
    if test c then (c ∷ front, behind) else ([], c ∷ rest)

abbrev pub is_blank_char : Char → Bool
is_blank_char = is_one_of " \t"

unfoldable pub consume_token : String → String × String
unfolding is_alphanumeric span_while
consume_token = span_while (λ ch. is_alphanumeric ch || is_one_of "-_.~+" ch)

unfoldable pub boundary_before : Option Char → Bool
unfolding is_alphanumeric
boundary_before none = true
boundary_before (some ch) = not (is_alphanumeric ch) && not (is_one_of "_-" ch)

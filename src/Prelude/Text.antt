-- ===== src/Prelude/Text.antt =====
-- The functions of `str` that the program uses, on the native texts.
use Prim.Native.Nat.{ℕ, zero, suc, ◌/◌, ◌%◌}
use Prim.Native.Char.{Char, code}
use Prim.Native.String.{String, [], ◌∷◌, ◌++◌}
use mathlib.Core.Path.{◌≡◌, refl}
use mathlib.Core.Bool.{Bool, true, false, ◌&&◌, ◌||◌}
use mathlib.Core.List.{List}
use text.Mathlib.Text.{◌==◌, find?}
use ling_xi_agent.Prelude.Tests.{leb, nat_eq, is_some, if◌then◌else◌}

-- `char::is_whitespace`: the code points with the property White_Space
unfoldable pub is_whitespace : Char → Bool
is_whitespace ch =
    let c = code ch in
    (leb 0x9 c && leb c 0xd)
    || nat_eq c 0x20
    || nat_eq c 0x85
    || nat_eq c 0xa0
    || nat_eq c 0x1680
    || (leb 0x2000 c && leb c 0x200a)
    || nat_eq c 0x2028
    || nat_eq c 0x2029
    || nat_eq c 0x202f
    || nat_eq c 0x205f
    || nat_eq c 0x3000

-- `text.trim().is_empty()`
unfoldable pub is_blank : String → Bool
unfolding is_whitespace
is_blank [] = true
is_blank (c ∷ s) = is_whitespace c && is_blank s

-- The word in front of the first separator, and what follows: `split` by a test on characters.
unfoldable pub split_from : (Char → Bool) → String → String → List String
split_from sep word [] = List.◌∷◌ word List.[]
split_from sep word (c ∷ s) = elim (sep c) [
  | true ↦ List.◌∷◌ word (split_from sep [] s)
  | false ↦ split_from sep (word ++ (c ∷ [])) s
]

unfoldable pub non_empty : List String → List String
non_empty List.[] = List.[]
non_empty (List.◌∷◌ w ws) = let rest = non_empty ws in if w == "" then rest else List.◌∷◌ w rest

-- `text.split_whitespace()`
unfoldable pub split_whitespace : String → List String
unfolding split_from non_empty is_whitespace
split_whitespace s = non_empty (split_from is_whitespace [] s)

-- `text.trim()`: both ends
unfoldable pub trim_start : String → String
unfolding is_whitespace
trim_start [] = []
trim_start (c ∷ s) = elim (is_whitespace c) [ true ↦ trim_start s | false ↦ c ∷ s ]

unfoldable pub trim_end : String → String
unfolding is_whitespace is_blank
trim_end [] = []
trim_end (c ∷ s) = elim (is_blank (c ∷ s)) [ true ↦ [] | false ↦ c ∷ trim_end s ]

unfoldable pub trim : String → String
unfolding trim_start trim_end
trim s = trim_end (trim_start s)

-- `text.contains(pattern)`
unfoldable pub contains : String → String → Bool
contains s pattern = is_some (find? s pattern)

digit : ℕ → String
digit d =
    if nat_eq d 0
    then "0"
    else if nat_eq d 1
    then "1"
    else if nat_eq d 2
    then "2"
    else if nat_eq d 3
    then "3"
    else if nat_eq d 4
    then "4"
    else if nat_eq d 5
    then "5"
    else if nat_eq d 6
    then "6"
    else if nat_eq d 7
    then "7"
    else if nat_eq d 8
    then "8"
    else "9"

-- A number has fewer digits than its value plus one, so that fuel is enough.
decimal_from : ℕ → ℕ → String
unfolding digit
decimal_from zero n = ""
decimal_from (suc fuel) n =
    let higher = decimal_from fuel (n / 10) in if leb n 9 then digit n else higher ++ digit (n % 10)

-- `format!("{n}")`
unfoldable pub decimal : ℕ → String
unfolding decimal_from
decimal n = decimal_from (suc n) n

decimal_test : decimal 4096 ≡ "4096"
unfolding decimal
decimal_test = refl

trim_test : trim "  a b\t" ≡ "a b"
unfolding trim
trim_test = refl

split_test :
    split_whitespace " cargo  test\n--all"
    ≡ List.◌∷◌ "cargo" (List.◌∷◌ "test" (List.◌∷◌ "--all" List.[]))
unfolding split_whitespace
split_test = refl

contains_test : contains "src/.env.local" ".env" ≡ true
unfolding contains
contains_test = refl

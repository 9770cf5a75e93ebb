-- ===== src/Validation/Paths.antt =====
-- crates/lingxi-spec/src/validation.rs: the paths of issues.
use Prim.Native.String.{String, ◌++◌}
use ling_xi_agent.Prelude.{ℕ, List, [], ◌∷◌, ◌==◌, decimal, if◌then◌else◌}

-- texts put together, as `format!` does
abbrev pub text_of : List String → String
text_of [] = ""
text_of (part ∷ rest) = part ++ text_of rest

unfoldable pub join_path : String → String → String
join_path prefix suffix = if prefix == "" then suffix else text_of (prefix ∷ "." ∷ suffix ∷ [])

-- `{name}[{index}]`
unfoldable pub indexed : String → ℕ → String
unfolding decimal
indexed name index = text_of (name ∷ "[" ∷ decimal index ∷ "]" ∷ [])

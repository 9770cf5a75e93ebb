-- ===== src/Permissions/Targets.antt =====
-- crates/lingxi-runtime/src/permissions.rs: `safe_relative`, and the parts of `std::path` that it reads.
-- The paths are those of Unix, where `/` alone separates and there are no prefixes.
use Prim.Native.Char.{code}
use mathlib.Core.List.{get_last?}
use ling_xi_agent.Prelude.{
  String, Bool, true, false, not, ◌&&◌, ◌||◌, Option, none, some, List, [], ◌∷◌, ◌++◌, all, nat_eq,
  ◌==◌, ◌≡◌, refl, is_blank, split_from, contains, if◌then◌else◌,
}

-- `std::path::Component` without `Prefix`, which Unix paths do not have
pub data Component : Type 0 where
  root_dir cur_dir parent_dir : Component
  normal : String → Component

-- `Path::is_absolute`
unfoldable pub is_absolute : String → Bool
is_absolute String.[] = false
is_absolute (String.◌∷◌ c s) = nat_eq (code c) b'/'

-- a piece between two slashes that is not the first
piece : String → List Component
piece word =
    if word == "" || word == "."
    then []
    else if word == ".."
    then parent_dir ∷ []
    else normal word ∷ []

pieces : List String → List Component
unfolding piece
pieces [] = []
pieces (word ∷ words) = piece word ++ pieces words

-- A path that begins with `.` keeps it.
relative : List String → List Component
unfolding pieces
relative [] = []
relative (word ∷ words) = if word == "." then cur_dir ∷ pieces words else pieces (word ∷ words)

-- `Path::components`
unfoldable pub components : String → List Component
unfolding is_absolute pieces relative split_from
components path =
    let words = split_from (λ c. nat_eq (code c) b'/') "" path in
    if is_absolute path then root_dir ∷ pieces words else relative words

abbrev pub is_escape : Component → Bool
is_escape root_dir = true
is_escape parent_dir = true
is_escape _ = false

abbrev name_of : Option Component → Option String
name_of (some (normal name)) = some name
name_of _ = none

-- `Path::file_name`
unfoldable pub file_name : String → Option String
unfolding components
file_name path = name_of (get_last? (components path))

unfoldable pub safe_relative : String → Bool
unfolding components is_absolute is_blank contains
safe_relative target =
    not (is_blank target)
    && not (is_absolute target)
    && not (contains target "\0")
    && all (λ component. not (is_escape component)) (components target)

components_test :
    components "./src//a/../lib.rs"
    ≡ cur_dir ∷ normal "src" ∷ normal "a" ∷ parent_dir ∷ normal "lib.rs" ∷ []
unfolding components
components_test = refl

file_name_test : file_name "/usr/bin/cargo" ≡ some "cargo"
unfolding file_name
file_name_test = refl

-- ===== src/Permissions/Resolution.antt =====
-- What `safe_relative` promises: a target that it accepts stays below the folder that it is joined
-- to, however the path is resolved step by step.
use ling_xi_agent.Prelude.{String, true, not, ◌≡◌, refl, List, [], ◌∷◌, ◌++◌, all, arith}
use ling_xi_agent.Permissions.Targets.{
  Component, root_dir, cur_dir, parent_dir, normal, is_escape, components, safe_relative,
}

-- The names from the file system's root down to a place; the last name stands first, so that a step
-- works on the head.
abbrev pub Place : Type 0
Place = List String

-- One step of lexical resolution. `..` at the root stays there.
unfoldable pub walk : Place → List Component → Place
walk place [] = place
walk place (root_dir ∷ rest) = walk [] rest
walk place (cur_dir ∷ rest) = walk place rest
walk [] (parent_dir ∷ rest) = walk [] rest
walk (_ ∷ above) (parent_dir ∷ rest) = walk above rest
walk place (normal name ∷ rest) = walk (name ∷ place) rest

abbrev pub Below : Place → Place → Type 0
Below base place = (names : List String) × (place ≡ names ++ base)

walk-Below :
    (base names : Place) (steps : List Component)
    → all (λ c. not (is_escape c)) steps ≡ true
    → Below base (walk (names ++ base) steps)
unfolding walk
walk-Below base names [] h = (names, refl)
walk-Below base names (root_dir ∷ rest) h = ground arith
walk-Below base names (cur_dir ∷ rest) h = walk-Below base names rest h
walk-Below base names (parent_dir ∷ rest) h = ground arith
walk-Below base names (normal name ∷ rest) h = walk-Below base (name ∷ names) rest h

-- A target that `safe_relative` accepts is resolved, from any folder, to a place in or below that
-- folder: it never climbs out by `..` and never restarts at the root.
pub safe_relative-Below :
    (base : Place) (target : String)
    → safe_relative target ≡ true
    → Below base (walk base (components target))
unfolding safe_relative
safe_relative-Below base target h = walk-Below base [] (components target) (ground arith)

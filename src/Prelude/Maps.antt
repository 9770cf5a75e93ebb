-- ===== src/Prelude/Maps.antt =====
-- `BTreeMap<String, V>` and `HashMap<String, V>` of the standard library: an association list that
-- `insert` keeps in the order of the keys, which is the order in which a `BTreeMap` is iterated.
-- The program never observes the order of a `HashMap`.
use Prim.Native.String.{String, compare}
use mathlib.Core.Path.{◌≡◌, refl}
use mathlib.Core.Bool.{Bool}
use mathlib.Core.List.{List, [], ◌∷◌, map}
use mathlib.Core.Option
use mathlib.Core.Option.{Option, none, some}
use native.Mathlib.Omega.{arith}
use text.Mathlib.Text.{◌==◌, is_lt}
use text.Mathlib.TextEquality.{eq_iff}
use ling_xi_agent.Prelude.Tests.{if◌then◌else◌, is_some}

abbrev pub Dict {ℓ} : Type ℓ → Type ℓ
Dict V = List (String × V)

module _ {ℓ} {V : Type ℓ} where
  unfoldable pub lookup : String → Dict V → Option V
  lookup k [] = none
  lookup k ((j, v) ∷ m) = if j == k then some v else lookup k m

  abbrev pub contains_key : String → Dict V → Bool
  contains_key k m = is_some (lookup k m)

  abbrev pub keys : Dict V → List String
  keys m = map (λ e. e.0) m

  abbrev pub values : Dict V → List V
  values m = map (λ e. e.1) m

  unfoldable pub insert : String → V → Dict V → Dict V
  insert k v [] = (k, v) ∷ []
  insert k v ((j, w) ∷ m) =
      if j == k
      then (k, v) ∷ m
      else if is_lt (compare k j)
      then (k, v) ∷ (j, w) ∷ m
      else (j, w) ∷ insert k v m

  unfoldable pub remove : String → Dict V → Dict V
  remove k [] = []
  remove k ((j, v) ∷ m) = let rest = remove k m in if j == k then rest else (j, v) ∷ rest

  -- `retain(|key, _| keep(key))`
  unfoldable pub retain : (String → Bool) → Dict V → Dict V
  retain keep [] = []
  retain keep ((j, v) ∷ m) = let rest = retain keep m in if keep j then (j, v) ∷ rest else rest

  -- `if let Some(value) = map.get_mut(key) { *value = f(*value) }`
  unfoldable pub adjust : String → (V → V) → Dict V → Dict V
  adjust k f [] = []
  adjust k f ((j, v) ∷ m) = if j == k then (j, f v) ∷ m else (j, v) ∷ adjust k f m

  -- `map.entry(key).or_insert(value)`
  unfoldable pub insert_new : String → V → Dict V → Dict V
  insert_new k v m = if contains_key k m then m else insert k v m

  pub lookup-insert :
      (key other : String) (value : V) (entries : Dict V)
      → lookup other (insert key value entries)
        ≡ (if key == other then some value else lookup other entries)
  unfolding insert lookup
  lookup-insert key other value [] = refl
  lookup-insert key other value ((first, w) ∷ rest) = ground (
    arith,
    lookup-insert key other value rest,
    eq_iff first key,
    eq_iff first other,
    eq_iff key other,
  )

  pub lookup-remove :
      (k j : String) (m : Dict V) → lookup j (remove k m) ≡ (if k == j then none else lookup j m)
  unfolding lookup remove
  lookup-remove k j [] = ground arith
  lookup-remove k j ((i, w) ∷ m) =
      ground (arith, eq_iff k j, eq_iff i k, eq_iff i j, lookup-remove k j m)

  pub lookup-retain :
      (keep : String → Bool) (j : String) (m : Dict V)
      → lookup j (retain keep m) ≡ (if keep j then lookup j m else none)
  unfolding lookup retain
  lookup-retain keep j [] = ground arith
  lookup-retain keep j ((i, w) ∷ m) = ground (arith, eq_iff i j, lookup-retain keep j m)

  pub lookup-adjust :
      (k j : String) (f : V → V) (m : Dict V)
      → lookup j (adjust k f m) ≡ (if k == j then Option.map f (lookup j m) else lookup j m)
  unfolding lookup adjust
  lookup-adjust k j f [] = ground arith
  lookup-adjust k j f ((i, w) ∷ m) =
      ground (arith, eq_iff k j, eq_iff i k, eq_iff i j, lookup-adjust k j f m)

  pub lookup-insert_new :
      (k j : String) (v : V) (m : Dict V)
      → lookup j (insert_new k v m)
        ≡ (if k == j then (if contains_key k m then lookup k m else some v) else lookup j m)
  unfolding insert_new
  lookup-insert_new k j v m = ground (arith, eq_iff k j, lookup-insert k j v m)

pub ruleset dict_laws = (lookup-insert, lookup-remove, lookup-retain, lookup-adjust)

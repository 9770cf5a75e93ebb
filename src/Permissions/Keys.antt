-- ===== src/Permissions/Keys.antt =====
-- The keys of the caches are texts joined by the unit separator. Clearing by a prefix hits the keys
-- of one run, and no key of another run whose id has no separator.
use Prim.Native.Char.{Char, code}
use Prim.Native.String.{[], ◌∷◌, ◌++◌}
use mathlib.Core.Path.{ap₂}
use text.Mathlib.Text.{starts_with}
use text.Mathlib.TextEquality.{starts_with_iff}
use text.Mathlib.TextLemmas.{append_assoc, cons-eq-cons, nil-append, cons-append}
use text.Mathlib.TextPositions.{starts_with-append}
use ling_xi_agent.Prelude.{String, true, false, ◌≡◌, refl, ◌≢◌, sym, ap, ◌∙◌, Bool-cases, inl, inr}
use ling_xi_agent.Permissions.Policy.{
  PermissionClass, run_prefix, node_prefix, mode_key, approval_key,
}

pub approval_key-starts_with :
    (run_id node_id : String) (class : PermissionClass) (target : String)
    → starts_with (approval_key run_id node_id class target) (run_prefix run_id) ≡ true
unfolding approval_key
approval_key-starts_with run_id node_id class target =
    rw append_assoc (starts_with-append (run_prefix run_id) _)

pub approval_key-node :
    (run_id node_id : String) (class : PermissionClass) (target : String)
    → starts_with (approval_key run_id node_id class target) (node_prefix run_id node_id) ≡ true
unfolding approval_key
approval_key-node run_id node_id class target = starts_with-append (node_prefix run_id node_id) _

pub mode_key-starts_with :
    (run_id node_id : String) → starts_with (mode_key run_id node_id) (run_prefix run_id) ≡ true
unfolding mode_key
mode_key-starts_with run_id node_id = starts_with-append (run_prefix run_id) node_id

-- The id holds no unit separator.
abbrev pub IsPlain : String → Type 0
IsPlain [] = Unit
IsPlain (c ∷ s) = (code c ≢ 0x1f) × IsPlain s

separator : Char
separator = "\u{1f}"

-- Of two ids with no separator, each with something behind a separator, the ids agree if the wholes
-- do.
separator_inj :
    (a b x y : String)
    → IsPlain a
    → IsPlain b
    → ◌≡◌ {A = String} (a ++ (separator ∷ x)) (b ++ (separator ∷ y))
    → a ≡ b
unfolding separator
separator_inj [] [] x y pa pb e = refl
separator_inj [] (c ∷ b) x y pa pb e =
    absurd (pb.0 (ap code (sym (cons-eq-cons.0 (sym (nil-append _) ∙ e ∙ cons-append c b _)).0)))
separator_inj (c ∷ a) [] x y pa pb e =
    absurd (pa.0 (ap code (cons-eq-cons.0 (sym (cons-append c a _) ∙ e ∙ nil-append _)).0))
separator_inj (c ∷ a) (d ∷ b) x y pa pb e =
    let (heads, tails) = cons-eq-cons.0 (sym (cons-append c a _) ∙ e ∙ cons-append d b _) in
    ap₂ (λ (h : Char) (t : String). h ∷ t) heads (separator_inj a b x y pa.1 pb.1 tails)

separator-append : (x : String) → ◌≡◌ {A = String} ("\u{1f}" ++ x) (separator ∷ x)
unfolding separator
separator-append x = cons-append "\u{1f}" [] x ∙ ap (λ (t : String). "\u{1f}" ∷ t) (nil-append x)

regroup :
    (run rest : String) → ◌≡◌ {A = String} (run_prefix run ++ rest) (run ++ (separator ∷ rest))
unfolding run_prefix
regroup run rest = append_assoc run _ rest ∙ ap (λ (t : String). run ++ t) (separator-append rest)

-- A key of one run does not begin with the prefix of another.
pub run_prefix-starts_with :
    (run other rest : String)
    → IsPlain run
    → IsPlain other
    → run ≢ other
    → starts_with (run_prefix other ++ rest) (run_prefix run) ≡ false
unfolding run_prefix
run_prefix-starts_with run other rest pr po ne =
    elim (Bool-cases (starts_with (run_prefix other ++ rest) (run_prefix run))) [
      | inl hit ↦
          let (tail, e) = (starts_with_iff (run_prefix other ++ rest) (run_prefix run)).0 hit in
          absurd (
            ne (
              separator_inj run other tail rest pr po
                (sym (regroup run tail) ∙ e ∙ regroup other rest)))
      | inr miss ↦ miss
    ]

pub approval_key-starts_with_other :
    (run other node_id : String) (class : PermissionClass) (target : String)
    → IsPlain run
    → IsPlain other
    → run ≢ other
    → starts_with (approval_key other node_id class target) (run_prefix run) ≡ false
unfolding approval_key
approval_key-starts_with_other run other node_id class target pr po ne =
    rw append_assoc (run_prefix-starts_with run other _ pr po ne)

pub mode_key-starts_with_other :
    (run other node_id : String)
    → IsPlain run
    → IsPlain other
    → run ≢ other
    → starts_with (mode_key other node_id) (run_prefix run) ≡ false
unfolding mode_key
mode_key-starts_with_other run other node_id pr po ne =
    run_prefix-starts_with run other node_id pr po ne

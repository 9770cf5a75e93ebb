-- ===== src/Engine/Counts.antt =====
-- crates/lingxi-runtime/src/engine.rs: counting the edges that `execution_order` has not released yet.
use ling_xi_agent.Prelude.{
  ℕ, zero, suc, ◌+◌, ◌-◌, List, [], ◌∷◌, ◌++◌, ◌≡◌, arith, nat_eq, if◌then◌else◌,
}
use ling_xi_agent.Flow.State.{at}
use ling_xi_agent.Engine.Order.{targets_of, lower, push}

-- how often a number stands in a list
unfoldable pub occ : ℕ → List ℕ → ℕ
occ i [] = 0
occ i (j ∷ rest) = (if nat_eq j i then 1 else 0) + occ i rest

-- the edges into a node whose sources are not in the order yet
unfoldable pub remaining : ℕ → List (ℕ × ℕ) → List ℕ → ℕ
unfolding occ
remaining t [] order = 0
remaining t ((a, b) ∷ rest) order =
    (if nat_eq b t then (if nat_eq (occ a order) 0 then 1 else 0) else 0) + remaining t rest order

pub occ-append :
    (i j : ℕ) (list : List ℕ) → occ i (list ++ j ∷ []) ≡ occ i list + (if nat_eq j i then 1 else 0)
unfolding occ
occ-append i j [] = ground arith
occ-append i j (k ∷ rest) = ground (arith, occ-append i j rest)

pub occ-push :
    (i j : ℕ) (list : List ℕ) → occ i (push j list) ≡ occ i list + (if nat_eq j i then 1 else 0)
unfolding occ push
occ-push i j [] = ground arith
occ-push i j (k ∷ rest) = ground (arith, occ-push i j rest)

pub at-lower :
    (i j : ℕ) (counts : List ℕ)
    → at (lower j counts) i ≡ (if nat_eq j i then at counts i - 1 else at counts i)
unfolding lower
at-lower i j [] = ground arith
at-lower zero zero (n ∷ rest) = ground arith
at-lower (suc i) zero (n ∷ rest) = ground arith
at-lower zero (suc j) (n ∷ rest) = ground arith
at-lower (suc i) (suc j) (n ∷ rest) = ground (arith, at-lower i j rest)

-- taking a node releases its edges
pub remaining-append :
    (t v : ℕ) (pairs : List (ℕ × ℕ)) (order : List ℕ)
    → occ v order ≡ 0
    → remaining t pairs (order ++ v ∷ []) + occ t (targets_of v pairs) ≡ remaining t pairs order
unfolding remaining targets_of occ
remaining-append t v [] order out = omega arith
remaining-append t v ((a, b) ∷ rest) order out =
    ground (arith, out, occ-append a v order, remaining-append t v rest order out)

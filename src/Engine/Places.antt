-- ===== src/Engine/Places.antt =====
-- crates/lingxi-runtime/src/engine.rs: the order of `execution_order` holds indices of nodes only, so that
-- with as many places as nodes it holds each of them.
use ling_xi_agent.Prelude.{
  ℕ, zero, suc, ◌+◌, ◌≤◌, ◌<◌, Bool-cases, List, [], ◌∷◌, ◌++◌, ◌≡◌, refl, subst, inl, inr, arith,
  length, nat_eq, ltb, leb, if◌then◌else◌,
}
use ling_xi_agent.Flow.State.{at}
use ling_xi_agent.Engine.Order.{targets_of, lower, push, release, kahn}
use ling_xi_agent.Engine.Counts.{occ, occ-append, occ-push}

abbrev pub IsBelow : ℕ → List ℕ → Type 0
IsBelow n list = (u : ℕ) → 1 ≤ occ u list → u < n

abbrev pub TargetsBelow : ℕ → List (ℕ × ℕ) → Type 0
TargetsBelow n [] = Unit {0}
TargetsBelow n ((a, b) ∷ rest) = (b < n) × TargetsBelow n rest

pub targets_of-IsBelow :
    (n v : ℕ) (pairs : List (ℕ × ℕ)) → TargetsBelow n pairs → IsBelow n (targets_of v pairs)
unfolding targets_of occ
targets_of-IsBelow n v [] h u some_u = absurd (omega (arith, some_u))
targets_of-IsBelow n v ((a, b) ∷ rest) (below, h) u some_u =
    elim (Bool-cases (leb 1 (occ u (targets_of v rest)))) [
      | inl later ↦ targets_of-IsBelow n v rest h u (ground (arith, later))
      | inr none_later ↦ ground (arith, some_u, none_later, below)
    ]

release-IsBelow :
    (n : ℕ) (targets counts ready : List ℕ)
    → IsBelow n targets
    → IsBelow n ready
    → IsBelow n (release targets counts ready).1
unfolding release occ
release-IsBelow n [] counts ready ht hr = hr
release-IsBelow n (x ∷ rest) counts ready ht hr =
    elim (Bool-cases (nat_eq (at (lower x counts) x) 0)) [
      | inr e ↦ rw (release, e) (release-IsBelow n rest _ ready later hr)
      | inl e ↦ rw (release, e) (release-IsBelow n rest _ (push x ready) later pushed)
    ]
  where
    later : IsBelow n rest
    later u some_u = ht u (ground (arith, some_u))

    pushed : IsBelow n (push x ready)
    pushed u some_u = elim (Bool-cases (nat_eq x u)) [
      | inl same ↦ ht u (ground (arith, same))
      | inr differ ↦ hr u (ground (arith, some_u, differ, occ-push u x ready))
    ]

pub kahn-IsBelow :
    (n fuel : ℕ) (pairs : List (ℕ × ℕ)) (counts ready order : List ℕ)
    → TargetsBelow n pairs
    → IsBelow n ready
    → IsBelow n order
    → IsBelow n (kahn fuel pairs counts ready order)
unfolding kahn occ
kahn-IsBelow n zero pairs counts ready order ht hr ho = ho
kahn-IsBelow n (suc fuel) pairs counts [] order ht hr ho = ho
kahn-IsBelow n (suc fuel) pairs counts (v ∷ ready) order ht hr ho =
    kahn-IsBelow n fuel pairs _ _ (order ++ v ∷ []) ht
      (release-IsBelow n (targets_of v pairs) counts ready (targets_of-IsBelow n v pairs ht)
        (λ u some_u. hr u (ground (arith, some_u))))
      (λ u some_u. elim (Bool-cases (nat_eq v u)) [
        | inl same ↦ hr u (ground (arith, same))
        | inr differ ↦ ho u (ground (arith, some_u, differ, occ-append u v order))
      ])

-- how many places hold numbers below a bound
total : ℕ → List ℕ → ℕ
total zero list = 0
total (suc n) list = occ n list + total n list

total-empty : (n : ℕ) → total n [] ≡ 0
unfolding total occ
total-empty zero = refl
total-empty (suc n) = omega (arith, total-empty n)

total-cons :
    (n x : ℕ) (rest : List ℕ) → total n (x ∷ rest) ≡ (if ltb x n then 1 else 0) + total n rest
unfolding total occ
total-cons zero x rest = ground arith
total-cons (suc n) x rest = ground (arith, total-cons n x rest)

total-length : (n : ℕ) (list : List ℕ) → IsBelow n list → total n list ≡ length list
unfolding occ
total-length n [] h = total-empty n
total-length n (x ∷ rest) h = ground (
  arith,
  total-cons n x rest,
  h x (ground arith),
  total-length n rest (λ u some_u. h u (ground (arith, some_u))),
)

total-bounded : (n : ℕ) (list : List ℕ) → ((u : ℕ) → occ u list ≤ 1) → total n list ≤ n
unfolding total
total-bounded zero list once = omega arith
total-bounded (suc n) list once = omega (arith, once n, total-bounded n list once)

all_present :
    (n : ℕ) (list : List ℕ) (u : ℕ)
    → ((v : ℕ) → occ v list ≤ 1)
    → n ≤ total n list
    → u < n
    → occ u list ≡ 1
unfolding total
all_present zero list u once full below = absurd (omega (arith, below))
all_present (suc n) list u once full below = elim (Bool-cases (nat_eq u n)) [
  | inl last ↦
      let here : n ≡ u = ground (arith, last) in
      subst (λ (v : ℕ). occ v list ≡ 1) here
        (omega (arith, full, once n, total-bounded n list once))
  | inr other ↦
      let smaller : u < n = ground (arith, other, below) in
      all_present n list u once (omega (arith, full, once n)) smaller
]

-- each number below the length stands in the list once
pub each_once :
    (list : List ℕ) (u : ℕ)
    → ((v : ℕ) → occ v list ≤ 1)
    → IsBelow (length list) list
    → u < length list
    → occ u list ≡ 1
each_once list u once below h =
    all_present (length list) list u once (omega (arith, total-length (length list) list below)) h

total-full : (n : ℕ) (list : List ℕ) → ((u : ℕ) → u < n → 1 ≤ occ u list) → n ≤ total n list
unfolding total
total-full zero list h = omega arith
total-full (suc n) list h =
    omega (arith, h n (omega arith), total-full n list (λ u below. h u (omega (arith, below))))

-- a list that holds the numbers below a bound, and no others, has as many places at least
pub length-covers :
    (n : ℕ) (list : List ℕ) → IsBelow n list → ((u : ℕ) → u < n → 1 ≤ occ u list) → n ≤ length list
length-covers n list below h = omega (arith, total-length n list below, total-full n list h)

pub length-bounded :
    (n : ℕ) (list : List ℕ) → IsBelow n list → ((u : ℕ) → occ u list ≤ 1) → length list ≤ n
length-bounded n list below once =
    omega (arith, total-length n list below, total-bounded n list once)

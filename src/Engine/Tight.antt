-- ===== src/Engine/Tight.antt =====
-- crates/lingxi-runtime/src/engine.rs: the loop of `execution_order` takes every node that no cycle
-- holds back.
use ling_xi_agent.Prelude.{
  ℕ, zero, suc, ◌+◌, ◌≤◌, ◌<◌, true, false, Bool-cases, List, [], ◌∷◌, ◌++◌, ◌≡◌, ◌⊎◌, refl, subst,
  inl, inr, arith, length, length-append, nat_eq, if◌then◌else◌,
}
use ling_xi_agent.Flow.State.{at}
use ling_xi_agent.Engine.Order.{targets_of, lower, push, release, kahn}
use ling_xi_agent.Engine.Counts.{occ, remaining, occ-append, occ-push, at-lower, remaining-append}
use ling_xi_agent.Engine.Fair.{IsReadyFor, taken-IsReadyFor, release-IsFair}

length-lower : (i : ℕ) (counts : List ℕ) → length (lower i counts) ≡ length counts
unfolding lower
length-lower i [] = refl
length-lower zero (n ∷ rest) = refl
length-lower (suc i) (n ∷ rest) = omega (arith, length-lower i rest)

-- Nothing more is counted than is needed, and what has the count 0 is ready or taken.
abbrev IsTight : (ℕ → ℕ) → (ℕ → ℕ) → List ℕ → List ℕ → Type 0
IsTight need taken counts ready =
    ((t : ℕ) → at counts t ≤ need t)
    × ((t : ℕ) → t < length counts → at counts t ≡ 0 → 1 ≤ occ t ready + taken t)

module _ (need taken : ℕ → ℕ) (x : ℕ) (rest counts ready : List ℕ)
    (tight : IsTight (λ t. occ t (x ∷ rest) + need t) taken counts ready) where
  lowered_bound : (t : ℕ) → at (lower x counts) t ≤ occ t rest + need t
  unfolding occ
  lowered_bound t = ground (arith, tight.0 t, at-lower t x counts)

  pushed-IsTight :
      nat_eq (at (lower x counts) x) 0 ≡ true
      → IsTight (λ t. occ t rest + need t) taken (lower x counts) (push x ready)
  pushed-IsTight zero_now = (
    lowered_bound,
    (λ t below e. elim (Bool-cases (nat_eq x t)) [
      | inl same ↦ ground (arith, same, occ-push t x ready)
      | inr differ ↦
          let before : at counts t ≡ 0 = ground (arith, e, differ, at-lower t x counts) in
          ground (
            arith,
            differ,
            occ-push t x ready,
            tight.1 t (omega (arith, below, length-lower x counts)) before,
          )
    ]),
  )

  kept-IsTight :
      nat_eq (at (lower x counts) x) 0 ≡ false
      → IsTight (λ t. occ t rest + need t) taken (lower x counts) ready
  kept-IsTight nonzero = (
    lowered_bound,
    (λ t below e. elim (Bool-cases (nat_eq x t)) [
      | inl same ↦
          let here : t ≡ x = ground (arith, same) in
          let e1 = subst (λ (v : ℕ). at (lower x counts) v ≡ 0) here e in
          absurd (ground (arith, e1, nonzero))
      | inr differ ↦
          let before : at counts t ≡ 0 = ground (arith, e, differ, at-lower t x counts) in
          tight.1 t (omega (arith, below, length-lower x counts)) before
    ]),
  )

release-IsTight :
    (need taken : ℕ → ℕ) (targets counts ready : List ℕ)
    → IsTight (λ t. occ t targets + need t) taken counts ready
    → IsTight need taken (release targets counts ready).0 (release targets counts ready).1
unfolding release occ
release-IsTight need taken [] counts ready tight = ((λ t. ground (arith, tight.0 t)), tight.1)
release-IsTight need taken (x ∷ rest) counts ready tight =
    elim (Bool-cases (nat_eq (at (lower x counts) x) 0)) [
      | inl e ↦
          rw (release, e)
            (release-IsTight need taken rest _ _
              (pushed-IsTight need taken x rest counts ready tight e))
      | inr e ↦
          rw (release, e)
            (release-IsTight need taken rest _ _
              (kept-IsTight need taken x rest counts ready tight e))
    ]

length-release :
    (targets counts ready : List ℕ) → length (release targets counts ready).0 ≡ length counts
unfolding release
length-release [] counts ready = refl
length-release (x ∷ rest) counts ready = omega (
  arith,
  length-lower x counts,
  length-release rest (lower x counts)
      (if nat_eq (at (lower x counts) x) 0 then push x ready else ready),
)

module _ (pairs : List (ℕ × ℕ)) where
  abbrev pub IsTightFor : List ℕ → List ℕ → List ℕ → Type 0
  IsTightFor order counts ready =
      IsTight (λ t. remaining t pairs order) (λ u. occ u order) counts ready

  taken-IsTightFor :
      (v : ℕ) (ready counts order : List ℕ)
      → IsReadyFor pairs order counts (v ∷ ready)
      → IsTightFor order counts (v ∷ ready)
      → IsTight
          (λ t. occ t (targets_of v pairs) + remaining t pairs (order ++ v ∷ []))
          (λ u. occ u (order ++ v ∷ []))
          counts
          ready
  unfolding occ
  taken-IsTightFor v ready counts order fair tight =
      let out : occ v order ≡ 0 = ground (arith, fair.1.0 v) in
      (
        (λ t. ground (arith, tight.0 t, remaining-append t v pairs order out)),
        (λ t below e. ground (arith, tight.1 t below e, occ-append t v order)),
      )

  -- The loop takes as many nodes as its bound says, or each node all whose sources it takes.
  pub kahn-closed :
      (fuel : ℕ) (counts ready order : List ℕ)
      → IsReadyFor pairs order counts ready
      → IsTightFor order counts ready
      → (length (kahn fuel pairs counts ready order) ≡ fuel + length order)
        ⊎ ((t : ℕ)
            → t < length counts
            → remaining t pairs (kahn fuel pairs counts ready order) ≡ 0
            → 1 ≤ occ t (kahn fuel pairs counts ready order))
  unfolding kahn occ
  kahn-closed zero counts ready order fair tight = inl (omega arith)
  kahn-closed (suc fuel) counts [] order fair tight = inr (λ t below e. idle t below e)
    where
      idle : (t : ℕ) → t < length counts → remaining t pairs order ≡ 0 → 1 ≤ occ t order
      idle t below e = omega (arith, tight.1 t below (omega (arith, e, tight.0 t)))
  kahn-closed (suc fuel) counts (v ∷ ready) order fair tight =
      let more = order ++ v ∷ [] in
      let left = λ (t : ℕ). remaining t pairs more in
      let taken = λ (u : ℕ). occ u more in
      let later =
        kahn-closed fuel _ _ more
          (release-IsFair left taken (targets_of v pairs) counts ready
            (taken-IsReadyFor pairs v ready counts order fair))
          (release-IsTight left taken (targets_of v pairs) counts ready
            (taken-IsTightFor v ready counts order fair tight)) in
      elim later [
        | inl full ↦ inl (omega (arith, full, length-append order (v ∷ [])))
        | inr closed ↦ inr (λ t below.
            closed t (omega (arith, below, length-release (targets_of v pairs) counts ready)))
      ]

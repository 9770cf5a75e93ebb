-- ===== src/Engine/Fair.antt =====
-- crates/lingxi-runtime/src/engine.rs: the loop of `execution_order` takes each node once, after the
-- sources of its edges.
use ling_xi_agent.Prelude.{
  ℕ, zero, suc, ◌+◌, ◌≤◌, Bool, true, false, Bool-cases, List, [], ◌∷◌, ◌++◌, ◌≡◌, subst, inl, inr,
  arith, some, nat_eq, leb, get_elem?, if◌then◌else◌,
}
use ling_xi_agent.Flow.State.{at}
use ling_xi_agent.Engine.Order.{targets_of, lower, push, release, kahn}
use ling_xi_agent.Engine.Counts.{occ, remaining, occ-append, occ-push, at-lower, remaining-append}

-- The counts cover what is needed; a node that is ready or taken is so once, and has the count 0.
abbrev pub IsFair : (ℕ → ℕ) → (ℕ → ℕ) → List ℕ → List ℕ → Type 0
IsFair need taken counts ready =
    ((t : ℕ) → need t ≤ at counts t)
    × (((u : ℕ) → occ u ready + taken u ≤ 1)
        × ((u : ℕ) → 1 ≤ occ u ready + taken u → at counts u ≡ 0))

fresh :
    (need taken : ℕ → ℕ) (counts ready : List ℕ) (u : ℕ)
    → IsFair need taken counts ready
    → 1 ≤ need u
    → occ u ready + taken u ≡ 0
fresh need taken counts ready u (covers, (once, idle)) h =
    elim (Bool-cases (leb 1 (occ u ready + taken u))) [
      | inl some_u ↦
          let le : 1 ≤ occ u ready + taken u = ground (arith, some_u) in
          absurd (omega (arith, idle u le, covers u, h))
      | inr none_u ↦ ground (arith, none_u)
    ]

module _ (need taken : ℕ → ℕ) (x : ℕ) (rest counts ready : List ℕ)
    (fair : IsFair (λ t. occ t (x ∷ rest) + need t) taken counts ready) where
  unused : occ x ready + taken x ≡ 0
  unfolding occ
  unused = fresh (λ t. occ t (x ∷ rest) + need t) taken counts ready x fair (ground arith)

  covers_lowered : (t : ℕ) → occ t rest + need t ≤ at (lower x counts) t
  unfolding occ
  covers_lowered t = ground (arith, fair.0 t, at-lower t x counts)

  pushed-IsFair :
      nat_eq (at (lower x counts) x) 0 ≡ true
      → IsFair (λ t. occ t rest + need t) taken (lower x counts) (push x ready)
  pushed-IsFair zero_now = (
    covers_lowered,
    (
      (λ u. ground (arith, unused, fair.1.0 u, occ-push u x ready)),
      (λ u some_u. elim (Bool-cases (nat_eq x u)) [
        | inl same ↦
            let here : x ≡ u = ground (arith, same) in
            subst (λ (v : ℕ). at (lower x counts) v ≡ 0) here (ground (arith, zero_now))
        | inr differ ↦
            let le : 1 ≤ occ u ready + taken u =
              ground (arith, some_u, differ, occ-push u x ready) in
            ground (arith, fair.1.1 u le, differ, at-lower u x counts)
      ]),
    ),
  )

  kept-IsFair : IsFair (λ t. occ t rest + need t) taken (lower x counts) ready
  kept-IsFair = (
    covers_lowered,
    (fair.1.0, (λ u some_u. ground (arith, fair.1.1 u some_u, at-lower u x counts))),
  )

pub release-IsFair :
    (need taken : ℕ → ℕ) (targets counts ready : List ℕ)
    → IsFair (λ t. occ t targets + need t) taken counts ready
    → IsFair need taken (release targets counts ready).0 (release targets counts ready).1
unfolding release occ
release-IsFair need taken [] counts ready fair = ((λ t. ground (arith, fair.0 t)), fair.1)
release-IsFair need taken (x ∷ rest) counts ready fair =
    elim (Bool-cases (nat_eq (at (lower x counts) x) 0)) [
      | inl e ↦
          rw (release, e)
            (release-IsFair need taken rest _ _
              (pushed-IsFair need taken x rest counts ready fair e))
      | inr e ↦
          rw (release, e)
            (release-IsFair need taken rest _ _ (kept-IsFair need taken x rest counts ready fair))
    ]

-- The second node does not stand before the first place of the first one.
unfoldable pub precedes : ℕ → ℕ → List ℕ → Bool
precedes s t [] = true
precedes s t (v ∷ rest) =
    let later = precedes s t rest in
    if nat_eq v s then true else if nat_eq v t then false else later

precedes-append :
    (s t v : ℕ) (order : List ℕ)
    → precedes s t order ≡ true
    → (nat_eq v t ≡ true → 1 ≤ occ s order)
    → precedes s t (order ++ v ∷ []) ≡ true
unfolding precedes occ
precedes-append s t v [] p h = elim (Bool-cases (nat_eq v t)) [
  | inl same ↦ absurd (omega (arith, h same))
  | inr differ ↦ ground (arith, differ)
]
precedes-append s t v (w ∷ rest) p h = elim (Bool-cases (nat_eq w s)) [
  | inl first ↦ ground (arith, first)
  | inr other ↦ ground (
    arith,
    p,
    other,
    precedes-append s t v rest (ground (arith, p, other)) (λ e. ground (arith, h e, other)),
  )
]

-- when nothing remains for a node, the source of each of its edges is in the order
remaining-none :
    (pairs : List (ℕ × ℕ)) (k s t : ℕ) (order : List ℕ)
    → get_elem? pairs k ≡ some (s, t)
    → remaining t pairs order ≡ 0
    → 1 ≤ occ s order
unfolding remaining
remaining-none [] k s t order at_k e = absurd (ground (arith, at_k))
remaining-none ((a, b) ∷ rest) zero s t order at_k e = ground (arith, at_k, e)
remaining-none ((a, b) ∷ rest) (suc k) s t order at_k e =
    remaining-none rest k s t order at_k (ground (arith, e))

module _ (pairs : List (ℕ × ℕ)) where
  abbrev pub IsOrdered : List ℕ → Type 0
  IsOrdered order = (k s t : ℕ) → get_elem? pairs k ≡ some (s, t) → precedes s t order ≡ true

  abbrev pub IsReadyFor : List ℕ → List ℕ → List ℕ → Type 0
  IsReadyFor order counts ready =
      IsFair (λ t. remaining t pairs order) (λ u. occ u order) counts ready

  pub taken-IsReadyFor :
      (v : ℕ) (ready counts order : List ℕ)
      → IsReadyFor order counts (v ∷ ready)
      → IsFair
          (λ t. occ t (targets_of v pairs) + remaining t pairs (order ++ v ∷ []))
          (λ u. occ u (order ++ v ∷ []))
          counts
          ready
  unfolding occ
  taken-IsReadyFor v ready counts order (covers, (once, idle)) =
      let out : occ v order ≡ 0 = ground (arith, once v) in
      (
        (λ t. ground (arith, covers t, remaining-append t v pairs order out)),
        (
          (λ u. ground (arith, once u, occ-append u v order)),
          (λ u some_u. idle u (ground (arith, some_u, occ-append u v order))),
        ),
      )

  taken-IsOrdered :
      (v : ℕ) (ready counts order : List ℕ)
      → IsReadyFor order counts (v ∷ ready)
      → IsOrdered order
      → IsOrdered (order ++ v ∷ [])
  unfolding occ
  taken-IsOrdered v ready counts order (covers, (once, idle)) h k s t at_k =
      let nothing : remaining v pairs order ≡ 0 = omega (arith, covers v, idle v (ground arith)) in
      precedes-append s t v order (h k s t at_k) (λ same.
        let here : v ≡ t = ground (arith, same) in
        remaining-none pairs k s t order at_k
          (subst (λ (w : ℕ). remaining w pairs order ≡ 0) here nothing))

  pub kahn-IsOrdered :
      (fuel : ℕ) (counts ready order : List ℕ)
      → IsReadyFor order counts ready
      → IsOrdered order
      → IsOrdered (kahn fuel pairs counts ready order)
        × ((u : ℕ) → occ u (kahn fuel pairs counts ready order) ≤ 1)
  unfolding kahn
  kahn-IsOrdered zero counts ready order fair h = (h, (λ u. ground (arith, fair.1.0 u)))
  kahn-IsOrdered (suc fuel) counts [] order fair h = (h, (λ u. ground (arith, fair.1.0 u)))
  kahn-IsOrdered (suc fuel) counts (v ∷ ready) order fair h =
      kahn-IsOrdered fuel _ _ (order ++ v ∷ [])
        (release-IsFair (λ t. remaining t pairs (order ++ v ∷ [])) (λ u. occ u (order ++ v ∷ []))
          (targets_of v pairs) counts ready (taken-IsReadyFor v ready counts order fair))
        (taken-IsOrdered v ready counts order fair h)

-- ===== src/Validation/Acyclic.antt =====
-- crates/lingxi-spec/src/validation.rs: when no component is cyclic, the second search of
-- `strongly_connected_components` meets every node behind the sources of its edges.
use ling_xi_agent.Prelude.{
  ℕ, zero, suc, ◌+◌, ◌≤◌, true, false, Bool, Bool-cases, List, [], ◌∷◌, ◌≡◌, ◌⊎◌, refl, sym, subst,
  inl, inr, arith, length, nat_eq,
}
use ling_xi_agent.Flow.State.{mem}
use ling_xi_agent.Engine.Order.{targets_of, push}
use ling_xi_agent.Engine.Counts.{occ}
use ling_xi_agent.Engine.Complete.{IsSourced}
use ling_xi_agent.Validation.Components.{Pairs, sources_of, claim, collect, components_from}
use ling_xi_agent.Validation.Control.{is_cyclic}
use ling_xi_agent.Validation.Search.{occ-mem, mem-occ}

length-push : (i : ℕ) (list : List ℕ) → length (push i list) ≡ suc (length list)
unfolding push
length-push i [] = refl
length-push i (j ∷ rest) = ground (arith, length-push i rest)

claim-stack :
    (sources assigned stack : List ℕ) → length stack ≤ length (claim sources assigned stack).1
unfolding claim
claim-stack [] assigned stack = omega arith
claim-stack (s ∷ rest) assigned stack = elim (Bool-cases (mem s assigned)) [
  | inl e ↦ rw (claim, e) (claim-stack rest assigned stack)
  | inr e ↦ rw (claim, e) (omega (arith, claim-stack rest (s ∷ assigned) (s ∷ stack)))
]

-- all sources are assigned already, or one is put on the stack
claim-cases :
    (sources assigned stack : List ℕ)
    → (((s : ℕ) → 1 ≤ occ s sources → mem s assigned ≡ true)
        × (claim sources assigned stack ≡ (assigned, stack)))
      ⊎ (suc (length stack) ≤ length (claim sources assigned stack).1)
unfolding claim occ
claim-cases [] assigned stack = inl ((λ s some_s. absurd (omega (arith, some_s))), refl)
claim-cases (s ∷ rest) assigned stack = elim (Bool-cases (mem s assigned)) [
  | inl e ↦ elim (claim-cases rest assigned stack) [
    | inl (inside, same) ↦ inl (
      (λ u some_u. elim (Bool-cases (nat_eq s u)) [
        | inl here ↦
            let at_u : s ≡ u = ground (arith, here) in
            subst (λ (v : ℕ). mem v assigned ≡ true) at_u e
        | inr other ↦ inside u (ground (arith, some_u, other))
      ]),
      rw (claim, e) same,
    )
    | inr more ↦ inr (rw (claim, e) more)
  ]
  | inr e ↦ inr (rw (claim, e) (claim-stack rest (s ∷ assigned) (s ∷ stack)))
]

length-collect :
    (fuel : ℕ) (pairs : Pairs) (assigned stack component : List ℕ)
    → length component ≤ length (collect fuel pairs assigned stack component).1
unfolding collect
length-collect zero pairs assigned stack component = omega arith
length-collect (suc fuel) pairs assigned [] component = omega arith
length-collect (suc fuel) pairs assigned (node ∷ stack) component =
    let (more, next) = claim (sources_of node pairs) assigned stack in
    omega
      (arith, length-push node component, length-collect fuel pairs more next (push node component))

-- a search with something on the stack finds another node
collect-more :
    (fuel : ℕ) (pairs : Pairs) (assigned stack component : List ℕ)
    → 1 ≤ length stack
    → suc (length component) ≤ length (collect (suc fuel) pairs assigned stack component).1
unfolding collect
collect-more fuel pairs assigned [] component h = absurd (omega (arith, h))
collect-more fuel pairs assigned (node ∷ stack) component h =
    let (more, next) = claim (sources_of node pairs) assigned stack in
    omega
      (arith, length-push node component, length-collect fuel pairs more next (push node component))

long-cyclic :
    (pairs : Pairs) (component : List ℕ) → 2 ≤ length component → is_cyclic pairs component ≡ true
unfolding is_cyclic
long-cyclic pairs [] h = absurd (omega (arith, h))
long-cyclic pairs (u ∷ []) h = absurd (omega (arith, h))
long-cyclic pairs (u ∷ v ∷ rest) h = refl

own_edges : (u : ℕ) (pairs : Pairs) → occ u (sources_of u pairs) ≡ occ u (targets_of u pairs)
unfolding occ sources_of targets_of
own_edges u [] = refl
own_edges u ((a, b) ∷ rest) = ground (arith, own_edges u rest)

-- A component that is not cyclic is its start alone, all whose sources were assigned before.
alone :
    (r : ℕ) (pairs : Pairs) (start : ℕ) (assigned : List ℕ)
    → is_cyclic pairs (collect (suc (suc r)) pairs (start ∷ assigned) (start ∷ []) []).1 ≡ false
    → ((s : ℕ) → 1 ≤ occ s (sources_of start pairs) → 1 ≤ occ s assigned)
      × (collect (suc (suc r)) pairs (start ∷ assigned) (start ∷ []) []
          ≡ (start ∷ assigned, start ∷ []))
unfolding collect is_cyclic push
alone r pairs start assigned e = elim (claim-cases (sources_of start pairs) (start ∷ assigned) []) [
  | inr more ↦
      let (taken, next) = claim (sources_of start pairs) (start ∷ assigned) [] in
      let long = collect-more r pairs taken next (start ∷ []) more in
      let cyclic = long-cyclic pairs (collect (suc r) pairs taken next (start ∷ [])).1 long in
      absurd (ground (arith, e, cyclic))
  | inl (inside, same) ↦
      let found : collect (suc (suc r)) pairs (start ∷ assigned) (start ∷ []) []
          ≡ (start ∷ assigned, start ∷ []) =
        subst
          (λ (x : List ℕ × List ℕ).
            collect (suc r) pairs x.0 x.1 (start ∷ []) ≡ (start ∷ assigned, start ∷ []))
          (sym same) refl in
      let no_loop : mem start (targets_of start pairs) ≡ false =
        subst (λ (x : List ℕ × List ℕ). is_cyclic pairs x.1 ≡ false) found e in
      (
        (λ s some_s. elim (Bool-cases (nat_eq start s)) [
          | inl here ↦
              let at_s : s ≡ start = ground (arith, here) in
              let own = subst (λ (v : ℕ). 1 ≤ occ v (sources_of start pairs)) at_s some_s in
              let loop =
                mem-occ start (targets_of start pairs)
                  (omega (arith, own, own_edges start pairs)) in
              absurd (ground (arith, loop, no_loop))
          | inr other ↦ occ-mem s assigned (ground (arith, inside s some_s, other))
        ]),
        found,
      )
]

-- no component is cyclic
unfoldable pub IsAcyclic : Pairs → List (List ℕ) → Type 0
IsAcyclic pairs [] = Unit {0}
IsAcyclic pairs (component ∷ rest) = (is_cyclic pairs component ≡ false) × IsAcyclic pairs rest

-- the nodes of an order, without repetition, each behind its sources
abbrev IsSortOf : Pairs → List ℕ → List ℕ → List ℕ → Type 0
IsSortOf pairs assigned order list =
    IsSourced pairs assigned list × ((u : ℕ) → 1 ≤ occ u order → 1 ≤ occ u assigned + occ u list)

pub components_from-sorted :
    (r : ℕ) (pairs : Pairs) (order assigned : List ℕ)
    → IsAcyclic pairs (components_from (suc (suc r)) pairs order assigned)
    → (list : List ℕ) × IsSortOf pairs assigned order list
unfolding components_from IsAcyclic IsSourced occ
components_from-sorted r pairs [] assigned h =
    ([], (tt, (λ u some_u. absurd (omega (arith, some_u)))))
components_from-sorted r pairs (start ∷ rest) assigned h = elim (Bool-cases (mem start assigned)) [
  | inl e ↦
      let later : IsAcyclic pairs (components_from (suc (suc r)) pairs rest assigned) =
        subst (λ (b : Bool). IsAcyclic pairs (goes_on start assigned rest b)) e h in
      let (list, (sourced, covers)) = components_from-sorted r pairs rest assigned later in
      (
        list,
        (
          sourced,
          (λ u some_u. elim (Bool-cases (nat_eq start u)) [
            | inl same ↦
                let at_u : start ≡ u = ground (arith, same) in
                let inside =
                  subst (λ (v : ℕ). 1 ≤ occ v assigned) at_u (occ-mem start assigned e) in
                omega (arith, inside)
            | inr differ ↦ covers u (ground (arith, some_u, differ))
          ]),
        ),
      )
  | inr e ↦
      let here = subst (λ (b : Bool). IsAcyclic pairs (goes_on start assigned rest b)) e h in
      let (inside, found) = alone r pairs start assigned here.0 in
      let later =
        subst
          (λ (x : List ℕ × List ℕ). IsAcyclic pairs (components_from (suc (suc r)) pairs rest x.0))
          found here.1 in
      let (list, (sourced, covers)) =
        components_from-sorted r pairs rest (start ∷ assigned) later in
      (
        start ∷ list,
        (
          (inside, sourced),
          (λ u some_u. elim (Bool-cases (nat_eq start u)) [
            | inl same ↦ ground (arith, same)
            | inr differ ↦ ground (arith, differ, covers u (ground (arith, some_u, differ)))
          ]),
        ),
      )
]
  where
    goes_on : ℕ → List ℕ → List ℕ → Bool → List (List ℕ)
    goes_on start assigned rest b = elim b [
      | true ↦ components_from (suc (suc r)) pairs rest assigned
      | false ↦
          let (more, component) = collect (suc (suc r)) pairs (start ∷ assigned) (start ∷ []) [] in
          component ∷ components_from (suc (suc r)) pairs rest more
    ]

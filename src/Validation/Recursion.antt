-- ===== src/Validation/Recursion.antt =====
-- crates/lingxi-spec/src/validation.rs: a subgraph that refers to itself is reported, whatever the number of
-- subgraphs in between.
use ling_xi_agent.Prelude.{
  ℕ, zero, suc, ◌+◌, ◌≤◌, String, true, false, Bool-cases, List, [], ◌∷◌, ◌≡◌, refl, sym, subst,
  inl, inr, arith, length, take, Dict, lookup, contains_key, leb, ◌==◌, eq_iff, if◌then◌else◌,
}
use ling_xi_agent.Workflow.Model.{Subgraph, Workflow}
use ling_xi_agent.Flow.State.{has}
use ling_xi_agent.Validation.References.{
  Walk, WalkFrom, walk_recursive_references, walk_keys, nothing_walked,
  validate_recursive_references,
}
use ling_xi_agent.Validation.Chains.{IsTold, told, Tells, IsFresh, is_chain, walk-Tells, walk-Finds}

-- the subgraphs whose keys are on a path
seen : List String → Dict Subgraph → ℕ
seen path [] = 0
seen path ((key, _) ∷ rest) = (if has key path then 1 else 0) + seen path rest

seen-bound :
    (path : List String) (subgraphs : Dict Subgraph) → seen path subgraphs ≤ length subgraphs
unfolding seen
seen-bound path [] = omega arith
seen-bound path ((key, _) ∷ rest) = ground (arith, seen-bound path rest)

seen-grows :
    (r : String) (path : List String) (subgraphs : Dict Subgraph)
    → seen path subgraphs ≤ seen (r ∷ path) subgraphs
unfolding seen
seen-grows r path [] = omega arith
seen-grows r path ((key, _) ∷ rest) = ground (arith, seen-grows r path rest)

seen-new :
    (r : String) (path : List String) (subgraphs : Dict Subgraph)
    → has r path ≡ false
    → contains_key r subgraphs ≡ true
    → suc (seen path subgraphs) ≤ seen (r ∷ path) subgraphs
unfolding seen lookup
seen-new r path [] fresh known = absurd (ground (arith, known))
seen-new r path ((key, _) ∷ rest) fresh known = elim (Bool-cases (key == r)) [
  | inl e ↦
      let same : r ≡ key = sym ((eq_iff key r).0 e) in
      let outside : has key path ≡ false = subst (λ (k : String). has k path ≡ false) same fresh in
      let self : (r == key) ≡ true = (eq_iff r key).1 same in
      ground (arith, outside, self, seen-grows r path rest)
  | inr e ↦ ground (arith, e, seen-new r path rest fresh (ground (arith, e, known)))
]

-- a chain that is fresh has at most as many keys as there are subgraphs
fresh-bound :
    (subgraphs : Dict Subgraph) (key : String) (path chain : List String)
    → is_chain subgraphs key chain ≡ true
    → IsFresh path chain
    → length chain + seen path subgraphs ≤ length subgraphs
unfolding is_chain IsFresh
fresh-bound subgraphs key path [] e fresh = omega (arith, seen-bound path subgraphs)
fresh-bound subgraphs key path (r ∷ rest) e (here, fresh) =
    let later = fresh-bound subgraphs r (r ∷ path) rest (ground (arith, e)) fresh in
    omega (arith, later, seen-new r path subgraphs here (ground (arith, e)))

take-chain :
    (subgraphs : Dict Subgraph) (n : ℕ) (key : String) (chain : List String)
    → is_chain subgraphs key chain ≡ true
    → is_chain subgraphs key (take n chain) ≡ true
unfolding is_chain
take-chain subgraphs zero key chain e = refl
take-chain subgraphs (suc n) key [] e = refl
take-chain subgraphs (suc n) key (r ∷ rest) e =
    ground (arith, e, take-chain subgraphs n r rest (ground (arith, e)))

length-take : (n : ℕ) (list : List String) → n ≤ length list → length (take n list) ≡ n
length-take zero list h = refl
length-take (suc n) [] h = absurd (omega (arith, h))
length-take (suc n) (x ∷ rest) h = omega (arith, length-take n rest (omega (arith, h)))

fresh-outside :
    (key : String) (path chain : List String)
    → has key path ≡ true
    → IsFresh path chain
    → has key chain ≡ false
unfolding IsFresh
fresh-outside key path [] inside fresh = refl
fresh-outside key path (r ∷ rest) inside (here, fresh) = elim (Bool-cases (r == key)) [
  | inl e ↦
      let same : key ≡ r = sym ((eq_iff r key).0 e) in
      let on_path = subst (λ (k : String). has k path ≡ true) same inside in
      absurd (ground (arith, here, on_path))
  | inr e ↦ ground (arith, e, fresh-outside key (r ∷ path) rest (ground (arith, inside)) fresh)
]

-- no chain leads back from a key when every chain up to one key more than there are subgraphs is fresh
no_way_back :
    (subgraphs : Dict Subgraph) (key : String) (chain : List String)
    → ((short : List String)
        → length short ≤ suc (length subgraphs)
        → is_chain subgraphs key short ≡ true
        → IsFresh (key ∷ []) short)
    → is_chain subgraphs key chain ≡ true
    → has key chain ≡ false
no_way_back subgraphs key chain all_fresh e =
    let n = suc (length subgraphs) in
    elim (Bool-cases (leb (length chain) n)) [
      | inl short ↦
          fresh-outside key (key ∷ []) chain (ground (arith, (eq_iff key key).1 refl))
            (all_fresh chain (ground (arith, short)) e)
      | inr long ↦
          let front = take n chain in
          let full = length-take n chain (ground (arith, long)) in
          let chained = take-chain subgraphs n key chain e in
          let fresh = all_fresh front (omega (arith, full)) chained in
          absurd (omega (arith, full, fresh-bound subgraphs key (key ∷ []) front chained fresh))
    ]

module _ (recur : WalkFrom) (tells : Tells recur) where
  walk_keys-tells :
      (entries : Dict Subgraph) (walk : Walk)
      → IsTold walk
      → told walk ≤ told (walk_keys recur entries walk)
  unfolding walk_keys
  walk_keys-tells [] walk h = omega arith
  walk_keys-tells ((key, _) ∷ rest) walk h =
      let (here, more) = tells key (key ∷ []) walk h in
      omega (arith, more, walk_keys-tells rest (recur key (key ∷ []) walk) here)

  -- the walk from a key, when there are no issues in the end
  walk_keys-quiet :
      (entries : Dict Subgraph) (walk : Walk) (key : String)
      → IsTold walk
      → contains_key key entries ≡ true
      → told (walk_keys recur entries walk) ≡ 0
      → (before : Walk) × (IsTold before × (told (recur key (key ∷ []) before) ≡ 0))
  unfolding walk_keys lookup
  walk_keys-quiet [] walk key h known silent = absurd (ground (arith, known))
  walk_keys-quiet ((first, _) ∷ rest) walk key h known silent =
      let (here, _) = tells first (first ∷ []) walk h in
      let after = recur first (first ∷ []) walk in
      elim (Bool-cases (first == key)) [
        | inl e ↦
            let same : first ≡ key = (eq_iff first key).0 e in
            let quiet : told after ≡ 0 = omega (arith, silent, walk_keys-tells rest after here) in
            (walk, (h, subst (λ (k : String). told (recur k (k ∷ []) walk) ≡ 0) same quiet))
        | inr e ↦ walk_keys-quiet rest after key here (ground (arith, e, known)) silent
      ]

-- If a chain of references leads from a subgraph of a workflow, through subgraphs of it, back to that
-- subgraph, then `validate_recursive_references` reports an issue.
pub recursion_reported :
    (root : Workflow) (key : String) (chain : List String)
    → contains_key key root.subgraphs ≡ true
    → is_chain root.subgraphs key chain ≡ true
    → has key chain ≡ true
    → 1 ≤ length (validate_recursive_references root)
unfolding validate_recursive_references
recursion_reported root key chain known e back =
    let subgraphs = root.subgraphs in
    let fuel = suc (length subgraphs) in
    let recur = walk_recursive_references fuel subgraphs in
    elim (Bool-cases (leb 1 (length (validate_recursive_references root)))) [
      | inl some_issue ↦ ground (arith, some_issue)
      | inr none_left ↦
          let (before, (h, quiet)) =
            walk_keys-quiet recur (walk-Tells fuel subgraphs) subgraphs nothing_walked key
              (omega arith) known (ground (arith, none_left)) in
          let away =
            no_way_back subgraphs key chain
              (λ short bound chained.
                walk-Finds fuel subgraphs key (key ∷ []) before short h quiet bound chained)
              e in
          absurd (ground (arith, away, back))
    ]

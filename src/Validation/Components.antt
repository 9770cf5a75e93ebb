-- ===== src/Validation/Components.antt =====
-- crates/lingxi-spec/src/validation.rs: `strongly_connected_components`, and `has_cycle_without`. A
-- round of the first search moves over an edge or leaves a node, and a round of the second takes a
-- node that is assigned once, so that the bounds of the loops are enough.
use ling_xi_agent.Prelude.{
  ℕ, zero, suc, ◌+◌, Bool, true, false, ◌&&◌, List, [], ◌∷◌, ◌++◌, length, nat_eq, ltb,
  if◌then◌else◌,
}
use ling_xi_agent.Flow.State.{at, bump, mem}
use ling_xi_agent.Engine.Order.{targets_of, lower, push}

-- `adjacency`, as the edges between indices in their order
abbrev pub Pairs : Type 0
Pairs = List (ℕ × ℕ)

-- the state of the first search; `order` has the last node first
pub record Search : Type 0 where
  pub visited : List ℕ
  pub stack : List (ℕ × List ℕ)  -- a node, and the targets that it has not looked at
  pub order : List ℕ

unfoldable pub search_step : Pairs → Search → Search
unfolding targets_of
search_step pairs s = elim s.stack [
  | [] ↦ s
  | (node, []) ∷ below ↦ record s { stack = below; order = node ∷ s.order }
  | (node, target ∷ rest) ∷ below ↦ elim (mem target s.visited) [
    | true ↦ record s { stack = (node, rest) ∷ below }
    | false ↦ record s {
      visited = target ∷ s.visited;
      stack = (target, targets_of target pairs) ∷ (node, rest) ∷ below;
    }
  ]
]

-- `while let Some(..) = stack.last_mut()`
unfoldable pub search : ℕ → Pairs → Search → Search
unfolding search_step
search zero pairs s = s
search (suc fuel) pairs s = search fuel pairs (search_step pairs s)

unfoldable pub search_from : ℕ → Pairs → ℕ → Search → Search
unfolding search targets_of
search_from fuel pairs start s = elim (mem start s.visited) [
  | true ↦ s
  | false ↦
      search fuel pairs
        (record s { visited = start ∷ s.visited; stack = (start, targets_of start pairs) ∷ [] })
]

-- `for start in 0..count`, from a start on with as many as are left
unfoldable pub search_all : ℕ → Pairs → ℕ → ℕ → Search → Search
unfolding search_from
search_all fuel pairs start zero s = s
search_all fuel pairs start (suc left) s =
    search_all fuel pairs (suc start) left (search_from fuel pairs start s)

abbrev pub nothing_visited : Search
nothing_visited = record { visited = []; stack = []; order = [] }

-- `order`, last first
unfoldable pub finish_order : ℕ → Pairs → List ℕ
unfolding search_all
finish_order count pairs = (search_all (count + length pairs) pairs 0 count nothing_visited).order

-- `reverse[node]`
unfoldable pub sources_of : ℕ → Pairs → List ℕ
sources_of node [] = []
sources_of node ((a, b) ∷ rest) =
    let later = sources_of node rest in if nat_eq b node then a ∷ later else later

-- the sources that are not assigned are assigned and put on the stack
unfoldable pub claim : List ℕ → List ℕ → List ℕ → List ℕ × List ℕ
claim [] assigned stack = (assigned, stack)
claim (source ∷ rest) assigned stack = elim (mem source assigned) [
  | true ↦ claim rest assigned stack
  | false ↦ claim rest (source ∷ assigned) (source ∷ stack)
]

-- the nodes assigned, and the component, whose `sort_unstable` is the insertion
unfoldable pub collect : ℕ → Pairs → List ℕ → List ℕ → List ℕ → List ℕ × List ℕ
unfolding claim sources_of push
collect zero pairs assigned stack component = (assigned, component)
collect (suc fuel) pairs assigned [] component = (assigned, component)
collect (suc fuel) pairs assigned (node ∷ stack) component =
    let (more, next) = claim (sources_of node pairs) assigned stack in
    collect fuel pairs more next (push node component)

unfoldable pub components_from : ℕ → Pairs → List ℕ → List ℕ → List (List ℕ)
unfolding collect
components_from rounds pairs [] assigned = []
components_from rounds pairs (start ∷ rest) assigned = elim (mem start assigned) [
  | true ↦ components_from rounds pairs rest assigned
  | false ↦
      let (more, component) = collect rounds pairs (start ∷ assigned) (start ∷ []) [] in
      component ∷ components_from rounds pairs rest more
]

unfoldable pub strongly_connected_components : ℕ → Pairs → List (List ℕ)
unfolding finish_order components_from
strongly_connected_components count pairs =
    components_from (suc (suc count)) pairs (finish_order count pairs) []

-- the edges between members
unfoldable pub pairs_within : List ℕ → Pairs → Pairs
pairs_within members [] = []
pairs_within members ((a, b) ∷ rest) =
    let later = pairs_within members rest in
    if mem a members && mem b members then (a, b) ∷ later else later

unfoldable pub drop_gate : ℕ → List ℕ → List ℕ
drop_gate gate [] = []
drop_gate gate (node ∷ rest) =
    let later = drop_gate gate rest in if nat_eq node gate then later else node ∷ later

unfoldable pub without_degree : Pairs → List ℕ → List ℕ
unfolding sources_of
without_degree pairs [] = []
without_degree pairs (node ∷ rest) =
    let later = without_degree pairs rest in
    elim (sources_of node pairs) [ [] ↦ node ∷ later | _ ∷ _ ↦ later ]

-- the degrees of the nodes below a count
unfoldable pub degrees_within : Pairs → List ℕ → List ℕ
unfolding bump
degrees_within [] counts = counts
degrees_within ((_, b) ∷ rest) counts = degrees_within rest (bump b counts)

-- the targets of a node that is taken from the queue
unfoldable pub lower_targets : List ℕ → List ℕ → List ℕ → List ℕ × List ℕ
unfolding lower
lower_targets [] counts queue = (counts, queue)
lower_targets (target ∷ rest) counts queue =
    let lowered = lower target counts in
    lower_targets rest lowered
      (if nat_eq (at lowered target) 0 then queue ++ target ∷ [] else queue)

-- `visited` of the loop over the queue
unfoldable pub drain : ℕ → Pairs → List ℕ → List ℕ → ℕ
unfolding lower_targets targets_of
drain zero pairs counts queue = 0
drain (suc fuel) pairs counts [] = 0
drain (suc fuel) pairs counts (node ∷ queue) =
    let (lowered, more) = lower_targets (targets_of node pairs) counts queue in
    suc (drain fuel pairs lowered more)

unfoldable pub zero_counts : ℕ → List ℕ
zero_counts zero = []
zero_counts (suc n) = 0 ∷ zero_counts n

unfoldable pub has_cycle_without : ℕ → List ℕ → ℕ → Pairs → Bool
unfolding drop_gate pairs_within degrees_within without_degree drain zero_counts
has_cycle_without count component gate pairs =
    let members = drop_gate gate component in
    let inner = pairs_within members pairs in
    let counts = degrees_within inner (zero_counts count) in
    ltb (drain (length members) inner counts (without_degree inner members)) (length members)

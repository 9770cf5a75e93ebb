-- ===== src/Engine/Declared.antt =====
-- crates/lingxi-runtime/src/builtin.rs: the executors keep to the ports of their specifications.
use ling_xi_agent.Prelude.{
  ℕ, zero, suc, Bool, true, false, ◌&&◌, arith, Option, some, List, [], ◌∷◌, ◌≡◌, refl, subst,
  get_elem?, is_some, ap, unwrap_or, lookup, insert, if◌then◌else◌,
}
use ling_xi_agent.Protocol.Json.{Value}
use ling_xi_agent.Permissions.Authorize.{approved, approved_once, rejected, InteractionDecision}
use ling_xi_agent.Workflow.Ports.{NodeSpec, output_port, find_port}
use ling_xi_agent.Flow.State.{Values}
use ling_xi_agent.Engine.Nodes.{
  Got, got, fails, ◌>>=◌, NodeContext, Primitives, Entry, approve, with_output, or_null,
}
use ling_xi_agent.Engine.Builtin

-- each output is at a port of the specification
unfoldable pub are_declared : NodeSpec → Values → Bool
unfolding output_port
are_declared spec [] = true
are_declared spec ((name, _) ∷ rest) = is_some (output_port spec name) && are_declared spec rest

abbrev declares : NodeSpec → Got Values → Bool
declares spec (got outputs) = are_declared spec outputs
declares spec (fails error) = true

bind-declares :
    {A : Type 0} (spec : NodeSpec) (m : Got A) (next : A → Got Values)
    → ((a : A) → declares spec (next a) ≡ true)
    → declares spec (m >>= next) ≡ true
unfolding ◌>>=◌
bind-declares spec (fails error) next h = refl
bind-declares spec (got a) next h = h a

-- an entry whose executor keeps to its specification
abbrev Keeps : Entry → Type 0
Keeps (spec, run) = (ctx : NodeContext) → declares spec (run ctx) ≡ true

EachKeeps : List Entry → Type 0
EachKeeps [] = Unit {0}
EachKeeps (entry ∷ rest) = Keeps entry × EachKeeps rest

the_first : (first entry : Entry) → some first ≡ some entry → first ≡ entry
the_first first entry e = ap (λ (o : Option Entry). unwrap_or o first) e

each-Keeps :
    (entries : List Entry) (i : ℕ) (entry : Entry)
    → EachKeeps entries
    → get_elem? entries i ≡ some entry
    → Keeps entry
unfolding EachKeeps
each-Keeps [] i entry all_keep at_i = absurd (ground (arith, at_i))
each-Keeps (first ∷ rest) zero entry (keeps, _) at_i =
    subst Keeps (the_first first entry at_i) keeps
each-Keeps (first ∷ rest) (suc i) entry (_, later) at_i = each-Keeps rest i entry later at_i

module _ (rust : Primitives) where
  approve-declares :
      (ctx : NodeContext) (decision : InteractionDecision)
      → declares (Builtin.approval_spec rust) (approve ctx decision) ≡ true
  unfolding are_declared output_port find_port insert
  approve-declares ctx approved = refl
  approve-declares ctx approved_once = refl
  approve-declares ctx rejected = refl

  condition-declares :
      (value : Value) (b : Bool)
      → are_declared
          (Builtin.condition_spec rust)
          (with_output (if b then "true" else "false") value)
        ≡ true
  unfolding are_declared output_port find_port insert
  condition-declares value true = refl
  condition-declares value false = refl

  builtin-EachKeeps : EachKeeps (Builtin.builtin_entries rust)
  unfolding EachKeeps Builtin.builtin_entries are_declared output_port find_port insert
  builtin-EachKeeps = (
    (λ ctx.
        bind-declares (Builtin.text_input_spec rust) _ _
          (λ _. bind-declares (Builtin.text_input_spec rust) _ _ (λ _. refl))),
    (
      (λ ctx.
          bind-declares (Builtin.number_input_spec rust) _ _
            (λ _. bind-declares (Builtin.number_input_spec rust) _ _ (λ _. refl))),
      (
        (λ ctx.
            bind-declares (Builtin.uppercase_spec rust) _ _
              (λ _. bind-declares (Builtin.uppercase_spec rust) _ _ (λ _. refl))),
        (
          (λ ctx. bind-declares (Builtin.concat_spec rust) _ _ (λ _.
              bind-declares (Builtin.concat_spec rust) _ _ (λ _.
                bind-declares (Builtin.concat_spec rust) _ _
                  (λ _. bind-declares (Builtin.concat_spec rust) _ _ (λ _. refl))))),
          (
            (λ ctx. bind-declares (Builtin.number_add_spec rust) _ _ (λ _.
                bind-declares (Builtin.number_add_spec rust) _ _
                  (λ _. bind-declares (Builtin.number_add_spec rust) _ _ (λ _. refl)))),
            (
              (λ ctx. bind-declares (Builtin.log_spec rust) _ _ (λ _.
                  bind-declares (Builtin.log_spec rust) _ _
                    (λ _. bind-declares (Builtin.log_spec rust) _ _ (λ _. refl)))),
              (
                (λ ctx. bind-declares (Builtin.approval_spec rust) _ _ (λ _.
                    bind-declares (Builtin.approval_spec rust) _ _ (λ _.
                      bind-declares (Builtin.approval_spec rust) _ _
                        (λ d. approve-declares ctx d)))),
                (
                  (λ ctx.
                      bind-declares (Builtin.boolean_input_spec rust) _ _
                        (λ _. bind-declares (Builtin.boolean_input_spec rust) _ _ (λ _. refl))),
                  (
                    (λ ctx. bind-declares (Builtin.condition_spec rust) _ _ (λ _.
                        bind-declares (Builtin.condition_spec rust) _ _
                          (λ b. condition-declares (or_null (lookup "payload" ctx.inputs)) b))),
                    (
                      (λ ctx. refl),
                      (
                        (λ ctx. bind-declares (Builtin.counter_spec rust) _ _ (λ _.
                            bind-declares (Builtin.counter_spec rust) _ _ (λ _.
                              bind-declares (Builtin.counter_spec rust) _ _
                                (λ _. bind-declares (Builtin.counter_spec rust) _ _ (λ _. refl))))),
                        tt,
                      ),
                    ),
                  ),
                ),
              ),
            ),
          ),
        ),
      ),
    ),
  )

-- What the executor of a built-in kind returns without an error, it returns at ports that the
-- specification of the kind declares.
pub builtin_outputs_declared :
    (rust : Primitives) (i : ℕ) (entry : Entry) (ctx : NodeContext) (outputs : Values)
    → get_elem? (Builtin.builtin_entries rust) i ≡ some entry
    → entry.1 ctx ≡ got outputs
    → are_declared entry.0 outputs ≡ true
builtin_outputs_declared rust i entry ctx outputs at_i e =
    subst (λ (r : Got Values). declares entry.0 r ≡ true) e
      (each-Keeps (Builtin.builtin_entries rust) i entry (builtin-EachKeeps rust) at_i ctx)

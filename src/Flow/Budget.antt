-- ===== src/Flow/Budget.antt =====
-- crates/lingxi-runtime/src/control_flow.rs: what `gate_budget` accepts.
use Prim.Native.Nat.{◌/◌}
use native.Mathlib.Nat.{le-div_iff_mul-le, pow-le-pow_right, one-le-pow}
use ling_xi_agent.Prelude.{
  ℕ, String, ◌+◌, ◌-◌, ◌*◌, ◌^◌, ◌%◌, ◌≤◌, ◌<◌, Option-cases, some, ◌≡◌, inl, inr, arith, lookup,
}
use ling_xi_agent.Protocol.Float.{F64}
use ling_xi_agent.Protocol.Json.{Value, pos_int, neg_int, float, number}
use ling_xi_agent.Workflow.Model.{WorkflowNode}
use ling_xi_agent.Flow.Gate.{whole_float, positive_integer, limit_of, gate_budget}

below-bounded : (e : ℕ) → 1023 ≤ e → 2 ^ (1075 - e) ≤ 2 ^ 52
below-bounded e h =
    let small : 1075 - e ≤ 52 = omega (arith, h) in pow-le-pow_right (omega arith) small

quotient_positive : (m e : ℕ) → 2 ^ 52 ≤ m → 1023 ≤ e → 1 ≤ m / 2 ^ (1075 - e)
quotient_positive m e large h =
    let positive : 0 < 2 ^ (1075 - e) = one-le-pow (1075 - e) 2 (omega arith) in
    (le-div_iff_mul-le positive).1 (omega (arith, below-bounded e h, large))

product_positive : (m e : ℕ) → 1 ≤ m → 1 ≤ m * 2 ^ e
product_positive m e h =
    let positive : 1 ≤ 2 ^ e = one-le-pow e 2 (omega arith) in grind (arith, positive, h)

whole_float-positive : (bits : F64) (k : ℕ) → whole_float bits ≡ some k → 1 ≤ k
unfolding whole_float
whole_float-positive bits k e = ground (
  arith,
  e,
  quotient_positive (2 ^ 52 + bits % 2 ^ 52) (bits / 2 ^ 52) (omega arith),
  product_positive (2 ^ 52 + bits % 2 ^ 52) (bits / 2 ^ 52 - 1075) (omega arith),
)

positive_integer-positive : (value : Value) (k : ℕ) → positive_integer value ≡ some k → 1 ≤ k
unfolding positive_integer
positive_integer-positive (number (pos_int n)) k e = ground (arith, e)
positive_integer-positive (number (neg_int n)) k e = ground (arith, e)
positive_integer-positive (number (float bits)) k e = whole_float-positive bits k e
positive_integer-positive _ k e = ground (arith, e)

limit_of-positive :
    (name : String) (node : WorkflowNode) (k : ℕ) → limit_of name node ≡ some k → 1 ≤ k
limit_of-positive name node k e = elim (Option-cases (lookup name node.params)) [
  | inl absent ↦ ground (arith, e, absent)
  | inr (value, found) ↦ positive_integer-positive value k (ground (arith, e, found))
]

pub gate_budget-positive :
    (node : WorkflowNode) (iterations millis : ℕ)
    → gate_budget node ≡ some (iterations, millis)
    → (1 ≤ iterations) × (1 ≤ millis)
unfolding gate_budget
gate_budget-positive node iterations millis e =
    elim (Option-cases (limit_of "maxIterations" node)) [
      | inl absent ↦ ground (arith, e, absent)
      | inr (m, e1) ↦ elim (Option-cases (limit_of "timeoutMs" node)) [
        | inl absent ↦ ground (arith, e, e1, absent)
        | inr (t, e2) ↦
            let m_positive = limit_of-positive "maxIterations" node m e1 in
            let t_positive = limit_of-positive "timeoutMs" node t e2 in
            ground (arith, e, e1, e2, m_positive, t_positive)
      ]
    ]

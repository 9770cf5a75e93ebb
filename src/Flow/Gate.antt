-- ===== src/Flow/Gate.antt =====
-- crates/lingxi-runtime/src/control_flow.rs: the loop gate, with its budget and its deadline.
use Prim.Native.Nat.{◌/◌}
use ling_xi_agent.Prelude.{
  ℕ, ◌+◌, ◌-◌, ◌*◌, ◌^◌, ◌%◌, min, String, Bool, true, false, ◌||◌, ◌≡◌, refl, Option, none, some,
  [], lookup, insert, leb, ltb, nat_eq, if◌then◌else◌,
}
use ling_xi_agent.Protocol.Float.{F64}
use ling_xi_agent.Protocol.Json.{Value, number, pos_int, neg_int, float}
use ling_xi_agent.Workflow.Model.{WorkflowNode}
use ling_xi_agent.Flow.State.{
  Instant, LoopState, Setting, Scheduler, Values, NodeError, node_started, node_finished, at, bump,
  spec_of, emit,
}
use ling_xi_agent.Flow.Edges.{propagate_outputs, fail_started}

abbrev pub u64_max : ℕ
u64_max = 2 ^ 64 - 1

-- `value >= 1.0 && value.fract() == 0.0`, and then `value as u64`, which stops at the largest `u64`. A
-- float of at least 1 is positive and has an exponent of at least 1023; its value is the mantissa
-- times a power of 2.
unfoldable pub whole_float : F64 → Option ℕ
whole_float bits =
    let exponent = bits / 2 ^ 52 in
    let mantissa = 2 ^ 52 + bits % 2 ^ 52 in
    let below = 2 ^ (1075 - exponent) in
    if ltb exponent 1023 || leb 2047 exponent
    then none
    else if leb 1139 exponent
    then some u64_max
    else if leb 1075 exponent
    then some (min u64_max (mantissa * 2 ^ (exponent - 1075)))
    else if nat_eq (mantissa % below) 0
    then some (mantissa / below)
    else none

unfoldable pub positive_integer : Value → Option ℕ
unfolding whole_float
positive_integer value = elim value [
  | number n ↦ elim n [
    | pos_int k ↦ if ltb 0 k then some k else none
    | neg_int _ ↦ none
    | float bits ↦ whole_float bits
  ]
  | _ ↦ none
]

abbrev pub limit_of : String → WorkflowNode → Option ℕ
limit_of name node = elim (lookup name node.params) [
  | none ↦ none
  | some value ↦ positive_integer value
]

-- the iterations and the milliseconds of a gate, both at least 1
unfoldable pub gate_budget : WorkflowNode → Option (ℕ × ℕ)
unfolding positive_integer
gate_budget node = elim (limit_of "maxIterations" node) [
  | none ↦ none
  | some iterations ↦ elim (limit_of "timeoutMs" node) [
    | none ↦ none
    | some millis ↦ some (iterations, millis)
  ]
]

abbrev pub invalid_budget : NodeError
invalid_budget = "loop.invalid_budget"

abbrev pub missing_trigger : NodeError
missing_trigger = "loop.missing_trigger"

abbrev pub invalid_state : NodeError
invalid_state = "loop.invalid_state"

abbrev pub budget_exhausted : NodeError
budget_exhausted = "loop.budget_exhausted"

abbrev pub loop_timeout : NodeError
loop_timeout = "loop.timeout"

abbrev pub unknown_kind : NodeError
unknown_kind = "node.unknown_kind"

pub data Trigger : Type 0 where
  stop start next : Trigger

-- the trigger among the inputs, with its payload; the first of these that is there
unfoldable pub trigger_of : Values → Option (Trigger × Value)
trigger_of inputs = elim (lookup "stop" inputs) [
  | some payload ↦ some (stop, payload)
  | none ↦ elim (lookup "start" inputs) [
    | some payload ↦ some (start, payload)
    | none ↦ elim (lookup "next" inputs) [ some payload ↦ some (next, payload) | none ↦ none ]
  ]
]

abbrev pub gate_outputs : String → Value → Values → Values
gate_outputs port payload inputs = elim (lookup "value" inputs) [
  | none ↦ insert port payload []
  | some value ↦ insert "value" value (insert port payload [])
]

-- The iteration after the present one, as a `u32`. In a build that checks for overflow, the addition
-- panics where it would wrap around.
abbrev pub next_iteration : LoopState → ℕ
next_iteration state = (state.iteration + 1) % 2 ^ 32

module _ (f : Setting) (index : ℕ) (node : WorkflowNode) where
  -- the events of an activation that starts and then fails
  unfoldable pub fail_gate : ℕ → Option ℕ → NodeError → Scheduler → Scheduler
  unfolding emit fail_started
  fail_gate activation iteration error s =
      fail_started f index node activation iteration error
        (emit activation node iteration node_started s)

  -- the events of an activation that starts and finishes
  unfoldable pub tell_finished : ℕ → ℕ → Values → Scheduler → Scheduler
  unfolding emit
  tell_finished activation iteration outputs s =
      emit activation node (some iteration) (node_finished outputs)
        (emit activation node (some iteration) node_started s)

  unfoldable pub fail_gate_timeout : ℕ → ℕ → Scheduler → Scheduler
  unfolding fail_gate
  fail_gate_timeout activation iteration s =
      record (fail_gate activation (some iteration) loop_timeout s) {
        loop_state = none;
        current_iteration = some iteration;
      }

  -- the gate goes on to an iteration
  unfoldable pub enter_iteration : ℕ → LoopState → Values → Scheduler → Scheduler
  unfolding tell_finished propagate_outputs
  enter_iteration activation state outputs s = propagate_outputs f index node outputs (
      tell_finished activation state.iteration outputs
        (record s { loop_state = some state; current_iteration = some state.iteration }))

  unfoldable pub on_start : ℕ → Instant → ℕ → Values → Value → Scheduler → Scheduler × Bool
  unfolding enter_iteration fail_gate
  on_start activation now timeout_ms inputs payload s = elim s.loop_state [
    | some _ ↦ (fail_gate activation s.current_iteration invalid_state s, true)
    | none ↦
        let state : LoopState = record {
          gate = index;
          iteration = 1;
          deadline = now + timeout_ms;
        } in
        (enter_iteration activation state (gate_outputs "continue" payload inputs) s, true)
  ]

  unfoldable pub on_next : ℕ → Instant → ℕ → Values → Value → Scheduler → Scheduler × Bool
  unfolding enter_iteration fail_gate fail_gate_timeout
  on_next activation now max_iterations inputs payload s = elim s.loop_state [
    | none ↦ (fail_gate activation s.current_iteration invalid_state s, true)
    | some state ↦ elim (leb state.deadline now) [
      | true ↦ (fail_gate_timeout activation state.iteration s, false)
      | false ↦ elim (ltb max_iterations (next_iteration state)) [
        | true ↦ (
          record (fail_gate activation (some state.iteration) budget_exhausted s) {
            loop_state = none;
          },
          false,
        )
        | false ↦ (
          enter_iteration activation (record state { iteration = next_iteration state })
              (gate_outputs "continue" payload inputs) s,
          true,
        )
      ]
    ]
  ]

  abbrev pub iteration_of : Option LoopState → ℕ
  iteration_of none = 0
  iteration_of (some state) = state.iteration

  unfoldable pub on_stop : ℕ → Values → Value → Scheduler → Scheduler × Bool
  unfolding tell_finished propagate_outputs
  on_stop activation inputs payload s =
      let iteration = iteration_of s.loop_state in
      let outputs = gate_outputs "exit" payload inputs in
      let told = tell_finished activation iteration outputs s in
      (
        propagate_outputs f index node outputs
            (record told { loop_state = none; current_iteration = some iteration }),
        true,
      )

  unfoldable pub on_trigger :
      ℕ → Instant → ℕ × ℕ → Values → Trigger × Value → Scheduler → Scheduler × Bool
  unfolding on_start on_next on_stop
  on_trigger activation now (max_iterations, timeout_ms) inputs (start, payload) s =
      on_start activation now timeout_ms inputs payload s
  on_trigger activation now (max_iterations, timeout_ms) inputs (next, payload) s =
      on_next activation now max_iterations inputs payload s
  on_trigger activation now (max_iterations, timeout_ms) inputs (stop, payload) s =
      on_stop activation inputs payload s

  -- `now` is the clock reading inside of the handler; the Boolean says whether the run goes on.
  unfoldable pub handle_gate : Instant → Values → Scheduler → Scheduler × Bool
  unfolding bump gate_budget fail_gate trigger_of on_trigger fail_started
  handle_gate now inputs before =
      let s = record before { activations = bump index before.activations } in
      let activation = at s.activations index in
      elim (spec_of f node) [
        | none ↦ (fail_started f index node activation s.current_iteration unknown_kind s, true)
        | some _ ↦ elim (gate_budget node) [
          | none ↦ (fail_gate activation s.current_iteration invalid_budget s, true)
          | some budget ↦ elim (trigger_of inputs) [
            | none ↦ (fail_gate activation s.current_iteration missing_trigger s, true)
            | some trigger ↦ on_trigger activation now budget inputs trigger s
          ]
        ]
      ]

-- 3.0, 2.5, 0.5, infinity, -3.0
whole_float_test :
    (whole_float 0x4008000000000000 ≡ some 3)
    × (whole_float 0x4004000000000000 ≡ none)
    × (whole_float 0x3fe0000000000000 ≡ none)
    × (whole_float 0x7ff0000000000000 ≡ none)
    × (whole_float 0xc008000000000000 ≡ none)
unfolding whole_float
whole_float_test = (refl, refl, refl, refl, refl)

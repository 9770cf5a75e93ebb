-- ===== src/Context/Limits.antt =====
-- What trimming leaves of a conversation.
use ling_xi_agent.Prelude.{
  ℕ, zero, suc, ◌+◌, ◌≤◌, true, false, ◌≡◌, refl, sym, ap, ◌∙◌, ◌↔◌, none, some, List, [], ◌∷◌,
  length, arith, Option-cases, Bool-cases, inl, inr, if◌then◌else◌,
}
use ling_xi_agent.Errors.{ok}
use ling_xi_agent.Protocol.Json.{Value}
use ling_xi_agent.Context.Message.{ChatMessage}
use ling_xi_agent.Context.Store.{
  OverflowPolicy, trim_oldest, error, at_least_one, is_system, remove_first, estimate_tokens,
  is_over, trim, enforce_limits,
}

-- the system's messages, in order
abbrev pub systems : List ChatMessage → List ChatMessage
systems [] = []
systems (m ∷ rest) = if is_system m then m ∷ systems rest else systems rest

remove_first-some :
    (l rest : List ChatMessage)
    → remove_first l ≡ some rest
    → (length rest + 1 ≡ length l) × (systems rest ≡ systems l)
unfolding remove_first
remove_first-some [] rest h = absurd (ground (arith, h))
remove_first-some (m ∷ l) rest h = elim (Bool-cases (is_system m)) [
  | inr e ↦
      let same : l ≡ rest = ground (arith, e, h) in
      (omega (arith, ap length same), rw e (ap systems (sym same)))
  | inl e ↦ elim (Option-cases (remove_first l)) [
    | inl f ↦ absurd (ground (arith, e, f, h))
    | inr (kept, f) ↦
        let (n, s) = remove_first-some l kept f in
        let same : m ∷ kept ≡ rest = ground (arith, e, f, h) in
        (omega (arith, ap length same, n), ap systems (sym same) ∙ rw e (ap (λ t. m ∷ t) s))
  ]
]

remove_first-none : (l : List ChatMessage) → remove_first l ≡ none → systems l ≡ l
unfolding remove_first
remove_first-none [] h = refl
remove_first-none (m ∷ l) h = elim (Bool-cases (is_system m)) [
  | inr e ↦ absurd (ground (arith, e, h))
  | inl e ↦ elim (Option-cases (remove_first l)) [
    | inl f ↦ rw e (ap (λ t. m ∷ t) (remove_first-none l f))
    | inr (kept, f) ↦ absurd (ground (arith, e, f, h))
  ]
]

module _ (printed_len : Value → ℕ) where
  trim-round :
      (fuel mm mt : ℕ) (p : OverflowPolicy) (l : List ChatMessage) (removed n : ℕ)
      → length l ≤ suc fuel
      → is_over printed_len mm mt l ≡ true
      → ((q : OverflowPolicy) (k : List ChatMessage) (r i : ℕ)
          → length k ≤ fuel
          → (trim printed_len fuel mm mt q k r).1 ≡ ok i
          → (is_over printed_len mm mt (trim printed_len fuel mm mt q k r).0 ≡ false)
            × (length (trim printed_len fuel mm mt q k r).0 + i ≡ length k + r)
            × (systems (trim printed_len fuel mm mt q k r).0 ≡ systems k))
      → (trim printed_len (suc fuel) mm mt p l removed).1 ≡ ok n
      → (is_over printed_len mm mt (trim printed_len (suc fuel) mm mt p l removed).0 ≡ false)
        × (length (trim printed_len (suc fuel) mm mt p l removed).0 + n ≡ length l + removed)
        × (systems (trim printed_len (suc fuel) mm mt p l removed).0 ≡ systems l)
  unfolding trim
  trim-round fuel mm mt error l removed n b e later h = absurd (ground (arith, e, h))
  trim-round fuel mm mt trim_oldest l removed n b e later h = elim (Option-cases (remove_first l)) [
    | inl f ↦ absurd (ground (arith, e, f, h))
    | inr (rest, f) ↦
        let (size, kept) = remove_first-some l rest f in
        let (within, count, same) =
          later trim_oldest rest (removed + 1) n (omega (arith, size, b)) (rw (trim, e, f) at h) in
        rw (trim, e, f) (within, omega (arith, count, size), same ∙ kept)
  ]

  trim-within :
      (fuel mm mt : ℕ) (p : OverflowPolicy) (l : List ChatMessage) (removed n : ℕ)
      → length l ≤ fuel
      → (trim printed_len fuel mm mt p l removed).1 ≡ ok n
      → (is_over printed_len mm mt (trim printed_len fuel mm mt p l removed).0 ≡ false)
        × (length (trim printed_len fuel mm mt p l removed).0 + n ≡ length l + removed)
        × (systems (trim printed_len fuel mm mt p l removed).0 ≡ systems l)
  unfolding trim estimate_tokens
  trim-within zero mm mt p l removed n b h = elim (Bool-cases (is_over printed_len mm mt l)) [
    | inr e ↦ rw (trim, e) (e, ground (arith, e, h), refl)
    | inl e ↦ absurd (ground (arith, e, h))
  ]
  trim-within (suc fuel) mm mt p l removed n b h = elim (Bool-cases (is_over printed_len mm mt l)) [
    | inr e ↦ rw (trim, e) (e, ground (arith, e, h), refl)
    | inl e ↦ trim-round fuel mm mt p l removed n b e (trim-within fuel mm mt) h
  ]

  -- Where the limits are enforced, what is left is within both of them (a limit of zero counts as
  -- one), the number that was removed is returned, and the system's messages are all left, in order.
  pub enforce_limits_within :
      (max_messages max_tokens : ℕ) (policy : OverflowPolicy) (messages : List ChatMessage) (n : ℕ)
      → (enforce_limits printed_len max_messages max_tokens policy messages).1 ≡ ok n
      → let left = (enforce_limits printed_len max_messages max_tokens policy messages).0 in
        (length left ≤ at_least_one max_messages)
        × (estimate_tokens printed_len left ≤ at_least_one max_tokens)
        × (length left + n ≡ length messages)
        × (systems left ≡ systems messages)
  unfolding enforce_limits
  enforce_limits_within max_messages max_tokens policy messages n h =
      let (within, count, same) =
        trim-within (length messages) (at_least_one max_messages) (at_least_one max_tokens) policy
          messages 0 n (omega arith) h in
      (ground (arith, within), ground (arith, within), omega (arith, count), same)

  trim-total :
      (fuel mm mt : ℕ) (l : List ChatMessage) (removed : ℕ)
      → length l ≤ fuel
      → is_over printed_len mm mt (systems l) ≡ false
      → (n : ℕ) × ((trim printed_len fuel mm mt trim_oldest l removed).1 ≡ ok n)
  unfolding trim
  trim-total zero mm mt [] removed b h = (removed, rw (trim, h) refl)
  trim-total zero mm mt (m ∷ l) removed b h = absurd (omega (arith, b))
  trim-total (suc fuel) mm mt l removed b h = elim (Bool-cases (is_over printed_len mm mt l)) [
    | inr e ↦ (removed, rw (trim, e) refl)
    | inl e ↦ elim (Option-cases (remove_first l)) [
      | inl f ↦ absurd (ground (arith, e, rw (remove_first-none l f) at h))
      | inr (rest, f) ↦
          let (size, kept) = remove_first-some l rest f in
          let (n, done) =
            trim-total fuel mm mt rest (removed + 1) (omega (arith, size, b)) (rw kept h) in
          (n, rw (trim, e, f) done)
    ]
  ]

  limits_suffice :
      (max_messages max_tokens : ℕ) (messages : List ChatMessage)
      → length (systems messages) ≤ at_least_one max_messages
      → estimate_tokens printed_len (systems messages) ≤ at_least_one max_tokens
      → (n : ℕ) × ((enforce_limits printed_len max_messages max_tokens trim_oldest messages).1
          ≡ ok n)
  unfolding enforce_limits
  limits_suffice max_messages max_tokens messages few short =
      trim-total (length messages) (at_least_one max_messages) (at_least_one max_tokens) messages 0
        (omega arith) (ground (arith, few, short))

  systems-le :
      (l : List ChatMessage)
      → (length (systems l) ≤ length l)
        × (estimate_tokens printed_len (systems l) ≤ estimate_tokens printed_len l)
  unfolding estimate_tokens
  systems-le [] = (omega arith, omega arith)
  systems-le (m ∷ l) = elim (Bool-cases (is_system m)) [
    | inl e ↦ rw e (omega (arith, systems-le l), omega (arith, systems-le l))
    | inr e ↦ rw e (omega (arith, systems-le l), omega (arith, systems-le l))
  ]

  -- The policy that trims succeeds exactly when the system's messages alone are within the limits (a
  -- limit of zero counts as one): then its loop ends within as many removals as there are messages.
  pub enforce_limits_succeeds :
      (max_messages max_tokens : ℕ) (messages : List ChatMessage)
      → ((n : ℕ) × ((enforce_limits printed_len max_messages max_tokens trim_oldest messages).1
            ≡ ok n))
        ↔ ((length (systems messages) ≤ at_least_one max_messages)
            × (estimate_tokens printed_len (systems messages) ≤ at_least_one max_tokens))
  enforce_limits_succeeds max_messages max_tokens messages = (enough, needed)
    where
      enough :
          ((n : ℕ) × ((enforce_limits printed_len max_messages max_tokens trim_oldest messages).1
              ≡ ok n))
          → (length (systems messages) ≤ at_least_one max_messages)
            × (estimate_tokens printed_len (systems messages) ≤ at_least_one max_tokens)
      enough (n, done) =
          let left = (enforce_limits printed_len max_messages max_tokens trim_oldest messages).0 in
          let (few, short, _, same) =
            enforce_limits_within max_messages max_tokens trim_oldest messages n done in
          let (fewer, shorter) = systems-le left in
          rw (← same) (omega (arith, few, fewer), omega (arith, short, shorter))

      needed :
          (length (systems messages) ≤ at_least_one max_messages)
            × (estimate_tokens printed_len (systems messages) ≤ at_least_one max_tokens)
          → (n : ℕ) × ((enforce_limits printed_len max_messages max_tokens trim_oldest messages).1
              ≡ ok n)
      needed (few, short) = limits_suffice max_messages max_tokens messages few short

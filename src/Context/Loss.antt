-- ===== src/Context/Loss.antt =====
-- What an update of a conversation leaves in the store.
use ling_xi_agent.Prelude.{
  ℕ, String, ◌≡◌, ◌≢◌, none, some, List, map, lookup, remove, lookup-insert, lookup-remove, arith,
  eq_refl, eq_iff, Option-cases, inl, inr,
}
use ling_xi_agent.Errors.{ErrorCode, ok, err, context_unknown_handle, Result-cases}
use ling_xi_agent.Protocol.Json.{Value}
use ling_xi_agent.Context.Message.{ChatMessage}
use ling_xi_agent.Context.Store.{
  Store, OverflowPolicy, ToolResultRecord, ContextSnapshot, push_all, result_message, snapshot_of,
  update,
}

module _ (printed_len : Value → ℕ) where
  update_unknown :
      (handle : String) (messages : List ChatMessage) (results : List ToolResultRecord)
      (max_messages max_tokens : ℕ) (policy : OverflowPolicy) (store : Store)
      → lookup handle store ≡ none
      → update printed_len handle messages results max_messages max_tokens policy store
        ≡ (store, err context_unknown_handle)
  unfolding update
  update_unknown handle messages results max_messages max_tokens policy store e = simp (update, e)

  -- An update that fails leaves nothing under its handle: the conversation so far is lost, and every
  -- later update of it fails as one of an unknown handle.
  pub failed_update_loses :
      (handle : String) (messages : List ChatMessage) (results : List ToolResultRecord)
      (max_messages max_tokens : ℕ) (policy : OverflowPolicy) (store : Store) (code : ErrorCode)
      → (update printed_len handle messages results max_messages max_tokens policy store).1
        ≡ err code
      → let after =
          (update printed_len handle messages results max_messages max_tokens policy store).0 in
        (lookup handle after ≡ none)
        × (update printed_len handle messages results max_messages max_tokens policy after
            ≡ (after, err context_unknown_handle))
  unfolding update
  failed_update_loses handle messages results max_messages max_tokens policy store code h =
      let gone = lookup-remove handle handle store in
      let after =
        (update printed_len handle messages results max_messages max_tokens policy store).0 in
      let missing : lookup handle after ≡ none = ground (arith, gone, eq_refl handle, h) in
      (missing, update_unknown handle messages results max_messages max_tokens policy after missing)

  -- An update that succeeds stores the conversation that it returns, and changes no other.
  pub update_stored :
      (handle other : String) (messages : List ChatMessage) (results : List ToolResultRecord)
      (max_messages max_tokens : ℕ) (policy : OverflowPolicy) (store : Store) (s : ContextSnapshot)
      → (update printed_len handle messages results max_messages max_tokens policy store).1 ≡ ok s
      → handle ≢ other
      → let after =
          (update printed_len handle messages results max_messages max_tokens policy store).0 in
        (lookup handle after ≡ some s.messages) × (lookup other after ≡ lookup other store)
  unfolding update snapshot_of
  update_stored handle other messages results max_messages max_tokens policy store s h ne =
      elim (Option-cases (lookup handle store)) [
        | inl e ↦ absurd (ground (arith, e, h))
        | inr (entry, e) ↦
            let (first, n) = push_all printed_len max_messages max_tokens policy messages entry 0 in
            elim (Result-cases n) [
              | inr (code, f) ↦ absurd (ground (arith, e, f, h))
              | inl (k, f) ↦
                  let (second, last) =
                    push_all printed_len max_messages max_tokens policy (map result_message results)
                      first k in
                  elim (Result-cases last) [
                    | inr (code, g) ↦ absurd (ground (arith, e, f, g, h))
                    | inl (t, g) ↦
                        let taken = remove handle store in
                        ground (
                          arith,
                          e,
                          f,
                          g,
                          h,
                          ne,
                          eq_refl handle,
                          eq_iff handle other,
                          lookup-insert handle handle second taken,
                          lookup-insert handle other second taken,
                          lookup-remove handle other store,
                        )
                  ]
            ]
      ]

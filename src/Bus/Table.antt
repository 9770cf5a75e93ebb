-- ===== src/Bus/Table.antt =====
-- The message table of agent_bus.rs against a list of message ids.
use ling_xi_agent.Prelude.{
  ℕ, zero, suc, String, false, ◌≡◌, refl, ap, some, List, [], ◌∷◌, ◌++◌, ◌==◌, Dict, contains_key,
  lookup, insert, lookup-insert, lookup-remove, remove, take, drop, arith, eq_iff, Bool-cases, inl,
  inr,
}
use ling_xi_agent.Protocol.Envelope.{AgentMessageEnvelope}
use ling_xi_agent.Bus.Messages.{ids, remove_all}
use ling_xi_agent.Bus.Queues.{AllStored}

-- the id is not in the list
abbrev pub Absent : String → List String → Type 0
Absent id [] = Unit
Absent id (j ∷ rest) = ((j == id) ≡ false) × Absent id rest

-- no id stands in the list twice
abbrev pub Distinct : List String → Type 0
Distinct [] = Unit
Distinct (id ∷ rest) = Absent id rest × Distinct rest

pub missing-Absent :
    (id : String) (l : List String) (messages : Dict AgentMessageEnvelope)
    → contains_key id messages ≡ false
    → AllStored l messages
    → Absent id l
missing-Absent id [] messages e h = tt
missing-Absent id (j ∷ rest) messages e ((m, found, own), h) =
    (ground (arith, eq_iff j id), missing-Absent id rest messages e h)

Absent-append :
    (id j : String) (l : List String) → Absent id l → (j == id) ≡ false → Absent id (l ++ j ∷ [])
Absent-append id j [] h e = (e, tt)
Absent-append id j (k ∷ rest) h e = (h.0, Absent-append id j rest h.1 e)

pub Distinct-append :
    (id : String) (l : List String) → Absent id l → Distinct l → Distinct (l ++ id ∷ [])
Distinct-append id [] a h = (tt, tt)
Distinct-append id (j ∷ rest) a h = (
  Absent-append j id rest h.0 (ground (arith, eq_iff j id, eq_iff id j)),
  Distinct-append id rest a.1 h.1,
)

pub Absent-take : (id : String) (n : ℕ) (l : List String) → Absent id l → Absent id (take n l)
Absent-take id zero l h = tt
Absent-take id (suc n) [] h = tt
Absent-take id (suc n) (j ∷ rest) h = (h.0, Absent-take id n rest h.1)

pub Distinct-drop : (n : ℕ) (l : List String) → Distinct l → Distinct (drop n l)
Distinct-drop zero l h = h
Distinct-drop (suc n) [] h = tt
Distinct-drop (suc n) (j ∷ rest) h = Distinct-drop n rest h.1

pub AllStored-append :
    (l k : List String) (messages : Dict AgentMessageEnvelope)
    → AllStored l messages
    → AllStored k messages
    → AllStored (l ++ k) messages
AllStored-append [] k messages h g = g
AllStored-append (j ∷ l) k messages h g = (h.0, AllStored-append l k messages h.1 g)

-- A message takes the place of another with the same id.
pub replace-AllStored :
    (id : String) (m next : AgentMessageEnvelope) (l : List String)
    (messages : Dict AgentMessageEnvelope)
    → lookup id messages ≡ some m
    → next.message_id ≡ m.message_id
    → AllStored l messages
    → AllStored l (insert id next messages)
replace-AllStored id m next [] messages e same h = tt
replace-AllStored id m next (j ∷ l) messages e same ((n, found, own), h) = (
  elim (Bool-cases (id == j)) [
    | inl here ↦ (
      next,
      ground (arith, lookup-insert id j next messages),
      ground (arith, eq_iff id j, same, own),
    )
    | inr away ↦ (n, ground (arith, lookup-insert id j next messages), own)
  ],
  replace-AllStored id m next l messages e same h,
)

remove-AllStored :
    (id : String) (l : List String) (messages : Dict AgentMessageEnvelope)
    → Absent id l
    → AllStored l messages
    → AllStored l (remove id messages)
remove-AllStored id [] messages a h = tt
remove-AllStored id (j ∷ l) messages a ((m, found, own), h) = (
  (m, ground (arith, lookup-remove id j messages, eq_iff id j, eq_iff j id), own),
  remove-AllStored id l messages a.1 h,
)

-- The oldest messages leave the table, and the others stay.
pub evict-AllStored :
    (n : ℕ) (l : List String) (messages : Dict AgentMessageEnvelope)
    → Distinct l
    → AllStored l messages
    → AllStored (drop n l) (remove_all (take n l) messages)
unfolding remove_all
evict-AllStored zero l messages d h = h
evict-AllStored (suc n) [] messages d h = tt
evict-AllStored (suc n) (j ∷ l) messages d h =
    evict-AllStored n l (remove j messages) d.1 (remove-AllStored j l messages d.0 h.1)

pub lookup-remove_all :
    (id : String) (l : List String) (messages : Dict AgentMessageEnvelope)
    → Absent id l
    → lookup id (remove_all l messages) ≡ lookup id messages
unfolding remove_all
lookup-remove_all id [] messages h = refl
lookup-remove_all id (j ∷ l) messages h =
    ground (arith, lookup-remove_all id l (remove j messages) h.1, lookup-remove j id messages)

pub ids-drop : (n : ℕ) (l : List AgentMessageEnvelope) → ids (drop n l) ≡ drop n (ids l)
ids-drop zero l = refl
ids-drop (suc n) [] = refl
ids-drop (suc n) (m ∷ l) = ids-drop n l

pub ids-take : (n : ℕ) (l : List AgentMessageEnvelope) → ids (take n l) ≡ take n (ids l)
ids-take zero l = refl
ids-take (suc n) [] = refl
ids-take (suc n) (m ∷ l) = ap (λ t. m.message_id ∷ t) (ids-take n l)

pub ids-append :
    (l : List AgentMessageEnvelope) (m : AgentMessageEnvelope)
    → ids (l ++ m ∷ []) ≡ ids l ++ m.message_id ∷ []
ids-append [] m = refl
ids-append (n ∷ l) m = ap (λ t. n.message_id ∷ t) (ids-append l m)

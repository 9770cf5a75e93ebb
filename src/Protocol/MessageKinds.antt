-- ===== src/Protocol/MessageKinds.antt =====
-- crates/lingxi-runtime/src/agent_protocol.rs: `mod message_kinds`
use ling_xi_agent.Prelude.{String, List, [], ◌∷◌}

abbrev pub request : String
request = "task.request"

abbrev pub handoff : String
handoff = "task.handoff"

abbrev pub result : String
result = "task.result"

abbrev pub feedback : String
feedback = "task.feedback"

abbrev pub question : String
question = "task.question"

abbrev pub blocked : String
blocked = "task.blocked"

abbrev pub progress : String
progress = "task.progress"

abbrev pub all_kinds : List String
all_kinds = request ∷ handoff ∷ result ∷ feedback ∷ question ∷ blocked ∷ progress ∷ []

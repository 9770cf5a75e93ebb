-- ===== src/Protocol/MessageStatus.antt =====
-- crates/lingxi-runtime/src/agent_protocol.rs: `mod message_status`
use ling_xi_agent.Prelude.{String, List, [], ◌∷◌}

abbrev pub queued : String
queued = "queued"

abbrev pub delivered : String
delivered = "delivered"

abbrev pub acknowledged : String
acknowledged = "acknowledged"

abbrev pub completed : String
completed = "completed"

abbrev pub failed : String
failed = "failed"

abbrev pub rejected : String
rejected = "rejected"

-- what `acknowledge` accepts
abbrev pub final_statuses : List String
final_statuses = acknowledged ∷ completed ∷ failed ∷ rejected ∷ []

abbrev pub all_statuses : List String
all_statuses = queued ∷ delivered ∷ final_statuses

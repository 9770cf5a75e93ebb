-- ===== src/Protocol/ConfigStatus.antt =====
-- crates/lingxi-runtime/src/agent_protocol.rs: `mod config_status`
use ling_xi_agent.Prelude.{String}

abbrev pub pending : String
pending = "pending"

abbrev pub applied : String
applied = "applied"

abbrev pub rejected : String
rejected = "rejected"

abbrev pub superseded : String
superseded = "superseded"

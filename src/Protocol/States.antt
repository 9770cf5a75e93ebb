-- ===== src/Protocol/States.antt =====
-- crates/lingxi-runtime/src/agent_protocol.rs: `mod states`
use ling_xi_agent.Prelude.{String}

abbrev pub pending : String
pending = "pending"

abbrev pub running : String
running = "running"

abbrev pub pausing : String
pausing = "pausing"

abbrev pub paused : String
paused = "paused"

abbrev pub waiting_approval : String
waiting_approval = "waiting_approval"

abbrev pub blocked : String
blocked = "blocked"

abbrev pub completed : String
completed = "completed"

abbrev pub failed : String
failed = "failed"

abbrev pub cancelled : String
cancelled = "cancelled"

abbrev pub interrupted : String
interrupted = "interrupted"

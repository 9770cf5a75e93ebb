-- ===== src/Lib.antt =====
-- LingXi Agent: the schedulers of workflows, the permission manager, the agent bus, the protocol
-- between agents and the store of conversations.
--
-- The program runs workflows of agents. An agent that wants to touch a file, start a process or
-- use the network asks the permission manager of the runtime. Agents talk to each other, and to
-- the user, through the bus of their session, which also keeps their states, their activations
-- and the revisions of their configurations. What goes over the bus is data of the agent
-- protocol, and is validated before it is accepted.
--
-- Workflow is crates/lingxi-spec/src: Ports is node.rs, the kinds of nodes with their ports, and
-- Model is model.rs, workflows with their nodes, edges and subgraphs; GateBudget has the check of a
-- gate's budget, of validation.rs, and what it means for the scheduler. Validation is validation.rs:
-- Issues has issues and reports, Paths their places, Params the checks of parameters and assets, Edges
-- `validate_edges`, Subgraphs the ports and bindings of subgraphs, References the references between
-- them, Components `strongly_connected_components` and `has_cycle_without`, Control
-- `validate_control_flow`, and Report `validate`. A check is a function to the issues that it pushes.
-- The proofs: Search and Finished (the first search over the graph), Acyclic (the second), Passed (what
-- a graph without errors is like), Valid (validation against `execution_order`), Chains and Recursion
-- (references).
--
-- Flow is crates/lingxi-runtime/src/control_flow.rs, the scheduler of workflows with control edges.
-- State has the scheduler's state; Ready `evaluate`; Edges what happens on edges, and how nodes
-- are skipped and fail; Gate the loop gate; Nodes `run_node`; Composite `run_composite`, which
-- runs a subgraph with a scheduler of its own; Run the loop, `finish` and `execute`. Core is an
-- abstract machine with the steps that a scheduler may take, and Refinement relates the two along
-- the code: Edges, Inputs, Gate, Nodes, Each (the loops over all nodes) and Run.
-- The other modules are proofs: Budget (`gate_budget`), Invariants, Settled, Ended, Termination.
-- Branches runs a loop whose second iteration takes another branch.
--
-- Engine is crates/lingxi-runtime/src/engine.rs, the run of a workflow without control flow: Run
-- has the loop over the nodes, with what is read at each, Order `execution_order`, and Execute
-- `execute`, which chooses between this run and Flow. The proofs: Upstream and Outcomes (the
-- loop), Counts, Fair, Places and Topological (an order that is found), Tight and Complete (that
-- one is found). Nodes is what an executor reads of its node (context.rs), Builtin the built-in kinds
-- (builtin.rs) and Declared their proof.
--
-- Permissions is crates/lingxi-runtime/src/permissions.rs. Policy has the modes, the classes, a
-- run's policy and the keys of the caches; Targets the paths as `std::path` splits them on Unix
-- and `safe_relative`; Commands the tests on commands, which stand behind `auto_allowed`; Manager
-- the methods of PermissionManager, on a record with the cache of approvals, the policies, the
-- modes of nodes and the audit trail; Authorize the method `authorize_with`. The other modules
-- are proofs: Resolution (paths), Keys (the prefixes by which the caches are cleared),
-- Revocation, Modes, Isolation (one run against another), Grants and Audit.
--
-- Protocol is crates/lingxi-runtime/src/agent_protocol.rs: States, MessageKinds, MessageStatus
-- and ConfigStatus are the constants, Config the budgets and configurations, Json and Float what
-- `serde_json` values are, Schema `validate_json_schema`, Payloads `message_payload_schema`,
-- Envelope artifacts, messages and tasks with their validation, Session the records of a session.
--
-- Bus is crates/lingxi-runtime/src/agent_bus.rs. State has the bus and the control block of an
-- agent; Agents registration, states, activations; Messages `send`, `receive` and `acknowledge`;
-- Config the configuration revisions, interventions, reviews and artifacts, and from
-- agent_runner.rs `apply_pending_config`. The proofs: Sessions (the state of a session), Accept
-- (the branches of `send`), Queues (the order of delivery), Bounds (the limit of a queue), Table
-- and History (the session's messages against the table of messages), Sound and Traces (what holds
-- after any operations), Idempotency, LetThrough (the guards of `send`), Broadcast, Admission (what is let in, and that a refusal changes nothing),
-- Activations and Revisions.
--
-- Context is crates/lingxi-runtime/src/conversation.rs, the conversations that model calls carry
-- on: Message has the messages (of provider.rs and content.rs there), Store the store, its limits
-- and its operations; the proofs are Limits (trimming) and Loss (what an update leaves).
--
-- Redact is apps/desktop/src-tauri/src/redact.rs, which takes secrets out of what the desktop stores
-- and shows: Scan has slices and tokens, Text `redact_text`, on positions of the text, with the panics of
-- its slices, and Values the keys, JSON values and configurations. The proofs: Hidden (JSON values),
-- Ends, Fit and Total (texts).
--
-- Errors has the error codes that these parts raise; the texts of errors are left out. Prelude
-- has the shared list, map and text functions.
--
-- A method is one step: a function from the state to the new state and the result, which for a
-- failing method is what was changed before it failed. Most methods hold one lock for the whole of
-- their body. Some take several, one after the other (of the manager `set_policy`, `set_mode`,
-- `set_agent_mode`, `mode_for`, `revoke_run` and `authorize_with`, of the bus `resume_agent`, `pause_agent`,
-- `register_instance`, `apply_config` and `intervention`): what other tasks do between two of these is not
-- modelled, but for the prompt of `authorize_with`: what it brings back, and what other tasks have done
-- to the manager meanwhile, is an argument. The readings of the clock in `authorize_with` are separate;
-- other methods have one. A `HashMap` and a
-- `BTreeMap` are association lists in the order of their keys, and a machine integer is a natural
-- number: the counters are compared, or saturate, as written at `revision_of`, or wrap
-- around, as at `next_iteration`; the sum in `next_revision` is taken to fit. Clock readings and
-- fresh ids are arguments.
--
-- A run of the scheduler waits for executors, and looks at the clock and at the run's control. What
-- it reads is an argument: a list of turns, each with the readings of one round of the loop and the
-- turns of the subgraph that the round runs. A list that is too short leaves the run unended, which
-- `run` says beside the state. The events of a run keep the node, the activation and the iteration.
--
-- Parameters for code of other packages: `to_lowercase`, the Unicode lower-casing of the standard
-- library, of which nothing is assumed; `Serde`, the length of a message's JSON encoding and the
-- conversion of a JSON number to a float, and `printed_len`, the length of a printed JSON value,
-- of which nothing is assumed; `Primitives`, what the built-in kinds
-- use of the standard library and of `serde_json`, of which nothing is assumed; `Engine`, the kinds of nodes, their executors and the policy on
-- capabilities, of which nothing is assumed. A float is its 64 bits, with the comparisons of IEEE 754.
--
-- The fuel of `decimal`, which prints a number, is the number plus one, and a number has fewer
-- digits than that. The fuel of `trim` is the number of messages, of which each round removes
-- one; an empty conversation is within every limit, so that it is enough (`enforce_limits_succeeds`), and
-- a loop that runs out of it over a limit fails. The fuel of
-- `skip_node` is the number of nodes, of which each skip settles one, and that of `kahn` is the
-- number of nodes, of which each round takes another one. In Components, a round of the first search
-- looks at an edge or leaves a node, so that the numbers of edges and nodes together are enough; a round
-- of the second search, and of the queue of `has_cycle_without`, takes another node. In References each
-- call is for a subgraph that is not on the path to it, so that one more than their number is enough.
-- The fuel of `redact_from` is the number of characters, of
-- which each round takes one or more, and there is no text where it runs out (`redact_text-total`). All other loops are
-- recursion on a list or a text, or on the turns of a run.
--
-- Not modelled: waking the tasks that wait on an agent, the hash in an agent's id, the texts of a
-- configuration's changes, AgentResult, the log of a run and the labels in its events, the
-- messages of issues (the report of `validate` is a parameter of `execute`), which texts of an event or a
-- session are redacted, the providers, the tools, and all input and output.
pub mod Prelude
pub mod Errors
pub mod Permissions
pub mod Protocol
pub mod Bus
pub mod Context
pub mod Workflow
pub mod Flow
pub mod Engine
pub mod Validation
pub mod Redact

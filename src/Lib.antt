-- ===== src/Lib.antt =====
-- Tau (the crates of this repository): a coding agent whose daemon, the harness, routes events
-- between a user interface, an agent and tool extensions, and keeps each session as a log of events.
--
-- How the parts work together: a client's event enters the harness, passes the interceptors
-- (Interception), is committed to the session's durable log and folded into the session tree (Store,
-- Session), and is broadcast over the bus to the connections that subscribed (Bus). Tool requests go
-- to the connection that registered the tool (Tools). All of them speak in events and dotted event
-- names (Proto). The shell extension runs the tools that change files (Shell), the agent keeps web
-- sockets to its provider (Agent), and threads wake each other by the notify channel (Notify).
--
-- Files:
--   Prelude       library names, Boolean tests, lists, maps as association lists, byte strings.
--   Proto         crates/tau-proto/src/events.rs, messages.rs and frame.rs: `EventCategory`,
--                 `EventName` with `Display`, `FromStr` and `matches_prefix`, `Event`, `Frame`.
--   Session       crates/tau-core/src/session.rs: `SessionTree` as a record of nodes, head and next
--                 event id; `apply_event_at` is Session/Tree.antt's function of that name, and
--                 `from_events` replays a log.
--   Store         crates/tau-core/src/session_store.rs: the framing of events.cbor, and
--                 `append_session_event_at` as an action on the cached trees, locks and files, that
--                 may fail wherever the source returns an error.
--   Tools         crates/tau-core/src/tool_registry.rs: `ToolRegistry` with its two indexes, and the
--                 routing of tool requests over the bus.
--   Bus           crates/tau-core/src/bus.rs, connection.rs and policy.rs: `EventBus`, its routing,
--                 the default subscription policy and its approvals.
--   Interception  crates/tau-harness/src/harness/interception.rs: `InterceptorRegistry`, and the
--                 publish queue of `Harness`, with the prompt that `react_to_committed_event` of
--                 crates/tau-harness/src/harness.rs publishes into it after a user's message.
--   EventLog      crates/tau-harness/src/event_log.rs: the log that clients follow.
--   Dedup         crates/tau-harness/src/dedup.rs: `ResultDedupMap`, with the intake of tool results
--                 and errors of crates/tau-harness/src/harness.rs.
--   Shell         crates/tau-ext-shell/src/tools/apply_patch.rs, tools/edit.rs and truncate.rs: the
--                 parser of patches, the search for the lines of a chunk, the replacements, and the
--                 file changes on a file system that is a parameter; the edits of exact texts; the
--                 truncation of output.
--   Agent         crates/tau-agent/src/responses/pool.rs: `WsPool`, and the turns that run through it on
--                 sockets that are a parameter.
--   Notify        crates/tau-blocking-notify-channel/src/lib.rs: the channel as a step relation, of which
--                 a step is what one thread does under the lock.
--   Terminal      crates/tau-cli-term-raw/src/lib.rs: the completion menu of the input line.
-- Each folder has a module Examples with tests and instances on concrete values.
--
-- State is passed explicitly: an operation takes the state and gives its answer with the new state.
-- A `HashMap` or `BTreeMap` is an association list that finds the first entry of a key. Strings are
-- lists of bytes. CBOR payloads are a type parameter, and the encoding of records is a parameter
-- with a decoder that reads back what was encoded; hashes are a parameter too. What the operating
-- system answers is an argument. An event keeps the payload that the modelled code reads.
--
-- Bounds and fuel: `branch_from` walks on fuel; one more than the number of nodes is enough for a
-- tree whose parents exist. `load_records` takes one more round than the file has bytes, and a round
-- reads eight at least. `digits` has more fuel than a number has digits. The parser of patches
-- gets one more round than there are lines, and a round reads a line at least; trimming gets one
-- for each byte. A commit may react to one depth, since its reaction publishes an event that starts
-- no other one (`commit_event_enough`); the loop on the deferred publishes gets as many rounds as there
-- are publishes, and leaves nothing to do. Event ids, node ids and connection numbers are unbounded here; they count what was
-- appended.
--
-- Not modelled: serialization by serde and ciborium, the content of meta.json, clocks, the prompt that
-- `send_prompt_to_agent_for` builds (of it, the publish of `SessionPromptCreated` is modelled),
-- sockets, processes, the providers' HTTP, the terminal but for its
-- completion menu, and the harness's own event loop.
pub mod Agent
pub mod Bus
pub mod Dedup
pub mod EventLog
pub mod Interception
pub mod Notify
pub mod Prelude
pub mod Proto
pub mod Session
pub mod Shell
pub mod Store
pub mod Terminal
pub mod Tools

-- ===== src/Lib.antt =====
-- The durable session state of the ws daemon (wsd/crates).
--
-- Every session of the daemon has an append-only log of entries. An SQLite index, the registry, is
-- reduced from those logs and can be rebuilt from them. This library models the log file, the
-- reduction and the transactions round it, and the state machine of a session.
--
-- What models what:
--   Entry        an entry of a log (ws-core/src/log.rs, LogEntry).
--   External     what the code takes from crates: JSON values (serde_json), the text of ULIDs (ulid)
--                and SQLite's JSON functions. They are an argument of every definition that uses them.
--   Log          ws-core/src/log.rs. Values has JSON values and validate_numbers; Lines the lines of a
--                file; Read has read_file, SessionLog::read and read_after; Writer has LogWriter with
--                append and append_locked. Read/Prefix, Writer/Appended, Writer/Heads and
--                Writer/Safety have the lemmas; Values/Exact, Read/Chain, Read/Tail and Writer/Append
--                the theorems.
--   Session      ws-core/src/state.rs: SessionState, transition, event_type and Display. Its child
--                Lifecycle has the diagram and the runs of transitions.
--   Registry     ws-core/src/registry. Schema has the tables of schema.sql and the types of mod.rs;
--                Fields the readers of an entry's fields (required_str, optional_str, sql_number,
--                parse_id); Project the reduction, a module for each of project_repo,
--                project_session, project_workspace, project_edge and project_message; Apply has
--                apply_entry; Store has open, apply, rebuild and next_alias; CatchUp has catch_up;
--                Events the queries of one event (latest_event, latest_process_exit,
--                event_for_callback); Resolve has resolve, which finds a session by a text;
--                Lists the lists of messages and of events in their order.
--   Guard        ws-daemon/src/loops/guard.rs, the guard of a loop's shell commands. Shell has commands
--                and substitution; Arguments command_start, subcommand and push_targets_integration;
--                Classify has classify; Context the search for the loop among a session's ancestors;
--                Check has shell_command, integration_branches and check. Their children have the
--                theorems.
--   Edges        ws-daemon/src/edges.rs: the search of path, and add_dependency in Edges/Add with the
--                parts of ws-daemon/src/sessions.rs that it calls (get_record, record_call,
--                and append_entry for types that tag_loop_spawn passes over). Walk, Discover, Found,
--                Answers and Acyclic have the lemmas on walks, and Add/Applied, Add/Refused and
--                Add/Cycles those on the index.
--   Limits       ws-daemon/src/limits.rs. Ancestors has the loop over a session's ancestors that the
--                code writes three times; Scope legacy_loop_scope and spawn_scope; Check
--                check_spawn_limits, check_loop_spawn_cap and tag_loop_spawn. Their children, Collect and
--                Seen have the lemmas and theorems.
--   Triggers     ws-daemon/src/triggers.rs. Search has check_trigger_cycles, the search for a cycle through
--                the edges that a trigger adds; Pending has apply_trigger_entry, which keeps the pending
--                triggers, and the test of evaluate_trigger; Template has expand.
--   Calls        a call of the service in ws-daemon/src/sessions.rs: what it reads and appends, and the tables
--                after it, where a call that fails keeps what it has written; append_entry with
--                tag_loop_spawn; next_alias of import/backend.rs.
--   Sessions     ws-daemon/src/sessions.rs: create, rename, reparent, transition, change_state and stop, with
--                process_exited of supervisor.rs. Moved, Above and Moves have the theorems.
--   Bus          ws-daemon/src/bus.rs, the messages between sessions. Bus has the rows of an inbox and the
--                numbers of a pair; Service send_message_inner, inbox, ack_messages and message_session.
--                Numbered and the children of Service have the theorems.
--   Registry/Step, Steps and the Steps below Project: the step relation that the reduction follows.
--   Registry/Invariant, Index, Owners, Replay, States, Store/Aliases, Store/Rebuild, CatchUp/Index,
--   Events/Latest: the theorems.
--   Tests        runs on concrete logs, and each theorem at a concrete input.
--
-- How the code is read. A log file is a list of bytes with a stamp; an append takes the outcome of
-- its system calls as an argument: the new id, the clock, how many bytes reach the file before an
-- error, and the file's new times. The encoding of entries (serde_json, the canonicalizer and
-- SHA-256) is a Codec, and CodecLaws says what it promises: a text without a newline that is read
-- back as the entry. A head that the writer retains under an unchanged stamp is trusted to
-- describe the file, which is a hypothesis for the first append and a result for the next. The
-- file lock, which keeps other writers away between the stamp and the write, is the atomicity of
-- append_locked.
--
-- A table is the list of its rows, newest first, and an SQL statement is a function on that list:
-- INSERT with its primary key and unique constraints, which fail as an SQLite error, INSERT ... ON
-- CONFLICT DO UPDATE, UPDATE and DELETE by a test. A column that holds a ULID's canonical text
-- holds the 128-bit number here, and a column that holds a JSON text holds the value.
-- applied_events keeps the entry whose text its column holds, and texts are compared by the same
-- serializer as in the code. A transaction is a function from tables to a result: an error drops
-- the new tables. SQLite failures other than constraints (a locked or damaged file) are not
-- modelled. u64 and i64 values are natural numbers with the range checks that the code makes
-- written out. An error message is a constructor of Reason. Threads: the parallel readers of
-- for_each_log are the order of the list of reads, which is arbitrary.
--
-- Fuel. Most loops are over a list. commands takes the number of characters as fuel and
-- command_start the number of words, since each round takes one at least; Guard.Shell.Scanned and
-- Guard.Arguments.Grammar show that it reaches the end. The depth of the guard, an u8 that stops at 8,
-- is a number of levels, 9 - depth. The search for an ancestor takes two more rounds than there are
-- sessions with a log, and Guard.Context.Ends shows that this is enough. The search of path takes one
-- round for the start and one for each edge, since a session is queued once, as the target of an edge;
-- Edges.Answers shows that this is enough. A climb in limits.rs takes two turns more than the table
-- has rows, since each ancestor but the first is a parent that a row names (Limits.Ancestors.Ends).
--
-- The guard reads a text as the list of its code points, and an index into a list of words is the
-- list from there on. The branch that git has checked out, the patterns of the glob crate, shell_words,
-- the JSON reader and the text of plan.md are parameters. The guard's check names the event that it
-- appends to the loop's log; how append_daemon_loop_event of events.rs ends for it is a parameter. In add_dependency the log's writer is a Journal, and JournalLaws says what it
-- promises; what observes an append once it is applied (usage, spans, triggers, loops) is left out of append_entry.
-- The scope of a loop, a text such as session:id, is its list of code points.
--
-- search_back of Triggers takes one round for the target of the new edge and one for each edge, since a
-- session's targets are pushed once, and Triggers.Search.Answers shows that it is enough; expand takes
-- the number of characters, since a round takes one at least.
--
-- A pending trigger is kept in an association list from ids to triggers, and the numbers that an inbox
-- expects are a function from senders. What serde_json reads a trigger or the content of a message from
-- is a parameter. In Bus, a reopened recipient leaves tables that a parameter gives, and BusLaws and
-- WriterLaws say what the log's writer promises: a new id, and the session, type and body that it was
-- given. In Sessions, the bodies of entries and what stop does to windows are parameters, and a
-- search has the fuel of the table's rows and two more, which Sessions.Above shows to be enough.
-- The rebuild that record_call makes after a failed append is left out of it: it is Registry.Store's.
--
-- Not modelled: of ws-core, the list of workspaces, the telemetry log, and the files of configuration
-- and devices. Of ws-daemon, delivery, the registration and the firing of triggers (which read
-- transcripts and launch agents), and the quota. HTTP, processes, tmux, git, telemetry export and the
-- command line are input and output.
pub mod Prelude
pub mod Entry
pub mod External
pub mod Bus
pub mod Calls
pub mod Edges
pub mod Guard
pub mod Limits
pub mod Log
pub mod Registry
pub mod Seen
pub mod Session
pub mod Sessions
pub mod Triggers
mod Tests

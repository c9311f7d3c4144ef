-- ===== src/Lib.antt =====
-- The PitLane agent: it runs game servers on a machine for one or more hubs. A hub sends commands over
-- a WebSocket; the agent journals each one, executes it and reports what became of it, together
-- with the state of its servers.
--
-- The parts, and the files that model them:
-- - Common: Boolean tests, integers, Python's texts and dicts, JSON values, tables of rows.
-- - Journal: agent/services/agent_command_journal.py, `AgentCommandJournal`. Types has the rows of the
--   two tables, Contract the reading of a message (`_normalize_command`), Operations one function for
--   each method. A journal is a list of commands and a list of fences, the newest first.
-- - Maintenance: agent/services/agent_command_maintenance.py and the daily cleanup of the journal.
-- - Coordinator: agent/services/durable_command_executor.py, `DurableCommandCoordinator`. State has the
--   monad of its methods, with exceptions that keep what was done; Operations has the methods; Workers
--   has `_execute` once more, in the steps between which other threads act.
--   Execution and Replay say what `_execute` and a replay do; Keys, Queue, Jobs and Schedule are about
--   the scheduled commands and their jobs.
-- - Connection: agent/services/websocket_authentication.py, websocket_heartbeat.py and
--   websocket_inbox.py beside it, and the message handlers of hub_ws_client.py (Frames, Messages).
-- - Runtime: agent/services/process_supervisor.py (Supervisor), runtime_state_tracker.py (Tracker),
--   runtime_state_session.py (Session), season_restart_guard.py (Guard).
-- - Telemetry: agent/core/capacity_profiler_constants.py (Classify) and
--   agent/services/player_count_observer.py (Log, Lines and Observer for the observer, with
--   its properties in Facts and Pieces; Drivers for the resolver).
-- - Spool: agent/services/result_artifact_spool.py and result_pipeline.py, the results of games on their
--   way to a hub. Types has the manifests; Deliveries the states of an artifact; Scans the scan of a
--   directory; Launches the registration; Purge the purge; Pipeline a round of uploads. The proofs are
--   in Stored, Purges and Life (what the spool keeps), Retries, Taking and Observed.
-- - Config: what a launch is given. agent/services/runtime_policy.py (Policy), runtime_bundle.py (Bundle),
--   current_config_store.py (Files), entry_list_store.py (EntryList), runtime_config_compiler.py
--   (Finalize), the first part of `launch_instance_command` in agent_commands.py (Prepare), the header
--   of encode_config.py (Frames). Values has Python's `==` on JSON; the proofs are in Redaction,
--   Acceptance, SteamIds, Histories and Launching.
-- - Server: the game servers. agent/services/instance_port_guard.py (Ports, Waiting), server_manager.py
--   (Instances), runtime_state.py (Identity, Persistence). The proofs are in Orphans, Owners, Stops,
--   Adoption and RoundTrip.
-- - Commands: `launch_instance_command` of agent/services/agent_commands.py (Launch), which acts on the
--   files of Config, the spool and the servers; Once is about a launch that is delivered again. The
--   instance of a message is taken to have the id that the command is for.
-- - Tests: the model run at concrete inputs.
--
-- How they interact: a message that arrives is dispatched by Connection.Messages; a durable command
-- goes to Coordinator.Operations.receive, which calls Journal.Operations.receive and schedules the job
-- that Coordinator.Operations.execute runs later. The handlers answer what the journal refuses. The
-- guard acts on the facts that Telemetry.Observer has read of the log, and the session sends what the
-- tracker has seen. In Commands.Launch a launch is prepared by Config.Prepare,
-- registered by Spool.Launches and started by Server.Instances, which keeps the running servers in Runtime.Supervisor; Server.Persistence saves and
-- restores that supervisor. A round of Spool.Pipeline scans for results and uploads those that are due.
--
-- Choices:
-- - A method of the journal is one transaction: it takes the tables and gives new ones, or an error and
--   no change. Its INSERT tests the primary key; the size of an INTEGER is tested with `2 ^ 63 - 1`.
-- - The clock is an argument: an ISO text in UTC where it is stored, milliseconds where it is compared.
--   ISO texts are compared as SQLite does, as texts.
-- - Python's library is a record (`Python`, `Patterns`, `Clock`): uuid, json, sha256, regular
--   expressions, dates. A JSON value has integers and no floats.
-- - A callback is a Boolean that says whether it returns or raises; the executor of commands is a
--   function. What they were called with is logged in the state.
-- - In Operations a method of the coordinator runs to its end. In Schedule a worker makes one step of
--   `_execute` at a time, and messages, replays and other workers come in between; what schedules a
--   command may have read its row long before. The lock of a target, which only excludes some of these
--   orders, is left out.
-- - An UPDATE with a status code that is no INTEGER of SQLite raises; `execute_command` is taken to return
--   codes that are, as those of HTTP are.
-- - The limit of a page of rows and of a batch of messages is a natural number. The drain recurses on
--   `max 1 limit`, the number of rounds of the loop, so it never runs out.
-- - Instants are nanoseconds in Spool, milliseconds in Server. What psutil, HTTP and the file system
--   answer is an input of the operation that asks. A directory does not change during one call of the
--   spool, and the pipeline marks only artifacts that are not purged.
-- - The wait for the ports recurses on a number of rounds: the timeout in steps of ten milliseconds, the
--   shortest sleep, and one more. A process of a game server is a number that is never used twice.
-- - A percentage is a whole number of thousandths of a percent.
--
-- Not modelled: the SQLite file, threads and locks within a method, the reconnection loop, the session
-- part of the encoder, the handlers of commands other than the launch, the texts of the files, the capacity profiler's store, Flask routes, Steam, the
-- firewall, the installers. To the coordinator the handlers are the parameter
-- `execute_command`.
pub mod Common
pub mod Journal
pub mod Maintenance
pub mod Coordinator
pub mod Connection
pub mod Runtime
pub mod Telemetry
pub mod Spool
pub mod Config
pub mod Server
pub mod Commands
pub mod Tests

-- ===== src/Lib.antt =====
-- Wakey: a verification library for the core of the self-hosted error watcher under src/wakey.
--
-- An event is accepted as a delivery into a durable queue, named by a fingerprint, counted exactly
-- once, and run through the policy: a gate decides whether it wakes anyone, a ticket is created or
-- updated on a forge, and the event is journaled. After a fix is merged a watcher judges from the
-- events and deploys whether it helped, and a lifecycle pass closes tickets that fell silent. Every
-- action leaves a line in a hash-chained audit log.
--
-- The files, and the code that each is about (paths from the root of the repository):
--   Prelude, Prelude/*    Boolean tests, lists, texts and association lists; no code of the program
--   Models, Config        src/wakey/core/models.py, and ServiceYaml of src/wakey/core/config.py
--   Storage/Deliveries    the deliveries table of SQLiteStorage, src/wakey/core/storage.py
--   Storage/Fingerprints  its fingerprints table
--   Storage/Events        its log_events table and claim_event
--   Storage/Audit         its audit table: record_audit, verify_audit_chain, _backfill_audit_chain
--   Storage/Deploys       its deployments table
--   Storage/Services      its services table
--   Storage/Secrets       its secrets table
--   Postgres              src/wakey/storage/postgres.py: Deliveries, Counting and Tables are its
--                         operations; Agreement, Listing and Shortfall set them beside SQLite
--   Windows               SlidingWindowCounters of src/wakey/fingerprints/windows.py
--   Forge, Forge/Console  src/wakey/forge/port.py: failures, the port, the console adapter
--   Policy/Gate           src/wakey/policy/gate.py
--   Policy/Verification   src/wakey/policy/verification.py; Verification/Grace is build_grace_inputs
--                         of src/wakey/core/composition.py
--   Policy/Watcher        src/wakey/policy/watcher.py
--   Policy/Scheduler      src/wakey/policy/scheduler.py
--   Exec                  methods that change the world and may raise, and their sequencing
--   Pipeline              src/wakey/ingest/pipeline.py
--   Tickets               src/wakey/tickets/lifecycle.py and run_lifecycle of core/composition.py
--   Worker                src/wakey/ingest/worker.py: Replay on a delivery that is processed again,
--                         Queue on one round, Draining on the loop
--   Redaction             sanitize_log_event of src/wakey/security/redaction.py, Luhn on luhn_valid,
--                         Engine on RedactionEngine
--   Connect               src/wakey/forge/connect_store.py (Store), connect_server.py (Server, Relay)
--                         and connect_client.py (Client); Steps has the calls of the store as a step
--                         relation, Routes the routes as sequences of steps
--   Rca                   src/wakey/agents/rca.py: Budget and Caps on the hourly budget, Dispatch and
--                         Untouched on a pass
--   Commands              src/wakey/web/commands.py
--   Fix                   src/wakey/agents/fix.py: Gate on the eligibility, Loop and Proof on the fixers;
--                         Delivery and Delivered on src/wakey/agents/fix_delivery.py; Refusals, Attempt,
--                         Executor, Reported and Guarded on src/wakey/agents/fix_executor.py
--   Tests                 the theorems at concrete inputs, and small runs
--
-- A table is the list of its rows in order of insertion; an operation is one transaction, a function
-- from the table to the table and its answer, as the lock and the transaction of the source make it.
-- A method of the pipeline, the watcher or the lifecycle is a function from a World (the tables, the
-- counters, the clock's readings and the forge) to a reply and the world after it; an exception
-- keeps what was written before it. An `ON CONFLICT` of Postgres is a test on the
-- key columns. The forge is a record of calls over a state of its own, and
-- ConsoleForge is one. Names follow the source; a helper named for a fragment of a method says so.
--
-- A time is a number of microseconds, and a difference of times is written as a comparison of sums.
-- `confidence_floor` is in millionths. SQLite orders ISO texts as it orders times. The digits of a
-- number are printed with fuel n + 1, one more than there can be digits; every other loop is a
-- recursion on a list, or on the number of rounds asked for. The worker's polling has no end in the
-- source; here it is a number of rounds of one worker, one after another, and Worker/Draining says
-- how many empty the queue. The concurrent workers of the pool are left out.
--
-- In Connect the steps are calls of the store, each of which is one transaction, in any order. A route
-- runs with nothing in between, but for the token route, in which anything may happen to the store
-- while GitHub answers. A row stands for what it encrypts, and an exception inside a transaction undoes
-- it.
--
-- Parameters: SHA-256, json.dumps and the ISO text of a time (Storage/Audit), the encryption of the
-- secret box (Storage/Services), the forge, the naming of events (identify) and the parser of a
-- stored configuration (Pipeline), the text of a lifecycle detail (Tickets), the watch inputs
-- (Watcher, which Grace fills in the program), the events of a payload, the redaction of a text and
-- the registered consumers (Worker), the scans of the regexes and the digits of a text
-- (Redaction/Engine), the hash of a credential, the answers of GitHub and the drawn tokens (Connect),
-- the model, the repository evidence, str.lower and the texts of a float (Rca), the parsing of a
-- comment and the executors (Commands), the file
-- system, the test runs, the proposer, the workspace, the verifier,
-- the parsing and the texts of numbers, the texts of an exception and those of a proposal (Fix). The
-- execution lock of the executor is a Boolean argument.
--
-- Not modelled: the exceptions of reading a service, whose secret is decrypted (Pipeline), the clean-up
-- of a fix's workspace (Fix/Attempt), the regexes of normalizers and parsers, the calls of language
-- models, the HTTP adapters and routes, authentication, encryption, logging and metrics.
pub mod Prelude
pub mod Models
pub mod Config
pub mod Connect
pub mod Policy
pub mod Storage
pub mod Windows
pub mod Forge
pub mod Exec
pub mod Pipeline
pub mod Tickets
pub mod Worker
pub mod Redaction
pub mod Rca
pub mod Commands
pub mod Fix
pub mod Postgres
pub mod Tests

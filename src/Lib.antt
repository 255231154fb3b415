-- ===== src/Lib.antt =====
-- The OpsRamp agent orchestrator: a server that takes the reports of OpenTelemetry agents over OpAMP and
-- offers them their group's configuration and packages, deploys OpsRamp agents in bulk over SSH, and keeps
-- and grades an inventory of the agents that the OpsRamp API knows.
--
-- The parts, and the file that models each:
-- - Model: the domain types (internal/model/model.go).
-- - Store: the PostgreSQL store (internal/store/postgres.go). Store/World has the tables, and an action
--   `World → Result Error A × World` for a method. A statement may fail, by the list `faults`, and then
--   writes nothing; a transaction undoes its body on any error. Agents, Groups, Packages, Inventory and Jobs
--   have the methods, a function for each, named as in the code. Groups/Versions and Groups/References
--   have what holds of versions and of deleting, Steps and Rows the lemmas on statements and on tables.
--   Sound follows the choice of faults through a method, and Packages/Shelf with Packages/Refined has the
--   packages as a map from names.
-- - Opamp: the OpAMP server (internal/opampserver). Registry has the live connections (server.go), Resolve
--   the choice of an agent's group and Offers what it is offered (reconcile.go, push.go), Proto the
--   conversions (protoutil.go, mapping.go), Hex the hexadecimal coding, Messages the handlers (message.go,
--   server.go) and Push the pushes (push.go). A handler takes the registry and the world to the new ones.
-- - Deploy: bulk deployment (internal/deploy). Targets expands a target spec (targets.go) with the
--   addresses of Address; Shell and Commands build the remote commands, Dial opens and closes the
--   connections and Hosts has the outcome on a host (ssh.go); HostKeys pins host keys (hostkeys.go); Start
--   checks and records a job, Run is its workers and Work what a worker does on a host, Whole a job from its
--   start to its end (manager.go).
-- - Opsramp: Client has the REST client's token cache, its retry and its pages, Endpoints the paths, queries
--   and bodies of the single calls (internal/opsramp/client.go, api.go); Connector has the settings that are
--   in force, and Calls what the connector does with its client (internal/opsramp/connector.go, poller.go).
-- - Api: the admin API (internal/api). Http has what a handler takes and gives, the check of the token and
--   the mapping of the store's errors (api.go); Agents, Groups, Packages, Deploy and Connector have the
--   handlers of agents.go, groups.go, packages.go, deploy.go and opsramp.go, named as in the code; Routes is
--   the table of Handler with the choice of an entry (api.go, ui.go). Spares, Reading, Relaying, Writing,
--   Proper and Served follow the database through a request, Configs, Uploads, Assigning and Listing are
--   about single handlers.
-- - Config: the configuration from the environment (internal/config/config.go).
-- - DemoAgent: the demo agent's config files (cmd/demo-agent/main.go), with Packages its package provider
--   (packages.go), Identity its instance UID and its labels, and Description what it says of itself (util.go).
-- - Reconcile: the fleet report (internal/reconcile/reconcile.go), with the order of versions in Versions and
--   the classes of a status in Status.
-- - Prelude: the names that the modules share; Tests: concrete inputs on which the theorems apply.
--
-- How they meet: Opamp, Deploy.Start, Deploy.Run, Opsramp.Connector and Api call the store's actions; the
-- handlers of Api call the OpAMP server, the start of a job, the report and the connector; the jobs of
-- Deploy.Start take the connector's answers as a record; Deploy.Targets reads back the target specs that
-- Reconcile writes; the demo agent takes the offers of Opamp and reports back to it.
--
-- Choices. A Go string is the list of its bytes, white space and letter case are those of ASCII. A Go map
-- with string keys is a list of entries. A time is a number, `World.now` the moment of an action. What is not
-- in the repository is a parameter: the text forms of net/netip, `net.SplitHostPort`, JSON, SHA-256, protojson,
-- the printing of floating point numbers, the answers of the OpsRamp servers, and sending on a connection.
-- The database compares texts byte by byte. `-1`, the exit code of a command that has none, is `none`.
-- The log is left out, as are contexts with their deadlines.
--
-- Concurrency. The handlers of the OpAMP server hold the lock of the registry, so a list of events is an
-- interleaving. A job's workers are a machine: a move is what one goroutine does between two points at which
-- others can be seen, and a list of moves is an interleaving.
--
-- Fuel. The loop over a CIDR block has 1030 rounds and that over a range 1026: each stops with an error
-- behind `MaxTargets` (1024) hosts, so that a round is left. The walk through the pages of the inventory
-- takes its fuel as an argument: one round more than the pages that the servers claim. Decimal digits have
-- 20 places, which hold every number of 64 bits.
--
-- Not modelled: the admin page's content, the sessions of an SSH connection, the ticking of the poll loops,
-- the recovery from panics (the models are total), the log, the flags of the demo agent and the start of the
-- two programs. They are input and output, or calls of libraries.
pub mod Prelude
pub mod Model
pub mod Config
pub mod Reconcile
pub mod Deploy
pub mod Store
pub mod Opamp
pub mod Opsramp
pub mod Api
pub mod DemoAgent
pub mod Tests

-- ===== src/Lib.antt =====
-- brazier, a CI engine: a verification library beside the Go code of the repository.
--
-- A pipeline is a graph of nodes (jobs and stages). The SDK (sdk/go) builds it, the master starts
-- a run of it (internal/pipeline/run.go), and the scheduler (internal/pipeline/scheduler.go) sends
-- the jobs of ready nodes to agents, which the registry (internal/registry) keeps with their
-- loads. The API (internal/api) hands requests on to these parts. The states of runs and nodes,
-- and the logs, are in a database (internal/db). Events go over an in-process bus (internal/bus).
-- An agent runs a job (internal/executor) with its secrets (internal/secrets) in the environment.
--
-- Files, with the code that each follows:
--   Base             texts, lists and tests that the other files share; the functions of Go's
--                    `strings` that the program calls are in Base/Strings
--   Proto            the messages of proto/gen: `PipelineSpec`, `Node`, `JobSpec`, …
--   Db               internal/db/db.go and sqlite.go: the tables and the statements; Db/Store has
--                    the methods of the interface `DB`, each a statement that may fail.
--                    Db/Postgres follows internal/db/postgres.go
--   Bus              internal/bus/bus.go
--   Pipeline/Conditions  `RunContext`, `evalCondition`, `matchGlob`
--   Pipeline/TopoSort    `TopoSort`
--   Pipeline/Scheduler   `Scheduler.Advance` and `Scheduler.dispatch`
--   Pipeline/Manager     `Manager.Start` and `Manager.NodeCompleted`
--   Pipeline/Progress    the two together: a run in rounds, each a call of `Advance` and then a
--                    call of `NodeCompleted` for each node that is running
--   Registry         internal/registry/registry.go, and `registryDispatcher` of cmd/master/main.go
--   Api              internal/api/server.go: the handlers of the gRPC services
--   Workflow         internal/workflow/loader.go and executor.go
--   Client           internal/client/agent.go: what an agent sends for a job, and its connections
--   Runner           internal/runner
--   Executor         internal/executor/executor.go: the environment and the commands of a job
--   Secrets          internal/secrets/inject.go and db.go; Secrets/Cloud has awsssm.go, gcp.go and
--                    vault.go
--   Artifacts        internal/artifacts: s3.go and gcs.go; Artifacts/Local has local.go,
--                    Artifacts/Artifactory has artifactory.go
--   Config           internal/config/config.go
--   Auth             internal/auth/apikey.go, session.go and middleware.go; Auth/Oauth has
--                    oauth.go
--   Webhook          internal/webhook/handler.go
--   Master           cmd/master/main.go: what a webhook starts; Master/Process has the start and the
--                    end of the process
--   Cli              cmd/cli/cmd: grpc.go, run.go, trigger.go, logs.go, status.go and agent.go
--   Sdk              sdk/go/brazier.go and workflow.go
--   Examples         small inputs, tests, and the theorems at them
--
-- How the code is modelled. A Go string is a list of code points, so strings that are not valid
-- UTF-8 are left out. A Go map is a function or a list of its entries. The database is a record
-- of tables; which statements fail, and what the clock shows, is the parameter `Env`. The
-- order in which PostgreSQL returns rows, and the gaps between its ids, are the parameter `Server`.
-- The dispatcher is the parameter `Dispatcher`. Log lines are left out. `TopoSort` recurs on fuel,
-- one more than the number of nodes: `visit` puts a new node on the stack before it calls itself,
-- so the calls are never deeper.
--
-- Clients of other services (buckets, parameter stores, HTTP), git, YAML, JSON, ciphers and the file
-- system are parameters; theorems about them assume laws that are records of their own.
--
-- Not modelled: the generated gRPC code, the parsing of the command line's flags, and network and
-- process I/O.
mod Base
pub mod Proto
pub mod Bus
pub mod Db
pub mod Pipeline
pub mod Registry
pub mod Api
pub mod Secrets
pub mod Executor
pub mod Runner
pub mod Workflow
pub mod Artifacts
pub mod Config
pub mod Client
pub mod Auth
pub mod Webhook
pub mod Master
pub mod Cli
pub mod Sdk
mod Examples

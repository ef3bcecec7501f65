-- ===== src/Lib.antt =====
-- go_sentinel is a distributed load tester. A plan (stages of virtual users, and HTTP requests) is
-- read and checked by internal/runtime, sent to the orchestrator, which spreads the virtual users
-- over the workers, and run by each worker, which reports its metrics until it is done.
--
-- Base         shared helpers: signed integers over the native numbers with int32 and int64
--              wrap-around (Base.Int), maps as association lists in the order of their range
--              (Base.Dict), float64 as an interface without laws (Base.Float), a result type,
--              and the functions of package strings that the program uses (Base.Text)
-- Models       pkg/models/models.go: a struct is a record, a string enumeration a data type
-- Proto        the messages of proto/orchestrator and proto/metrics that the code reads or fills
-- Runtime.Scenario, Runtime.Parser
--              internal/runtime/scenario.go and dsl_parser.go: Validate, ParseRequest, FromSpec
--              and substituteVars are validate, parse_request, from_spec and substitute_vars
-- Runtime.Wire, Runtime.Received
--              a plan on the wire: ScenarioToProto (internal/runtime/proto.go), and what the worker
--              (convertProtoPlan, cmd/worker/main.go) and the orchestrator (convertPlan,
--              internal/orchestrator/server.go) make of it
-- Orchestrator.Distributor, Orchestrator.Allocation
--              internal/orchestrator/plan_distributor.go: DistributePlan, MarkWorkerDone,
--              SetStatus, RebalanceTest, and the rounding of allocateStageVUs
-- Orchestrator.Ring, Orchestrator.Nodes
--              internal/orchestrator/node_manager.go: the consistent hash ring and the node table
-- Orchestrator.Aggregator
--              internal/orchestrator/metrics_aggregator.go
-- Orchestrator.Server, Orchestrator.Server.Messages
--              internal/orchestrator/server.go: the handlers, over the state of these three, and the
--              messages that they send
-- Store, Store.Table, Store.Runs, Store.Users, Store.Plans
--              internal/store: the tables as lists of rows in the order of their rowid, the SQL
--              statements on one table, and the queries of store.go, which carry their names
-- Api.Allowlist, Api.Queue, Api.Dispatcher
--              internal/api/allowlist.go: the hosts a plan may aim at; and internal/api/queue.go:
--              the slot of the current run and the attempts, and dispatchNext, dispatch, Cancel and
--              Start over the store
-- Api.Metrics, Api.Session, Api.Recorder
--              internal/api/recorder.go: the session of a run with its subscribers, and the loop that
--              records the run; the metrics of internal/api/sse.go
-- Api.Auth, Api.Accounts, Api.Runs, Api.Reply
--              the handlers of internal/api: auth.go, users.go, server.go and history.go, each a
--              function of the store, of the decoded request and of what the orchestrator answers
-- Worker.Reporter
--              internal/worker/reporter.go: the batches that a worker sends
-- Worker.Spans, Worker.Collector
--              internal/tracer/span_aggregator.go and internal/worker/metrics.go: the counters
-- Worker.VirtualUser
--              internal/worker/virtual_user.go: assertions, and what an iteration records
-- Worker.Engine
--              internal/worker/engine.go: RunTest over the collector, the virtual users and the
--              reporter; a stage is given with what its virtual users requested
-- Worker.VirtualUser.Lifecycle
--              internal/worker/virtual_user.go: Run over the rounds of its loop
-- Worker.Pool  internal/worker/goroutine_pool.go: the pool as a state with the moves of its goroutines
-- Api.Passwords, Api.Routes, Api.Stream
--              internal/api: HashPassword and VerifyPassword (auth.go), the table of routes (Routes,
--              server.go), and the events of a run (handleStreamRun and awaitDispatch, sse.go)
-- Config       pkg/config/config.go: the defaults, Load, stringSlice and Validate
-- Commands.Accounts, Commands.DevOrchestrator, Commands.Cli, Commands.WorkerServer
--              cmd/api, cmd/orchestrator, cmd/cli and cmd/worker (main.go): addUser, the orchestrator
--              in memory, what the command line sends and shows, and the worker's RunTest,
--              registration and keep-alive
-- Tui.Views, Tui.Dashboard
--              internal/tui: the panes, and Update and View of the dashboard
-- Tests        concrete runs
--
-- A method that holds a mutex is a function from the state to the new state and the result; an
-- error is a value. A loop is structural recursion over what it ranges over; decimal numbers are
-- printed on fuel n + 1, which is above the number of digits of n. An int32 or an int64 is a signed
-- integer, and its sums are cut to the word where the code adds (wrap32, wrap64); a duration counts
-- nanoseconds. `ReportMetrics` is one step here, though in the code another handler can come
-- between the marking of a worker and the change of status.
--
-- The statements of the store are read as SQL: a key refuses a second row, a deleted row takes the
-- rows that refer to it along, and rows that ORDER BY does not tell apart stay in the order of the
-- table. The database always answers: an error is a row that is missing or a key that is taken. A
-- handler runs as one step, though another request can come between its queries; the recorder's
-- loop and the queue's are sequences of what they receive.
--
-- Parameters stand for time.ParseDuration and Duration.String (Runtime.Duration), float64,
-- SHA-256, Argon2id, the HDR histogram, what becomes of an HTTP request, net/url, the answers of
-- etcd, of the workers and of the orchestrator, the environment and the clock, viper (Config),
-- lipgloss and the printing of floats (Tui.Views). Not modelled: the waiting of stages, the building
-- of HTTP requests, the text of the HTTP responses, the health check of the nodes, which only logs,
-- the start of the processes, tracing, logging, plugins and the embedded frontend.
pub mod Store
pub mod Base
pub mod Models
pub mod Proto
pub mod Runtime
pub mod Orchestrator
pub mod Tests
pub mod Api
pub mod Worker
pub mod Commands
pub mod Tui
pub mod Config

-- ===== src/Commands/Cli.antt =====
-- cmd/cli/main.go: the command line. Reading the configuration and dialling are the configuration
-- and the orchestrator's answers; an answer that is none is an error of the call.
pub mod Shown
use Prim.Native.String
use go_sentinel.Base.{
  ℕ, String, List, [], ◌∷◌, Option, none, some, Bool, true, false, str_eq, map, if◌then◌else◌,
}
use go_sentinel.Base.Int.{ℤ, pos, ◌*ℤ◌}
use go_sentinel.Base.Float.{Float64}
use go_sentinel.Base.Result.{Result, ok, err}
use go_sentinel.Base.Text.{signed_decimal}
use go_sentinel.Models.{MetricSnapshot, WorkerNode, RpsSnapshot, LatencyHistogram, ErrorRate}
use go_sentinel.Models
use go_sentinel.Proto
use go_sentinel.Runtime.Duration.{Durations, of_ms, millisecond, zero_time}
use go_sentinel.Runtime.Wire.{scenario_to_proto}
use go_sentinel.Orchestrator.Server.{WorkerInfo}
use go_sentinel.Runtime.Scenario.{Scenario}
use go_sentinel.Api.Metrics.{status_text}
use go_sentinel.Tui.Dashboard.{Msg, metrics_update, nodes_update, zero_snapshot}

module _ (float : Float64) where
  open float use {F}

  abbrev pub latency_of : Option Proto.LatencyHistogram → LatencyHistogram → LatencyHistogram
  latency_of none zero = zero
  latency_of (some l) zero = record {
    min = of_ms l.min_ms;
    max = of_ms l.max_ms;
    mean = of_ms l.mean_ms;
    p50 = of_ms l.p50_ms;
    p95 = of_ms l.p95_ms;
    p99 = of_ms l.p99_ms;
    p999 = of_ms l.p999_ms;
    count = l.count;
  }

  abbrev pub rps_of : Option (Proto.RpsSnapshot F) → RpsSnapshot F → RpsSnapshot F
  rps_of none zero = zero
  rps_of (some r) zero = record {
    current = r.current;
    average = r.average;
    peak = r.peak;
    window_seconds = r.window_seconds;
  }

  abbrev pub error_rate_of : Option (Proto.ErrorRate F) → ErrorRate F → ErrorRate F
  error_rate_of none zero = zero
  error_rate_of (some e) zero = record zero {
    rate = e.rate;
    percentage = e.percentage;
    error_messages = e.error_messages;
  }

  -- A part that is nil stays zero. time.UnixMilli of a count of milliseconds is a time.
  unfoldable pub proto_to_snapshot : Proto.MetricSnapshot F → MetricSnapshot F
  proto_to_snapshot s =
      let zero = zero_snapshot float in
      record zero {
        rps = rps_of s.rps zero.rps;
        latency = latency_of s.latency zero.latency;
        error_rate = error_rate_of s.error_rate zero.error_rate;
        total_requests = s.total_requests;
        total_errors = s.total_errors;
        timestamp = s.timestamp_ms *ℤ millisecond;
      }

  -- What `stream.Recv` returned: an error, an answer without a snapshot, or one with a snapshot.
  pub data Received : Type 0 where
    failed nothing : Received
    snapshot : Proto.MetricSnapshot F → Received

  -- What is sent to the dashboard; the loop returns at the first error.
  unfoldable pub stream_metrics : List Received → List (Msg F)
  unfolding proto_to_snapshot
  stream_metrics [] = []
  stream_metrics (failed ∷ rest) = []
  stream_metrics (nothing ∷ rest) = stream_metrics rest
  stream_metrics (snapshot s ∷ rest) = metrics_update (proto_to_snapshot s) ∷ stream_metrics rest

  unfoldable pub node_of : WorkerInfo → WorkerNode
  node_of w = record {
    id = w.worker_id;
    address = w.address;
    max_vus = w.max_vus;
    status = w.status;
    metadata = [];
    last_seen = zero_time;
  }

  -- The poll of the workers: a call that fails is skipped.
  unfoldable pub poll_nodes : List (Option (List WorkerInfo)) → List (Msg F)
  unfolding node_of
  poll_nodes [] = []
  poll_nodes (none ∷ rest) = poll_nodes rest
  poll_nodes (some workers ∷ rest) = nodes_update (map node_of workers) ∷ poll_nodes rest

-- Why `run` ends before the dashboard starts.
pub data RunError : Type 0 where
  unparsable not_distributed : RunError

-- `submit` is DistributeTestPlan with the id that it answers, `unix` the time in seconds. The result
-- is the test that the dashboard shows.
unfoldable pub run_test :
    Durations → ℤ → Option Scenario → (Proto.TestPlan → Option String) → Result RunError String
run_test durations unix none submit = err unparsable
run_test durations unix (some scenario) submit =
    elim (submit
      (scenario_to_proto durations scenario (String.◌++◌ "test-" (signed_decimal unix)))) [
        | none ↦ err not_distributed
        | some test_id ↦ ok test_id
      ]

unfoldable pub stop_line : String → Bool → String → String
stop_line test_id success message =
    if success
    then String.◌++◌ "Test " (String.◌++◌ test_id " stopped successfully")
    else String.◌++◌ "Failed to stop test: " message

abbrev pub current_lines :
    {F : Type 0}
    → (F → String)
    → Option (Proto.RpsSnapshot F)
    → Option (Proto.ErrorRate F)
    → Option (List String)
current_lines fixed none errors = some []
current_lines fixed (some rps) none = none
current_lines fixed (some rps) (some errors) = some (
    String.◌++◌ "Current RPS: " (fixed rps.current)
    ∷ String.◌++◌ "Error Rate: " (String.◌++◌ (fixed errors.percentage) "%")
    ∷ [])

abbrev pub metrics_lines :
    {F : Type 0} → (F → String) → Option (Proto.MetricSnapshot F) → Option (List String)
metrics_lines fixed none = some []
metrics_lines fixed (some m) = current_lines fixed m.rps m.error_rate

-- What `status` prints of an answer's status, its workers, its virtual users and its metrics; none
-- is the panic of rates without an error rate.
unfoldable pub status_lines :
    {F : Type 0}
    → (F → String)
    → String
    → Proto.Status
    → ℤ
    → ℤ
    → Option (Proto.MetricSnapshot F)
    → Option (List String)
status_lines fixed test_id status workers vus metrics = elim (metrics_lines fixed metrics) [
  | none ↦ none
  | some current ↦ some (
      String.◌++◌ "Test ID: " test_id
      ∷ String.◌++◌ "Status: " (status_text status)
      ∷ String.◌++◌ "Active Workers: " (signed_decimal workers)
      ∷ String.◌++◌ "Total VUs: " (signed_decimal vus)
      ∷ current)
]

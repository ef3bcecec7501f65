-- ===== src/Orchestrator/Server/Messages.antt =====
-- internal/orchestrator/server.go: the messages that the handlers send and answer with.
use go_sentinel.Base.{◌/◌, String, List, [], ◌∷◌, none, some, length}
use go_sentinel.Base.Int.{ℤ, pos, negsuc, ◌+ℤ◌, quot, wrap32}
use go_sentinel.Base.Dict.{Dict, get_or}
use go_sentinel.Base.Text.{cut_prefix}
use go_sentinel.Models.{TestStatus, MetricSnapshot}
use go_sentinel.Proto
use go_sentinel.Runtime.Duration.{millisecond}
use Prim.Native.String

-- The stages of a worker's copy of a plan: each with the worker's share of it.
unfoldable pub scale_stages : String → List Proto.Stage → List (Dict ℤ) → List Proto.Stage
scale_stages worker_id [] allocations = []
scale_stages worker_id (s ∷ ss) [] = s ∷ ss
scale_stages worker_id (s ∷ ss) (a ∷ as') =
    record s { target_vus = get_or (pos 0) worker_id a } ∷ scale_stages worker_id ss as'

unfoldable pub plan_for_worker : Proto.TestPlan → String → ℤ → List (Dict ℤ) → Proto.TestPlan
unfolding scale_stages
plan_for_worker plan worker_id assigned_vus allocations = record plan {
  total_virtual_users = assigned_vus;
  stages = scale_stages worker_id plan.stages allocations;
}

unfoldable pub dialable_address : String → String
dialable_address addr = elim (cut_prefix addr "0.0.0.0:") [
  | some port ↦ String.◌++◌ "localhost:" port
  | none ↦ elim (cut_prefix addr ":") [ some port ↦ String.◌++◌ "localhost" addr | none ↦ addr ]
]

-- A `RunTest` call: the address dialled, and the request.
pub record RunRequest : Type 0 where
  pub address : String
  pub test_id : String
  pub plan : Proto.TestPlan
  pub assigned_vus : ℤ
  pub worker_id : String

-- time.Time.UnixMilli, which rounds down.
unfoldable pub unix_milli : ℤ → ℤ
unix_milli (pos n) = pos (n / 1000000)
unix_milli (negsuc n) = negsuc (n / 1000000)

unfoldable pub snapshot_to_proto : {F : Type 0} → MetricSnapshot F → Proto.MetricSnapshot F
unfolding unix_milli
snapshot_to_proto s = record {
  rps = some (record {
    current = s.rps.current;
    average = s.rps.average;
    peak = s.rps.peak;
    window_seconds = s.rps.window_seconds;
  });
  latency = some (record {
    min_ms = quot s.latency.min millisecond;
    max_ms = quot s.latency.max millisecond;
    mean_ms = quot s.latency.mean millisecond;
    p50_ms = quot s.latency.p50 millisecond;
    p95_ms = quot s.latency.p95 millisecond;
    p99_ms = quot s.latency.p99 millisecond;
    p999_ms = quot s.latency.p999 millisecond;
    count = s.latency.count;
  });
  error_rate = some (record {
    rate = s.error_rate.rate;
    percentage = s.error_rate.percentage;
    error_messages = [];
  });
  total_requests = s.total_requests;
  total_errors = s.total_errors;
  timestamp_ms = unix_milli s.timestamp;
}

pub record TestStatusResponse (F : Type 0) : Type 0 where
  pub status : Proto.Status
  pub active_workers : ℤ
  pub total_vus : ℤ
  pub current_metrics : Proto.MetricSnapshot F

unfoldable pub status_to_proto : TestStatus → Proto.Status
status_to_proto TestStatus.pending = Proto.Status.pending
status_to_proto TestStatus.running = Proto.Status.running
status_to_proto TestStatus.completed = Proto.Status.completed
status_to_proto TestStatus.failed = Proto.Status.failed
status_to_proto TestStatus.stopped = Proto.Status.stopped

-- int32(len(m))
abbrev pub count_of {ℓ} : {A : Type ℓ} → List A → ℤ
count_of xs = wrap32 (pos (length xs))

unfoldable pub total_vus_of : ℤ → Dict ℤ → ℤ
total_vus_of total [] = total
total_vus_of total ((id, vus) ∷ ws) = total_vus_of (wrap32 (total +ℤ vus)) ws

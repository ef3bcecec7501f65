-- ===== src/Worker/Reporter.antt =====
-- internal/worker/reporter.go: which batches a worker sends, and what they hold. The ticker is a
-- sequence of calls of `tick`, and the calls of the orchestrator are the batches they return.
pub mod Delivery
use go_sentinel.Base.{String, List, [], ◌∷◌, Option, none, some, Bool, true, false, if◌then◌else◌}
use go_sentinel.Base.Int.{ℤ, quot}
use go_sentinel.Models.{MetricSnapshot}
use go_sentinel.Proto
use go_sentinel.Runtime.Duration.{millisecond}

-- `cancel` is whether there is a report loop whose context is not cancelled, `connected` whether there is a client.
pub record Reporter : Type 0 where
  pub worker_id : String
  pub connected : Bool
  pub cancel : Bool
  pub test_id : String

unfoldable pub new_reporter : String → Bool → Reporter
new_reporter worker_id connected = record {
  worker_id = worker_id;
  connected = connected;
  cancel = false;
  test_id = "";
}

-- `now_ms` is what `time.Now().UnixMilli()` returned.
unfoldable pub new_metric_batch :
    {F : Type 0} → ℤ → String → String → Bool → MetricSnapshot F → Proto.MetricBatch F
new_metric_batch now_ms worker_id test_id test_active s = record {
  worker_id = worker_id;
  test_id = test_id;
  test_active = test_active;
  batch_timestamp_ms = now_ms;
  rps_snapshot = some (record {
    current = s.rps.current;
    average = s.rps.average;
    peak = s.rps.peak;
    window_seconds = s.rps.window_seconds;
  });
  latency_histogram = some (record {
    min_ms = quot s.latency.min millisecond;
    max_ms = quot s.latency.max millisecond;
    mean_ms = quot s.latency.mean millisecond;
    p50_ms = quot s.latency.p50 millisecond;
    p95_ms = quot s.latency.p95 millisecond;
    p99_ms = quot s.latency.p99 millisecond;
    p999_ms = quot s.latency.p999 millisecond;
    count = s.latency.count;
  });
  error_rate = some (record {
    rate = s.error_rate.rate;
    percentage = s.error_rate.percentage;
    error_messages = [];
  });
  total_requests = s.total_requests;
  total_errors = s.total_errors;
}

-- A previous loop is cancelled; the new one takes its place.
unfoldable pub start : String → Reporter → Reporter
start test_id r = record r { cancel = true; test_id = test_id }

unfoldable pub report :
    {F : Type 0} → ℤ → Bool → MetricSnapshot F → Reporter → Option (Proto.MetricBatch F)
unfolding new_metric_batch
report now_ms test_active s r =
    if r.connected then some (new_metric_batch now_ms r.worker_id r.test_id test_active s) else none

-- A turn of a report loop whose `select` chose the ticker. Where its context is done as well the
-- choice is open, so that a cancelled loop may still send.
unfoldable pub tick : {F : Type 0} → ℤ → MetricSnapshot F → Reporter → Option (Proto.MetricBatch F)
unfolding report
tick now_ms s r = report now_ms true s r

unfoldable pub stop :
    {F : Type 0} → ℤ → MetricSnapshot F → Reporter → Reporter × Option (Proto.MetricBatch F)
unfolding report
stop now_ms s r = (record r { cancel = false }, report now_ms false s r)

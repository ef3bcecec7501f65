-- ===== src/Worker/Reporter/Delivery.antt =====
-- A worker's snapshot on its way to the orchestrator.
use go_sentinel.Base.{
  String, List, [], ◌∷◌, some, Bool, true, false, ◌≡◌, ◌≢◌, refl, ap, ◌∙◌, str_eq, Bool-cases, inl,
  inr,
}
use go_sentinel.Base.Int.{ℤ}
use go_sentinel.Base.Float.{Float64}
use go_sentinel.Models.{MetricSnapshot, LatencyHistogram}
use go_sentinel.Runtime.Duration.{IsMillis, of_ms-quot}
use go_sentinel.Orchestrator.Aggregator.{snapshot_of}
use go_sentinel.Orchestrator.Server.{Server, filled, note_completion, report_metrics}
use go_sentinel.Orchestrator.Server.Reports.{Noted, report_metrics-Noted}
use go_sentinel.Orchestrator.Distributor.{ActiveTest, get_active_test}
use go_sentinel.Orchestrator.Distributor.Done.{IsTracked}
use go_sentinel.Base.Dict.{lookup}
use go_sentinel.Worker.Reporter.{Reporter, new_metric_batch, report, stop, tick}

-- Latencies that are whole milliseconds.
pub record AreMillis (l : LatencyHistogram) : Type 0 where
  pub min : IsMillis l.min
  pub max : IsMillis l.max
  pub mean : IsMillis l.mean
  pub p50 : IsMillis l.p50
  pub p95 : IsMillis l.p95
  pub p99 : IsMillis l.p99
  pub p999 : IsMillis l.p999

-- What the orchestrator's aggregator holds of a snapshot.
pub record IsDelivered {F : Type 0} (s received : MetricSnapshot F) : Type 0 where
  pub rps : received.rps ≡ s.rps
  pub latency : received.latency ≡ s.latency
  pub rate : received.error_rate.rate ≡ s.error_rate.rate
  pub percentage : received.error_rate.percentage ≡ s.error_rate.percentage
  pub total_requests : received.total_requests ≡ s.total_requests
  pub total_errors : received.total_errors ≡ s.total_errors

-- The aggregator reads a worker's batch back as the snapshot it was made of: the request rates, the
-- latencies, where they are whole milliseconds in range, the error rate and percentage and the
-- totals. (Status codes, error messages and the time are not sent.)
pub snapshot_of-new_metric_batch :
    (float : Float64) (now_ms : ℤ) (worker_id test_id : String) (active : Bool)
    (s : MetricSnapshot float.F)
    → AreMillis s.latency
    → IsDelivered s
        (snapshot_of worker_id (filled float (new_metric_batch now_ms worker_id test_id active s)))
unfolding snapshot_of new_metric_batch filled
snapshot_of-new_metric_batch float now_ms worker_id test_id active s h = record {
  rps = refl;
  latency = rw (
    of_ms-quot s.latency.min h.min,
    of_ms-quot s.latency.max h.max,
    of_ms-quot s.latency.mean h.mean,
    of_ms-quot s.latency.p50 h.p50,
    of_ms-quot s.latency.p95 h.p95,
    of_ms-quot s.latency.p99 h.p99,
    of_ms-quot s.latency.p999 h.p999,
  );
  rate = refl;
  percentage = refl;
  total_requests = refl;
  total_errors = refl;
}

-- What the orchestrator makes of the batches of a reporter's ticks: each with the time at which it is
-- handled, that of the batch, and its snapshot.
unfoldable pub ticked :
    (float : Float64)
    → Reporter
    → List (ℤ × ℤ × MetricSnapshot float.F)
    → Server float.F
    → Server float.F
ticked float r [] s = s
ticked float r ((now, now_ms, snapshot) ∷ ticks) s =
    ticked float r ticks (report_metrics float now s (tick now_ms snapshot r)).0

tick-distributor :
    (float : Float64) (r : Reporter) (now now_ms : ℤ) (snapshot : MetricSnapshot float.F)
    (s : Server float.F)
    → (report_metrics float now s (tick now_ms snapshot r)).0.distributor ≡ s.distributor
unfolding tick report new_metric_batch report_metrics note_completion
tick-distributor float r now now_ms snapshot s = elim (Bool-cases r.connected) [
  | inl e ↦ rw e (elim (Bool-cases (str_eq r.test_id "")) [ inl n ↦ rw n refl | inr n ↦ rw n refl ])
  | inr e ↦ rw e refl
]

ticked-distributor :
    (float : Float64) (r : Reporter) (ticks : List (ℤ × ℤ × MetricSnapshot float.F))
    (s : Server float.F)
    → (ticked float r ticks s).distributor ≡ s.distributor
unfolding ticked
ticked-distributor float r [] s = refl
ticked-distributor float r ((now, now_ms, snapshot) ∷ ticks) s =
    ticked-distributor float r ticks (report_metrics float now s (tick now_ms snapshot r)).0
    ∙ tick-distributor float r now now_ms snapshot s

last_batch :
    {F : Type 0} (now_ms : ℤ) (snapshot : MetricSnapshot F) (r : Reporter)
    → r.connected ≡ true
    → (stop now_ms snapshot r).1
      ≡ some (new_metric_batch now_ms r.worker_id r.test_id false snapshot)
unfolding stop report
last_batch now_ms snapshot r connected = rw connected refl

-- For a connected reporter whose test has an id and is tracked, and whose worker is assigned to it:
-- `ReportMetrics` of the batch with which the reporter stops records the worker's report, and the
-- test is completed afterwards exactly when it was already, or was running and every assigned
-- worker has now reported, and else keeps its status; whatever batches of the report loop are
-- handled before it and after it, as by a tick that races with Stop.
pub stop-Noted :
    (float : Float64) (now now_ms : ℤ) (snapshot : MetricSnapshot float.F) (r : Reporter)
    (before after : List (ℤ × ℤ × MetricSnapshot float.F)) (s : Server float.F) (t : ActiveTest)
    (v : ℤ)
    → r.connected ≡ true
    → r.test_id ≢ ""
    → get_active_test s.distributor r.test_id ≡ some t
    → lookup r.worker_id t.workers ≡ some v
    → IsTracked t
    → (t' : ActiveTest) × Noted float
        (ticked float r after
          (report_metrics float now
            (ticked float r before s)
            (stop now_ms snapshot r).1).0).distributor
        (new_metric_batch now_ms r.worker_id r.test_id false snapshot)
        t
        t'
unfolding new_metric_batch
stop-Noted float now now_ms snapshot r before after s t v connected named found assigned tracked =
    let raced = ticked float r before s in
    let kept = ticked-distributor float r before s in
    let batch = new_metric_batch now_ms r.worker_id r.test_id false snapshot in
    rw
      (
        ticked-distributor float r after
            (report_metrics float now raced (stop now_ms snapshot r).1).0,
        last_batch now_ms snapshot r connected,
      )
      (report_metrics-Noted float now raced batch t v (named, refl)
        (ap (λ pd. get_active_test pd r.test_id) kept ∙ found) assigned tracked)

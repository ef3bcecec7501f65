-- ===== src/Orchestrator/Aggregator.antt =====
-- internal/orchestrator/metrics_aggregator.go. The mutex serialises the methods; `now` is what
-- `time.Now` returned. A test's workers stand in the order in which a range meets them.
pub mod Scope
use go_sentinel.Base.{
  String, List, [], ◌∷◌, Option, none, some, Bool, str_eq, ◌&&◌, ◌||◌, if◌then◌else◌,
}
use go_sentinel.Base.Int.{ℤ, pos, negsuc, ◌*ℤ◌, ◌+ℤ◌, ltb_ℤ, leb_ℤ, quot, wrap64}
use go_sentinel.Base.Dict.{Dict, lookup, get_or, insert, delete}
use go_sentinel.Base.Float.{Float64}
use go_sentinel.Models.{MetricSnapshot, LatencyHistogram, RpsSnapshot, ErrorRate}
use go_sentinel.Proto
use go_sentinel.Runtime.Duration.{of_ms, millisecond}

pub record WorkerMetrics (F : Type 0) : Type 0 where
  pub snapshot : MetricSnapshot F
  pub last_update : ℤ

pub record MetricsAggregator (F : Type 0) : Type 0 where
  pub worker_metrics : Dict (Dict (WorkerMetrics F))
  pub aggregated : Dict (MetricSnapshot F)

-- The parts of a batch that the aggregator reads; its one caller has replaced those that are nil.
pub record Batch (F : Type 0) : Type 0 where
  pub rps : Proto.RpsSnapshot F
  pub latency : Proto.LatencyHistogram
  pub error_rate : Proto.ErrorRate F
  pub batch_timestamp_ms : ℤ
  pub total_requests : ℤ
  pub total_errors : ℤ

unfoldable pub new_metrics_aggregator : {F : Type 0} → MetricsAggregator F
new_metrics_aggregator = record { worker_metrics = []; aggregated = [] }

-- Go's zero time, the first of January of the year 1.
abbrev pub zero_time : ℤ
zero_time = negsuc 62135596799999999999

unfoldable pub snapshot_of : {F : Type 0} → String → Batch F → MetricSnapshot F
snapshot_of worker_id batch = record {
  rps = record {
    current = batch.rps.current;
    average = batch.rps.average;
    peak = batch.rps.peak;
    window_seconds = batch.rps.window_seconds;
  };
  latency = record {
    min = of_ms batch.latency.min_ms;
    max = of_ms batch.latency.max_ms;
    mean = of_ms batch.latency.mean_ms;
    p50 = of_ms batch.latency.p50_ms;
    p95 = of_ms batch.latency.p95_ms;
    p99 = of_ms batch.latency.p99_ms;
    p999 = of_ms batch.latency.p999_ms;
    count = batch.latency.count;
  };
  error_rate = record {
    rate = batch.error_rate.rate;
    percentage = batch.error_rate.percentage;
    status_code_counts = [];
    error_messages = [];
  };
  total_requests = batch.total_requests;
  total_errors = batch.total_errors;
  timestamp = batch.batch_timestamp_ms *ℤ millisecond;
  worker_id = worker_id;
}

-- What the second and the third loop of `recalculate` have gathered.
pub record Latencies : Type 0 where
  pub min : ℤ
  pub max : ℤ
  pub total : ℤ
  pub count : ℤ
  pub p50 : ℤ
  pub p95 : ℤ
  pub p99 : ℤ
  pub p999 : ℤ
  pub workers : ℤ

abbrev pub no_latencies : Latencies
no_latencies = record {
  min = pos 0;
  max = pos 0;
  total = pos 0;
  count = pos 0;
  p50 = pos 0;
  p95 = pos 0;
  p99 = pos 0;
  p999 = pos 0;
  workers = pos 0;
}

abbrev pub is_zero : ℤ → Bool
is_zero d = leb_ℤ d (pos 0) && leb_ℤ (pos 0) d

-- One round of both loops for a worker with a positive count.
unfoldable pub gather : LatencyHistogram → Latencies → Latencies
gather l acc = record {
  min = if is_zero acc.min || ltb_ℤ l.min acc.min then l.min else acc.min;
  max = if ltb_ℤ acc.max l.max then l.max else acc.max;
  total = wrap64 (acc.total +ℤ wrap64 (l.mean *ℤ l.count));
  count = wrap64 (acc.count +ℤ l.count);
  p50 = wrap64 (acc.p50 +ℤ l.p50);
  p95 = wrap64 (acc.p95 +ℤ l.p95);
  p99 = wrap64 (acc.p99 +ℤ l.p99);
  p999 = wrap64 (acc.p999 +ℤ l.p999);
  workers = wrap64 (acc.workers +ℤ pos 1);
}

unfoldable pub gather_all : {F : Type 0} → Dict (WorkerMetrics F) → Latencies → Latencies
unfolding gather
gather_all [] acc = acc
gather_all ((id, wm) ∷ ws) acc =
    let l = wm.snapshot.latency in
    gather_all ws (if ltb_ℤ (pos 0) l.count then gather l acc else acc)

-- A sum divided by a count, or 0 where nothing was counted.
abbrev pub mean_of : ℤ → ℤ → ℤ
mean_of total count = if ltb_ℤ (pos 0) count then quot total count else pos 0

unfoldable pub latency_of : Latencies → LatencyHistogram
latency_of acc = record {
  min = acc.min;
  max = acc.max;
  mean = mean_of acc.total acc.count;
  p50 = mean_of acc.p50 acc.workers;
  p95 = mean_of acc.p95 acc.workers;
  p99 = mean_of acc.p99 acc.workers;
  p999 = mean_of acc.p999 acc.workers;
  count = acc.count;
}

unfoldable pub snapshot_in :
    {F : Type 0} → String → Dict (WorkerMetrics F) → Option (MetricSnapshot F)
snapshot_in worker_id workers = elim (lookup worker_id workers) [
  | none ↦ none
  | some wm ↦ some wm.snapshot
]

unfoldable pub get_worker_metrics :
    {F : Type 0} → MetricsAggregator F → String → String → Option (MetricSnapshot F)
unfolding snapshot_in
get_worker_metrics ma test_id worker_id =
    snapshot_in worker_id (get_or [] test_id ma.worker_metrics)

unfoldable pub remove_test : {F : Type 0} → MetricsAggregator F → String → MetricsAggregator F
remove_test ma test_id = record {
  worker_metrics = delete test_id ma.worker_metrics;
  aggregated = delete test_id ma.aggregated;
}

module _ (float : Float64) where
  open float use {F, of_int, add, mul, div, gtb}

  -- What the first loop of `recalculate` has gathered.
  pub record Totals : Type 0 where
    pub rps : F
    pub average : F
    pub peak : F
    pub requests : ℤ
    pub errors : ℤ
    pub error_rate : F

  total_all : Dict (WorkerMetrics F) → Totals → Totals
  total_all [] acc = acc
  total_all ((id, wm) ∷ ws) acc =
      let s = wm.snapshot in
      total_all ws (record {
        rps = add acc.rps s.rps.current;
        average = add acc.average s.rps.average;
        peak = if gtb s.rps.peak acc.peak then s.rps.peak else acc.peak;
        requests = wrap64 (acc.requests +ℤ s.total_requests);
        errors = wrap64 (acc.errors +ℤ s.total_errors);
        error_rate = add acc.error_rate s.error_rate.rate;
      })

  abbrev zero_float : F
  zero_float = of_int (pos 0)

  abbrev no_totals : Totals
  no_totals = record {
    rps = zero_float;
    average = zero_float;
    peak = zero_float;
    requests = pos 0;
    errors = pos 0;
    error_rate = zero_float;
  }

  error_percentage : Totals → F
  error_percentage t =
      if ltb_ℤ (pos 0) t.requests
      then mul (div (of_int t.errors) (of_int t.requests)) (of_int (pos 100))
      else zero_float

  unfoldable pub rollup : ℤ → Dict (WorkerMetrics F) → MetricSnapshot F
  unfolding total_all error_percentage gather_all latency_of
  rollup now workers =
      let totals = total_all workers no_totals in
      record {
        rps = record {
          current = totals.rps;
          average = totals.average;
          peak = totals.peak;
          window_seconds = pos 10;
        };
        latency = latency_of (gather_all workers no_latencies);
        error_rate = record {
          rate = totals.error_rate;
          percentage = error_percentage totals;
          status_code_counts = [];
          error_messages = [];
        };
        total_requests = totals.requests;
        total_errors = totals.errors;
        timestamp = now;
        worker_id = "";
      }

  unfoldable pub recalculate : ℤ → MetricsAggregator F → String → MetricsAggregator F
  unfolding rollup
  recalculate now ma test_id = elim (get_or [] test_id ma.worker_metrics) [
    | [] ↦ ma
    | w ∷ ws ↦ record ma { aggregated = insert test_id (rollup now (w ∷ ws)) ma.aggregated }
  ]

  unfoldable pub update_worker_metrics :
      ℤ → MetricsAggregator F → String → String → Batch F → MetricsAggregator F
  unfolding snapshot_of recalculate
  update_worker_metrics now ma test_id worker_id batch =
      let metrics : WorkerMetrics F = record {
        snapshot = snapshot_of worker_id batch;
        last_update = now;
      } in
      let workers = insert worker_id metrics (get_or [] test_id ma.worker_metrics) in
      let stored : MetricsAggregator F = record ma {
        worker_metrics = insert test_id workers ma.worker_metrics;
      } in
      if str_eq test_id "" then ma else recalculate now stored test_id

  abbrev pub zero_snapshot : MetricSnapshot F
  zero_snapshot = record {
    rps = record {
      current = zero_float;
      average = zero_float;
      peak = zero_float;
      window_seconds = pos 0;
    };
    latency = latency_of no_latencies;
    error_rate = record {
      rate = zero_float;
      percentage = zero_float;
      status_code_counts = [];
      error_messages = [];
    };
    total_requests = pos 0;
    total_errors = pos 0;
    timestamp = zero_time;
    worker_id = "";
  }

  unfoldable pub get_aggregated_metrics : MetricsAggregator F → String → MetricSnapshot F
  get_aggregated_metrics ma test_id = get_or zero_snapshot test_id ma.aggregated

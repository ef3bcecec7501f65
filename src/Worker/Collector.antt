-- ===== src/Worker/Collector.antt =====
-- internal/worker/metrics.go: the counters of a worker's requests. Times are integers of
-- nanoseconds. What Prometheus is told is not modelled.
pub mod Tally
use go_sentinel.Base.{
  ℕ, ◌+◌, String, List, [], ◌∷◌, ◌++◌, Option, none, some, Bool, true, false, not, ◌&&◌, str_eq,
  ltb, length, if◌then◌else◌, ◌==◌,
}
use go_sentinel.Base.Int.{ℤ, pos, ◌+ℤ◌, ◌-ℤ◌, quot, wrap64, ltb_ℤ, eqb_ℤ}
use go_sentinel.Base.Float.{Float64}
use go_sentinel.Models.{MetricSnapshot}
use go_sentinel.Worker.Spans.{
  Histogram, SpanAggregator, new_span_aggregator, record_span, get_percentiles, reset_spans,
}

pub record RequestCount : Type 0 where
  pub timestamp : ℤ
  pub count : ℤ

pub record MetricsCollector (F H : Type 0) : Type 0 where
  pub aggregator : SpanAggregator H
  pub request_counts : List RequestCount
  pub window_size : ℤ
  pub peak_rps : F
  pub total_requests : ℤ
  pub total_errors : ℤ
  pub status_codes : List (ℤ × ℤ)
  pub error_messages : List String
  pub start_time : ℤ

abbrev pub max_messages : ℕ
max_messages = 100

-- `codes[code]++`
unfoldable pub count_code : ℤ → List (ℤ × ℤ) → List (ℤ × ℤ)
count_code code [] = (code, pos 1) ∷ []
count_code code (e ∷ codes) =
    let rest = count_code code codes in
    if eqb_ℤ e.0 code then (e.0, wrap64 (e.1 +ℤ pos 1)) ∷ codes else e ∷ rest

-- The message of an error is kept unless it is empty or a hundred are kept already.
unfoldable pub keep_message : String → List String → List String
keep_message message messages =
    if not (str_eq message "") && ltb (length messages) max_messages
    then messages ++ (message ∷ [])
    else messages

-- The counts that are later than a time.
unfoldable pub clean_up : ℤ → List RequestCount → List RequestCount
clean_up cutoff [] = []
clean_up cutoff (rc ∷ counts) =
    let rest = clean_up cutoff counts in if ltb_ℤ cutoff rc.timestamp then rc ∷ rest else rest

-- The sum of the counts that are later than a time, on top of a total.
unfoldable pub sum_after : ℤ → ℤ → List RequestCount → ℤ
sum_after cutoff total [] = total
sum_after cutoff total (rc ∷ counts) =
    let added = sum_after cutoff (wrap64 (total +ℤ rc.count)) counts in
    let rest = sum_after cutoff total counts in if ltb_ℤ cutoff rc.timestamp then added else rest

abbrev pub window_seconds_of : ℤ → ℤ
window_seconds_of window_size =
    let n = quot window_size (pos 1000000000) in if eqb_ℤ n (pos 0) then pos 1 else n

module _ (fl : Float64) (hg : Histogram) where
  open fl use {F, of_int, mul, div, gtb}
  open hg use {H}

  unfoldable pub new_metrics_collector : ℤ → ℤ → MetricsCollector F H
  new_metrics_collector now window_size = record {
    aggregator = new_span_aggregator hg;
    request_counts = [];
    window_size = window_size;
    peak_rps = of_int (pos 0);
    total_requests = pos 0;
    total_errors = pos 0;
    status_codes = [];
    error_messages = [];
    start_time = now;
  }

  unfoldable pub record_request :
      ℤ → Bool → ℤ → ℤ → String → MetricsCollector F H → MetricsCollector F H
  unfolding count_code keep_message clean_up
  record_request now success duration status_code message mc = record mc {
    aggregator =
        if ltb_ℤ (pos 0) duration then record_span hg duration mc.aggregator else mc.aggregator;
    total_requests = wrap64 (mc.total_requests +ℤ pos 1);
    total_errors = if success then mc.total_errors else wrap64 (mc.total_errors +ℤ pos 1);
    error_messages = if success then mc.error_messages else keep_message message mc.error_messages;
    status_codes = count_code status_code mc.status_codes;
    request_counts =
        clean_up (now -ℤ mc.window_size)
          (mc.request_counts ++ (record { timestamp = now; count = pos 1 } ∷ []));
  }

  -- `message` is the text of the error, where there is one.
  unfoldable pub record_error : Option String → MetricsCollector F H → MetricsCollector F H
  record_error message mc = record mc {
    total_errors = wrap64 (mc.total_errors +ℤ pos 1);
    error_messages = elim message [
      | none ↦ mc.error_messages
      | some text ↦
          if ltb (length mc.error_messages) max_messages
          then mc.error_messages ++ (text ∷ [])
          else mc.error_messages
    ];
  }

  -- Seconds(), as the quotient of two floats.
  abbrev seconds : ℤ → F
  seconds d = div (of_int d) (of_int (pos 1000000000))

  -- The collector with its new peak, and the snapshot.
  unfoldable pub get_snapshot : ℤ → MetricsCollector F H → MetricsCollector F H × MetricSnapshot F
  unfolding sum_after
  get_snapshot now mc =
      let total = sum_after (now -ℤ mc.window_size) (pos 0) mc.request_counts in
      let window_seconds = window_seconds_of mc.window_size in
      let current = div (of_int total) (of_int window_seconds) in
      let peak = if gtb current mc.peak_rps then current else mc.peak_rps in
      let elapsed = seconds (now -ℤ mc.start_time) in
      let zero_float = of_int (pos 0) in
      let some_time = gtb elapsed zero_float in
      let some_requests = ltb_ℤ (pos 0) mc.total_requests in
      (
        record mc { peak_rps = peak },
        record {
          rps = record {
            current = current;
            average = if some_time then div (of_int mc.total_requests) elapsed else zero_float;
            peak = peak;
            window_seconds = window_seconds;
          };
          latency = get_percentiles hg mc.aggregator;
          error_rate = record {
            rate =
                if some_requests && some_time
                then div (of_int mc.total_errors) elapsed
                else zero_float;
            percentage =
                if some_requests
                then mul (div (of_int mc.total_errors) (of_int mc.total_requests))
                    (of_int (pos 100))
                else zero_float;
            status_code_counts = mc.status_codes;
            error_messages = mc.error_messages;
          };
          total_requests = mc.total_requests;
          total_errors = mc.total_errors;
          timestamp = now;
          worker_id = "";
        },
      )

  unfoldable pub reset : ℤ → MetricsCollector F H → MetricsCollector F H
  reset now mc = record mc {
    aggregator = reset_spans hg mc.aggregator;
    request_counts = [];
    total_requests = pos 0;
    total_errors = pos 0;
    status_codes = [];
    error_messages = [];
    peak_rps = of_int (pos 0);
    start_time = now;
  }

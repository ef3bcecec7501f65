-- ===== src/Worker/Spans.antt =====
-- internal/tracer/span_aggregator.go: the latencies of the requests, in an HDR histogram, which is a
-- parameter.
use go_sentinel.Base.{ℕ, Option, none, some, if◌then◌else◌}
use go_sentinel.Base.Int.{ℤ, pos, quot, ◌+ℤ◌, ◌*ℤ◌, wrap64, eqb_ℤ}
use go_sentinel.Models.{LatencyHistogram}
use go_sentinel.Runtime.Duration.{millisecond}

-- hdrhistogram.Histogram: RecordValue is none where the value is out of its range; a quantile is in
-- tenths of a percent, and `mean_of` is the mean cut to an integer.
pub record Histogram : Type 1 where
  pub H : Type 0
  pub new_histogram : H
  pub record_value : ℤ → H → Option H
  pub min_of : H → ℤ
  pub max_of : H → ℤ
  pub mean_of : H → ℤ
  pub value_at_quantile : ℕ → H → ℤ

pub record SpanAggregator (H : Type 0) : Type 0 where
  pub histogram : H
  pub count : ℤ

module _ (hg : Histogram) where
  open hg use {H, new_histogram, record_value, min_of, max_of, mean_of, value_at_quantile}

  unfoldable pub new_span_aggregator : SpanAggregator H
  new_span_aggregator = record { histogram = new_histogram; count = pos 0 }

  -- The values that the histogram takes. For one out of its range the code calls its logger, which
  -- `NewMetricsCollector` leaves nil, and panics; the model, which leaves the aggregator as it is,
  -- says nothing of that case. Its range ends at an hour, far above the client's timeout of 30 seconds.
  unfoldable pub record_span : ℤ → SpanAggregator H → SpanAggregator H
  record_span duration sa = elim (record_value (quot duration millisecond) sa.histogram) [
    | none ↦ sa
    | some h ↦ record { histogram = h; count = wrap64 (sa.count +ℤ pos 1) }
  ]

  abbrev of_ms : ℤ → ℤ
  of_ms n = wrap64 (n *ℤ millisecond)

  unfoldable pub get_percentiles : SpanAggregator H → LatencyHistogram
  get_percentiles sa =
      if eqb_ℤ sa.count (pos 0)
      then record {
        min = pos 0;
        max = pos 0;
        mean = pos 0;
        p50 = pos 0;
        p95 = pos 0;
        p99 = pos 0;
        p999 = pos 0;
        count = pos 0;
      }
      else record {
        min = of_ms (min_of sa.histogram);
        max = of_ms (max_of sa.histogram);
        mean = of_ms (mean_of sa.histogram);
        p50 = of_ms (value_at_quantile 500 sa.histogram);
        p95 = of_ms (value_at_quantile 950 sa.histogram);
        p99 = of_ms (value_at_quantile 990 sa.histogram);
        p999 = of_ms (value_at_quantile 999 sa.histogram);
        count = sa.count;
      }

  -- An emptied histogram is a new one.
  unfoldable pub reset_spans : SpanAggregator H → SpanAggregator H
  unfolding new_span_aggregator
  reset_spans sa = new_span_aggregator

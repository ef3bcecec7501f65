-- ===== src/Api/Metrics.antt =====
-- internal/api/sse.go: the metrics of a run as a dashboard reads them; and the status of a test that
-- internal/api/server.go and recorder.go ask the orchestrator for.
use go_sentinel.Base.{String, Option, none, some, Bool, true, false}
use go_sentinel.Base.Int.{ℤ, pos}
use go_sentinel.Base.Float.{Float64}
use go_sentinel.Proto.{
  MetricSnapshot, Status, unknown, pending, running, completed, failed, stopped,
}

pub record Rps (F : Type 0) : Type 0 where
  pub current : F
  pub average : F
  pub peak : F

pub record Latency : Type 0 where
  pub min_ms : ℤ
  pub max_ms : ℤ
  pub mean_ms : ℤ
  pub p50_ms : ℤ
  pub p95_ms : ℤ
  pub p99_ms : ℤ
  pub count : ℤ

pub record Errors (F : Type 0) : Type 0 where
  pub rate : F
  pub percentage : F

pub record Metrics (F : Type 0) : Type 0 where
  pub timestamp_ms : ℤ
  pub rps : Rps F
  pub latency : Latency
  pub errors : Errors F
  pub total_requests : ℤ
  pub total_errors : ℤ

-- The message TestStatusResponse as the client reads it.
pub record StatusReply (F : Type 0) : Type 0 where
  pub status : Status
  pub active_workers : ℤ
  pub total_vus : ℤ
  pub current_metrics : Option (MetricSnapshot F)

abbrev pub status_text : Status → String
status_text unknown = "UNKNOWN"
status_text pending = "PENDING"
status_text running = "RUNNING"
status_text completed = "COMPLETED"
status_text failed = "FAILED"
status_text stopped = "STOPPED"

-- internal/api/server.go
abbrev pub is_terminal : Status → Bool
is_terminal completed = true
is_terminal failed = true
is_terminal stopped = true
is_terminal _ = false

module _ (fl : Float64) where
  open fl use {F, of_int}

  abbrev pub zero_float : F
  zero_float = of_int (pos 0)

  unfoldable pub metrics_from_proto : Option (MetricSnapshot F) → Option (Metrics F)
  metrics_from_proto none = none
  metrics_from_proto (some s) = some (record {
    timestamp_ms = s.timestamp_ms;
    rps = elim s.rps as (λ o. Rps F) [
      | none ↦ record { current = zero_float; average = zero_float; peak = zero_float }
      | some r ↦ record { current = r.current; average = r.average; peak = r.peak }
    ];
    latency = elim s.latency as (λ o. Latency) [
      | none ↦ record {
        min_ms = pos 0;
        max_ms = pos 0;
        mean_ms = pos 0;
        p50_ms = pos 0;
        p95_ms = pos 0;
        p99_ms = pos 0;
        count = pos 0;
      }
      | some l ↦ record {
        min_ms = l.min_ms;
        max_ms = l.max_ms;
        mean_ms = l.mean_ms;
        p50_ms = l.p50_ms;
        p95_ms = l.p95_ms;
        p99_ms = l.p99_ms;
        count = l.count;
      }
    ];
    errors = elim s.error_rate as (λ o. Errors F) [
      | none ↦ record { rate = zero_float; percentage = zero_float }
      | some e ↦ record { rate = e.rate; percentage = e.percentage }
    ];
    total_requests = s.total_requests;
    total_errors = s.total_errors;
  })

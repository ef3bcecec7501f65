-- ===== src/Proto.antt =====
-- The messages of proto/orchestrator/orchestrator.proto and proto/metrics/metrics.proto that the
-- program fills and reads. A message that may be nil is an `Option` where the code tests it.
use go_sentinel.Base.{String, List, Bool, Option}
use go_sentinel.Base.Int.{ℤ}
use go_sentinel.Base.Dict.{Dict}

pub record Stage : Type 0 where
  pub duration : String
  pub target_vus : ℤ
  pub ramp_up : String

-- The `oneof`; `unset` is a nil one.
pub data Assertion : Type 0 where
  unset : Assertion
  status_code : ℤ → Assertion
  response_time : String → ℤ → Assertion
  body_contains : String → Assertion

pub record Request : Type 0 where
  pub method : String
  pub path : String
  pub headers : Dict String
  pub body : String
  pub assertions : List Assertion
  pub think_time_ms : ℤ

pub record HttpConfig : Type 0 where
  pub base_url : String
  pub requests : List Request
  pub headers : Dict String
  pub timeout_ms : ℤ

pub record TestPlan : Type 0 where
  pub id : String
  pub name : String
  pub stages : List Stage
  pub http : Option HttpConfig
  pub variables : Dict String
  pub total_virtual_users : ℤ

pub record RpsSnapshot (F : Type 0) : Type 0 where
  pub current : F
  pub average : F
  pub peak : F
  pub window_seconds : ℤ

pub record LatencyHistogram : Type 0 where
  pub min_ms : ℤ
  pub max_ms : ℤ
  pub mean_ms : ℤ
  pub p50_ms : ℤ
  pub p95_ms : ℤ
  pub p99_ms : ℤ
  pub p999_ms : ℤ
  pub count : ℤ

pub record ErrorRate (F : Type 0) : Type 0 where
  pub rate : F
  pub percentage : F
  pub error_messages : List String

pub record MetricSnapshot (F : Type 0) : Type 0 where
  pub rps : Option (RpsSnapshot F)
  pub latency : Option LatencyHistogram
  pub error_rate : Option (ErrorRate F)
  pub total_requests : ℤ
  pub total_errors : ℤ
  pub timestamp_ms : ℤ

pub record MetricBatch (F : Type 0) : Type 0 where
  pub worker_id : String
  pub latency_histogram : Option LatencyHistogram
  pub rps_snapshot : Option (RpsSnapshot F)
  pub error_rate : Option (ErrorRate F)
  pub batch_timestamp_ms : ℤ
  pub total_requests : ℤ
  pub total_errors : ℤ
  pub test_id : String
  pub test_active : Bool

pub data Status : Type 0 where
  unknown pending running completed failed stopped : Status

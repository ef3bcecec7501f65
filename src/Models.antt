-- ===== src/Models.antt =====
-- pkg/models/models.go. An int32 or an int64 is a ℤ; a duration counts nanoseconds, a time
-- nanoseconds since 1970. A map is a `Dict`. Floats are a type parameter.
use go_sentinel.Base.{String, List}
use go_sentinel.Base.Int.{ℤ}
use go_sentinel.Base.Dict.{Dict}

pub data TestStatus : Type 0 where
  pending running completed failed stopped : TestStatus

pub data WorkerStatus : Type 0 where
  idle running stopping error : WorkerStatus

pub record WorkerNode : Type 0 where
  pub id : String
  pub address : String
  pub max_vus : ℤ
  pub status : WorkerStatus
  pub metadata : Dict String
  pub last_seen : ℤ

pub record Stage : Type 0 where
  pub duration : ℤ
  pub target_vus : ℤ
  pub ramp_up : ℤ

-- `unset` is the empty text, the zero value of the type.
pub data AssertionType : Type 0 where
  unset status_code response_time body_contains : AssertionType

-- What the program stores in the `interface{}` fields of an assertion.
pub data Value : Type 0 where
  nil : Value
  int : ℤ → Value
  int32 : ℤ → Value
  text : String → Value
  duration : ℤ → Value

pub record Assertion : Type 0 where
  pub type : AssertionType
  pub value : Value
  pub threshold : Value

pub record Request : Type 0 where
  pub method : String
  pub path : String
  pub headers : Dict String
  pub body : String
  pub assertions : List Assertion
  pub think_time : ℤ

pub record HttpConfig : Type 0 where
  pub base_url : String
  pub requests : List Request
  pub headers : Dict String
  pub timeout : ℤ

pub record TestPlan : Type 0 where
  pub id : String
  pub name : String
  pub stages : List Stage
  pub http : HttpConfig
  pub variables : Dict String
  pub total_virtual_users : ℤ

pub record RpsSnapshot (F : Type 0) : Type 0 where
  pub current : F
  pub average : F
  pub peak : F
  pub window_seconds : ℤ

pub record LatencyHistogram : Type 0 where
  pub min : ℤ
  pub max : ℤ
  pub mean : ℤ
  pub p50 : ℤ
  pub p95 : ℤ
  pub p99 : ℤ
  pub p999 : ℤ
  pub count : ℤ

pub record ErrorRate (F : Type 0) : Type 0 where
  pub rate : F
  pub percentage : F
  pub status_code_counts : List (ℤ × ℤ)
  pub error_messages : List String

pub record MetricSnapshot (F : Type 0) : Type 0 where
  pub rps : RpsSnapshot F
  pub latency : LatencyHistogram
  pub error_rate : ErrorRate F
  pub total_requests : ℤ
  pub total_errors : ℤ
  pub timestamp : ℤ
  pub worker_id : String

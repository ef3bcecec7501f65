-- ===== src/Orchestrator/Server.antt =====
-- internal/orchestrator/server.go: the handlers, on the state of the three components they share.
-- `now` is what `time.Now` returned; calls of the workers are returned as requests, or answered by
-- a parameter.
mod Messages
pub mod Dispatch
pub mod Reports
use go_sentinel.Base.{
  ℕ, ◌+◌, ◌/◌, String, List, [], ◌∷◌, Option, none, some, Bool, true, false, str_eq, not, ◌&&◌, ltb,
  length, map, if◌then◌else◌,
}
use go_sentinel.Base.Int.{ℤ, pos, negsuc, ◌+ℤ◌, quot, wrap32}
use go_sentinel.Base.Dict.{Dict, get_or, lookup}
use go_sentinel.Base.Float.{Float64}
use go_sentinel.Base.Result.{Result, ok, err, ◌>>=◌}
use go_sentinel.Base.Text.{cut_prefix}
use go_sentinel.Models.{WorkerNode, WorkerStatus, TestStatus, MetricSnapshot}
use go_sentinel.Proto
use go_sentinel.Runtime.Duration.{Durations, millisecond}
use go_sentinel.Runtime.Received.{PlanError, convert_plan}
use go_sentinel.Orchestrator.Allocation.{allocate_stage_vus}
use go_sentinel.Orchestrator.Aggregator.{
  MetricsAggregator, Batch, update_worker_metrics, get_aggregated_metrics,
}
use go_sentinel.Orchestrator.Distributor.{
  PlanDistributor, ActiveTest, distribute_plan, get_active_test, set_status, mark_worker_done,
}
use go_sentinel.Orchestrator.Distributor
use go_sentinel.Orchestrator.Nodes.{
  NodeManager, get_node, get_nodes, register_node, update_last_seen, update_status,
}
use Prim.Native.String
unfoldable pub use Messages.*

pub record Server (F : Type 0) : Type 0 where
  pub nodes : NodeManager
  pub distributor : PlanDistributor
  pub aggregator : MetricsAggregator F

pub data Error : Type 0 where
  invalid_argument : PlanError → Error
  internal : Distributor.Error → Error
  register_failed : Error
  not_found : String → Error

-- `StopTestResponse`: its counts stand for its message; none where the test was not found.
pub record StopTestResponse : Type 0 where
  pub success : Bool
  pub stopped : Option (ℕ × ℕ)

-- `stops address worker_id` is whether the worker stopped the test.
stop_workers : (String → String → Bool) → NodeManager → Dict ℤ → ℕ × ℕ
stop_workers stops nm [] = (0, 0)
stop_workers stops nm ((id, vus) ∷ ws) =
    let (stopped, failed) = stop_workers stops nm ws in
    elim (get_node nm id) [
      | none ↦ (stopped, failed + 1)
      | some node ↦
          if stops (dialable_address node.address) id
          then (stopped + 1, failed)
          else (stopped, failed + 1)
    ]

module _ (float : Float64) where
  open float use {F, of_int}

  -- The calls that `dispatchToWorkers` makes for the entries of a distribution.
  unfoldable pub dispatch_each :
      NodeManager → Proto.TestPlan → List (Dict ℤ) → Dict ℤ → List RunRequest
  unfolding plan_for_worker dialable_address
  dispatch_each nm plan allocations [] = []
  dispatch_each nm plan allocations ((id, vus) ∷ rest) =
      let others = dispatch_each nm plan allocations rest in
      elim (get_node nm id) [
        | none ↦ others
        | some node ↦
            record {
              address = dialable_address node.address;
              test_id = plan.id;
              plan = plan_for_worker plan id vus allocations;
              assigned_vus = vus;
              worker_id = id;
            }
            ∷ others
      ]

  unfoldable pub stage_allocations : Dict ℤ → List Proto.Stage → List (Dict ℤ)
  stage_allocations distribution [] = []
  stage_allocations distribution (s ∷ ss) =
      allocate_stage_vus float distribution s.target_vus ∷ stage_allocations distribution ss

  unfoldable pub dispatch_to_workers : NodeManager → Proto.TestPlan → Dict ℤ → List RunRequest
  unfolding dispatch_each stage_allocations
  dispatch_to_workers nm plan distribution =
      dispatch_each nm plan (stage_allocations distribution plan.stages) distribution

  pub record DistributeResponse : Type 0 where
    pub test_id : String
    pub workers_assigned : ℤ
    pub worker_vu_distribution : Dict ℤ

  unfoldable pub distribute_test_plan :
      Durations
      → Server F
      → Proto.TestPlan
      → Result Error (DistributeResponse × List RunRequest × Server F)
  unfolding dispatch_to_workers
  distribute_test_plan durations s plan = elim (convert_plan durations plan) [
    | err e ↦ err (invalid_argument e)
    | ok converted ↦
        elim (distribute_plan float (get_nodes s.nodes) s.distributor plan.id converted) [
          | err e ↦ err (internal e)
          | ok (distribution, distributor) ↦ ok (
            record {
              test_id = plan.id;
              workers_assigned = count_of distribution;
              worker_vu_distribution = distribution;
            },
            dispatch_to_workers s.nodes plan distribution,
            record s { distributor = distributor },
          )
        ]
  ]

  -- Nil parts are replaced by zero messages.
  unfoldable pub filled : Proto.MetricBatch F → Batch F
  filled batch = record {
    rps = elim batch.rps_snapshot [
      | none ↦ record {
        current = of_int (pos 0);
        average = of_int (pos 0);
        peak = of_int (pos 0);
        window_seconds = pos 0;
      }
      | some rps ↦ rps
    ];
    latency = elim batch.latency_histogram [
      | none ↦ record {
        min_ms = pos 0;
        max_ms = pos 0;
        mean_ms = pos 0;
        p50_ms = pos 0;
        p95_ms = pos 0;
        p99_ms = pos 0;
        p999_ms = pos 0;
        count = pos 0;
      }
      | some latency ↦ latency
    ];
    error_rate = elim batch.error_rate [
      | none ↦ record { rate = of_int (pos 0); percentage = of_int (pos 0); error_messages = [] }
      | some error_rate ↦ error_rate
    ];
    batch_timestamp_ms = batch.batch_timestamp_ms;
    total_requests = batch.total_requests;
    total_errors = batch.total_errors;
  }

  -- The last part of `ReportMetrics`: what a batch says of its test's completion.
  unfoldable pub note_completion : PlanDistributor → Proto.MetricBatch F → PlanDistributor
  note_completion pd batch =
      let (marked, complete) = mark_worker_done pd batch.test_id batch.worker_id in
      if not (str_eq batch.test_id "") && not batch.test_active
      then (if complete then set_status marked batch.test_id TestStatus.completed else marked)
      else pd

  unfoldable pub report_metrics : ℤ → Server F → Option (Proto.MetricBatch F) → Server F × Bool
  unfolding filled note_completion
  report_metrics now s none = (s, false)
  report_metrics now s (some batch) =
      let worker_status = if batch.test_active then WorkerStatus.running else WorkerStatus.idle in
      let seen = update_last_seen now s.nodes batch.worker_id in
      (
        record {
          nodes = update_status seen batch.worker_id worker_status;
          distributor = note_completion s.distributor batch;
          aggregator =
              update_worker_metrics float now s.aggregator batch.test_id batch.worker_id
                (filled batch);
        },
        true,
      )

  unfoldable pub get_test_status : Server F → String → Result Error (TestStatusResponse F)
  unfolding status_to_proto total_vus_of snapshot_to_proto
  get_test_status s test_id = elim (get_active_test s.distributor test_id) [
    | none ↦ err (not_found test_id)
    | some test ↦ ok (record {
      status = status_to_proto test.status;
      active_workers = count_of test.workers;
      total_vus = total_vus_of (pos 0) test.workers;
      current_metrics = snapshot_to_proto (get_aggregated_metrics float s.aggregator test_id);
    })
  ]

  unfoldable pub stop_test :
      (String → String → Bool) → Server F → String → Server F × StopTestResponse
  unfolding stop_workers
  stop_test stops s test_id = elim (get_active_test s.distributor test_id) [
    | none ↦ (s, record { success = false; stopped = none })
    | some test ↦
        let (stopped, failed) = stop_workers stops s.nodes test.workers in
        (
          record s { distributor = set_status s.distributor test_id TestStatus.stopped },
          record { success = not (ltb 0 failed); stopped = some (stopped, length test.workers) },
        )
  ]

pub record RegisterWorkerRequest : Type 0 where
  pub worker_id : String
  pub address : String
  pub max_vus : ℤ
  pub metadata : Dict String

-- etcd failed where `failed` is true.
unfoldable pub register_worker :
    {F : Type 0}
    → (String → ℕ → ℕ)
    → Bool
    → ℤ
    → Server F
    → RegisterWorkerRequest
    → Server F × Result Error (Unit {0})
register_worker hash failed now s req =
    let node : WorkerNode = record {
      id = req.worker_id;
      address = req.address;
      max_vus = req.max_vus;
      status = WorkerStatus.idle;
      metadata = req.metadata;
      last_seen = now;
    } in
    let (nodes, answer) = register_node hash failed s.nodes node in
    (record s { nodes = nodes }, elim answer [ ok u ↦ ok tt | err e ↦ err register_failed ])

pub record WorkerInfo : Type 0 where
  pub worker_id : String
  pub address : String
  pub max_vus : ℤ
  pub status : WorkerStatus
  pub last_seen_ms : ℤ

unfoldable pub list_workers : {F : Type 0} → Server F → List WorkerInfo
list_workers s =
    map
      (λ node. record {
        worker_id = node.id;
        address = node.address;
        max_vus = node.max_vus;
        status = node.status;
        last_seen_ms = unix_milli node.last_seen;
      })
      (get_nodes s.nodes)

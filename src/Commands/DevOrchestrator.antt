-- ===== src/Commands/DevOrchestrator.antt =====
-- cmd/orchestrator/main.go: devOrchestratorServer, the orchestrator in memory. A handler is a
-- function of the server's maps; `now` is what `time.Now` returns, and a request that the code reads
-- by its getters is not nil.
pub mod Lives
use Prim.Native.String
use go_sentinel.Base.{
  ℕ, suc, String, List, [], ◌∷◌, Option, none, some, Bool, true, false, str_eq, map, if◌then◌else◌,
}
use go_sentinel.Base.Int.{ℤ, pos, negsuc, ◌-ℤ◌, ltb_ℤ}
use go_sentinel.Base.Dict.{Dict, lookup, get_or, insert, delete}
use go_sentinel.Base.Text.{signed_decimal}
use go_sentinel.Proto
use go_sentinel.Proto.{TestPlan, MetricSnapshot, MetricBatch, Status}
use go_sentinel.Runtime.Duration.{zero_time}
use go_sentinel.Orchestrator.Server.{RegisterWorkerRequest, unix_milli}

pub record WorkerInfo : Type 0 where
  pub worker_id : String
  pub address : String
  pub max_vus : ℤ
  pub status : String
  pub last_seen_ms : ℤ

pub record DevServer : Type 0 where
  pub tests : Dict TestPlan
  pub created_at : Dict ℤ
  pub worker_counts : Dict ℤ
  pub workers : Dict WorkerInfo

unfoldable pub new_server : DevServer
new_server = record { tests = []; created_at = []; worker_counts = []; workers = [] }

-- `test-%d` of the time in nanoseconds
abbrev pub generated_id : ℤ → String
generated_id now = String.◌++◌ "test-" (signed_decimal now)

unfoldable pub id_for : ℤ → TestPlan → String
id_for now plan = if str_eq plan.id "" then generated_id now else plan.id

pub record DistributeResponse : Type 0 where
  pub test_id : String
  pub workers_assigned : ℤ
  pub worker_vu_distribution : Dict ℤ

-- none is the error "plan is required". The plan of the request gets the id.
unfoldable pub distribute_test_plan :
    ℤ → Option TestPlan → DevServer → DevServer × Option DistributeResponse
unfolding id_for
distribute_test_plan now none s = (s, none)
distribute_test_plan now (some plan) s =
    let test_id = id_for now plan in
    (
      record s {
        tests = insert test_id (record plan { id = test_id }) s.tests;
        created_at = insert test_id now s.created_at;
        worker_counts = insert test_id (pos 3) s.worker_counts;
      },
      some (record {
        test_id = test_id;
        workers_assigned = pos 3;
        worker_vu_distribution =
            ("worker-1", pos 10) ∷ ("worker-2", pos 10) ∷ ("worker-3", pos 10) ∷ [];
      }),
    )

-- What the stream's `select` chose: the context is done, or a tick, at a time, whose message is sent
-- or not.
pub data StreamEvent : Type 0 where
  context_done : StreamEvent
  ticked : ℤ → Bool → StreamEvent

pub record StreamMetricsResponse (F : Type 0) : Type 0 where
  pub snapshot : MetricSnapshot F
  pub timestamp_ms : ℤ

unfoldable pub empty_snapshot : {F : Type 0} → MetricSnapshot F
empty_snapshot = record {
  rps = none;
  latency = none;
  error_rate = none;
  total_requests = pos 0;
  total_errors = pos 0;
  timestamp_ms = pos 0;
}

-- The messages that are sent, and whether the stream has returned.
unfoldable pub stream_metrics :
    {F : Type 0} → List StreamEvent → List (StreamMetricsResponse F) × Bool
unfolding empty_snapshot
stream_metrics [] = ([], false)
stream_metrics (context_done ∷ events) = ([], true)
stream_metrics (ticked now false ∷ events) = ([], true)
stream_metrics (ticked now true ∷ events) =
    let (sent, returned) = stream_metrics events in
    (record { snapshot = empty_snapshot; timestamp_ms = unix_milli now } ∷ sent, returned)

unfoldable pub register_worker : ℤ → RegisterWorkerRequest → DevServer → DevServer
register_worker now req s = record s {
  workers =
      insert req.worker_id
        (record {
          worker_id = req.worker_id;
          address = req.address;
          max_vus = req.max_vus;
          status = "idle";
          last_seen_ms = unix_milli now;
        })
        s.workers;
}

unfoldable pub list_workers : DevServer → List WorkerInfo
list_workers s = map (λ (e : String × WorkerInfo). e.1) s.workers

-- The Boolean is `Accepted`.
unfoldable pub report_metrics :
    {F : Type 0} → ℤ → Option (MetricBatch F) → DevServer → DevServer × Bool
report_metrics now none s = (s, false)
report_metrics now (some batch) s = (
  elim (lookup batch.worker_id s.workers) [
    | none ↦ s
    | some w ↦ record s {
      workers =
          insert batch.worker_id (record w { last_seen_ms = unix_milli now; status = "running" })
            s.workers;
    }
  ],
  true,
)

pub record TestStatusResponse : Type 0 where
  pub status : Status
  pub active_workers : ℤ
  pub total_vus : ℤ

-- A difference that no duration holds is cut to one that is as well above or below 30 seconds.
unfoldable pub status_since : ℤ → ℤ → Status
status_since created now =
    if ltb_ℤ (pos 30000000000) (now -ℤ created) then Status.completed else Status.running

-- The answer for the plan of a test, where there is one, the time it was created and its count.
unfoldable pub status_response : ℤ → Option TestPlan → ℤ → ℤ → TestStatusResponse
status_response now none created count = record {
  status = Status.unknown;
  active_workers = pos 0;
  total_vus = pos 0;
}
status_response now (some plan) created count = record {
  status = status_since created now;
  active_workers = count;
  total_vus = plan.total_virtual_users;
}

unfoldable pub get_test_status : ℤ → String → DevServer → TestStatusResponse
get_test_status now test_id s =
    status_response now (lookup test_id s.tests) (get_or zero_time test_id s.created_at)
      (get_or (pos 0) test_id s.worker_counts)

-- It always answers with success.
unfoldable pub stop_test : String → DevServer → DevServer
stop_test test_id s = record s {
  tests = delete test_id s.tests;
  created_at = delete test_id s.created_at;
  worker_counts = delete test_id s.worker_counts;
}

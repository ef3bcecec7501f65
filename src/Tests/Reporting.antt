-- ===== src/Tests/Reporting.antt =====
-- Reports of workers on a concrete test.
use go_sentinel.Base.{ℕ, [], ◌∷◌, none, some, true, false, str_eq, if◌then◌else◌, ◌≡◌, refl, arith}
use go_sentinel.Base.Int.{pos}
use go_sentinel.Base.Dict.{lookup}
use go_sentinel.Models.{TestStatus, MetricSnapshot}
use go_sentinel.Worker.Reporter.{Reporter, new_metric_batch, stop}
use go_sentinel.Worker.Reporter.Delivery.{AreMillis, ticked, stop-Noted}
use go_sentinel.Proto
use go_sentinel.Orchestrator.Distributor.{ActiveTest, get_active_test}
use go_sentinel.Orchestrator.Distributor.Done.{IsTracked, missing}
use go_sentinel.Orchestrator.Aggregator.{
  new_metrics_aggregator, update_worker_metrics, get_aggregated_metrics, rollup,
}
use go_sentinel.Orchestrator.Aggregator.Scope.{
  with_batch, get_aggregated_metrics-update_worker_metrics,
}
use go_sentinel.Orchestrator.Nodes.{new_node_manager}
use go_sentinel.Orchestrator.Server.{Server, report_metrics, filled}
use go_sentinel.Orchestrator.Server.Reports.{
  Noted, report_metrics-Noted, HasStatus, report_metrics-HasStatus,
}
use go_sentinel.Tests.{rational, apart, half_done, one_test}

half_done-IsTracked : IsTracked half_done
unfolding missing lookup
half_done-IsTracked = record { distinct = ((refl, tt), (tt, tt)); counted = refl }

found : get_active_test one_test "t1" ≡ some half_done
unfolding get_active_test lookup
found = refl

assigned : lookup "w2" half_done.workers ≡ some (pos 3)
unfolding lookup
assigned = refl

unknown : (t : ActiveTest) → get_active_test one_test "t2" ≡ some t → lookup "w2" t.workers ≡ none
unfolding get_active_test lookup
unknown t e = ground arith

abbrev batch : Proto.MetricBatch (ℕ × ℕ)
batch = record {
  worker_id = "w2";
  latency_histogram = none;
  rps_snapshot = none;
  error_rate = none;
  batch_timestamp_ms = pos 1000;
  total_requests = pos 50;
  total_errors = pos 1;
  test_id = "t1";
  test_active = false;
}

abbrev server : Server (ℕ × ℕ)
server = record {
  nodes = new_node_manager;
  distributor = one_test;
  aggregator = new_metrics_aggregator;
}

report_metrics-Noted_example :
    (t' : ActiveTest) × Noted rational
      (report_metrics rational (pos 7) server (some batch)).0.distributor
      batch
      half_done
      t'
report_metrics-Noted_example =
    report_metrics-Noted rational (pos 7) server batch half_done (pos 3) (apart "t1" "" refl, refl)
      found assigned half_done-IsTracked

abbrev stopped_server : Server (ℕ × ℕ)
stopped_server = record server {
  distributor = record {
    active_tests = ("t1", record half_done { status = TestStatus.stopped }) ∷ [];
  };
}

is_stopped : HasStatus stopped_server.distributor "t1" TestStatus.stopped
unfolding get_active_test lookup
is_stopped = (record half_done { status = TestStatus.stopped }, refl, refl)

report_metrics-HasStatus_example :
    HasStatus
      (report_metrics rational (pos 7) stopped_server (some batch)).0.distributor
      "t1"
      TestStatus.stopped
report_metrics-HasStatus_example =
    report_metrics-HasStatus rational (pos 7) stopped_server (some batch) "t1" TestStatus.stopped
      is_stopped (λ e. ground arith)

get_aggregated_metrics-update_worker_metrics_example :
    get_aggregated_metrics rational
      (update_worker_metrics rational
        (pos 7)
        new_metrics_aggregator
        "t1"
        "w2"
        (filled rational batch))
      "t2"
    ≡ (if str_eq "t1" ""
        then get_aggregated_metrics rational new_metrics_aggregator "t2"
        else if str_eq "t1" "t2"
        then rollup rational
            (pos 7)
            (with_batch rational (pos 7) new_metrics_aggregator "t1" "w2" (filled rational batch))
        else get_aggregated_metrics rational new_metrics_aggregator "t2")
get_aggregated_metrics-update_worker_metrics_example =
    get_aggregated_metrics-update_worker_metrics rational (pos 7) new_metrics_aggregator "t1" "w2"
      (filled rational batch) "t2"

abbrev snapshot : MetricSnapshot (ℕ × ℕ)
snapshot = record {
  rps = record { current = (5, 1); average = (5, 1); peak = (9, 1); window_seconds = pos 10 };
  latency = record {
    min = pos 1000000;
    max = pos 9000000;
    mean = pos 4000000;
    p50 = pos 4000000;
    p95 = pos 8000000;
    p99 = pos 9000000;
    p999 = pos 9000000;
    count = pos 50;
  };
  error_rate = record {
    rate = (1, 1);
    percentage = (2, 1);
    status_code_counts = [];
    error_messages = [];
  };
  total_requests = pos 50;
  total_errors = pos 1;
  timestamp = pos 0;
  worker_id = "";
}

snapshot-AreMillis : AreMillis snapshot.latency
snapshot-AreMillis = record {
  min = (1, omega arith, refl);
  max = (9, omega arith, refl);
  mean = (4, omega arith, refl);
  p50 = (4, omega arith, refl);
  p95 = (8, omega arith, refl);
  p99 = (9, omega arith, refl);
  p999 = (9, omega arith, refl);
}

abbrev reporter : Reporter
reporter = record { worker_id = "w2"; connected = true; cancel = true; test_id = "t1" }

stop-Noted_example :
    (t' : ActiveTest) × Noted rational
      (ticked rational reporter
        ((pos 8, pos 1001, snapshot) ∷ [])
        (report_metrics rational
          (pos 7)
          (ticked rational reporter ((pos 6, pos 999, snapshot) ∷ []) server)
          (stop (pos 1000) snapshot reporter).1).0).distributor
      (new_metric_batch (pos 1000) "w2" "t1" false snapshot)
      half_done
      t'
stop-Noted_example =
    stop-Noted rational (pos 7) (pos 1000) snapshot reporter ((pos 6, pos 999, snapshot) ∷ [])
      ((pos 8, pos 1001, snapshot) ∷ []) server half_done (pos 3) refl (apart "t1" "" refl) found
      assigned half_done-IsTracked

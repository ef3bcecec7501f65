-- ===== src/Tests/Watching.antt =====
-- The dashboard and the dev orchestrator on concrete data.
use go_sentinel.Base.{ℕ, List, [], ◌∷◌, ◌++◌, none, some, false, not, ◌&&◌, ◌≡◌, ◌≢◌, refl, arith}
use go_sentinel.Base.Int.{pos, ◌+ℤ◌}
use go_sentinel.Models.{MetricSnapshot}
use go_sentinel.Proto
use go_sentinel.Proto.{Status}
use go_sentinel.Orchestrator.Server.{snapshot_to_proto}
use go_sentinel.Worker.Reporter.Delivery.{AreMillis}
use go_sentinel.Tui.Views.{Screen}
use go_sentinel.Tui.Dashboard.{window_size, nodes_update, key, view, update, new_model}
use go_sentinel.Tui.Dashboard.Ticks.{
  Program, start, deliver, Reached, started, delivered, IsTicking, Reached-IsTicking, is_none,
  is_nil, is_narrow, view-Reached,
}
use go_sentinel.Commands.Cli.{failed, nothing, snapshot, stream_metrics}
use go_sentinel.Commands.Cli.Shown.{IsShown, updated, shown_by, stream_metrics-snapshot_to_proto}
use go_sentinel.Commands.DevOrchestrator.{
  id_for, new_server, distribute_test_plan, get_test_status, stop_test,
}
use go_sentinel.Commands.DevOrchestrator.Lives.{
  Call, register, stop, handle_all, get_test_status-distribute_test_plan,
}
use go_sentinel.Tests.{rational, node, apart}

-- A screen that shows texts as they are.
abbrev paper : Screen (ℕ × ℕ)
paper = record {
  render = λ style text. text;
  render_column = λ style width text. text;
  render_box = λ width height text. text;
  join_horizontal = λ texts. "";
  join_vertical = λ texts. "";
  fixed = λ x. "";
}

-- Paused and resumed within a second.
abbrev resumed : Program (ℕ × ℕ)
resumed = record { model = new_model rational "t1"; pending = 2; ended = false }

resumed-Reached : Reached rational resumed 1 0
unfolding start deliver update new_model
resumed-Reached = delivered (key "p") (delivered (key "p") (started "t1") refl) refl

Reached-IsTicking_example : IsTicking rational resumed 1 0
Reached-IsTicking_example = Reached-IsTicking rational resumed-Reached

-- A node in a window of ten columns.
abbrev cramped : Program (ℕ × ℕ)
cramped = record {
  model =
      (update rational (nodes_update (node "w1" 4 ∷ []))
        (update rational (window_size (pos 10) (pos 40)) (new_model rational "t1")).0).0;
  pending = 1;
  ended = false;
}

cramped-Reached : Reached rational cramped 0 0
unfolding start deliver update new_model
cramped-Reached =
    delivered (nodes_update (node "w1" 4 ∷ []))
      (delivered (window_size (pos 10) (pos 40)) (started "t1") refl) refl

view-Reached_example :
    is_none (view rational paper cramped.model)
    ≡ (not (is_nil cramped.model.nodes) && is_narrow cramped.model.width cramped.model.height)
view-Reached_example = view-Reached rational paper cramped-Reached

abbrev reported : MetricSnapshot (ℕ × ℕ)
reported = record {
  rps = record { current = (5, 1); average = (5, 1); peak = (9, 1); window_seconds = pos 10 };
  latency = record {
    min = pos 1000000;
    max = pos 9000000;
    mean = pos 4000000;
    p50 = pos 4000000;
    p95 = pos 8000000;
    p99 = pos 9000000;
    p999 = pos 9000000;
    count = pos 50;
  };
  error_rate = record {
    rate = (1, 1);
    percentage = (2, 1);
    status_code_counts = [];
    error_messages = [];
  };
  total_requests = pos 50;
  total_errors = pos 1;
  timestamp = pos 7000000;
  worker_id = "";
}

reported-AreMillis : AreMillis reported.latency
reported-AreMillis = record {
  min = (1, omega arith, refl);
  max = (9, omega arith, refl);
  mean = (4, omega arith, refl);
  p50 = (4, omega arith, refl);
  p95 = (8, omega arith, refl);
  p99 = (9, omega arith, refl);
  p999 = (9, omega arith, refl);
}

stream_metrics-snapshot_to_proto_example : IsShown reported (
    shown_by (
      updated rational
        (stream_metrics rational
          ((nothing ∷ []) ++ (snapshot (snapshot_to_proto reported) ∷ failed ∷ [])))
        (new_model rational "t1")))
stream_metrics-snapshot_to_proto_example =
    stream_metrics-snapshot_to_proto rational reported (nothing ∷ []) (failed ∷ [])
      (new_model rational "t1") reported-AreMillis (7, refl) (tt, tt) (tt, tt)

abbrev dev_plan : Proto.TestPlan
dev_plan = record {
  id = "t1";
  name = "load";
  stages = [];
  http = none;
  variables = [];
  total_virtual_users = pos 12;
}

abbrev meanwhile : List (Call (ℕ × ℕ))
meanwhile =
    register (pos 2) (record { worker_id = "w1"; address = "h:1"; max_vus = pos 4; metadata = [] })
    ∷ stop "t2"
    ∷ []

abbrev no_more : List (Call (ℕ × ℕ))
no_more = []

left_alone : "t2" ≢ id_for (pos 1) dev_plan
unfolding id_for
left_alone = apart "t2" "t1" refl

get_test_status-distribute_test_plan_example :
    (get_test_status
        (pos 5)
        (id_for (pos 1) dev_plan)
        (handle_all meanwhile (distribute_test_plan (pos 1) (some dev_plan) new_server).0)
      ≡ record { status = Status.running; active_workers = pos 3; total_vus = pos 12 })
    × (get_test_status (pos 9) (id_for (pos 1) dev_plan) (
          handle_all no_more (
            stop_test
              (id_for (pos 1) dev_plan)
              (handle_all meanwhile (distribute_test_plan (pos 1) (some dev_plan) new_server).0)))
        ≡ record { status = Status.unknown; active_workers = pos 0; total_vus = pos 0 })
unfolding ◌+ℤ◌
get_test_status-distribute_test_plan_example =
    get_test_status-distribute_test_plan dev_plan new_server (pos 1) (pos 5) (pos 9) meanwhile
      no_more (tt, (left_alone, tt)) tt

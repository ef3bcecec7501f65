-- ===== src/Worker/Engine.antt =====
-- internal/worker/engine.go: a test from its start to its last batch. A stage is given with what its
-- virtual users requested, in the order in which this was recorded, and with whether the test was
-- cancelled by its end. The numbers of virtual users are not negative, as the code relies on.
pub mod Report
use go_sentinel.Base.{
  ℕ, zero, suc, String, List, [], ◌∷◌, Option, none, some, Bool, true, false, if◌then◌else◌,
}
use go_sentinel.Base.Int.{ℤ, pos, ltb_ℤ}
use go_sentinel.Base.Float.{Float64}
use go_sentinel.Models.{Stage, Assertion}
use go_sentinel.Proto
use go_sentinel.Worker.Spans.{Histogram}
use go_sentinel.Worker.Collector.{MetricsCollector, new_metrics_collector, get_snapshot, reset}
use go_sentinel.Worker.Reporter
use go_sentinel.Worker.Reporter.{Reporter, new_reporter}
use go_sentinel.Worker.VirtualUser.{Exchange, run_requests}

-- `virtual_users` is the number of those that were made for the last test.
pub record Engine (F H : Type 0) : Type 0 where
  pub metrics : MetricsCollector F H
  pub reporter : Reporter
  pub virtual_users : ℤ
  pub current_test_id : String
  pub test_active : Bool

pub record Play : Type 0 where
  pub stage : Stage
  pub requests : List (ℤ × Exchange × List Assertion)
  pub cancelled : Bool

-- How many virtual users a stage starts, of those of the test.
unfoldable pub active_vus : Stage → ℤ → ℤ → ℤ
active_vus stage total_vus made =
    let capped = if ltb_ℤ total_vus stage.target_vus then total_vus else stage.target_vus in
    if ltb_ℤ made capped then made else capped

-- What the loop over the stages leaves: the numbers of virtual users that its stages started, and the
-- index of the stage that failed.
pub record Stages (F H : Type 0) : Type 0 where
  pub metrics : MetricsCollector F H
  pub started : List ℤ
  pub failed_stage : Option ℕ

module _ (fl : Float64) (hg : Histogram) where
  open fl use {F}
  open hg use {H}

  -- The window is 10 seconds.
  unfoldable pub new_engine : ℤ → String → Bool → Engine F H
  unfolding new_metrics_collector
  new_engine now worker_id connected = record {
    metrics = new_metrics_collector fl hg now (pos 10000000000);
    reporter = new_reporter worker_id connected;
    virtual_users = pos 0;
    current_test_id = "";
    test_active = false;
  }

  unfoldable pub run_stages : ℕ → ℤ → List Play → MetricsCollector F H → Stages F H
  unfolding active_vus
  run_stages index total_vus [] mc = record { metrics = mc; started = []; failed_stage = none }
  run_stages index total_vus (p ∷ plays) mc =
      let after = run_requests fl hg p.requests mc in
      let rest = run_stages (suc index) total_vus plays after in
      let vus = active_vus p.stage total_vus total_vus in
      if p.cancelled
      then record { metrics = after; started = vus ∷ []; failed_stage = some index }
      else record {
        metrics = rest.metrics;
        started = vus ∷ rest.started;
        failed_stage = rest.failed_stage;
      }

  unfoldable pub begin_test : ℤ → String → ℤ → Engine F H → Engine F H
  unfolding reset
  begin_test now test_id assigned_vus e = record {
    metrics = reset fl hg now e.metrics;
    reporter = Reporter.start test_id e.reporter;
    virtual_users = assigned_vus;
    current_test_id = test_id;
    test_active = true;
  }

  -- The deferred calls: the test is no longer active, then the reporter is stopped. `later` and
  -- `now_ms` are the times of the last snapshot and of the last batch.
  unfoldable pub end_test :
      ℤ → ℤ → MetricsCollector F H → Engine F H → Engine F H × Option (Proto.MetricBatch F)
  end_test later now_ms mc e =
      let (after, snapshot) = get_snapshot fl hg later mc in
      let (reporter, batch) = Reporter.stop now_ms snapshot e.reporter in
      (record e { metrics = after; test_active = false; reporter = reporter }, batch)

  -- The engine, the last batch, and the loop over the stages; the batches of the ticks are not in it.
  unfoldable pub run_test :
      ℤ
      → ℤ
      → ℤ
      → String
      → ℤ
      → List Play
      → Engine F H
      → Engine F H × Option (Proto.MetricBatch F) × Stages F H
  unfolding run_stages begin_test end_test
  run_test now later now_ms test_id assigned_vus plays e =
      let begun = begin_test now test_id assigned_vus e in
      let stages = run_stages 0 assigned_vus plays begun.metrics in
      let (ended, batch) = end_test later now_ms stages.metrics begun in (ended, batch, stages)

  unfoldable pub current_test : Engine F H → String × Bool
  current_test e = (e.current_test_id, e.test_active)

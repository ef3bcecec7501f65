-- ===== src/Worker/Engine/Report.antt =====
-- What the last batch of a test says.
use go_sentinel.Base.{
  append_nil, ℕ, suc, String, List, [], ◌∷◌, ◌++◌, Option, some, true, false, length, All, ◌<◌,
  if◌then◌else◌, ◌≡◌, refl, sym, ◌∙◌, arith, Bool-cases, inl, inr,
}
use go_sentinel.Base.Int.{ℤ, pos, ◌≤ℤ◌, half64}
use go_sentinel.Base.Float.{Float64}
use go_sentinel.Models.{Stage, Assertion}
use go_sentinel.Proto
use go_sentinel.Worker.Spans.{Histogram}
use go_sentinel.Worker.Collector.{MetricsCollector, get_snapshot, reset}
use go_sentinel.Worker.Collector.Tally.{failures, IsTally, record_all-IsTally}
use go_sentinel.Worker.Reporter
use go_sentinel.Worker.VirtualUser.{Exchange, run_request, run_requests}
use go_sentinel.Worker.VirtualUser.Requests.{all_entries, run_requests-all_entries}
use go_sentinel.Worker.Engine.{
  Engine, Play, Stages, active_vus, run_stages, begin_test, end_test, run_test,
}

-- The requests of the stages up to the one that was cancelled.
abbrev pub played : List Play → List (ℤ × Exchange × List Assertion)
played [] = []
played (p ∷ plays) = p.requests ++ (if p.cancelled then [] else played plays)

active_vus-le : (s : Stage) (total : ℤ) → active_vus s total total ≤ℤ total
unfolding active_vus
active_vus-le s total = ground arith

module _ (fl : Float64) (hg : Histogram) where
  open fl use {F}
  open hg use {H}

  run_requests-append :
      (xs ys : List (ℤ × Exchange × List Assertion)) (mc : MetricsCollector F H)
      → run_requests fl hg (xs ++ ys) mc ≡ run_requests fl hg ys (run_requests fl hg xs mc)
  unfolding run_requests
  run_requests-append [] ys mc = refl
  run_requests-append (x ∷ xs) ys mc = run_requests-append xs ys (run_request fl hg x.0 x.1 x.2 mc)

  stages-played :
      (index : ℕ) (total : ℤ) (plays : List Play) (mc : MetricsCollector F H)
      → (run_stages fl hg index total plays mc).metrics ≡ run_requests fl hg (played plays) mc
  unfolding run_stages run_requests
  stages-played index total [] mc = refl
  stages-played index total (p ∷ plays) mc = elim (Bool-cases p.cancelled) [
    | inl c ↦ rw (c, append_nil p.requests) refl
    | inr c ↦ rw c (
        stages-played (suc index) total plays (run_requests fl hg p.requests mc)
        ∙ sym (run_requests-append p.requests (played plays) mc))
  ]

  stages_within :
      (index : ℕ) (total : ℤ) (plays : List Play) (mc : MetricsCollector F H)
      → All (λ n. n ≤ℤ total) (run_stages fl hg index total plays mc).started
  unfolding run_stages
  stages_within index total [] mc = tt
  stages_within index total (p ∷ plays) mc = elim (Bool-cases p.cancelled) [
    | inl c ↦ rw c (active_vus-le p.stage total, tt)
    | inr c ↦ rw c (
      active_vus-le p.stage total,
      stages_within (suc index) total plays (run_requests fl hg p.requests mc),
    )
  ]

  -- What is left of a test with the requests of its stages.
  pub record IsReported (now_ms : ℤ) (test_id : String) (assigned_vus : ℤ) (plays : List Play)
      (r : Engine F H × Option (Proto.MetricBatch F) × Stages F H) : Type 0 where
    pub idle : r.0.test_active ≡ false
    pub last_test : r.0.current_test_id ≡ test_id
    pub within : All (λ n. n ≤ℤ assigned_vus) r.2.started
    pub batch : Proto.MetricBatch F
    pub sent : r.1 ≡ some batch
    pub of_test : batch.test_id ≡ test_id
    pub over : batch.test_active ≡ false
    pub requests : batch.total_requests ≡ pos (length (all_entries (played plays)))
    pub errors : batch.total_errors ≡ pos (failures (all_entries (played plays)))

  tallied :
      (now later total : ℤ) (plays : List Play) (mc : MetricsCollector F H)
      → length (all_entries (played plays)) < half64
      → All (λ e. e.at ≤ℤ later) (all_entries (played plays))
      → IsTally fl hg later
          (all_entries (played plays))
          (run_stages fl hg 0 total plays (reset fl hg now mc)).metrics
  tallied now later total plays mc l h =
      rw
        (
          stages-played 0 total plays (reset fl hg now mc),
          run_requests-all_entries fl hg (played plays) (reset fl hg now mc),
        )
        (record_all-IsTally fl hg now later (all_entries (played plays)) mc l h)

  -- Whatever the stages of a test request, and wherever it is cancelled: the engine of a connected
  -- worker is no longer active afterwards and keeps the id of the test, no stage starts more virtual
  -- users than are assigned, and the last batch is of this test, says that it is not active, and
  -- counts all the requests that were recorded in the stages up to the one that was cancelled, and
  -- those of them that failed, if they are fewer than 2^63 and none is later than the last snapshot.
  pub run_test-IsReported :
      (now later now_ms : ℤ) (test_id : String) (assigned_vus : ℤ) (plays : List Play)
      (e : Engine F H)
      → e.reporter.connected ≡ true
      → length (all_entries (played plays)) < half64
      → All (λ x. x.at ≤ℤ later) (all_entries (played plays))
      → IsReported now_ms test_id assigned_vus plays
          (run_test fl hg now later now_ms test_id assigned_vus plays e)
  unfolding run_test begin_test end_test Reporter.stop Reporter.start Reporter.report
      Reporter.new_metric_batch
  run_test-IsReported now later now_ms test_id assigned_vus plays e on l h =
      let t = tallied now later assigned_vus plays e.metrics l h in
      record {
        idle = refl;
        last_test = refl;
        within = stages_within 0 assigned_vus plays (reset fl hg now e.metrics);
        batch =
            Reporter.new_metric_batch now_ms e.reporter.worker_id test_id false
              (get_snapshot fl hg later
                (run_stages fl hg 0 assigned_vus plays (reset fl hg now e.metrics)).metrics).1;
        sent = rw on refl;
        of_test = refl;
        over = refl;
        requests = t.requests;
        errors = t.errors;
      }

-- ===== src/Commands/WorkerServer.antt =====
-- cmd/worker/main.go: the handlers of the worker, its registration and its keep-alive.
pub mod Registered
use Prim.Native.String
use go_sentinel.Base.{
  ℕ, zero, suc, ◌+◌, String, [], Option, none, some, Bool, true, false, str_eq, ◌||◌, ltb,
  if◌then◌else◌,
}
use go_sentinel.Base.Int.{ℤ, wrap32}
use go_sentinel.Base.Float.{Float64}
use go_sentinel.Base.Result.{Result, ok, err}
use go_sentinel.Base.Text.{signed_decimal, concat}
use go_sentinel.Models.{TestPlan}
use go_sentinel.Proto
use go_sentinel.Runtime.Duration.{Durations}
use go_sentinel.Runtime.Received.{PlanError, convert_proto_plan}
use go_sentinel.Config.{Config}
use go_sentinel.Orchestrator.Server.{RegisterWorkerRequest}
use go_sentinel.Worker.Spans.{Histogram}
use go_sentinel.Worker.Collector.{get_snapshot}
use go_sentinel.Worker.Engine.{Engine, current_test}
use go_sentinel.Worker.Reporter.{new_metric_batch}

-- The configured id, or the host name and the process id.
unfoldable pub worker_id_of : Config → String → ℤ → String
unfolding concat
worker_id_of cfg hostname pid =
    if str_eq cfg.worker.id ""
    then concat hostname (concat "-" (signed_decimal pid))
    else cfg.worker.id

pub record RunRequest : Type 0 where
  pub test_id : String
  pub plan : Option Proto.TestPlan
  pub assigned_vus : ℤ

-- The answer of RunTest: a refusal, or the plan that is run in the background.
pub data RunAnswer : Type 0 where
  plan_required : RunAnswer
  invalid_plan : PlanError → RunAnswer
  test_started : String → TestPlan → ℤ → RunAnswer

unfoldable pub run_converted : RunRequest → Result PlanError TestPlan → RunAnswer
run_converted req (err e) = invalid_plan e
run_converted req (ok plan) = test_started req.test_id plan req.assigned_vus

unfoldable pub run_requested : Durations → RunRequest → Option Proto.TestPlan → RunAnswer
unfolding run_converted
run_requested durations req none = plan_required
run_requested durations req (some plan) = run_converted req (convert_proto_plan durations plan)

unfoldable pub run_test : Durations → RunRequest → RunAnswer
unfolding run_requested
run_test durations req = run_requested durations req req.plan

-- The host that the orchestrator is to dial: the host name in the place of an address that listens
-- everywhere, where there is one.
unfoldable pub dial_host : String → Option String → String
dial_host address none = address
dial_host address (some hostname) =
    if str_eq address "" || str_eq address "0.0.0.0" then hostname else address

unfoldable pub registration : Config → String → Option String → RegisterWorkerRequest
unfolding dial_host concat
registration cfg worker_id hostname = record {
  worker_id = worker_id;
  address =
      concat (dial_host cfg.worker.address hostname) (concat ":" (signed_decimal cfg.worker.port));
  max_vus = wrap32 cfg.worker.max_vus;
  metadata = [];
}

-- What the loop of registerWithOrchestrator leaves: the orchestrator, whether the worker was
-- registered, and how often it was called and waited for.
pub record Registration (S : Type 0) : Type 0 where
  pub state : S
  pub registered : Bool
  pub calls : ℕ
  pub sleeps : ℕ

-- `call attempt` is the orchestrator's answer, true where it is no error.
unfoldable pub register_loop : {S : Type 0} → (ℕ → S → S × Bool) → ℕ → ℕ → S → Registration S
register_loop call zero attempt s = record { state = s; registered = false; calls = 0; sleeps = 0 }
register_loop call (suc rounds) attempt s =
    let (s', answered) = call attempt s in
    let rest = register_loop call rounds (attempt + 1) s' in
    if answered
    then record { state = s'; registered = true; calls = 1; sleeps = 0 }
    else record rest {
      calls = rest.calls + 1;
      sleeps = rest.sleeps + (if ltb attempt 3 then 1 else 0);
    }

unfoldable pub register_with_orchestrator : {S : Type 0} → (ℕ → S → S × Bool) → S → Registration S
unfolding register_loop
register_with_orchestrator call s = register_loop call 3 1 s

module _ (fl : Float64) (hg : Histogram) where
  -- A tick of the keep-alive: the batch that it sends.
  unfoldable pub keep_alive :
      ℤ → ℤ → String → Engine fl.F hg.H → Engine fl.F hg.H × Proto.MetricBatch fl.F
  keep_alive now now_ms worker_id e =
      let (test_id, active) = current_test fl hg e in
      let (metrics, snapshot) = get_snapshot fl hg now e.metrics in
      (record e { metrics = metrics }, new_metric_batch now_ms worker_id test_id active snapshot)

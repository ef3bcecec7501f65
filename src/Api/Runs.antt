-- ===== src/Api/Runs.antt =====
-- internal/api/server.go and history.go: the handlers of runs, of saved plans and of the workers.
-- A decoded body, a number in the path, and what the orchestrator answers are arguments; they are
-- none where the decoding or the call fails.
pub mod Submitted
use Prim.Native.String
use go_sentinel.Base.{
  ℕ, zero, suc, String, List, [], ◌∷◌, Option, none, some, Bool, true, false, not, str_eq, ltb, map,
  if◌then◌else◌, ◌==◌, length,
}
use go_sentinel.Base.Int.{ℤ, pos, ◌+ℤ◌, ltb_ℤ, wrap32}
use go_sentinel.Base.Dict.{Dict, lookup}
use go_sentinel.Base.Float.{Float64}
use go_sentinel.Base.Result.{Result, ok, err}
use go_sentinel.Base.Text.{decimal}
use go_sentinel.Models.{Stage}
use go_sentinel.Runtime.Duration.{Durations}
use go_sentinel.Runtime.Scenario.{Scenario, YamlTestPlan}
use go_sentinel.Runtime.Parser.{from_spec}
use go_sentinel.Store.{Run, Sample, User, Plan, Database, StoreError, not_found}
use go_sentinel.Store.Runs.{queued, create_run, get_run, count_queued_before, delete_run, list_runs}
use go_sentinel.Store.Plans.{create_plan, update_plan, delete_plan, list_plans, list_samples}
use go_sentinel.Orchestrator.Server.{unix_milli}
use go_sentinel.Api.Allowlist.{Net, Allowlist, check}
use go_sentinel.Api.Queue.{Queue}
use go_sentinel.Api.Dispatcher.{cancel}
use go_sentinel.Api.Metrics.{Metrics, StatusReply, metrics_from_proto, status_text}
use go_sentinel.Api.Session.{Session}
use go_sentinel.Api.Accounts.{refusal_of}
use go_sentinel.Api.Reply.{Reply, reply, refuse, no_content}

-- The number of virtual users of the highest stage.
unfoldable pub peak_of : ℤ → List Stage → ℤ
peak_of peak [] = peak
peak_of peak (s ∷ stages) = peak_of (if ltb_ℤ peak s.target_vus then s.target_vus else peak) stages

-- "run-%d" of the time in milliseconds.
abbrev pub run_id : ℕ → String
run_id ms = Prim.Native.String.◌++◌ "run-" (decimal ms)

pub record StartRunResponse : Type 0 where
  pub test_id : String
  pub status : String
  pub position : ℕ

module _ (fl : Float64) (durations : Durations) (environ : List String) (net : Net) where
  open fl use {F, of_int}

  -- The row of a submitted run; `spec_json` is json.Marshal of the plan. The clock is read in
  -- milliseconds for the id, and again for the start.
  unfoldable pub submitted : ℕ → ℤ → String → Option User → Scenario → Run F
  submitted ms now spec_json user scenario = record {
    id = run_id ms;
    name = scenario.name;
    plan_spec = spec_json;
    status = queued;
    started_at = now;
    started_by = elim user [ none ↦ "" | some u ↦ u.username ];
    finished_at = none;
    dispatched_at = none;
    workers = pos 0;
    peak_vus = peak_of (pos 0) scenario.stages;
    total_requests = pos 0;
    total_errors = pos 0;
    error_pct = of_int (pos 0);
    peak_rps = of_int (pos 0);
    avg_rps = of_int (pos 0);
    p95_ms = pos 0;
    p99_ms = pos 0;
  }

  -- The store of a run whose plan and target are accepted.
  unfoldable pub queue_run : Run F → Database F → Database F × Reply StartRunResponse
  queue_run r db = elim (create_run fl r db) [
    | err e ↦ (db, refuse 500)
    | ok after ↦ (
      after,
      reply 202
          (record { test_id = r.id; status = queued; position = count_queued_before r.id after }),
    )
  ]

  unfoldable pub handle_start_run :
      Allowlist
      → (YamlTestPlan → String)
      → ℕ
      → ℤ
      → Option User
      → Option YamlTestPlan
      → Database F
      → Database F × Reply StartRunResponse
  unfolding queue_run submitted
  handle_start_run allowlist marshal ms now user none db = (db, refuse 400)
  handle_start_run allowlist marshal ms now user (some plan) db =
      elim (from_spec durations environ plan) [
        | err e ↦ (db, refuse 422)
        | ok scenario ↦ elim (check net allowlist scenario.http.base_url) [
          | err e ↦ (db, refuse 403)
          | ok u ↦ queue_run (submitted ms now (marshal plan) user scenario) db
        ]
      ]

-- What a request for the status of a run is answered.
pub record RunReport (F : Type 0) : Type 0 where
  pub test_id : String
  pub status : String
  pub active_workers : ℤ
  pub total_vus : ℤ
  pub metrics : Option (Metrics F)
  pub run : Run F
  pub position : ℕ

module _ (fl : Float64) where
  open fl use {F}

  -- `live` is whether the run has a session, `answer` what GetTestStatus returns.
  unfoldable pub merge_live : Bool → Option (StatusReply F) → RunReport F → RunReport F
  unfolding metrics_from_proto
  merge_live false answer out = out
  merge_live true none out = out
  merge_live true (some resp) out = record out {
    status = status_text resp.status;
    active_workers = resp.active_workers;
    total_vus = resp.total_vus;
    metrics = metrics_from_proto fl resp.current_metrics;
  }

  unfoldable pub handle_run_status :
      Bool → Option (StatusReply F) → String → Database F → Reply (RunReport F)
  unfolding merge_live
  handle_run_status live answer test_id db = elim (get_run test_id db) [
    | err e ↦ refuse 404
    | ok run ↦ reply 200 (
        merge_live live answer (record {
          test_id = test_id;
          status = run.status;
          active_workers = pos 0;
          total_vus = pos 0;
          metrics = none;
          run = run;
          position = if str_eq run.status queued then count_queued_before test_id db else 0;
        }))
  ]

pub record StopReply : Type 0 where
  pub success : Bool
  pub message : String

-- intParam: `parsed` is Atoi of the parameter, none where it is missing or no number.
abbrev pub int_param : Option ℤ → ℤ → ℤ
int_param none fallback = fallback
int_param (some n) fallback = n

-- decodePlan: the name and the spec of a body, or the status code of the error.
unfoldable pub decode_plan : Option (String × String) → Result ℕ (String × String)
decode_plan none = err 400
decode_plan (some p) = if str_eq p.0 "" then err 422 else (if str_eq p.1 "" then err 422 else ok p)

abbrev plan_reply : Result StoreError Plan → Reply Plan
plan_reply (err e) = refusal_of e
plan_reply (ok plan) = reply 200 plan

module _ {F : Type 0} where
  -- `answer` is what the orchestrator's StopTest returns.
  unfoldable pub handle_stop_run :
      Option StopReply → String → Database F → Database F × Reply String
  handle_stop_run answer test_id db = elim (cancel test_id db) [
    | ok after ↦ (after, reply 200 "run cancelled before it started")
    | err e ↦ (
      db,
      elim answer [
        | none ↦ refuse 502
        | some resp ↦ if not resp.success then refuse 409 else reply 200 resp.message
      ],
    )
  ]

  unfoldable pub handle_list_runs : Option ℤ → Option ℤ → Database F → Reply (List (Run F))
  handle_list_runs limit offset db =
      reply 200 (list_runs (int_param limit (pos 50)) (int_param offset (pos 0)) db)

  unfoldable pub handle_delete_run : Queue → String → Database F → Database F × Reply (Unit {0})
  handle_delete_run q id db =
      if str_eq q.current id
      then (db, refuse 409)
      else elim (delete_run id db) [ err e ↦ (db, refusal_of e) | ok after ↦ (after, no_content) ]

  unfoldable pub handle_run_series : String → Database F → Reply (List (Sample F))
  handle_run_series id db = reply 200 (list_samples id db)

  unfoldable pub handle_list_plans : Database F → Reply (List Plan)
  handle_list_plans db = reply 200 (list_plans db)

  unfoldable pub handle_create_plan :
      ℕ → Option (String × String) → Database F → Database F × Reply Plan
  unfolding decode_plan
  handle_create_plan ms body db = elim (decode_plan body) [
    | err code ↦ (db, refuse code)
    | ok p ↦ let (after, plan) = create_plan (pos ms) p.0 p.1 db in (after, reply 201 plan)
  ]

  unfoldable pub handle_update_plan :
      ℕ → Option ℤ → Option (String × String) → Database F → Database F × Reply Plan
  unfolding decode_plan
  handle_update_plan ms none body db = (db, refuse 400)
  handle_update_plan ms (some id) body db = elim (decode_plan body) [
    | err code ↦ (db, refuse code)
    | ok p ↦ let (after, r) = update_plan (pos ms) id p.0 p.1 db in (after, plan_reply r)
  ]

  unfoldable pub handle_delete_plan : Option ℤ → Database F → Database F × Reply (Unit {0})
  handle_delete_plan none db = (db, refuse 400)
  handle_delete_plan (some id) db = elim (delete_plan id db) [
    | err e ↦ (db, refusal_of e)
    | ok after ↦ (after, no_content)
  ]

-- A worker as the orchestrator lists it.
pub record Worker : Type 0 where
  pub id : String
  pub address : String
  pub max_vus : ℤ
  pub status : String
  pub last_seen_ms : ℤ

-- The sum is an int32.
unfoldable pub capacity_of : ℤ → List Worker → ℤ
capacity_of capacity [] = capacity
capacity_of capacity (w ∷ workers) = capacity_of (wrap32 (capacity +ℤ w.max_vus)) workers

unfoldable pub handle_workers : Option (List Worker) → Reply (List Worker × ℤ)
unfolding capacity_of
handle_workers none = refuse 502
handle_workers (some workers) = reply 200 (workers, capacity_of (pos 0) workers)

-- The state of the orchestrator, and the current run.
unfoldable pub handle_health : Option (List Worker) → Queue → Reply (String × String)
handle_health none q = reply 200 ("unreachable", q.current)
handle_health (some workers) q = reply 200 ("ok", q.current)

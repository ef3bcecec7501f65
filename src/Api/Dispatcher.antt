-- ===== src/Api/Dispatcher.antt =====
-- internal/api/queue.go: the queue over the store. `dispatch`, `dispatchNext` and `Cancel` as
-- changes of both, and what submits, deletes and finishes runs around them.
pub mod Held
pub mod Running
pub mod GivesUp
use go_sentinel.Base.{
  ℕ, String, List, Option, none, some, Bool, true, false, not, str_eq, if◌then◌else◌,
}
use go_sentinel.Base.Int.{ℤ}
use go_sentinel.Base.Float.{Float64}
use go_sentinel.Base.Result.{Result, ok, err}
use go_sentinel.Proto
use go_sentinel.Runtime.Duration.{Durations}
use go_sentinel.Runtime.Scenario.{YamlTestPlan}
use go_sentinel.Runtime.Parser.{from_spec}
use go_sentinel.Runtime.Wire.{scenario_to_proto}
use go_sentinel.Store.{Run, Database, StoreError, not_found}
use go_sentinel.Store.Runs.{
  or_same, get_run, next_queued, mark_dispatched, set_run_status, fail_interrupted_runs, is_queued,
  failed,
}
use go_sentinel.Api.Queue.{Queue, Outcome, new_queue, dispatch_next}

abbrev pub cancelled : String
cancelled = "CANCELLED"

pub record Dispatcher (F : Type 0) : Type 0 where
  pub queue : Queue
  pub db : Database F

-- json.Unmarshal of a stored plan, and the orchestrator: the number of workers that a plan is
-- distributed to, none where the call fails.
pub record Outside : Type 0 where
  pub durations : Durations
  pub environ : List String
  pub unmarshal : String → Option YamlTestPlan
  pub distribute : Proto.TestPlan → Option ℤ

-- The errors of Cancel: that of the store, or that the run is not queued.
pub data CancelError : Type 0 where
  of_store : StoreError → CancelError
  not_queued : CancelError

module _ {F : Type 0} where
  -- The plan that `dispatch` sends for a run.
  unfoldable pub request_for : Outside → Run F → Option Proto.TestPlan
  request_for out run = elim (out.unmarshal run.plan_spec) [
    | none ↦ none
    | some spec ↦ elim (from_spec out.durations out.environ spec) [
      | err e ↦ none
      | ok scenario ↦ some (scenario_to_proto out.durations scenario run.id)
    ]
  ]

  -- none where the dispatch fails
  unfoldable pub dispatch : Outside → ℤ → Run F → Database F → Option (Database F)
  dispatch out now run db = elim (request_for out run) [
    | none ↦ none
    | some plan ↦ elim (out.distribute plan) [
      | none ↦ none
      | some workers ↦ some (or_same db (mark_dispatched run.id workers now db))
    ]
  ]

  -- The status of a run that the queue gave up on.
  unfoldable pub give_up : Option String → Database F → Database F
  give_up none db = db
  give_up (some id) db = or_same db (set_run_status id failed db)

  unfoldable pub attempt : Run F → Option (Database F) → Dispatcher F → Dispatcher F × Bool
  attempt run none d =
      let (q, outcome) = dispatch_next (some run.id) true d.queue in
      (record { queue = q; db = give_up outcome.gave_up d.db }, outcome.again)
  attempt run (some after) d =
      let (q, outcome) = dispatch_next (some run.id) false d.queue in
      (record { queue = q; db = after }, outcome.again)

  -- One call of dispatchNext; whether it is to be called again.
  unfoldable pub dispatch_next_run : Outside → ℤ → Dispatcher F → Dispatcher F × Bool
  dispatch_next_run out now d =
      if not (str_eq d.queue.current "") then (d, false) else elim (next_queued d.db) [
        | err e ↦ (d, false)
        | ok run ↦ attempt run (dispatch out now run d.db) d
      ]

  unfoldable pub cancel : String → Database F → Result CancelError (Database F)
  cancel id db = elim (get_run id db) [
    | err e ↦ err (of_store e)
    | ok run ↦
        if not (is_queued run) then err not_queued else elim (set_run_status id cancelled db) [
          | err e ↦ err (of_store e)
          | ok after ↦ ok after
        ]
  ]

  -- The start of the server on a database.
  unfoldable pub start : ℤ → Database F → Dispatcher F
  start now db = record { queue = new_queue; db = (fail_interrupted_runs now db).0 }

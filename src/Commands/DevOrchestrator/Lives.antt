-- ===== src/Commands/DevOrchestrator/Lives.antt =====
-- The life of a test in the dev orchestrator.
use text.Mathlib.TextPositions.{eq_refl}
use go_sentinel.Base.{
  String, List, [], ◌∷◌, Option, none, some, false, str_eq, eq_iff, All, if◌then◌else◌, ◌≡◌, ◌≢◌,
  refl, ◌∙◌, arith,
}
use go_sentinel.Base.Int.{ℤ, pos, ◌+ℤ◌, ltb_ℤ, -ℤ_parts, +ℤ_parts}
use go_sentinel.Base.Dict.{delete, get_or, lookup-insert, lookup-delete, get_or-insert}
use go_sentinel.Proto.{TestPlan, MetricBatch, Status}
use go_sentinel.Runtime.Duration.{zero_time}
use go_sentinel.Orchestrator.Server.{RegisterWorkerRequest}
use go_sentinel.Commands.DevOrchestrator.{
  DevServer, id_for, distribute_test_plan, register_worker, report_metrics, status_since,
  status_response, get_test_status, stop_test,
}

-- A call that changes the server, with the time it is made at.
pub data Call (F : Type 0) : Type 0 where
  distribute : ℤ → Option TestPlan → Call F
  register : ℤ → RegisterWorkerRequest → Call F
  report : ℤ → Option (MetricBatch F) → Call F
  stop : String → Call F

get_or-delete :
    {A : Type 0} (zero : A) (key other : String) (entries : List (String × A))
    → key ≢ other
    → get_or zero other (delete key entries) ≡ get_or zero other entries
unfolding get_or delete
get_or-delete zero key other [] h = refl
get_or-delete zero key other (e ∷ rest) h =
    ground (arith, get_or-delete zero key other rest, eq_iff e.0 other, eq_iff e.0 key)

apart : (a b : String) → a ≢ b → str_eq a b ≡ false
apart a b n = ground (arith, eq_iff a b)

-- A test is completed from 30 seconds after its submission on.
status_since-late :
    (created now : ℤ)
    → status_since created now
      ≡ (if ltb_ℤ (created +ℤ pos 30000000000) now then Status.completed else Status.running)
unfolding status_since
status_since-late created now =
    ground (arith, -ℤ_parts now created, +ℤ_parts created (pos 30000000000))

module _ {F : Type 0} where
  unfoldable pub handle : Call F → DevServer → DevServer
  handle (distribute now plan) s = (distribute_test_plan now plan s).0
  handle (register now req) s = register_worker now req s
  handle (report now batch) s = (report_metrics now batch s).0
  handle (stop test_id) s = stop_test test_id s

  unfoldable pub handle_all : List (Call F) → DevServer → DevServer
  unfolding handle
  handle_all [] s = s
  handle_all (call ∷ calls) s = handle_all calls (handle call s)

  -- The call neither submits nor stops the test.
  abbrev pub Leaves : String → Call F → Type 0
  Leaves test_id (distribute now none) = Unit {0}
  Leaves test_id (distribute now (some plan)) = id_for now plan ≢ test_id
  Leaves test_id (register now req) = Unit {0}
  Leaves test_id (report now batch) = Unit {0}
  Leaves test_id (stop other) = other ≢ test_id

  handle-kept :
      (test_id : String) (now : ℤ) (call : Call F) (s : DevServer)
      → Leaves test_id call
      → get_test_status now test_id (handle call s) ≡ get_test_status now test_id s
  unfolding handle get_test_status distribute_test_plan register_worker report_metrics stop_test
  handle-kept test_id now (distribute at none) s h = refl
  handle-kept test_id now (distribute at (some plan)) s h =
      let other = apart (id_for at plan) test_id h in
      rw
        (
          lookup-insert (id_for at plan) test_id (record plan { id = id_for at plan }) s.tests,
          get_or-insert zero_time (id_for at plan) test_id at s.created_at,
          get_or-insert (pos 0) (id_for at plan) test_id (pos 3) s.worker_counts,
          other,
        )
        refl
  handle-kept test_id now (register at req) s h = refl
  handle-kept test_id now (report at none) s h = refl
  handle-kept test_id now (report at (some batch)) s h = ground arith
  handle-kept test_id now (stop other) s h =
      rw
        (
          lookup-delete other test_id s.tests,
          apart other test_id h,
          get_or-delete zero_time other test_id s.created_at h,
          get_or-delete (pos 0) other test_id s.worker_counts h,
        )
        refl

  handle_all-kept :
      (test_id : String) (now : ℤ) (calls : List (Call F)) (s : DevServer)
      → All (Leaves test_id) calls
      → get_test_status now test_id (handle_all calls s) ≡ get_test_status now test_id s
  unfolding handle_all
  handle_all-kept test_id now [] s h = refl
  handle_all-kept test_id now (call ∷ calls) s h =
      handle_all-kept test_id now calls (handle call s) h.1 ∙ handle-kept test_id now call s h.0

  -- A plan that is submitted to the dev orchestrator is shown as running until 30 seconds after the
  -- time of its submission and as completed later, with three workers and the plan's virtual users, whatever workers register
  -- and report meanwhile and whichever other tests are submitted or stopped; once it is stopped its
  -- status is unknown until it is submitted again.
  pub get_test_status-distribute_test_plan :
      (plan : TestPlan) (s : DevServer) (created now later : ℤ) (calls after : List (Call F))
      → All (Leaves (id_for created plan)) calls
      → All (Leaves (id_for created plan)) after
      → (get_test_status now
            (id_for created plan)
            (handle_all calls (distribute_test_plan created (some plan) s).0)
          ≡ record {
            status =
                if ltb_ℤ (created +ℤ pos 30000000000) now then Status.completed else Status.running;
            active_workers = pos 3;
            total_vus = plan.total_virtual_users;
          })
        × (get_test_status later (id_for created plan) (
              handle_all after (
                stop_test
                  (id_for created plan)
                  (handle_all calls (distribute_test_plan created (some plan) s).0)))
            ≡ record { status = Status.unknown; active_workers = pos 0; total_vus = pos 0 })
  unfolding distribute_test_plan stop_test get_test_status status_response
  get_test_status-distribute_test_plan plan s created now later calls after h g =
      let test_id = id_for created plan in
      let same = eq_refl test_id in
      let submitted = (distribute_test_plan created (some plan) s).0 in
      let running = handle_all calls submitted in
      let status = status_since-late created now in
      (
        handle_all-kept test_id now calls submitted h
            ∙ rw
                (
                  lookup-insert test_id test_id (record plan { id = test_id }) s.tests,
                  get_or-insert zero_time test_id test_id created s.created_at,
                  get_or-insert (pos 0) test_id test_id (pos 3) s.worker_counts,
                  same,
                  status,
                )
                refl,
        handle_all-kept test_id later after (stop_test test_id running) g
            ∙ rw (lookup-delete test_id test_id running.tests, same) refl,
      )

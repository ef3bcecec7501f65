-- ===== src/Orchestrator/Server/Reports.antt =====
-- What a worker's report does to the tests.
use text.Mathlib.TextPositions.{eq_refl}
use go_sentinel.Base.{
  String, Option, none, some, Bool, true, false, str_eq, eq_iff, not, ◌&&◌, if◌then◌else◌, ◌≡◌, ◌≢◌,
  ◌↔◌, ◌⊎◌, refl, sym, ap, ◌∙◌, inl, inr, Option-cases, Bool-cases, arith,
}
use go_sentinel.Base.Int.{ℤ}
use go_sentinel.Base.Dict.{lookup, lookup-insert}
use go_sentinel.Base.Float.{Float64}
use go_sentinel.Models.{TestStatus}
use go_sentinel.Proto
use go_sentinel.Orchestrator.Distributor.{
  PlanDistributor, ActiveTest, get_active_test, set_status, mark_worker_done, put_test, is_running,
}
use go_sentinel.Orchestrator.Distributor.Done.{
  IsTracked, HaveReported, marked, Reported, mark_worker_done_lem,
}
use go_sentinel.Orchestrator.Server.{Server, note_completion, report_metrics}

-- The test a status is written to, and the others.
get_active_test-set_status :
    (pd : PlanDistributor) (test_id : String) (status : TestStatus) (t : ActiveTest)
    → get_active_test pd test_id ≡ some t
    → get_active_test (set_status pd test_id status) test_id ≡ some (record t { status = status })
unfolding get_active_test set_status
get_active_test-set_status pd test_id status t e = rw (
  e,
  set_status,
  lookup-insert test_id test_id (record t { status = status }) pd.active_tests,
  eq_refl test_id,
)

some_inj : {t u : ActiveTest} → some t ≡ some u → t ≡ u
some_inj e = ground arith

absurd_Bool : {A : Type 0} → false ≡ true → A
absurd_Bool e = ground arith

absurd_empty : {A : Type 0} → ⊥ → A
absurd_empty x = elim x [ ]

module _ (float : Float64) where
  open float use {F}

  -- The status a test has once its worker's report is noted.
  abbrev pub reported_status : Bool → ActiveTest → TestStatus
  reported_status complete t = if complete then TestStatus.completed else t.status

  -- The worker says that it is done with the test.
  abbrev pub IsFinal : Proto.MetricBatch F → Type 0
  IsFinal batch = (batch.test_id ≢ "") × (batch.test_active ≡ false)

  final_test :
      (batch : Proto.MetricBatch F)
      → IsFinal batch
      → (not (str_eq batch.test_id "") && not batch.test_active) ≡ true
  final_test batch h = ground (arith, eq_iff batch.test_id "")

  note_completion-final :
      (pd : PlanDistributor) (batch : Proto.MetricBatch F)
      → IsFinal batch
      → note_completion float pd batch ≡ (
          if (mark_worker_done pd batch.test_id batch.worker_id).1
          then set_status
              (mark_worker_done pd batch.test_id batch.worker_id).0
              batch.test_id
              TestStatus.completed
          else (mark_worker_done pd batch.test_id batch.worker_id).0)
  unfolding note_completion
  note_completion-final pd batch h = rw (final_test batch h, note_completion)

  -- What a final report leaves of its test in a distributor.
  pub record Noted (pd' : PlanDistributor) (batch : Proto.MetricBatch F) (t t' : ActiveTest)
      : Type 0 where
    pub stored : get_active_test pd' batch.test_id ≡ some t'
    pub workers : t'.workers ≡ t.workers
    pub is_recorded : lookup batch.worker_id t'.done ≡ some true
    pub status : (t'.status ≡ t.status) ⊎ (t'.status ≡ TestStatus.completed)
    pub completes : (t'.status ≡ TestStatus.completed) ↔ (
        (t.status ≡ TestStatus.completed)
        ⊎ ((t.status ≡ TestStatus.running) × HaveReported t'.workers t'.done))

  note_completion-Noted :
      (pd : PlanDistributor) (batch : Proto.MetricBatch F) (t : ActiveTest)
      → IsFinal batch
      → Reported pd batch.test_id batch.worker_id t (marked t batch.worker_id)
      → (t' : ActiveTest) × Noted (note_completion float pd batch) batch t t'
  note_completion-Noted pd batch t final r =
      let (pd', complete) = mark_worker_done pd batch.test_id batch.worker_id in
      let m = marked t batch.worker_id in
      elim (Bool-cases (mark_worker_done pd batch.test_id batch.worker_id).1) [
        | inl e ↦
            let now = r.fires.0 e in
            (
              record m { status = TestStatus.completed },
              rw (note_completion-final pd batch final, e)
                  (record {
                    stored =
                        get_active_test-set_status _ batch.test_id TestStatus.completed m r.stored;
                    workers = refl;
                    is_recorded = r.is_recorded;
                    status = inr refl;
                    completes = (λ _. inr now, λ _. refl);
                  }),
            )
        | inr e ↦ (
          m,
          rw (note_completion-final pd batch final, e)
              (record {
                stored = r.stored;
                workers = refl;
                is_recorded = r.is_recorded;
                status = inl refl;
                completes = (
                  λ h. inl h,
                  λ h. elim h [ inl d ↦ d | inr d ↦ (let fired = r.fires.1 d in ground arith) ],
                );
              }),
        )
      ]

  -- For a tracked test, an assigned worker and a batch of it that names the test and is not active,
  -- `ReportMetrics` records the worker's report and keeps the test's workers; the test is completed
  -- afterwards exactly when it was already, or was running and every assigned worker has now
  -- reported, and otherwise keeps its status.
  pub report_metrics-Noted :
      (now : ℤ) (s : Server F) (batch : Proto.MetricBatch F) (t : ActiveTest) (v : ℤ)
      → IsFinal batch
      → get_active_test s.distributor batch.test_id ≡ some t
      → lookup batch.worker_id t.workers ≡ some v
      → IsTracked t
      → (t' : ActiveTest) × Noted (report_metrics float now s (some batch)).0.distributor batch t t'
  unfolding report_metrics
  report_metrics-Noted now s batch t v final e a h =
      note_completion-Noted s.distributor batch t final
        (mark_worker_done_lem s.distributor batch.test_id batch.worker_id t v e a h)

-- A test under an id, with a status.
abbrev pub HasStatus : PlanDistributor → String → TestStatus → Type 0
HasStatus pd test_id status =
    (t : ActiveTest) × (get_active_test pd test_id ≡ some t) × (t.status ≡ status)

put_test-HasStatus :
    (pd : PlanDistributor) (test_id other : String) (t : ActiveTest) (status : TestStatus)
    → HasStatus pd other status
    → (str_eq test_id other ≡ true → t.status ≡ status)
    → HasStatus (put_test pd test_id t) other status
unfolding get_active_test
put_test-HasStatus pd test_id other t status (u, e, d) same =
    elim (Bool-cases (str_eq test_id other)) [
      | inl c ↦ (t, rw (lookup-insert test_id other t pd.active_tests, c), same c)
      | inr c ↦ (u, rw (lookup-insert test_id other t pd.active_tests, c) e, d)
    ]

mark_worker_done-HasStatus :
    (pd : PlanDistributor) (test_id worker_id other : String) (status : TestStatus)
    → HasStatus pd other status
    → HasStatus (mark_worker_done pd test_id worker_id).0 other status
unfolding mark_worker_done get_active_test
mark_worker_done-HasStatus pd test_id worker_id other status (u, e, d) =
    elim (Option-cases (lookup test_id pd.active_tests)) [
      | inl a ↦ rw (a, mark_worker_done) (u, e, d)
      | inr (t, a) ↦ elim (Option-cases (lookup worker_id t.workers)) [
        | inl b ↦ rw (a, b, mark_worker_done) (u, e, d)
        | inr (v, b) ↦
            rw (a, b, mark_worker_done)
              (put_test-HasStatus pd test_id other (marked t worker_id) status (u, e, d)
                (λ c. of_same (rw ((eq_iff test_id other).0 c) at a)))
      ]
    ]
  where
    of_same : {t : ActiveTest} → lookup other pd.active_tests ≡ some t → t.status ≡ status
    of_same {t} a = ap (λ x. x.status) (some_inj (sym a ∙ e)) ∙ d

and_left : (a b : Bool) → (a && b) ≡ true → a ≡ true
and_left a b h = ground arith

is_running-running : (status : TestStatus) → is_running status ≡ true → status ≡ TestStatus.running
is_running-running TestStatus.running h = refl
is_running-running TestStatus.pending h = ground arith
is_running-running TestStatus.completed h = ground arith
is_running-running TestStatus.failed h = ground arith
is_running-running TestStatus.stopped h = ground arith

mark_worker_done-fires :
    (pd : PlanDistributor) (test_id worker_id : String)
    → (mark_worker_done pd test_id worker_id).1 ≡ true
    → HasStatus pd test_id TestStatus.running
unfolding mark_worker_done get_active_test
mark_worker_done-fires pd test_id worker_id h =
    elim (Option-cases (lookup test_id pd.active_tests)) [
      | inl a ↦ (let none_found = rw (a, mark_worker_done) at h in ground arith)
      | inr (t, a) ↦ (
        t,
        a,
        elim (Option-cases (lookup worker_id t.workers)) [
          | inl b ↦ (let not_found = rw (a, b, mark_worker_done) at h in ground arith)
          | inr (v, b) ↦
              is_running-running t.status
                (and_left (is_running t.status) _ (rw (a, b, mark_worker_done) at h))
        ],
      )
    ]

set_status-HasStatus :
    (pd : PlanDistributor) (test_id other : String) (status new : TestStatus)
    → HasStatus pd other status
    → str_eq test_id other ≡ false
    → HasStatus (set_status pd test_id new) other status
unfolding set_status
set_status-HasStatus pd test_id other status new h apart =
    elim (Option-cases (lookup test_id pd.active_tests)) [
      | inl a ↦ rw (a, set_status) h
      | inr (t, a) ↦
          rw (a, set_status)
            (put_test-HasStatus pd test_id other (record t { status = new }) status h
              (λ c. absurd_Bool (sym apart ∙ c)))
    ]

HasStatus-unique :
    (pd : PlanDistributor) (id : String) (a b : TestStatus)
    → HasStatus pd id a
    → HasStatus pd id b
    → a ≡ b
HasStatus-unique pd id a b (t, e, d) (u, f, g) =
    sym d ∙ ap (λ x. x.status) (some_inj (sym e ∙ f)) ∙ g

module _ (float : Float64) where
  open float use {F}

  note_completion-HasStatus :
      (pd : PlanDistributor) (batch : Proto.MetricBatch F) (id : String) (status : TestStatus)
      → HasStatus pd id status
      → status ≢ TestStatus.running
      → HasStatus (note_completion float pd batch) id status
  unfolding note_completion
  note_completion-HasStatus pd batch id status h ended =
      let kept = mark_worker_done-HasStatus pd batch.test_id batch.worker_id id status h in
      elim (Bool-cases (not (str_eq batch.test_id "") && not batch.test_active)) [
        | inr e ↦ rw (e, note_completion) h
        | inl e ↦ elim (Bool-cases (mark_worker_done pd batch.test_id batch.worker_id).1) [
          | inr d ↦ rw (e, d, note_completion) kept
          | inl d ↦
              rw (e, d, note_completion)
                (set_status-HasStatus _ batch.test_id id status TestStatus.completed kept
                  (other (mark_worker_done-fires pd batch.test_id batch.worker_id d)))
        ]
      ]
    where
      other : HasStatus pd batch.test_id TestStatus.running → str_eq batch.test_id id ≡ false
      other r = elim (Bool-cases (str_eq batch.test_id id)) [
        | inr e ↦ e
        | inl e ↦ absurd_empty (
            ended (
              HasStatus-unique pd id status TestStatus.running h
                (rw ((eq_iff batch.test_id id).0 e) at r)))
      ]

  -- Whatever is reported, for whichever test, a test that is not running keeps its status: a
  -- completed, failed or stopped test stays so.
  pub report_metrics-HasStatus :
      (now : ℤ) (s : Server F) (batch : Option (Proto.MetricBatch F)) (id : String)
      (status : TestStatus)
      → HasStatus s.distributor id status
      → status ≢ TestStatus.running
      → HasStatus (report_metrics float now s batch).0.distributor id status
  unfolding report_metrics
  report_metrics-HasStatus now s none id status h ended = h
  report_metrics-HasStatus now s (some batch) id status h ended =
      note_completion-HasStatus s.distributor batch id status h ended

-- ===== src/Orchestrator/Distributor/Done.antt =====
-- How the distributor learns that a test is over.
use text.Mathlib.TextPositions.{eq_refl}
use go_sentinel.Base.{
  ℕ, ◌+◌, ◌≡◌, refl, ◌≢◌, ◌↔◌, String, [], ◌∷◌, Option, none, some, Bool, true, false, inl, inr,
  str_eq, eq_iff, arith, length, Bool-cases, Option-cases, All,
}
use go_sentinel.Base.Int.{ℤ}
use go_sentinel.Base.Dict.{Dict, lookup, insert, lookup-insert}
use go_sentinel.Models.{TestStatus}
use go_sentinel.Orchestrator.Distributor.{
  ActiveTest, PlanDistributor, get_active_test, mark_worker_done, all_done, put_test,
}

-- The keys of a map are distinct.
abbrev pub IsUnkeyed {ℓ} : {V : Type ℓ} → String → Dict V → Type 0
IsUnkeyed k m = All (λ e. str_eq k e.0 ≡ false) m

abbrev pub IsMap {ℓ} : {V : Type ℓ} → Dict V → Type 0
IsMap [] = Unit
IsMap ((k, v) ∷ m) = IsUnkeyed k m × IsMap m

-- How many of the workers have not reported that they finished.
abbrev unfinished : Option Bool → ℕ
unfinished none = 1
unfinished (some b) = 0

unfoldable pub missing : Dict ℤ → Dict Bool → ℕ
missing [] done = 0
missing ((w, v) ∷ ws) done = unfinished (lookup w done) + missing ws done

-- `done` records workers of the test only, each once.
pub record IsTracked (t : ActiveTest) : Type 0 where
  pub distinct : IsMap t.workers
  pub counted : length t.done + missing t.workers t.done ≡ length t.workers

missing-empty : (ws : Dict ℤ) → missing ws [] ≡ length ws
unfolding missing lookup
missing-empty [] = refl
missing-empty ((w, v) ∷ ws) = omega (arith, missing-empty ws)

missing-insert_unkeyed :
    (k : String) (ws : Dict ℤ) (done : Dict Bool)
    → IsUnkeyed k ws
    → missing ws (insert k true done) ≡ missing ws done
unfolding missing
missing-insert_unkeyed k [] done h = refl
missing-insert_unkeyed k ((w, v) ∷ ws) done h =
    rw (lookup-insert k w true done, h.0, missing-insert_unkeyed k ws done h.1)

missing-insert :
    (k : String) (v : ℤ) (ws : Dict ℤ) (done : Dict Bool)
    → IsMap ws
    → lookup k ws ≡ some v
    → missing ws (insert k true done) + unfinished (lookup k done) ≡ missing ws done
unfolding missing lookup
missing-insert k v [] done m h = cc
missing-insert k v ((w, u) ∷ ws) done m h = elim (Bool-cases (str_eq w k)) [
  | inl e ↦ ground (
    arith,
    lookup-insert k w true done,
    eq_iff w k,
    eq_iff k w,
    missing-insert_unkeyed w ws done m.0,
  )
  | inr e ↦ ground (
    arith,
    lookup-insert k w true done,
    eq_iff w k,
    eq_iff k w,
    missing-insert k v ws done m.1 (rw e at h),
  )
]

length-insert :
    (k : String) (done : Dict Bool)
    → length (insert k true done) ≡ length done + unfinished (lookup k done)
unfolding insert lookup
length-insert k [] = refl
length-insert k ((j, b) ∷ done) = ground (arith, length-insert k done)

-- Every worker of the test has reported.
abbrev pub HaveReported : Dict ℤ → Dict Bool → Type 0
HaveReported ws done = All (λ w. lookup w.0 done ≢ none) ws

missing-eq-zero : (ws : Dict ℤ) (done : Dict Bool) → (missing ws done ≡ 0) ↔ HaveReported ws done
unfolding missing
missing-eq-zero [] done = (λ h. tt, λ h. refl)
missing-eq-zero ((w, v) ∷ ws) done =
    let (to, from) = missing-eq-zero ws done in
    (λ h. (ground arith, to (ground arith)), λ (h, hs). ground (arith, from hs))

-- A test as `DistributePlan` starts it is tracked.
pub IsTracked-started : (t : ActiveTest) → IsMap t.workers → t.done ≡ [] → IsTracked t
IsTracked-started t m e = record {
  distinct = m;
  counted = rw e (omega (arith, missing-empty t.workers));
}

abbrev pub marked : ActiveTest → String → ActiveTest
marked t worker_id = record t { done = insert worker_id true t.done }

marked-IsTracked :
    (t : ActiveTest) (worker_id : String) (v : ℤ)
    → IsTracked t
    → lookup worker_id t.workers ≡ some v
    → IsTracked (marked t worker_id)
marked-IsTracked t k v h e = record {
  distinct = h.distinct;
  counted =
      omega (
        arith,
        length-insert k t.done,
        missing-insert k v t.workers t.done h.distinct e,
        h.counted,
      );
}

all_done_iff :
    (t : ActiveTest)
    → IsTracked t
    → (all_done t ≡ true) ↔ ((t.status ≡ TestStatus.running) × HaveReported t.workers t.done)
all_done_iff t h =
    let (to, from) = missing-eq-zero t.workers t.done in
    (
      λ e. (ground arith, to (ground (arith, h.counted))),
      λ (e, r). ground (arith, from r, h.counted),
    )

-- The record of a worker's report.
pub record Reported (pd : PlanDistributor) (test_id worker_id : String) (t t' : ActiveTest)
    : Type 0 where
  pub stored : get_active_test (mark_worker_done pd test_id worker_id).0 test_id ≡ some t'
  pub tracked : IsTracked t'
  pub same_workers : t'.workers ≡ t.workers
  pub same_status : t'.status ≡ t.status
  pub is_recorded : lookup worker_id t'.done ≡ some true
  pub fires :
      ((mark_worker_done pd test_id worker_id).1 ≡ true)
      ↔ ((t.status ≡ TestStatus.running) × HaveReported t'.workers t'.done)

mark_worker_done-found :
    (pd : PlanDistributor) (test_id worker_id : String) (t : ActiveTest) (v : ℤ)
    → lookup test_id pd.active_tests ≡ some t
    → lookup worker_id t.workers ≡ some v
    → mark_worker_done pd test_id worker_id
      ≡ (put_test pd test_id (marked t worker_id), all_done (marked t worker_id))
unfolding mark_worker_done
mark_worker_done-found pd test_id worker_id t v e a = rw (e, a, mark_worker_done)

-- For a tracked test and a worker assigned to it, `MarkWorkerDone` records the worker, changes
-- neither the workers nor the status, keeps the test tracked, and returns true exactly when the test
-- is still running and every assigned worker has now reported.
pub mark_worker_done_lem :
    (pd : PlanDistributor) (test_id worker_id : String) (t : ActiveTest) (v : ℤ)
    → get_active_test pd test_id ≡ some t
    → lookup worker_id t.workers ≡ some v
    → IsTracked t
    → Reported pd test_id worker_id t (marked t worker_id)
unfolding get_active_test
mark_worker_done_lem pd test_id worker_id t v e a h =
    let t' = marked t worker_id in
    let tracked = marked-IsTracked t worker_id v h a in
    let found = mark_worker_done-found pd test_id worker_id t v e a in
    record {
      stored = rw found (rw (lookup-insert test_id test_id t' pd.active_tests, eq_refl test_id));
      tracked = tracked;
      same_workers = refl;
      same_status = refl;
      is_recorded = rw (lookup-insert worker_id worker_id true t.done, eq_refl worker_id);
      fires = rw found (all_done_iff t' tracked);
    }

-- For an unknown test or a worker that the test does not have, it changes nothing and returns false.
pub mark_worker_done_ignores :
    (pd : PlanDistributor) (test_id worker_id : String)
    → ((t : ActiveTest) → get_active_test pd test_id ≡ some t → lookup worker_id t.workers ≡ none)
    → mark_worker_done pd test_id worker_id ≡ (pd, false)
unfolding mark_worker_done get_active_test
mark_worker_done_ignores pd test_id worker_id h =
    elim (Option-cases (lookup test_id pd.active_tests)) [
      | inl e ↦ rw (e, mark_worker_done)
      | inr (t, e) ↦ rw (e, h t e, mark_worker_done)
    ]

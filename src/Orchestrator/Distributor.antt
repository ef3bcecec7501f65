-- ===== src/Orchestrator/Distributor.antt =====
-- internal/orchestrator/plan_distributor.go: the distributor's state, and the methods that hand a
-- test's virtual users to workers and follow it to its end. The mutexes serialise the methods, so
-- each is a function of the state. `nodes` is what `GetNodes` returned, in the order of its range.
pub mod Capacity
pub mod Rounds
pub mod Exact
pub mod Done
use go_sentinel.Base.{
  String, List, [], ◌∷◌, Option, none, some, Bool, true, false, str_eq, not, ◌&&◌, leb, length,
  if◌then◌else◌,
}
use go_sentinel.Base.Int.{ℤ, pos, ◌+ℤ◌, ◌-ℤ◌, ltb_ℤ, leb_ℤ, wrap32}
use go_sentinel.Base.Dict.{Dict, lookup, get_or, insert, delete}
use go_sentinel.Base.Float.{Float64}
use go_sentinel.Base.Result.{Result, ok, err}
use go_sentinel.Models.{WorkerNode, Stage, TestPlan, TestStatus}

-- `done` is the empty map where the source has nil.
pub record ActiveTest : Type 0 where
  pub test_id : String
  pub plan : TestPlan
  pub workers : Dict ℤ
  pub status : TestStatus
  pub done : Dict Bool

pub record PlanDistributor : Type 0 where
  pub active_tests : Dict ActiveTest

pub data Error : Type 0 where
  no_worker_nodes : Error
  insufficient_capacity : ℤ → ℤ → Error
  test_not_found : String → Error
  no_available_workers : Error

unfoldable pub new_plan_distributor : PlanDistributor
new_plan_distributor = record { active_tests = [] }

-- The loop that takes the largest stage target; it begins at 0.
unfoldable pub peak_vus : ℤ → List Stage → ℤ
peak_vus total [] = total
peak_vus total (s ∷ ss) = peak_vus (if ltb_ℤ total s.target_vus then s.target_vus else total) ss

unfoldable pub total_capacity : ℤ → List WorkerNode → ℤ
total_capacity total [] = total
total_capacity total (n ∷ ns) = total_capacity (wrap32 (total +ℤ n.max_vus)) ns

abbrev pub min_ℤ : ℤ → ℤ → ℤ
min_ℤ a b = if ltb_ℤ b a then b else a

-- The VUs left to place, and the distribution so far.
abbrev pub Placing : Type 0
Placing = ℤ × Dict ℤ

module _ (float : Float64) where
  open float use {of_int, mul, div, to_int32}

  -- One node of the proportional round.
  unfoldable pub share_step : ℤ → ℤ → WorkerNode → Placing → Placing
  share_step capacity total n (remaining, distribution) =
      let share = mul (div (of_int n.max_vus) (of_int capacity)) (of_int total) in
      let assigned = min_ℤ (min_ℤ (to_int32 share) n.max_vus) remaining in
      if ltb_ℤ (pos 0) assigned
      then (wrap32 (remaining -ℤ assigned), insert n.id assigned distribution)
      else (remaining, distribution)

  unfoldable pub share_round : ℤ → ℤ → List WorkerNode → Placing → Placing
  share_round capacity total [] p = p
  share_round capacity total (n ∷ ns) p = elim (leb_ℤ p.0 (pos 0)) [
    | true ↦ p
    | false ↦ share_round capacity total ns (share_step capacity total n p)
  ]

-- One node of the round that places what is left, in `DistributePlan` and in `RebalanceTest`.
unfoldable pub fill_step : WorkerNode → Placing → Placing
fill_step n (remaining, distribution) =
    let available = wrap32 (n.max_vus -ℤ get_or (pos 0) n.id distribution) in
    let assigned = min_ℤ remaining available in
    if ltb_ℤ (pos 0) available
    then (
      wrap32 (remaining -ℤ assigned),
      insert n.id (wrap32 (get_or (pos 0) n.id distribution +ℤ assigned)) distribution,
    )
    else (remaining, distribution)

unfoldable pub fill_round : List WorkerNode → Placing → Placing
fill_round [] p = p
fill_round (n ∷ ns) p = elim (leb_ℤ p.0 (pos 0)) [
  | true ↦ p
  | false ↦ fill_round ns (fill_step n p)
]

module _ (float : Float64) where
  -- Both rounds. (The second is under `if remainingVUs > 0`, which its loop tests again.)
  unfoldable pub place : ℤ → ℤ → List WorkerNode → Placing
  place capacity total nodes =
      let first = share_round float capacity total nodes (total, []) in
      if ltb_ℤ (pos 0) first.0 then fill_round nodes first else first

  unfoldable pub distribute_plan :
      List WorkerNode
      → PlanDistributor
      → String
      → TestPlan
      → Result Error (Dict ℤ × PlanDistributor)
  distribute_plan [] pd test_id plan = err no_worker_nodes
  distribute_plan (n ∷ ns) pd test_id plan =
      let nodes = n ∷ ns in
      let total = peak_vus (pos 0) plan.stages in
      let capacity = total_capacity (pos 0) nodes in
      let distribution = (place capacity total nodes).1 in
      let test : ActiveTest = record {
        test_id = test_id;
        plan = plan;
        workers = distribution;
        status = TestStatus.running;
        done = [];
      } in
      if ltb_ℤ capacity total
      then err (insufficient_capacity total capacity)
      else ok (distribution, record { active_tests = insert test_id test pd.active_tests })

unfoldable pub get_active_test : PlanDistributor → String → Option ActiveTest
get_active_test pd test_id = lookup test_id pd.active_tests

-- A write through the pointer that the map holds.
abbrev pub put_test : PlanDistributor → String → ActiveTest → PlanDistributor
put_test pd test_id test = record { active_tests = insert test_id test pd.active_tests }

unfoldable pub set_status : PlanDistributor → String → TestStatus → PlanDistributor
set_status pd test_id status = elim (lookup test_id pd.active_tests) [
  | none ↦ pd
  | some test ↦ put_test pd test_id (record test { status = status })
]

abbrev pub is_running : TestStatus → Bool
is_running TestStatus.running = true
is_running _ = false

-- The last lines of `MarkWorkerDone`, once the worker is recorded.
abbrev pub all_done : ActiveTest → Bool
all_done test = is_running test.status && leb (length test.workers) (length test.done)

unfoldable pub mark_worker_done : PlanDistributor → String → String → PlanDistributor × Bool
mark_worker_done pd test_id worker_id = elim (lookup test_id pd.active_tests) [
  | none ↦ (pd, false)
  | some test ↦ elim (lookup worker_id test.workers) [
    | none ↦ (pd, false)
    | some vus ↦
        let test' = record test { done = insert worker_id true test.done } in
        (put_test pd test_id test', all_done test')
  ]
]

unfoldable pub remove_active_test : PlanDistributor → String → PlanDistributor
remove_active_test pd test_id = record { active_tests = delete test_id pd.active_tests }

unfoldable pub other_nodes : String → List WorkerNode → List WorkerNode
other_nodes failed [] = []
other_nodes failed (n ∷ ns) =
    let rest = other_nodes failed ns in if not (str_eq n.id failed) then n ∷ rest else rest

-- The new state comes back beside the error too: the failed worker is gone by then.
unfoldable pub rebalance_test :
    List WorkerNode → PlanDistributor → String → String → PlanDistributor × Result Error (Unit {0})
rebalance_test nodes pd test_id failed = elim (lookup test_id pd.active_tests) [
  | none ↦ (pd, err (test_not_found test_id))
  | some test ↦
      let reassigned = get_or (pos 0) failed test.workers in
      let kept = delete failed test.workers in
      let placed = fill_round (other_nodes failed nodes) (reassigned, kept) in
      elim (other_nodes failed nodes) [
        | [] ↦ (put_test pd test_id (record test { workers = kept }), err no_available_workers)
        | n ∷ ns ↦ (put_test pd test_id (record test { workers = placed.1 }), ok tt)
      ]
]

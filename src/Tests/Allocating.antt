-- ===== src/Tests/Allocating.antt =====
-- The distribution of virtual users at concrete fleets.
use go_sentinel.Base.{List, [], ◌∷◌, ◌≡◌, ◌↔◌, ◌<◌, refl, arith}
use go_sentinel.Base.Int.{ℤ, pos, pos_part}
use go_sentinel.Base.Dict.{Dict}
use go_sentinel.Base.Result.{err}
use go_sentinel.Models.{WorkerNode}
use go_sentinel.Orchestrator.Distributor.{
  distribute_plan, peak_vus, no_worker_nodes, insufficient_capacity, new_plan_distributor,
}
use go_sentinel.Orchestrator.Distributor.Capacity.{IsFleet, room}
use go_sentinel.Orchestrator.Distributor.Exact.{
  Distributed, distribute_plan_exact, distribute_plan_refuses,
}
use go_sentinel.Orchestrator.Allocation.{allocate_stage_vus}
use go_sentinel.Orchestrator.Allocation.Total.{Truncates}
use go_sentinel.Orchestrator.Allocation.Exact.{IsShares, IsSplit, allocate_stage_vus-IsSplit}
use go_sentinel.Tests.{rational, node, stage, plan_of, two_workers}

abbrev fleet : List WorkerNode
fleet = node "w2" 3 ∷ []

fleet-IsFleet : IsFleet (node "w1" 4 ∷ fleet)
fleet-IsFleet = record {
  nonneg = (refl, (refl, tt));
  distinct = ((refl, tt), (tt, tt));
  in_range = omega arith;
}

five_vus : pos_part (peak_vus (pos 0) (stage 5 ∷ stage 2 ∷ [])) ≡ 5
unfolding peak_vus
five_vus = refl

distribute_plan_exact_example :
    (d : Dict ℤ) × Distributed
      (node "w1" 4 ∷ fleet)
      new_plan_distributor
      "t1"
      (plan_of (stage 5 ∷ stage 2 ∷ []))
      d
      (distribute_plan rational
        (node "w1" 4 ∷ fleet)
        new_plan_distributor
        "t1"
        (plan_of (stage 5 ∷ stage 2 ∷ [])))
distribute_plan_exact_example =
    distribute_plan_exact rational (node "w1" 4) fleet new_plan_distributor "t1"
      (plan_of (stage 5 ∷ stage 2 ∷ [])) fleet-IsFleet (rw five_vus (omega arith))

distribute_plan_refuses_example :
    ((room (node "w1" 4 ∷ fleet) < pos_part (peak_vus (pos 0) (stage 8 ∷ []))) ↔ (
      distribute_plan rational
        (node "w1" 4 ∷ fleet)
        new_plan_distributor
        "t1"
        (plan_of (stage 8 ∷ []))
      ≡ err (insufficient_capacity (peak_vus (pos 0) (stage 8 ∷ [])) (pos 7))))
    × (distribute_plan rational [] new_plan_distributor "t1" (plan_of (stage 8 ∷ []))
        ≡ err no_worker_nodes)
distribute_plan_refuses_example =
    distribute_plan_refuses rational (node "w1" 4) fleet new_plan_distributor "t1"
      (plan_of (stage 8 ∷ [])) fleet-IsFleet

two_workers-IsShares : IsShares two_workers
two_workers-IsShares = record {
  distinct = ((refl, tt), (tt, tt));
  nonneg = (refl, (refl, tt));
  in_range = omega arith;
}

rational-Truncates : Truncates rational 5 7
rational-Truncates = record { at = λ s le. ground arith }

allocate_stage_vus-IsSplit_example :
    IsSplit two_workers 5 (allocate_stage_vus rational two_workers (pos 5))
allocate_stage_vus-IsSplit_example =
    allocate_stage_vus-IsSplit rational two_workers 5 two_workers-IsShares (omega arith)
      (omega arith) rational-Truncates

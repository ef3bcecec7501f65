-- ===== src/Orchestrator/Distributor/Exact.antt =====
-- What `DistributePlan` promises: the VUs that it hands out add up to the plan's peak, and no worker
-- is given more than it can run.
use go_sentinel.Base.{
  ℕ, ◌≤◌, ◌<◌, ◌≡◌, refl, sym, ap, ◌∙◌, ◌↔◌, ◌⊎◌, String, List, [], ◌∷◌, false, inl, inr, arith,
  if◌then◌else◌, All, Bool-cases,
}
use go_sentinel.Base.Int.{
  ℤ, pos, pos_part, neg_part, ◌≤ℤ◌, ltb_ℤ, ltb_ℤ-lt, ltb_ℤ-ge, ◌<ℤ◌, parts_of_eq, int_laws,
}
use go_sentinel.Base.Dict.{Dict, insert, get_or}
use go_sentinel.Base.Float.{Float64}
use go_sentinel.Base.Result.{Result, ok, err}
use go_sentinel.Models.{WorkerNode, Stage, TestPlan, TestStatus}
use go_sentinel.Orchestrator.Distributor.{
  ActiveTest, PlanDistributor, Error, no_worker_nodes, insufficient_capacity, peak_vus,
  total_capacity, share_round, fill_round, place, distribute_plan, Placing,
}
use go_sentinel.Orchestrator.Distributor.Capacity.{
  sum_vus, room, IsAbsent, IsFleet, pos_of_nonneg, total_capacity-eq-room, peak_vus-nonneg, vus_of,
  Fits, IsFresh,
}
use go_sentinel.Orchestrator.Distributor.Rounds.{share_round-Shared, fill_round-Filled, Shared}

-- A finished placement of `total` VUs.
pub record IsExact (ns : List WorkerNode) (total : ℤ) (d : Dict ℤ) : Type 0 where
  pub sums : sum_vus d ≡ total
  pub fits : All (Fits d) ns
  pub elsewhere : (k : String) → IsAbsent k ns → vus_of k d ≡ pos 0

IsFresh-empty : (ns : List WorkerNode) → All (IsFresh []) ns
unfolding get_or
IsFresh-empty [] = tt
IsFresh-empty (n ∷ ns) = (refl, IsFresh-empty ns)

-- `place` with its first round named.
then_fill : List WorkerNode → Placing → Placing
then_fill ns p = if ltb_ℤ (pos 0) p.0 then fill_round ns p else p

then_fill-IsExact :
    (ns : List WorkerNode) (t : ℕ) (p : Placing)
    → IsFleet ns
    → t ≤ room ns
    → Shared ns t [] p
    → IsExact ns (pos t) (then_fill ns p).1
unfolding then_fill get_or
then_fill-IsExact ns t (r, d) v le (q, count) = elim (Bool-cases (ltb_ℤ (pos 0) r)) [
  | inl e ↦
      let left = pos_part r in
      let is_left : r ≡ pos left = pos_of_nonneg r q.nonneg in
      let (f, exhausted) =
        fill_round-Filled ns left d v.nonneg v.distinct v.in_range q.fits
          (omega (arith, q.at_most, v.in_range)) in
      let done = exhausted (omega (arith, count)) in
      rw (e, then_fill)
        (rw is_left (record {
          sums = omega (
            int_laws,
            parts_of_eq f.conserved,
            parts_of_eq q.conserved,
            ap pos_part is_left,
            ap neg_part is_left,
            ap pos_part done,
            ap neg_part done,
          );
          fits = f.fits;
          elsewhere = λ k h. f.elsewhere k h ∙ q.elsewhere k h;
        }))
  | inr e ↦
      rw (e, then_fill)
        (record {
          sums = omega (int_laws, parts_of_eq q.conserved, q.nonneg, ltb_ℤ-ge (pos 0) r e);
          fits = q.fits;
          elsewhere = q.elsewhere;
        })
]

fleet_capacity : (ns : List WorkerNode) → IsFleet ns → total_capacity (pos 0) ns ≡ pos (room ns)
fleet_capacity ns v =
    total_capacity-eq-room 0 ns v.nonneg (omega (arith, v.in_range)) ∙ ap pos (omega arith)

place-then_fill :
    (float : Float64) (capacity total : ℤ) (ns : List WorkerNode)
    → place float capacity total ns ≡ then_fill ns (share_round float capacity total ns (total, []))
unfolding place then_fill
place-then_fill float capacity total ns = refl

-- The test that a distribution starts.
abbrev pub started : String → TestPlan → Dict ℤ → ActiveTest
started test_id plan d = record {
  test_id = test_id;
  plan = plan;
  workers = d;
  status = TestStatus.running;
  done = [];
}

abbrev pub Distributed :
    List WorkerNode
    → PlanDistributor
    → String
    → TestPlan
    → Dict ℤ
    → Result Error (Dict ℤ × PlanDistributor)
    → Type 0
Distributed ns pd test_id plan d r =
    (r ≡ ok (d, record { active_tests = insert test_id (started test_id plan d) pd.active_tests }))
    × IsExact ns (peak_vus (pos 0) plan.stages) d

distribute_plan-split :
    (float : Float64) (n : WorkerNode) (ns : List WorkerNode) (pd : PlanDistributor)
    (test_id : String) (plan : TestPlan)
    → (let nodes = n ∷ ns in
        let total = peak_vus (pos 0) plan.stages in
        let capacity = total_capacity (pos 0) nodes in
        let d = (place float capacity total nodes).1 in
        distribute_plan float nodes pd test_id plan ≡ (
          if ltb_ℤ capacity total
          then err (insufficient_capacity total capacity)
          else ok (
            d,
            record { active_tests = insert test_id (started test_id plan d) pd.active_tests },
          )))
unfolding distribute_plan
distribute_plan-split float n ns pd test_id plan = refl

-- With float64 arithmetic of any kind, on a fleet whose capacities are not negative, have distinct
-- ids and add up below 2 ^ 31: `DistributePlan` succeeds as soon as there is a node and the
-- capacities cover the largest stage target. The workers' VUs then sum to exactly that target, each
-- node holds between 0 and its capacity, no other worker holds any, and the test is stored as
-- running with this distribution and nobody done.
pub distribute_plan_exact :
    (float : Float64) (n : WorkerNode) (ns : List WorkerNode) (pd : PlanDistributor)
    (test_id : String) (plan : TestPlan)
    → IsFleet (n ∷ ns)
    → pos_part (peak_vus (pos 0) plan.stages) ≤ room (n ∷ ns)
    → (d : Dict ℤ) × Distributed
        (n ∷ ns)
        pd
        test_id
        plan
        d
        (distribute_plan float (n ∷ ns) pd test_id plan)
distribute_plan_exact float n ns pd test_id plan v le =
    let nodes = n ∷ ns in
    let total = peak_vus (pos 0) plan.stages in
    let capacity = total_capacity (pos 0) nodes in
    let t = pos_part total in
    let is_t : total ≡ pos t = pos_of_nonneg total (peak_vus-nonneg (pos 0) plan.stages refl) in
    let is_room : capacity ≡ pos (room nodes) = fleet_capacity nodes v in
    let enough : ltb_ℤ capacity total ≡ false = rw (is_room, is_t) (ground arith) in
    let first =
      share_round-Shared float capacity (pos t) nodes t [] v.distinct (IsFresh-empty nodes)
        (omega (arith, v.in_range)) in
    let exact : IsExact nodes total (place float capacity total nodes).1 =
      rw (place-then_fill, is_t) (then_fill-IsExact nodes t _ v le first) in
    (
      (place float capacity total nodes).1,
      (distribute_plan-split float n ns pd test_id plan ∙ rw enough, exact),
    )

-- On such a fleet `DistributePlan` fails, with the two numbers, exactly where the largest stage
-- target passes the sum of the capacities; with no node at all it always fails.
pub distribute_plan_refuses :
    (float : Float64) (n : WorkerNode) (ns : List WorkerNode) (pd : PlanDistributor)
    (test_id : String) (plan : TestPlan)
    → IsFleet (n ∷ ns)
    → ((room (n ∷ ns) < pos_part (peak_vus (pos 0) plan.stages)) ↔ (
        distribute_plan float (n ∷ ns) pd test_id plan
        ≡ err (insufficient_capacity (peak_vus (pos 0) plan.stages) (pos (room (n ∷ ns))))))
      × (distribute_plan float [] pd test_id plan ≡ err no_worker_nodes)
unfolding distribute_plan
distribute_plan_refuses float n ns pd test_id plan v =
    let nonneg = peak_vus-nonneg (pos 0) plan.stages refl in
    rw (fleet_capacity (n ∷ ns) v) ((λ h. ground arith, λ h. ground arith), refl)

abbrev pub Attained : ℤ → List Stage → Type 0
Attained p [] = ⊥
Attained p (s ∷ ss) = (s.target_vus ≡ p) ⊎ Attained p ss

pub record IsPeak (acc : ℤ) (ss : List Stage) (p : ℤ) : Type 0 where
  pub lower : acc ≤ℤ p
  pub bounds : All (λ s. s.target_vus ≤ℤ p) ss
  pub attained : (p ≡ acc) ⊎ Attained p ss

IsPeak-up :
    (acc : ℤ) (s : Stage) (ss : List Stage) (p : ℤ)
    → acc <ℤ s.target_vus
    → IsPeak s.target_vus ss p
    → IsPeak acc (s ∷ ss) p
IsPeak-up acc s ss p h v = record {
  lower = omega (arith, v.lower);
  bounds = (v.lower, v.bounds);
  attained = elim v.attained [ inl e ↦ inr (inl (sym e)) | inr a ↦ inr (inr a) ];
}

IsPeak-keep :
    (acc : ℤ) (s : Stage) (ss : List Stage) (p : ℤ)
    → s.target_vus ≤ℤ acc
    → IsPeak acc ss p
    → IsPeak acc (s ∷ ss) p
IsPeak-keep acc s ss p h v = record {
  lower = v.lower;
  bounds = (omega (arith, v.lower), v.bounds);
  attained = elim v.attained [ inl e ↦ inl e | inr a ↦ inr (inr a) ];
}

-- The peak that the loop computes is at least the number it starts from and at least every stage
-- target, and it is that number or the target of a stage.
pub peak_vus-IsPeak : (acc : ℤ) (ss : List Stage) → IsPeak acc ss (peak_vus acc ss)
unfolding peak_vus
peak_vus-IsPeak acc [] = record { lower = omega arith; bounds = tt; attained = inl refl }
peak_vus-IsPeak acc (s ∷ ss) = elim (Bool-cases (ltb_ℤ acc s.target_vus)) [
  | inl e ↦
      rw (e, peak_vus)
        (IsPeak-up acc s ss _ (ltb_ℤ-lt acc s.target_vus e) (peak_vus-IsPeak s.target_vus ss))
  | inr e ↦
      rw (e, peak_vus)
        (IsPeak-keep acc s ss _ (ltb_ℤ-ge acc s.target_vus e) (peak_vus-IsPeak acc ss))
]

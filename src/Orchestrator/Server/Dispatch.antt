-- ===== src/Orchestrator/Server/Dispatch.antt =====
-- What `dispatchToWorkers` sends.
use go_sentinel.Base.{
  String, List, [], ◌∷◌, none, some, ◌≡◌, ◌≢◌, ◌⊎◌, refl, ap, map, All, inl, inr, Option-cases,
}
use go_sentinel.Base.Int.{ℤ, pos}
use go_sentinel.Base.Dict.{Dict, get_or}
use go_sentinel.Base.Float.{Float64}
use go_sentinel.Base.Text.{cut_prefix, concat}
use go_sentinel.Base.Affixes.{append-cut_prefix, not_prefixed}
use go_sentinel.Proto
use go_sentinel.Models.{WorkerNode}
use Prim.Native.String
use go_sentinel.Orchestrator.Allocation.{allocate_stage_vus}
use go_sentinel.Orchestrator.Nodes.{NodeManager, get_node}
use go_sentinel.Orchestrator.Server.{
  RunRequest, scale_stages, dialable_address, plan_for_worker, dispatch_each, stage_allocations,
  dispatch_to_workers,
}

-- The address that is dialled for a node's: localhost in the place of 0.0.0.0 or before a mere port,
-- and else the address itself.
abbrev pub IsDialled : String → String → Type 0
IsDialled address dialled =
    ((port : String) × (address ≡ concat "0.0.0.0:" port)
      × (dialled ≡ String.◌++◌ "localhost:" port))
    ⊎ ((port : String) × (address ≡ concat ":" port) × (dialled ≡ String.◌++◌ "localhost" address))
    ⊎ (((port : String) → address ≢ concat "0.0.0.0:" port)
        × ((port : String) → address ≢ concat ":" port)
        × (dialled ≡ address))

dialable_address-IsDialled : (address : String) → IsDialled address (dialable_address address)
unfolding dialable_address
dialable_address-IsDialled address = elim (Option-cases (cut_prefix address "0.0.0.0:")) [
  | inr (port, e) ↦
      inl (port, append-cut_prefix address "0.0.0.0:" port e, rw (dialable_address, e) refl)
  | inl wide ↦ elim (Option-cases (cut_prefix address ":")) [
    | inr (port, e) ↦
        inr (inl (port, append-cut_prefix address ":" port e, rw (dialable_address, wide, e) refl))
    | inl bare ↦ inr (
        inr (
          not_prefixed address "0.0.0.0:" wide,
          not_prefixed address ":" bare,
          rw (dialable_address, wide, bare) refl,
        ))
  ]
]

module _ (float : Float64) where
  -- A stage with a worker's share of its target.
  abbrev pub share_of_stage : Dict ℤ → String → Proto.Stage → Proto.Stage
  share_of_stage distribution worker_id s = record s {
    target_vus = get_or (pos 0) worker_id (allocate_stage_vus float distribution s.target_vus);
  }

  scale_stages-map :
      (distribution : Dict ℤ) (worker_id : String) (ss : List Proto.Stage)
      → scale_stages worker_id ss (stage_allocations float distribution ss)
        ≡ map (share_of_stage distribution worker_id) ss
  unfolding scale_stages stage_allocations
  scale_stages-map distribution worker_id [] = refl
  scale_stages-map distribution worker_id (s ∷ ss) =
      ap (◌∷◌ (share_of_stage distribution worker_id s))
        (scale_stages-map distribution worker_id ss)

  -- A request to the node of its worker that carries the plan with its worker's share of each stage.
  pub record IsScaled (nm : NodeManager) (plan : Proto.TestPlan) (distribution : Dict ℤ)
      (r : RunRequest) : Type 0 where
    pub node : WorkerNode
    pub registered : get_node nm r.worker_id ≡ some node
    pub dialled : IsDialled node.address r.address
    pub test_id : r.test_id ≡ plan.id
    pub scaled : r.plan ≡ record plan {
      total_virtual_users = r.assigned_vus;
      stages = map (share_of_stage distribution r.worker_id) plan.stages;
    }

  abbrev pub assignment : RunRequest → String × ℤ
  assignment r = (r.worker_id, r.assigned_vus)

  abbrev pub IsSentTo : NodeManager → Proto.TestPlan → Dict ℤ → Dict ℤ → List RunRequest → Type 0
  IsSentTo nm plan distribution entries rs =
      (map assignment rs ≡ entries) × All (IsScaled nm plan distribution) rs

  dispatch_each-IsSentTo :
      (nm : NodeManager) (plan : Proto.TestPlan) (distribution entries : Dict ℤ)
      → All (λ e. get_node nm e.0 ≢ none) entries
      → IsSentTo nm plan distribution entries
          (dispatch_each float nm plan (stage_allocations float distribution plan.stages) entries)
  unfolding dispatch_each plan_for_worker
  dispatch_each-IsSentTo nm plan distribution [] h = (refl, tt)
  dispatch_each-IsSentTo nm plan distribution ((id, vus) ∷ rest) (h, hs) =
      let (same, scaled) = dispatch_each-IsSentTo nm plan distribution rest hs in
      elim (Option-cases (get_node nm id)) [
        | inl e ↦ elim (h e) [ ]
        | inr (node, e) ↦
            rw (e, dispatch_each)
              (
                ap (◌∷◌ (id, vus)) same,
                (
                  record {
                    node = node;
                    registered = e;
                    dialled = dialable_address-IsDialled node.address;
                    test_id = refl;
                    scaled =
                        ap (λ ss. record plan { total_virtual_users = vus; stages = ss })
                          (scale_stages-map distribution id plan.stages);
                  },
                  scaled,
                ),
              )
      ]

  -- Where every worker of a distribution is registered, one request goes to each of them, in the
  -- order of the distribution and with its VUs: it dials the address of the worker's node, with
  -- localhost for 0.0.0.0 or before a mere port, and carries the test's id and the plan as it is but
  -- for those VUs as its total and, as each stage's target, the share that `allocateStageVUs` gives
  -- the worker of it.
  pub dispatch_to_workers-IsSentTo :
      (nm : NodeManager) (plan : Proto.TestPlan) (distribution : Dict ℤ)
      → All (λ e. get_node nm e.0 ≢ none) distribution
      → IsSentTo nm plan distribution distribution (dispatch_to_workers float nm plan distribution)
  unfolding dispatch_to_workers
  dispatch_to_workers-IsSentTo nm plan distribution h =
      dispatch_each-IsSentTo nm plan distribution distribution h

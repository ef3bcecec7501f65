-- ===== src/Orchestrator/Aggregator/Scope.antt =====
-- A worker's batch reaches the test that it names, and no other.
use go_sentinel.Base.{
  String, [], ◌∷◌, some, str_eq, eq_iff, ◌&&◌, if◌then◌else◌, arith, ◌≡◌, ◌∙◌, ap, refl, Bool-cases,
  inl, inr,
}
use go_sentinel.Base.Int.{ℤ}
use go_sentinel.Base.Dict.{Dict, get_or, insert, lookup-insert, get_or-insert, insert_nonempty}
use go_sentinel.Base.Float.{Float64}
use go_sentinel.Orchestrator.Aggregator.{
  Batch, MetricsAggregator, WorkerMetrics, snapshot_of, rollup, snapshot_in, recalculate,
  update_worker_metrics, get_aggregated_metrics, get_worker_metrics, zero_snapshot,
}

snapshot_in-insert :
    {F : Type 0} (k worker : String) (wm : WorkerMetrics F) (ws : Dict (WorkerMetrics F))
    → snapshot_in worker (insert k wm ws)
      ≡ (if str_eq k worker then some wm.snapshot else snapshot_in worker ws)
unfolding snapshot_in
snapshot_in-insert k worker wm ws = elim (Bool-cases (str_eq k worker)) [
  | inl e ↦ rw (snapshot_in, lookup-insert k worker wm ws, e)
  | inr e ↦ rw (snapshot_in, lookup-insert k worker wm ws, e)
]

module _ (float : Float64) where
  open float use {F}

  recalculate-worker_metrics :
      (now : ℤ) (ma : MetricsAggregator F) (test_id : String)
      → (recalculate float now ma test_id).worker_metrics ≡ ma.worker_metrics
  unfolding recalculate
  recalculate-worker_metrics now ma test_id = by_workers (get_or [] test_id ma.worker_metrics) refl
    where
      by_workers :
          (ws : Dict (WorkerMetrics F))
          → get_or [] test_id ma.worker_metrics ≡ ws
          → (recalculate float now ma test_id).worker_metrics ≡ ma.worker_metrics
      by_workers [] e = rw (e, recalculate)
      by_workers (w ∷ ws) e = rw (e, recalculate)

  recalculate-aggregated :
      (now : ℤ) (ma : MetricsAggregator F) (test_id : String) (w : String × WorkerMetrics F)
      (ws : Dict (WorkerMetrics F))
      → get_or [] test_id ma.worker_metrics ≡ w ∷ ws
      → (recalculate float now ma test_id).aggregated
        ≡ insert test_id (rollup float now (w ∷ ws)) ma.aggregated
  unfolding recalculate
  recalculate-aggregated now ma test_id w ws e = rw (e, recalculate)

  abbrev stored : MetricsAggregator F → String → Dict (WorkerMetrics F) → MetricsAggregator F
  stored ma test_id workers = record ma {
    worker_metrics = insert test_id workers ma.worker_metrics;
  }

  -- The workers of a test once a batch is stored.
  abbrev pub with_batch :
      ℤ → MetricsAggregator F → String → String → Batch F → Dict (WorkerMetrics F)
  with_batch now ma test_id worker_id batch =
      insert worker_id (record { snapshot = snapshot_of worker_id batch; last_update = now })
        (get_or [] test_id ma.worker_metrics)

  recalculate-stored :
      (now : ℤ) (ma : MetricsAggregator F) (test_id worker_id : String) (batch : Batch F)
      → (recalculate float now
          (stored ma test_id (with_batch now ma test_id worker_id batch))
          test_id).aggregated
        ≡ insert test_id
            (rollup float now (with_batch now ma test_id worker_id batch))
            ma.aggregated
  recalculate-stored now ma test_id worker_id batch =
      of_insert (with_batch now ma test_id worker_id batch) refl
    where
      of_insert :
          (ws : Dict (WorkerMetrics F))
          → with_batch now ma test_id worker_id batch ≡ ws
          → (recalculate float now (stored ma test_id ws) test_id).aggregated
            ≡ insert test_id (rollup float now ws) ma.aggregated
      of_insert [] e = elim (insert_nonempty worker_id _ _ e) [ ]
      of_insert (w ∷ ws) e = recalculate-aggregated now (stored ma test_id (w ∷ ws)) test_id w ws (
          ground (
            arith,
            get_or-insert [] test_id test_id (w ∷ ws) ma.worker_metrics,
            eq_iff test_id test_id,
          ))

  -- A batch changes the rollup of the test that it names, which becomes that of the test's workers
  -- with the batch stored, and of no other test; a batch that names no test changes none.
  pub get_aggregated_metrics-update_worker_metrics :
      (now : ℤ) (ma : MetricsAggregator F) (test_id worker_id : String) (batch : Batch F)
      (other : String)
      → get_aggregated_metrics float
          (update_worker_metrics float now ma test_id worker_id batch)
          other
        ≡ (if str_eq test_id ""
            then get_aggregated_metrics float ma other
            else if str_eq test_id other
            then rollup float now (with_batch now ma test_id worker_id batch)
            else get_aggregated_metrics float ma other)
  unfolding get_aggregated_metrics update_worker_metrics
  get_aggregated_metrics-update_worker_metrics now ma test_id worker_id batch other =
      elim (Bool-cases (str_eq test_id "")) [
        | inl e ↦ rw (e, update_worker_metrics)
        | inr e ↦ rw (
          e,
          update_worker_metrics,
          recalculate-stored now ma test_id worker_id batch,
          get_or-insert (zero_snapshot float) test_id other
              (rollup float now (with_batch now ma test_id worker_id batch)) ma.aggregated,
        )
      ]

  get_worker_metrics_cong :
      (ma mb : MetricsAggregator F) (test worker : String)
      → ma.worker_metrics ≡ mb.worker_metrics
      → get_worker_metrics ma test worker ≡ get_worker_metrics mb test worker
  unfolding get_worker_metrics
  get_worker_metrics_cong ma mb test worker e = rw e

  get_worker_metrics-stored :
      (now : ℤ) (ma : MetricsAggregator F) (test_id worker_id : String) (batch : Batch F)
      (test worker : String)
      → get_worker_metrics
          (stored ma test_id (with_batch now ma test_id worker_id batch))
          test
          worker
        ≡ (if str_eq test_id test && str_eq worker_id worker
            then some (snapshot_of worker_id batch)
            else get_worker_metrics ma test worker)
  unfolding get_worker_metrics
  get_worker_metrics-stored now ma test_id worker_id batch test worker =
      let workers = with_batch now ma test_id worker_id batch in
      let at = get_or-insert [] test_id test workers ma.worker_metrics in
      elim (Bool-cases (str_eq test_id test)) [
        | inl d ↦
            let same = (eq_iff test_id test).0 d in
            let here : get_or [] test (insert test_id workers ma.worker_metrics) ≡ workers =
              at ∙ rw d in
            ap (snapshot_in worker) here
            ∙ snapshot_in-insert worker_id worker
                (record { snapshot = snapshot_of worker_id batch; last_update = now })
                (get_or [] test_id ma.worker_metrics)
            ∙ rw (d, same)
        | inr d ↦
            let there : get_or [] test (insert test_id workers ma.worker_metrics)
                ≡ get_or [] test ma.worker_metrics =
              at ∙ rw d in
            ap (snapshot_in worker) there ∙ rw d
      ]

  -- A batch is what its worker last sent for the test that it names; what the other workers sent,
  -- and what any worker sent for another test, is unchanged.
  pub get_worker_metrics-update_worker_metrics :
      (now : ℤ) (ma : MetricsAggregator F) (test_id worker_id : String) (batch : Batch F)
      (test worker : String)
      → get_worker_metrics (update_worker_metrics float now ma test_id worker_id batch) test worker
        ≡ (if str_eq test_id ""
            then get_worker_metrics ma test worker
            else if str_eq test_id test && str_eq worker_id worker
            then some (snapshot_of worker_id batch)
            else get_worker_metrics ma test worker)
  unfolding get_worker_metrics update_worker_metrics
  get_worker_metrics-update_worker_metrics now ma test_id worker_id batch test worker =
      elim (Bool-cases (str_eq test_id "")) [
        | inl e ↦ rw (e, update_worker_metrics)
        | inr e ↦
            let workers = with_batch now ma test_id worker_id batch in
            rw (e, update_worker_metrics)
              (get_worker_metrics_cong (recalculate float now (stored ma test_id workers) test_id)
                  (stored ma test_id workers) test worker
                  (recalculate-worker_metrics now (stored ma test_id workers) test_id)
                ∙ get_worker_metrics-stored now ma test_id worker_id batch test worker)
      ]

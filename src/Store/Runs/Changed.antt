-- ===== src/Store/Runs/Changed.antt =====
-- What the statements leave of the table `runs`.
use go_sentinel.Base.{
  String, List, [], ◌∷◌, Bool, true, ◌==◌, ◌≡◌, refl, sym, arith, any, Bool-cases, inl, inr, All,
  eq_iff,
}
use go_sentinel.Base.Int.{ℤ}
use go_sentinel.Store.{Run, Sample, Database}
use go_sentinel.Store.Table.{update, affected}
use go_sentinel.Store.Table.Rows.{All-update, All-always}
use go_sentinel.Store.Runs.{or_same, update_runs, finish_run, finished, has_id}
use go_sentinel.Store.Plans.{add_sample}

-- A statement that affects no row changes none.
update_none :
    {A : Type 0} (p : A → Bool) (set : A → A) (rows : List A)
    → (affected p rows == 0) ≡ true
    → update p set rows ≡ rows
unfolding affected update
update_none p set [] h = refl
update_none p set (x ∷ rows) h = ground (arith, update_none p set rows)

module _ {F : Type 0} where
  pub runs-update :
      (p : Run F → Bool) (set : Run F → Run F) (db : Database F)
      → (or_same db (update_runs p set db)).runs ≡ update p set db.runs
  runs-update p set db = elim (Bool-cases (affected p db.runs == 0)) [
    | inl e ↦ rw e (sym (update_none p set db.runs e))
    | inr e ↦ rw e refl
  ]

  pub sample-runs :
      (id : String) (s : Sample F) (db : Database F)
      → (or_same db (add_sample id s db)).runs ≡ db.runs
  unfolding add_sample
  sample-runs id s db = elim (Bool-cases (any (has_id id) db.runs)) [
    | inl e ↦ rw (add_sample, e) refl
    | inr e ↦ rw (add_sample, e) refl
  ]

  -- Every row of a run that is finished has the status it was finished with.
  pub finish_run-status :
      (id status : String) (now : ℤ) (summary : Run F) (db : Database F)
      → All
          (λ r. r.id ≡ id → r.status ≡ status)
          (or_same db (finish_run id status now summary db)).runs
  unfolding finish_run
  finish_run-status id status now summary db =
      rw (runs-update (has_id id) (finished status now summary) db) (
        All-update (λ r. Unit) (λ r. r.id ≡ id → r.status ≡ status) (has_id id)
          (finished status now summary) (λ r k e i. refl)
          (λ r k e i. absurd (ground (arith, (eq_iff r.id id).1 i))) db.runs
          (All-always (λ r. Unit) (λ r. tt) db.runs))

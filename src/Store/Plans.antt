-- ===== src/Store/Plans.antt =====
-- internal/store/store.go: the queries of the tables `plans` and `samples`.
use go_sentinel.Base.{◌+◌, String, List, [], ◌∷◌, ◌++◌, Bool, ◌&&◌, str_eq, map, any, if◌then◌else◌}
use go_sentinel.Base.Int.{ℤ, pos, ltb_ℤ, eqb_ℤ}
use go_sentinel.Base.Result.{Result, ok, err}
use go_sentinel.Store.{Plan, Sample, SampleRow, Database, StoreError, constraint_failed}
use go_sentinel.Store.Table.{select, select_row, update, delete_rows, affected, order_by}
use go_sentinel.Store.Runs.{unless_none, scanned, has_id}

abbrev pub has_plan_id : ℤ → Plan → Bool
has_plan_id id p = eqb_ℤ p.id id

abbrev pub edited : ℤ → String → String → Plan → Plan
edited now name spec p = record p { name = name; spec = spec; updated_at = now }

module _ {F : Type 0} where
  -- The new id is above all others, so that the INSERT is not refused.
  unfoldable pub create_plan : ℤ → String → String → Database F → Database F × Plan
  create_plan now name spec db =
      let plan : Plan = record {
        id = pos (db.last_plan + 1);
        name = name;
        spec = spec;
        created_at = now;
        updated_at = now;
      } in
      (record db { plans = db.plans ++ (plan ∷ []); last_plan = db.last_plan + 1 }, plan)

  unfoldable pub get_plan : ℤ → Database F → Result StoreError Plan
  get_plan id db = scanned (select_row (has_plan_id id) db.plans)

  unfoldable pub update_plan :
      ℤ → ℤ → String → String → Database F → Database F × Result StoreError Plan
  unfolding get_plan
  update_plan now id name spec db =
      let after = record db { plans = update (has_plan_id id) (edited now name spec) db.plans } in
      (
        after,
        elim (unless_none (affected (has_plan_id id) db.plans) tt) [
          | err e ↦ err e
          | ok u ↦ get_plan id after
        ],
      )

  unfoldable pub list_plans : Database F → List Plan
  list_plans db = order_by (λ p other. ltb_ℤ other.updated_at p.updated_at) db.plans

  unfoldable pub delete_plan : ℤ → Database F → Result StoreError (Database F)
  delete_plan id db =
      unless_none (affected (has_plan_id id) db.plans)
        (record db { plans = delete_rows (has_plan_id id) db.plans })

  -- The key of a sample: its run and its time.
  abbrev pub has_key : String → ℤ → SampleRow F → Bool
  has_key run_id ts s = str_eq s.run_id run_id && eqb_ℤ s.sample.ts_ms ts

  -- A sample of a run that is not in the table is refused by the foreign key; one for a time that
  -- has a sample replaces it.
  unfoldable pub add_sample : String → Sample F → Database F → Result StoreError (Database F)
  add_sample run_id sample db =
      if any (has_id run_id) db.runs
      then ok (record db {
        samples =
            if any (has_key run_id sample.ts_ms) db.samples
            then update (has_key run_id sample.ts_ms) (λ s. record s { sample = sample }) db.samples
            else db.samples ++ (record { run_id = run_id; sample = sample } ∷ []);
      })
      else err constraint_failed

  unfoldable pub list_samples : String → Database F → List (Sample F)
  list_samples run_id db =
      order_by (λ s other. ltb_ℤ s.ts_ms other.ts_ms)
        (map (λ s. s.sample) (select (λ s. str_eq s.run_id run_id) db.samples))

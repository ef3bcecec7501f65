-- ===== src/Store/Runs.antt =====
-- internal/store/store.go: the queries of the table `runs`.
pub mod Spec
pub mod Queued
pub mod Changed
use go_sentinel.Base.{
  ℕ, String, List, [], ◌∷◌, Option, none, some, Bool, ◌&&◌, ◌||◌, str_eq, ltb, ◌==◌, map, any,
  if◌then◌else◌,
}
use go_sentinel.Base.Int.{ℤ, pos, negsuc, pos_part, ltb_ℤ, leb_ℤ}
use go_sentinel.Base.Float.{Float64}
use go_sentinel.Base.Result.{Result, ok, err}
use go_sentinel.Store.{Run, SampleRow, Database, StoreError, not_found, constraint_failed}
use go_sentinel.Store.Table.{
  select, first_row, select_row, update, delete_rows, affected, order_by, limit, offset, insert_row,
}

-- internal/api/server.go: the statuses that the statements name.
abbrev pub queued : String
queued = "QUEUED"

abbrev pub running : String
running = "RUNNING"

abbrev pub failed : String
failed = "FAILED"

abbrev pub same_run : {F : Type 0} → Run F → Run F → Bool
same_run r other = str_eq r.id other.id

abbrev pub has_id : {F : Type 0} → String → Run F → Bool
has_id id r = str_eq r.id id

abbrev pub is_queued : {F : Type 0} → Run F → Bool
is_queued r = str_eq r.status queued

-- An UPDATE or a DELETE by key, which is ErrNotFound where no row is affected.
abbrev pub unless_none : {A : Type 0} → ℕ → A → Result StoreError A
unless_none n after = if n == 0 then err not_found else ok after

-- The scan of one row.
abbrev pub scanned : {A : Type 0} → Option A → Result StoreError A
scanned none = err not_found
scanned (some r) = ok r

module _ (fl : Float64) where
  open fl use {F, of_int}

  -- The row of an INSERT, with the defaults of the columns it leaves out.
  abbrev pub new_row : Run F → Run F
  new_row r = record r {
    finished_at = none;
    dispatched_at = none;
    total_requests = pos 0;
    total_errors = pos 0;
    error_pct = of_int (pos 0);
    peak_rps = of_int (pos 0);
    avg_rps = of_int (pos 0);
    p95_ms = pos 0;
    p99_ms = pos 0;
  }

  unfoldable pub create_run : Run F → Database F → Result StoreError (Database F)
  create_run r db = elim (insert_row same_run (new_row r) db.runs) [
    | none ↦ err constraint_failed
    | some rows ↦ ok (record db { runs = rows })
  ]

abbrev pub page_size : ℤ → ℤ
page_size n = if leb_ℤ n (pos 0) || ltb_ℤ (pos 200) n then pos 50 else n

module _ {F : Type 0} where
  -- The database after a statement whose error is only logged.
  abbrev pub or_same : Database F → Result StoreError (Database F) → Database F
  or_same db (err e) = db
  or_same db (ok after) = after

  abbrev pub finished : String → ℤ → Run F → Run F → Run F
  finished status finished_at sum r = record r {
    status = status;
    finished_at = some finished_at;
    total_requests = sum.total_requests;
    total_errors = sum.total_errors;
    error_pct = sum.error_pct;
    peak_rps = sum.peak_rps;
    avg_rps = sum.avg_rps;
    p95_ms = sum.p95_ms;
    p99_ms = sum.p99_ms;
  }

  abbrev pub update_runs :
      (Run F → Bool) → (Run F → Run F) → Database F → Result StoreError (Database F)
  update_runs p set db =
      unless_none (affected p db.runs) (record db { runs = update p set db.runs })

  unfoldable pub finish_run :
      String → String → ℤ → Run F → Database F → Result StoreError (Database F)
  finish_run id status finished_at sum = update_runs (has_id id) (finished status finished_at sum)

  unfoldable pub get_run : String → Database F → Result StoreError (Run F)
  get_run id db = scanned (select_row (has_id id) db.runs)

  -- DESC
  abbrev pub later_start : Run F → Run F → Bool
  later_start r other = ltb_ℤ other.started_at r.started_at

  abbrev pub without_spec : Run F → Run F
  without_spec r = record r { plan_spec = "" }

  -- SQLite reads a negative OFFSET as 0.
  unfoldable pub list_runs : ℤ → ℤ → Database F → List (Run F)
  list_runs n skip db =
      map without_spec
        (limit (pos_part (page_size n)) (offset (pos_part skip) (order_by later_start db.runs)))

  -- The samples of the run go with it, by the foreign key.
  unfoldable pub delete_run : String → Database F → Result StoreError (Database F)
  delete_run id db = unless_none (affected (has_id id) db.runs) (record db {
    runs = delete_rows (has_id id) db.runs;
    samples = delete_rows (λ s. str_eq s.run_id id) db.samples;
  })

  abbrev pub earlier_start : Run F → Run F → Bool
  earlier_start r other = ltb_ℤ r.started_at other.started_at

  unfoldable pub next_queued : Database F → Result StoreError (Run F)
  next_queued db = scanned (first_row (order_by earlier_start (select is_queued db.runs)))

  abbrev pub dispatched : ℤ → ℤ → Run F → Run F
  dispatched workers at r = record r {
    status = running;
    dispatched_at = some at;
    workers = workers;
  }

  unfoldable pub mark_dispatched : String → ℤ → ℤ → Database F → Result StoreError (Database F)
  mark_dispatched id workers at =
      update_runs (λ r. has_id id r && is_queued r) (dispatched workers at)

  unfoldable pub set_run_status : String → String → Database F → Result StoreError (Database F)
  set_run_status id status = update_runs (has_id id) (λ r. record r { status = status })

  -- A comparison with the NULL of a missing run holds of no row.
  unfoldable pub count_queued_before : String → Database F → ℕ
  count_queued_before id db = elim (select_row (has_id id) db.runs) [
    | none ↦ 0
    | some r ↦ affected (λ q. is_queued q && ltb_ℤ q.started_at r.started_at) db.runs
  ]

  abbrev pub is_running : Run F → Bool
  is_running r = str_eq r.status running

  abbrev pub interrupted : ℤ → Run F → Run F
  interrupted now r = record r { status = failed; finished_at = some now }

  -- The database, and the number of runs that were interrupted.
  unfoldable pub fail_interrupted_runs : ℤ → Database F → Database F × ℕ
  fail_interrupted_runs now db = (
    record db { runs = update is_running (interrupted now) db.runs },
    affected is_running db.runs,
  )

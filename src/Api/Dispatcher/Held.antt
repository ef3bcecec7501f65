-- ===== src/Api/Dispatcher/Held.antt =====
-- The statements of the queue keep every RUNNING run the current one.
use go_sentinel.Base.{
  String, [], ◌∷◌, Option, none, some, Bool, true, false, not, str_eq, eq_iff, if◌then◌else◌, ◌≡◌,
  ◌≢◌, refl, sym, ◌∙◌, arith, All, Bool-cases, inl, inr, ◌==◌, ◌&&◌, any,
}
use go_sentinel.Base.Int.{ℤ}
use go_sentinel.Base.Float.{Float64}
use go_sentinel.Base.Result.{Result, ok, err, ok_inj}
use go_sentinel.Proto
use go_sentinel.Store.{Run, Database, StoreError}
use go_sentinel.Store.Table.{affected}
use go_sentinel.Store.Table.Rows.{All-update, All-delete_rows, All-append}
use go_sentinel.Store.Runs.{
  or_same, get_run, create_run, finish_run, delete_run, mark_dispatched, set_run_status,
  fail_interrupted_runs, next_queued, new_row, queued, failed, update_runs, has_id, is_queued,
  running, dispatched, is_running, interrupted, finished,
}
use go_sentinel.Store.Runs.Changed.{runs-update}
use go_sentinel.Api.Queue.{Queue, release, dispatch_next, after_failure, after_success, claim}
use go_sentinel.Api.Dispatcher.{
  Dispatcher, Outside, CancelError, of_store, not_queued, dispatch, give_up, attempt,
  dispatch_next_run, cancel, cancelled, start, request_for,
}

-- The current run after a call of dispatchNext that finds the queue idle and a run to dispatch.
current_failed :
    (id : String) (q : Queue) → q.current ≡ "" → (dispatch_next (some id) true q).0.current ≡ ""
unfolding dispatch_next after_failure claim release
current_failed id q e = ground (arith, eq_iff q.current "", eq_iff id id)

current_started :
    (id : String) (q : Queue) → q.current ≡ "" → (dispatch_next (some id) false q).0.current ≡ id
unfolding dispatch_next after_success claim
current_started id q e = ground (arith, eq_iff q.current "")

pub current_released : (q : Queue) → (release q.current q).current ≡ ""
unfolding release
current_released q = ground (arith, eq_iff q.current q.current)

some_inj : {A : Type 0} {a b : A} → Path (Option A) (some a) (some b) → a ≡ b
some_inj e = ground arith

module _ (fl : Float64) (out : Outside) where
  open fl use {F}

  -- A run has an id, and is the current one if it is RUNNING.
  abbrev pub IsHeld : String → Run F → Type 0
  IsHeld current r = (r.id ≢ "") × (r.status ≡ running → r.id ≡ current)

  -- The statements of the queue, for a current run.
  pub create-IsHeld :
      (current : String) (r : Run F) (db : Database F)
      → r.status ≡ queued
      → r.id ≢ ""
      → All (IsHeld current) db.runs
      → All (IsHeld current) (or_same db (create_run fl r db)).runs
  unfolding create_run
  create-IsHeld current r db e named h =
      elim (Bool-cases (any (λ other. str_eq r.id other.id) db.runs)) [
        | inl t ↦ rw (create_run, t) h
        | inr t ↦
            rw (create_run, t)
              (All-append (IsHeld current) db.runs (new_row fl r ∷ []) h
                ((named, λ s. absurd (apart (sym e ∙ s))), tt))
      ]
    where
      apart : queued ≡ running → ⊥
      apart d = ground (arith, (eq_iff queued running).1 d)

  pub delete-IsHeld :
      (current id : String) (db : Database F)
      → All (IsHeld current) db.runs
      → All (IsHeld current) (or_same db (delete_run id db)).runs
  unfolding delete_run
  delete-IsHeld current id db h = elim (Bool-cases (affected (has_id id) db.runs == 0)) [
    | inl e ↦ rw (delete_run, e) h
    | inr e ↦ rw (delete_run, e) (All-delete_rows (IsHeld current) (has_id id) db.runs h)
  ]

  -- An update by id to a status that is not RUNNING.
  settle-IsHeld :
      (current id : String) (set : Run F → Run F) (db : Database F)
      → ((r : Run F) → (set r).id ≡ r.id)
      → ((r : Run F) → (set r).status ≢ running)
      → All (IsHeld current) db.runs
      → All (IsHeld current) (or_same db (update_runs (has_id id) set db)).runs
  settle-IsHeld current id set db keeps settled h = rw (runs-update (has_id id) set db) (
      All-update (IsHeld current) (IsHeld current) (has_id id) set
        (λ r k e. (λ n. k.0 (sym (keeps r) ∙ n), λ s. absurd (settled r s))) (λ r k e. k) db.runs h)

  mark-IsHeld :
      (id : String) (workers now : ℤ) (db : Database F)
      → All (IsHeld "") db.runs
      → All (IsHeld id) (or_same db (mark_dispatched id workers now db)).runs
  unfolding mark_dispatched
  mark-IsHeld id workers now db h =
      rw (runs-update (λ r. has_id id r && is_queued r) (dispatched workers now) db) (
        All-update (IsHeld "") (IsHeld id) (λ r. has_id id r && is_queued r)
          (dispatched workers now) (λ r k e. (k.0, λ s. ground (arith, eq_iff r.id id)))
          (λ r k e. (k.0, λ s. absurd (k.0 (k.1 s)))) db.runs h)

  dispatch-IsHeld :
      (now : ℤ) (run : Run F) (db after : Database F)
      → All (IsHeld "") db.runs
      → dispatch out now run db ≡ some after
      → All (IsHeld run.id) after.runs
  unfolding dispatch
  dispatch-IsHeld now run db after h e = sent (request_for out run) e
    where
      marked :
          (o : Option ℤ)
          → elim o [
            | none ↦ none
            | some workers ↦ some (or_same db (mark_dispatched run.id workers now db))
          ]
            ≡ some after
          → All (IsHeld run.id) after.runs
      marked none e = absurd (ground arith)
      marked (some workers) e = rw (sym (some_inj e)) (mark-IsHeld run.id workers now db h)

      sent :
          (o : Option Proto.TestPlan)
          → elim o [
            | none ↦ none
            | some plan ↦ elim (out.distribute plan) [
              | none ↦ none
              | some workers ↦ some (or_same db (mark_dispatched run.id workers now db))
            ]
          ]
            ≡ some after
          → All (IsHeld run.id) after.runs
      sent none e = absurd (ground arith)
      sent (some plan) e = marked (out.distribute plan) e

  give_up-IsHeld :
      (o : Option String) (db : Database F)
      → All (IsHeld "") db.runs
      → All (IsHeld "") (give_up o db).runs
  unfolding give_up set_run_status
  give_up-IsHeld none db h = h
  give_up-IsHeld (some id) db h =
      settle-IsHeld "" id (λ r. record r { status = failed }) db (λ r. refl)
        (λ r e. ground (arith, (eq_iff failed running).1 e)) h

  attempt-IsHeld :
      (run : Run F) (o : Option (Database F)) (d : Dispatcher F)
      → d.queue.current ≡ ""
      → All (IsHeld "") d.db.runs
      → ((after : Database F) → o ≡ some after → All (IsHeld run.id) after.runs)
      → All (IsHeld (attempt run o d).0.queue.current) (attempt run o d).0.db.runs
  unfolding attempt
  attempt-IsHeld run none d e h k = rw (current_failed run.id d.queue e) (give_up-IsHeld _ d.db h)
  attempt-IsHeld run (some after) d e h k = rw (current_started run.id d.queue e) (k after refl)

  pub call-IsHeld :
      (now : ℤ) (d : Dispatcher F)
      → All (IsHeld d.queue.current) d.db.runs
      → All
          (IsHeld (dispatch_next_run out now d).0.queue.current)
          (dispatch_next_run out now d).0.db.runs
  unfolding dispatch_next_run
  call-IsHeld now d h = elim (Bool-cases (str_eq d.queue.current "")) [
    | inr e ↦ rw (dispatch_next_run, e) h
    | inl e ↦ rw (dispatch_next_run, e) (tried ((eq_iff d.queue.current "").0 e) (next_queued d.db))
  ]
    where
      tried :
          d.queue.current ≡ ""
          → (r : Result StoreError (Run F))
          → All
              (IsHeld
                (elim r as (λ x. Dispatcher F × Bool) [
                  | err x ↦ (d, false)
                  | ok run ↦ attempt run (dispatch out now run d.db) d
                ]).0.queue.current)
              (elim r as (λ x. Dispatcher F × Bool) [
                | err x ↦ (d, false)
                | ok run ↦ attempt run (dispatch out now run d.db) d
              ]).0.db.runs
      tried e (err x) = h
      tried e (ok run) =
          attempt-IsHeld run (dispatch out now run d.db) d e (rw (sym e) h)
            (λ after m. dispatch-IsHeld now run d.db after (rw (sym e) h) m)

  pub finish-IsHeld :
      (current status : String) (at : ℤ) (summary : Run F) (db : Database F)
      → status ≢ running
      → All (IsHeld current) db.runs
      → All (IsHeld "") (or_same db (finish_run current status at summary db)).runs
  unfolding finish_run
  finish-IsHeld current status at summary db s h =
      rw (runs-update (has_id current) (finished status at summary) db) (
        All-update (IsHeld current) (IsHeld "") (has_id current) (finished status at summary)
          (λ r k e. (k.0, λ m. absurd (s m))) (λ r k e. (k.0, λ m. absurd (other r (k.1 m) e)))
          db.runs h)
    where
      other : (r : Run F) → r.id ≡ current → has_id current r ≡ false → ⊥
      other r i e = ground (arith, (eq_iff r.id current).1 i)

  pub cancel-IsHeld :
      (current id : String) (db after : Database F)
      → cancel id db ≡ ok after
      → All (IsHeld current) db.runs
      → All (IsHeld current) after.runs
  unfolding cancel set_run_status
  cancel-IsHeld current id db after e h = rw (cancelled_by (get_run id db) e) (
      settle-IsHeld current id (λ r. record r { status = cancelled }) db (λ r. refl)
        (λ r e. ground (arith, (eq_iff cancelled running).1 e)) h)
    where
      changed :
          (c : Result StoreError (Database F))
          → elim c as (λ x. Result CancelError (Database F)) [
            | err e ↦ err (of_store e)
            | ok a ↦ ok a
          ]
            ≡ ok after
          → after ≡ or_same db c
      changed (err e) m = ground arith
      changed (ok a) m = sym (ok_inj m)

      cancelled_by :
          (g : Result StoreError (Run F))
          → elim g as (λ x. Result CancelError (Database F)) [
            | err e ↦ err (of_store e)
            | ok run ↦
                if not (is_queued run)
                then err not_queued
                else elim (set_run_status id cancelled db) [
                  | err e ↦ err (of_store e)
                  | ok a ↦ ok a
                ]
          ]
            ≡ ok after
          → after ≡ or_same db (set_run_status id cancelled db)
      cancelled_by (err e) m = ground arith
      cancelled_by (ok run) m = elim (Bool-cases (is_queued run)) [
        | inl q ↦ changed (set_run_status id cancelled db) (rw (sym m, q) refl)
        | inr q ↦ absurd (ground arith)
      ]

  pub start-IsHeld :
      (now : ℤ) (db : Database F)
      → All (λ r. r.id ≢ "") db.runs
      → All (IsHeld "") (start now db).db.runs
  unfolding start fail_interrupted_runs
  start-IsHeld now db h =
      All-update (λ r. r.id ≢ "") (IsHeld "") is_running (interrupted now)
        (λ r k e. (k, λ s. ground (arith, (eq_iff failed running).1 s)))
        (λ r k e. (k, λ s. ground (arith, (eq_iff r.status running).1 s))) db.runs h

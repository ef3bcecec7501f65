-- ===== src/Api/Dispatcher/Running.antt =====
-- At most one run is RUNNING, and it is the current one.
use go_sentinel.Base.{String, ◌≡◌, ◌≢◌, All}
use go_sentinel.Base.Int.{ℤ}
use go_sentinel.Base.Float.{Float64}
use go_sentinel.Base.Result.{ok}
use go_sentinel.Store.{Run, Sample, Database}
use go_sentinel.Store.Runs.{or_same, create_run, finish_run, delete_run, queued, running}
use go_sentinel.Store.Plans.{add_sample}
use go_sentinel.Store.Runs.Changed.{sample-runs}
use go_sentinel.Api.Queue.{new_queue, release}
use go_sentinel.Api.Dispatcher.{Dispatcher, Outside, dispatch_next_run, cancel, start}
use go_sentinel.Api.Dispatcher.Held.{
  current_released, create-IsHeld, delete-IsHeld, call-IsHeld, cancel-IsHeld, start-IsHeld,
  finish-IsHeld, IsHeld,
}

module _ (fl : Float64) (out : Outside) where
  open fl use {F}

  -- What happens to the queue and the store once the server has started: a run is submitted, the
  -- dispatcher is called, the current run is finished with a status by its recorder and released,
  -- a run is cancelled or deleted, a sample is added.
  pub data Step (d e : Dispatcher F) : Type 0 where
    submit :
        (r : Run F)
        → r.status ≡ queued
        → r.id ≢ ""
        → e ≡ record d { db = or_same d.db (create_run fl r d.db) }
        → Step d e
    call : (now : ℤ) → e ≡ (dispatch_next_run out now d).0 → Step d e
    finish :
        (status : String) (at : ℤ) (summary : Run F)
        → status ≢ running
        → e ≡ record {
          queue = release d.queue.current d.queue;
          db = or_same d.db (finish_run d.queue.current status at summary d.db);
        }
        → Step d e
    stop :
        (id : String) (after : Database F)
        → cancel id d.db ≡ ok after
        → e ≡ record d { db = after }
        → Step d e
    remove : (id : String) → e ≡ record d { db = or_same d.db (delete_run id d.db) } → Step d e
    sample :
        (id : String) (s : Sample F)
        → e ≡ record d { db = or_same d.db (add_sample id s d.db) }
        → Step d e

  pub data Reached : Dispatcher F → Type 0 where
    started : (now : ℤ) (db : Database F) → All (λ r. r.id ≢ "") db.runs → Reached (start now db)
    next : {d e : Dispatcher F} → Reached d → Step d e → Reached e

  Step-IsHeld :
      (d e : Dispatcher F)
      → Step d e
      → All (IsHeld fl out d.queue.current) d.db.runs
      → All (IsHeld fl out e.queue.current) e.db.runs
  unfolding finish_run release
  Step-IsHeld d e (submit r q named x) h =
      rw x (create-IsHeld fl out d.queue.current r d.db q named h)
  Step-IsHeld d e (call now x) h = rw x (call-IsHeld fl out now d h)
  Step-IsHeld d e (finish status at summary s x) h =
      rw (x, current_released d.queue)
        (finish-IsHeld fl out d.queue.current status at summary d.db s h)
  Step-IsHeld d e (stop id after c x) h =
      rw x (cancel-IsHeld fl out d.queue.current id d.db after c h)
  Step-IsHeld d e (remove id x) h = rw x (delete-IsHeld fl out d.queue.current id d.db h)
  Step-IsHeld d e (sample id s x) h = rw (x, sample-runs id s d.db) h

  -- In every state that the queue and the store reach from a start of the server (on a database
  -- whose runs have ids; the plans, the workers, the clock, and the finishing statuses but RUNNING
  -- being arbitrary), every run that the store shows as RUNNING is the current run of the queue.
  pub Reached-IsHeld :
      (d : Dispatcher F)
      → Reached d
      → All (λ r. (r.id ≢ "") × (r.status ≡ "RUNNING" → r.id ≡ d.queue.current)) d.db.runs
  unfolding start new_queue
  Reached-IsHeld d (started now db h) = start-IsHeld fl out now db h
  Reached-IsHeld d (next {d = c} r st) = Step-IsHeld c d st (Reached-IsHeld c r)

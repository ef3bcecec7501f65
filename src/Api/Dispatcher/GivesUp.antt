-- ===== src/Api/Dispatcher/GivesUp.antt =====
-- A run that cannot be dispatched does not block the queue.
use go_sentinel.Base.{
  ℕ, zero, suc, ◌+◌, ◌<◌, String, List, [], ◌∷◌, none, some, true, eq_iff, if◌then◌else◌, ◌≡◌, ◌≢◌,
  refl, ◌∙◌, ap, arith, any, ltb, inl, inr,
}
use go_sentinel.Base.Int.{ℤ}
use go_sentinel.Base.Result.{ok}
use go_sentinel.Store.{Run, Database}
use go_sentinel.Store.Table.{update, select_row}
use go_sentinel.Store.Table.Rows.{select_row-updated, select_row-some, affected-any}
use go_sentinel.Store.Runs.{get_run, next_queued, set_run_status, has_id, failed, scanned}
use go_sentinel.Store.Runs.Queued.{IsRow, next_queued-IsNext}
use go_sentinel.Api.Queue.{Queue, dispatch_next, after_failure, claim, max_dispatch_attempts}
use go_sentinel.Api.Queue.Attempts.{attempts_of, dispatch_next-failed}
use go_sentinel.Api.Dispatcher.{Dispatcher, Outside, dispatch, attempt, give_up, dispatch_next_run}

gave_up_after :
    (id : String) (q : Queue)
    → q.current ≡ ""
    → (dispatch_next (some id) true q).1.gave_up
      ≡ (if ltb (attempts_of id q + 1) max_dispatch_attempts then none else some id)
unfolding dispatch_next after_failure claim
gave_up_after id q e = ground (arith, eq_iff q.current "")

module _ {F : Type 0} (out : Outside) (at : ℕ → ℤ) where
  -- The state after n calls of dispatchNext, the k-th at the time `at k`.
  unfoldable pub after_calls : ℕ → Dispatcher F → Dispatcher F
  after_calls zero d = d
  after_calls (suc n) d = (dispatch_next_run out (at n) (after_calls n d)).0

  call-once :
      (now : ℤ) (d : Dispatcher F) (run : Run F)
      → d.queue.current ≡ ""
      → next_queued d.db ≡ ok run
      → dispatch out now run d.db ≡ none
      → (dispatch_next_run out now d).0 ≡ (attempt run none d).0
  unfolding dispatch_next_run
  call-once now d run idle n e =
      rw (dispatch_next_run, (eq_iff d.queue.current "").1 idle, n, e) refl

  -- The state of the queue and the store in which a run has been tried n times.
  record IsTried (n : ℕ) (d : Dispatcher F) (run : Run F) (e : Dispatcher F) : Type 0 where
    idle : e.queue.current ≡ ""
    same : e.db ≡ d.db
    tried : attempts_of run.id e.queue ≡ n

  try-again :
      (n : ℕ) (now : ℤ) (d e : Dispatcher F) (run : Run F)
      → suc n < max_dispatch_attempts
      → run.id ≢ ""
      → next_queued d.db ≡ ok run
      → dispatch out now run d.db ≡ none
      → IsTried n d run e
      → IsTried (suc n) d run (dispatch_next_run out now e).0
  unfolding attempt give_up
  try-again n now d e run l named next fails t =
      let f = dispatch_next-failed e.queue run.id run.id t.idle named in
      rw (call-once now e run t.idle (rw (t.same, next) refl) (rw (t.same, fails) refl)) (record {
        idle = f.0;
        same = rw (gave_up_after run.id e.queue t.idle) (ground (arith, t.same, t.tried));
        tried = f.2 ∙ ground (arith, t.tried, eq_iff run.id run.id);
      })

  tries :
      (n : ℕ) (d : Dispatcher F) (run : Run F)
      → n < max_dispatch_attempts
      → d.queue.current ≡ ""
      → attempts_of run.id d.queue ≡ 0
      → run.id ≢ ""
      → next_queued d.db ≡ ok run
      → ((now : ℤ) → dispatch out now run d.db ≡ none)
      → IsTried n d run (after_calls n d)
  unfolding after_calls
  tries zero d run l idle zero_tries named next fails = record {
    idle = idle;
    same = refl;
    tried = zero_tries;
  }
  tries (suc n) d run l idle zero_tries named next fails =
      try-again n (at n) d (after_calls n d) run l named next (fails (at n))
        (tries n d run (omega (arith, l)) idle zero_tries named next fails)

  row_found :
      (id : String) (run : Run F) (rows : List (Run F))
      → IsRow run rows
      → run.id ≡ id
      → any (has_id id) rows ≡ true
  row_found id run [] i e = elim i [ ]
  row_found id run (r ∷ rows) (inl d) e = ground (arith, ap (λ x. x.id) d, eq_iff r.id id)
  row_found id run (r ∷ rows) (inr i) e = ground (arith, row_found id run rows i e)

  -- The row of the run after the queue gave up on it.
  failed_row :
      (run : Run F) (db : Database F)
      → any (has_id run.id) db.runs ≡ true
      → (r : Run F) × (get_run run.id (give_up (some run.id) db) ≡ ok r) × (r.status ≡ failed)
  unfolding give_up set_run_status get_run
  failed_row run db h =
      let (x, e, _) = select_row-some (has_id run.id) db.runs h in
      let found : select_row (has_id run.id)
            (update (has_id run.id) (λ r. record r { status = failed }) db.runs)
          ≡ some (record x { status = failed }) =
        select_row-updated (has_id run.id) (λ r. record r { status = failed }) (λ r. refl) db.runs
        ∙ rw e refl in
      rw (affected-any (has_id run.id) db.runs, h)
        (record x { status = failed }, ap scanned found, refl)

  last-try :
      (now : ℤ) (d e : Dispatcher F) (run : Run F)
      → run.id ≢ ""
      → next_queued d.db ≡ ok run
      → dispatch out now run d.db ≡ none
      → IsTried 4 d run e
      → (r : Run F) × (get_run run.id (dispatch_next_run out now e).0.db ≡ ok r)
        × (r.status ≡ failed)
  unfolding attempt
  last-try now d e run named next fails t =
      let queued = rw next at (next_queued-IsNext d.db) in
      rw
        (
          call-once now e run t.idle (rw (t.same, next) refl) (rw (t.same, fails) refl),
          gave_up_after run.id e.queue t.idle,
          t.tried,
          t.same,
        )
        (failed_row run d.db (row_found run.id run d.db.runs queued.0 refl))

  -- An idle queue whose oldest queued run has a non-empty id, was not tried before and cannot be
  -- dispatched at any time (its plan is not accepted, or no workers take it) tries it five times
  -- and then goes on without it: four calls of dispatchNext leave the store as it is, and after the
  -- fifth the run is FAILED and the queue is idle.
  pub after_calls-give_up :
      (d : Dispatcher F) (run : Run F)
      → d.queue.current ≡ ""
      → attempts_of run.id d.queue ≡ 0
      → run.id ≢ ""
      → next_queued d.db ≡ ok run
      → ((now : ℤ) → dispatch out now run d.db ≡ none)
      → ((n : ℕ) → n < 5 → (after_calls n d).db ≡ d.db)
        × ((after_calls 5 d).queue.current ≡ "")
        × ((r : Run F) × (get_run run.id (after_calls 5 d).db ≡ ok r) × (r.status ≡ "FAILED"))
  unfolding after_calls attempt
  after_calls-give_up d run idle zero_tries named next fails =
      let t = tries 4 d run (omega arith) idle zero_tries named next fails in
      let last = after_calls 4 d in
      (
        λ n l. (tries n d run l idle zero_tries named next fails).same,
        rw
            (call-once (at 4) last run t.idle (rw (t.same, next) refl)
              (rw (t.same, fails (at 4)) refl))
            (dispatch_next-failed last.queue run.id run.id t.idle named).0,
        last-try (at 4) d last run named next (fails (at 4)) t,
      )

-- ===== src/Worker/Pool/Tasks.antt =====
-- Where the tasks of a pool are.
use go_sentinel.Base.{
  ℕ, ◌+◌, ◌≤◌, ◌<◌, List, [], ◌∷◌, ◌++◌, Option, none, some, true, false, length, length-append,
  get_elem?, ◌≡◌, refl, sym, ap, ◌∙◌, arith,
}
use go_sentinel.Base.Int.{ℤ, pos, half32}
use go_sentinel.Base.Result.{ok}
use go_sentinel.Worker.Pool.{
  Task, Goroutine, waiting, received, running, stopped, Pool, new_pool, start, set, Move, worker,
  Choice, done, sent, handed, timed_out, accepted, is_waiting, hand, submit_with_timeout, shutdown,
  all_stopped, shutdown_result, get_active_count,
}
use go_sentinel.Worker.Pool.Counts.{
  total, runs, holds, count, completes, count-append, total-set, length-set, total-le, total-spawn,
  length-spawn, total-stopped, runs-le,
}
use go_sentinel.Worker.Pool.Moves.{IsMove, work-IsMove, worker-cases}

-- The pools that NewPool and Start make and that calls and goroutines lead to, in any order, with
-- the tasks that were accepted and those that were completed.
pub data Reached (size : ℕ) (capacity : ℕ) : Pool → List Task → List Task → Type 0 where
  started : Reached size capacity (start (new_pool size capacity)) [] []
  submitted :
      {p q : Pool} {ins outs : List Task} (task : Task) (timeout : ℤ) (choice : Choice)
      → Reached size capacity p ins outs
      → submit_with_timeout task timeout choice p ≡ some (accepted q)
      → Reached size capacity q (task ∷ ins) outs
  moved :
      {p q : Pool} {ins outs : List Task} (i : ℕ) (move : Move)
      → Reached size capacity p ins outs
      → worker i move p ≡ some q
      → Reached size capacity q ins (completes move (get_elem? p.goroutines i) ++ outs)
  shut :
      {p q : Pool} {ins outs : List Task}
      → Reached size capacity p ins outs
      → shutdown p ≡ some q
      → Reached size capacity q ins outs

pub record IsAccounted (size : ℕ) (capacity : ℕ) (p : Pool) (ins : List Task) (outs : List Task)
    : Type 0 where
  pub tasks :
      (t : Task) → count t ins ≡ count t p.queue + total (holds t) p.goroutines + count t outs
  pub active : p.active_count ≡ pos (total runs p.goroutines)
  pub bounded : length p.queue ≤ capacity
  pub staffed : length p.goroutines ≡ size
  pub same : p.capacity ≡ capacity

waiting-at : (o : Option Goroutine) → is_waiting o ≡ true → o ≡ some waiting
waiting-at none e = absurd (ground arith)
waiting-at (some waiting) e = refl
waiting-at (some (received t)) e = absurd (ground arith)
waiting-at (some (running t)) e = absurd (ground arith)
waiting-at (some stopped) e = absurd (ground arith)

module _ {size capacity : ℕ} where
  started-IsAccounted : IsAccounted size capacity (start (new_pool size capacity)) [] []
  unfolding start new_pool count
  started-IsAccounted = record {
    tasks = λ t. omega (arith, total-spawn (holds t) size refl);
    active = ap pos (sym (total-spawn runs size refl));
    bounded = omega arith;
    staffed = length-spawn size;
    same = refl;
  }

  hand-IsAccounted :
      {p q : Pool} {ins outs : List Task} (task : Task) (i : ℕ) (queued : List Task)
      → hand task i p queued ≡ some (accepted q)
      → IsAccounted size capacity p ins outs
      → IsAccounted size capacity q (task ∷ ins) outs
  unfolding hand count
  hand-IsAccounted task i (queued ∷ rest) e a = absurd (ground arith)
  hand-IsAccounted {p} {q} task i [] e a =
      let at : get_elem? p.goroutines i ≡ some waiting =
        waiting-at (get_elem? p.goroutines i) (ground arith) in
      let made : q ≡ record p { goroutines = set p.goroutines i (received task) } = ground arith in
      rw made (record {
        tasks = λ t.
            omega (arith, a.tasks t, total-set (holds t) p.goroutines i waiting (received task) at);
        active = ground (arith, a.active, total-set runs p.goroutines i waiting (received task) at);
        bounded = a.bounded;
        staffed = omega (arith, length-set p.goroutines i (received task), a.staffed);
        same = a.same;
      })

  submit-IsAccounted :
      {p q : Pool} {ins outs : List Task} (task : Task) (timeout : ℤ) (choice : Choice)
      → submit_with_timeout task timeout choice p ≡ some (accepted q)
      → IsAccounted size capacity p ins outs
      → IsAccounted size capacity q (task ∷ ins) outs
  unfolding submit_with_timeout count
  submit-IsAccounted task timeout done e a = absurd (ground arith)
  submit-IsAccounted {p} task timeout sent e a = record {
    tasks = λ t. ground (arith, a.tasks t, count-append t p.queue (task ∷ []));
    active = ground arith;
    bounded = ground (arith, length-append p.queue (task ∷ []));
    staffed = ground arith;
    same = ground arith;
  }
  submit-IsAccounted {p} task timeout (handed i) e a =
      hand-IsAccounted task i p.queue (ground arith) a
  submit-IsAccounted task timeout (timed_out waited) e a = absurd (ground arith)

  placed-IsAccounted :
      {p p' : Pool} {ins outs : List Task} (i : ℕ) (move : Move) (g h : Goroutine)
      → size < half32
      → get_elem? p.goroutines i ≡ some g
      → IsMove move g h p p'
      → IsAccounted size capacity p ins outs
      → IsAccounted size capacity
          (record p' { goroutines = set p.goroutines i h })
          ins
          (completes move (some g) ++ outs)
  placed-IsAccounted {p} {p'} {ins} {outs} i move g h small at m a =
      let gs = set p.goroutines i h in
      let runs_now = total-set runs p.goroutines i g h at in
      let placed = length-set p.goroutines i h in
      let within : total runs gs < half32 = omega (arith, total-le gs, placed, a.staffed) in
      let (n, counted, moved_to) =
        m.active (total runs p.goroutines) a.active
          (omega (arith, total-le p.goroutines, a.staffed)) (runs-le p.goroutines i g at)
          (omega (arith, runs_now, within)) in
      record {
        tasks = λ t. omega (
          arith,
          a.tasks t,
          m.tasks t,
          total-set (holds t) p.goroutines i g h at,
          count-append t (completes move (some g)) outs,
        );
        active = counted ∙ ap pos (omega (arith, moved_to, runs_now));
        bounded = omega (arith, m.shorter, a.bounded);
        staffed = omega (arith, placed, a.staffed);
        same = ground arith;
      }

  move-IsAccounted :
      {p q : Pool} {ins outs : List Task} (i : ℕ) (move : Move)
      → size < half32
      → worker i move p ≡ some q
      → IsAccounted size capacity p ins outs
      → IsAccounted size capacity q ins (completes move (get_elem? p.goroutines i) ++ outs)
  move-IsAccounted {p} {q} {ins} {outs} i move small e a =
      let (g, h, p', at, w, made) = worker-cases i move p q e in
      rw (made, at) (placed-IsAccounted i move g h small at (work-IsMove move g h p p' w) a)

  shut-IsAccounted :
      {p q : Pool} {ins outs : List Task}
      → shutdown p ≡ some q
      → IsAccounted size capacity p ins outs
      → IsAccounted size capacity q ins outs
  unfolding shutdown
  shut-IsAccounted e a = record {
    tasks = λ t. ground (arith, a.tasks t);
    active = ground arith;
    bounded = ground arith;
    staffed = ground arith;
    same = ground arith;
  }

-- Whatever the order of submissions, of the goroutines' moves and of a shutdown, for a pool of
-- fewer than 2^31 goroutines: every task that was accepted is, as often as it was accepted, in the
-- channel, with a goroutine or completed; the count of active tasks is the number of goroutines
-- that run one; the channel never holds more tasks than its capacity, and no goroutine is added.
pub Reached-IsAccounted :
    {size capacity : ℕ} {p : Pool} {ins outs : List Task}
    → size < half32
    → Reached size capacity p ins outs
    → IsAccounted size capacity p ins outs
Reached-IsAccounted small started = started-IsAccounted
Reached-IsAccounted small (submitted task timeout choice r e) =
    submit-IsAccounted task timeout choice e (Reached-IsAccounted small r)
Reached-IsAccounted small (moved i move r e) =
    move-IsAccounted i move small e (Reached-IsAccounted small r)
Reached-IsAccounted small (shut r e) = shut-IsAccounted e (Reached-IsAccounted small r)

-- Where the goroutines of such a pool have all returned, so that Shutdown returns no error, nothing
-- is counted as active, and the accepted tasks are those that completed and those that are still
-- in the channel, which nothing runs any more.
pub shutdown-graceful :
    {size capacity : ℕ} {p : Pool} {ins outs : List Task}
    → size < half32
    → Reached size capacity p ins outs
    → shutdown_result false p ≡ some (ok tt)
    → (get_active_count p ≡ pos 0) × ((t : Task) → count t ins ≡ count t p.queue + count t outs)
unfolding shutdown_result get_active_count
shutdown-graceful {p} small r e =
    let a = Reached-IsAccounted small r in
    let quiet : all_stopped p.goroutines ≡ true = ground arith in
    (
      a.active ∙ ap pos (total-stopped runs p.goroutines refl quiet),
      λ t. omega (arith, a.tasks t, total-stopped (holds t) p.goroutines refl quiet),
    )

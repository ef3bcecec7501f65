-- ===== src/Worker/Pool.antt =====
-- internal/worker/goroutine_pool.go: the pool of goroutines. A goroutine is where it stands in its
-- loop; what a `select` chose is an argument, and a choice that is not ready has no result.
mod Counts
mod Moves
pub mod Tasks
use go_sentinel.Base.{
  ℕ, zero, suc, List, [], ◌∷◌, ◌++◌, Option, none, some, Bool, true, false, ltb, length, get_elem?,
  if◌then◌else◌,
}
use go_sentinel.Base.Int.{ℤ, pos, ◌+ℤ◌, ◌-ℤ◌, leb_ℤ, wrap32}
use go_sentinel.Base.Result.{Result, ok, err}

-- A task is known by a number.
abbrev pub Task : Type 0
Task = ℕ

-- A goroutine at its `select`, with a task that is not counted yet, with one that is, or returned.
pub data Goroutine : Type 0 where
  waiting : Goroutine
  received : Task → Goroutine
  running : Task → Goroutine
  stopped : Goroutine

pub record Pool : Type 0 where
  pub size : ℕ
  -- of the channel
  pub capacity : ℕ
  pub queue : List Task
  pub closed : Bool
  -- the context
  pub cancelled : Bool
  pub active_count : ℤ
  pub goroutines : List Goroutine

pub data PoolError : Type 0 where
  pool_full shutdown_timeout context_cancelled : PoolError

unfoldable pub new_pool : ℕ → ℕ → Pool
new_pool size queue_size = record {
  size = size;
  capacity = queue_size;
  queue = [];
  closed = false;
  cancelled = false;
  active_count = pos 0;
  goroutines = [];
}

abbrev pub spawn : ℕ → List Goroutine
spawn zero = []
spawn (suc n) = waiting ∷ spawn n

unfoldable pub start : Pool → Pool
start p = record p { goroutines = p.goroutines ++ spawn p.size }

abbrev pub set : List Goroutine → ℕ → Goroutine → List Goroutine
set [] i g = []
set (x ∷ xs) zero g = g ∷ xs
set (x ∷ xs) (suc i) g = x ∷ set xs i g

-- What the loop of a goroutine does next: it sees the cancelled context, it receives from the
-- channel, it counts the task that it received, or the task returns and is no longer counted.
pub data Move : Type 0 where
  see_done receive begin finish : Move

-- A receive from an empty channel is ready where the channel is closed.
unfoldable pub work : Move → Goroutine → Pool → Option (Goroutine × Pool)
work see_done waiting p = if p.cancelled then some (stopped, p) else none
work receive waiting p = elim p.queue [
  | [] ↦ if p.closed then some (stopped, p) else none
  | task ∷ rest ↦ some (received task, record p { queue = rest })
]
work begin (received task) p =
    some (running task, record p { active_count = wrap32 (p.active_count +ℤ pos 1) })
work finish (running task) p =
    some (waiting, record p { active_count = wrap32 (p.active_count -ℤ pos 1) })
work move goroutine p = none

-- A move of the goroutine at an index.
unfoldable pub worker : ℕ → Move → Pool → Option Pool
unfolding work
worker i move p = elim (get_elem? p.goroutines i) [
  | none ↦ none
  | some g ↦ elim (work move g p) [
    | none ↦ none
    | some (g', p') ↦ some (record p' { goroutines = set p.goroutines i g' })
  ]
]

-- What the `select` of Submit chose: the context, a send into the buffer, a send to a goroutine
-- that waits at the empty channel, or the timer after the time that has passed.
pub data Choice : Type 0 where
  done sent : Choice
  handed : ℕ → Choice
  timed_out : ℤ → Choice

pub data Submission : Type 0 where
  accepted : Pool → Submission
  refused : PoolError → Submission
  -- a send on the closed channel
  panics : Submission

abbrev pub is_waiting : Option Goroutine → Bool
is_waiting none = false
is_waiting (some waiting) = true
is_waiting (some (received task)) = false
is_waiting (some (running task)) = false
is_waiting (some stopped) = false

unfoldable pub hand : Task → ℕ → Pool → List Task → Option Submission
hand task i p (queued ∷ rest) = none
hand task i p [] =
    if is_waiting (get_elem? p.goroutines i)
    then some (accepted (record p { goroutines = set p.goroutines i (received task) }))
    else none

unfoldable pub submit_with_timeout : Task → ℤ → Choice → Pool → Option Submission
unfolding hand
submit_with_timeout task timeout done p =
    if p.cancelled then some (refused context_cancelled) else none
submit_with_timeout task timeout sent p =
    if p.closed
    then some panics
    else if ltb (length p.queue) p.capacity
    then some (accepted (record p { queue = p.queue ++ (task ∷ []) }))
    else none
submit_with_timeout task timeout (handed i) p = if p.closed then none else hand task i p p.queue
submit_with_timeout task timeout (timed_out waited) p =
    if leb_ℤ timeout waited then some (refused pool_full) else none

-- five seconds
unfoldable pub submit : Task → Choice → Pool → Option Submission
unfolding submit_with_timeout
submit task choice p = submit_with_timeout task (pos 5000000000) choice p

-- The first half of Shutdown; none is the panic of a channel that is closed already.
unfoldable pub shutdown : Pool → Option Pool
shutdown p = if p.closed then none else some (record p { cancelled = true; closed = true })

abbrev pub all_stopped : List Goroutine → Bool
all_stopped [] = true
all_stopped (waiting ∷ gs) = false
all_stopped (received task ∷ gs) = false
all_stopped (running task ∷ gs) = false
all_stopped (stopped ∷ gs) = all_stopped gs

-- What Shutdown returns, as the timer has fired or not; none while it waits.
unfoldable pub shutdown_result : Bool → Pool → Option (Result PoolError (Unit {0}))
shutdown_result true p = some (err shutdown_timeout)
shutdown_result false p = if all_stopped p.goroutines then some (ok tt) else none

unfoldable pub get_active_count : Pool → ℤ
get_active_count p = p.active_count

unfoldable pub get_queue_size : Pool → ℕ
get_queue_size p = length p.queue

-- ===== src/Worker/Pool/Counts.antt =====
-- Sums over the goroutines of a pool, and what they hold and run.
use go_sentinel.Base.{
  ℕ, zero, suc, ◌+◌, ◌≤◌, List, [], ◌∷◌, ◌++◌, Option, some, true, length, get_elem?, if◌then◌else◌,
  ◌≡◌, refl, arith, ◌==◌,
}
use go_sentinel.Worker.Pool.{
  Task, Goroutine, waiting, received, running, stopped, spawn, set, Move, finish, all_stopped,
}

-- A sum over the goroutines.
unfoldable pub total : (Goroutine → ℕ) → List Goroutine → ℕ
total w [] = 0
total w (g ∷ gs) = w g + total w gs

abbrev pub runs : Goroutine → ℕ
runs waiting = 0
runs (received task) = 0
runs (running task) = 1
runs stopped = 0

abbrev pub one : Task → Task → ℕ
one t task = if t == task then 1 else 0

-- How often a goroutine has the task.
abbrev pub holds : Task → Goroutine → ℕ
holds t waiting = 0
holds t (received task) = one t task
holds t (running task) = one t task
holds t stopped = 0

unfoldable pub count : Task → List Task → ℕ
count t [] = 0
count t (task ∷ tasks) = one t task + count t tasks

-- The task that a move of a goroutine completes.
abbrev pub completes : Move → Option Goroutine → List Task
completes finish (some (running task)) = task ∷ []
completes move g = []

pub count-append : (t : Task) (xs ys : List Task) → count t (xs ++ ys) ≡ count t xs + count t ys
unfolding count
count-append t [] ys = omega arith
count-append t (x ∷ xs) ys = omega (arith, count-append t xs ys)

pub total-set :
    (w : Goroutine → ℕ) (gs : List Goroutine) (i : ℕ) (g h : Goroutine)
    → get_elem? gs i ≡ some g
    → total w (set gs i h) + w g ≡ total w gs + w h
unfolding total
total-set w [] i g h e = absurd (ground arith)
total-set w (x ∷ gs) zero g h e = ground arith
total-set w (x ∷ gs) (suc i) g h e = ground (arith, total-set w gs i g h)

pub length-set : (gs : List Goroutine) (i : ℕ) (h : Goroutine) → length (set gs i h) ≡ length gs
length-set [] i h = refl
length-set (x ∷ gs) zero h = refl
length-set (x ∷ gs) (suc i) h = omega (arith, length-set gs i h)

pub total-le : (gs : List Goroutine) → total runs gs ≤ length gs
unfolding total
total-le [] = omega arith
total-le (waiting ∷ gs) = omega (arith, total-le gs)
total-le (received t ∷ gs) = omega (arith, total-le gs)
total-le (running t ∷ gs) = omega (arith, total-le gs)
total-le (stopped ∷ gs) = omega (arith, total-le gs)

pub total-spawn : (w : Goroutine → ℕ) (n : ℕ) → w waiting ≡ 0 → total w (spawn n) ≡ 0
unfolding total
total-spawn w zero e = refl
total-spawn w (suc n) e = omega (arith, e, total-spawn w n e)

pub length-spawn : (n : ℕ) → length (spawn n) ≡ n
length-spawn zero = refl
length-spawn (suc n) = omega (arith, length-spawn n)

pub total-stopped :
    (w : Goroutine → ℕ) (gs : List Goroutine)
    → w stopped ≡ 0
    → all_stopped gs ≡ true
    → total w gs ≡ 0
unfolding total
total-stopped w [] z e = refl
total-stopped w (waiting ∷ gs) z e = absurd (ground arith)
total-stopped w (received t ∷ gs) z e = absurd (ground arith)
total-stopped w (running t ∷ gs) z e = absurd (ground arith)
total-stopped w (stopped ∷ gs) z e = omega (arith, z, total-stopped w gs z e)

pub runs-le :
    (gs : List Goroutine) (i : ℕ) (g : Goroutine) → get_elem? gs i ≡ some g → runs g ≤ total runs gs
unfolding total
runs-le [] i g e = absurd (ground arith)
runs-le (x ∷ gs) zero g e = ground arith
runs-le (x ∷ gs) (suc i) g e = omega (arith, runs-le gs i g e)

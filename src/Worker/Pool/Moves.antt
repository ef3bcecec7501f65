-- ===== src/Worker/Pool/Moves.antt =====
-- What a move of one goroutine changes.
use go_sentinel.Base.{
  ℕ, ◌+◌, ◌-◌, ◌≤◌, ◌<◌, Option, none, some, length, get_elem?, ◌≡◌, arith, inl, inr, Option-cases,
}
use go_sentinel.Base.Int.{pos, ◌+ℤ◌, ◌-ℤ◌, wrap32, half32, wrap32_id, +ℤ_pos, -ℤ_parts, eq_of_parts}
use go_sentinel.Worker.Pool.{
  Task, Goroutine, waiting, received, running, Pool, set, Move, see_done, receive, begin, finish,
  work, worker,
}
use go_sentinel.Worker.Pool.Counts.{runs, holds, count, completes}

counted_up : (n : ℕ) → n + 1 < half32 → wrap32 (pos n +ℤ pos 1) ≡ pos (n + 1)
counted_up n h = rw (+ℤ_pos n 1) (wrap32_id (pos (n + 1)) (h, omega arith))

counted_down : (n : ℕ) → 1 ≤ n → n < half32 → wrap32 (pos n -ℤ pos 1) ≡ pos (n - 1)
counted_down n l h =
    rw (eq_of_parts (pos n -ℤ pos 1) (pos (n - 1)) (omega (arith, -ℤ_parts (pos n) (pos 1))))
      (wrap32_id (pos (n - 1)) (omega (arith, h), omega arith))

-- What a move of one goroutine changes.
pub record IsMove (move : Move) (g : Goroutine) (h : Goroutine) (p : Pool) (q : Pool) : Type 0 where
  pub tasks :
      (t : Task)
      → count t q.queue + holds t h + count t (completes move (some g))
        ≡ count t p.queue + holds t g
  pub active :
      (n : ℕ)
      → p.active_count ≡ pos n
      → n < half32
      → runs g ≤ n
      → n + runs h < half32 + runs g
      → (m : ℕ) × (q.active_count ≡ pos m) × (m + runs g ≡ n + runs h)
  pub shorter : length q.queue ≤ length p.queue
  pub same : q.capacity ≡ p.capacity

module _ {h : Goroutine} {p q : Pool} where
  see_done-IsMove : work see_done waiting p ≡ some (h, q) → IsMove see_done waiting h p q
  unfolding work count
  see_done-IsMove e = record {
    tasks = λ t. ground arith;
    active = λ n a l r s. (n, ground arith, ground arith);
    shorter = ground arith;
    same = ground arith;
  }

  receive-IsMove : work receive waiting p ≡ some (h, q) → IsMove receive waiting h p q
  unfolding work count
  receive-IsMove e = record {
    tasks = λ t. ground arith;
    active = λ n a l r s. (n, ground arith, ground arith);
    shorter = ground arith;
    same = ground arith;
  }

  begin-IsMove :
      (task : Task)
      → work begin (received task) p ≡ some (h, q)
      → IsMove begin (received task) h p q
  unfolding work count
  begin-IsMove task e = record {
    tasks = λ t. ground arith;
    active = λ n a l r s. (n + 1, ground (arith, counted_up n), ground arith);
    shorter = ground arith;
    same = ground arith;
  }

  finish-IsMove :
      (task : Task)
      → work finish (running task) p ≡ some (h, q)
      → IsMove finish (running task) h p q
  unfolding work count
  finish-IsMove task e = record {
    tasks = λ t. ground arith;
    active = λ n a l r s. (n - 1, ground (arith, counted_down n), ground arith);
    shorter = ground arith;
    same = ground arith;
  }

no_work :
    {move : Move} {g h : Goroutine} {p q : Pool}
    → Path (Option (Goroutine × Pool)) none (some (h, q))
    → IsMove move g h p q
no_work e = absurd (ground arith)

pub work-IsMove :
    (move : Move) (g h : Goroutine) (p q : Pool) → work move g p ≡ some (h, q) → IsMove move g h p q
unfolding work
work-IsMove see_done waiting h p q e = see_done-IsMove e
work-IsMove receive waiting h p q e = receive-IsMove e
work-IsMove begin (received task) h p q e = begin-IsMove task e
work-IsMove finish (running task) h p q e = finish-IsMove task e
work-IsMove move g h p q e = no_work e

pub worker-cases :
    (i : ℕ) (move : Move) (p q : Pool)
    → worker i move p ≡ some q
    → (g : Goroutine) × (h : Goroutine) × (p' : Pool) × (get_elem? p.goroutines i ≡ some g)
      × (work move g p ≡ some (h, p'))
      × (q ≡ record p' { goroutines = set p.goroutines i h })
unfolding worker
worker-cases i move p q e = elim (Option-cases (get_elem? p.goroutines i)) [
  | inl missing ↦ absurd (ground arith)
  | inr (g, at) ↦ elim (Option-cases (work move g p)) [
    | inl idle ↦ absurd (ground arith)
    | inr ((h, p'), w) ↦ (g, h, p', at, w, ground arith)
  ]
]

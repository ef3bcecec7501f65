-- ===== src/Tests/Pooling.antt =====
-- The pool of goroutines on concrete data.
use go_sentinel.Base.{List, [], ◌∷◌, Bool, refl, arith}
use go_sentinel.Base.Int.{pos}
use go_sentinel.Worker.Pool.{
  Pool, running, new_pool, start, receive, begin, worker, sent, submit_with_timeout,
}
use go_sentinel.Worker.Pool.Tasks.{
  Reached, submitted, moved, started, IsAccounted, Reached-IsAccounted,
}

-- One goroutine runs the first of two tasks, and the second is in the channel.
abbrev busy : Pool
busy = record {
  size = 1;
  capacity = 2;
  queue = 8 ∷ [];
  closed = Bool.false;
  cancelled = Bool.false;
  active_count = pos 1;
  goroutines = running 7 ∷ [];
}

busy-Reached : Reached 1 2 busy (8 ∷ 7 ∷ []) []
unfolding submit_with_timeout worker start new_pool go_sentinel.Base.Int.wrap32
    go_sentinel.Base.Int.◌+ℤ◌
busy-Reached =
    submitted 8 (pos 1) sent
      (moved 0 begin (moved 0 receive (submitted 7 (pos 1) sent started refl) refl) refl) refl

Reached-IsAccounted_example : IsAccounted 1 2 busy (8 ∷ 7 ∷ []) []
Reached-IsAccounted_example = Reached-IsAccounted (omega arith) busy-Reached

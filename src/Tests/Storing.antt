-- ===== src/Tests/Storing.antt =====
-- The store at concrete rows.
use go_sentinel.Base.{ℕ, refl}
use go_sentinel.Base.Int.{pos}
use go_sentinel.Store.{empty_database}
use go_sentinel.Store.Table.{select_row}
use go_sentinel.Store.Runs.{get_run, next_queued}
use go_sentinel.Store.Runs.Spec.{create, no_runs, call, promised, IsRefined, Agree, call-Agree}
use go_sentinel.Store.Runs.Queued.{IsNext, next_queued-IsNext}
use go_sentinel.Store.Users.{delete_user}
use go_sentinel.Store.Users.Sessions.{IsSignedOut, delete_user-IsSignedOut}
use go_sentinel.Tests.{rational, queued_run, waiting, accounts}

nothing-IsRefined : IsRefined {F = ℕ × ℕ} empty_database no_runs
unfolding get_run select_row
nothing-IsRefined = record { unique = tt; agrees = λ id. refl }

call-Agree_example :
    Agree
      (call rational (create (queued_run "r1" 5)) empty_database)
      (promised rational (create (queued_run "r1" 5)) no_runs)
call-Agree_example =
    call-Agree rational (create (queued_run "r1" 5)) empty_database no_runs nothing-IsRefined

next_queued-IsNext_example : IsNext waiting.runs (next_queued waiting)
next_queued-IsNext_example = next_queued-IsNext waiting

delete_user-IsSignedOut_example : IsSignedOut (pos 1) accounts (delete_user (pos 1) accounts)
delete_user-IsSignedOut_example = delete_user-IsSignedOut (pos 1) accounts

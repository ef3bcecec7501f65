-- ===== src/Tests/Guarding.antt =====
-- The routes and the stream of a run on concrete data.
use go_sentinel.Base.{ℕ, List, [], ◌∷◌, ◌++◌, none, some, true, false, str_eq, map, ◌≡◌, ◌⊎◌, refl}
use go_sentinel.Base.Dict.{lookup}
use go_sentinel.Base.Int.{pos}
use go_sentinel.Base.Result.{ok}
use go_sentinel.Store.{Run, User}
use go_sentinel.Store.Table.{select, select_row}
use go_sentinel.Store.Runs.{get_run}
use go_sentinel.Store.Users.{user_for_session, join_user}
use go_sentinel.Orchestrator.Server.{unix_milli}
use go_sentinel.Api.Auth.{AuthConfig, Crypto, require_auth}
use go_sentinel.Api.Routes.{list_runs, serve}
use go_sentinel.Api.Routes.Guarded.{is_public, IsUser, serve-IsUser}
use go_sentinel.Api.Session.{Session, Event, status_event, end_event}
use go_sentinel.Api.Stream.{Sessions, session, Look, event, position, forwarded, handle_stream_run}
use go_sentinel.Api.Stream.Ends.{IsEndLast, finished, got_last, handle_stream_run-IsWaiting}
use go_sentinel.Tests.{queued_run, waiting, accounts}

-- Tokens are stored as they are, and passwords are compared as texts.
abbrev open_book : Crypto
open_book = record { hash_token = λ token. token; verify_password = str_eq }

abbrev guarded : AuthConfig
guarded = record { enabled = true; session_ttl = pos 60000000000; secure_cookies = false }

abbrev ann : User
ann = record { id = pos 1; username = "Ann"; password_hash = "secret77"; created_at = pos 0 }

ann_served :
    serve open_book guarded "GET /api/runs" (some "t1") (pos 7) accounts ≡ ok (list_runs, some ann)
unfolding serve require_auth user_for_session join_user lookup unix_milli select
ann_served = refl

serve-IsUser_example :
    ((is_public list_runs ≡ true) × (some ann ≡ none))
    ⊎ ((is_public list_runs ≡ false)
        × ((u : User) × (some ann ≡ some u)
            × IsUser open_book guarded (some "t1") (pos 7) accounts u))
serve-IsUser_example =
    serve-IsUser open_book guarded "GET /api/runs" (some "t1") (pos 7) accounts list_runs (some ann)
      refl ann_served

abbrev no_sessions : Sessions (ℕ × ℕ)
no_sessions = []

-- The run waits behind another, and is then started and recorded.
abbrev waits : Look (ℕ × ℕ)
waits = record { db = waiting; sessions = no_sessions; queue = waiting }

abbrev running_run : Run (ℕ × ℕ)
running_run = record (queued_run "r2" 9) { status = "RUNNING" }

abbrev recorded : Session (ℕ × ℕ)
recorded = record {
  test_id = "r2";
  channels = [];
  closed = false;
  last = none;
  peak_rps = (0, 1);
  status = "RUNNING";
}

abbrev started_now : Look (ℕ × ℕ)
started_now = record {
  db = record waiting { runs = running_run ∷ [] };
  sessions = ("r2", recorded) ∷ [];
  queue = waiting;
}

none_live : session "r2" no_sessions ≡ none
unfolding session lookup
none_live = refl

still_queued : get_run "r2" waiting ≡ ok (queued_run "r2" 9)
unfolding get_run select_row
still_queued = refl

now_running : get_run "r2" started_now.db ≡ ok running_run
unfolding get_run select_row
now_running = refl

abbrev calm : List (Event (ℕ × ℕ))
calm =
    status_event
      (record { test_id = "r2"; status = "RUNNING"; active_workers = pos 1; total_vus = pos 4 })
    ∷ []

handle_stream_run-IsWaiting_example :
    (handle_stream_run "r2" no_sessions
        ((waits ∷ []) ++ (started_now ∷ []))
        (map event calm ++ got_last (finished "COMPLETED" []))
      ≡ position 1 ∷ (map forwarded calm ++ (forwarded (end_event "COMPLETED") ∷ [])))
    × IsEndLast (
        handle_stream_run "r2" no_sessions
          ((waits ∷ []) ++ (started_now ∷ []))
          (map event calm ++ got_last (finished "COMPLETED" [])))
unfolding session lookup get_run select_row
handle_stream_run-IsWaiting_example =
    handle_stream_run-IsWaiting "r2" no_sessions (waits ∷ []) [] started_now calm
      (finished "COMPLETED" []) running_run none_live ((queued_run "r2" 9, still_queued, refl), tt)
      now_running refl (tt, tt)

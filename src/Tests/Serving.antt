-- ===== src/Tests/Serving.antt =====
-- The queue, the recorder and the handlers on concrete data.
use go_sentinel.Base.{
  ℕ, ◌<◌, String, List, [], ◌∷◌, Option, none, some, Bool, true, false, any, All, str_eq, ◌≡◌, ◌≢◌,
  refl, arith,
}
use go_sentinel.Base.Int.{ℤ, pos}
use go_sentinel.Base.Result.{ok}
use go_sentinel.Base.Text.{to_lower, trim_space}
use go_sentinel.Store.{Run, User, Database, empty_database}
use go_sentinel.Store.Table.{select, select_row, order_by, place}
use go_sentinel.Store.Runs.{get_run, next_queued}
use go_sentinel.Store.Users.{get_user_by_name, create_session}
use go_sentinel.Api.Allowlist.{Net, new_allowlist}
use go_sentinel.Api.Queue.{new_queue}
use go_sentinel.Api.Queue.Attempts.{attempts_of}
use go_sentinel.Api.Dispatcher.{
  Dispatcher, Outside, dispatch, request_for, start, dispatch_next_run,
}
use go_sentinel.Api.Dispatcher.Running.{Step, Reached, Reached-IsHeld}
use go_sentinel.Api.Dispatcher.GivesUp.{after_calls, after_calls-give_up}
use go_sentinel.Api.Session.{Session, new_session, subscribe}
use go_sentinel.Api.Recorder.{Recording, Tick, polled, stream_ended, run}
use go_sentinel.Api.Session.Channels
use go_sentinel.Api.Session.Channels.{IsStream, Reached-IsKept}
use go_sentinel.Api.Recorder.Loop.{ends_run, IsActive, IsRecorded, run-IsRecorded}
use go_sentinel.Api.Reply.{reply}
use go_sentinel.Api.Auth.{AuthConfig, Crypto, LoginRequest, handle_login, open_session}
use go_sentinel.Api.Auth.Sessions.{IsLogin, handle_login-require_auth}
use go_sentinel.Api.Runs.{handle_start_run}
use go_sentinel.Api.Runs.Submitted.{IsSubmission, handle_start_run-IsSubmission}
use go_sentinel.Tests.{rational, queued_run, waiting, accounts, apart}
use go_sentinel.Tests.Plans.{unary, yaml_plan}

-- A stored plan is always `yaml_plan`, and workers take it.
abbrev willing : Outside
willing = record {
  durations = unary;
  environ = [];
  unmarshal = λ text. some yaml_plan;
  distribute = λ plan. some (pos 2);
}

abbrev crashed : Database (ℕ × ℕ)
crashed = record empty_database {
  runs = record (queued_run "r1" 5) { status = "RUNNING" } ∷ queued_run "r2" 9 ∷ [];
}

abbrev restarted : Dispatcher (ℕ × ℕ)
restarted = (dispatch_next_run willing (pos 20) (start (pos 10) crashed)).0

Reached-IsHeld_example :
    All
      (λ r. (r.id ≢ "") × (r.status ≡ "RUNNING" → r.id ≡ restarted.queue.current))
      restarted.db.runs
Reached-IsHeld_example = Reached-IsHeld rational willing restarted (
    Reached.next (Reached.started (pos 10) crashed (apart "r1" "" refl, (apart "r2" "" refl, tt)))
      (Step.call (pos 20) refl))

-- No worker takes a plan.
abbrev refusing : Outside
refusing = record willing { distribute = λ plan. none }

abbrev idle : Dispatcher (ℕ × ℕ)
idle = record { queue = new_queue; db = waiting }

untried : attempts_of "r1" idle.queue ≡ 0
unfolding go_sentinel.Base.Dict.get_or new_queue
untried = refl

oldest : next_queued waiting ≡ ok (queued_run "r1" 5)
unfolding next_queued select order_by place
oldest = refl

undispatched : (now : ℤ) → dispatch refusing now (queued_run "r1" 5) waiting ≡ none
unfolding dispatch
undispatched now = unsent (request_for refusing (queued_run "r1" 5))
  where
    unsent :
        (o : Option _)
        → elim o [
          | none ↦ none
          | some plan ↦ elim (refusing.distribute plan) [
            | none ↦ none
            | some workers ↦ some waiting
          ]
        ]
          ≡ none
    unsent none = refl
    unsent (some plan) = refl

idle_now : idle.queue.current ≡ ""
unfolding new_queue
idle_now = refl

after_calls-give_up_example :
    ((n : ℕ) → n < 5 → (after_calls refusing pos n idle).db ≡ waiting)
    × ((after_calls refusing pos 5 idle).queue.current ≡ "")
    × ((r : Run (ℕ × ℕ)) × (get_run "r1" (after_calls refusing pos 5 idle).db ≡ ok r)
        × (r.status ≡ "FAILED"))
after_calls-give_up_example =
    after_calls-give_up refusing pos idle (queued_run "r1" 5) idle_now untried (apart "r1" "" refl)
      oldest undispatched

abbrev fresh_session : Session (ℕ × ℕ)
fresh_session = new_session rational "r1"

no_channels : fresh_session.channels ≡ []
unfolding new_session
no_channels = refl

Reached-IsKept_example :
    All
      (λ c. IsStream c × ((subscribe fresh_session).closed ≡ true → c.is_open ≡ false))
      (subscribe fresh_session).channels
Reached-IsKept_example =
    Reached-IsKept fresh_session (subscribe fresh_session)
      (Channels.Reached.next (Channels.Reached.fresh no_channels) (Channels.Step.joins refl))

abbrev recording : Recording rational
recording = record { session = fresh_session; db = waiting; done = [] }

active : IsActive rational "r1" recording
unfolding new_session
active = record { of_run = refl; silent = refl; unclosed = refl }

abbrev silence : List (ℤ × Tick rational)
silence = (pos 1, polled none) ∷ (pos 2, stream_ended) ∷ []

run-IsRecorded_example :
    ((run rational silence recording).1 ≡ any (λ t. ends_run rational t.1) silence)
    × IsRecorded rational "r1" (run rational silence recording)
run-IsRecorded_example = run-IsRecorded rational "r1" silence recording active

-- Tokens are stored as they are, and passwords are compared as texts.
abbrev open_book : Crypto
open_book = record { hash_token = λ token. token; verify_password = str_eq }

abbrev guarded : AuthConfig
guarded = record { enabled = true; session_ttl = pos 60000000000; secure_cookies = false }

abbrev ann : LoginRequest
ann = record { username = "ANN"; password = "secret77" }

answered :
    (handle_login open_book guarded (pos 0) (some "t9") (some ann) accounts).1.body
    ≡ reply 200 "Ann"
unfolding handle_login open_session get_user_by_name create_session select_row trim_space to_lower
answered = refl

handle_login-require_auth_example :
    (u : User) × (get_user_by_name (trim_space "ANN") accounts ≡ ok u)
    × (open_book.verify_password "secret77" u.password_hash ≡ true)
    × (u.username ≡ "Ann")
    × IsLogin open_book guarded
        (pos 0)
        "t9"
        u
        (handle_login open_book guarded (pos 0) (some "t9") (some ann) accounts).0
handle_login-require_auth_example =
    handle_login-require_auth open_book guarded (pos 0) "t9" "Ann" ann accounts refl
      (apart "t9" "" refl) answered

abbrev bob : User
bob = record { id = pos 2; username = "bob"; password_hash = "secret88"; created_at = pos 0 }

-- Every URL is http, and its text is its host; no text is an IP address.
abbrev plain : Net
plain = record { parse_url = λ url. some ("http", url); ip_of = λ host. none }

handle_start_run-IsSubmission_example :
    IsSubmission rational unary [] plain
      (new_allowlist [])
      (λ plan. "{}")
      yaml_plan
      waiting
      (handle_start_run rational unary [] plain
        (new_allowlist [])
        (λ plan. "{}")
        77
        (pos 77)
        (some bob)
        (some yaml_plan)
        waiting)
handle_start_run-IsSubmission_example =
    handle_start_run-IsSubmission rational unary [] plain (new_allowlist []) (λ plan. "{}") 77
      (pos 77) (some bob) yaml_plan waiting

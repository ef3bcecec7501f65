-- ===== src/Api/Stream.antt =====
-- internal/api/sse.go: the stream of a run's events to a browser, and the recorder's sessions
-- (internal/api/recorder.go). The store and the sessions change between two looks of the wait; what
-- each look sees is a parameter. A stream whose input ends is one whose request is gone; that it goes
-- before the first events of the session are written is left out.
pub mod Ends
use go_sentinel.Base.{
  ℕ, String, List, [], ◌∷◌, ◌++◌, Option, none, some, Bool, true, false, str_eq, map, if◌then◌else◌,
}
use go_sentinel.Base.Dict.{Dict, lookup, insert}
use go_sentinel.Base.Float.{Float64}
use go_sentinel.Base.Result.{ok, err}
use go_sentinel.Store.{Database}
use go_sentinel.Store.Runs.{queued, get_run, count_queued_before}
use go_sentinel.Api.Session.{
  Session, Event, metrics_event, status_event, end_event, first_events, new_session,
}

-- The live sessions of the recorder.
abbrev pub Sessions : Type 0 → Type 0
Sessions F = Dict (Session F)

unfoldable pub session : {F : Type 0} → String → Sessions F → Option (Session F)
session test_id sessions = lookup test_id sessions

-- The first part of Start; the loop that records the run follows.
unfoldable pub start : (fl : Float64) → String → Sessions fl.F → Sessions fl.F
start fl test_id sessions = insert test_id (new_session fl test_id) sessions

-- What is written: the place in the queue, an event of the session, or the end.
pub data Sent (F : Type 0) : Type 0 where
  position : ℕ → Sent F
  forwarded : Event F → Sent F
  ended : String → Sent F

-- What a look sees when it reads the run, the sessions and the queue.
pub record Look (F : Type 0) : Type 0 where
  pub db : Database F
  pub sessions : Sessions F
  pub queue : Database F

pub data Waited (F : Type 0) : Type 0 where
  dispatched : Session F → Waited F
  over gone : Waited F

-- What the subscriber's `select` chose: an event, or the closed channel.
pub data Got (F : Type 0) : Type 0 where
  event : Event F → Got F
  closed : Got F

module _ {F : Type 0} where
  unfoldable pub after_queue : String → Option (Session F) → List (Sent F) × Waited F
  after_queue status (some s) = ([], dispatched s)
  after_queue status none = (ended status ∷ [], over)

  unfoldable pub await_dispatch : String → List (Look F) → List (Sent F) × Waited F
  unfolding after_queue session
  await_dispatch test_id [] = ([], gone)
  await_dispatch test_id (look ∷ looks) =
      let (sent, waited) = await_dispatch test_id looks in
      elim (get_run test_id look.db) [
        | err e ↦ (ended "UNKNOWN" ∷ [], over)
        | ok run ↦
            if str_eq run.status queued
            then (position (count_queued_before test_id look.queue) ∷ sent, waited)
            else after_queue run.status (session test_id look.sessions)
      ]

  -- The loop over the events of the channel; it returns after an end.
  unfoldable pub forward : List (Got F) → List (Sent F)
  forward [] = []
  forward (closed ∷ rest) = []
  forward (event (end_event status) ∷ rest) = forwarded (end_event status) ∷ []
  forward (event (metrics_event m) ∷ rest) = forwarded (metrics_event m) ∷ forward rest
  forward (event (status_event s) ∷ rest) = forwarded (status_event s) ∷ forward rest

  -- What comes from the channel of a new subscriber of a session, as it is at that moment: the
  -- channel of a closed session is closed, and else the first events come before those that are
  -- published later.
  abbrev pub received : Session F → List (Got F) → List (Got F)
  received s got = if s.closed then closed ∷ [] else map event (first_events s.last) ++ got

  abbrev pub subscribed : Waited F → List (Got F) → List (Sent F)
  subscribed (dispatched s) got = forward (received s got)
  subscribed over got = []
  subscribed gone got = []

  unfoldable pub stream_waited : List (Sent F) × Waited F → List (Got F) → List (Sent F)
  stream_waited w got = w.0 ++ subscribed w.1 got

  -- `sessions` are those that the handler sees first, and `got` what comes from the channel of the
  -- session after its first events.
  unfoldable pub handle_stream_run :
      String → Sessions F → List (Look F) → List (Got F) → List (Sent F)
  unfolding await_dispatch forward stream_waited session
  handle_stream_run test_id sessions looks got = elim (session test_id sessions) [
    | some s ↦ forward (received s got)
    | none ↦ stream_waited (await_dispatch test_id looks) got
  ]

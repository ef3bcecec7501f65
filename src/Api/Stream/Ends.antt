-- ===== src/Api/Stream/Ends.antt =====
-- How a stream ends.
use go_sentinel.Base.{
  ℕ, ◌+◌, ◌&&◌, if◌then◌else◌, String, List, [], ◌∷◌, ◌++◌, Option, none, some, Bool, true, false,
  str_eq, map, All, ◌≡◌, refl, ap, ◌∙◌, arith, inl, inr, Bool-cases, Option-cases,
}
use go_sentinel.Base.Int.{ℤ, ltb_ℤ}
use go_sentinel.Base.Result.{ok, err, Result-cases}
use go_sentinel.Store.{Run}
use go_sentinel.Store.Runs.{queued, is_queued, has_id, get_run, count_queued_before}
use go_sentinel.Store.Table.{affected, select_row}
use go_sentinel.Api.Metrics.{Metrics}
use go_sentinel.Api.Session.{Session, Event, first_events, metrics_event, status_event, end_event}
use go_sentinel.Api.Stream.{
  Sessions, session, Sent, position, forwarded, ended, Look, Got, event, closed, after_queue,
  await_dispatch, forward, received, stream_waited, handle_stream_run,
}

-- How what comes from the channel ends: the request is gone, the channel is closed, or there is an
-- end, whatever follows it.
pub data Ending (F : Type 0) : Type 0 where
  dropped : Ending F
  shut : List (Got F) → Ending F
  finished : String → List (Got F) → Ending F

module _ {F : Type 0} where
  abbrev pub is_end : Sent F → Bool
  is_end (position n) = false
  is_end (forwarded (metrics_event m)) = false
  is_end (forwarded (status_event s)) = false
  is_end (forwarded (end_event status)) = true
  is_end (ended status) = true

  -- Nothing is written after an end.
  abbrev pub IsEndLast : List (Sent F) → Type 0
  IsEndLast [] = Unit {0}
  IsEndLast (s ∷ sent) = (is_end s ≡ true → sent ≡ []) × IsEndLast sent

  -- The run is queued at the look.
  abbrev pub IsQueued : String → Look F → Type 0
  IsQueued test_id look =
      (run : Run F) × (get_run test_id look.db ≡ ok run) × (str_eq run.status queued ≡ true)

  -- How many rows are queued with an earlier start.
  abbrev pub waiting_before : ℤ → List (Run F) → ℕ
  waiting_before start [] = 0
  waiting_before start (r ∷ runs) =
      (if ltb_ℤ r.started_at start then (if str_eq r.status "QUEUED" then 1 else 0) else 0)
      + waiting_before start runs

  -- The place of a run in the queue; a run that is gone has none ahead.
  abbrev pub place_at : String → Look F → Sent F
  place_at test_id look = elim (get_run test_id look.queue) [
    | err e ↦ position 0
    | ok run ↦ position (waiting_before run.started_at look.queue.runs)
  ]

  affected-waiting_before :
      (start : ℤ) (runs : List (Run F))
      → affected (λ q. is_queued q && ltb_ℤ q.started_at start) runs ≡ waiting_before start runs
  unfolding affected
  affected-waiting_before start [] = refl
  affected-waiting_before start (r ∷ runs) = ground (arith, affected-waiting_before start runs)

  count-place_at :
      (test_id : String) (look : Look F)
      → position (count_queued_before test_id look.queue) ≡ place_at test_id look
  unfolding count_queued_before get_run
  count-place_at test_id look = elim (Option-cases (select_row (has_id test_id) look.queue.runs)) [
    | inl e ↦ rw (count_queued_before, place_at, e) refl
    | inr (r, e) ↦
        rw (count_queued_before, place_at, e)
          (ap position (affected-waiting_before r.started_at look.queue.runs))
  ]

  forward-IsEndLast : (got : List (Got F)) → IsEndLast (forward got)
  unfolding forward
  forward-IsEndLast [] = tt
  forward-IsEndLast (closed ∷ rest) = tt
  forward-IsEndLast (event (end_event status) ∷ rest) = ((λ e. refl), tt)
  forward-IsEndLast (event (metrics_event m) ∷ rest) =
      ((λ e. absurd (ground arith)), forward-IsEndLast rest)
  forward-IsEndLast (event (status_event s) ∷ rest) =
      ((λ e. absurd (ground arith)), forward-IsEndLast rest)

  await-IsEndLast :
      (test_id : String) (looks : List (Look F)) (got : List (Got F))
      → IsEndLast (stream_waited (await_dispatch test_id looks) got)
  unfolding await_dispatch stream_waited after_queue
  await-IsEndLast test_id [] got = tt
  await-IsEndLast test_id (look ∷ looks) got = elim (Result-cases (get_run test_id look.db)) [
    | inr (x, e) ↦ rw (await_dispatch, e) ((λ i. refl), tt)
    | inl (run, e) ↦ elim (Bool-cases (str_eq run.status queued)) [
      | inl q ↦
          rw (await_dispatch, e, q)
            ((λ i. absurd (ground arith)), await-IsEndLast test_id looks got)
      | inr q ↦ elim (Option-cases (session test_id look.sessions)) [
        | inl s ↦ rw (await_dispatch, e, q, s) ((λ i. refl), tt)
        | inr (live, s) ↦ rw (await_dispatch, e, q, s) (forward-IsEndLast (received live got))
      ]
    ]
  ]

  await-queued :
      (test_id : String) (before after : List (Look F)) (got : List (Got F))
      → All (IsQueued test_id) before
      → stream_waited (await_dispatch test_id (before ++ after)) got
        ≡ map (place_at test_id) before ++ stream_waited (await_dispatch test_id after) got
  unfolding await_dispatch stream_waited
  await-queued test_id [] after got h = refl
  await-queued test_id (look ∷ before) after got ((run, e, q), h) =
      rw (await_dispatch, e, q)
        (rw (count-place_at test_id look)
          (ap (λ sent. place_at test_id look ∷ sent) (await-queued test_id before after got h)))

  stream-IsEndLast :
      (test_id : String) (sessions : Sessions F) (looks : List (Look F)) (got : List (Got F))
      → IsEndLast (handle_stream_run test_id sessions looks got)
  unfolding handle_stream_run
  stream-IsEndLast test_id sessions looks got = elim (Option-cases (session test_id sessions)) [
    | inl n ↦ rw (handle_stream_run, n) (await-IsEndLast test_id looks got)
    | inr (s, e) ↦ rw (handle_stream_run, e) (forward-IsEndLast (received s got))
  ]

  abbrev pub IsCalm : Event F → Type 0
  IsCalm (metrics_event m) = Unit {0}
  IsCalm (status_event s) = Unit {0}
  IsCalm (end_event status) = ⊥

  abbrev pub got_last : Ending F → List (Got F)
  got_last dropped = []
  got_last (shut rest) = closed ∷ rest
  got_last (finished status rest) = event (end_event status) ∷ rest

  abbrev pub sent_last : Ending F → List (Sent F)
  sent_last dropped = []
  sent_last (shut rest) = []
  sent_last (finished status rest) = forwarded (end_event status) ∷ []

  -- What the stream of a run is to be from the look on at which the run is no longer queued, where
  -- these events and this ending come from the channel after the first events.
  abbrev pub from_session : String → Option (Session F) → List (Event F) → Ending F → List (Sent F)
  from_session status none calm ending = ended status ∷ []
  from_session status (some s) calm ending =
      if s.closed then [] else map forwarded (first_events s.last ++ calm) ++ sent_last ending

  forward-calm :
      (calm : List (Event F)) (ending : Ending F)
      → All IsCalm calm
      → forward (map event calm ++ got_last ending) ≡ map forwarded calm ++ sent_last ending
  unfolding forward
  forward-calm [] dropped h = refl
  forward-calm [] (shut rest) h = refl
  forward-calm [] (finished status rest) h = refl
  forward-calm (metrics_event m ∷ calm) ending h =
      ap (λ sent. forwarded (metrics_event m) ∷ sent) (forward-calm calm ending h.1)
  forward-calm (status_event s ∷ calm) ending h =
      ap (λ sent. forwarded (status_event s) ∷ sent) (forward-calm calm ending h.1)
  forward-calm (end_event status ∷ calm) ending h = absurd h.0

  forward-first :
      (last : Option (Metrics F)) (calm : List (Event F)) (ending : Ending F)
      → All IsCalm calm
      → forward (map event (first_events last) ++ (map event calm ++ got_last ending))
        ≡ map forwarded (first_events last ++ calm) ++ sent_last ending
  forward-first none calm ending h = forward-calm calm ending h
  forward-first (some m) calm ending h = forward-calm (metrics_event m ∷ calm) ending (tt, h)

  received-from_session :
      (status : String) (s : Session F) (calm : List (Event F)) (ending : Ending F)
      → All IsCalm calm
      → forward (received s (map event calm ++ got_last ending))
        ≡ from_session status (some s) calm ending
  unfolding forward
  received-from_session status s calm ending h = elim (Bool-cases s.closed) [
    | inl e ↦ rw e refl
    | inr e ↦ rw e (forward-first s.last calm ending h)
  ]

  await-dispatched :
      (test_id : String) (look : Look F) (after : List (Look F)) (calm : List (Event F))
      (ending : Ending F) (run : Run F)
      → All IsCalm calm
      → get_run test_id look.db ≡ ok run
      → str_eq run.status queued ≡ false
      → stream_waited (await_dispatch test_id (look ∷ after)) (map event calm ++ got_last ending)
        ≡ from_session run.status (session test_id look.sessions) calm ending
  unfolding await_dispatch stream_waited after_queue
  await-dispatched test_id look after calm ending run h e q =
      elim (Option-cases (session test_id look.sessions)) [
        | inl n ↦ rw (await_dispatch, e, q, n) refl
        | inr (s, live) ↦
            rw (await_dispatch, e, q, live) (received-from_session run.status s calm ending h)
      ]

  -- The stream of a run that is not recorded yet: for each look that finds it queued it has the
  -- number of runs that are queued with an earlier start. From the first look that does not, it has
  -- only an end with the status of the run if there is no session, and nothing if the session is
  -- closed; and else the last metrics of the session, the metrics and the statuses that then come
  -- from the channel, one by one, and the first end if one comes. Nothing follows an end.
  pub handle_stream_run-IsWaiting :
      (test_id : String) (sessions : Sessions F) (before after : List (Look F)) (look : Look F)
      (calm : List (Event F)) (ending : Ending F) (run : Run F)
      → session test_id sessions ≡ none
      → All (IsQueued test_id) before
      → get_run test_id look.db ≡ ok run
      → str_eq run.status queued ≡ false
      → All IsCalm calm
      → (handle_stream_run test_id sessions
            (before ++ (look ∷ after))
            (map event calm ++ got_last ending)
          ≡ map (place_at test_id) before
            ++ from_session run.status (session test_id look.sessions) calm ending)
        × IsEndLast (
            handle_stream_run test_id sessions
              (before ++ (look ∷ after))
              (map event calm ++ got_last ending))
  unfolding handle_stream_run
  handle_stream_run-IsWaiting test_id sessions before after look calm ending run n waits found done
        h =
      let got = map event calm ++ got_last ending in
      (
        rw (handle_stream_run, n)
            (await-queued test_id before (look ∷ after) got waits
              ∙ ap (λ sent. map (place_at test_id) before ++ sent)
                  (await-dispatched test_id look after calm ending run h found done)),
        stream-IsEndLast test_id sessions (before ++ (look ∷ after)) got,
      )

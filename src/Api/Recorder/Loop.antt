-- ===== src/Api/Recorder/Loop.antt =====
-- How the loop that records a run ends.
use go_sentinel.Base.{
  String, List, [], ◌∷◌, Option, none, some, Bool, true, false, ◌||◌, any, All, ◌≡◌, refl, sym, ◌∙◌,
  arith, inl, inr, Bool-cases, if◌then◌else◌,
}
use go_sentinel.Base.Int.{ℤ}
use go_sentinel.Base.Float.{Float64}
use go_sentinel.Store.Runs.Changed.{finish_run-status}
use go_sentinel.Api.Metrics.{Metrics, is_terminal, status_text, StatusReply}
use go_sentinel.Api.Session.{Session, Event, end_event, metrics_event, publish, close}
use go_sentinel.Api.Recorder.{
  Recording, Tick, timed_out, received, stream_ended, polled, finish, note, note_status, note_final,
  raise_peak, on_tick, run, summary_of,
}

module _ (fl : Float64) where
  open fl use {F}

  -- The ticks after which the run is over.
  unfoldable pub ends_run : Tick fl → Bool
  ends_run timed_out = true
  ends_run (received m) = false
  ends_run stream_ended = true
  ends_run (polled none) = false
  ends_run (polled (some resp)) = is_terminal resp.status

  -- The state of a run that is still recorded.
  pub record IsActive (test_id : String) (rec : Recording fl) : Type 0 where
    pub of_run : rec.session.test_id ≡ test_id
    pub silent : rec.done ≡ []
    pub unclosed : rec.session.closed ≡ false

  -- The state of a run that is over: `onDone` was called once, every row of the run has the status
  -- that it was called with, and the session is closed.
  pub record IsOver (test_id : String) (rec : Recording fl) : Type 0 where
    pub status : String
    pub once : rec.done ≡ status ∷ []
    pub is_closed : rec.session.closed ≡ true
    pub stored : All (λ r. r.id ≡ test_id → r.status ≡ status) rec.db.runs

  abbrev pub IsRecorded : String → Recording fl × Bool → Type 0
  IsRecorded test_id (rec, true) = IsOver test_id rec
  IsRecorded test_id (rec, false) = IsActive test_id rec

  publish_id : (ev : Event F) (s : Session F) → (publish ev s).test_id ≡ s.test_id
  unfolding publish
  publish_id ev s = ground arith

  publish_closed : (ev : Event F) (s : Session F) → (publish ev s).closed ≡ s.closed
  unfolding publish
  publish_closed ev s = ground arith

  close_closed : (ev : Event F) (s : Session F) → (close ev s).closed ≡ true
  unfolding close
  close_closed ev s = ground arith

  finish-IsOver :
      (test_id : String) (now : ℤ) (status : String) (rec : Recording fl)
      → IsActive test_id rec
      → IsOver test_id (finish fl now status rec)
  unfolding finish
  finish-IsOver test_id now status rec h = record {
    status = status;
    once = rw h.silent refl;
    is_closed = close_closed (end_event status) rec.session;
    stored = rw (sym h.of_run) (
        finish_run-status rec.session.test_id status now
          (summary_of fl rec.session.last rec.session.peak_rps) rec.db);
  }

  note-IsActive :
      (test_id : String) (now : ℤ) (m : Metrics F) (rec : Recording fl)
      → IsActive test_id rec
      → IsActive test_id (note fl now m rec)
  unfolding note
  note-IsActive test_id now m rec h = record {
    of_run = publish_id (metrics_event m) _ ∙ h.of_run;
    silent = h.silent;
    unclosed = publish_closed (metrics_event m) _ ∙ h.unclosed;
  }

  raise_peak-IsActive :
      (test_id : String) (m : Metrics F) (rec : Recording fl)
      → IsActive test_id rec
      → IsActive test_id (raise_peak fl m rec)
  unfolding raise_peak
  raise_peak-IsActive test_id m rec h = record {
    of_run = h.of_run;
    silent = h.silent;
    unclosed = h.unclosed;
  }

  note_status-IsActive :
      (test_id text : String) (resp : StatusReply F) (rec : Recording fl)
      → IsActive test_id rec
      → IsActive test_id (note_status fl text resp rec)
  unfolding note_status
  note_status-IsActive test_id text resp rec h = record {
    of_run = publish_id _ _ ∙ h.of_run;
    silent = h.silent;
    unclosed = publish_closed _ _ ∙ h.unclosed;
  }

  note_final-IsActive :
      (test_id : String) (now : ℤ) (o : Option (Metrics F)) (rec : Recording fl)
      → IsActive test_id rec
      → IsActive test_id (note_final fl now o rec)
  unfolding note_final
  note_final-IsActive test_id now none rec h = h
  note_final-IsActive test_id now (some m) rec h = note-IsActive test_id now m rec h

  on_tick-IsRecorded :
      (test_id : String) (now : ℤ) (t : Tick fl) (rec : Recording fl)
      → IsActive test_id rec
      → ((on_tick fl now t rec).1 ≡ ends_run t) × IsRecorded test_id (on_tick fl now t rec)
  unfolding on_tick ends_run
  on_tick-IsRecorded test_id now timed_out rec h = (refl, finish-IsOver test_id now "FAILED" rec h)
  on_tick-IsRecorded test_id now (received m) rec h =
      (refl, note-IsActive test_id now m _ (raise_peak-IsActive test_id m rec h))
  on_tick-IsRecorded test_id now stream_ended rec h =
      (refl, finish-IsOver test_id now rec.session.status rec h)
  on_tick-IsRecorded test_id now (polled none) rec h = (refl, h)
  on_tick-IsRecorded test_id now (polled (some resp)) rec h =
      let noted = note_status-IsActive test_id (status_text resp.status) resp rec h in
      elim (Bool-cases (is_terminal resp.status)) [
        | inl e ↦
            rw (on_tick, e)
              (
                refl,
                finish-IsOver test_id now (status_text resp.status) _
                    (note_final-IsActive test_id now _ _ noted),
              )
        | inr e ↦ rw (on_tick, e) (refl, noted)
      ]

  -- The loop that records a run returns exactly if it receives the deadline, the end of the stream
  -- or an answer with a terminal status: then `onDone` was called once, the session is closed, and
  -- every row that the store has of the run has the status that `onDone` was called with. As long
  -- as it receives none of these, `onDone` is not called and the session is not closed.
  pub run-IsRecorded :
      (test_id : String) (ticks : List (ℤ × Tick fl)) (rec : Recording fl)
      → IsActive test_id rec
      → ((run fl ticks rec).1 ≡ any (λ t. ends_run t.1) ticks)
        × IsRecorded test_id (run fl ticks rec)
  unfolding run
  run-IsRecorded test_id [] rec h = (refl, h)
  run-IsRecorded test_id (t ∷ ticks) rec h =
      step (on_tick fl t.0 t.1 rec) (λ after k. run-IsRecorded test_id ticks after k)
        (on_tick-IsRecorded test_id t.0 t.1 rec h)
    where
      step :
          (o : Recording fl × Bool)
          → ((after : Recording fl)
              → IsActive test_id after
              → ((run fl ticks after).1 ≡ any (λ t. ends_run t.1) ticks)
                × IsRecorded test_id (run fl ticks after))
          → (o.1 ≡ ends_run t.1) × IsRecorded test_id o
          → ((if o.1 then (o.0, true) else run fl ticks o.0).1
              ≡ (ends_run t.1 || any (λ t. ends_run t.1) ticks))
            × IsRecorded test_id (if o.1 then (o.0, true) else run fl ticks o.0)
      step (after, true) later (e, k) = rw⁻¹ e (refl, k)
      step (after, false) later (e, k) = rw⁻¹ e (later after k)

-- ===== src/Api/Recorder.antt =====
-- internal/api/recorder.go: the loop that records a run. A tick of the loop is what its `select`
-- receives.
pub mod Loop
use go_sentinel.Base.{
  ℕ, zero, suc, String, List, [], ◌∷◌, ◌++◌, Option, none, some, Bool, true, false, ◌&&◌, ltb, map,
  length, if◌then◌else◌,
}
use go_sentinel.Base.Int.{ℤ, pos}
use go_sentinel.Base.Float.{Float64}
use go_sentinel.Base.Result.{Result, ok, err}
use go_sentinel.Proto.{
  MetricSnapshot, Status, unknown, pending, running, completed, failed, stopped,
}
use go_sentinel.Store.{Run, Sample, Database, StoreError}
use go_sentinel.Store.Runs.{or_same, finish_run}
use go_sentinel.Store.Plans.{add_sample}
use go_sentinel.Api.Metrics.{Metrics, StatusReply, status_text, is_terminal, metrics_from_proto}
use go_sentinel.Api.Session.{Session, Event, metrics_event, status_event, end_event, publish, close}

module _ (fl : Float64) where
  open fl use {F, of_int, gtb}

  abbrev zero_float : F
  zero_float = of_int (pos 0)

  -- The run's session, the store, and the statuses that `onDone` was called with.
  pub record Recording : Type 0 where
    pub session : Session F
    pub db : Database F
    pub done : List String

  -- What the loop receives: the deadline, metrics, the end of the stream, or the answer to a poll of
  -- the status, which is none where the call fails.
  pub data Tick : Type 0 where
    timed_out : Tick
    received : Metrics F → Tick
    stream_ended : Tick
    polled : Option (StatusReply F) → Tick

  unfoldable pub sample_of : ℤ → Metrics F → Sample F
  sample_of now m = record {
    ts_ms = now;
    rps = m.rps.current;
    err_rate = m.errors.rate;
    err_pct = m.errors.percentage;
    p50_ms = m.latency.p50_ms;
    p95_ms = m.latency.p95_ms;
    p99_ms = m.latency.p99_ms;
    requests = m.total_requests;
    errors = m.total_errors;
  }

  unfoldable pub persist_sample : ℤ → String → Metrics F → Database F → Database F
  unfolding sample_of
  persist_sample now test_id m db = or_same db (add_sample test_id (sample_of now m) db)

  abbrev zero_run : Run F
  zero_run = record {
    id = "";
    name = "";
    plan_spec = "";
    status = "";
    started_at = pos 0;
    started_by = "";
    finished_at = none;
    dispatched_at = none;
    workers = pos 0;
    peak_vus = pos 0;
    total_requests = pos 0;
    total_errors = pos 0;
    error_pct = zero_float;
    peak_rps = zero_float;
    avg_rps = zero_float;
    p95_ms = pos 0;
    p99_ms = pos 0;
  }

  unfoldable pub summary_of : Option (Metrics F) → F → Run F
  summary_of none peak = zero_run
  summary_of (some last) peak = record zero_run {
    total_requests = last.total_requests;
    total_errors = last.total_errors;
    error_pct = last.errors.percentage;
    peak_rps = peak;
    avg_rps = last.rps.average;
    p95_ms = last.latency.p95_ms;
    p99_ms = last.latency.p99_ms;
  }

  unfoldable pub finish : ℤ → String → Recording → Recording
  unfolding summary_of
  finish now status rec =
      let s = rec.session in
      record {
        session = close (end_event status) s;
        db = or_same rec.db (finish_run s.test_id status now (summary_of s.last s.peak_rps) rec.db);
        done = rec.done ++ (status ∷ []);
      }

  -- Metrics are the last ones, published and stored.
  unfoldable pub note : ℤ → Metrics F → Recording → Recording
  unfolding persist_sample
  note now m rec =
      let s : Session F = record rec.session { last = some m } in
      record rec {
        session = publish (metrics_event m) s;
        db = persist_sample now s.test_id m rec.db;
      }

  unfoldable pub raise_peak : Metrics F → Recording → Recording
  raise_peak m rec =
      let s = rec.session in
      record rec {
        session = record s {
          peak_rps = if gtb m.rps.current s.peak_rps then m.rps.current else s.peak_rps;
        };
      }

  unfoldable pub note_status : String → StatusReply F → Recording → Recording
  note_status text resp rec =
      let s : Session F = record rec.session { status = text } in
      record rec {
        session =
            publish
              (status_event (record {
                test_id = s.test_id;
                status = text;
                active_workers = resp.active_workers;
                total_vus = resp.total_vus;
              }))
              s;
      }

  unfoldable pub note_final : ℤ → Option (Metrics F) → Recording → Recording
  unfolding note
  note_final now none rec = rec
  note_final now (some m) rec = note now m rec

  -- One round of the loop, and whether it returns.
  unfoldable pub on_tick : ℤ → Tick → Recording → Recording × Bool
  unfolding finish note raise_peak note_status note_final metrics_from_proto
  on_tick now timed_out rec = (finish now "FAILED" rec, true)
  on_tick now (received m) rec = (note now m (raise_peak m rec), false)
  on_tick now stream_ended rec = (finish now rec.session.status rec, true)
  on_tick now (polled none) rec = (rec, false)
  on_tick now (polled (some resp)) rec =
      let text = status_text resp.status in
      let noted = note_status text resp rec in
      if is_terminal resp.status
      then (
        finish now text (note_final now (metrics_from_proto fl resp.current_metrics) noted),
        true,
      )
      else (noted, false)

  -- The loop over what it receives, each with its time; whether it has returned.
  unfoldable pub run : List (ℤ × Tick) → Recording → Recording × Bool
  unfolding on_tick
  run [] rec = (rec, false)
  run (t ∷ ticks) rec =
      let (after, returned) = on_tick t.0 t.1 rec in
      let rest = run ticks after in if returned then (after, true) else rest

  -- The whole of a recording, which begins `at` some time: `no_stream` is whether the call of
  -- StreamMetrics fails.
  unfoldable pub record_run : Bool → ℤ → List (ℤ × Tick) → Recording → Recording × Bool
  unfolding finish run
  record_run true at ticks rec = (finish at "FAILED" rec, true)
  record_run false at ticks rec = run ticks rec

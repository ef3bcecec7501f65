-- ===== src/Commands/Cli/Shown.antt =====
-- What the dashboard of the command line shows of the orchestrator's stream.
use go_sentinel.Base.{ℕ, ◌*◌, List, [], ◌∷◌, ◌++◌, All, ◌≡◌, refl, arith}
use go_sentinel.Base.Int.{ℤ, pos, ◌*ℤ◌}
use go_sentinel.Base.Float.{Float64}
use go_sentinel.Models.{MetricSnapshot}
use go_sentinel.Runtime.Duration.{of_ms-quot, millisecond}
use go_sentinel.Orchestrator.Server.{snapshot_to_proto, unix_milli}
use go_sentinel.Worker.Reporter.Delivery.{AreMillis}
use go_sentinel.Tui.Dashboard.{Model, Msg, metrics_update, update, update_metrics}
use go_sentinel.Commands.Cli.{
  Received, failed, nothing, snapshot, proto_to_snapshot, stream_metrics,
}

-- A time that is a whole number of milliseconds after 1970.
abbrev pub IsMilliTime : ℤ → Type 0
IsMilliTime t = (k : ℕ) × (t ≡ pos (k * 1000000))

-- What is shown of a snapshot.
pub record IsShown {F : Type 0} (s shown : MetricSnapshot F) : Type 0 where
  pub rps : shown.rps ≡ s.rps
  pub latency : shown.latency ≡ s.latency
  pub rate : shown.error_rate.rate ≡ s.error_rate.rate
  pub percentage : shown.error_rate.percentage ≡ s.error_rate.percentage
  pub total_requests : shown.total_requests ≡ s.total_requests
  pub total_errors : shown.total_errors ≡ s.total_errors
  pub timestamp : shown.timestamp ≡ s.timestamp

milli_time : (t : ℤ) → IsMilliTime t → unix_milli t *ℤ millisecond ≡ t
unfolding unix_milli ◌*ℤ◌
milli_time t (k, e) = ground (arith, e)

-- What the metrics pane shows.
abbrev pub shown_by : {F : Type 0} → Model F → MetricSnapshot F
shown_by m = m.metrics_pane.metrics

module _ (float : Float64) where
  open float use {F}

  proto_to_snapshot-snapshot_to_proto :
      (s : MetricSnapshot F)
      → AreMillis s.latency
      → IsMilliTime s.timestamp
      → IsShown s (proto_to_snapshot float (snapshot_to_proto s))
  unfolding proto_to_snapshot snapshot_to_proto
  proto_to_snapshot-snapshot_to_proto s h t = record {
    rps = refl;
    latency = rw (
      of_ms-quot s.latency.min h.min,
      of_ms-quot s.latency.max h.max,
      of_ms-quot s.latency.mean h.mean,
      of_ms-quot s.latency.p50 h.p50,
      of_ms-quot s.latency.p95 h.p95,
      of_ms-quot s.latency.p99 h.p99,
      of_ms-quot s.latency.p999 h.p999,
    );
    rate = refl;
    percentage = refl;
    total_requests = refl;
    total_errors = refl;
    timestamp = milli_time s.timestamp t;
  }

  -- The dashboard after messages.
  unfoldable pub updated : List (Msg F) → Model F → Model F
  unfolding update
  updated [] m = m
  updated (msg ∷ msgs) m = updated msgs (update float msg m).0

  -- The stream has not failed, and it brings no snapshot.
  abbrev pub Lasts : Received float → Type 0
  Lasts failed = ⊥
  Lasts nothing = Unit {0}
  Lasts (snapshot s) = Unit {0}

  abbrev pub BringsNone : Received float → Type 0
  BringsNone failed = Unit {0}
  BringsNone nothing = Unit {0}
  BringsNone (snapshot s) = ⊥

  stream-append :
      (before after : List (Received float))
      → All Lasts before
      → stream_metrics float (before ++ after)
        ≡ stream_metrics float before ++ stream_metrics float after
  unfolding stream_metrics
  stream-append [] after h = refl
  stream-append (failed ∷ before) after h = absurd h.0
  stream-append (nothing ∷ before) after h = stream-append before after h.1
  stream-append (snapshot s ∷ before) after h = rw (stream-append before after h.1) refl

  stream-none :
      (after : List (Received float)) → All BringsNone after → stream_metrics float after ≡ []
  unfolding stream_metrics
  stream-none [] h = refl
  stream-none (failed ∷ after) h = refl
  stream-none (nothing ∷ after) h = stream-none after h.1
  stream-none (snapshot s ∷ after) h = absurd h.0

  updated-last :
      (msgs : List (Msg F)) (shown : MetricSnapshot F) (m : Model F)
      → (updated (msgs ++ (metrics_update shown ∷ [])) m).metrics_pane.metrics ≡ shown
  unfolding updated update_metrics
  updated-last [] shown m = refl
  updated-last (msg ∷ msgs) shown m = updated-last msgs shown (update float msg m).0

  -- After a stream that has not failed before it, the last snapshot that the orchestrator sends is
  -- what the metrics pane of the dashboard shows: the rates, the latencies and the time, where they
  -- are whole milliseconds in range, the error rate and percentage and the totals. (Status codes and
  -- error messages are not sent.)
  pub stream_metrics-snapshot_to_proto :
      (s : MetricSnapshot F) (before after : List (Received float)) (m : Model F)
      → AreMillis s.latency
      → IsMilliTime s.timestamp
      → All Lasts before
      → All BringsNone after
      → IsShown s (
          shown_by
            (updated (stream_metrics float (before ++ (snapshot (snapshot_to_proto s) ∷ after))) m))
  unfolding stream_metrics
  stream_metrics-snapshot_to_proto s before after m h t lasts quiet =
      let shown = proto_to_snapshot float (snapshot_to_proto s) in
      rw
        (
          stream-append before (snapshot (snapshot_to_proto s) ∷ after) lasts,
          stream-none after quiet,
          updated-last (stream_metrics float before) shown m,
        )
        (proto_to_snapshot-snapshot_to_proto s h t)

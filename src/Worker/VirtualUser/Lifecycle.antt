-- ===== src/Worker/VirtualUser/Lifecycle.antt =====
-- internal/worker/virtual_user.go: Run. What its waits, its clock and its requests bring is given; an
-- iteration that runs out of it is one that is still going on.
mod Parts
pub mod Pace
mod Ends
pub mod Steps
pub mod Paced
pub mod Returned
use go_sentinel.Base.{ℕ, List, [], ◌∷◌, Option, none, some, Bool, true, false, ◌&&◌, if◌then◌else◌}
use go_sentinel.Base.Int.{ℤ, pos, ◌+ℤ◌, ltb_ℤ}
use go_sentinel.Base.Float.{Float64}
use go_sentinel.Models.{Request}
use go_sentinel.Worker.Spans.{Histogram}
use go_sentinel.Worker.Collector.{MetricsCollector}
use go_sentinel.Worker.VirtualUser.{Exchange, run_request}

-- What became of a request, the time of its recording, and whether the wait of its think time ended
-- by the context.
pub record Answer : Type 0 where
  pub at : ℤ
  pub exchange : Exchange
  pub interrupted : Bool

-- A round of the loop: whether its `select` finds the context done, what `time.Now` returns, the
-- answers, and whether the wait for the ticker ended by the context.
pub record Round : Type 0 where
  pub done : Bool
  pub now : ℤ
  pub answers : List Answer
  pub interrupted : Bool

-- The loop over the requests ran to its end, was left by the context, or is in a request.
pub data Progress : Type 0 where
  passed stopped executing : Progress

-- `Run` returned nil, or the error of the context.
pub data End : Type 0 where
  completed cancelled : End

module _ (fl : Float64) (hg : Histogram) where
  open fl use {F}
  open hg use {H}

  unfoldable pub run_round :
      List Request → List Answer → MetricsCollector F H → MetricsCollector F H × Progress
  run_round [] answers mc = (mc, passed)
  run_round (r ∷ requests) [] mc = (mc, executing)
  run_round (r ∷ requests) (a ∷ answers) mc =
      let after = run_request fl hg a.at a.exchange r.assertions mc in
      let rest = run_round requests answers after in
      if ltb_ℤ (pos 0) r.think_time && a.interrupted then (after, stopped) else rest

  unfoldable pub run_rounds :
      List Request → ℤ → List Round → MetricsCollector F H → MetricsCollector F H × Option End
  unfolding run_round
  run_rounds requests deadline [] mc = (mc, none)
  run_rounds requests deadline (r ∷ rounds) mc =
      let (after, progress) = run_round requests r.answers mc in
      let rest = run_rounds requests deadline rounds after in
      if r.done
      then (mc, some cancelled)
      else if ltb_ℤ deadline r.now
      then (mc, some completed)
      else elim progress [
        | executing ↦ (after, none)
        | stopped ↦ (after, some cancelled)
        | passed ↦ if r.interrupted then (after, some cancelled) else rest
      ]

  -- `ramp_interrupted` tells whether the wait of the ramp-up ended by the context, `now` is the time
  -- after it.
  unfoldable pub run :
      List Request
      → ℤ
      → ℤ
      → Bool
      → ℤ
      → List Round
      → MetricsCollector F H
      → MetricsCollector F H × Option End
  unfolding run_rounds
  run requests duration ramp_up ramp_interrupted now rounds mc =
      if ltb_ℤ (pos 0) ramp_up && ramp_interrupted
      then (mc, some cancelled)
      else run_rounds requests (now +ℤ duration) rounds mc

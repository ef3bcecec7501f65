-- ===== src/Worker/VirtualUser/Lifecycle/Returned.antt =====
-- When `Run` returns.
use go_sentinel.Base.{
  List, [], ◌∷◌, Bool, true, false, ◌&&◌, ◌||◌, length, All, ◌≡◌, refl, Bool-cases, inl, inr, arith,
}
use go_sentinel.Base.Int.{ℤ, pos, ltb_ℤ, ◌+ℤ◌}
use go_sentinel.Base.Float.{Float64}
use go_sentinel.Models.{Request}
use go_sentinel.Worker.Spans.{Histogram}
use go_sentinel.Worker.Collector.{MetricsCollector}
use go_sentinel.Worker.VirtualUser.Lifecycle.{
  Round, Progress, passed, stopped, executing, run_round, run_rounds, run,
}
use go_sentinel.Worker.VirtualUser.Lifecycle.Parts.{is_executing, answered}
use go_sentinel.Worker.VirtualUser.Lifecycle.Steps.{
  has_returned, stopped_by, out_of_time, after_round, goes_on,
}

-- There is a round that finds the context done or the clock after the deadline.
abbrev pub ends : ℤ → List Round → Bool
ends deadline [] = false
ends deadline (r ∷ rounds) = r.done || ltb_ℤ deadline r.now || ends deadline rounds

module _ (fl : Float64) (hg : Histogram) where
  open fl use {F}
  open hg use {H}

  after-returned :
      (requests : List Request) (deadline : ℤ) (r : Round) (rounds : List Round)
      (result : MetricsCollector F H × Progress)
      → is_executing result.1 ≡ false
      → has_returned (run_rounds fl hg requests deadline rounds result.0).1 ≡ true
      → has_returned (after_round fl hg requests deadline r rounds result).1 ≡ true
  unfolding after_round
  after-returned requests deadline r rounds (after, executing) e others = grind arith
  after-returned requests deadline r rounds (after, stopped) e others = refl
  after-returned requests deadline r rounds (after, passed) e others =
      elim (Bool-cases r.interrupted) [ inl i ↦ rw i refl | inr i ↦ rw i others ]

  run_rounds-returned :
      (requests : List Request) (deadline : ℤ) (rounds : List Round) (mc : MetricsCollector F H)
      → All (λ r. length r.answers ≡ length requests) rounds
      → ends deadline rounds ≡ true
      → has_returned (run_rounds fl hg requests deadline rounds mc).1 ≡ true
  run_rounds-returned requests deadline [] mc all over = grind arith
  run_rounds-returned requests deadline (r ∷ rounds) mc (same, all) over =
      elim (Bool-cases r.done) [
        | inl e ↦ rw (stopped_by fl hg requests deadline r rounds mc e) refl
        | inr e ↦ elim (Bool-cases (ltb_ℤ deadline r.now)) [
          | inl late ↦ rw (out_of_time fl hg requests deadline r rounds mc e late) refl
          | inr now ↦ rw (goes_on fl hg requests deadline r rounds mc e now) (
              after-returned requests deadline r rounds (run_round fl hg requests r.answers mc)
                (answered fl hg requests r.answers mc same)
                (run_rounds-returned requests deadline rounds
                  (run_round fl hg requests r.answers mc).0 all (rw (e, now) at over)))
        ]
      ]

  -- Where every request of a virtual user ends, `Run` returns as soon as a round finds the context
  -- done or the clock after the deadline, if it has not returned before.
  pub run-returned :
      (requests : List Request) (duration ramp_up : ℤ) (ramp_interrupted : Bool) (now : ℤ)
      (rounds : List Round) (mc : MetricsCollector F H)
      → All (λ r. length r.answers ≡ length requests) rounds
      → ends (now +ℤ duration) rounds ≡ true
      → has_returned (run fl hg requests duration ramp_up ramp_interrupted now rounds mc).1 ≡ true
  unfolding run
  run-returned requests duration ramp_up ramp_interrupted now rounds mc all over =
      elim (Bool-cases (ltb_ℤ (pos 0) ramp_up && ramp_interrupted)) [
        | inl e ↦ rw e refl
        | inr e ↦ rw e (run_rounds-returned requests (now +ℤ duration) rounds mc all over)
      ]

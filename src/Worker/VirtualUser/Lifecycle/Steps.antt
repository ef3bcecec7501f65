-- ===== src/Worker/VirtualUser/Lifecycle/Steps.antt =====
-- The loop of a virtual user, round by round.
use go_sentinel.Base.{
  List, [], ◌∷◌, Option, none, some, Bool, true, false, if◌then◌else◌, ◌≡◌, refl, ap,
}
use go_sentinel.Base.Int.{ℤ, ltb_ℤ}
use go_sentinel.Base.Float.{Float64}
use go_sentinel.Models.{Request}
use go_sentinel.Worker.Spans.{Histogram}
use go_sentinel.Worker.Collector.{MetricsCollector}
use go_sentinel.Worker.VirtualUser.Lifecycle.{
  Round, Progress, passed, stopped, executing, End, completed, cancelled, run_round, run_rounds,
}

abbrev pub is_completed : Option End → Bool
is_completed none = false
is_completed (some completed) = true
is_completed (some cancelled) = false

abbrev pub has_returned : Option End → Bool
has_returned none = false
has_returned (some e) = true

module _ (fl : Float64) (hg : Histogram) where
  open fl use {F}
  open hg use {H}

  -- What a round brings the loop to.
  pub no_round :
      (requests : List Request) (deadline : ℤ) (mc : MetricsCollector F H)
      → run_rounds fl hg requests deadline [] mc ≡ (mc, none)
  unfolding run_rounds
  no_round requests deadline mc = refl

  pub stopped_by :
      (requests : List Request) (deadline : ℤ) (r : Round) (rounds : List Round)
      (mc : MetricsCollector F H)
      → r.done ≡ true
      → run_rounds fl hg requests deadline (r ∷ rounds) mc ≡ (mc, some cancelled)
  unfolding run_rounds
  stopped_by requests deadline r rounds mc e = rw e refl

  pub out_of_time :
      (requests : List Request) (deadline : ℤ) (r : Round) (rounds : List Round)
      (mc : MetricsCollector F H)
      → r.done ≡ false
      → ltb_ℤ deadline r.now ≡ true
      → run_rounds fl hg requests deadline (r ∷ rounds) mc ≡ (mc, some completed)
  unfolding run_rounds
  out_of_time requests deadline r rounds mc e late = rw (e, late) refl

  unfoldable pub after_round :
      List Request
      → ℤ
      → Round
      → List Round
      → MetricsCollector F H × Progress
      → MetricsCollector F H × Option End
  after_round requests deadline r rounds result = elim result.1 [
    | executing ↦ (result.0, none)
    | stopped ↦ (result.0, some cancelled)
    | passed ↦
        if r.interrupted
        then (result.0, some cancelled)
        else run_rounds fl hg requests deadline rounds result.0
  ]

  pub goes_on :
      (requests : List Request) (deadline : ℤ) (r : Round) (rounds : List Round)
      (mc : MetricsCollector F H)
      → r.done ≡ false
      → ltb_ℤ deadline r.now ≡ false
      → run_rounds fl hg requests deadline (r ∷ rounds) mc
        ≡ after_round requests deadline r rounds (run_round fl hg requests r.answers mc)
  unfolding run_rounds after_round
  goes_on requests deadline r rounds mc e now = rw (e, now) refl

  pub waited_out :
      (requests : List Request) (deadline : ℤ) (r : Round) (rounds : List Round)
      (after : MetricsCollector F H) (b : Bool)
      → r.interrupted ≡ b
      → after_round requests deadline r rounds (after, passed)
        ≡ (if b then (after, some cancelled) else run_rounds fl hg requests deadline rounds after)
  unfolding after_round
  waited_out requests deadline r rounds after b i =
      ap
        (λ c.
          if c then (after, some cancelled) else run_rounds fl hg requests deadline rounds after)
        i

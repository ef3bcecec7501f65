-- ===== src/Worker/VirtualUser/Lifecycle/Parts.antt =====
-- What a round of a virtual user executes.
use go_sentinel.Base.{
  ℕ, ◌+◌, if◌then◌else◌, List, [], ◌∷◌, ◌++◌, map, Bool, true, false, ◌&&◌, length, ◌≡◌, refl, ap,
  Bool-cases, inl, inr, arith,
}
use go_sentinel.Base.Int.{ℤ, pos, ltb_ℤ}
use go_sentinel.Base.Float.{Float64}
use go_sentinel.Models.{Assertion, Request}
use go_sentinel.Worker.Spans.{Histogram}
use go_sentinel.Worker.Collector.{MetricsCollector}
use go_sentinel.Worker.VirtualUser.{Exchange, run_request, run_requests}
use go_sentinel.Worker.VirtualUser.Lifecycle.{
  Answer, Progress, passed, stopped, executing, run_round,
}

abbrev pub executed : Request × Answer → ℤ × Exchange × List Assertion
executed (r, a) = (a.at, a.exchange, r.assertions)

abbrev pub request_of : Request × Answer → Request
request_of (r, a) = r

abbrev pub is_passed : Progress → Bool
is_passed passed = true
is_passed stopped = false
is_passed executing = false

abbrev pub is_executing : Progress → Bool
is_executing executing = true
is_executing passed = false
is_executing stopped = false

abbrev pub answer_of : Request × Answer → Answer
answer_of (r, a) = a

-- The context was done in the think time of the request.
abbrev pub is_cut : Request × Answer → Bool
is_cut (r, a) = ltb_ℤ (pos 0) r.think_time && a.interrupted

-- How many of the requests were the last ones for that.
abbrev pub cuts : List (Request × Answer) → ℕ
cuts [] = 0
cuts (x ∷ trace) = (if is_cut x then 1 else 0) + cuts trace

-- How a round leaves its requests: with none left, for want of an answer, or by the context. The
-- number is that of the cuts.
pub data RoundEnd (trace : List (Request × Answer))
    : List Request → List Answer → ℕ → Progress → Type 0 where
  through : {unused : List Answer} → RoundEnd trace [] unused 0 passed
  ran_out : {r : Request} {rest : List Request} → RoundEnd trace (r ∷ rest) [] 0 executing
  cut_off :
      {rest : List Request} {unused : List Answer} (before : List (Request × Answer))
      (last : Request × Answer)
      → trace ≡ before ++ (last ∷ [])
      → is_cut last ≡ true
      → RoundEnd trace rest unused 1 stopped

longer :
    {trace : List (Request × Answer)} {rest : List Request} {unused : List Answer} {n : ℕ}
    {progress : Progress} (x : Request × Answer)
    → RoundEnd trace rest unused n progress
    → RoundEnd (x ∷ trace) rest unused n progress
longer x through = through
longer x ran_out = ran_out
longer x (cut_off before last e c) = cut_off (x ∷ before) last (ap (λ t. x ∷ t) e) c

-- What a round executes: the first requests, each with its answer.
pub record IsPart (fl : Float64) (hg : Histogram) (requests : List Request) (answers : List Answer)
    (mc : MetricsCollector fl.F hg.H) (result : MetricsCollector fl.F hg.H × Progress)
    : Type 0 where
  pub trace : List (Request × Answer)
  pub rest : List Request
  pub unused : List Answer
  pub ending : ℕ
  pub recorded : result.0 ≡ run_requests fl hg (map executed trace) mc
  pub partial : map request_of trace ++ rest ≡ requests
  pub answered : map answer_of trace ++ unused ≡ answers
  pub cut : cuts trace ≡ ending
  pub end : RoundEnd trace rest unused ending result.1

module _ (fl : Float64) (hg : Histogram) where
  open fl use {F}
  open hg use {H}

  pub run_requests-append :
      (xs ys : List (ℤ × Exchange × List Assertion)) (mc : MetricsCollector F H)
      → run_requests fl hg (xs ++ ys) mc ≡ run_requests fl hg ys (run_requests fl hg xs mc)
  unfolding run_requests
  run_requests-append [] ys mc = refl
  run_requests-append (x ∷ xs) ys mc = run_requests-append xs ys _

  pub run_round-IsPart :
      (requests : List Request) (answers : List Answer) (mc : MetricsCollector F H)
      → IsPart fl hg requests answers mc (run_round fl hg requests answers mc)
  unfolding run_round run_requests
  run_round-IsPart [] answers mc = record {
    trace = [];
    rest = [];
    unused = answers;
    ending = 0;
    recorded = refl;
    partial = refl;
    answered = refl;
    cut = refl;
    end = through;
  }
  run_round-IsPart (r ∷ requests) [] mc = record {
    trace = [];
    rest = r ∷ requests;
    unused = [];
    ending = 0;
    recorded = refl;
    partial = refl;
    answered = refl;
    cut = refl;
    end = ran_out;
  }
  run_round-IsPart (r ∷ requests) (a ∷ answers) mc =
      let after = run_request fl hg a.at a.exchange r.assertions mc in
      let ih = run_round-IsPart requests answers after in
      elim (Bool-cases (ltb_ℤ (pos 0) r.think_time && a.interrupted)) [
        | inl e ↦ rw e (record {
          trace = (r, a) ∷ [];
          rest = requests;
          unused = answers;
          ending = 1;
          recorded = refl;
          partial = refl;
          answered = refl;
          cut = rw e refl;
          end = cut_off [] (r, a) refl e;
        })
        | inr e ↦ rw e (record {
          trace = (r, a) ∷ ih.trace;
          rest = ih.rest;
          unused = ih.unused;
          ending = ih.ending;
          recorded = ih.recorded;
          partial = ap (λ rest. r ∷ rest) ih.partial;
          answered = ap (λ rest. a ∷ rest) ih.answered;
          cut = rw e (omega (arith, ih.cut));
          end = longer (r, a) ih.end;
        })
      ]

  pub answered :
      (requests : List Request) (answers : List Answer) (mc : MetricsCollector F H)
      → length answers ≡ length requests
      → is_executing (run_round fl hg requests answers mc).1 ≡ false
  unfolding run_round
  answered [] answers mc same = refl
  answered (r ∷ requests) [] mc same = grind arith
  answered (r ∷ requests) (a ∷ answers) mc same =
      elim (Bool-cases (ltb_ℤ (pos 0) r.think_time && a.interrupted)) [
        | inl e ↦ rw e refl
        | inr e ↦ rw e (answered requests answers _ (omega (arith, same)))
      ]

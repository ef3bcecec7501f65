-- ===== src/Worker/VirtualUser/Lifecycle/Paced.antt =====
-- What a virtual user executes.
use go_sentinel.Base.{
  List, [], ◌∷◌, ◌++◌, map, Option, none, some, Bool, true, false, ◌&&◌, length, append_assoc,
  map-append, ◌≡◌, refl, sym, ap, ◌∙◌, ◌⊎◌, Bool-cases, inl, inr, arith,
}
use go_sentinel.Base.Int.{ℤ, pos, ltb_ℤ, ◌+ℤ◌}
use go_sentinel.Base.Float.{Float64}
use go_sentinel.Store.Table.{limit}
use go_sentinel.Models.{Request}
use go_sentinel.Worker.Spans.{Histogram}
use go_sentinel.Worker.Collector.{MetricsCollector}
use go_sentinel.Worker.Collector.Tally.{record_all}
use go_sentinel.Worker.VirtualUser.{run_requests}
use go_sentinel.Worker.VirtualUser.Requests.{all_entries, run_requests-all_entries}
use go_sentinel.Worker.VirtualUser.Lifecycle.{
  Answer, Round, Progress, passed, stopped, executing, End, completed, cancelled, run_round,
  run_rounds, run,
}
use go_sentinel.Worker.VirtualUser.Lifecycle.Parts.{
  executed, request_of, answer_of, IsPart, run_requests-append, run_round-IsPart,
}
use go_sentinel.Worker.VirtualUser.Lifecycle.Steps.{
  no_round, stopped_by, out_of_time, after_round, goes_on, waited_out,
}
use go_sentinel.Worker.VirtualUser.Lifecycle.Pace.{
  cycle, taken, first_answers, IsOpen, IsEnding, no_round_yet, done_before, too_late, IsPaced,
}
use go_sentinel.Worker.VirtualUser.Lifecycle.Ends.{
  limit-trace, cuts-append, passed_end, executing_end, stopped_end, waited_end,
}

module _ (fl : Float64) (hg : Histogram) where
  open fl use {F}
  open hg use {H}

  recorded_twice :
      (xs ys : List (Request × Answer)) (mc after last : MetricsCollector F H)
      → after ≡ run_requests fl hg (map executed xs) mc
      → last ≡ record_all fl hg (all_entries (map executed ys)) after
      → last ≡ record_all fl hg (all_entries (map executed (xs ++ ys))) mc
  recorded_twice xs ys mc after last first second =
      second
      ∙ sym (run_requests-all_entries fl hg (map executed ys) after)
      ∙ ap (run_requests fl hg (map executed ys)) first
      ∙ sym (run_requests-append fl hg (map executed xs) (map executed ys) mc)
      ∙ ap (λ zs. run_requests fl hg zs mc) (sym (map-append executed xs ys))
      ∙ run_requests-all_entries fl hg (map executed (xs ++ ys)) mc

  idle :
      (requests : List Request) (deadline : ℤ) (rounds : List Round) (mc : MetricsCollector F H)
      (e : Option End)
      → IsEnding deadline requests rounds [] 0 e
      → IsPaced fl hg requests deadline rounds mc (mc, e)
  unfolding record_all limit
  idle requests deadline rounds mc e end = record {
    trace = [];
    before = [];
    left = rounds;
    part = [];
    rest = requests;
    ending = 0;
    recorded = refl;
    in_order = refl;
    answered = refl;
    partial = refl;
    split = refl;
    open_before = tt;
    cut = refl;
    end = end;
  }

  -- A round that is left in its requests or after them.
  left_in :
      (requests : List Request) (deadline : ℤ) (r : Round) (rounds : List Round)
      (mc after : MetricsCollector F H) (progress : Progress) (e : Option End)
      (part : IsPart fl hg requests r.answers mc (after, progress))
      → IsEnding deadline requests (r ∷ rounds) (map request_of part.trace) part.ending e
      → IsPaced fl hg requests deadline (r ∷ rounds) mc (after, e)
  left_in requests deadline r rounds mc after progress e part end = record {
    trace = part.trace;
    before = [];
    left = r ∷ rounds;
    part = map request_of part.trace;
    rest = part.rest;
    ending = part.ending;
    recorded = part.recorded ∙ run_requests-all_entries fl hg (map executed part.trace) mc;
    in_order = refl;
    answered = sym (limit-trace part.trace part.unused r.answers part.answered);
    partial = part.partial;
    split = refl;
    open_before = tt;
    cut = part.cut;
    end = end;
  }

  -- A round that passes, and those after it.
  again :
      (requests : List Request) (deadline : ℤ) (r : Round) (rounds : List Round)
      (mc after : MetricsCollector F H) (result : MetricsCollector F H × Option End)
      → IsOpen deadline r
      → IsPart fl hg requests r.answers mc (after, passed)
      → IsPaced fl hg requests deadline rounds after result
      → IsPaced fl hg requests deadline (r ∷ rounds) mc result
  again requests deadline r rounds mc after result is_open part others =
      let (all, uncut) =
        passed_end requests part.trace part.rest part.unused part.ending part.partial part.end in
      record {
        trace = part.trace ++ others.trace;
        before = r ∷ others.before;
        left = others.left;
        part = others.part;
        rest = others.rest;
        ending = others.ending;
        recorded =
            recorded_twice part.trace others.trace mc after result.0 part.recorded others.recorded;
        in_order =
            map-append request_of part.trace others.trace
            ∙ ap (λ xs. xs ++ map request_of others.trace) all
            ∙ ap (λ xs. requests ++ xs) others.in_order
            ∙ sym (append_assoc requests (cycle (length others.before) requests) others.part);
        answered =
            map-append answer_of part.trace others.trace
            ∙ ap (λ xs. xs ++ map answer_of others.trace)
                (sym (limit-trace part.trace part.unused r.answers part.answered)
                  ∙ ap (λ xs. limit (length xs) r.answers) all)
            ∙ ap (λ xs. limit (length requests) r.answers ++ xs) others.answered
            ∙ sym (
                append_assoc (limit (length requests) r.answers)
                  (taken (length requests) others.before)
                  (limit (length others.part) (first_answers others.left)));
        partial = others.partial;
        split = ap (λ rs. r ∷ rs) others.split;
        open_before = (is_open, others.open_before);
        cut = omega (arith, cuts-append part.trace others.trace, part.cut, uncut, others.cut);
        end = others.end;
      }

  round-IsPaced :
      (requests : List Request) (deadline : ℤ) (r : Round) (rounds : List Round)
      (mc : MetricsCollector F H) (result : MetricsCollector F H × Progress)
      → IsPaced fl hg requests deadline rounds result.0
          (run_rounds fl hg requests deadline rounds result.0)
      → r.done ≡ false
      → ltb_ℤ deadline r.now ≡ false
      → IsPart fl hg requests r.answers mc result
      → IsPaced fl hg requests deadline
          (r ∷ rounds)
          mc
          (after_round fl hg requests deadline r rounds result)
  unfolding after_round
  round-IsPaced requests deadline r rounds mc (after, executing) others going now part =
      left_in requests deadline r rounds mc after executing none part (
        executing_end deadline requests r rounds part.trace part.rest part.unused part.ending going
          now part.partial part.answered part.end)
  round-IsPaced requests deadline r rounds mc (after, stopped) others going now part =
      left_in requests deadline r rounds mc after stopped (some cancelled) part (
        stopped_end deadline requests r rounds part.trace part.rest part.unused part.ending going
          now part.answered part.end)
  round-IsPaced requests deadline r rounds mc (after, passed) others going now part =
      elim (Bool-cases r.interrupted) [
        | inl i ↦ rw (waited_out fl hg requests deadline r rounds after true i) (
            left_in requests deadline r rounds mc after passed (some cancelled) part (
              waited_end deadline requests r rounds part.trace part.rest part.unused part.ending
                going now i part.partial part.end))
        | inr i ↦ rw (waited_out fl hg requests deadline r rounds after false i) (
            again requests deadline r rounds mc after
              (run_rounds fl hg requests deadline rounds after) (going, now, i) part others)
      ]

  run_rounds-IsPaced :
      (requests : List Request) (deadline : ℤ) (rounds : List Round) (mc : MetricsCollector F H)
      → IsPaced fl hg requests deadline rounds mc (run_rounds fl hg requests deadline rounds mc)
  run_rounds-IsPaced requests deadline [] mc =
      rw (no_round fl hg requests deadline mc) (idle requests deadline [] mc none no_round_yet)
  run_rounds-IsPaced requests deadline (r ∷ rounds) mc =
      let others = run_rounds-IsPaced requests deadline rounds in
      elim (Bool-cases r.done) [
        | inl e ↦
            rw (stopped_by fl hg requests deadline r rounds mc e)
              (idle requests deadline (r ∷ rounds) mc (some cancelled) (done_before r e))
        | inr e ↦ elim (Bool-cases (ltb_ℤ deadline r.now)) [
          | inl late ↦
              rw (out_of_time fl hg requests deadline r rounds mc e late)
                (idle requests deadline (r ∷ rounds) mc (some completed) (too_late r e late))
          | inr now ↦ rw (goes_on fl hg requests deadline r rounds mc e now) (
              round-IsPaced requests deadline r rounds mc (run_round fl hg requests r.answers mc)
                (others (run_round fl hg requests r.answers mc).0) e now
                (run_round-IsPart fl hg requests r.answers mc))
        ]
      ]

  -- Where the context is done in the ramp-up, `Run` executes nothing and returns its error. Else the
  -- requests that it executes are those of the virtual user over and over in their order, the last
  -- time perhaps not to the end, each with the answer of its place in its round, and it records
  -- what these are, with the failures of clients twice. It stops in the first round that it finds the
  -- context done in, at its head, in a think time or in the wait at its end, with its error; or at
  -- the head of the first whose clock is after the deadline, without one; and it goes on as long as
  -- there is neither.
  pub run-IsPaced :
      (requests : List Request) (duration ramp_up : ℤ) (ramp_interrupted : Bool) (now : ℤ)
      (rounds : List Round) (mc : MetricsCollector F H)
      → ((ltb_ℤ (pos 0) ramp_up && ramp_interrupted ≡ true)
          × (run fl hg requests duration ramp_up ramp_interrupted now rounds mc
              ≡ (mc, some cancelled)))
        ⊎ ((ltb_ℤ (pos 0) ramp_up && ramp_interrupted ≡ false)
            × IsPaced fl hg requests
                (now +ℤ duration)
                rounds
                mc
                (run fl hg requests duration ramp_up ramp_interrupted now rounds mc))
  unfolding run
  run-IsPaced requests duration ramp_up ramp_interrupted now rounds mc =
      elim (Bool-cases (ltb_ℤ (pos 0) ramp_up && ramp_interrupted)) [
        | inl e ↦ inl (e, rw e refl)
        | inr e ↦ inr (e, rw e (run_rounds-IsPaced requests (now +ℤ duration) rounds mc))
      ]

-- ===== src/Worker/VirtualUser/Lifecycle/Pace.antt =====
-- What `Run` is to execute and why it ends, over the rounds of its loop.
use go_sentinel.Base.{
  ℕ, zero, suc, List, [], ◌∷◌, ◌++◌, map, Option, none, some, true, false, length, All, ◌<◌, ◌≡◌,
}
use go_sentinel.Base.Int.{ℤ, ltb_ℤ}
use go_sentinel.Base.Float.{Float64}
use go_sentinel.Store.Table.{limit}
use go_sentinel.Models.{Request}
use go_sentinel.Worker.Spans.{Histogram}
use go_sentinel.Worker.Collector.{MetricsCollector}
use go_sentinel.Worker.Collector.Tally.{record_all}
use go_sentinel.Worker.VirtualUser.Requests.{all_entries}
use go_sentinel.Worker.VirtualUser.Lifecycle.{Answer, Round, End, completed, cancelled}
use go_sentinel.Worker.VirtualUser.Lifecycle.Parts.{executed, request_of, answer_of, is_cut, cuts}

-- The requests of a virtual user so many times.
abbrev pub cycle : ℕ → List Request → List Request
cycle zero requests = []
cycle (suc n) requests = requests ++ cycle n requests

-- The first answers of each round, so many of them.
abbrev pub taken : ℕ → List Round → List Answer
taken n [] = []
taken n (r ∷ rounds) = limit n r.answers ++ taken n rounds

abbrev pub first_answers : List Round → List Answer
first_answers [] = []
first_answers (r ∷ rounds) = r.answers

-- A round that neither the context nor the clock ends.
abbrev pub IsOpen : ℤ → Round → Type 0
IsOpen deadline r = (r.done ≡ false) × (ltb_ℤ deadline r.now ≡ false) × (r.interrupted ≡ false)

-- Why `Run` goes no further, in the rounds that are left after those in which all requests were
-- executed, of which it executed `part` of the requests in the first: there is no further round or
-- answer yet; the context is done at the head of the round, in the think time of the last request,
-- or in the wait at the end; or the clock is after the deadline. The number is that of the requests
-- whose think time was cut.
pub data IsEnding (deadline : ℤ) (requests : List Request)
    : List Round → List Request → ℕ → Option End → Type 0 where
  no_round_yet : IsEnding deadline requests [] [] 0 none
  done_before :
      {rounds : List Round} (r : Round)
      → r.done ≡ true
      → IsEnding deadline requests (r ∷ rounds) [] 0 (some cancelled)
  too_late :
      {rounds : List Round} (r : Round)
      → r.done ≡ false
      → ltb_ℤ deadline r.now ≡ true
      → IsEnding deadline requests (r ∷ rounds) [] 0 (some completed)
  no_answer_yet :
      {rounds : List Round} {part : List Request} (r : Round)
      → r.done ≡ false
      → ltb_ℤ deadline r.now ≡ false
      → length r.answers ≡ length part
      → length part < length requests
      → IsEnding deadline requests (r ∷ rounds) part 0 none
  done_thinking :
      {rounds : List Round} {part : List Request} (r : Round) (before : List (Request × Answer))
      (last : Request × Answer)
      → r.done ≡ false
      → ltb_ℤ deadline r.now ≡ false
      → part ≡ map request_of (before ++ (last ∷ []))
      → limit (length part) r.answers ≡ map answer_of (before ++ (last ∷ []))
      → is_cut last ≡ true
      → IsEnding deadline requests (r ∷ rounds) part 1 (some cancelled)
  done_waiting :
      {rounds : List Round} {part : List Request} (r : Round)
      → r.done ≡ false
      → ltb_ℤ deadline r.now ≡ false
      → part ≡ requests
      → r.interrupted ≡ true
      → IsEnding deadline requests (r ∷ rounds) part 0 (some cancelled)

pub record IsPaced (fl : Float64) (hg : Histogram) (requests : List Request) (deadline : ℤ)
    (rounds : List Round) (mc : MetricsCollector fl.F hg.H)
    (result : MetricsCollector fl.F hg.H × Option End) : Type 0 where
  pub trace : List (Request × Answer)
  pub before : List Round
  pub left : List Round
  pub part : List Request
  pub rest : List Request
  pub ending : ℕ
  pub recorded : result.0 ≡ record_all fl hg (all_entries (map executed trace)) mc
  pub in_order : map request_of trace ≡ cycle (length before) requests ++ part
  pub answered :
      map answer_of trace
      ≡ taken (length requests) before ++ limit (length part) (first_answers left)
  pub partial : part ++ rest ≡ requests
  pub split : before ++ left ≡ rounds
  pub open_before : All (IsOpen deadline) before
  pub cut : cuts trace ≡ ending
  pub end : IsEnding deadline requests left part ending result.1

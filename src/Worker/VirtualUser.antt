-- ===== src/Worker/VirtualUser.antt =====
-- internal/worker/virtual_user.go: the requests of a virtual user. What the network did with a
-- request is an argument. An iteration here runs through all requests; the module Lifecycle has the
-- waiting, the deadline and the cancellation of `Run`.
pub mod Requests
pub mod Lifecycle
use Prim.Native.String
use go_sentinel.Base.{
  ℕ, String, List, [], ◌∷◌, Option, none, some, Bool, true, false, not, ◌&&◌, str_eq, if◌then◌else◌,
}
use go_sentinel.Base.Int.{ℤ, pos, negsuc, leb_ℤ, ltb_ℤ, eqb_ℤ}
use go_sentinel.Base.Float.{Float64}
use go_sentinel.Base.Text.{signed_decimal, contains, decimal}
use go_sentinel.Models.{
  Assertion, AssertionType, unset, status_code, response_time, body_contains, Value,
}
use go_sentinel.Worker.Spans.{Histogram}
use go_sentinel.Worker.Collector.{MetricsCollector, record_request}

-- What became of a request: http.NewRequest refused it, the client failed after some time, or it was
-- answered with a status code and a body.
pub data Exchange : Type 0 where
  not_created : String → Exchange
  failed : ℤ → String → Exchange
  answered : ℤ → ℤ → String → Exchange

abbrev expected_code : Value → Option ℤ
expected_code (Value.int n) = some n
expected_code (Value.int32 n) = some n
expected_code _ = none

abbrev code_matches : Option ℤ → ℤ → Bool
code_matches none code = false
code_matches (some n) code = eqb_ℤ code n

abbrev is_within : Value → ℤ → Bool
is_within (Value.duration d) duration = leb_ℤ duration d
is_within _ duration = false

abbrev has_text : Value → String → Bool
has_text (Value.text s) body = contains body s
has_text _ body = false

unfoldable pub check_assertion : Assertion → ℤ → ℤ → String → Bool
check_assertion a code duration body = elim a.type [
  | unset ↦ true
  | status_code ↦ code_matches (expected_code a.value) code
  | response_time ↦ is_within a.threshold duration
  | body_contains ↦ has_text a.value body
]

-- `%s` of an assertion's type.
abbrev pub type_text : AssertionType → String
type_text unset = ""
type_text status_code = "status_code"
type_text response_time = "response_time"
type_text body_contains = "body_contains"

abbrev pub failure_of : Assertion → String
failure_of a =
    Prim.Native.String.◌++◌ "assertion " (Prim.Native.String.◌++◌ (type_text a.type) " failed")

abbrev pub status_failure : ℤ → String
status_failure code = Prim.Native.String.◌++◌ "status " (signed_decimal code)

-- The loop over the assertions: whether the request is successful, and the message of the last
-- assertion that failed.
unfoldable pub check_all : List Assertion → ℤ → ℤ → String → Bool → String → Bool × String
unfolding check_assertion
check_all [] code duration body success message = (success, message)
check_all (a ∷ rest) code duration body success message =
    let passed = check_all rest code duration body success message in
    let other = check_all rest code duration body false (failure_of a) in
    if not (check_assertion a code duration body) then other else passed

abbrev is_2xx : ℤ → Bool
is_2xx code = leb_ℤ (pos 200) code && ltb_ℤ code (pos 300)

module _ (fl : Float64) (hg : Histogram) where
  open fl use {F}
  open hg use {H}

  -- The message that is recorded with an answer.
  abbrev message_for : Bool → String → ℤ → String
  message_for success failure code =
      if not success && not (str_eq failure "")
      then failure
      else (if not success then status_failure code else "")

  -- The collector, and the error where there is one. `now` is the time of the recording.
  unfoldable pub execute_request :
      ℤ → Exchange → List Assertion → MetricsCollector F H → MetricsCollector F H × Option String
  unfolding check_all
  execute_request now (not_created e) assertions mc =
      (mc, some (Prim.Native.String.◌++◌ "failed to create request: " e))
  execute_request now (failed duration e) assertions mc =
      (record_request fl hg now false duration (pos 0) e mc, some e)
  execute_request now (answered duration code body) assertions mc =
      let (success, failure) = check_all assertions code duration body (is_2xx code) "" in
      (record_request fl hg now success duration code (message_for success failure code) mc, none)

  -- A request in the loop of `Run`.
  unfoldable pub run_request :
      ℤ → Exchange → List Assertion → MetricsCollector F H → MetricsCollector F H
  unfolding execute_request
  run_request now exchange assertions mc = elim (execute_request now exchange assertions mc).1 [
    | none ↦ (execute_request now exchange assertions mc).0
    | some e ↦
        record_request fl hg now false (pos 0) (pos 0) e
          (execute_request now exchange assertions mc).0
  ]

  -- One iteration: each request with its time and what became of it.
  unfoldable pub run_requests :
      List (ℤ × Exchange × List Assertion) → MetricsCollector F H → MetricsCollector F H
  unfolding run_request
  run_requests [] mc = mc
  run_requests (r ∷ requests) mc = run_requests requests (run_request r.0 r.1 r.2 mc)

-- ===== src/Worker/VirtualUser/Requests.antt =====
-- What an iteration of a virtual user records.
use Prim.Native.String
use go_sentinel.Base.{
  String, List, [], ◌∷◌, ◌++◌, Bool, true, false, ◌&&◌, str_eq, if◌then◌else◌, ◌≡◌, refl, sym, ◌∙◌,
  ap, Bool-cases, inl, inr,
}
use go_sentinel.Base.Int.{ℤ, pos, leb_ℤ, ltb_ℤ}
use go_sentinel.Base.Float.{Float64}
use go_sentinel.Models.{Assertion, AssertionType, unset, status_code, response_time, body_contains}
use go_sentinel.Worker.Spans.{Histogram}
use go_sentinel.Worker.Collector.{MetricsCollector, record_request}
use go_sentinel.Worker.Collector.Tally.{Entry, record_all}
use go_sentinel.Worker.VirtualUser.{
  Exchange, not_created, failed, answered, check_assertion, check_all, failure_of, status_failure,
  execute_request, run_request, run_requests, is_2xx, message_for, type_text,
}

-- The assertions of a list that an answer does not meet.
abbrev pub unmet : ℤ → ℤ → String → List Assertion → List Assertion
unmet code duration body [] = []
unmet code duration body (a ∷ rest) =
    if check_assertion a code duration body
    then unmet code duration body rest
    else a ∷ unmet code duration body rest

-- The message of an answer whose status is 2xx or not: that of the last unmet assertion, or the
-- status where all are met.
abbrev pub verdict : Bool → String → List Assertion → Bool × String
verdict good status [] = (good, if good then "" else status)
verdict good status (a ∷ []) = (false, failure_of a)
verdict good status (a ∷ b ∷ rest) = verdict good status (b ∷ rest)

abbrev pub entry : ℤ → Bool × String → ℤ → ℤ → Entry
entry at outcome duration code = record {
  at = at;
  success = outcome.0;
  duration = duration;
  status_code = code;
  message = outcome.1;
}

-- What a request is recorded as: once if it was answered or not created, twice if the client failed.
abbrev pub entries_of : ℤ → Exchange → List Assertion → List Entry
entries_of at (not_created e) assertions =
    entry at (false, Prim.Native.String.◌++◌ "failed to create request: " e) (pos 0) (pos 0) ∷ []
entries_of at (failed duration e) assertions =
    entry at (false, e) duration (pos 0) ∷ entry at (false, e) (pos 0) (pos 0) ∷ []
entries_of at (answered duration code body) assertions =
    entry at
      (verdict (leb_ℤ (pos 200) code && ltb_ℤ code (pos 300)) (status_failure code)
        (unmet code duration body assertions))
      duration code
    ∷ []

abbrev pub all_entries : List (ℤ × Exchange × List Assertion) → List Entry
all_entries [] = []
all_entries (r ∷ requests) = entries_of r.0 r.1 r.2 ++ all_entries requests

-- What the loop over the assertions ends with.
final : Bool → String → List Assertion → Bool × String
final good message [] = (good, message)
final good message (a ∷ rest) = final false (failure_of a) rest

check_all-final :
    (assertions : List Assertion) (code duration : ℤ) (body : String) (good : Bool)
    (message : String)
    → check_all assertions code duration body good message
      ≡ final good message (unmet code duration body assertions)
unfolding check_all final
check_all-final [] code duration body good message = refl
check_all-final (a ∷ rest) code duration body good message =
    elim (Bool-cases (check_assertion a code duration body)) [
      | inl e ↦ rw e (check_all-final rest code duration body good message)
      | inr e ↦ rw e (check_all-final rest code duration body false (failure_of a))
    ]

named :
    (t : AssertionType)
    → str_eq
        (Prim.Native.String.◌++◌ "assertion " (Prim.Native.String.◌++◌ (type_text t) " failed"))
        ""
      ≡ false
named unset = refl
named status_code = refl
named response_time = refl
named body_contains = refl

module _ (fl : Float64) (hg : Histogram) where
  open fl use {F}
  open hg use {H}

  reported : ℤ → Bool × String → Bool × String
  reported code outcome = (outcome.0, message_for fl hg outcome.0 outcome.1 code)

  final_after :
      (good : Bool) (code : ℤ) (a : Assertion) (rest : List Assertion)
      → reported code (final false (failure_of a) rest)
        ≡ verdict good (status_failure code) (a ∷ rest)
  unfolding final reported
  final_after good code a [] = rw (named a.type) refl
  final_after good code a (b ∷ rest) = final_after good code b rest

  reported-verdict :
      (good : Bool) (code : ℤ) (failures : List Assertion)
      → reported code (final good "" failures) ≡ verdict good (status_failure code) failures
  unfolding final reported
  reported-verdict true code [] = refl
  reported-verdict false code [] = refl
  reported-verdict good code (a ∷ rest) = final_after good code a rest

  run_request-entries :
      (at : ℤ) (exchange : Exchange) (assertions : List Assertion) (mc : MetricsCollector F H)
      → run_request fl hg at exchange assertions mc
        ≡ record_all fl hg (entries_of at exchange assertions) mc
  unfolding run_request execute_request record_all reported
  run_request-entries at (not_created e) assertions mc = refl
  run_request-entries at (failed duration e) assertions mc = refl
  run_request-entries at (answered duration code body) assertions mc =
      ap (λ o. record_request fl hg at o.0 duration code o.1 mc)
        (ap (reported code) (check_all-final assertions code duration body (is_2xx code) "")
          ∙ reported-verdict (is_2xx code) code (unmet code duration body assertions))

  record_all-append :
      (xs ys : List Entry) (mc : MetricsCollector F H)
      → record_all fl hg (xs ++ ys) mc ≡ record_all fl hg ys (record_all fl hg xs mc)
  unfolding record_all
  record_all-append [] ys mc = refl
  record_all-append (x ∷ xs) ys mc = record_all-append xs ys _

  -- An iteration of a virtual user leaves in the collector exactly one failure for each request that
  -- could not be created, two failures for each request whose client failed, and for each answered
  -- request one entry with its duration and status code: a success if the code is from 200 to 299
  -- and every assertion is met, and else a failure with the last unmet assertion as its message, or
  -- with the status where all are met.
  pub run_requests-all_entries :
      (requests : List (ℤ × Exchange × List Assertion)) (mc : MetricsCollector F H)
      → run_requests fl hg requests mc ≡ record_all fl hg (all_entries requests) mc
  unfolding run_requests record_all
  run_requests-all_entries [] mc = refl
  run_requests-all_entries (r ∷ requests) mc =
      run_requests-all_entries requests (run_request fl hg r.0 r.1 r.2 mc)
      ∙ ap (record_all fl hg (all_entries requests)) (run_request-entries r.0 r.1 r.2 mc)
      ∙ sym (record_all-append (entries_of r.0 r.1 r.2) (all_entries requests) mc)

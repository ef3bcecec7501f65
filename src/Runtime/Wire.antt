-- ===== src/Runtime/Wire.antt =====
-- internal/runtime/proto.go: a scenario as the message the orchestrator accepts.
pub mod Arrival
use go_sentinel.Base.{ℕ, String, ◌≡◌, refl, List, [], ◌∷◌, map, Option, none, some, if◌then◌else◌}
use go_sentinel.Base.Int.{ℤ, pos, ltb_ℤ, wrap32}
use go_sentinel.Models.{
  Stage, Assertion, Request, Value, unset, status_code, response_time, body_contains,
}
use go_sentinel.Proto
use go_sentinel.Runtime.Duration.{Durations, to_ms32}
use go_sentinel.Runtime.Scenario.{Scenario}

-- What a failed type assertion leaves is the zero value.
abbrev code_of : Value → ℤ
code_of (Value.int n) = wrap32 n
code_of (Value.int32 n) = n
code_of _ = pos 0

abbrev text_of : Value → String
text_of (Value.text s) = s
text_of _ = ""

abbrev duration_of : Value → ℤ
duration_of (Value.duration d) = d
duration_of _ = pos 0

assertion_to_proto : Assertion → Option Proto.Assertion
assertion_to_proto a = elim a.type [
  | unset ↦ none
  | status_code ↦ some (Proto.Assertion.status_code (code_of a.value))
  | response_time ↦
      some (Proto.Assertion.response_time (text_of a.value) (to_ms32 (duration_of a.threshold)))
  | body_contains ↦ some (Proto.Assertion.body_contains (text_of a.value))
]

unfoldable pub assertions_to_proto : List Assertion → List Proto.Assertion
unfolding assertion_to_proto
assertions_to_proto [] = []
assertions_to_proto (a ∷ as') =
    let rest = assertions_to_proto as' in
    elim (assertion_to_proto a) [ none ↦ rest | some b ↦ b ∷ rest ]

unfoldable pub request_to_proto : Request → Proto.Request
unfolding assertions_to_proto
request_to_proto r = record {
  method = r.method;
  path = r.path;
  headers = r.headers;
  body = r.body;
  assertions = assertions_to_proto r.assertions;
  think_time_ms = to_ms32 r.think_time;
}

-- The loop that keeps the largest target, from `peak` on.
unfoldable pub peak_from : ℤ → List Stage → ℤ
peak_from peak [] = peak
peak_from peak (s ∷ ss) = peak_from (if ltb_ℤ peak s.target_vus then s.target_vus else peak) ss

module _ (durations : Durations) where
  unfoldable pub stage_to_proto : Stage → Proto.Stage
  stage_to_proto s = record {
    duration = durations.print s.duration;
    target_vus = s.target_vus;
    ramp_up = if ltb_ℤ (pos 0) s.ramp_up then durations.print s.ramp_up else "";
  }

  unfoldable pub scenario_to_proto : Scenario → String → Proto.TestPlan
  unfolding stage_to_proto request_to_proto peak_from
  scenario_to_proto s test_id = record {
    id = test_id;
    name = s.name;
    stages = map stage_to_proto s.stages;
    http = some (record {
      base_url = s.http.base_url;
      requests = map request_to_proto s.http.requests;
      headers = s.http.headers;
      timeout_ms = to_ms32 s.http.timeout;
    });
    variables = s.vars;
    total_virtual_users = peak_from (pos 0) s.stages;
  }

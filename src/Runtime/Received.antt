-- ===== src/Runtime/Received.antt =====
-- A received plan as the program's own: `convertProtoPlan` of cmd/worker/main.go and `convertPlan`
-- of internal/orchestrator/server.go.
use go_sentinel.Base.{String, List, [], ◌∷◌, map, none, some, str_eq, if◌then◌else◌}
use go_sentinel.Base.Int.{ℤ, pos}
use go_sentinel.Base.Result.{Result, ok, err, ◌>>=◌, collect}
use go_sentinel.Models.{
  Stage, Assertion, Request, TestPlan, Value, unset, status_code, response_time, body_contains,
}
use go_sentinel.Proto
use go_sentinel.Runtime.Duration.{Durations, of_ms}

-- `nil_http` is the panic of reading a field of a plan's missing HTTP part.
pub data PlanError : Type 0 where
  invalid_duration invalid_ramp_up nil_http : PlanError

unfoldable pub assertion_of : Proto.Assertion → Assertion
assertion_of Proto.Assertion.unset = record {
  type = unset;
  value = Value.nil;
  threshold = Value.nil;
}
assertion_of (Proto.Assertion.status_code code) = record {
  type = status_code;
  value = Value.int code;
  threshold = Value.nil;
}
assertion_of (Proto.Assertion.response_time percentile max_ms) = record {
  type = response_time;
  value = Value.text percentile;
  threshold = Value.duration (of_ms max_ms);
}
assertion_of (Proto.Assertion.body_contains part) = record {
  type = body_contains;
  value = Value.text part;
  threshold = Value.nil;
}

-- The worker keeps an assertion whose type is set.
unfoldable pub set_assertions : List Proto.Assertion → List Assertion
unfolding assertion_of
set_assertions [] = []
set_assertions (Proto.Assertion.unset ∷ as') = set_assertions as'
set_assertions (a ∷ as') = assertion_of a ∷ set_assertions as'

unfoldable pub worker_request : Proto.Request → Request
unfolding set_assertions
worker_request r = record {
  method = r.method;
  path = r.path;
  headers = r.headers;
  body = r.body;
  assertions = set_assertions r.assertions;
  think_time = of_ms r.think_time_ms;
}

-- The orchestrator reads no think time, and keeps every assertion.
unfoldable pub orchestrator_request : Proto.Request → Request
unfolding assertion_of
orchestrator_request r = record {
  method = r.method;
  path = r.path;
  headers = r.headers;
  body = r.body;
  assertions = map assertion_of r.assertions;
  think_time = pos 0;
}

module _ (durations : Durations) where
  unfoldable pub read_ramp_up : String → Result PlanError ℤ
  read_ramp_up s =
      if str_eq s ""
      then ok (pos 0)
      else elim (durations.parse s) [ none ↦ err invalid_ramp_up | some d ↦ ok d ]

  unfoldable pub read_stage : Proto.Stage → Result PlanError Stage
  unfolding read_ramp_up
  read_stage s = elim (durations.parse s.duration) [
    | none ↦ err invalid_duration
    | some duration ↦ do
      ramp_up ← read_ramp_up s.ramp_up
      ok (record { duration = duration; target_vus = s.target_vus; ramp_up = ramp_up })
  ]

  unfoldable pub convert_proto_plan : Proto.TestPlan → Result PlanError TestPlan
  unfolding read_stage worker_request
  convert_proto_plan plan = do
    stages ← collect read_stage plan.stages
    ok (record {
      id = plan.id;
      name = plan.name;
      stages = stages;
      http = elim plan.http [
        | none ↦ record { base_url = ""; requests = []; headers = []; timeout = pos 0 }
        | some http ↦ record {
          base_url = http.base_url;
          requests = map worker_request http.requests;
          headers = http.headers;
          timeout = of_ms http.timeout_ms;
        }
      ];
      variables = plan.variables;
      total_virtual_users = plan.total_virtual_users;
    })

  unfoldable pub convert_plan : Proto.TestPlan → Result PlanError TestPlan
  unfolding read_stage orchestrator_request
  convert_plan plan = do
    stages ← collect read_stage plan.stages
    elim plan.http [
      | none ↦ err nil_http
      | some http ↦ ok (record {
        id = plan.id;
        name = plan.name;
        stages = stages;
        http = record {
          base_url = http.base_url;
          requests = map orchestrator_request http.requests;
          headers = http.headers;
          timeout = of_ms http.timeout_ms;
        };
        variables = plan.variables;
        total_virtual_users = plan.total_virtual_users;
      })
    ]

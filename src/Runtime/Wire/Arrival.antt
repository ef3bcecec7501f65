-- ===== src/Runtime/Wire/Arrival.antt =====
-- A scenario on its way to a worker: `ScenarioToProto`, then the worker's `convertProtoPlan`.
use go_sentinel.Base.{
  String, ◌≡◌, refl, sym, ap, ◌∙◌, List, [], ◌∷◌, map, Option, none, some, false, str_eq, All,
  arith, eq_iff, Bool-cases, inl, inr,
}
use go_sentinel.Base.Int.{ℤ, pos, ◌≤ℤ◌, eq_of_parts, ltb_ℤ-ge, ltb_ℤ, InInt64}
use go_sentinel.Base.Result.{ok, collect-map}
use go_sentinel.Models.{
  Stage, Assertion, Request, TestPlan, Value, status_code, response_time, body_contains,
}
use go_sentinel.Runtime.Duration.{Durations, ReadsBack, IsMillis, of_ms-to_ms32}
use go_sentinel.Runtime.Scenario.{Scenario}
use go_sentinel.Runtime.Wire.{
  assertions_to_proto, request_to_proto, stage_to_proto, scenario_to_proto, peak_from,
}
use go_sentinel.Runtime.Received.{
  set_assertions, worker_request, read_stage, read_ramp_up, convert_proto_plan,
}

abbrev pub code_is : ℤ → Assertion
code_is code = record { type = status_code; value = Value.int32 code; threshold = Value.nil }

abbrev pub within : String → ℤ → Assertion
within percentile d = record {
  type = response_time;
  value = Value.text percentile;
  threshold = Value.duration d;
}

abbrev pub contains : String → Assertion
contains part = record { type = body_contains; value = Value.text part; threshold = Value.nil }

-- An assertion of one of the three kinds, with values as the parser stores them.
pub data IsSent : Assertion → Type 0 where
  sent_code : (code : ℤ) → (a : Assertion) → a ≡ code_is code → IsSent a
  sent_time :
      (percentile : String) (d : ℤ) (a : Assertion)
      → IsMillis d
      → a ≡ within percentile d
      → IsSent a
  sent_body : (part : String) (a : Assertion) → a ≡ contains part → IsSent a

-- A worker holds a status code as an int, and the rest as it was.
abbrev pub arrived_value : Value → Value
arrived_value (Value.int32 n) = Value.int n
arrived_value v = v

abbrev pub arrived : Assertion → Assertion
arrived a = record { type = a.type; value = arrived_value a.value; threshold = a.threshold }

assertions_arrive :
    (as' : List Assertion)
    → All IsSent as'
    → set_assertions (assertions_to_proto as') ≡ map arrived as'
unfolding set_assertions assertions_to_proto
assertions_arrive [] h = refl
assertions_arrive (a ∷ as') (sent_code code _ e, h) = rw (e, assertions_arrive as' h)
assertions_arrive (a ∷ as') (sent_time percentile d _ millis e, h) =
    rw (e, of_ms-to_ms32 d millis, assertions_arrive as' h)
assertions_arrive (a ∷ as') (sent_body part _ e, h) = rw (e, assertions_arrive as' h)

abbrev pub arrived_request : Request → Request
arrived_request r = record {
  method = r.method;
  path = r.path;
  headers = r.headers;
  body = r.body;
  assertions = map arrived r.assertions;
  think_time = r.think_time;
}

pub record IsSentRequest (r : Request) : Type 0 where
  pub assertions : All IsSent r.assertions
  pub think_time : IsMillis r.think_time

requests_arrive :
    (rs : List Request)
    → All IsSentRequest rs
    → map worker_request (map request_to_proto rs) ≡ map arrived_request rs
unfolding worker_request request_to_proto
requests_arrive [] h = refl
requests_arrive (r ∷ rs) (h, hs) = rw (
  assertions_arrive r.assertions h.assertions,
  of_ms-to_ms32 r.think_time h.think_time,
  requests_arrive rs hs,
)

pub record IsSentStage (s : Stage) : Type 0 where
  pub duration : InInt64 s.duration
  pub ramp_up : InInt64 s.ramp_up
  pub no_less : pos 0 ≤ℤ s.ramp_up

pub record IsSentScenario (s : Scenario) : Type 0 where
  pub stages : All IsSentStage s.stages
  pub requests : All IsSentRequest s.http.requests
  pub timeout : IsMillis s.http.timeout

-- What the worker makes of a scenario sent as the test `test_id`.
abbrev pub arrived_plan : Scenario → String → TestPlan
arrived_plan s test_id = record {
  id = test_id;
  name = s.name;
  stages = s.stages;
  http = record {
    base_url = s.http.base_url;
    requests = map arrived_request s.http.requests;
    headers = s.http.headers;
    timeout = s.http.timeout;
  };
  variables = s.vars;
  total_virtual_users = peak_from (pos 0) s.stages;
}

module _ (d : Durations) (law : ReadsBack d) where
  printed_nonempty : (n : ℤ) → InInt64 n → str_eq (d.print n) "" ≡ false
  printed_nonempty n h = elim (Bool-cases (str_eq (d.print n) "")) [
    | inl e ↦ absurd (sym law.empty ∙ ap d.parse (sym ((eq_iff (d.print n) "").0 e)) ∙ law.at n h)
    | inr e ↦ e
  ]
    where
      absurd : {A : Type 0} → Path (Option ℤ) none (some n) → A
      absurd e = ground arith

  stage_arrives : (s : Stage) → IsSentStage s → read_stage d (stage_to_proto d s) ≡ ok s
  unfolding read_stage stage_to_proto
  stage_arrives s h = elim (Bool-cases (ltb_ℤ (pos 0) s.ramp_up)) [
    | inl e ↦ rw (
      law.at s.duration h.duration,
      e,
      printed_nonempty s.ramp_up h.ramp_up,
      law.at s.ramp_up h.ramp_up,
      read_stage,
      read_ramp_up,
    )
    | inr e ↦
        let none_left : pos 0 ≡ s.ramp_up =
          eq_of_parts (pos 0) s.ramp_up (omega (arith, h.no_less, ltb_ℤ-ge (pos 0) s.ramp_up e)) in
        rw (law.at s.duration h.duration, e, read_stage, read_ramp_up, ← none_left)
  ]

  -- Where printed durations are read back: a scenario with assertions as the parser stores them, whose
  -- durations an int64 holds, whose ramp-ups are not negative and whose timeout,
  -- think times and thresholds are whole milliseconds that an int32 holds is converted to a message
  -- that the worker's conversion turns back into the same stages, requests and variables, a status
  -- code being held as an int, under the given id and with the peak of the stages as its VU count.
  -- (Between the two the orchestrator gives each worker its share of the stages and of that count,
  -- which is not part of this.)
  pub convert_proto_plan-scenario_to_proto :
      (s : Scenario) (test_id : String)
      → IsSentScenario s
      → convert_proto_plan d (scenario_to_proto d s test_id) ≡ ok (arrived_plan s test_id)
  unfolding convert_proto_plan scenario_to_proto
  convert_proto_plan-scenario_to_proto s test_id h = rw (
    collect-map (read_stage d) (stage_to_proto d) (λ x. x) IsSentStage stage_arrives s.stages
        h.stages,
    map_id s.stages,
    requests_arrive s.http.requests h.requests,
    of_ms-to_ms32 s.http.timeout h.timeout,
  )
    where
      map_id : (xs : List Stage) → map (λ x. x) xs ≡ xs
      map_id [] = refl
      map_id (x ∷ xs) = rw (map_id xs)

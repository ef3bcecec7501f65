-- ===== src/Runtime/Scenario.antt =====
-- internal/runtime/scenario.go
pub mod Runnable
use go_sentinel.Base.{
  ℕ, suc, String, List, [], ◌∷◌, ◌++◌, Option, none, some, Bool, str_eq, if◌then◌else◌,
}
use go_sentinel.Base.Int.{ℤ, pos, leb_ℤ}
use go_sentinel.Base.Dict.{Dict}
use go_sentinel.Base.Result.{Result, ok, err, ◌>>=◌, ◌>>◌}
use go_sentinel.Models.{
  Stage, Assertion, AssertionType, Value, Request, HttpConfig, unset, status_code, response_time,
  body_contains,
}
use go_sentinel.Runtime.Duration.{Durations, of_ms}

pub record Scenario : Type 0 where
  pub name : String
  pub stages : List Stage
  pub http : HttpConfig
  pub vars : Dict String

pub data Error : Type 0 where
  no_stages base_url_required no_requests : Error
  target_vus_not_positive duration_not_positive method_required path_required : ℕ → Error
  invalid_stage_duration invalid_ramp_up invalid_timeout invalid_think_time : Error

check_stages : ℕ → List Stage → Result Error (Unit {0})
check_stages i [] = ok tt
check_stages i (s ∷ ss) =
    let rest = check_stages (suc i) ss in
    if leb_ℤ s.target_vus (pos 0)
    then err (target_vus_not_positive i)
    else if leb_ℤ s.duration (pos 0)
    then err (duration_not_positive i)
    else rest

check_requests : ℕ → List Request → Result Error (Unit {0})
check_requests i [] = ok tt
check_requests i (r ∷ rs) =
    let rest = check_requests (suc i) rs in
    if str_eq r.method ""
    then err (method_required i)
    else if str_eq r.path ""
    then err (path_required i)
    else rest

abbrev pub is_empty {ℓ} : {A : Type ℓ} → List A → Bool
is_empty [] = Bool.true
is_empty (x ∷ xs) = Bool.false

unfoldable pub validate : Scenario → Result Error (Unit {0})
unfolding check_stages check_requests
validate s = if is_empty s.stages then err no_stages else do
  check_stages 0 s.stages
  if str_eq s.http.base_url ""
      then err base_url_required
      else if is_empty s.http.requests
      then err no_requests
      else check_requests 0 s.http.requests

pub record YamlStage : Type 0 where
  pub duration : String
  pub target_vus : ℤ
  pub ramp_up : String

-- A pointer is an `Option`.
pub record YamlAssertion : Type 0 where
  pub status_code : Option ℤ
  pub response_time_p99 : Option ℤ
  pub response_time_p95 : Option ℤ
  pub response_time_p50 : Option ℤ
  pub body_contains : Option String

pub record YamlRequest : Type 0 where
  pub method : String
  pub path : String
  pub headers : Dict String
  pub body : String
  pub assertions : List YamlAssertion
  pub think_time : String

pub record YamlHttpConfig : Type 0 where
  pub base_url : String
  pub requests : List YamlRequest
  pub headers : Dict String
  pub timeout : String

pub record YamlTestPlan : Type 0 where
  pub name : String
  pub stages : List YamlStage
  pub http : YamlHttpConfig
  pub variables : Dict String

-- One round of the loop over the assertions; none where no field is set.
unfoldable pub parse_assertion : YamlAssertion → Option Assertion
parse_assertion a = elim a.status_code [
  | some code ↦
      some (record { type = status_code; value = Value.int32 code; threshold = Value.nil })
  | none ↦ elim a.response_time_p99 [
    | some ms ↦ some (within "P99" ms)
    | none ↦ elim a.response_time_p95 [
      | some ms ↦ some (within "P95" ms)
      | none ↦ elim a.response_time_p50 [
        | some ms ↦ some (within "P50" ms)
        | none ↦ elim a.body_contains [
          | some part ↦
              some (record { type = body_contains; value = Value.text part; threshold = Value.nil })
          | none ↦ none
        ]
      ]
    ]
  ]
]
  where
    within : String → ℤ → Assertion
    within percentile ms = record {
      type = response_time;
      value = Value.text percentile;
      threshold = Value.duration (of_ms ms);
    }

unfoldable pub parse_assertions : List YamlAssertion → List Assertion
unfolding parse_assertion
parse_assertions [] = []
parse_assertions (a ∷ as') =
    let rest = parse_assertions as' in elim (parse_assertion a) [ none ↦ rest | some b ↦ b ∷ rest ]

module _ (durations : Durations) where
  unfoldable pub parse_duration : String → Option ℤ
  parse_duration s = if str_eq s "" then none else durations.parse s

  -- `or_fail` of an optional text: 0 where it is empty.
  abbrev pub parse_optional : String → ℤ → Error → Result Error ℤ
  parse_optional s default e =
      if str_eq s "" then ok default else elim (parse_duration s) [ none ↦ err e | some d ↦ ok d ]

  unfoldable pub parse_request : YamlRequest → Result Error Request
  unfolding parse_duration parse_assertions
  parse_request r = do
    think_time ← parse_optional r.think_time (pos 0) invalid_think_time
    ok (record {
      method = r.method;
      path = r.path;
      headers = r.headers;
      body = r.body;
      assertions = parse_assertions r.assertions;
      think_time = think_time;
    })

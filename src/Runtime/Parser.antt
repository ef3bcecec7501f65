-- ===== src/Runtime/Parser.antt =====
-- internal/runtime/dsl_parser.go, from the decoded plan on. The YAML and JSON decoders are not
-- modelled, nor is reading the file. The environment is the list of its `NAME=value` texts.
use go_sentinel.Base.{String, ◌≡◌, refl, List, [], ◌∷◌, none, some}
use go_sentinel.Base.Int.{ℤ, pos}
use go_sentinel.Base.Dict.{Dict}
use go_sentinel.Base.Result.{Result, ok, err, ◌>>=◌, ◌>>◌, collect}
use go_sentinel.Base.Text.{replace_all, to_upper, split_pair}
use go_sentinel.Models.{Stage, Request}
use go_sentinel.Runtime.Duration.{Durations}
use go_sentinel.Runtime.Scenario.{
  Scenario, Error, invalid_stage_duration, invalid_ramp_up, invalid_timeout, YamlStage, YamlRequest,
  YamlTestPlan, parse_duration, parse_optional, parse_request, validate,
}
use Prim.Native.String

placeholder : String → String
placeholder key = String.◌++◌ "${" (String.◌++◌ key "}")

substitute_dict : Dict String → String → String
unfolding placeholder
substitute_dict [] s = s
substitute_dict ((key, value) ∷ vars) s =
    substitute_dict vars (replace_all s (placeholder key) value)

substitute_environ : List String → String → String
unfolding placeholder
substitute_environ [] s = s
substitute_environ (entry ∷ environ) s = substitute_environ environ (elim (split_pair entry) [
  | none ↦ s
  | some (key, value) ↦ replace_all s (placeholder key) value
])

unfoldable pub substitute_vars : List String → Dict String → String → String
unfolding substitute_dict substitute_environ
substitute_vars environ vars s = substitute_environ environ (substitute_dict vars s)

abbrev pub default_timeout : ℤ
default_timeout = pos 30000000000

module _ (durations : Durations) (environ : List String) where
  unfoldable pub parse_stage : YamlStage → Result Error Stage
  parse_stage s = elim (parse_duration durations s.duration) [
    | none ↦ err invalid_stage_duration
    | some duration ↦ do
      ramp_up ← parse_optional durations s.ramp_up (pos 0) invalid_ramp_up
      ok (record { duration = duration; target_vus = s.target_vus; ramp_up = ramp_up })
  ]

  unfoldable pub request_of : Dict String → YamlRequest → Result Error Request
  unfolding substitute_vars
  request_of vars r = do
    req ← parse_request durations r
    ok (record {
      method = to_upper req.method;
      path = substitute_vars environ vars req.path;
      headers = req.headers;
      body = req.body;
      assertions = req.assertions;
      think_time = req.think_time;
    })

  unfoldable pub assemble : YamlTestPlan → List Stage → ℤ → List Request → Scenario
  unfolding substitute_vars
  assemble plan stages timeout requests = record {
    name = plan.name;
    stages = stages;
    http = record {
      base_url = substitute_vars environ plan.variables plan.http.base_url;
      requests = requests;
      headers = plan.http.headers;
      timeout = timeout;
    };
    vars = plan.variables;
  }

  unfoldable pub from_spec : YamlTestPlan → Result Error Scenario
  unfolding parse_stage request_of assemble
  from_spec plan = do
    stages ← collect parse_stage plan.stages
    timeout ← parse_optional durations plan.http.timeout default_timeout invalid_timeout
    requests ← collect (request_of plan.variables) plan.http.requests
    validate (assemble plan stages timeout requests)
    ok (assemble plan stages timeout requests)

substituted :
    substitute_vars ("HOST=b.test" ∷ "BAD" ∷ []) (("id", "7") ∷ []) "http://${HOST}/${id}"
    ≡ "http://b.test/7"
unfolding substitute_vars split_pair replace_all
substituted = refl

-- ===== src/Tests/Plans.antt =====
-- Reading, checking and sending a concrete plan.
use Prim.Native.Char.{code}
use Prim.Native.String.{char_at}
use go_sentinel.Base.{
  ℕ, zero, suc, String, [], ◌∷◌, Option, none, some, ◌==◌, ◌≡◌, refl, ap, arith, if◌then◌else◌,
}
use go_sentinel.Base.Int.{ℤ, pos, negsuc, InInt64}
use go_sentinel.Base.Result.{ok, collect}
use go_sentinel.Base.Text.{split_pair, replace_all, to_upper}
use go_sentinel.Runtime.Duration.{Durations, ReadsBack}
use go_sentinel.Runtime.Scenario.{Scenario, validate, parse_duration, parse_request, YamlTestPlan}
use go_sentinel.Runtime.Scenario.Runnable.{IsParsed, from_spec-IsRunnable}
use go_sentinel.Runtime.Parser.{from_spec}
use go_sentinel.Runtime.Wire.{scenario_to_proto}
use go_sentinel.Runtime.Wire.Arrival.{
  sent_code, sent_time, sent_body, code_is, within, contains, IsSentScenario, arrived_plan,
  convert_proto_plan-scenario_to_proto,
}
use go_sentinel.Runtime.Received.{convert_proto_plan}

-- Durations written in unary, after a sign.
ones : ℕ → String
ones zero = ""
ones (suc n) = String.◌∷◌ (char_at "1" 0) (ones n)

pub print_unary : ℤ → String
unfolding ones
print_unary (pos n) = String.◌∷◌ (char_at "+" 0) (ones n)
print_unary (negsuc n) = String.◌∷◌ (char_at "-" 0) (ones n)

marks : String → ℕ
marks String.[] = 0
marks (String.◌∷◌ c s) = suc (marks s)

pub parse_unary : String → Option ℤ
unfolding marks
parse_unary String.[] = none
parse_unary (String.◌∷◌ c s) = some (if code c == b'+' then pos (marks s) else negsuc (marks s))

abbrev pub unary : Durations
unary = record { parse = parse_unary; print = print_unary }

count-ones : (n : ℕ) → marks (ones n) ≡ n
unfolding ones marks
count-ones zero = refl
count-ones (suc n) = ap suc (count-ones n)

unary-ReadsBack : ReadsBack unary
unfolding parse_unary print_unary
unary-ReadsBack = record { empty = refl; at = back }
  where
    back : (n : ℤ) → InInt64 n → parse_unary (print_unary n) ≡ some n
    back (pos n) h = ap (λ k. some (pos k)) (count-ones n)
    back (negsuc n) h = ap (λ k. some (negsuc k)) (count-ones n)

abbrev scenario : Scenario
scenario = record {
  name = "load";
  stages =
      record { duration = pos 60; target_vus = pos 8; ramp_up = pos 10 }
      ∷ record { duration = pos 5; target_vus = pos 2; ramp_up = pos 0 }
      ∷ [];
  http = record {
    base_url = "http://a.test";
    requests =
        record {
          method = "GET";
          path = "/";
          headers = [];
          body = "";
          assertions = code_is (pos 200) ∷ within "P99" (pos 500000000) ∷ contains "ok" ∷ [];
          think_time = pos 2000000;
        }
        ∷ [];
    headers = [];
    timeout = pos 30000000000;
  };
  vars = [];
}

validates : validate scenario ≡ ok tt
unfolding validate
validates = refl

scenario-IsSent : IsSentScenario scenario
scenario-IsSent = record {
  stages = (
    record {
      duration = (omega arith, omega arith);
      ramp_up = (omega arith, omega arith);
      no_less = omega arith;
    },
    (
      record {
        duration = (omega arith, omega arith);
        ramp_up = (omega arith, omega arith);
        no_less = omega arith;
      },
      tt,
    ),
  );
  requests = (
    record {
      assertions = (
        sent_code (pos 200) _ refl,
        (
          sent_time "P99" (pos 500000000) _ (500, omega arith, refl) refl,
          (sent_body "ok" _ refl, tt),
        ),
      );
      think_time = (2, omega arith, refl);
    },
    tt,
  );
  timeout = (30000, omega arith, refl);
}

convert_proto_plan-scenario_to_proto_example :
    convert_proto_plan unary (scenario_to_proto unary scenario "t1")
    ≡ ok (arrived_plan scenario "t1")
convert_proto_plan-scenario_to_proto_example =
    convert_proto_plan-scenario_to_proto unary unary-ReadsBack scenario "t1" scenario-IsSent

abbrev pub yaml_plan : YamlTestPlan
yaml_plan = record {
  name = "load";
  stages = record { duration = "+11"; target_vus = pos 8; ramp_up = "" } ∷ [];
  http = record {
    base_url = "http://${HOST}";
    requests =
        record {
          method = "get";
          path = "/${id}";
          headers = [];
          body = "b";
          assertions = [];
          think_time = "";
        }
        ∷ [];
    headers = [];
    timeout = "+1";
  };
  variables = ("id", "7") ∷ [];
}

abbrev parsed : Scenario
parsed = record {
  name = "load";
  stages = record { duration = pos 2; target_vus = pos 8; ramp_up = pos 0 } ∷ [];
  http = record {
    base_url = "http://b.test";
    requests =
        record {
          method = "GET";
          path = "/7";
          headers = [];
          body = "b";
          assertions = [];
          think_time = pos 0;
        }
        ∷ [];
    headers = [];
    timeout = pos 1;
  };
  vars = ("id", "7") ∷ [];
}

parses : from_spec unary ("HOST=b.test" ∷ []) yaml_plan ≡ ok parsed
unfolding from_spec parse_unary validate collect parse_duration parse_request split_pair replace_all
    to_upper
parses = refl

from_spec-IsRunnable_example : IsParsed yaml_plan parsed
from_spec-IsRunnable_example =
    from_spec-IsRunnable unary ("HOST=b.test" ∷ []) yaml_plan parsed parses

-- ===== src/Runtime/Scenario/Runnable.antt =====
-- What `Validate` and `FromSpec` accept.
use go_sentinel.Base.{
  ℕ, suc, String, ◌≡◌, ◌≢◌, ◌↔◌, List, [], ◌∷◌, map, Bool, true, false, str_eq, if◌then◌else◌, All,
  arith, eq_iff,
}
use go_sentinel.Base.Int.{pos, ◌<ℤ◌}
use go_sentinel.Base.Result.{Result, ok, err, ◌>>◌, collect, map-collect, bind_ok, ok_inj}
use go_sentinel.Base.Dict.{Dict}
use go_sentinel.Models.{Stage, Request}
use go_sentinel.Runtime.Duration.{Durations}
use go_sentinel.Runtime.Scenario.{
  Scenario, Error, no_stages, base_url_required, no_requests, is_empty, check_stages,
  check_requests, validate, YamlTestPlan, YamlStage, YamlRequest,
}
use go_sentinel.Runtime.Parser.{from_spec, assemble, default_timeout, parse_stage, request_of}
use go_sentinel.Runtime.Scenario.{parse_request, parse_optional, invalid_timeout}

abbrev IsRunning : Stage → Type 0
IsRunning s = (pos 0 <ℤ s.target_vus) × (pos 0 <ℤ s.duration)

abbrev IsSendable : Request → Type 0
IsSendable r = (r.method ≢ "") × (r.path ≢ "")

pub record IsRunnable (s : Scenario) : Type 0 where
  pub stages : (s.stages ≢ []) × All IsRunning s.stages
  pub base_url : s.http.base_url ≢ ""
  pub requests : (s.http.requests ≢ []) × All IsSendable s.http.requests

check_stages_iff : (i : ℕ) (ss : List Stage) → check_stages i ss ≡ ok tt ↔ All IsRunning ss
unfolding check_stages
check_stages_iff i [] = ground arith
check_stages_iff i (s ∷ ss) = ground (arith, check_stages_iff (suc i) ss)

check_requests_iff : (i : ℕ) (rs : List Request) → check_requests i rs ≡ ok tt ↔ All IsSendable rs
unfolding check_requests
check_requests_iff i [] = ground arith
check_requests_iff i (r ∷ rs) =
    ground (arith, eq_iff r.method "", eq_iff r.path "", check_requests_iff (suc i) rs)

is_empty_iff : {A : Type 0} (xs : List A) → is_empty xs ≡ true ↔ xs ≡ []
is_empty_iff [] = ground arith
is_empty_iff (x ∷ xs) = ground arith

refuted_iff : {P : Type 0} (b : Bool) → (b ≡ true ↔ P) → (b ≡ false ↔ (¬ P))
refuted_iff true h = ground arith
refuted_iff false h = ground arith

-- What follows the loop over the stages, as one test after another.
finish_iff :
    (a b : Bool) (r : Result Error (Unit {0}))
    → (if a then err base_url_required else if b then err no_requests else r) ≡ ok tt
      ↔ (a ≡ false) × (b ≡ false) × (r ≡ ok tt)
finish_iff a b r = ground arith

start_iff :
    (a : Bool) (r q : Result Error (Unit {0}))
    → (if a then err no_stages else (r >> q)) ≡ ok tt ↔ (a ≡ false) × (r ≡ ok tt) × (q ≡ ok tt)
start_iff true r q = ground arith
start_iff false (ok tt) q = ground arith
start_iff false (err e) q = ground arith

-- A scenario passes validation exactly if it has stages, each with a positive target and a
-- positive duration, a base URL, and requests, each with a method and a path.
pub validate_iff : (s : Scenario) → validate s ≡ ok tt ↔ IsRunnable s
unfolding validate
validate_iff s =
    let start = start_iff (is_empty s.stages) (check_stages 0 s.stages) rest in
    let finish = finish_iff (str_eq s.http.base_url "") (is_empty s.http.requests) requests in
    let stages_ok = check_stages_iff 0 s.stages in
    let requests_ok = check_requests_iff 0 s.http.requests in
    let no_stage = refuted_iff (is_empty s.stages) (is_empty_iff s.stages) in
    let no_request = refuted_iff (is_empty s.http.requests) (is_empty_iff s.http.requests) in
    let no_url = refuted_iff (str_eq s.http.base_url "") (eq_iff s.http.base_url "") in
    (
      λ h.
          let (a, b, c) = start.0 h in
          let (d, e, f) = finish.0 c in
          record {
            stages = (no_stage.0 a, stages_ok.0 b);
            base_url = no_url.0 d;
            requests = (no_request.0 e, requests_ok.0 f);
          },
      λ h.
          let (a, b) = h.stages in
          let (c, d) = h.requests in
          start.1 (
            no_stage.1 a,
            stages_ok.1 b,
            finish.1 (no_url.1 h.base_url, no_request.1 c, requests_ok.1 d),
          ),
    )
  where
    requests : Result Error (Unit {0})
    requests = check_requests 0 s.http.requests

    rest : Result Error (Unit {0})
    rest =
        if str_eq s.http.base_url ""
        then err base_url_required
        else if is_empty s.http.requests
        then err no_requests
        else requests

parse_stage-target_vus :
    (d : Durations) (environ : List String) (x : YamlStage) (y : Stage)
    → parse_stage d environ x ≡ ok y
    → y.target_vus ≡ x.target_vus
unfolding parse_stage
parse_stage-target_vus d environ x y e = ground arith

request_of-body :
    (d : Durations) (environ : List String) (vars : Dict String) (x : YamlRequest) (y : Request)
    → request_of d environ vars x ≡ ok y
    → y.body ≡ x.body
unfolding request_of parse_request
request_of-body d environ vars x y e = ground arith

abbrev pub IsParsed : YamlTestPlan → Scenario → Type 0
IsParsed plan s =
    IsRunnable s
    × (map (λ x. x.target_vus) s.stages ≡ map (λ x. x.target_vus) plan.stages)
    × (map (λ x. x.body) s.http.requests ≡ map (λ x. x.body) plan.http.requests)

-- A scenario that a plan is read as passes validation, has a stage for each of the plan's with its
-- target, and a request for each of the plan's with its body, in the plan's order.
pub from_spec-IsRunnable :
    (d : Durations) (environ : List String) (plan : YamlTestPlan) (s : Scenario)
    → from_spec d environ plan ≡ ok s
    → IsParsed plan s
unfolding from_spec
from_spec-IsRunnable d environ plan s e =
    let (stages, read, e₁) = bind_ok (collect (parse_stage d environ) plan.stages) _ s e in
    let (timeout, timed, e₂) =
      bind_ok (parse_optional d plan.http.timeout default_timeout invalid_timeout) _ s e₁ in
    let (requests, asked, e₃) =
      bind_ok (collect (request_of d environ plan.variables) plan.http.requests) _ s e₂ in
    let scenario = assemble d environ plan stages timeout requests in
    let (u, valid, same) = bind_ok (validate scenario) (λ _. ok scenario) s e₃ in
    let kept_vus =
      map-collect (parse_stage d environ) (λ x. x.target_vus) (λ x. x.target_vus)
        (parse_stage-target_vus d environ) plan.stages stages read in
    let kept_bodies =
      map-collect (request_of d environ plan.variables) (λ x. x.body) (λ x. x.body)
        (request_of-body d environ plan.variables) plan.http.requests requests asked in
    accepted scenario s same ((validate_iff scenario).0 valid, kept_vus, kept_bodies)
  where
    accepted :
        (a b : Scenario)
        → Path (Result Error Scenario) (ok a) (ok b)
        → IsParsed plan a
        → IsParsed plan b
    accepted a b same h = rw (ok_inj same) at h

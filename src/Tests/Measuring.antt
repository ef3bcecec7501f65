-- ===== src/Tests/Measuring.antt =====
-- The requests of a virtual user and the counters of a worker on concrete data.
use go_sentinel.Base.{
  ℕ, List, [], ◌∷◌, some, Bool, true, false, All, length, ◌<◌, ◌&&◌, ◌⊎◌, ◌≡◌, refl, arith,
}
use go_sentinel.Base.Int.{ℤ, pos, ltb_ℤ, ◌+ℤ◌, ◌≤ℤ◌, half64}
use go_sentinel.Models.{Assertion, Request, status_code, Value}
use go_sentinel.Worker.Spans.{Histogram}
use go_sentinel.Worker.Collector.{MetricsCollector, new_metrics_collector, reset}
use go_sentinel.Worker.Collector.Tally.{Entry, record_all, IsTally, record_all-IsTally}
use go_sentinel.Worker.VirtualUser.{Exchange, failed, answered, run_requests}
use go_sentinel.Worker.VirtualUser.Requests.{all_entries, run_requests-all_entries}
use go_sentinel.Worker.VirtualUser.Lifecycle.{Answer, Round, cancelled, run}
use go_sentinel.Worker.VirtualUser.Lifecycle.Pace.{IsPaced}
use go_sentinel.Worker.VirtualUser.Lifecycle.Paced.{run-IsPaced}
use go_sentinel.Worker.VirtualUser.Lifecycle.Returned.{run-returned}
use go_sentinel.Worker.VirtualUser.Lifecycle.Steps.{has_returned}
use go_sentinel.Worker.Engine.{Engine, Play, new_engine, run_test}
use go_sentinel.Worker.Engine.Report.{played, IsReported, run_test-IsReported}
use go_sentinel.Tests.{rational, stage}

-- A histogram that keeps only its last value.
abbrev last_value : Histogram
last_value = record {
  H = ℤ;
  new_histogram = pos 0;
  record_value = λ n h. some n;
  min_of = λ h. h;
  max_of = λ h. h;
  mean_of = λ h. h;
  value_at_quantile = λ q h. h;
}

abbrev new_counters : MetricsCollector (ℕ × ℕ) ℤ
new_counters = new_metrics_collector rational last_value (pos 0) (pos 10000000000)

abbrev entries : List Entry
entries =
    record {
      at = pos 5;
      success = true;
      duration = pos 4000000;
      status_code = pos 200;
      message = "";
    }
    ∷ record {
      at = pos 9;
      success = false;
      duration = pos 4000000;
      status_code = pos 500;
      message = "status 500";
    }
    ∷ []

few : length entries < half64
few = omega arith

earlier : All (λ e. e.at ≤ℤ pos 12) entries
earlier = (omega arith, (omega arith, tt))

record_all-IsTally_example :
    IsTally rational last_value
      (pos 12)
      entries
      (record_all rational last_value entries (reset rational last_value (pos 1) new_counters))
record_all-IsTally_example =
    record_all-IsTally rational last_value (pos 1) (pos 12) entries new_counters few earlier

abbrev expects : ℕ → Assertion
expects n = record { type = status_code; value = Value.int (pos n); threshold = Value.nil }

abbrev requests : List (ℤ × Exchange × List Assertion)
requests =
    (pos 5, answered (pos 4000000) (pos 204) "ok", expects 200 ∷ [])
    ∷ (pos 7, failed (pos 4000000) "refused", [])
    ∷ []

run_requests-all_entries_example :
    run_requests rational last_value requests new_counters
    ≡ record_all rational last_value (all_entries requests) new_counters
run_requests-all_entries_example =
    run_requests-all_entries rational last_value requests new_counters

-- The second stage is cancelled.
abbrev plays : List Play
plays =
    record { stage = stage 4; requests = requests; cancelled = false }
    ∷ record { stage = stage 9; requests = requests; cancelled = true }
    ∷ record { stage = stage 2; requests = requests; cancelled = false }
    ∷ []

abbrev new_worker : Engine (ℕ × ℕ) ℤ
new_worker = new_engine rational last_value (pos 0) "w1" true

connected : new_worker.reporter.connected ≡ true
unfolding new_engine go_sentinel.Worker.Reporter.new_reporter
connected = refl

few_requests : length (all_entries (played plays)) < half64
few_requests = omega arith

in_time : All (λ x. x.at ≤ℤ pos 50) (all_entries (played plays))
in_time =
    (omega arith, (omega arith, (omega arith, (omega arith, (omega arith, (omega arith, tt))))))

run_test-IsReported_example :
    IsReported rational last_value
      (pos 51)
      "t1"
      (pos 5)
      plays
      (run_test rational last_value (pos 1) (pos 50) (pos 51) "t1" (pos 5) plays new_worker)
run_test-IsReported_example =
    run_test-IsReported rational last_value (pos 1) (pos 50) (pos 51) "t1" (pos 5) plays new_worker
      connected few_requests in_time

-- Two requests, the second with a think time.
abbrev paced_requests : List Request
paced_requests =
    record {
      method = "GET";
      path = "/a";
      headers = [];
      body = "";
      assertions = expects 200 ∷ [];
      think_time = pos 0;
    }
    ∷ record {
      method = "GET";
      path = "/b";
      headers = [];
      body = "";
      assertions = [];
      think_time = pos 5;
    }
    ∷ []

abbrev answer : ℕ → Bool → Answer
answer at interrupted = record {
  at = pos at;
  exchange = answered (pos 4000000) (pos 200) "ok";
  interrupted = interrupted;
}

-- The context is done in the think time of the second round.
abbrev rounds : List Round
rounds =
    record {
      done = false;
      now = pos 10;
      answers = answer 11 false ∷ answer 12 false ∷ [];
      interrupted = false;
    }
    ∷ record {
      done = false;
      now = pos 20;
      answers = answer 21 false ∷ answer 22 true ∷ [];
      interrupted = false;
    }
    ∷ record {
      done = true;
      now = pos 30;
      answers = answer 31 false ∷ answer 32 false ∷ [];
      interrupted = false;
    }
    ∷ []

run-IsPaced_example :
    ((ltb_ℤ (pos 0) (pos 3) && false ≡ true)
      × (run rational last_value paced_requests (pos 50) (pos 3) false (pos 10) rounds new_counters
          ≡ (new_counters, some cancelled)))
    ⊎ ((ltb_ℤ (pos 0) (pos 3) && false ≡ false)
        × IsPaced rational last_value paced_requests (pos 60) rounds new_counters (
            run rational last_value paced_requests
              (pos 50)
              (pos 3)
              false
              (pos 10)
              rounds
              new_counters))
unfolding ◌+ℤ◌
run-IsPaced_example =
    run-IsPaced rational last_value paced_requests (pos 50) (pos 3) false (pos 10) rounds
      new_counters

run-returned_example :
    has_returned
      (run rational last_value paced_requests (pos 50) (pos 3) false (pos 10) rounds new_counters).1
    ≡ true
unfolding ◌+ℤ◌
run-returned_example =
    run-returned rational last_value paced_requests (pos 50) (pos 3) false (pos 10) rounds
      new_counters (refl, (refl, (refl, tt))) refl

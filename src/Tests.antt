-- ===== src/Tests.antt =====
-- The theorems at concrete inputs. The children hold the runs, one file for a part of the program;
-- this file holds the data they share.
mod Allocating
mod Plans
mod Fleet
mod Reporting
mod Submitting
mod Storing
mod Serving
mod Measuring
mod Pooling
mod Watching
mod Starting
mod Guarding
use go_sentinel.Base.{
  ℕ, ◌+◌, ◌-◌, ◌*◌, ◌/◌, String, List, [], ◌∷◌, Option, none, some, ltb, Bool, false, str_eq,
  eq_iff, arith, ◌≡◌, ◌≢◌,
}
use go_sentinel.Base.Int.{ℤ, pos, pos_part}
use go_sentinel.Base.Dict.{Dict}
use go_sentinel.Base.Float.{Float64}
use go_sentinel.Store.{Run, Database, empty_database}
use go_sentinel.Models.{WorkerNode, WorkerStatus, Stage, TestPlan, TestStatus, HttpConfig}
use go_sentinel.Orchestrator.Distributor.{ActiveTest, PlanDistributor}

-- Exact fractions that are not negative, as a Float64.
abbrev pub rational : Float64
rational = record {
  F = ℕ × ℕ;
  of_int = λ n. (pos_part n, 1);
  add = λ x y. (x.0 * y.1 + y.0 * x.1, x.1 * y.1);
  sub = λ x y. (x.0 * y.1 - y.0 * x.1, x.1 * y.1);
  mul = λ x y. (x.0 * y.0, x.1 * y.1);
  div = λ x y. (x.0 * y.1, x.1 * y.0);
  gtb = λ x y. ltb (y.0 * x.1) (x.0 * y.1);
  to_int32 = λ x. pos (x.0 / x.1);
}

abbrev pub node : String → ℕ → WorkerNode
node id vus = record {
  id = id;
  address = "0.0.0.0:9000";
  max_vus = pos vus;
  status = WorkerStatus.idle;
  metadata = [];
  last_seen = pos 0;
}

abbrev pub stage : ℕ → Stage
stage vus = record { duration = pos 1000000000; target_vus = pos vus; ramp_up = pos 0 }

abbrev pub no_http : HttpConfig
no_http = record { base_url = "http://a.test"; requests = []; headers = []; timeout = pos 0 }

abbrev pub plan_of : List Stage → TestPlan
plan_of stages = record {
  id = "t1";
  name = "load";
  stages = stages;
  http = no_http;
  variables = [];
  total_virtual_users = pos 0;
}

abbrev pub two_workers : Dict ℤ
two_workers = ("w1", pos 4) ∷ ("w2", pos 3) ∷ []

-- A running test of two workers, the first of which has reported.
abbrev pub half_done : ActiveTest
half_done = record {
  test_id = "t1";
  plan = plan_of [];
  workers = two_workers;
  status = TestStatus.running;
  done = ("w1", Bool.true) ∷ [];
}

abbrev pub one_test : PlanDistributor
one_test = record { active_tests = ("t1", half_done) ∷ [] }

pub apart : (s t : String) → str_eq s t ≡ false → s ≢ t
apart s t h e = ground (arith, eq_iff s t)

-- A run that waits since a time.
abbrev queued_run : String → ℕ → Run (ℕ × ℕ)
queued_run id started = record {
  id = id;
  name = "load";
  plan_spec = "{}";
  status = "QUEUED";
  started_at = pos started;
  started_by = "ann";
  finished_at = none;
  dispatched_at = none;
  workers = pos 0;
  peak_vus = pos 4;
  total_requests = pos 0;
  total_errors = pos 0;
  error_pct = (0, 1);
  peak_rps = (0, 1);
  avg_rps = (0, 1);
  p95_ms = pos 0;
  p99_ms = pos 0;
}

abbrev waiting : Database (ℕ × ℕ)
waiting = record empty_database { runs = queued_run "r2" 9 ∷ queued_run "r1" 5 ∷ [] }

-- Two users, of whom each has a session.
abbrev accounts : Database (ℕ × ℕ)
accounts = record empty_database {
  users =
      record { id = pos 1; username = "Ann"; password_hash = "secret77"; created_at = pos 0 }
      ∷ record { id = pos 2; username = "bob"; password_hash = "secret88"; created_at = pos 0 }
      ∷ [];
  last_user = 2;
  sessions =
      record { token_hash = "t1"; user_id = pos 1; expires_at = pos 40 }
      ∷ record { token_hash = "t2"; user_id = pos 2; expires_at = pos 80 }
      ∷ [];
}

-- ===== src/Store.antt =====
-- internal/store/store.go and schema.go: the records of the store, its errors and its tables. The
-- children hold the queries.
pub mod Table
pub mod Runs
pub mod Users
pub mod Plans
use go_sentinel.Base.{ℕ, String, List, [], Option}
use go_sentinel.Base.Int.{ℤ}

pub record Run (F : Type 0) : Type 0 where
  pub id : String
  pub name : String
  pub plan_spec : String
  pub status : String
  pub started_at : ℤ
  pub started_by : String
  pub finished_at : Option ℤ
  pub dispatched_at : Option ℤ
  pub workers : ℤ
  pub peak_vus : ℤ
  pub total_requests : ℤ
  pub total_errors : ℤ
  pub error_pct : F
  pub peak_rps : F
  pub avg_rps : F
  pub p95_ms : ℤ
  pub p99_ms : ℤ

pub record Sample (F : Type 0) : Type 0 where
  pub ts_ms : ℤ
  pub rps : F
  pub err_rate : F
  pub err_pct : F
  pub p50_ms : ℤ
  pub p95_ms : ℤ
  pub p99_ms : ℤ
  pub requests : ℤ
  pub errors : ℤ

pub record User : Type 0 where
  pub id : ℤ
  pub username : String
  pub password_hash : String
  pub created_at : ℤ

pub record Plan : Type 0 where
  pub id : ℤ
  pub name : String
  pub spec : String
  pub created_at : ℤ
  pub updated_at : ℤ

-- A row of the table `sessions`.
pub record Session : Type 0 where
  pub token_hash : String
  pub user_id : ℤ
  pub expires_at : ℤ

-- A row of the table `samples`.
pub record SampleRow (F : Type 0) : Type 0 where
  pub run_id : String
  pub sample : Sample F

-- `constraint_failed` is the database's error for a key that is taken or a reference to no row.
pub data StoreError : Type 0 where
  not_found : StoreError
  constraint_failed : StoreError

-- The tables, and for each AUTOINCREMENT the greatest id it has given out.
pub record Database (F : Type 0) : Type 0 where
  pub plans : List Plan
  pub last_plan : ℕ
  pub runs : List (Run F)
  pub users : List User
  pub last_user : ℕ
  pub sessions : List Session
  pub samples : List (SampleRow F)

-- The database after the schema is applied to a new file.
abbrev pub empty_database : {F : Type 0} → Database F
empty_database = record {
  plans = [];
  last_plan = 0;
  runs = [];
  users = [];
  last_user = 0;
  sessions = [];
  samples = [];
}

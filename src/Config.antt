-- ===== src/Config.antt =====
-- pkg/config/config.go. The package viper is a parameter, with the laws that its documentation states.
-- A duration counts nanoseconds.
pub mod Loaded
use Prim.Native.String
use go_sentinel.Base.{
  ℕ, String, List, [], ◌∷◌, ◌++◌, Option, none, some, Bool, true, false, str_eq, if◌then◌else◌, ◌≡◌,
}
use go_sentinel.Base.Int.{ℤ, pos, leb_ℤ}
use go_sentinel.Base.Result.{Result, ok, err}
use go_sentinel.Base.Text.{split, trim_space}

-- A value that a default is set to.
pub data Setting : Type 0 where
  text : String → Setting
  number : ℤ → Setting
  flag : Bool → Setting
  texts : List String → Setting

pub data ReadResult (S : Type 0) : Type 0 where
  read : S → ReadResult S
  not_found failed : ReadResult S

-- GetString and the like are `get` with a conversion.
pub record Viper : Type 1 where
  pub State : Type 0
  pub set_default : String → Setting → State → State
  -- SetEnvPrefix, SetEnvKeyReplacer and AutomaticEnv
  pub automatic_env : String → State → State
  -- with the name, the type and the paths of the file
  pub read_in_config : State → ReadResult State
  pub get : String → State → Option Setting
  pub to_string : Option Setting → String
  pub to_int : Option Setting → ℤ
  pub to_duration : Option Setting → ℤ
  pub to_bool : Option Setting → Bool
  pub to_string_slice : Option Setting → List String

pub record OrchestratorConfig : Type 0 where
  pub address : String
  pub port : ℤ
  pub metrics_port : ℤ
  pub worker_timeout : ℤ
  pub health_check_interval : ℤ

pub record WorkerConfig : Type 0 where
  pub id : String
  pub address : String
  pub port : ℤ
  pub max_vus : ℤ
  pub orchestrator_url : String
  pub heartbeat_interval : ℤ

pub record ApiConfig : Type 0 where
  pub address : String
  pub port : ℤ
  pub orchestrator_url : String
  pub db_path : String
  pub auth_enabled : Bool
  pub session_ttl : ℤ
  pub bootstrap_user : String
  pub bootstrap_password : String
  pub allowed_targets : List String
  pub tls_cert : String
  pub tls_key : String

pub record CliConfig : Type 0 where
  pub orchestrator_url : String
  pub refresh_interval : ℤ

pub record EtcdConfig : Type 0 where
  pub endpoints : List String
  pub dial_timeout : ℤ
  pub prefix : String

pub record TracingConfig : Type 0 where
  pub enabled : Bool
  pub endpoint : String
  pub service_name : String
  pub environment : String

pub record LoggingConfig : Type 0 where
  pub level : String
  pub development : Bool

pub record Config : Type 0 where
  pub orchestrator : OrchestratorConfig
  pub worker : WorkerConfig
  pub api : ApiConfig
  pub cli : CliConfig
  pub etcd : EtcdConfig
  pub tracing : TracingConfig
  pub logging : LoggingConfig

abbrev pub defaults : List (String × Setting)
defaults =
    ("orchestrator.address", text "0.0.0.0")
    ∷ ("orchestrator.port", number (pos 50051))
    ∷ ("orchestrator.metrics_port", number (pos 9090))
    ∷ ("orchestrator.worker_timeout", text "30s")
    ∷ ("orchestrator.health_check_interval", text "5s")
    ∷ ("worker.port", number (pos 50052))
    ∷ ("worker.max_vus", number (pos 1000))
    ∷ ("worker.heartbeat_interval", text "10s")
    ∷ ("api.address", text "0.0.0.0")
    ∷ ("api.port", number (pos 8090))
    ∷ ("api.orchestrator_url", text "localhost:50051")
    ∷ ("api.db_path", text "gosentinel.db")
    ∷ ("api.auth_enabled", flag true)
    ∷ ("api.session_ttl", text "168h")
    ∷ ("api.allowed_targets", texts [])
    ∷ ("cli.orchestrator_url", text "localhost:50051")
    ∷ ("cli.refresh_interval", text "1s")
    ∷ ("etcd.endpoints", texts ("localhost:2379" ∷ []))
    ∷ ("etcd.dial_timeout", text "5s")
    ∷ ("etcd.prefix", text "/gosentinel")
    ∷ ("tracing.enabled", flag true)
    ∷ ("tracing.endpoint", text "localhost:4317")
    ∷ ("tracing.service_name", text "gosentinel")
    ∷ ("tracing.environment", text "development")
    ∷ ("logging.level", text "info")
    ∷ ("logging.development", flag false)
    ∷ []

-- The parts of a text that are not empty without the white space around them.
unfoldable pub kept_parts : List String → List String
kept_parts [] = []
kept_parts (raw ∷ rest) =
    let part = trim_space raw in
    let others = kept_parts rest in if str_eq part "" then others else part ∷ others

-- The loops of stringSlice over what GetStringSlice returned.
unfoldable pub split_values : List String → List String
unfolding kept_parts
split_values [] = []
split_values (raw ∷ rest) = kept_parts (split b',' raw) ++ split_values rest

pub data ConfigError : Type 0 where
  orchestrator_port worker_port no_endpoints : ConfigError

unfoldable pub validate : Config → Result ConfigError (Unit {0})
validate c =
    if leb_ℤ c.orchestrator.port (pos 0)
    then err orchestrator_port
    else if leb_ℤ c.worker.port (pos 0)
    then err worker_port
    else elim c.etcd.endpoints [ [] ↦ err no_endpoints | e ∷ es ↦ ok tt ]

module _ (v : Viper) where
  open v use {State, get, to_string, to_int, to_duration, to_bool, to_string_slice}

  unfoldable pub string_slice : String → State → List String
  unfolding split_values
  string_slice key s = split_values (to_string_slice (get key s))

  unfoldable pub set_defaults : List (String × Setting) → State → State
  set_defaults [] s = s
  set_defaults (e ∷ rest) s = set_defaults rest (v.set_default e.0 e.1 s)

  -- The assignments of Load.
  unfoldable pub config_of : State → Config
  unfolding string_slice
  config_of s = record {
    orchestrator = record {
      address = to_string (get "orchestrator.address" s);
      port = to_int (get "orchestrator.port" s);
      metrics_port = to_int (get "orchestrator.metrics_port" s);
      worker_timeout = to_duration (get "orchestrator.worker_timeout" s);
      health_check_interval = to_duration (get "orchestrator.health_check_interval" s);
    };
    worker = record {
      id = to_string (get "worker.id" s);
      address = to_string (get "worker.address" s);
      port = to_int (get "worker.port" s);
      max_vus = to_int (get "worker.max_vus" s);
      orchestrator_url = to_string (get "worker.orchestrator_url" s);
      heartbeat_interval = to_duration (get "worker.heartbeat_interval" s);
    };
    api = record {
      address = to_string (get "api.address" s);
      port = to_int (get "api.port" s);
      orchestrator_url = to_string (get "api.orchestrator_url" s);
      db_path = to_string (get "api.db_path" s);
      auth_enabled = to_bool (get "api.auth_enabled" s);
      session_ttl = to_duration (get "api.session_ttl" s);
      bootstrap_user = to_string (get "api.bootstrap_user" s);
      bootstrap_password = to_string (get "api.bootstrap_password" s);
      allowed_targets = string_slice "api.allowed_targets" s;
      tls_cert = to_string (get "api.tls_cert" s);
      tls_key = to_string (get "api.tls_key" s);
    };
    cli = record {
      orchestrator_url = to_string (get "cli.orchestrator_url" s);
      refresh_interval = to_duration (get "cli.refresh_interval" s);
    };
    etcd = record {
      endpoints = to_string_slice (get "etcd.endpoints" s);
      dial_timeout = to_duration (get "etcd.dial_timeout" s);
      prefix = to_string (get "etcd.prefix" s);
    };
    tracing = record {
      enabled = to_bool (get "tracing.enabled" s);
      endpoint = to_string (get "tracing.endpoint" s);
      service_name = to_string (get "tracing.service_name" s);
      environment = to_string (get "tracing.environment" s);
    };
    logging = record {
      level = to_string (get "logging.level" s);
      development = to_bool (get "logging.development" s);
    };
  }

  -- What Load reads from, before the configuration file is read.
  unfoldable pub prepared : State → State
  unfolding set_defaults
  prepared s = v.automatic_env "GOSENTINEL" (set_defaults defaults s)

  -- The state that the settings are read from; none where there is a file that cannot be read.
  unfoldable pub loaded : State → Option State
  unfolding prepared
  loaded s = elim (v.read_in_config (prepared s)) [
    | failed ↦ none
    | not_found ↦ some (prepared s)
    | read s' ↦ some s'
  ]

  unfoldable pub load : State → Option Config
  unfolding loaded config_of
  load s = elim (loaded s) [ none ↦ none | some t ↦ some (config_of t) ]

-- ===== src/Tests/Starting.antt =====
-- Accounts, the configuration and the registration of a worker on concrete data.
use Prim.Native.Char.{Char, code}
use Prim.Native.String.{len}
use text.Mathlib.TextEquality.{codes_equal}
use go_sentinel.Base.{
  ℕ, ◌+◌, ◌≤◌, String, List, [], ◌∷◌, ◌++◌, Option, none, some, Bool, true, false, str_eq, ◌==◌,
  if◌then◌else◌, ◌≡◌, refl, sym, ap, arith, Bool-cases, inl, inr,
}
use go_sentinel.Base.Int.{pos}
use go_sentinel.Base.Dict.{lookup, insert, lookup-insert}
use go_sentinel.Base.Result.{ok}
use go_sentinel.Base.Text.{lacks, concat, trim_space, to_lower}
use go_sentinel.Store.{Database}
use go_sentinel.Store.Users.{create_user}
use go_sentinel.Orchestrator.Nodes.{new_node_manager, get_node}
use go_sentinel.Orchestrator.Server.{Server, RegisterWorkerRequest}
use go_sentinel.Orchestrator.Aggregator.{new_metrics_aggregator}
use go_sentinel.Api.Auth.{AuthConfig, handle_login}
use go_sentinel.Api.Reply.{reply}
use go_sentinel.Api.Passwords.{
  Argon, argon_time, argon_memory, argon_threads, argon_key_len, hash_password, verify_password,
  hash_prefix,
}
use go_sentinel.Api.Passwords.Verified.{IsArgon, verify_password-hash_password}
use go_sentinel.Commands.Accounts.{add_user, chosen_password}
use go_sentinel.Commands.Accounts.Login.{crypto_of, add_user-handle_login}
use go_sentinel.Config.{
  Setting, number, flag, texts, Viper, not_found, Config, validate, load, loaded, prepared,
}
use go_sentinel.Config.Loaded.{IsViper, load-validate}
use go_sentinel.Commands.WorkerServer.{Registration, register_with_orchestrator}
use go_sentinel.Commands.WorkerServer.Registered.{
  Outcome, unreachable, late, answered, call, node_at, register_with_orchestrator-IsNode,
}
use go_sentinel.Tests.{accounts}

-- A dollar sign and a percent sign are written with a percent sign before them.
escape : String → String
escape String.[] = ""
escape (String.◌∷◌ c s) =
    if code c == b'$'
    then String.◌∷◌ "%" (String.◌∷◌ "1" (escape s))
    else if code c == b'%'
    then String.◌∷◌ "%" (String.◌∷◌ "0" (escape s))
    else String.◌∷◌ c (escape s)

unescape : Bool → String → String
unescape after String.[] = ""
unescape true (String.◌∷◌ c s) =
    if code c == b'1' then String.◌∷◌ "$" (unescape false s) else String.◌∷◌ "%" (unescape false s)
unescape false (String.◌∷◌ c s) =
    if code c == b'%' then unescape true s else String.◌∷◌ c (unescape false s)

code_eq : (c d : Char) → (code c == code d) ≡ true → c ≡ d
code_eq c d e = codes_equal c d (ground arith)

unescape-escape : (s : String) → unescape false (escape s) ≡ s
unfolding escape unescape
unescape-escape String.[] = refl
unescape-escape (String.◌∷◌ c s) = ground (arith, unescape-escape s, code_eq c "$", code_eq c "%")

escape-lacks : (s : String) → lacks b'$' (escape s) ≡ true
unfolding escape lacks
escape-lacks String.[] = refl
escape-lacks (String.◌∷◌ c s) = ground (arith, escape-lacks s)

-- Two keys.
abbrev argon : Argon
argon = record {
  id_key = λ password salt iterations memory threads length. some (
      if str_eq password "hunter22"
      then "0123456789abcdef0123456789abcdef"
      else "fedcba9876543210fedcba9876543210");
  encode = escape;
  decode = λ s. some (unescape false s);
}

same_text : {s t : String} → Path (Option String) (some s) (some t) → s ≡ t
same_text e = ground arith

argon-long :
    (password key : String)
    → Path
        (Option String)
        (some (
          if str_eq password "hunter22"
          then "0123456789abcdef0123456789abcdef"
          else "fedcba9876543210fedcba9876543210"))
        (some key)
    → len key ≡ 32
argon-long password key e = elim (Bool-cases (str_eq password "hunter22")) [
  | inl p ↦ sym (ap len (same_text (rw p at e)))
  | inr p ↦ sym (ap len (same_text (rw p at e)))
]

argon-IsArgon : IsArgon argon
argon-IsArgon = record {
  decodes = λ s. ap some (unescape-escape s);
  no_dollar = escape-lacks;
  long = λ password salt key e. argon-long password key e;
}

abbrev guarded : AuthConfig
guarded = record { enabled = true; session_ttl = pos 60000000000; secure_cookies = false }

-- The hash of the password with the salt "pepper".
abbrev hunter_hash : String
hunter_hash = "$argon2id$v=19$m=65536,t=3,p=4$pepper$0123456789abcdef0123456789abcdef"

hunter_hashed : hash_password argon (some "pepper") "hunter22" ≡ some hunter_hash
unfolding hash_password hash_prefix concat escape
hunter_hashed = refl

verify_password-hash_password_example :
    (key : String) × (argon.id_key "hunter22" "pepper" argon_time argon_memory argon_threads
        argon_key_len
      ≡ some key)
    × (verify_password argon "hunter22" hunter_hash ≡ some true)
    × ((other : String)
        → verify_password argon other hunter_hash
          ≡ elim (argon.id_key other "pepper" argon_time argon_memory argon_threads argon_key_len) [
            | none ↦ none
            | some got ↦ some (str_eq got key)
          ])
verify_password-hash_password_example =
    verify_password-hash_password argon argon-IsArgon "pepper" "hunter22" hunter_hash hunter_hashed

-- The database with a third account.
abbrev joined : Database (ℕ × ℕ)
joined = record accounts {
  users =
      accounts.users
      ++ (record { id = pos 3; username = "carl"; password_hash = hunter_hash; created_at = pos 5 }
          ∷ []);
  last_user = 3;
}

carl_added :
    add_user argon (pos 5) "" (some "hunter22 ") (some "pepper") "carl" accounts ≡ ok joined
unfolding add_user create_user hash_password hash_prefix concat escape trim_space to_lower
carl_added = refl

carl_chose : chosen_password "" (some "hunter22 ") ≡ some "hunter22"
unfolding chosen_password trim_space
carl_chose = refl

carl_bare : trim_space "carl" ≡ "carl"
unfolding trim_space
carl_bare = refl

add_user-handle_login_example :
    (8 ≤ len "hunter22")
    × ((handle_login
          (crypto_of argon (λ token. token))
          guarded
          (pos 6)
          (some "t9")
          (some (record { username = "carl"; password = "hunter22" }))
          joined).1.body
        ≡ reply 200 "carl")
add_user-handle_login_example =
    add_user-handle_login argon argon-IsArgon guarded (λ token. token) (pos 5) (pos 6) "" "t9"
      "carl" "hunter22" (some "hunter22 ") (some "pepper") accounts joined carl_added carl_chose
      carl_bare refl

-- Settings that neither the environment nor a file has.
abbrev bare_viper : Viper
bare_viper = record {
  State = List (String × Setting);
  set_default = insert;
  automatic_env = λ prefix s. s;
  read_in_config = λ s. not_found;
  get = lookup;
  to_string = λ x. "";
  to_int = λ x. elim x [ some (number n) ↦ n | _ ↦ pos 0 ];
  to_duration = λ x. pos 0;
  to_bool = λ x. elim x [ some (flag b) ↦ b | _ ↦ false ];
  to_string_slice = λ x. elim x [ some (texts xs) ↦ xs | _ ↦ [] ];
}

bare-IsViper : IsViper bare_viper
bare-IsViper = record {
  own = λ key s. none;
  default_of = lookup;
  get_lem = λ section name s one two clear. refl;
  default-set = λ key other x s. lookup-insert key other x s;
  default-env = λ key prefix s. refl;
  default-read = λ key s t e. absurd (ground arith);
  int = λ n. refl;
  bool = λ b. refl;
  slice = λ xs. refl;
}

bare_loaded : loaded bare_viper [] ≡ some (prepared bare_viper [])
unfolding loaded
bare_loaded = refl

load-validate_example :
    (c : Config) × (load bare_viper [] ≡ some c)
    × (validate c ≡ ok tt)
    × (c.api.auth_enabled ≡ true)
unfolding bare-IsViper
load-validate_example =
    load-validate bare_viper bare-IsViper [] (prepared bare_viper []) bare_loaded
      (refl, (refl, (refl, (refl, tt)))) refl refl refl refl

abbrev empty_server : Server (ℕ × ℕ)
empty_server = record {
  nodes = new_node_manager;
  distributor = record { active_tests = [] };
  aggregator = new_metrics_aggregator;
}

-- The answer to the first attempt comes too late, and the second does not reach the orchestrator.
abbrev third_lands : ℕ → Outcome
third_lands attempt =
    if attempt == 1 then late false else if attempt == 2 then unreachable else answered false

abbrev worker_one : RegisterWorkerRequest
worker_one = record { worker_id = "w1"; address = "h:50052"; max_vus = pos 4; metadata = [] }

abbrev third_try : Registration (Server (ℕ × ℕ))
third_try = register_with_orchestrator (call (λ s n. n) third_lands pos worker_one) empty_server

register_with_orchestrator-IsNode_example :
    (third_try.registered ≡ true)
    × (third_try.calls ≡ 3)
    × (third_try.sleeps + 1 ≡ 3)
    × (get_node third_try.state.nodes "w1" ≡ some (node_at pos worker_one 3))
register_with_orchestrator-IsNode_example =
    register_with_orchestrator-IsNode (λ s n. n) third_lands pos worker_one empty_server

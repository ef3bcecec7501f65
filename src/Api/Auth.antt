-- ===== src/Api/Auth.antt =====
-- internal/api/auth.go: sessions and the first account. Argon2id, the hash of a token, the random
-- token, the decoder of the body and the clock, which counts nanoseconds, are parameters.
pub mod Sessions
use go_sentinel.Base.{
  ℕ, ◌*◌, ◌+◌, String, List, [], ◌∷◌, Option, none, some, Bool, true, false, not, ◌||◌, str_eq, ltb,
  if◌then◌else◌,
}
use go_sentinel.Base.Int.{ℤ, pos, negsuc, ◌+ℤ◌, quot, wrap64}
use go_sentinel.Base.Result.{Result, ok, err}
use go_sentinel.Base.Text.{trim_space}
use go_sentinel.Store.{User, Database, StoreError}
use go_sentinel.Store.Users.{
  get_user_by_name, create_user, count_users, create_session, user_for_session, delete_session,
}
use go_sentinel.Orchestrator.Server.{unix_milli}
use go_sentinel.Api.Reply.{Reply, reply, refuse, no_content}

pub record AuthConfig : Type 0 where
  pub enabled : Bool
  pub session_ttl : ℤ
  pub secure_cookies : Bool

-- The cookie that a handler sets: its value and its age in seconds.
pub record Cookie : Type 0 where
  pub value : String
  pub secure : Bool
  pub max_age : ℤ

pub record LoginRequest : Type 0 where
  pub username : String
  pub password : String

-- hashToken, and VerifyPassword of a password and an encoded hash.
pub record Crypto : Type 0 where
  pub hash_token : String → String
  pub verify_password : String → String → Bool

abbrev pub second : ℤ
second = pos 1000000000

unfoldable pub session_cookie_value : AuthConfig → String → ℤ → Cookie
session_cookie_value auth token max_age = record {
  value = token;
  secure = auth.secure_cookies;
  max_age = max_age;
}

abbrev pub clear_cookie : AuthConfig → Cookie
unfolding session_cookie_value
clear_cookie auth = session_cookie_value auth "" (negsuc 0)

-- A response: the cookie that it sets, and what is written.
pub record Response (B : Type 0) : Type 0 where
  pub cookie : Option Cookie
  pub body : Reply B

abbrev pub plain : {B : Type 0} → Reply B → Response B
plain body = record { cookie = none; body = body }

-- The value of the request's cookie, where it has one that is not empty.
abbrev pub token_of : Option String → Option String
token_of none = none
token_of (some token) = if str_eq token "" then none else some token

module _ {F : Type 0} (c : Crypto) (auth : AuthConfig) where
  open c use {hash_token, verify_password}

  -- What the wrapped handler runs with: the user of the request's context, where it has one; or the
  -- response in its place.
  unfoldable pub require_auth :
      Option String → ℤ → Database F → Result (Response (Unit {0})) (Option User)
  unfolding session_cookie_value
  require_auth cookie now db = if not auth.enabled then ok none else elim (token_of cookie) [
    | none ↦ err (plain (refuse 401))
    | some token ↦ elim (user_for_session (hash_token token) (unix_milli now) db) [
      | err e ↦ err (record { cookie = some (clear_cookie auth); body = refuse 401 })
      | ok user ↦ ok (some user)
    ]
  ]

  -- The new session of a user whose password was right; the answer has the user's name.
  unfoldable pub open_session : ℤ → Option String → User → Database F → Database F × Response String
  unfolding session_cookie_value
  open_session now none user db = (db, plain (refuse 500))
  open_session now (some token) user db =
      elim (create_session (hash_token token) user.id (unix_milli (now +ℤ auth.session_ttl)) db) [
        | err e ↦ (db, plain (refuse 500))
        | ok after ↦ (
          after,
          record {
            cookie = some (session_cookie_value auth token (quot auth.session_ttl second));
            body = reply 200 user.username;
          },
        )
      ]

  unfoldable pub handle_login :
      ℤ → Option String → Option LoginRequest → Database F → Database F × Response String
  unfolding open_session
  handle_login now token none db = (db, plain (refuse 400))
  handle_login now token (some req) db = elim (get_user_by_name (trim_space req.username) db) [
    | err e ↦ (db, plain (refuse 401))
    | ok user ↦
        if not (verify_password req.password user.password_hash)
        then (db, plain (refuse 401))
        else open_session now token user db
  ]

  unfoldable pub handle_logout : Option String → Database F → Database F × Response (Unit {0})
  unfolding session_cookie_value
  handle_logout cookie db = (
    elim (token_of cookie) [ none ↦ db | some token ↦ delete_session (hash_token token) db ],
    record { cookie = some (clear_cookie auth); body = no_content },
  )

  -- Whether a login is required, and the name of the user where one is signed in.
  unfoldable pub handle_me : Option String → ℤ → Database F → Bool × Option String
  handle_me cookie now db = if not auth.enabled then (false, none) else elim (token_of cookie) [
    | none ↦ (true, none)
    | some token ↦ elim (user_for_session (hash_token token) (unix_milli now) db) [
      | err e ↦ (true, none)
      | ok user ↦ (true, some user.username)
    ]
  ]

-- The errors of BootstrapUser.
pub data BootstrapError : Type 0 where
  no_credentials : BootstrapError
  hash_failed : BootstrapError
  of_store : StoreError → BootstrapError

-- `hash` is what HashPassword returns. The result says whether an account was created.
unfoldable pub bootstrap_user :
    {F : Type 0}
    → ℤ
    → Option String
    → String
    → String
    → Database F
    → Result BootstrapError (Database F × Bool)
bootstrap_user now hash username password db =
    if ltb 0 (count_users db)
    then ok (db, false)
    else (if str_eq username "" || str_eq password "" then err no_credentials else elim hash [
      | none ↦ err hash_failed
      | some h ↦ elim (create_user (unix_milli now) username h db) [
        | err e ↦ err (of_store e)
        | ok made ↦ ok (made.0, true)
      ]
    ])

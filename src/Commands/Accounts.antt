-- ===== src/Commands/Accounts.antt =====
-- cmd/api/main.go: addUser. `env` is GOSENTINEL_ADMIN_PASSWORD, `line` the line of the standard
-- input, none where it cannot be read.
pub mod Login
use Prim.Native.String.{len}
use go_sentinel.Base.{String, Option, none, some, str_eq, ltb, if◌then◌else◌}
use go_sentinel.Base.Int.{ℤ}
use go_sentinel.Base.Result.{Result, ok, err}
use go_sentinel.Base.Text.{trim_space}
use go_sentinel.Store.{Database, StoreError}
use go_sentinel.Store.Users.{create_user}
use go_sentinel.Api.Passwords.{Argon, hash_password}

pub data AddError : Type 0 where
  no_input too_short hash_failed : AddError
  of_store : StoreError → AddError

unfoldable pub chosen_password : String → Option String → Option String
chosen_password env none = if str_eq env "" then none else some env
chosen_password env (some line) = if str_eq env "" then some (trim_space line) else some env

-- `salt` is none where no random bytes can be read, `now` the default of the column created_at.
unfoldable pub add_user :
    {F : Type 0}
    → Argon
    → ℤ
    → String
    → Option String
    → Option String
    → String
    → Database F
    → Result AddError (Database F)
unfolding chosen_password
add_user a now env line salt username db = elim (chosen_password env line) [
  | none ↦ err no_input
  | some password ↦
      if ltb (len password) 8 then err too_short else elim (hash_password a salt password) [
        | none ↦ err hash_failed
        | some hash ↦ elim (create_user now username hash db) [
          | err e ↦ err (of_store e)
          | ok made ↦ ok made.0
        ]
      ]
]

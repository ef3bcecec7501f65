-- ===== src/Api/Routes.antt =====
-- internal/api/server.go: Routes. The pattern of a request is what net/http's ServeMux matches; the
-- embedded frontend takes what no pattern of the API matches.
pub mod Guarded
use go_sentinel.Base.{String, List, [], ◌∷◌, Option, none, some, Bool, true, false}
use go_sentinel.Base.Int.{ℤ}
use go_sentinel.Base.Dict.{Dict, lookup}
use go_sentinel.Base.Result.{Result, ok, err}
use go_sentinel.Store.{User, Database}
use go_sentinel.Api.Auth.{AuthConfig, Crypto, Response, require_auth}

-- A handler by the name of its function, and the frontend.
pub data Handler : Type 0 where
  health me login logout : Handler
  workers start_run list_runs run_status delete_run run_series stop_run stream_run : Handler
  list_plans create_plan update_plan delete_plan : Handler
  list_users create_user delete_user : Handler
  frontend : Handler

abbrev pub unprotected : Dict Handler
unprotected =
    ("GET /api/health", health)
    ∷ ("GET /api/auth/me", me)
    ∷ ("POST /api/auth/login", login)
    ∷ ("POST /api/auth/logout", logout)
    ∷ []

abbrev pub protected : Dict Handler
protected =
    ("GET /api/workers", workers)
    ∷ ("POST /api/runs", start_run)
    ∷ ("GET /api/runs", list_runs)
    ∷ ("GET /api/runs/{id}", run_status)
    ∷ ("DELETE /api/runs/{id}", delete_run)
    ∷ ("GET /api/runs/{id}/series", run_series)
    ∷ ("POST /api/runs/{id}/stop", stop_run)
    ∷ ("GET /api/runs/{id}/stream", stream_run)
    ∷ ("GET /api/plans", list_plans)
    ∷ ("POST /api/plans", create_plan)
    ∷ ("PUT /api/plans/{id}", update_plan)
    ∷ ("DELETE /api/plans/{id}", delete_plan)
    ∷ ("GET /api/users", list_users)
    ∷ ("POST /api/users", create_user)
    ∷ ("DELETE /api/users/{id}", delete_user)
    ∷ []

module _ {F : Type 0} (c : Crypto) (auth : AuthConfig) where
  -- A handler behind requireAuth.
  unfoldable pub guard :
      Handler
      → Option String
      → ℤ
      → Database F
      → Result (Response (Unit {0})) (Handler × Option User)
  guard handler cookie now db = elim (require_auth c auth cookie now db) [
    | err response ↦ err response
    | ok user ↦ ok (handler, user)
  ]

  -- The handler that runs for a request, with the user that its context has; or the response in its
  -- place.
  unfoldable pub serve :
      String → Option String → ℤ → Database F → Result (Response (Unit {0})) (Handler × Option User)
  unfolding guard
  serve pattern cookie now db = elim (lookup pattern unprotected) [
    | some handler ↦ ok (handler, none)
    | none ↦ elim (lookup pattern protected) [
      | some handler ↦ guard handler cookie now db
      | none ↦ ok (frontend, none)
    ]
  ]

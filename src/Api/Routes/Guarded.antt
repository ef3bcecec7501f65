-- ===== src/Api/Routes/Guarded.antt =====
-- What runs without a session.
use mathlib.Core.Path.{subst}
use go_sentinel.Base.{
  String, [], ◌∷◌, Option, none, some, Bool, true, false, str_eq, All, ◌≡◌, ◌⊎◌, refl, sym, ap, ◌∙◌,
  arith, inl, inr, Option-cases, Bool-cases,
}
use go_sentinel.Base.Int.{ℤ}
use go_sentinel.Base.Dict.{Dict, lookup}
use go_sentinel.Base.Result.{Result, ok, err, Result-cases}
use go_sentinel.Store.{User, Database}
use go_sentinel.Store.Users.{user_for_session}
use go_sentinel.Orchestrator.Server.{unix_milli}
use go_sentinel.Api.Auth.{AuthConfig, Crypto, Response, require_auth, token_of}
use go_sentinel.Api.Routes.{
  Handler, health, me, login, logout, frontend, unprotected, protected, guard, serve,
}

-- The handlers that neither read data nor drive the fleet.
abbrev pub is_public : Handler → Bool
is_public health = true
is_public me = true
is_public login = true
is_public logout = true
is_public frontend = true
is_public handler = false

some_handler : {a b : Handler} → Path (Option Handler) (some a) (some b) → a ≡ b
some_handler e = ground arith

lookup-All :
    (key : String) (routes : Dict Handler) (b : Bool) (handler : Handler)
    → All (λ e. is_public e.1 ≡ b) routes
    → lookup key routes ≡ some handler
    → is_public handler ≡ b
unfolding lookup
lookup-All key [] b handler h e = absurd (ground arith)
lookup-All key (r ∷ routes) b handler h e = elim (Bool-cases (str_eq r.0 key)) [
  | inl k ↦ subst (λ h. is_public h ≡ b) (some_handler (rw k at e)) h.0
  | inr k ↦ lookup-All key routes b handler h.1 (rw k at e)
]

abbrev Outcome : Type 0
Outcome = Result (Response (Unit {0})) (Handler × Option User)

served :
    {h k : Handler} {u v : Option User} → Path Outcome (ok (h, u)) (ok (k, v)) → (h ≡ k) × (u ≡ v)
served e = (ground arith, ground arith)

refused :
    {r : Response (Unit {0})} {k : Handler} {v : Option User} → Path Outcome (err r) (ok (k, v)) → ⊥
refused e = ground arith

abbrev Passed : Type 0
Passed = Result (Response (Unit {0})) (Option User)

passed : {u v : Option User} → Path Passed (ok u) (ok v) → u ≡ v
passed e = ground arith

stopped : {r : Response (Unit {0})} {v : Option User} → Path Passed (err r) (ok v) → ⊥
stopped e = ground arith

public_at :
    {h k : Handler} {v : Option User}
    → is_public h ≡ true
    → Path Outcome (ok (h, none)) (ok (k, v))
    → (is_public k ≡ true) × (v ≡ none)
public_at p e = (ap is_public (sym (served e).0) ∙ p, sym (served e).1)

all_private : All (λ (e : String × Handler). is_public e.1 ≡ false) protected
all_private = (
  refl,
  (
    refl,
    (
      refl,
      (
        refl,
        (refl, (refl, (refl, (refl, (refl, (refl, (refl, (refl, (refl, (refl, (refl, tt))))))))))),
      ),
    ),
  ),
)

module _ {F : Type 0} (c : Crypto) (auth : AuthConfig) where
  -- The request has the token of a live session of the user.
  abbrev pub IsUser : Option String → ℤ → Database F → User → Type 0
  IsUser cookie now db u =
      (token : String) × (token_of cookie ≡ some token)
      × (user_for_session (c.hash_token token) (unix_milli now) db ≡ ok u)

  require_auth-IsUser :
      (cookie : Option String) (now : ℤ) (db : Database F) (user : Option User)
      → auth.enabled ≡ true
      → require_auth c auth cookie now db ≡ ok user
      → (u : User) × (user ≡ some u) × IsUser cookie now db u
  unfolding require_auth
  require_auth-IsUser cookie now db user on e = elim (Option-cases (token_of cookie)) [
    | inl n ↦ absurd (stopped (rw (require_auth, on, n) at e))
    | inr (token, t) ↦
        elim (Result-cases (user_for_session (c.hash_token token) (unix_milli now) db)) [
          | inr (x, f) ↦ absurd (stopped (rw (require_auth, on, t, f) at e))
          | inl (u, f) ↦ (u, sym (passed (rw (require_auth, on, t, f) at e)), (token, t, f))
        ]
  ]

  -- Authentication being on, a request reaches a handler that reads data or drives the fleet only
  -- with the token of a session that has not expired, and the handler then runs as the user that the
  -- session stands for; every other handler runs without a user.
  pub serve-IsUser :
      (pattern : String) (cookie : Option String) (now : ℤ) (db : Database F) (handler : Handler)
      (user : Option User)
      → auth.enabled ≡ true
      → serve c auth pattern cookie now db ≡ ok (handler, user)
      → ((is_public handler ≡ true) × (user ≡ none))
        ⊎ ((is_public handler ≡ false) × ((u : User) × (user ≡ some u) × IsUser cookie now db u))
  unfolding serve guard
  serve-IsUser pattern cookie now db handler user on e =
      elim (Option-cases (lookup pattern unprotected)) [
        | inr (h, l) ↦ inl (
            public_at (lookup-All pattern unprotected true h (refl, (refl, (refl, (refl, tt)))) l)
              (rw (serve, l) at e))
        | inl n ↦ elim (Option-cases (lookup pattern protected)) [
          | inl n2 ↦ inl (public_at refl (rw (serve, n, n2) at e))
          | inr (h, l) ↦ elim (Result-cases (require_auth c auth cookie now db)) [
            | inr (x, f) ↦ absurd (refused (rw (serve, n, l, guard, f) at e))
            | inl (u, f) ↦
                let (same, as') = served (rw (serve, n, l, guard, f) at e) in
                let closed = lookup-All pattern protected false h all_private l in
                inr (
                  ap is_public (sym same) ∙ closed,
                  rw (← as') (require_auth-IsUser cookie now db u on f),
                )
          ]
        ]
      ]

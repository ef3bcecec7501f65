-- ===== src/Api/Auth/Sessions.antt =====
-- A login and the requests that follow it.
use go_sentinel.Base.{
  ℕ, String, List, [], ◌∷◌, some, true, false, str_eq, eq_iff, any, ◌≡◌, ◌≢◌, refl, ◌∙◌, arith,
  Bool-cases, inl, inr,
}
use go_sentinel.Base.Int.{ℤ, ◌+ℤ◌, ltb_ℤ, eqb_ℤ_iff, eqb_ℤ-refl}
use go_sentinel.Base.Result.{Result, ok, err, ok_inj, Result-cases}
use go_sentinel.Base.Text.{trim_space}
use go_sentinel.Store.{User, Database, StoreError, not_found}
use go_sentinel.Store.Table.{select_row}
use go_sentinel.Store.Table.Rows.{select_row-some}
use go_sentinel.Store.Runs.{scanned}
use go_sentinel.Store.Users.{
  get_user_by_name, create_session, user_for_session, has_user_id, has_name,
}
use go_sentinel.Store.Users.Sessions.{create_session-IsSignedIn}
use go_sentinel.Orchestrator.Server.{unix_milli}
use go_sentinel.Api.Reply.{Reply, reply, refuse}
use go_sentinel.Api.Auth.{
  AuthConfig, Crypto, LoginRequest, clear_cookie, require_auth, handle_login, open_session,
  session_cookie_value,
}

-- A user that is found by name is found by id.
found_by_id :
    (name : String) (u : User) (users : List User)
    → scanned (select_row (has_name name) users) ≡ ok u
    → any (has_user_id u.id) users ≡ true
unfolding select_row
found_by_id name u [] e = absurd (ground arith)
found_by_id name u (v ∷ users) e = elim (Bool-cases (has_name name v)) [
  | inl n ↦ rw (found v u (rw n at e), eqb_ℤ-refl u.id) refl
  | inr n ↦ ground (arith, found_by_id name u users (rw n at e))
]
  where
    found : (v u : User) → Path (Result StoreError User) (ok v) (ok u) → v ≡ u
    found v u e = ok_inj e

refused : {B : Type 0} {b : B} {m n : ℕ} → Path (Reply B) (refuse m) (reply n b) → ⊥
refused e = ground arith

reply_inj : {B : Type 0} {a b : B} {m n : ℕ} → Path (Reply B) (reply m a) (reply n b) → a ≡ b
reply_inj e = ground arith

module _ {F : Type 0} (c : Crypto) (auth : AuthConfig) where
  -- The session of a user, from the time of its login on.
  pub record IsLogin (now : ℤ) (token : String) (u : User) (after : Database F) : Type 0 where
    pub live :
        (later : ℤ)
        → ltb_ℤ (unix_milli later) (unix_milli (now +ℤ auth.session_ttl)) ≡ true
        → (v : User) × (require_auth c auth (some token) later after ≡ ok (some v)) × (v.id ≡ u.id)
    pub expired :
        (later : ℤ)
        → ltb_ℤ (unix_milli later) (unix_milli (now +ℤ auth.session_ttl)) ≡ false
        → require_auth c auth (some token) later after
          ≡ err (record { cookie = some (clear_cookie auth); body = refuse 401 })

  auth-ok :
      (later : ℤ) (token : String) (db : Database F) (v : User)
      → auth.enabled ≡ true
      → str_eq token "" ≡ false
      → user_for_session (c.hash_token token) (unix_milli later) db ≡ ok v
      → require_auth c auth (some token) later db ≡ ok (some v)
  unfolding require_auth
  auth-ok later token db v on named e = rw (require_auth, on, named, e) refl

  auth-err :
      (later : ℤ) (token : String) (db : Database F)
      → auth.enabled ≡ true
      → str_eq token "" ≡ false
      → user_for_session (c.hash_token token) (unix_milli later) db ≡ err not_found
      → require_auth c auth (some token) later db
        ≡ err (record { cookie = some (clear_cookie auth); body = refuse 401 })
  unfolding require_auth session_cookie_value
  auth-err later token db on named e = rw (require_auth, on, named, e) refl

  -- A session that CreateSession made for a user that is in the table.
  created-IsLogin :
      (now : ℤ) (token : String) (u : User) (db after : Database F)
      → auth.enabled ≡ true
      → str_eq token "" ≡ false
      → any (has_user_id u.id) db.users ≡ true
      → create_session (c.hash_token token) u.id (unix_milli (now +ℤ auth.session_ttl)) db
        ≡ ok after
      → IsLogin now token u after
  created-IsLogin now token u db after on named found made =
      let (v, row, own) = select_row-some (has_user_id u.id) db.users found in
      let signed = rw made at (
        create_session-IsSignedIn (c.hash_token token) u.id (unix_milli (now +ℤ auth.session_ttl))
          db) in
      let same = (eq_iff (c.hash_token token) (c.hash_token token)).1 refl in
      record {
        live = λ later e. (
          v,
          auth-ok later token after v on named
              (signed (c.hash_token token) (unix_milli later) ∙ rw (same, e, row) refl),
          (eqb_ℤ_iff v.id u.id).0 own,
        );
        expired = λ later e.
            auth-err later token after on named
              (signed (c.hash_token token) (unix_milli later) ∙ rw (same, e) refl);
      }

  opened-IsLogin :
      (now : ℤ) (token name : String) (u : User) (db : Database F)
      → auth.enabled ≡ true
      → token ≢ ""
      → any (has_user_id u.id) db.users ≡ true
      → (open_session c auth now (some token) u db).1.body ≡ reply 200 name
      → (u.username ≡ name) × IsLogin now token u (open_session c auth now (some token) u db).0
  unfolding open_session
  opened-IsLogin now token name u db on named found r =
      elim (Result-cases
        (create_session (c.hash_token token) u.id (unix_milli (now +ℤ auth.session_ttl)) db)) [
          | inl (after, e) ↦
              rw (open_session, e)
                (
                  reply_inj (rw (open_session, e) at r),
                  created-IsLogin now token u db after on (other token named) found e,
                )
          | inr (x, e) ↦ absurd (refused (rw (open_session, e) at r))
        ]
    where
      other : (t : String) → t ≢ "" → str_eq t "" ≡ false
      other t n = ground (arith, eq_iff t "")

  -- Authentication being on and the token that a login draws not empty: a login that answers 200 had
  -- the name of a user of the table and a password that is verified against the user's hash, and
  -- answers that user's name; from then on a request with the token as its cookie passes with a user
  -- of that id until the session's time to live is over, and is then refused with 401 and a cleared
  -- cookie.
  pub handle_login-require_auth :
      (now : ℤ) (token name : String) (req : LoginRequest) (db : Database F)
      → auth.enabled ≡ true
      → token ≢ ""
      → (handle_login c auth now (some token) (some req) db).1.body ≡ reply 200 name
      → (u : User) × (get_user_by_name (trim_space req.username) db ≡ ok u)
        × (c.verify_password req.password u.password_hash ≡ true)
        × (u.username ≡ name)
        × IsLogin now token u (handle_login c auth now (some token) (some req) db).0
  unfolding handle_login get_user_by_name
  handle_login-require_auth now token name req db on named r =
      elim (Result-cases (get_user_by_name (trim_space req.username) db)) [
        | inr (x, e) ↦ absurd (refused (rw (handle_login, e) at r))
        | inl (u, e) ↦ elim (Bool-cases (c.verify_password req.password u.password_hash)) [
          | inr v ↦ absurd (refused (rw (handle_login, e, v) at r))
          | inl v ↦
              let (same, login) =
                opened-IsLogin now token name u db on named
                  (found_by_id (trim_space req.username) u db.users e)
                  (rw (handle_login, e, v) at r) in
              rw (handle_login, e, v) (u, refl, v, same, login)
        ]
      ]

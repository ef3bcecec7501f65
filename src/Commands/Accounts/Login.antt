-- ===== src/Commands/Accounts/Login.antt =====
-- An account from the command line, and the login with it.
use Prim.Native.String.{len}
use text.Mathlib.TextPositions.{eq_refl}
use go_sentinel.Base.{
  ◌+◌, ◌≤◌, String, List, [], ◌∷◌, ◌++◌, Option, none, some, Bool, true, false, str_eq, ltb, not,
  ◌&&◌, any, ◌≡◌, refl, ap, ◌∙◌, inl, inr, arith, Option-cases, Bool-cases,
}
use go_sentinel.Base.Int.{ℤ, pos, eqb_ℤ-refl, ◌+ℤ◌}
use go_sentinel.Base.Result.{Result, ok, err, Result-cases, ok_inj}
use go_sentinel.Base.Text.{trim_space, to_lower}
use go_sentinel.Store.{User, Database}
use go_sentinel.Store.Users.{create_user, get_user_by_name, create_session, has_user_id}
use go_sentinel.Store.Users.Sessions.{create_user-IsNamed, create_session-IsSignedIn}
use go_sentinel.Orchestrator.Server.{unix_milli}
use go_sentinel.Api.Reply.{reply}
use go_sentinel.Api.Auth.{AuthConfig, Crypto, open_session, handle_login}
use go_sentinel.Api.Passwords.{Argon, hash_password, verify_password}
use go_sentinel.Api.Passwords.Verified.{IsArgon, verify_password-hash_password}
use go_sentinel.Commands.Accounts.{AddError, add_user, chosen_password}

-- VerifyPassword as the handler of a login sees it.
abbrev pub verified : Option Bool → Bool
verified none = false
verified (some b) = b

abbrev pub crypto_of : Argon → (String → String) → Crypto
crypto_of a hash_token = record {
  hash_token = hash_token;
  verify_password = λ password hash. verified (verify_password a password hash);
}

any-last : (u : User) (users : List User) → any (has_user_id u.id) (users ++ (u ∷ [])) ≡ true
any-last u [] = rw (eqb_ℤ-refl u.id) refl
any-last u (v ∷ users) = ground (arith, any-last u users)

module _ {F : Type 0} where
  -- What CreateUser makes of the tables.
  record IsMade (db : Database F) (username : String) (hash : String) (after : Database F)
      (u : User) : Type 0 where
    named : get_user_by_name username after ≡ ok u
    spelled : u.username ≡ username
    hashed : u.password_hash ≡ hash
    present : any (has_user_id u.id) after.users ≡ true
    kept : after.sessions ≡ db.sessions

  created :
      (now : ℤ) (username hash : String) (db : Database F) (made : Database F × User)
      → create_user now username hash db ≡ ok made
      → (made.1.password_hash ≡ hash)
        × (any (has_user_id made.1.id) made.0.users ≡ true)
        × (made.0.sessions ≡ db.sessions)
  unfolding create_user
  created now username hash db made e =
      let user : User = record {
        id = pos (db.last_user + 1);
        username = username;
        password_hash = hash;
        created_at = now;
      } in
      (ground arith, ground (arith, any-last user db.users), ground arith)

  create_user-IsMade :
      (now : ℤ) (username hash : String) (db : Database F) (made : Database F × User)
      → create_user now username hash db ≡ ok made
      → IsMade db username hash made.0 made.1
  create_user-IsMade now username hash db made e =
      let (h, p, k) = created now username hash db made e in
      let (s, n) = rw e at (create_user-IsNamed now username hash db) in
      record {
        named = n username ∙ rw (eq_refl (to_lower username)) refl;
        spelled = s;
        hashed = h;
        present = p;
        kept = k;
      }

taken : {b c : Bool} → (b && not c) ≡ false → b ≡ true → c ≡ false → ⊥
taken e p q = ground arith

own_password :
    (a : Argon)
    → IsArgon a
    → (salt : Option String) (password hash : String) → hash_password a salt password ≡ some hash
    → verify_password a password hash ≡ some true
unfolding hash_password
own_password a is none password hash e = absurd (ground arith)
own_password a is (some salt) password hash e =
    (verify_password-hash_password a is salt password hash e).2

module _ {F : Type 0} (a : Argon) (is : IsArgon a) (auth : AuthConfig)
    (hash_token : String → String) where
  opens :
      (now : ℤ) (token username hash : String) (u : User) (db after : Database F)
      → IsMade db username hash after u
      → any (λ s. str_eq (hash_token token) s.token_hash) db.sessions ≡ false
      → (open_session (crypto_of a hash_token) auth now (some token) u after).1.body
        ≡ reply 200 username
  unfolding open_session
  opens now token username hash u db after m fresh =
      elim (Result-cases
        (create_session (hash_token token) u.id (unix_milli (now +ℤ auth.session_ttl)) after)) [
          | inl (opened, e) ↦ rw (open_session, e) (ap (reply 200) m.spelled)
          | inr (x, e) ↦ absurd (
              taken
                (rw e at (
                  create_session-IsSignedIn (hash_token token) u.id
                    (unix_milli (now +ℤ auth.session_ttl)) after)).1
                m.present (rw m.kept fresh))
        ]

  logs_in :
      (now : ℤ) (token username password hash : String) (u : User) (db after : Database F)
      → IsMade db username hash after u
      → verify_password a password hash ≡ some true
      → trim_space username ≡ username
      → any (λ s. str_eq (hash_token token) s.token_hash) db.sessions ≡ false
      → (handle_login
          (crypto_of a hash_token)
          auth
          now
          (some token)
          (some (record { username = username; password = password }))
          after).1.body
        ≡ reply 200 username
  unfolding handle_login
  logs_in now token username password hash u db after m right bare fresh =
      let found : get_user_by_name (trim_space username) after ≡ ok u =
        ap (λ n. get_user_by_name n after) bare ∙ m.named in
      let passes : verified (verify_password a password u.password_hash) ≡ true =
        rw m.hashed (ap verified right) in
      rw (handle_login, found, passes) (opens now token username hash u db after m fresh)

  failed :
      {e : AddError} {after : Database F}
      → Path (Result AddError (Database F)) (err e) (ok after)
      → ⊥
  failed e = ground arith

  -- Under the laws of Argon2id and base64: an account that `addUser` makes, for a name without white
  -- space around it, can log in under that name with the password that was given, from the
  -- environment as it is or from the standard input without the white space around it, where the
  -- token that is drawn is not one of a session.
  pub add_user-handle_login :
      (made_at now : ℤ) (env token username password : String) (line salt : Option String)
      (db after : Database F)
      → add_user a made_at env line salt username db ≡ ok after
      → chosen_password env line ≡ some password
      → trim_space username ≡ username
      → any (λ s. str_eq (hash_token token) s.token_hash) db.sessions ≡ false
      → (8 ≤ len password)
        × ((handle_login
              (crypto_of a hash_token)
              auth
              now
              (some token)
              (some (record { username = username; password = password }))
              after).1.body
            ≡ reply 200 username)
  unfolding add_user
  add_user-handle_login made_at now env token username password line salt db after added chosen bare
        fresh =
      elim (Bool-cases (ltb (len password) 8)) [
        | inl short ↦ absurd (failed (rw (add_user, chosen, short) at added))
        | inr long ↦ elim (Option-cases (hash_password a salt password)) [
          | inl n ↦ absurd (failed (rw (add_user, chosen, long, n) at added))
          | inr (hash, h) ↦ elim (Result-cases (create_user made_at username hash db)) [
            | inr (x, e) ↦ absurd (failed (rw (add_user, chosen, long, h, e) at added))
            | inl (made, e) ↦
                let same : made.0 ≡ after = ok_inj (rw (add_user, chosen, long, h, e) at added) in
                (
                  ground arith,
                  rw (← same) (
                      logs_in now token username password hash made.1 db made.0
                        (create_user-IsMade made_at username hash db made e)
                        (own_password a is salt password hash h) bare fresh),
                )
          ]
        ]
      ]

-- ===== src/Api/Accounts.antt =====
-- internal/api/users.go: the accounts. `current` is the user of the request, none where
-- authentication is off.
use go_sentinel.Base.{
  ℕ, String, List, Option, none, some, Bool, true, false, str_eq, ltb, leb, if◌then◌else◌, ◌≡◌,
  refl, arith, any, Bool-cases, inl, inr, [], ◌∷◌, ◌==◌,
}
use go_sentinel.Base.Int.{ℤ, eqb_ℤ, eqb_ℤ_iff}
use go_sentinel.Base.Result.{Result, ok, err}
use go_sentinel.Base.Text.{trim_space}
use go_sentinel.Store.{User, Database, StoreError, not_found, constraint_failed}
use go_sentinel.Store.Table.{delete_rows, affected}
use go_sentinel.Store.Runs.{or_same}
use go_sentinel.Store.Users.{
  get_user_by_name, create_user, count_users, list_users, delete_user, has_user_id,
}
use go_sentinel.Orchestrator.Server.{unix_milli}
use go_sentinel.Api.Auth.{LoginRequest}
use go_sentinel.Api.Reply.{Reply, reply, refuse, no_content}

abbrev pub min_password_length : ℕ
min_password_length = 8

-- 404 for ErrNotFound, else 500
abbrev pub refusal_of : {B : Type 0} → StoreError → Reply B
refusal_of not_found = refuse 404
refusal_of constraint_failed = refuse 500

abbrev pub is_own : Option User → ℤ → Bool
is_own none id = false
is_own (some u) id = eqb_ℤ u.id id

others_stay :
    (id own : ℤ) (users : List User)
    → eqb_ℤ own id ≡ false
    → any (has_user_id own) (delete_rows (has_user_id id) users) ≡ any (has_user_id own) users
unfolding delete_rows
others_stay id own [] e = refl
others_stay id own (u ∷ users) e =
    ground
      (arith, others_stay id own users, eqb_ℤ_iff u.id id, eqb_ℤ_iff u.id own, eqb_ℤ_iff own id)

module _ {F : Type 0} where
  unfoldable pub handle_list_users : (String → String → Bool) → Database F → Reply (List User)
  handle_list_users before db = reply 200 (list_users before db)

  -- `byte_length` is `len` of a string, `hash` what HashPassword returns.
  unfoldable pub handle_create_user :
      (String → ℕ) → ℤ → Option String → Option LoginRequest → Database F → Database F × Reply User
  handle_create_user byte_length now hash none db = (db, refuse 400)
  handle_create_user byte_length now hash (some req) db =
      let username = trim_space req.username in
      if str_eq username ""
      then (db, refuse 422)
      else (if ltb (byte_length req.password) min_password_length
          then (db, refuse 422)
          else elim (get_user_by_name username db) [
            | ok taken ↦ (db, refuse 409)
            | err e ↦ elim hash [
              | none ↦ (db, refuse 500)
              | some h ↦ elim (create_user (unix_milli now) username h db) [
                | err e ↦ (db, refuse 409)
                | ok made ↦ (made.0, reply 201 made.1)
              ]
            ]
          ])

  -- `id` is what ParseInt reads from the path.
  unfoldable pub handle_delete_user :
      Option User → Option ℤ → Database F → Database F × Reply (Unit {0})
  handle_delete_user current none db = (db, refuse 400)
  handle_delete_user current (some id) db =
      if is_own current id
      then (db, refuse 409)
      else (if leb (count_users db) 1 then (db, refuse 409) else elim (delete_user id db) [
        | err e ↦ (db, refusal_of e)
        | ok after ↦ (after, no_content)
      ])

  deleted-users :
      (id own : ℤ) (db : Database F)
      → eqb_ℤ own id ≡ false
      → any (has_user_id own) (or_same db (delete_user id db)).users
        ≡ any (has_user_id own) db.users
  unfolding delete_user
  deleted-users id own db e = elim (Bool-cases (affected (has_user_id id) db.users == 0)) [
    | inl n ↦ rw (delete_user, n) refl
    | inr n ↦ rw (delete_user, n) (others_stay id own db.users e)
  ]

  after_delete :
      (db : Database F) (r : Result StoreError (Database F))
      → (elim r as (λ x. Database F × Reply (Unit {0})) [
        | err e ↦ (db, refusal_of e)
        | ok after ↦ (after, no_content)
      ]).0
        ≡ or_same db r
  after_delete db (err e) = refl
  after_delete db (ok after) = refl

  -- The account of a signed-in user survives its own requests: whatever id a user of the table asks
  -- to delete, the table still has an account with the user's id afterwards, so that it is not empty.
  handle_delete_user-own :
      (u : User) (id : Option ℤ) (db : Database F)
      → any (has_user_id u.id) db.users ≡ true
      → any (has_user_id u.id) (handle_delete_user (some u) id db).0.users ≡ true
  unfolding handle_delete_user
  handle_delete_user-own u none db h = h
  handle_delete_user-own u (some id) db h = elim (Bool-cases (eqb_ℤ u.id id)) [
    | inl e ↦ rw (handle_delete_user, e) h
    | inr e ↦ elim (Bool-cases (leb (count_users db) 1)) [
      | inl n ↦ rw (handle_delete_user, e, n) h
      | inr n ↦
          rw
            (
              handle_delete_user,
              e,
              n,
              after_delete db (delete_user id db),
              deleted-users id u.id db e,
            )
            h
    ]
  ]

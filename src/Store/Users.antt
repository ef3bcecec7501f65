-- ===== src/Store/Users.antt =====
-- internal/store/store.go: the queries of the tables `users` and `sessions`.
pub mod Sessions
use go_sentinel.Base.{
  ℕ, ◌+◌, String, List, [], ◌∷◌, ◌++◌, Option, none, some, Bool, true, false, ◌&&◌, str_eq, map,
  any, if◌then◌else◌, length,
}
use go_sentinel.Base.Int.{ℤ, pos, ltb_ℤ, leb_ℤ, eqb_ℤ}
use go_sentinel.Base.Result.{Result, ok, err}
use go_sentinel.Base.Text.{to_lower}
use go_sentinel.Store.{User, Session, Database, StoreError, not_found, constraint_failed}
use go_sentinel.Store.Table.{
  select, first_row, select_row, delete_rows, affected, order_by, insert_row,
}
use go_sentinel.Store.Runs.{unless_none, scanned}

-- COLLATE NOCASE folds the ASCII letters.
abbrev pub same_name : User → User → Bool
same_name u other = str_eq (to_lower u.username) (to_lower other.username)

abbrev pub same_token : Session → Session → Bool
same_token s other = str_eq s.token_hash other.token_hash

abbrev pub has_user_id : ℤ → User → Bool
has_user_id id u = eqb_ℤ u.id id

abbrev pub has_name : String → User → Bool
has_name username u = str_eq (to_lower u.username) (to_lower username)

abbrev pub without_hash : User → User
without_hash u = record u { password_hash = "" }

abbrev pub is_of_user : ℤ → Session → Bool
is_of_user id s = eqb_ℤ s.user_id id

-- The rows of the JOIN whose session is live.
abbrev pub is_live : String → ℤ → Session → Bool
is_live token_hash now s = str_eq s.token_hash token_hash && ltb_ℤ now s.expires_at

unfoldable pub join_user : List User → List Session → List User
join_user users [] = []
join_user users (s ∷ rest) = select (has_user_id s.user_id) users ++ join_user users rest

abbrev pub is_expired : ℤ → Session → Bool
is_expired now s = leb_ℤ s.expires_at now

module _ {F : Type 0} where
  unfoldable pub create_user :
      ℤ → String → String → Database F → Result StoreError (Database F × User)
  create_user now username password_hash db =
      let user : User = record {
        id = pos (db.last_user + 1);
        username = username;
        password_hash = password_hash;
        created_at = now;
      } in
      elim (insert_row same_name user db.users) [
        | none ↦ err constraint_failed
        | some rows ↦ ok (record db { users = rows; last_user = db.last_user + 1 }, user)
      ]

  unfoldable pub get_user_by_name : String → Database F → Result StoreError User
  get_user_by_name username db = scanned (select_row (has_name username) db.users)

  unfoldable pub count_users : Database F → ℕ
  count_users db = length db.users

  -- `before` is the order of names of the collation.
  unfoldable pub list_users : (String → String → Bool) → Database F → List User
  list_users before db =
      map without_hash (order_by (λ u other. before u.username other.username) db.users)

  -- The sessions of the user go with it, by the foreign key.
  unfoldable pub delete_user : ℤ → Database F → Result StoreError (Database F)
  delete_user id db = unless_none (affected (has_user_id id) db.users) (record db {
    users = delete_rows (has_user_id id) db.users;
    sessions = delete_rows (is_of_user id) db.sessions;
  })

  unfoldable pub create_session : String → ℤ → ℤ → Database F → Result StoreError (Database F)
  create_session token_hash user_id expires_at db =
      let session : Session = record {
        token_hash = token_hash;
        user_id = user_id;
        expires_at = expires_at;
      } in
      if any (has_user_id user_id) db.users
      then (elim (insert_row same_token session db.sessions) [
        | none ↦ err constraint_failed
        | some rows ↦ ok (record db { sessions = rows })
      ])
      else err constraint_failed

  unfoldable pub user_for_session : String → ℤ → Database F → Result StoreError User
  user_for_session token_hash now db =
      scanned (first_row (join_user db.users (select (is_live token_hash now) db.sessions)))

  unfoldable pub delete_session : String → Database F → Database F
  delete_session token_hash db = record db {
    sessions = delete_rows (λ s. str_eq s.token_hash token_hash) db.sessions;
  }

  -- The database, and the number of sessions that are gone.
  unfoldable pub purge_expired_sessions : ℤ → Database F → Database F × ℕ
  purge_expired_sessions now db = (
    record db { sessions = delete_rows (is_expired now) db.sessions },
    affected (is_expired now) db.sessions,
  )

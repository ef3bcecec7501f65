-- ===== src/Store/Users/Sessions.antt =====
-- Which user a session token stands for, after each change of the users and of the sessions.
use go_sentinel.Base.{
  String, List, [], ◌∷◌, ◌++◌, Bool, true, false, not, ◌&&◌, str_eq, eq_iff, if◌then◌else◌, ◌≡◌,
  ◌≢◌, refl, ap, arith, any, Bool-cases, inl, inr,
}
use go_sentinel.Base.Int.{ℤ, ◌≤ℤ◌, ltb_ℤ, eqb_ℤ, eqb_ℤ_iff}
use go_sentinel.Base.Result.{Result, ok, err, ok_inj}
use go_sentinel.Base.Text.{to_lower}
use go_sentinel.Store.{User, Session, Database, StoreError, not_found, constraint_failed}
use go_sentinel.Store.Table.{select, first_row, select_row, delete_rows}
use go_sentinel.Store.Table.Rows.{first_row-append, first_row-select, affected-any}
use go_sentinel.Store.Runs.{scanned}
use go_sentinel.Store.Users.{
  create_user, get_user_by_name, delete_user, create_session, user_for_session, delete_session,
  purge_expired_sessions, join_user, is_live, is_of_user, is_expired, has_user_id, has_name,
}

live-purge :
    (token_hash : String) (now later : ℤ) (sessions : List Session)
    → now ≤ℤ later
    → select (is_live token_hash later) (delete_rows (is_expired now) sessions)
      ≡ select (is_live token_hash later) sessions
unfolding select delete_rows
live-purge token_hash now later [] h = refl
live-purge token_hash now later (s ∷ rest) h = ground (arith, live-purge token_hash now later rest)

live-delete :
    (token_hash other : String) (now : ℤ) (sessions : List Session)
    → select (is_live other now) (delete_rows (λ s. str_eq s.token_hash token_hash) sessions)
      ≡ (if str_eq token_hash other then [] else select (is_live other now) sessions)
unfolding select delete_rows
live-delete token_hash other now [] = ground arith
live-delete token_hash other now (s ∷ rest) = ground (
  arith,
  live-delete token_hash other now rest,
  eq_iff s.token_hash token_hash,
  eq_iff s.token_hash other,
  eq_iff token_hash other,
)

delete-append :
    {A : Type 0} (p : A → Bool) (xs ys : List A)
    → delete_rows p (xs ++ ys) ≡ delete_rows p xs ++ delete_rows p ys
unfolding delete_rows
delete-append p [] ys = refl
delete-append p (x ∷ xs) ys = ground (arith, delete-append p xs ys)

-- Deleting the rows of a user among those that a session selects.
delete-select :
    (id key : ℤ) (users : List User)
    → delete_rows (has_user_id id) (select (has_user_id key) users)
      ≡ (if eqb_ℤ key id then [] else select (has_user_id key) users)
unfolding select delete_rows
delete-select id key [] = ground arith
delete-select id key (u ∷ users) =
    ground
      (arith, delete-select id key users, eqb_ℤ_iff u.id id, eqb_ℤ_iff u.id key, eqb_ℤ_iff key id)

select-delete :
    (id key : ℤ) (users : List User)
    → eqb_ℤ key id ≡ false
    → select (has_user_id key) (delete_rows (has_user_id id) users) ≡ select (has_user_id key) users
unfolding select delete_rows
select-delete id key [] h = refl
select-delete id key (u ∷ users) h =
    ground
      (arith, select-delete id key users, eqb_ℤ_iff u.id id, eqb_ℤ_iff u.id key, eqb_ℤ_iff key id)

-- The sessions of a deleted user are gone, so that its rows are gone from the join.
join-delete :
    (id now : ℤ) (token_hash : String) (users : List User) (sessions : List Session)
    → join_user
        (delete_rows (has_user_id id) users)
        (select (is_live token_hash now) (delete_rows (is_of_user id) sessions))
      ≡ delete_rows (has_user_id id) (join_user users (select (is_live token_hash now) sessions))
unfolding select delete_rows join_user
join-delete id now token_hash users [] = refl
join-delete id now token_hash users (s ∷ rest) = ground (
  arith,
  join-delete id now token_hash users rest,
  delete-select id s.user_id users,
  select-delete id s.user_id users,
  delete-append (has_user_id id) (select (has_user_id s.user_id) users)
      (join_user users (select (is_live token_hash now) rest)),
)

first-kept :
    (id : ℤ) (users : List User) (u : User)
    → ((scanned (first_row (delete_rows (has_user_id id) users)) ≡ ok u) → u.id ≢ id)
      × ((scanned (first_row users) ≡ ok u)
          → u.id ≢ id
          → scanned (first_row (delete_rows (has_user_id id) users)) ≡ ok u)
unfolding delete_rows
first-kept id [] u = ground arith
first-kept id (v ∷ users) u =
    ground
      (arith, first-kept id users u, eqb_ℤ_iff v.id id, ok_inj {E = StoreError} {a = v} {b = u})

live-added :
    (added : Session) (other : String) (now : ℤ) (sessions : List Session)
    → any (λ s. str_eq added.token_hash s.token_hash) sessions ≡ false
    → select (is_live other now) (sessions ++ (added ∷ [])) ≡ (
        if str_eq added.token_hash other
        then (if ltb_ℤ now added.expires_at then added ∷ [] else [])
        else select (is_live other now) sessions)
unfolding select
live-added added other now [] h = ground arith
live-added added other now (s ∷ rest) h = ground (
  arith,
  live-added added other now rest,
  eq_iff added.token_hash s.token_hash,
  eq_iff s.token_hash other,
  eq_iff added.token_hash other,
)

found-added :
    (users : List User) (added : Session)
    → first_row (join_user users (added ∷ [])) ≡ select_row (has_user_id added.user_id) users
unfolding join_user
found-added users added = ground (
  arith,
  first_row-append (select (has_user_id added.user_id) users) [],
  first_row-select (has_user_id added.user_id) users,
)

module _ {F : Type 0} where
  -- A session that is purged at some time resolves to no user from then on, so that the purge
  -- changes what no token stands for: at every time that is not earlier than the purge,
  -- UserForSession answers as it did before it, for every token.
  pub user_for_session-purge_expired_sessions :
      (token_hash : String) (now later : ℤ) (db : Database F)
      → now ≤ℤ later
      → user_for_session token_hash later (purge_expired_sessions now db).0
        ≡ user_for_session token_hash later db
  unfolding user_for_session purge_expired_sessions
  user_for_session-purge_expired_sessions token_hash now later db h =
      rw (live-purge token_hash now later db.sessions h) refl

  -- After a logout the token of the session stands for nobody, and every other token for whom it
  -- stood.
  pub user_for_session-delete_session :
      (token_hash other : String) (now : ℤ) (db : Database F)
      → user_for_session other now (delete_session token_hash db)
        ≡ (if str_eq token_hash other then err not_found else user_for_session other now db)
  unfolding user_for_session delete_session join_user
  user_for_session-delete_session token_hash other now db =
      rw (live-delete token_hash other now db.sessions) (ground arith)

  -- What a call of DeleteUser is to do.
  abbrev pub IsSignedOut : ℤ → Database F → Result StoreError (Database F) → Type 0
  IsSignedOut id db (err e) = (any (has_user_id id) db.users ≡ false) × (e ≡ not_found)
  IsSignedOut id db (ok after) =
      (any (has_user_id id) db.users ≡ true)
      × ((token_hash : String) (now : ℤ) (u : User)
          → ((user_for_session token_hash now after ≡ ok u) → u.id ≢ id)
            × ((user_for_session token_hash now db ≡ ok u)
                → u.id ≢ id
                → user_for_session token_hash now after ≡ ok u))

  -- Deleting a user succeeds exactly where the user is in the table, and signs the user out
  -- everywhere: afterwards no token stands at any time for a user with that id, and a token that
  -- stood for another user still does.
  pub delete_user-IsSignedOut : (id : ℤ) (db : Database F) → IsSignedOut id db (delete_user id db)
  unfolding delete_user user_for_session
  delete_user-IsSignedOut id db =
      rw (delete_user, affected-any (has_user_id id) db.users)
        (elim (Bool-cases (any (has_user_id id) db.users)) [
          | inl e ↦ rw e (
            e,
            λ token_hash now u.
                rw (join-delete id now token_hash db.users db.sessions) (first-kept id _ u),
          )
          | inr e ↦ rw e (e, refl)
        ])

  -- What a call of CreateSession is to do.
  abbrev pub IsSignedIn : String → ℤ → ℤ → Database F → Result StoreError (Database F) → Type 0
  IsSignedIn token_hash user_id expires_at db (err e) =
      (e ≡ constraint_failed)
      × ((any (has_user_id user_id) db.users
            && not (any (λ s. str_eq token_hash s.token_hash) db.sessions))
          ≡ false)
  IsSignedIn token_hash user_id expires_at db (ok after) =
      (other : String) (now : ℤ)
      → user_for_session other now after ≡ (
          if str_eq token_hash other
          then (if ltb_ℤ now expires_at
              then scanned (select_row (has_user_id user_id) db.users)
              else err not_found)
          else user_for_session other now db)

  -- A session that is created for a user of the table is the one of its token: until it expires
  -- the token stands for the user that the id has in the table, then for nobody; what other tokens
  -- stand for stays. The creation is refused exactly where there is no such user or the token is
  -- taken.
  pub create_session-IsSignedIn :
      (token_hash : String) (user_id expires_at : ℤ) (db : Database F)
      → IsSignedIn token_hash user_id expires_at db
          (create_session token_hash user_id expires_at db)
  unfolding create_session user_for_session join_user
  create_session-IsSignedIn token_hash user_id expires_at db =
      elim (Bool-cases (any (has_user_id user_id) db.users)) [
        | inr e ↦ rw (create_session, e) (refl, rw e refl)
        | inl e ↦
            rw (create_session, e)
              (elim (Bool-cases (any (λ s. str_eq token_hash s.token_hash) db.sessions)) [
                | inl t ↦ rw t (refl, rw (e, t) refl)
                | inr t ↦
                    rw t
                      (λ other now. rw (live-added new other now db.sessions t) (resolve other now))
              ])
      ]
    where
      new : Session
      new = record { token_hash = token_hash; user_id = user_id; expires_at = expires_at }

      resolve :
          (other : String) (now : ℤ)
          → scanned (
              first_row (
                join_user db.users (
                  if str_eq token_hash other
                  then (if ltb_ℤ now expires_at then new ∷ [] else [])
                  else select (is_live other now) db.sessions)))
            ≡ (if str_eq token_hash other
                then (if ltb_ℤ now expires_at
                    then scanned (select_row (has_user_id user_id) db.users)
                    else err not_found)
                else scanned
                    (first_row (join_user db.users (select (is_live other now) db.sessions))))
      resolve other now = ground (arith, found-added db.users new)

  -- What a call of CreateUser is to do.
  abbrev pub IsNamed : String → Database F → Result StoreError (Database F × User) → Type 0
  IsNamed username db (err e) =
      (e ≡ constraint_failed)
      × ((name : String)
          → to_lower name ≡ to_lower username
          → get_user_by_name name db ≢ err not_found)
  IsNamed username db (ok made) =
      (made.1.username ≡ username)
      × ((name : String)
          → get_user_by_name name made.0 ≡ (
              if str_eq (to_lower username) (to_lower name)
              then ok made.1
              else get_user_by_name name db))

  -- A new user is found under its name, whatever the case of its letters, and the lookup of every
  -- other name is as before; a creation that is refused is one of a name that is taken in any case.
  pub create_user-IsNamed :
      (now : ℤ) (username password_hash : String) (db : Database F)
      → IsNamed username db (create_user now username password_hash db)
  unfolding create_user get_user_by_name select_row
  create_user-IsNamed now username password_hash db =
      elim (Bool-cases (any (λ u. str_eq (to_lower username) (to_lower u.username)) db.users)) [
        | inl e ↦ rw (create_user, e) (refl, λ name same. taken name same db.users e)
        | inr e ↦ rw (create_user, e) (refl, λ name. fresh name _ refl db.users e)
      ]
    where
      fresh :
          (name : String) (u : User)
          → u.username ≡ username
          → (users : List User)
          → any (λ other. str_eq (to_lower username) (to_lower other.username)) users ≡ false
          → scanned (select_row (has_name name) (users ++ (u ∷ []))) ≡ (
              if str_eq (to_lower username) (to_lower name)
              then ok u
              else scanned (select_row (has_name name) users))
      fresh name u same [] n = ground (arith, same, ap to_lower same)
      fresh name u same (other ∷ users) n = ground (
        arith,
        fresh name u same users,
        eq_iff (to_lower username) (to_lower other.username),
        eq_iff (to_lower other.username) (to_lower name),
        eq_iff (to_lower username) (to_lower name),
      )

      taken :
          (name : String)
          → to_lower name ≡ to_lower username
          → (users : List User)
          → any (λ u. str_eq (to_lower username) (to_lower u.username)) users ≡ true
          → scanned (select_row (has_name name) users) ≢ err not_found
      taken name same [] e = ground arith
      taken name same (u ∷ users) e = ground (
        arith,
        taken name same users,
        eq_iff (to_lower username) (to_lower u.username),
        eq_iff (to_lower u.username) (to_lower name),
      )

-- ===== src/Store/Runs/Spec.antt =====
-- What the table `runs` promises: a map from ids to runs. The statements refine its operations.
use go_sentinel.Base.{
  String, List, [], ◌∷◌, Option, none, some, Bool, true, false, ◌&&◌, str_eq, eq_iff, if◌then◌else◌,
  ◌≡◌, refl, sym, ◌∙◌, ap, arith, any, Bool-cases, Option-cases, inl, inr,
}
use go_sentinel.Base.Int.{ℤ}
use go_sentinel.Base.Float.{Float64}
use go_sentinel.Base.Result.{Result, ok, err}
use go_sentinel.Store.{Run, Database, StoreError, not_found, constraint_failed}
use go_sentinel.Store.Table.{select_row, update, affected}
use go_sentinel.Store.Table.Rows.{
  HasUniqueKeys, select_row-append, select_row-delete_rows, select_row-update, affected-any,
  any-select_row, update-HasUniqueKeys, delete_rows-HasUniqueKeys, insert-HasUniqueKeys,
}
use go_sentinel.Store.Runs.{
  create_run, finish_run, get_run, mark_dispatched, set_run_status, delete_run, new_row, finished,
  dispatched, has_id, is_queued, unless_none, scanned,
}

-- A call that changes one run.
pub data Call (F : Type 0) : Type 0 where
  create : Run F → Call F
  finish : String → String → ℤ → Run F → Call F
  mark : String → ℤ → ℤ → Call F
  set_status : String → String → Call F
  remove : String → Call F

abbrev pub Runs : Type 0 → Type 0
Runs F = String → Option (Run F)

abbrev pub no_runs : {F : Type 0} → Runs F
no_runs id = none

module _ {F : Type 0} where
  abbrev pub put : String → Option (Run F) → Runs F → Runs F
  put id entry runs other = if str_eq id other then entry else runs other

  abbrev pub with_status : String → Run F → Run F
  with_status status r = record r { status = status }

  -- The change of an entry, which is an error where the map has none that passes the test.
  unfoldable pub change :
      String → (Run F → Bool) → (Run F → Option (Run F)) → Runs F → Result StoreError (Runs F)
  change id guard f runs = elim (runs id) [
    | none ↦ err not_found
    | some r ↦ if guard r then ok (put id (f r) runs) else err not_found
  ]

  abbrev pub always : Run F → Bool
  always r = true

module _ (fl : Float64) where
  open fl use {F}

  -- The call on the tables.
  unfoldable pub call : Call F → Database F → Result StoreError (Database F)
  call (create r) db = create_run fl r db
  call (finish id status at sum) db = finish_run id status at sum db
  call (mark id workers at) db = mark_dispatched id workers at db
  call (set_status id status) db = set_run_status id status db
  call (remove id) db = delete_run id db

  -- The call on the map.
  unfoldable pub promised : Call F → Runs F → Result StoreError (Runs F)
  unfolding change
  promised (create r) runs = elim (runs r.id) [
    | none ↦ ok (put r.id (some (new_row fl r)) runs)
    | some old ↦ err constraint_failed
  ]
  promised (finish id status at sum) runs =
      change id always (λ r. some (finished status at sum r)) runs
  promised (mark id workers at) runs =
      change id is_queued (λ r. some (dispatched workers at r)) runs
  promised (set_status id status) runs = change id always (λ r. some (with_status status r)) runs
  promised (remove id) runs = change id always (λ r. none) runs

-- The ids of the table are distinct, and the map has its rows.
pub record IsRefined {F : Type 0} (db : Database F) (runs : Runs F) : Type 0 where
  pub unique : HasUniqueKeys (λ r. r.id) db.runs
  pub agrees : (id : String) → get_run id db ≡ scanned (runs id)

-- The two results of a call: the same error, or states that agree.
abbrev pub Agree :
    {F : Type 0} → Result StoreError (Database F) → Result StoreError (Runs F) → Type 0
Agree (ok db) (ok runs) = IsRefined db runs
Agree (err e) (err f) = e ≡ f
Agree (ok db) (err f) = ⊥
Agree (err e) (ok runs) = ⊥

scanned_inj : {A : Type 0} (o p : Option A) → scanned o ≡ scanned p → o ≡ p
scanned_inj none none e = refl
scanned_inj none (some b) e = ground arith
scanned_inj (some a) none e = ground arith
scanned_inj (some a) (some b) e = ground arith

module _ {F : Type 0} where
  row_of :
      (db : Database F) (runs : Runs F)
      → IsRefined db runs
      → (id : String) → select_row (has_id id) db.runs ≡ runs id
  unfolding get_run
  row_of db runs h id = scanned_inj (select_row (has_id id) db.runs) (runs id) (h.agrees id)

  change-none :
      (id : String) (guard : Run F → Bool) (f : Run F → Option (Run F)) (runs : Runs F)
      → runs id ≡ none
      → change id guard f runs ≡ err not_found
  unfolding change
  change-none id guard f runs e = ground (arith, e)

  change-some :
      (id : String) (guard : Run F → Bool) (f : Run F → Option (Run F)) (runs : Runs F) (r : Run F)
      → runs id ≡ some r
      → change id guard f runs ≡ (if guard r then ok (put id (f r) runs) else err not_found)
  unfolding change
  change-some id guard f runs r e = ground (arith, e)

  -- A statement that updates the row of an id where it passes a test.
  update-Agree :
      (db : Database F) (runs : Runs F) (id : String) (guard : Run F → Bool) (set : Run F → Run F)
      → ((r : Run F) → (set r).id ≡ r.id)
      → IsRefined db runs
      → Agree
          (unless_none
            (affected (λ r. has_id id r && guard r) db.runs)
            (record db { runs = update (λ r. has_id id r && guard r) set db.runs }))
          (change id guard (λ r. some (set r)) runs)
  unfolding get_run
  update-Agree db runs id guard set keeps h =
      rw
        (
          affected-any (λ r. has_id id r && guard r) db.runs,
          any-select_row (λ r. r.id) guard id db.runs h.unique,
          row_of db runs h id,
        )
        (elim (Option-cases (runs id)) [
          | inl e ↦ rw (change-none id guard _ runs e, e) refl
          | inr (r, e) ↦
              rw (change-some id guard _ runs r e, e)
                (elim (Bool-cases (guard r)) [
                  | inl g ↦ rw g (record {
                    unique = update-HasUniqueKeys (λ r. r.id) _ set keeps db.runs h.unique;
                    agrees = λ other. ap scanned (
                        ground (
                          arith,
                          select_row-update (λ r. r.id) guard set keeps id other db.runs,
                          row_of db runs h id,
                          row_of db runs h other,
                          e,
                          g,
                        ));
                  })
                  | inr g ↦ rw g refl
                ])
        ])

  any_always :
      (id : String) (rows : List (Run F))
      → affected (λ r. has_id id r && always r) rows ≡ affected (has_id id) rows
  unfolding affected
  any_always id [] = refl
  any_always id (r ∷ rows) = ground (arith, any_always id rows)

  update-always :
      (id : String) (set : Run F → Run F) (rows : List (Run F))
      → update (λ r. has_id id r && always r) set rows ≡ update (has_id id) set rows
  unfolding update
  update-always id set [] = refl
  update-always id set (r ∷ rows) = ground (arith, update-always id set rows)

  set-Agree :
      (db : Database F) (runs : Runs F) (id : String) (set : Run F → Run F)
      → ((r : Run F) → (set r).id ≡ r.id)
      → IsRefined db runs
      → Agree
          (unless_none
            (affected (has_id id) db.runs)
            (record db { runs = update (has_id id) set db.runs }))
          (change id always (λ r. some (set r)) runs)
  set-Agree db runs id set keeps h =
      rw (sym (any_always id db.runs), sym (update-always id set db.runs))
        (update-Agree db runs id always set keeps h)

  remove-Agree :
      (db : Database F) (runs : Runs F) (id : String)
      → IsRefined db runs
      → Agree (delete_run id db) (change id always (λ r. none) runs)
  unfolding get_run delete_run
  remove-Agree db runs id h =
      rw
        (
          sym (any_always id db.runs),
          affected-any (λ r. has_id id r && always r) db.runs,
          any-select_row (λ r. r.id) always id db.runs h.unique,
          row_of db runs h id,
        )
        (elim (Option-cases (runs id)) [
          | inl e ↦ rw (change-none id always _ runs e, e) refl
          | inr (r, e) ↦
              rw (change-some id always _ runs r e, e)
                (record {
                  unique = delete_rows-HasUniqueKeys (λ r. r.id) (has_id id) db.runs h.unique;
                  agrees = λ other. ap scanned (
                      ground (
                        arith,
                        select_row-delete_rows (λ r. r.id) id other db.runs,
                        row_of db runs h other,
                      ));
                })
        ])

module _ (fl : Float64) where
  open fl use {F}

  any_found :
      (k : String) (rows : List (Run F))
      → any (λ other. str_eq k other.id) rows
        ≡ elim (select_row (has_id k) rows) [ none ↦ false | some old ↦ true ]
  unfolding select_row
  any_found k [] = refl
  any_found k (r ∷ rows) = ground (arith, any_found k rows, eq_iff k r.id, eq_iff r.id k)

  create-Agree :
      (db : Database F) (runs : Runs F) (r : Run F)
      → IsRefined db runs
      → Agree (create_run fl r db) (promised fl (create r) runs)
  unfolding create_run promised get_run select_row
  create-Agree db runs r h =
      rw (create_run, any_found r.id db.runs, row_of db runs h r.id)
        (elim (Option-cases (runs r.id)) [
          | inl e ↦
              rw (e, promised)
                (record {
                  unique =
                      insert-HasUniqueKeys (λ r. r.id) (new_row fl r) db.runs h.unique
                        (any_found r.id db.runs ∙ rw (row_of db runs h r.id, e) refl);
                  agrees = λ other. ap scanned (
                      select_row-append (has_id other) db.runs (new_row fl r ∷ []) ∙ added other e);
                })
          | inr (old, e) ↦ rw (e, promised) refl
        ])
    where
      added :
          (other : String)
          → runs r.id ≡ none
          → elim (select_row (has_id other) db.runs) [
            | none ↦ select_row (has_id other) (new_row fl r ∷ [])
            | some x ↦ some x
          ]
            ≡ put r.id (some (new_row fl r)) runs other
      added other e =
          ground (arith, row_of db runs h other, row_of db runs h r.id, eq_iff r.id other, e)

  -- For a table with distinct ids whose rows are those of a map from ids to runs, every call that
  -- changes a run gives the error that it gives on the map, or a table with distinct ids whose rows
  -- are those of the changed map: a run is created only under a new id, with the defaults of the
  -- columns that the statement leaves out, a dispatch is recorded only for a QUEUED run, and a
  -- change or a removal of a missing run is ErrNotFound.
  pub call-Agree :
      (c : Call F) (db : Database F) (runs : Runs F)
      → IsRefined db runs
      → Agree (call fl c db) (promised fl c runs)
  unfolding call promised finish_run mark_dispatched set_run_status
  call-Agree (create r) db runs h = create-Agree db runs r h
  call-Agree (finish id status at sum) db runs h =
      set-Agree db runs id (finished status at sum) (λ r. refl) h
  call-Agree (mark id workers at) db runs h =
      update-Agree db runs id is_queued (dispatched workers at) (λ r. refl) h
  call-Agree (set_status id status) db runs h =
      set-Agree db runs id (with_status status) (λ r. refl) h
  call-Agree (remove id) db runs h = remove-Agree db runs id h

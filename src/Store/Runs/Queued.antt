-- ===== src/Store/Runs/Queued.antt =====
-- The order of the queue: NextQueued and CountQueuedBefore.
use go_sentinel.Base.{
  ℕ, zero, suc, ◌≤◌, List, [], ◌∷◌, Option, none, some, Bool, true, false, eq_iff, if◌then◌else◌,
  ◌≡◌, refl, ap, arith, any, All, Bool-cases, ◌⊎◌, inl, inr, length, map,
}
use go_sentinel.Base.Int.{ℤ, pos_part, ◌≤ℤ◌, ltb_ℤ, ltb_ℤ-ge, ltb_ℤ-lt}
use go_sentinel.Base.Result.{Result, ok, err}
use go_sentinel.Store.{Run, Database, StoreError, not_found}
use go_sentinel.Store.Table.{select, first_row, place, order_by, limit, offset}
use go_sentinel.Store.Runs.{
  next_queued, list_runs, earlier_start, later_start, is_queued, scanned, page_size, without_spec,
}

-- The row occurs in the table.
abbrev pub IsRow : {A : Type 0} → A → List A → Type 0
IsRow x [] = ⊥
IsRow x (y ∷ rows) = (x ≡ y) ⊎ IsRow x rows

module _ {F : Type 0} where
  -- The run starts no later than any of the list.
  abbrev pub IsOldest : Run F → List (Run F) → Type 0
  IsOldest r rows = All (λ other. r.started_at ≤ℤ other.started_at) rows

  -- What NextQueued is to return: an oldest queued run, and ErrNotFound only where none is queued.
  abbrev pub IsNext : List (Run F) → Result StoreError (Run F) → Type 0
  IsNext rows (err e) = (e ≡ not_found) × (any is_queued rows ≡ false)
  IsNext rows (ok r) =
      IsRow r rows
      × (r.status ≡ "QUEUED")
      × ((other : Run F)
          → IsRow other rows
          → other.status ≡ "QUEUED"
          → r.started_at ≤ℤ other.started_at)

  -- Insertion puts the row first where it starts before the first row, or at the same time.
  first-place :
      (x : Run F) (rows : List (Run F))
      → first_row (place earlier_start x rows) ≡ elim (first_row rows) [
        | none ↦ some x
        | some y ↦ if ltb_ℤ y.started_at x.started_at then some y else some x
      ]
  unfolding place
  first-place x [] = refl
  first-place x (y ∷ rows) = ground arith

  -- The oldest of the rows of a test, by recursion over the table.
  IsLeast : (Run F → Bool) → List (Run F) → Option (Run F) → Type 0
  IsLeast p rows none = (other : Run F) → IsRow other rows → p other ≡ false
  IsLeast p rows (some r) =
      IsRow r rows
      × (p r ≡ true)
      × ((other : Run F) → IsRow other rows → p other ≡ true → r.started_at ≤ℤ other.started_at)

  skip-IsLeast :
      (p : Run F → Bool) (x : Run F) (rows : List (Run F)) (o : Option (Run F))
      → p x ≡ false
      → IsLeast p rows o
      → IsLeast p (x ∷ rows) o
  unfolding IsLeast
  skip-IsLeast p x rows none e h = λ other i. elim i [ inl d ↦ rw (d, e) refl | inr j ↦ h other j ]
  skip-IsLeast p x rows (some r) e (i, q, least) = (
    inr i,
    q,
    λ other j m. elim j [ inl d ↦ absurd (differ (ap p d) m) | inr k ↦ least other k m ],
  )
    where
      differ : {other : Run F} → p other ≡ p x → p other ≡ true → ⊥
      differ d m = ground (arith, e)

  place-IsLeast :
      (p : Run F → Bool) (x : Run F) (rows : List (Run F)) (o : Option (Run F))
      → p x ≡ true
      → IsLeast p rows o
      → IsLeast p (x ∷ rows) (elim o [
        | none ↦ some x
        | some y ↦ if ltb_ℤ y.started_at x.started_at then some y else some x
      ])
  unfolding IsLeast
  place-IsLeast p x rows none e h = (
    inl refl,
    e,
    λ other i m. elim i [ inl d ↦ rw d (omega arith) | inr j ↦ ground (arith, h other j) ],
  )
  place-IsLeast p x rows (some y) e (i, q, least) =
      elim (Bool-cases (ltb_ℤ y.started_at x.started_at)) [
        | inl l ↦ rw l (
          inr i,
          q,
          λ other j m. elim j [
            | inl d ↦ rw d (omega (arith, ltb_ℤ-lt y.started_at x.started_at l))
            | inr k ↦ least other k m
          ],
        )
        | inr l ↦ rw l (
          inl refl,
          e,
          λ other j m. elim j [
            | inl d ↦ rw d (omega arith)
            | inr k ↦ omega (arith, ltb_ℤ-ge y.started_at x.started_at l, least other k m)
          ],
        )
      ]

  order_by-IsLeast :
      (p : Run F → Bool) (rows : List (Run F))
      → IsLeast p rows (first_row (order_by earlier_start (select p rows)))
  unfolding order_by select IsLeast
  order_by-IsLeast p [] = λ other i. elim i [ ]
  order_by-IsLeast p (x ∷ rows) = elim (Bool-cases (p x)) [
    | inl e ↦
        rw (e, first-place x (order_by earlier_start (select p rows)))
          (place-IsLeast p x rows _ e (order_by-IsLeast p rows))
    | inr e ↦ rw e (skip-IsLeast p x rows _ e (order_by-IsLeast p rows))
  ]

  -- Where the table has a queued run, NextQueued returns one that no other queued run precedes;
  -- where it has none the answer is ErrNotFound.
  pub next_queued-IsNext : (db : Database F) → IsNext db.runs (next_queued db)
  unfolding next_queued IsLeast
  next_queued-IsNext db =
      of_least (first_row (order_by earlier_start (select is_queued db.runs)))
        (order_by-IsLeast is_queued db.runs)
    where
      no_queued :
          (rows : List (Run F))
          → ((other : Run F) → IsRow other rows → is_queued other ≡ false)
          → any is_queued rows ≡ false
      no_queued [] h = refl
      no_queued (x ∷ rows) h =
          ground (arith, h x (inl refl), no_queued rows (λ other i. h other (inr i)))

      of_least : (o : Option (Run F)) → IsLeast is_queued db.runs o → IsNext db.runs (scanned o)
      of_least none h = (refl, no_queued db.runs h)
      of_least (some r) (i, q, least) = (
        i,
        (eq_iff r.status "QUEUED").0 q,
        λ other j e. least other j ((eq_iff other.status "QUEUED").1 e),
      )

  -- A page of history has at most 200 runs, whatever limit and offset are asked for, and none of
  -- its runs carries its plan.
  pub list_runs-page :
      (n skip : ℤ) (db : Database F)
      → (length (list_runs n skip db) ≤ 200)
        × ((r : Run F) → IsRow r (list_runs n skip db) → r.plan_spec ≡ "")
  unfolding list_runs limit
  list_runs-page n skip db = (
    bounded (pos_part (page_size n)) (offset (pos_part skip) (order_by later_start db.runs))
        (page n),
    λ r i. blank r (limit (pos_part (page_size n)) _) i,
  )
    where
      page : (n : ℤ) → pos_part (page_size n) ≤ 200
      page n = ground arith

      short : (m : ℕ) (rows : List (Run F)) → length (map without_spec (limit m rows)) ≤ m
      short zero rows = omega arith
      short (suc m) [] = omega arith
      short (suc m) (x ∷ rows) = omega (arith, short m rows)

      bounded :
          (m : ℕ) (rows : List (Run F)) → m ≤ 200 → length (map without_spec (limit m rows)) ≤ 200
      bounded m rows h = omega (arith, short m rows, h)

      blank : (r : Run F) (rows : List (Run F)) → IsRow r (map without_spec rows) → r.plan_spec ≡ ""
      blank r [] i = elim i [ ]
      blank r (x ∷ rows) (inl e) = rw e refl
      blank r (x ∷ rows) (inr i) = blank r rows i

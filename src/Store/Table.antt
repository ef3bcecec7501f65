-- ===== src/Store/Table.antt =====
-- SQL statements on a table: a table is the list of its rows in the order of their rowid, a WHERE
-- clause a test of a row.
pub mod Rows
use go_sentinel.Base.{
  ℕ, zero, suc, ◌+◌, ◌≤◌, List, [], ◌∷◌, ◌++◌, Option, none, some, Bool, true, false, not, ◌&&◌,
  ◌||◌, if◌then◌else◌, Bool-cases, ◌≡◌, refl, arith, inl, inr, length, any, All,
}

module _ {A : Type 0} where
  -- SELECT ... WHERE
  unfoldable pub select : (A → Bool) → List A → List A
  select p [] = []
  select p (x ∷ rows) = let rest = select p rows in if p x then x ∷ rest else rest

  -- The row that QueryRow scans: the first.
  abbrev pub first_row : List A → Option A
  first_row [] = none
  first_row (x ∷ rows) = some x

  unfoldable pub select_row : (A → Bool) → List A → Option A
  select_row p [] = none
  select_row p (x ∷ rows) = if p x then some x else select_row p rows

  -- UPDATE ... SET ... WHERE
  unfoldable pub update : (A → Bool) → (A → A) → List A → List A
  update p set [] = []
  update p set (x ∷ rows) = (if p x then set x else x) ∷ update p set rows

  -- DELETE ... WHERE
  unfoldable pub delete_rows : (A → Bool) → List A → List A
  delete_rows p [] = []
  delete_rows p (x ∷ rows) = let rest = delete_rows p rows in if p x then rest else x ∷ rest

  -- The number of rows that a statement affects.
  unfoldable pub affected : (A → Bool) → List A → ℕ
  affected p [] = 0
  affected p (x ∷ rows) = (if p x then 1 else 0) + affected p rows

  -- ORDER BY; rows that `before` does not tell apart stay in the order of the table.
  unfoldable pub place : (A → A → Bool) → A → List A → List A
  place before x [] = x ∷ []
  place before x (y ∷ rows) =
      let rest = place before x rows in if before y x then y ∷ rest else x ∷ y ∷ rows

  unfoldable pub order_by : (A → A → Bool) → List A → List A
  order_by before [] = []
  order_by before (x ∷ rows) = place before x (order_by before rows)

  -- LIMIT and OFFSET
  unfoldable pub limit : ℕ → List A → List A
  limit zero rows = []
  limit (suc n) [] = []
  limit (suc n) (x ∷ rows) = x ∷ limit n rows

  unfoldable pub offset : ℕ → List A → List A
  offset zero rows = rows
  offset (suc n) [] = []
  offset (suc n) (x ∷ rows) = offset n rows

-- INSERT into a table with a key: refused where a row has the key already.
module _ {A : Type 0} (same : A → A → Bool) where
  abbrev pub insert_row : A → List A → Option (List A)
  insert_row x rows = if any (same x) rows then none else some (rows ++ (x ∷ []))

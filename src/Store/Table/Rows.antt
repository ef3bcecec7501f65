-- ===== src/Store/Table/Rows.antt =====
-- What the statements on a table select.
use go_sentinel.Base.{
  ◌==◌, String, List, [], ◌∷◌, ◌++◌, none, some, Bool, true, false, not, ◌&&◌, str_eq, eq_iff,
  if◌then◌else◌, ◌≡◌, refl, arith, any, All, Bool-cases, inl, inr, ◌∙◌,
}
use go_sentinel.Store.Table.{select, first_row, select_row, update, delete_rows, affected}

module _ {A : Type 0} where
  pub select-append :
      (p : A → Bool) (xs ys : List A) → select p (xs ++ ys) ≡ select p xs ++ select p ys
  unfolding select
  select-append p [] ys = refl
  select-append p (x ∷ xs) ys = ground (arith, select-append p xs ys)

  pub select_row-append :
      (p : A → Bool) (xs ys : List A)
      → select_row p (xs ++ ys)
        ≡ elim (select_row p xs) [ none ↦ select_row p ys | some x ↦ some x ]
  unfolding select_row
  select_row-append p [] ys = refl
  select_row-append p (x ∷ xs) ys = ground (arith, select_row-append p xs ys)

  pub first_row-append :
      (xs ys : List A)
      → first_row (xs ++ ys) ≡ elim (first_row xs) [ none ↦ first_row ys | some x ↦ some x ]
  first_row-append [] ys = refl
  first_row-append (x ∷ xs) ys = refl

  pub first_row-select :
      (p : A → Bool) (rows : List A) → first_row (select p rows) ≡ select_row p rows
  unfolding select select_row
  first_row-select p [] = refl
  first_row-select p (x ∷ rows) = ground (arith, first_row-select p rows)

  pub select-none : (p : A → Bool) (rows : List A) → any p rows ≡ false → select p rows ≡ []
  unfolding select
  select-none p [] h = refl
  select-none p (x ∷ rows) h = ground (arith, select-none p rows)

  pub select_row-none :
      (p : A → Bool) (rows : List A) → any p rows ≡ false → select_row p rows ≡ none
  unfolding select_row
  select_row-none p [] h = refl
  select_row-none p (x ∷ rows) h = ground (arith, select_row-none p rows)

  pub select_row-some :
      (p : A → Bool) (rows : List A)
      → any p rows ≡ true
      → (x : A) × (select_row p rows ≡ some x) × (p x ≡ true)
  unfolding select_row
  select_row-some p [] h = ground arith
  select_row-some p (x ∷ rows) h = elim (Bool-cases (p x)) [
    | inl e ↦ rw e (x, refl, e)
    | inr e ↦ rw e (select_row-some p rows (ground arith))
  ]

  -- A statement affects no row exactly where none meets its test.
  pub affected-any : (p : A → Bool) (rows : List A) → (affected p rows == 0) ≡ not (any p rows)
  unfolding affected
  affected-any p [] = refl
  affected-any p (x ∷ rows) = ground (arith, affected-any p rows)

-- Rows found by a key.
module _ {A : Type 0} (key : A → String) where
  abbrev pub HasUniqueKeys : List A → Type 0
  HasUniqueKeys [] = Unit
  HasUniqueKeys (x ∷ rows) = (any (λ y. str_eq (key x) (key y)) rows ≡ false) × HasUniqueKeys rows

  abbrev keyed : String → A → Bool
  keyed k x = str_eq (key x) k

  pub select_row-delete_rows :
      (k j : String) (rows : List A)
      → select_row (keyed j) (delete_rows (keyed k) rows)
        ≡ (if str_eq k j then none else select_row (keyed j) rows)
  unfolding select_row delete_rows
  select_row-delete_rows k j [] = ground arith
  select_row-delete_rows k j (x ∷ rows) =
      ground
        (arith, select_row-delete_rows k j rows, eq_iff (key x) k, eq_iff (key x) j, eq_iff k j)

  pub select_row-update :
      (p : A → Bool) (set : A → A)
      → ((x : A) → key (set x) ≡ key x)
      → (k j : String) (rows : List A)
      → select_row (keyed j) (update (λ x. keyed k x && p x) set rows) ≡ (
          if str_eq k j
          then elim (select_row (keyed k) rows) [
            | none ↦ none
            | some x ↦ some (if p x then set x else x)
          ]
          else select_row (keyed j) rows)
  unfolding select_row update
  select_row-update p set h k j [] = ground arith
  select_row-update p set h k j (x ∷ rows) = ground (
    arith,
    select_row-update p set h k j rows,
    h x,
    eq_iff (key x) k,
    eq_iff (key x) j,
    eq_iff (key (set x)) j,
    eq_iff k j,
  )

  any-delete_rows :
      (p q : A → Bool) (rows : List A) → any q rows ≡ false → any q (delete_rows p rows) ≡ false
  unfolding delete_rows
  any-delete_rows p q [] h = refl
  any-delete_rows p q (x ∷ rows) h = ground (arith, any-delete_rows p q rows)

  pub delete_rows-HasUniqueKeys :
      (p : A → Bool) (rows : List A) → HasUniqueKeys rows → HasUniqueKeys (delete_rows p rows)
  unfolding delete_rows
  delete_rows-HasUniqueKeys p [] h = tt
  delete_rows-HasUniqueKeys p (x ∷ rows) (new, h) = elim (Bool-cases (p x)) [
    | inl e ↦ rw e (delete_rows-HasUniqueKeys p rows h)
    | inr e ↦ rw e (any-delete_rows p _ rows new, delete_rows-HasUniqueKeys p rows h)
  ]

  any-update :
      (p : A → Bool) (set : A → A)
      → ((x : A) → key (set x) ≡ key x)
      → (k : String) (rows : List A)
      → any (λ y. str_eq k (key y)) (update p set rows) ≡ any (λ y. str_eq k (key y)) rows
  unfolding update
  any-update p set h k [] = refl
  any-update p set h k (x ∷ rows) = ground (arith, any-update p set h k rows, h x)

  pub update-HasUniqueKeys :
      (p : A → Bool) (set : A → A)
      → ((x : A) → key (set x) ≡ key x)
      → (rows : List A) → HasUniqueKeys rows
      → HasUniqueKeys (update p set rows)
  unfolding update
  update-HasUniqueKeys p set h [] u = tt
  update-HasUniqueKeys p set h (x ∷ rows) (new, u) = elim (Bool-cases (p x)) [
    | inl e ↦
        rw (e, h x) (any-update p set h (key x) rows ∙ new, update-HasUniqueKeys p set h rows u)
    | inr e ↦ rw e (any-update p set h (key x) rows ∙ new, update-HasUniqueKeys p set h rows u)
  ]

  any-append :
      (p : A → Bool) (new : A) (rows : List A)
      → any p rows ≡ false
      → p new ≡ false
      → any p (rows ++ (new ∷ [])) ≡ false
  any-append p new [] h e = ground arith
  any-append p new (x ∷ rows) h e = ground (arith, any-append p new rows)

  pub insert-HasUniqueKeys :
      (new : A) (rows : List A)
      → HasUniqueKeys rows
      → any (λ y. str_eq (key new) (key y)) rows ≡ false
      → HasUniqueKeys (rows ++ (new ∷ []))
  insert-HasUniqueKeys new [] h e = (refl, tt)
  insert-HasUniqueKeys new (x ∷ rows) (u, h) e = (
    any-append _ new rows u (ground (arith, eq_iff (key new) (key x), eq_iff (key x) (key new))),
    insert-HasUniqueKeys new rows h (ground arith),
  )

  -- With unique keys at most one row is affected: the one that has the key.
  pub any-select_row :
      (p : A → Bool) (k : String) (rows : List A)
      → HasUniqueKeys rows
      → any (λ x. keyed k x && p x) rows
        ≡ elim (select_row (keyed k) rows) [ none ↦ false | some x ↦ p x ]
  unfolding select_row
  any-select_row p k [] h = refl
  any-select_row p k (x ∷ rows) (new, h) = elim (Bool-cases (keyed k x)) [
    | inl e ↦ ground (arith, e, others rows new, (eq_iff (key x) k).0 e)
    | inr e ↦ ground (arith, e, any-select_row p k rows h)
  ]
    where
      others :
          (ys : List A)
          → any (λ y. str_eq (key x) (key y)) ys ≡ false
          → key x ≡ k
          → any (λ y. keyed k y && p y) ys ≡ false
      others [] n e = refl
      others (y ∷ ys) n e = ground (arith, others ys, eq_iff (key x) (key y), eq_iff (key y) k)

module _ {A : Type 0} where
  pub All-update :
      (P Q : A → Type 0) (p : A → Bool) (set : A → A)
      → ((x : A) → P x → p x ≡ true → Q (set x))
      → ((x : A) → P x → p x ≡ false → Q x)
      → (rows : List A) → All P rows
      → All Q (update p set rows)
  unfolding update
  All-update P Q p set f g [] h = tt
  All-update P Q p set f g (x ∷ rows) (px, h) = elim (Bool-cases (p x)) [
    | inl e ↦ rw e (f x px e, All-update P Q p set f g rows h)
    | inr e ↦ rw e (g x px e, All-update P Q p set f g rows h)
  ]

  pub All-delete_rows :
      (P : A → Type 0) (p : A → Bool) (rows : List A) → All P rows → All P (delete_rows p rows)
  unfolding delete_rows
  All-delete_rows P p [] h = tt
  All-delete_rows P p (x ∷ rows) (px, h) = elim (Bool-cases (p x)) [
    | inl e ↦ rw e (All-delete_rows P p rows h)
    | inr e ↦ rw e (px, All-delete_rows P p rows h)
  ]

  pub All-append : (P : A → Type 0) (xs ys : List A) → All P xs → All P ys → All P (xs ++ ys)
  All-append P [] ys h k = k
  All-append P (x ∷ xs) ys (px, h) k = (px, All-append P xs ys h k)

  pub All-always : (P : A → Type 0) → ((x : A) → P x) → (rows : List A) → All P rows
  All-always P f [] = tt
  All-always P f (x ∷ rows) = (f x, All-always P f rows)

  -- A change of the rows that keeps the test changes the row that is found.
  pub select_row-updated :
      (p : A → Bool) (set : A → A)
      → ((x : A) → p (set x) ≡ p x)
      → (rows : List A)
      → select_row p (update p set rows)
        ≡ elim (select_row p rows) [ none ↦ none | some x ↦ some (set x) ]
  unfolding select_row update
  select_row-updated p set h [] = refl
  select_row-updated p set h (x ∷ rows) = ground (arith, select_row-updated p set h rows, h x)

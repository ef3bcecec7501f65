-- ===== src/Orchestrator/Allocation/Sums.antt =====
-- Sums over lists that sorting keeps, and lists of distinct worker ids.
use text.Mathlib.TextPositions.{eq_refl}
use go_sentinel.Base.{
  ℕ, ◌+◌, ◌≤◌, ◌≡◌, refl, ap, String, List, [], ◌∷◌, map, Bool, inl, inr, str_eq, eq_iff, arith,
  if◌then◌else◌, Bool-cases,
}
use go_sentinel.Base.Int.{ℤ}
use go_sentinel.Base.Dict.{Dict}
use go_sentinel.Orchestrator.Distributor.Done.{IsUnkeyed, IsMap}
use go_sentinel.Orchestrator.Allocation.{insert_by, sort_by, worker_ids}

module _ {ℓ} {A : Type ℓ} where
  abbrev pub sum_by : (A → ℕ) → List A → ℕ
  sum_by f [] = 0
  sum_by f (x ∷ xs) = f x + sum_by f xs

  sum_by-insert_by :
      (f : A → ℕ) (less : A → A → Bool) (x : A) (xs : List A)
      → sum_by f (insert_by less x xs) ≡ f x + sum_by f xs
  unfolding insert_by
  sum_by-insert_by f less x [] = refl
  sum_by-insert_by f less x (y ∷ ys) = elim (Bool-cases (less y x)) [
    | inl e ↦ rw e (omega (arith, sum_by-insert_by f less x ys))
    | inr e ↦ rw e refl
  ]

  pub sum_by-sort_by :
      (f : A → ℕ) (less : A → A → Bool) (xs : List A) → sum_by f (sort_by less xs) ≡ sum_by f xs
  unfolding sort_by
  sum_by-sort_by f less [] = refl
  sum_by-sort_by f less (x ∷ xs) =
      omega (arith, sum_by-insert_by f less x (sort_by less xs), sum_by-sort_by f less xs)

pub sum_by-map {ℓ κ} :
    {A : Type ℓ} {B : Type κ} (f : A → ℕ) (g : B → A) (xs : List B)
    → sum_by f (map g xs) ≡ sum_by (λ x. f (g x)) xs
sum_by-map f g [] = refl
sum_by-map f g (x ∷ xs) = ap (◌+◌ (f (g x))) (sum_by-map f g xs)

abbrev pub indicator : String → String → ℕ
indicator k j = if str_eq k j then 1 else 0

indicator_self : (k : String) → indicator k k ≡ 1
indicator_self k = rw (eq_refl k)

-- How often a text stands in a list.
abbrev pub count : String → List String → ℕ
count k xs = sum_by (indicator k) xs

abbrev pub AreDistinct : List String → Type 0
AreDistinct [] = Unit
AreDistinct (x ∷ xs) = (count x xs ≡ 0) × AreDistinct xs

pub AreDistinct-of_count : (xs : List String) → ((k : String) → count k xs ≤ 1) → AreDistinct xs
AreDistinct-of_count [] h = tt
AreDistinct-of_count (x ∷ xs) h =
    (omega (arith, h x, indicator_self x), AreDistinct-of_count xs (λ k. omega (arith, h k)))

count-IsUnkeyed : (k : String) (m : Dict ℤ) → IsUnkeyed k m → count k (worker_ids m) ≡ 0
unfolding worker_ids
count-IsUnkeyed k [] h = refl
count-IsUnkeyed k ((j, v) ∷ m) h = rw h.0 (omega (arith, count-IsUnkeyed k m h.1))

pub count-worker_ids : (m : Dict ℤ) → IsMap m → (k : String) → count k (worker_ids m) ≤ 1
unfolding worker_ids
count-worker_ids [] h k = omega arith
count-worker_ids ((j, v) ∷ m) h k =
    ground (arith, count-IsUnkeyed j m h.0, count-worker_ids m h.1 k, eq_iff k j)

-- The sorted worker ids of a map are distinct, and sum to what the map sums to.
pub sorted_ids-AreDistinct :
    (less : String → String → Bool) (m : Dict ℤ)
    → IsMap m
    → AreDistinct (sort_by less (worker_ids m))
sorted_ids-AreDistinct less m h =
    AreDistinct-of_count _ λ k. rw sum_by-sort_by (count-worker_ids m h k)

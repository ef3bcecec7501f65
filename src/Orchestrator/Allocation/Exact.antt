-- ===== src/Orchestrator/Allocation/Exact.antt =====
-- What `allocateStageVUs` promises.
use native.Mathlib.Nat.{le_of_mul-le-mul_left, mul_comm}
use text.Mathlib.TextPositions.{eq_refl}
use go_sentinel.Base.{
  ℕ, min, ◌+◌, ◌-◌, ◌*◌, ◌/◌, ◌≤◌, ◌<◌, ◌≡◌, refl, ap, ◌∙◌, String, List, [], ◌∷◌, map, false, inl,
  inr, str_eq, eq_iff, arith, ltb, if◌then◌else◌, Bool-cases, All,
}
use go_sentinel.Base.Int.{
  ℤ, pos, pos_part, neg_part, ◌≤ℤ◌, leb_ℤ, parts_of_eq, half32, +ℤ_pos, int_laws,
}
use go_sentinel.Base.Dict.{Dict, get_or}
use go_sentinel.Base.Float.{Float64}
use go_sentinel.Orchestrator.Distributor.Capacity.{sum_vus, vus_of, wrap32_pos_id, pos_of_nonneg}
use go_sentinel.Orchestrator.Distributor.Done.{IsMap, IsUnkeyed}
use go_sentinel.Orchestrator.Allocation.{
  Remainder, sort_by, str_ltb, total_share, wholes, sum_wholes, remainder_of, hand_out, worker_ids,
  allocate_stage_vus,
}
use go_sentinel.Orchestrator.Allocation.Sums.{
  sum_by, sum_by-sort_by, sum_by-map, count, indicator, AreDistinct, AreDistinct-of_count,
  count-worker_ids, sorted_ids-AreDistinct,
}
use go_sentinel.Orchestrator.Allocation.Total.{
  Holds, spare, ids_of, Handed, hand_out-Handed, Truncates, quota, sum_wholes-quota, wholes-listed,
  sum_vus-wholes, quota_bounds, quota-le-share,
}

abbrev pub total : Dict ℤ → ℕ
total [] = 0
total ((k, v) ∷ m) = pos_part v + total m

abbrev pub share_of : Dict ℤ → String → ℕ
share_of m k = pos_part (vus_of k m)

-- The workers of a test: distinct, with VUs that are not negative and add up below 2 ^ 31.
pub record IsShares (m : Dict ℤ) : Type 0 where
  pub distinct : IsMap m
  pub nonneg : All (λ e. neg_part e.1 ≡ 0) m
  pub in_range : total m < half32

share-Holds : (m : Dict ℤ) → All (λ e. neg_part e.1 ≡ 0) m → Holds m (share_of m)
unfolding get_or
share-Holds [] h k = refl
share-Holds ((j, v) ∷ m) h k = elim (Bool-cases (str_eq j k)) [
  | inl e ↦ rw e (pos_of_nonneg v h.0)
  | inr e ↦ rw e (share-Holds m h.1 k)
]

share-le-total : (m : Dict ℤ) (k : String) → share_of m k ≤ total m
unfolding get_or
share-le-total [] k = omega arith
share-le-total ((j, v) ∷ m) k = ground (arith, share-le-total m k)

total_share-total :
    (acc : ℕ) (m : Dict ℤ)
    → All (λ e. neg_part e.1 ≡ 0) m
    → acc + total m < half32
    → total_share (pos acc) m ≡ pos (acc + total m)
unfolding total_share
total_share-total acc [] h b = ground arith
total_share-total acc ((j, v) ∷ m) h b =
    rw
      (pos_of_nonneg v h.0, +ℤ_pos acc (pos_part v), wrap32_pos_id (acc + pos_part v) (omega arith))
      (total_share-total (acc + pos_part v) m h.1 (omega arith) ∙ ap pos (omega arith))

share_cons :
    (j : String) (v : ℤ) (m n : Dict ℤ)
    → IsUnkeyed j n
    → sum_by (share_of ((j, v) ∷ m)) (worker_ids n) ≡ sum_by (share_of m) (worker_ids n)
unfolding worker_ids get_or
share_cons j v m [] h = refl
share_cons j v m ((i, w) ∷ n) h = rw h.0 (ap (◌+◌ (share_of m i)) (share_cons j v m n h.1))

sum_by-share : (m : Dict ℤ) → IsMap m → sum_by (share_of m) (worker_ids m) ≡ total m
unfolding worker_ids get_or
sum_by-share [] h = refl
sum_by-share ((j, v) ∷ m) h =
    rw (eq_refl j) (ap (◌+◌ (pos_part v)) (share_cons j v m m h.0 ∙ sum_by-share m h.1))

share_unlisted : (m : Dict ℤ) (k : String) → count k (worker_ids m) ≡ 0 → share_of m k ≡ 0
unfolding worker_ids get_or
share_unlisted [] k h = refl
share_unlisted ((j, v) ∷ m) k h = ground (arith, share_unlisted m k, eq_iff j k, eq_iff k j)

-- A stage target of `t` VUs, split over the workers `m` of a test.
pub record IsSplit (m : Dict ℤ) (t : ℕ) (a : Dict ℤ) : Type 0 where
  pub sums : sum_vus a ≡ pos t
  pub nonneg : (k : String) → neg_part (vus_of k a) ≡ 0
  pub fits : (k : String) → share_of a k ≤ share_of m k
  -- The exact share, rounded down or up.
  pub at_least : (k : String) → t * share_of m k / total m ≤ share_of a k
  pub at_most : (k : String) → share_of a k ≤ t * share_of m k / total m + 1

Handed-IsSplit :
    (m : Dict ℤ) (t n : ℕ) (ids : List String) (a a' : Dict ℤ)
    → sum_vus a ≡ pos n
    → n ≤ t
    → Handed (share_of m) (λ k. t * share_of m k / total m) ids (t - n) a a'
    → IsSplit m t a'
Handed-IsSplit m t n ids a a' s le h = record {
  sums = omega (int_laws, parts_of_eq s, parts_of_eq h.total);
  nonneg = λ k. rw (h.holds k) refl;
  fits = λ k. rw (h.holds k) (h.fits k);
  at_least = λ k. rw (h.holds k) (h.grows k);
  at_most = λ k. rw (h.holds k) (h.by_one k);
}

-- The workers in the order in which the code goes through them, and the loop that follows.
abbrev in_order : Dict ℤ → List String
in_order m = sort_by str_ltb (worker_ids m)

module _ (float : Float64) (m : Dict ℤ) (t : ℕ) where
  abbrev target_total : ℤ
  target_total = pos (total m)

  abbrev remainders : List (Remainder float.F)
  remainders =
      sort_by (λ a b. float.gtb a.frac b.frac)
        (map (remainder_of float m (pos t) (pos (total m))) (in_order m))

  handed_out : Dict ℤ
  handed_out =
      hand_out m (pos t) remainders (wholes float m (pos t) (pos (total m)) (in_order m))
        (sum_wholes float m (pos t) (pos (total m)) (pos 0) (in_order m))

  -- Sorting by remainder keeps every sum over the workers.
  sum_by-remainders : (f : String → ℕ) → sum_by f (ids_of remainders) ≡ sum_by f (in_order m)
  unfolding remainder_of
  sum_by-remainders f =
      sum_by-map f (λ r. r.worker_id) remainders
      ∙ sum_by-sort_by (λ r. f r.worker_id) (λ a b. float.gtb a.frac b.frac) _
      ∙ sum_by-map (λ r. f r.worker_id) (remainder_of float m (pos t) (pos (total m))) (in_order m)

  count-in_order : (k : String) → count k (in_order m) ≡ count k (worker_ids m)
  count-in_order k = sum_by-sort_by (indicator k) str_ltb (worker_ids m)

  remainders-AreDistinct : IsMap m → AreDistinct (ids_of remainders)
  remainders-AreDistinct h =
      AreDistinct-of_count _
        λ k. rw (sum_by-remainders (indicator k), count-in_order k) (count-worker_ids m h k)

  listed-quota :
      (k : String)
      → (if ltb 0 (count k (in_order m)) then t * share_of m k / total m else 0)
        ≡ t * share_of m k / total m
  listed-quota k = rw (count-in_order k) (elim (Bool-cases (ltb 0 (count k (worker_ids m)))) [
    | inl e ↦ rw e
    | inr e ↦ rw (e, share_unlisted m k (ground arith)) (omega arith)
  ])

  handed_out-IsSplit :
      IsShares m → 0 < t → t ≤ total m → Truncates float t (total m) → IsSplit m t handed_out
  unfolding handed_out
  handed_out-IsSplit v lt le cut =
      let n = total m in
      let share = share_of m in
      let ids = in_order m in
      let holds = share-Holds m v.nonneg in
      let within = share-le-total m in
      let q = quota float m share holds t n cut within in
      let whole_parts = sum_by q ids in
      let bounds = quota_bounds float m share holds t n cut within ids le (omega arith) in
      let all : sum_by share ids ≡ n =
        sum_by-sort_by share str_ltb (worker_ids m) ∙ sum_by-share m v.distinct in
      let below : whole_parts ≤ t =
        le_of_mul-le-mul_left (rw (all, mul_comm t n) at bounds.0) (omega arith) in
      let above : t ≤ whole_parts + sum_by (spare share q) ids =
        le_of_mul-le-mul_left (rw (all, mul_comm t n) at bounds.1) (omega arith) in
      let a = wholes float m (pos t) (pos n) ids in
      let assigned : sum_wholes float m (pos t) (pos n) (pos 0) ids ≡ pos whole_parts =
        sum_wholes-quota float m share holds t n cut within 0 ids (omega (arith, v.in_range))
        ∙ ap pos (omega arith) in
      let has : Holds a q =
        λ k. wholes-listed float m share holds t n cut within ids k ∙ ap pos (listed-quota k) in
      let rest =
        hand_out-Handed m share holds t remainders a q whole_parts has
          (quota-le-share float m share holds t n cut within le (omega arith))
          (λ k. omega (arith, within k, v.in_range)) (omega (arith, v.in_range)) below
          (remainders-AreDistinct v.distinct) in
      let left : min (t - whole_parts) (sum_by (spare share q) (ids_of remainders))
          ≡ t - whole_parts =
        omega (arith, sum_by-remainders (spare share q)) in
      rw assigned (
        Handed-IsSplit m t whole_parts _ a _
          (sum_vus-wholes float m share holds t n cut within ids
            (sorted_ids-AreDistinct str_ltb m v.distinct))
          below (rw left at rest))

-- For a test whose workers are distinct, hold VUs that are not negative and add up to n < 2 ^ 31, a
-- stage target t with 0 < t ≤ n, and float64 arithmetic that cuts t * s / n down to the whole number
-- for every s ≤ n: the workers' VUs for the stage add up to exactly t, none is negative or above the
-- worker's VUs for the test, and each is the worker's exact share t * s / n rounded down, or that
-- plus one.
pub allocate_stage_vus-IsSplit :
    (float : Float64) (distribution : Dict ℤ) (t : ℕ)
    → IsShares distribution
    → 0 < t
    → t ≤ total distribution
    → Truncates float t (total distribution)
    → IsSplit distribution t (allocate_stage_vus float distribution (pos t))
unfolding allocate_stage_vus handed_out
allocate_stage_vus-IsSplit float [] t v lt le cut = absurd (omega arith)
allocate_stage_vus-IsSplit float (e ∷ es) t v lt le cut =
    let m = e ∷ es in
    let positive : leb_ℤ (pos t) (pos 0) ≡ false = ground arith in
    let shared : leb_ℤ (pos (total m)) (pos 0) ≡ false = ground arith in
    let sum : total_share (pos 0) m ≡ pos (total m) =
      total_share-total 0 m v.nonneg (omega (arith, v.in_range)) ∙ ap pos (omega arith) in
    rw (positive, sum, shared) (handed_out-IsSplit float m t v lt le cut)

-- A target that is not positive gives nobody a VU, whatever the workers hold.
pub allocate_stage_vus-nonpositive :
    (float : Float64) (distribution : Dict ℤ) (target : ℤ)
    → target ≤ℤ pos 0
    → allocate_stage_vus float distribution target ≡ []
unfolding allocate_stage_vus
allocate_stage_vus-nonpositive float [] target h = refl
allocate_stage_vus-nonpositive float (e ∷ es) target h = ground arith

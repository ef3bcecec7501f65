-- ===== src/Orchestrator/Allocation/Total.antt =====
-- A stage's VUs are handed out to the last one, and nobody gets more than its share of the test.
use native.Mathlib.Nat.{
  le_of_mul-le-mul_left, div-mul-le_self, lt-div-mul-add, mul-le-mul_right, mul-le-mul_left,
  le_trans, mul_comm, mul-add,
}
use text.Mathlib.TextPositions.{eq_refl}
use go_sentinel.Base.{
  ℕ, min, ◌+◌, ◌-◌, ◌*◌, ◌/◌, ◌≤◌, ◌<◌, ◌≡◌, refl, ap, ◌∙◌, String, List, [], ◌∷◌, map, inl, inr,
  str_eq, eq_iff, arith, ltb, if◌then◌else◌, Bool-cases,
}
use go_sentinel.Base.Int.{
  ℤ, pos, pos_part, neg_part, ◌+ℤ◌, ltb_ℤ, leb_ℤ, parts_of_eq, half32, +ℤ_pos, int_laws,
}
use go_sentinel.Base.Dict.{Dict, get_or, insert, get_or-insert}
use go_sentinel.Base.Float.{Float64}
use go_sentinel.Orchestrator.Distributor.Capacity.{sum_vus, vus_of, sum_vus-insert, wrap32_pos_id}
use go_sentinel.Orchestrator.Allocation.{Remainder, exact, whole, wholes, sum_wholes, hand_out}
use go_sentinel.Orchestrator.Allocation.Sums.{sum_by, count, AreDistinct}

-- A map whose entries are the numbers of a function.
abbrev pub Holds : Dict ℤ → (String → ℕ) → Type 0
Holds d x = (k : String) → vus_of k d ≡ pos (x k)

abbrev bump : String → (String → ℕ) → String → ℕ
bump id x k = if str_eq id k then x id + 1 else x k

abbrev pub ids_of : {F : Type 0} → List (Remainder F) → List String
ids_of rs = map (λ r. r.worker_id) rs

-- One more VU for this worker would fit.
abbrev pub spare : (String → ℕ) → (String → ℕ) → String → ℕ
spare share x k = if ltb (x k) (share k) then 1 else 0

-- What handing out VUs makes of an allocation: `n` more in all, at most one more each.
pub record Handed (share x : String → ℕ) (ids : List String) (n : ℕ) (a a' : Dict ℤ) : Type 0 where
  pub x' : String → ℕ
  pub holds : Holds a' x'
  pub total : sum_vus a' ≡ sum_vus a +ℤ pos n
  pub grows : (k : String) → x k ≤ x' k
  pub by_one : (k : String) → x' k ≤ x k + 1
  pub fits : (k : String) → x' k ≤ share k
  pub elsewhere : (k : String) → count k ids ≡ 0 → x' k ≡ x k

Handed-refl :
    (share x : String → ℕ) (ids : List String) (a : Dict ℤ)
    → Holds a x
    → ((k : String) → x k ≤ share k)
    → Handed share x ids 0 a a
Handed-refl share x ids a h f = record {
  x' = x;
  holds = h;
  total = omega int_laws;
  grows = λ k. omega arith;
  by_one = λ k. omega arith;
  fits = f;
  elsewhere = λ k e. refl;
}

Handed-skip :
    (share x : String → ℕ) (id : String) (ids : List String) (n : ℕ) (a a' : Dict ℤ)
    → Handed share x ids n a a'
    → Handed share x (id ∷ ids) n a a'
Handed-skip share x id ids n a a' h = record {
  x' = h.x';
  holds = h.holds;
  total = h.total;
  grows = h.grows;
  by_one = h.by_one;
  fits = h.fits;
  elsewhere = λ k e. h.elsewhere k (omega arith);
}

abbrev bumped : String → (String → ℕ) → Dict ℤ → Dict ℤ
bumped id x a = insert id (pos (x id + 1)) a

bumped-Holds :
    (id : String) (x : String → ℕ) (a : Dict ℤ) → Holds a x → Holds (bumped id x a) (bump id x)
bumped-Holds id x a h k = rw get_or-insert (ground (arith, h k))

Handed-give :
    (share x : String → ℕ) (id : String) (ids : List String) (n : ℕ) (a a' : Dict ℤ)
    → Holds a x
    → count id ids ≡ 0
    → Handed share (bump id x) ids n (bumped id x a) a'
    → Handed share x (id ∷ ids) (n + 1) a a'
Handed-give share x id ids n a a' hx e h = record {
  x' = h.x';
  holds = h.holds;
  total = omega (
    int_laws,
    parts_of_eq h.total,
    parts_of_eq (sum_vus-insert id (pos (x id + 1)) a),
    ap pos_part (hx id),
    ap neg_part (hx id),
  );
  grows = λ k. ground (arith, h.grows k, eq_iff id k);
  by_one = λ k. ground (arith, h.by_one k, h.elsewhere id e, eq_iff id k, eq_refl id);
  fits = h.fits;
  elsewhere = λ k c. ground (arith, h.elsewhere k, eq_iff id k, eq_iff k id);
}

spare-bump :
    (share x : String → ℕ) (id : String) (ids : List String)
    → count id ids ≡ 0
    → sum_by (spare share (bump id x)) ids ≡ sum_by (spare share x) ids
spare-bump share x id [] e = refl
spare-bump share x id (j ∷ js) e = ground (arith, spare-bump share x id js)

module _ (distribution : Dict ℤ) (share : String → ℕ) (holds : Holds distribution share)
    (t : ℕ) where
  abbrev room_for : (String → ℕ) → List String → ℕ → ℕ
  room_for x ids g = min (t - g) (sum_by (spare share x) ids)

  pub hand_out-Handed :
      {F : Type 0} (rs : List (Remainder F)) (a : Dict ℤ) (x : String → ℕ) (g : ℕ)
      → Holds a x
      → ((k : String) → x k ≤ share k)
      → ((k : String) → share k < half32)
      → t < half32
      → g ≤ t
      → AreDistinct (ids_of rs)
      → Handed share x
          (ids_of rs)
          (room_for x (ids_of rs) g)
          a
          (hand_out distribution (pos t) rs a (pos g))
  unfolding hand_out
  hand_out-Handed [] a x g hx f s b le d = rw no_room (Handed-refl share x [] a hx f)
    where
      no_room : min (t - g) 0 ≡ 0
      no_room = omega arith
  hand_out-Handed (r ∷ rs) a x g hx f s b le d =
      let id = r.worker_id in
      let ids = ids_of rs in
      elim (Bool-cases (ltb_ℤ (pos g) (pos t))) [
        | inl e ↦ elim (Bool-cases (leb_ℤ (pos (share id)) (pos (x id)))) [
          | inl full ↦
              let same : room_for x (id ∷ ids) g ≡ room_for x ids g = ground arith in
              rw (e, hand_out, holds id, hx id, full, same)
                (Handed-skip share x id ids _ a _ (hand_out-Handed rs a x g hx f s b le d.1))
          | inr free ↦
              let more : room_for x (id ∷ ids) g ≡ room_for (bump id x) ids (g + 1) + 1 =
                ground (arith, spare-bump share x id ids d.0) in
              let here = f id in
              let small = s id in
              let bound : (k : String) → bump id x k ≤ share k =
                λ k. ground (arith, f k, here, eq_iff id k) in
              rw
                (
                  e,
                  hand_out,
                  holds id,
                  hx id,
                  free,
                  more,
                  +ℤ_pos (x id) 1,
                  wrap32_pos_id (x id + 1) (ground arith),
                  +ℤ_pos g 1,
                  wrap32_pos_id (g + 1) (ground arith),
                )
                (Handed-give share x id ids _ a _ hx d.0 (
                  hand_out-Handed rs (bumped id x a) (bump id x) (g + 1) (bumped-Holds id x a hx)
                    bound s b (ground arith) d.1))
        ]
        | inr e ↦
            let none_left : room_for x (id ∷ ids) g ≡ 0 = ground arith in
            rw (e, hand_out, none_left) (Handed-refl share x (id ∷ ids) a hx f)
      ]

-- float64 arithmetic that cuts `t * s / n` to the whole number below, for the shares `s` up to `n`.
-- IEEE 754 doubles do so while the products stay below 2 ^ 53.
pub record Truncates (float : Float64) (t n : ℕ) : Type 0 where
  pub at :
      (s : ℕ)
      → s ≤ n
      → float.to_int32 (
          float.div
            (float.mul (float.of_int (pos t)) (float.of_int (pos s)))
            (float.of_int (pos n)))
        ≡ pos (t * s / n)

-- The whole part of a share is at most the share, and with one more, where that has room, at least.
quota_below : (t n s : ℕ) → n * (t * s / n) ≤ t * s
quota_below t n s = omega (arith, div-mul-le_self (t * s) n, mul_comm n (t * s / n))

quota_above :
    (t n s : ℕ) → t ≤ n → 0 < n → t * s ≤ n * (t * s / n + (if ltb (t * s / n) s then 1 else 0))
quota_above t n s le lt = elim (Bool-cases (ltb (t * s / n) s)) [
  | inl e ↦ rw e (
      omega (
        arith,
        lt-div-mul-add {a = t * s} {b = n} lt,
        mul_comm n (t * s / n),
        mul-add n (t * s / n) 1,
      ))
  | inr e ↦ rw e (le_trans (mul-le-mul_right s le) (mul-le-mul_left n (ground arith)))
]

module _ (float : Float64) (distribution : Dict ℤ) (share : String → ℕ)
    (holds : Holds distribution share) (t n : ℕ) (cut : Truncates float t n)
    (within : (k : String) → share k ≤ n) where
  abbrev pub quota : String → ℕ
  quota k = t * share k / n

  whole-quota : (k : String) → whole float distribution (pos t) (pos n) k ≡ pos (quota k)
  unfolding whole exact
  whole-quota k = rw (holds k, whole, exact) (cut.at (share k) (within k))

  pub sum_wholes-quota :
      (acc : ℕ) (ids : List String)
      → acc + sum_by quota ids < half32
      → sum_wholes float distribution (pos t) (pos n) (pos acc) ids ≡ pos (acc + sum_by quota ids)
  unfolding sum_wholes
  sum_wholes-quota acc [] h = ground arith
  sum_wholes-quota acc (k ∷ ks) h =
      rw (whole-quota k, +ℤ_pos acc (quota k), wrap32_pos_id (acc + quota k) (omega arith))
        (sum_wholes-quota (acc + quota k) ks (omega arith) ∙ ap pos (omega arith))

  abbrev pub listed : List String → String → ℕ
  listed ids k = if ltb 0 (count k ids) then quota k else 0

  pub wholes-listed :
      (ids : List String) → Holds (wholes float distribution (pos t) (pos n) ids) (listed ids)
  unfolding wholes get_or
  wholes-listed [] k = refl
  wholes-listed (id ∷ ids) k = rw (whole-quota id) (
      get_or-insert (pos 0) id k (pos (quota id)) _
      ∙ ground (arith, wholes-listed ids k, eq_iff id k, eq_iff k id))

  pub sum_vus-wholes :
      (ids : List String)
      → AreDistinct ids
      → sum_vus (wholes float distribution (pos t) (pos n) ids) ≡ pos (sum_by quota ids)
  unfolding wholes
  sum_vus-wholes [] d = refl
  sum_vus-wholes (id ∷ ids) d =
      let rest = wholes float distribution (pos t) (pos n) ids in
      let fresh : vus_of id rest ≡ pos 0 = wholes-listed ids id ∙ rw d.0 refl in
      rw (whole-quota id) (
        omega (
          int_laws,
          parts_of_eq (sum_vus-insert id (pos (quota id)) rest),
          parts_of_eq (sum_vus-wholes ids d.1),
          ap pos_part fresh,
          ap neg_part fresh,
        ))

  pub quota_bounds :
      (ids : List String)
      → t ≤ n
      → 0 < n
      → (n * sum_by quota ids ≤ t * sum_by share ids)
        × (t * sum_by share ids ≤ n * (sum_by quota ids + sum_by (spare share quota) ids))
  quota_bounds [] le lt = (omega arith, omega arith)
  quota_bounds (id ∷ ids) le lt =
      let (below, above) = quota_bounds ids le lt in
      (
        omega (arith, below, quota_below t n (share id)),
        omega (arith, above, quota_above t n (share id) le lt),
      )

  pub quota-le-share : t ≤ n → 0 < n → (k : String) → quota k ≤ share k
  quota-le-share le lt k =
      le_of_mul-le-mul_left (le_trans (quota_below t n (share k)) (mul-le-mul_right (share k) le))
        lt

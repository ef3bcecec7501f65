-- ===== src/Orchestrator/Distributor/Rounds.antt =====
-- The two rounds of a distribution, over the nodes that are still to come: nothing is lost, no node
-- is overfilled, and the second round places all that fits.
use native.Mathlib.Nat.{zero-add}
use go_sentinel.Base.{
  ℕ, zero, suc, min, ◌+◌, ◌-◌, ◌≤◌, ◌<◌, ◌≡◌, refl, ap, ◌∙◌, String, List, [], ◌∷◌, true, inl, inr,
  arith, ltb, if◌then◌else◌, All, Bool-cases,
}
use go_sentinel.Base.Int.{
  ℤ, pos, negsuc, pos_part, neg_part, ◌+ℤ◌, ◌-ℤ◌, ltb_ℤ, leb_ℤ, parts_of_eq, half32, wrap32, +ℤ_pos,
  int_laws,
}
use go_sentinel.Base.Dict.{Dict, insert}
use go_sentinel.Base.Float.{Float64}
use go_sentinel.Models.{WorkerNode}
use go_sentinel.Orchestrator.Distributor.{
  Placing, min_ℤ, share_step, share_round, fill_step, fill_round,
}
use go_sentinel.Orchestrator.Distributor.Capacity.{
  sum_vus, room, IsAbsent, IsDistinct, pos_of_nonneg, wrap32_pos_id, vus_of, sum_vus-insert, used,
  Fits, used-le-room, vus_of-insert_ne, vus_of-insert_self, str_eq_sym, SameBut, IsFresh,
  used-SameBut, Fits-SameBut, IsFresh-SameBut,
}

pub -ℤ_pos : (a b : ℕ) → b ≤ a → pos a -ℤ pos b ≡ pos (a - b)
unfolding ◌-ℤ◌
-ℤ_pos a b h = ground arith

-- What a node is given: the wish `z` cut to the capacity and to what remains.
abbrev given : ℤ → ℤ → ℕ → ℕ
given z m r = pos_part (min_ℤ (min_ℤ z m) (pos r))

given_bounds : (z m : ℤ) (r : ℕ) → (given z m r ≤ pos_part m) × (given z m r ≤ r)
given_bounds z m r = ground arith

ltb_zero-suc : (a : ℕ) → ltb 0 (suc a) ≡ true
ltb_zero-suc a = ground arith

abbrev share_of : Float64 → ℤ → ℤ → WorkerNode → ℤ
share_of float capacity total n =
    float.to_int32
      (float.mul (float.div (float.of_int n.max_vus) (float.of_int capacity)) (float.of_int total))

abbrev with_share : WorkerNode → ℕ → Dict ℤ → Dict ℤ
with_share n a d = if ltb 0 a then insert n.id (pos a) d else d

abbrev shared : WorkerNode → ℕ → ℕ → Dict ℤ → Placing
shared n a r d = (pos (r - a), with_share n a d)

give-with_share :
    (w : ℤ) (r : ℕ) (n : WorkerNode) (d : Dict ℤ)
    → pos_part w ≤ r
    → r < half32
    → (if ltb_ℤ (pos 0) w then (wrap32 (pos r -ℤ w), insert n.id w d) else (pos r, d))
      ≡ shared n (pos_part w) r d
give-with_share (negsuc a) r n d h k = ground arith
give-with_share (pos a) r n d h k =
    rw (-ℤ_pos r a h, wrap32_pos_id (r - a) (omega arith)) (ground arith)

share_step-with_share :
    (float : Float64) (capacity total : ℤ) (n : WorkerNode) (r : ℕ) (d : Dict ℤ)
    → r < half32
    → (let a = given (share_of float capacity total n) n.max_vus r in
        share_step float capacity total n (pos r, d) ≡ shared n a r d)
unfolding share_step
share_step-with_share float capacity total n r d k =
    let z = share_of float capacity total n in
    give-with_share (min_ℤ (min_ℤ z n.max_vus) (pos r)) r n d (given_bounds z n.max_vus r).1 k

-- What a round leaves behind for the nodes that it went through.
pub record Placed (ns : List WorkerNode) (r : ℕ) (d : Dict ℤ) (p : Placing) : Type 0 where
  pub nonneg : neg_part p.0 ≡ 0
  pub conserved : sum_vus p.1 +ℤ p.0 ≡ sum_vus d +ℤ pos r
  pub at_most : pos_part p.0 ≤ r
  pub fits : All (Fits p.1) ns
  pub elsewhere : (k : String) → IsAbsent k ns → vus_of k p.1 ≡ vus_of k d

-- One node that now holds `held`, having been given `a`, before the round of the rest.
pub record Gift (n : WorkerNode) (a held : ℕ) (d d' : Dict ℤ) : Type 0 where
  pub holds : vus_of n.id d' ≡ pos held
  pub within : held ≤ pos_part n.max_vus
  pub grown : sum_vus d' ≡ sum_vus d +ℤ pos a
  pub others : SameBut n.id d d'

module _ {n : WorkerNode} {a held : ℕ} {d d' : Dict ℤ} (g : Gift n a held d d') where
  Placed-cons :
      (ns : List WorkerNode) (r : ℕ) (p : Placing)
      → a ≤ r
      → IsAbsent n.id ns
      → Placed ns (r - a) d' p
      → Placed (n ∷ ns) r d p
  Placed-cons ns r p le absent q = record {
    nonneg = q.nonneg;
    conserved = omega (int_laws, parts_of_eq q.conserved, parts_of_eq g.grown);
    at_most = omega (arith, q.at_most);
    fits = (rw (q.elsewhere n.id absent, g.holds) (omega (arith, g.within)), q.fits);
    elsewhere = λ k h. q.elsewhere k h.1 ∙ g.others k (str_eq_sym k n.id h.0);
  }

Placed-refl :
    (ns : List WorkerNode) (r : ℕ) (d : Dict ℤ) → All (Fits d) ns → Placed ns r d (pos r, d)
Placed-refl ns r d f = record {
  nonneg = refl;
  conserved = refl;
  at_most = omega arith;
  fits = f;
  elsewhere = λ k h. refl;
}

IsFresh-Fits : (ns : List WorkerNode) (d : Dict ℤ) → All (IsFresh d) ns → All (Fits d) ns
IsFresh-Fits [] d h = tt
IsFresh-Fits (n ∷ ns) d h = (rw h.0 (omega arith), IsFresh-Fits ns d h.1)

used-IsFresh : (ns : List WorkerNode) (d : Dict ℤ) → All (IsFresh d) ns → used ns d ≡ 0
used-IsFresh [] d h = refl
used-IsFresh (n ∷ ns) d h = rw (h.0, used-IsFresh ns d h.1)

insert-Gift :
    (n : WorkerNode) (old a : ℕ) (d : Dict ℤ)
    → vus_of n.id d ≡ pos old
    → old + a ≤ pos_part n.max_vus
    → Gift n a (old + a) d (insert n.id (pos (old + a)) d)
insert-Gift n old a d e le = record {
  holds = vus_of-insert_self n.id (pos (old + a)) d;
  within = le;
  grown =
      omega (
        int_laws,
        parts_of_eq (sum_vus-insert n.id (pos (old + a)) d),
        ap pos_part e,
        ap neg_part e,
      );
  others = λ j h. vus_of-insert_ne n.id j (pos (old + a)) d h;
}

with_share-Gift :
    (n : WorkerNode) (a : ℕ) (d : Dict ℤ)
    → a ≤ pos_part n.max_vus
    → IsFresh d n
    → Gift n a a d (with_share n a d)
with_share-Gift n zero d le fresh = record {
  holds = fresh;
  within = le;
  grown = omega int_laws;
  others = λ j h. refl;
}
with_share-Gift n (suc a) d le fresh =
    rw ltb_zero-suc (rw zero-add at (insert-Gift n 0 (suc a) d fresh (omega arith)))

-- The first round places on its nodes all that it takes away.
abbrev pub Shared : List WorkerNode → ℕ → Dict ℤ → Placing → Type 0
Shared ns r d p = Placed ns r d p × (used ns p.1 + pos_part p.0 ≡ r)

Shared-cons :
    (n : WorkerNode) (ns : List WorkerNode) (a r : ℕ) (d d' : Dict ℤ) (p : Placing)
    → Gift n a a d d'
    → a ≤ r
    → IsAbsent n.id ns
    → Shared ns (r - a) d' p
    → Shared (n ∷ ns) r d p
Shared-cons n ns a r d d' p g le absent (q, count) =
    (Placed-cons g ns r p le absent q, rw (q.elsewhere n.id absent, g.holds) (omega (arith, count)))

pub share_round-Shared :
    (float : Float64) (capacity total : ℤ) (ns : List WorkerNode) (r : ℕ) (d : Dict ℤ)
    → IsDistinct ns
    → All (IsFresh d) ns
    → r < half32
    → Shared ns r d (share_round float capacity total ns (pos r, d))
unfolding share_round
share_round-Shared float capacity total [] r d u f k = (Placed-refl [] r d tt, omega arith)
share_round-Shared float capacity total (n ∷ ns) r d u f k =
    elim (Bool-cases (leb_ℤ (pos r) (pos 0))) [
      | inl e ↦
          rw (e, share_round)
            (
              Placed-refl (n ∷ ns) r d (IsFresh-Fits (n ∷ ns) d f),
              rw (used-IsFresh (n ∷ ns) d f) (omega arith),
            )
      | inr e ↦
          let z = share_of float capacity total n in
          let a = given z n.max_vus r in
          let g = with_share-Gift n a d (given_bounds z n.max_vus r).0 f.0 in
          rw (e, share_round, share_step-with_share float capacity total n r d k)
            (Shared-cons n ns a r d (with_share n a d) _ g (given_bounds z n.max_vus r).1 u.0 (
              share_round-Shared float capacity total ns (r - a) (with_share n a d) u.1
                (IsFresh-SameBut n.id d (with_share n a d) g.others ns u.0 f.1) (omega arith)))
    ]

-- The second round places everything that the capacities admit.
abbrev pub Filled : List WorkerNode → ℕ → Dict ℤ → Placing → Type 0
Filled ns r d p = Placed ns r d p × (used ns d + r ≤ room ns → p.0 ≡ pos 0)

abbrev filled : WorkerNode → ℕ → ℕ → ℕ → Dict ℤ → Placing
filled n m old r d =
    let a = min r (m - old) in (pos (r - a), if ltb old m then insert n.id (pos (old + a)) d else d)

min_ℤ-pos : (a b : ℕ) → min_ℤ (pos a) (pos b) ≡ pos (min a b)
min_ℤ-pos a b = ground arith

-- One node of the second round, its capacity being `m` and its VUs so far `old`.
fill_step-filled :
    (n : WorkerNode) (m r old : ℕ) (d : Dict ℤ)
    → n.max_vus ≡ pos m
    → vus_of n.id d ≡ pos old
    → old ≤ m
    → m < half32
    → r < half32
    → fill_step n (pos r, d) ≡ filled n m old r d
unfolding fill_step
fill_step-filled n m r old d u e le k k' =
    let a = min r (m - old) in
    rw
      (
        u,
        e,
        -ℤ_pos m old le,
        wrap32_pos_id (m - old) (omega arith),
        min_ℤ-pos r (m - old),
        -ℤ_pos r a (omega arith),
        wrap32_pos_id (r - a) (omega arith),
        +ℤ_pos,
        wrap32_pos_id (old + a) (omega arith),
      )
      (ground arith)

filled-Gift :
    (n : WorkerNode) (m r old : ℕ) (d : Dict ℤ)
    → n.max_vus ≡ pos m
    → vus_of n.id d ≡ pos old
    → old ≤ m
    → Gift n (min r (m - old)) (old + min r (m - old)) d (filled n m old r d).1
filled-Gift n m r old d u e le = elim (Bool-cases (ltb old m)) [
  | inl b ↦ rw b (insert-Gift n old (min r (m - old)) d e (rw u (omega arith)))
  | inr b ↦
      let full : m ≡ old = ground arith in
      rw b (record {
        holds = rw e (ground arith);
        within = rw u (omega arith);
        grown = omega int_laws;
        others = λ j h. refl;
      })
]

pub fill_round-Filled :
    (ns : List WorkerNode) (r : ℕ) (d : Dict ℤ)
    → All (λ n. neg_part n.max_vus ≡ 0) ns
    → IsDistinct ns
    → room ns < half32
    → All (Fits d) ns
    → r < half32
    → Filled ns r d (fill_round ns (pos r, d))
unfolding fill_round
fill_round-Filled [] r d z u b f k = (Placed-refl [] r d tt, λ h. ground arith)
fill_round-Filled (n ∷ ns) r d z u b f k = elim (Bool-cases (leb_ℤ (pos r) (pos 0))) [
  | inl e ↦ rw (e, fill_round) (Placed-refl (n ∷ ns) r d f, λ h. ground arith)
  | inr e ↦
      let m = pos_part n.max_vus in
      let old = pos_part (vus_of n.id d) in
      let a = min r (m - old) in
      let d' = (filled n m old r d).1 in
      let cap : n.max_vus ≡ pos m = pos_of_nonneg n.max_vus z.0 in
      let has : vus_of n.id d ≡ pos old = pos_of_nonneg (vus_of n.id d) f.0.0 in
      let g = filled-Gift n m r old d cap has f.0.1 in
      let later =
        fill_round-Filled ns (r - a) d' z.1 u.1 (omega arith)
          (Fits-SameBut n.id d d' g.others ns u.0 f.1) (omega arith) in
      rw (e, fill_round, fill_step-filled n m r old d cap has f.0.1 (omega arith) k)
        (
          Placed-cons g ns r _ (omega arith) u.0 later.0,
          λ h.
              later.1 (
                rw (used-SameBut n.id d d' g.others ns u.0) (omega (arith, used-le-room ns d f.1))),
        )
]

-- ===== src/Orchestrator/Distributor/Capacity.antt =====
-- What a distribution adds up to, and the fleets on which int32 arithmetic does not wrap.
use text.Mathlib.TextPositions.{eq_refl}
use go_sentinel.Base.{
  ℕ, ◌+◌, ◌≤◌, ◌<◌, ◌≡◌, refl, String, List, [], ◌∷◌, false, inl, inr, str_eq, eq_iff, arith,
  if◌then◌else◌, All, Bool-cases,
}
use go_sentinel.Base.Int.{
  ℤ, pos, negsuc, pos_part, neg_part, ◌+ℤ◌, ltb_ℤ, parts_of_eq, half32, wrap32, wrap32_id, +ℤ_pos,
  int_laws,
}
use go_sentinel.Base.Dict.{Dict, get_or, insert, get_or-insert}
use go_sentinel.Models.{WorkerNode, Stage}
use go_sentinel.Orchestrator.Distributor.{peak_vus, total_capacity}

-- The VUs of a map from workers to VUs, with no wrap-around.
abbrev pub sum_vus : Dict ℤ → ℤ
sum_vus [] = pos 0
sum_vus ((k, v) ∷ m) = v +ℤ sum_vus m

abbrev pub room : List WorkerNode → ℕ
room [] = 0
room (n ∷ ns) = pos_part n.max_vus + room ns

-- The nodes of a map have distinct keys.
abbrev pub IsAbsent : String → List WorkerNode → Type 0
IsAbsent k ns = All (λ n. str_eq k n.id ≡ false) ns

abbrev pub IsDistinct : List WorkerNode → Type 0
IsDistinct [] = Unit
IsDistinct (n ∷ ns) = IsAbsent n.id ns × IsDistinct ns

-- Capacities are not negative, no two nodes share an id, and the int32 sums stay in range.
pub record IsFleet (ns : List WorkerNode) : Type 0 where
  pub nonneg : All (λ n. neg_part n.max_vus ≡ 0) ns
  pub distinct : IsDistinct ns
  pub in_range : room ns < half32

pub pos_of_nonneg : (z : ℤ) → neg_part z ≡ 0 → z ≡ pos (pos_part z)
pos_of_nonneg (pos n) h = refl
pos_of_nonneg (negsuc n) h = ground arith

pub wrap32_pos_id : (n : ℕ) → n < half32 → wrap32 (pos n) ≡ pos n
wrap32_pos_id n h = wrap32_id (pos n) (omega arith)

pub total_capacity-eq-room :
    (acc : ℕ) (ns : List WorkerNode)
    → All (λ n. neg_part n.max_vus ≡ 0) ns
    → acc + room ns < half32
    → total_capacity (pos acc) ns ≡ pos (acc + room ns)
unfolding total_capacity
total_capacity-eq-room acc [] h r = ground arith
total_capacity-eq-room acc (n ∷ ns) h r =
    rw (pos_of_nonneg n.max_vus h.0, +ℤ_pos, wrap32_pos_id (acc + pos_part n.max_vus) (omega arith))
      (ground (arith, total_capacity-eq-room (acc + pos_part n.max_vus) ns h.1))

pub peak_vus-nonneg :
    (acc : ℤ) (ss : List Stage) → neg_part acc ≡ 0 → neg_part (peak_vus acc ss) ≡ 0
unfolding peak_vus
peak_vus-nonneg acc [] h = h
peak_vus-nonneg acc (s ∷ ss) h =
    peak_vus-nonneg (if ltb_ℤ acc s.target_vus then s.target_vus else acc) ss (ground arith)

abbrev pub vus_of : String → Dict ℤ → ℤ
vus_of k d = get_or (pos 0) k d

pub sum_vus-insert :
    (k : String) (v : ℤ) (d : Dict ℤ) → sum_vus (insert k v d) +ℤ vus_of k d ≡ sum_vus d +ℤ v
unfolding insert get_or
sum_vus-insert k v [] = omega int_laws
sum_vus-insert k v ((j, w) ∷ d) = elim (Bool-cases (str_eq j k)) [
  | inl e ↦ rw e (omega int_laws)
  | inr e ↦ rw e (omega (int_laws, parts_of_eq (sum_vus-insert k v d)))
]

-- The VUs that the nodes of a list hold.
abbrev pub used : List WorkerNode → Dict ℤ → ℕ
used [] d = 0
used (n ∷ ns) d = pos_part (vus_of n.id d) + used ns d

-- What a node holds is not negative, and within its capacity.
abbrev pub Fits : Dict ℤ → WorkerNode → Type 0
Fits d n = (neg_part (vus_of n.id d) ≡ 0) × (pos_part (vus_of n.id d) ≤ pos_part n.max_vus)

pub used-le-room : (ns : List WorkerNode) (d : Dict ℤ) → All (Fits d) ns → used ns d ≤ room ns
used-le-room [] d h = omega arith
used-le-room (n ∷ ns) d h = omega (arith, used-le-room ns d h.1)

pub vus_of-insert_ne :
    (k j : String) (v : ℤ) (d : Dict ℤ) → str_eq k j ≡ false → vus_of j (insert k v d) ≡ vus_of j d
vus_of-insert_ne k j v d h = rw (get_or-insert (pos 0) k j v d, h)

pub vus_of-insert_self : (k : String) (v : ℤ) (d : Dict ℤ) → vus_of k (insert k v d) ≡ v
vus_of-insert_self k v d = rw (get_or-insert (pos 0) k k v d, eq_refl k)

pub str_eq_sym : (k j : String) → str_eq k j ≡ false → str_eq j k ≡ false
str_eq_sym k j h = ground (arith, eq_iff k j, eq_iff j k)

-- Two maps that agree but for one key.
abbrev pub SameBut : String → Dict ℤ → Dict ℤ → Type 0
SameBut k d d' = (j : String) → str_eq k j ≡ false → vus_of j d' ≡ vus_of j d

abbrev pub IsFresh : Dict ℤ → WorkerNode → Type 0
IsFresh d n = vus_of n.id d ≡ pos 0

module _ (k : String) (d d' : Dict ℤ) (same : SameBut k d d') where
  pub used-SameBut : (ns : List WorkerNode) → IsAbsent k ns → used ns d' ≡ used ns d
  used-SameBut [] h = refl
  used-SameBut (n ∷ ns) h = rw (same n.id h.0, used-SameBut ns h.1)

  pub Fits-SameBut : (ns : List WorkerNode) → IsAbsent k ns → All (Fits d) ns → All (Fits d') ns
  Fits-SameBut [] a h = tt
  Fits-SameBut (n ∷ ns) a h = (rw (same n.id a.0) h.0, Fits-SameBut ns a.1 h.1)

  pub IsFresh-SameBut :
      (ns : List WorkerNode) → IsAbsent k ns → All (IsFresh d) ns → All (IsFresh d') ns
  IsFresh-SameBut [] a h = tt
  IsFresh-SameBut (n ∷ ns) a h = (rw (same n.id a.0) h.0, IsFresh-SameBut ns a.1 h.1)

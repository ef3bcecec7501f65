-- ===== src/Orchestrator/Ring/Owners.antt =====
-- Which node a ring gives a key to, and what adding or removing a node changes.
use go_sentinel.Base.{
  ℕ, zero, suc, String, List, [], ◌∷◌, str_eq, eq_iff, ◌==◌, if◌then◌else◌, arith, ◌≡◌, ◌≢◌, ◌⊎◌,
  inl, inr, Bool-cases, All, ◌↔◌,
}
use go_sentinel.Orchestrator.Ring.{
  Ring, new_ring, owner_of, add_from, remove, without_owner, hashes, set_owner, virtual_key,
}
use go_sentinel.Orchestrator.Ring.Order.{IsSorted, IsIn, sort_keys-IsSorted, sort_keys_iff}

-- The keys are sorted, and are the hashes that have an owner.
pub record IsRing (ring : Ring) : Type 0 where
  pub sorted : IsSorted ring.keys
  pub owned : (k : ℕ) → IsIn k ring.keys ↔ IsIn k (hashes ring.hash_map)

pub IsRing-new : IsRing new_ring
unfolding hashes
IsRing-new = record { sorted = tt; owned = λ k. (λ h. h, λ h. h) }

pub hashes-set_owner :
    (i h : ℕ) (id : String) (m : List (ℕ × String))
    → IsIn i (hashes (set_owner h id m)) ↔ ((i ≡ h) ⊎ IsIn i (hashes m))
unfolding hashes set_owner
hashes-set_owner i h id [] = ground arith
hashes-set_owner i h id ((k, j) ∷ m) = ground (arith, hashes-set_owner i h id m)

pub owner_of-set_owner :
    (i h : ℕ) (id : String) (m : List (ℕ × String))
    → owner_of i (set_owner h id m) ≡ (if h == i then id else owner_of i m)
unfolding owner_of set_owner
owner_of-set_owner i h id [] = ground arith
owner_of-set_owner i h id ((k, j) ∷ m) = ground (arith, owner_of-set_owner i h id m)

-- An entry whose owner is another node stays, with its owner.
pub owner_of-without_owner :
    (k : ℕ) (node : String) (m : List (ℕ × String))
    → IsIn k (hashes m)
    → owner_of k m ≢ node
    → IsIn k (hashes (without_owner node m)) × (owner_of k (without_owner node m) ≡ owner_of k m)
unfolding hashes owner_of without_owner
owner_of-without_owner k node [] i h = elim i [ ]
owner_of-without_owner k node ((j, id) ∷ m) i h =
    ground (arith, eq_iff id node, owner_of-without_owner k node m)

-- What is left has other owners, and was there.
pub without_owner_lem :
    (k : ℕ) (node : String) (m : List (ℕ × String))
    → IsIn k (hashes (without_owner node m))
    → IsIn k (hashes m) × (owner_of k (without_owner node m) ≢ node)
unfolding hashes owner_of without_owner
without_owner_lem k node [] i = elim i [ ]
without_owner_lem k node ((j, id) ∷ m) i =
    ground (arith, eq_iff id node, without_owner_lem k node m)

pub remove-IsRing : (node : String) (ring : Ring) → IsRing (remove node ring)
unfolding remove
remove-IsRing node ring = record {
  sorted = sort_keys-IsSorted (hashes (without_owner node ring.hash_map));
  owned = λ k. sort_keys_iff k (hashes (without_owner node ring.hash_map));
}

-- Every owner that the map names has the property `P`.
abbrev pub AllOwners : (String → Type 0) → List (ℕ × String) → Type 0
AllOwners P m = All (λ e. P e.1) m

pub AllOwners-owner_of :
    (P : String → Type 0) (k : ℕ) (m : List (ℕ × String))
    → IsIn k (hashes m)
    → AllOwners P m
    → P (owner_of k m)
unfolding hashes owner_of
AllOwners-owner_of P k [] i h = elim i [ ]
AllOwners-owner_of P k ((j, id) ∷ m) i (h, hs) = elim (Bool-cases (j == k)) [
  | inl e ↦ rw (e, owner_of) h
  | inr e ↦ rw (e, owner_of) (AllOwners-owner_of P k m (ground arith) hs)
]

pub AllOwners-set_owner :
    (P : String → Type 0) (k : ℕ) (id : String) (m : List (ℕ × String))
    → P id
    → AllOwners P m
    → AllOwners P (set_owner k id m)
unfolding set_owner
AllOwners-set_owner P k id [] p h = (p, tt)
AllOwners-set_owner P k id ((j, i) ∷ m) p (h, hs) = elim (Bool-cases (j == k)) [
  | inl e ↦ rw (e, set_owner) (p, hs)
  | inr e ↦ rw (e, set_owner) (h, AllOwners-set_owner P k id m p hs)
]

pub AllOwners-add_from :
    (sum : String → ℕ → ℕ) (P : String → Type 0) (node : String) (rounds i : ℕ) (ring : Ring)
    → P node
    → AllOwners P ring.hash_map
    → AllOwners P (add_from sum node rounds i ring).hash_map
unfolding add_from
AllOwners-add_from sum P node zero i ring p h = h
AllOwners-add_from sum P node (suc rounds) i ring p h =
    AllOwners-add_from sum P node rounds (suc i) _ p
      (AllOwners-set_owner P (virtual_key sum node i) node ring.hash_map p h)

pub AllOwners-without_owner :
    (P Q : String → Type 0) (node : String) (m : List (ℕ × String))
    → ((id : String) → id ≢ node → P id → Q id)
    → AllOwners P m
    → AllOwners Q (without_owner node m)
unfolding without_owner
AllOwners-without_owner P Q node [] f h = tt
AllOwners-without_owner P Q node ((j, id) ∷ m) f (h, hs) = elim (Bool-cases (str_eq id node)) [
  | inl e ↦ rw (e, without_owner) (AllOwners-without_owner P Q node m f hs)
  | inr e ↦
      rw (e, without_owner)
        (f id (ground (arith, eq_iff id node)) h, AllOwners-without_owner P Q node m f hs)
]

pub AllOwners-map :
    (P Q : String → Type 0) (m : List (ℕ × String))
    → ((id : String) → P id → Q id)
    → AllOwners P m
    → AllOwners Q m
AllOwners-map P Q [] f h = tt
AllOwners-map P Q ((j, id) ∷ m) f (h, hs) = (f id h, AllOwners-map P Q m f hs)

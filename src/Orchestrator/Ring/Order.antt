-- ===== src/Orchestrator/Ring/Order.antt =====
-- The order of a ring's keys.
use go_sentinel.Base.{
  ℕ, List, [], ◌∷◌, true, false, leb, ltb, arith, ◌≡◌, ◌≤◌, ◌<◌, refl, All, ◌⊎◌, inl, inr,
  Bool-cases, ◌↔◌,
}
use go_sentinel.Orchestrator.Ring.{insert_key, sort_keys, search}

abbrev pub IsBelow : ℕ → List ℕ → Type 0
IsBelow k ks = All (λ j. k ≤ j) ks

abbrev pub IsSorted : List ℕ → Type 0
IsSorted [] = Unit
IsSorted (k ∷ ks) = IsBelow k ks × IsSorted ks

-- `k` occurs in the list.
abbrev pub IsIn : ℕ → List ℕ → Type 0
IsIn k [] = ⊥
IsIn k (j ∷ ks) = (k ≡ j) ⊎ IsIn k ks

insert_key-IsBelow : (b k : ℕ) (ks : List ℕ) → b ≤ k → IsBelow b ks → IsBelow b (insert_key k ks)
unfolding insert_key
insert_key-IsBelow b k [] h hs = (h, tt)
insert_key-IsBelow b k (j ∷ ks) h hs = ground (arith, insert_key-IsBelow b k ks h hs.1)

weaken : (b k : ℕ) (ks : List ℕ) → b ≤ k → IsBelow k ks → IsBelow b ks
weaken b k [] h hs = tt
weaken b k (j ∷ ks) h hs = (omega (arith, hs.0), weaken b k ks h hs.1)

insert_key-IsSorted : (k : ℕ) (ks : List ℕ) → IsSorted ks → IsSorted (insert_key k ks)
unfolding insert_key
insert_key-IsSorted k [] h = (tt, tt)
insert_key-IsSorted k (j ∷ ks) (b, h) = elim (Bool-cases (ltb j k)) [
  | inl e ↦ rw e (insert_key-IsBelow j k ks (ground arith) b, insert_key-IsSorted k ks h)
  | inr e ↦ rw e ((ground arith, weaken k j ks (ground arith) b), (b, h))
]

pub sort_keys-IsSorted : (ks : List ℕ) → IsSorted (sort_keys ks)
unfolding sort_keys
sort_keys-IsSorted [] = tt
sort_keys-IsSorted (k ∷ ks) = insert_key-IsSorted k (sort_keys ks) (sort_keys-IsSorted ks)

insert_key_iff : (i k : ℕ) (ks : List ℕ) → IsIn i (insert_key k ks) ↔ ((i ≡ k) ⊎ IsIn i ks)
unfolding insert_key
insert_key_iff i k [] = ground arith
insert_key_iff i k (j ∷ ks) = ground (arith, insert_key_iff i k ks)

pub sort_keys_iff : (i : ℕ) (ks : List ℕ) → IsIn i (sort_keys ks) ↔ IsIn i ks
unfolding sort_keys
sort_keys_iff i [] = ground arith
sort_keys_iff i (k ∷ ks) = ground (arith, insert_key_iff i k (sort_keys ks), sort_keys_iff i ks)

-- What `Get` looks up: the nearest key of the ring at or after the hash, or its first key where
-- every key is less than the hash.
pub record IsNearest (hash k : ℕ) (ks : List ℕ) : Type 0 where
  pub is_in : IsIn k ks
  pub at_least : hash ≤ k
  pub nearest : (j : ℕ) → IsIn j ks → hash ≤ j → k ≤ j

pub record IsWrapped (hash first k : ℕ) (ks : List ℕ) : Type 0 where
  pub all_less : (j : ℕ) → IsIn j ks → j < hash
  pub is_first : k ≡ first

abbrev pub IsFound : ℕ → ℕ → ℕ → List ℕ → Type 0
IsFound hash first k ks = IsNearest hash k ks ⊎ IsWrapped hash first k ks

below_IsIn : (k j : ℕ) (ks : List ℕ) → IsBelow k ks → IsIn j ks → k ≤ j
below_IsIn k j [] hs e = elim e [ ]
below_IsIn k j (i ∷ ks) (h, hs) (inl e) = omega (arith, h, e)
below_IsIn k j (i ∷ ks) (h, hs) (inr e) = below_IsIn k j ks hs e

hit : (hash first k : ℕ) (ks : List ℕ) → leb hash k ≡ true → search hash first (k ∷ ks) ≡ k
unfolding search
hit hash first k ks e = rw e

miss :
    (hash first k : ℕ) (ks : List ℕ)
    → leb hash k ≡ false
    → search hash first (k ∷ ks) ≡ search hash first ks
unfolding search
miss hash first k ks e = rw e

nil-IsFound : (hash first : ℕ) → IsFound hash first (search hash first []) []
unfolding search
nil-IsFound hash first = inr (record { all_less = λ j h. ground arith; is_first = refl })

later :
    (hash first k m : ℕ) (ks : List ℕ)
    → k < hash
    → IsFound hash first m ks
    → IsFound hash first m (k ∷ ks)
later hash first k m ks less (inl n) = inl (record {
  is_in = inr n.is_in;
  at_least = n.at_least;
  nearest = λ j h le. elim h [ inl e ↦ omega (arith, e, le, less) | inr i ↦ n.nearest j i le ];
})
later hash first k m ks less (inr w) = inr (record {
  all_less = λ j h. elim h [ inl e ↦ omega (arith, e, less) | inr i ↦ w.all_less j i ];
  is_first = w.is_first;
})

pub search-IsFound :
    (hash first : ℕ) (ks : List ℕ) → IsSorted ks → IsFound hash first (search hash first ks) ks
search-IsFound hash first [] h = nil-IsFound hash first
search-IsFound hash first (k ∷ ks) (b, h) = elim (Bool-cases (leb hash k)) [
  | inl e ↦ rw (hit hash first k ks e) (
      inl (record {
        is_in = inl refl;
        at_least = ground arith;
        nearest = λ j i le. elim i [ inl d ↦ omega (arith, d) | inr d ↦ below_IsIn k j ks b d ];
      }))
  | inr e ↦
      rw (miss hash first k ks e) (
        later hash first k (search hash first ks) ks (ground arith)
          (search-IsFound hash first ks h))
]

-- The key that a hash belongs to: the nearest key at or after it, or the least key of all where
-- every key is less than the hash.
pub record IsSuccessor (hash k : ℕ) (ks : List ℕ) : Type 0 where
  pub is_in : IsIn k ks
  pub place :
      ((hash ≤ k) × ((j : ℕ) → IsIn j ks → hash ≤ j → k ≤ j))
      ⊎ ((j : ℕ) → IsIn j ks → (j < hash) × (k ≤ j))

pub search-IsSuccessor :
    (hash first : ℕ) (ks : List ℕ)
    → IsSorted (first ∷ ks)
    → IsSuccessor hash (search hash first (first ∷ ks)) (first ∷ ks)
search-IsSuccessor hash first ks (b, h) = elim (search-IsFound hash first (first ∷ ks) (b, h)) [
  | inl n ↦ record { is_in = n.is_in; place = inl (n.at_least, n.nearest) }
  | inr w ↦
      rw w.is_first (record { is_in = inl refl; place = inr (λ j i. (w.all_less j i, least j i)) })
]
  where
    least : (j : ℕ) → IsIn j (first ∷ ks) → first ≤ j
    least j (inl e) = omega (arith, e)
    least j (inr i) = below_IsIn first j ks b i

pub IsSuccessor-unique :
    (hash k j : ℕ) (ks : List ℕ) → IsSuccessor hash k ks → IsSuccessor hash j ks → k ≡ j
IsSuccessor-unique hash k j ks h g = unique h.place g.place
  where
    unique :
        ((hash ≤ k) × ((i : ℕ) → IsIn i ks → hash ≤ i → k ≤ i))
          ⊎ ((i : ℕ) → IsIn i ks → (i < hash) × (k ≤ i))
        → ((hash ≤ j) × ((i : ℕ) → IsIn i ks → hash ≤ i → j ≤ i))
          ⊎ ((i : ℕ) → IsIn i ks → (i < hash) × (j ≤ i))
        → k ≡ j
    unique (inl (a, f)) (inl (b, e)) = omega (arith, f j g.is_in b, e k h.is_in a)
    unique (inl (a, f)) (inr e) = omega (arith, (e k h.is_in).0, a)
    unique (inr f) (inl (b, e)) = omega (arith, (f j g.is_in).0, b)
    unique (inr f) (inr e) = omega (arith, (f j g.is_in).1, (e k h.is_in).1)

pub IsSuccessor-subset :
    (hash k : ℕ) (ks js : List ℕ)
    → ((i : ℕ) → IsIn i js → IsIn i ks)
    → IsIn k js
    → IsSuccessor hash k ks
    → IsSuccessor hash k js
IsSuccessor-subset hash k ks js sub i h = record {
  is_in = i;
  place = elim h.place [
    | inl (a, f) ↦ inl (a, λ j m. f j (sub j m))
    | inr f ↦ inr (λ j m. f j (sub j m))
  ];
}

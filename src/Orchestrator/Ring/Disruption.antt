-- ===== src/Orchestrator/Ring/Disruption.antt =====
-- What adding or removing a node changes for the keys of the other nodes.
use go_sentinel.Base.{
  ℕ, zero, suc, String, List, [], ◌∷◌, false, ◌==◌, arith, ◌≡◌, ◌≢◌, refl, sym, ◌∙◌, ◌⊎◌, inl, inr,
  Bool-cases, ◌↔◌,
}
use go_sentinel.Orchestrator.Ring.{
  Ring, search, owner_of, owner_at, add, add_from, remove, get, hash_key, without_owner, hashes,
  set_owner, virtual_key, virtual_nodes,
}
use go_sentinel.Orchestrator.Ring.Order.{
  IsSorted, IsIn, sort_keys-IsSorted, sort_keys_iff, IsSuccessor, search-IsSuccessor,
  IsSuccessor-unique, IsSuccessor-subset,
}
use go_sentinel.Orchestrator.Ring.Owners.{
  IsRing, hashes-set_owner, owner_of-set_owner, owner_of-without_owner, without_owner_lem,
  remove-IsRing,
}

-- What the ring answers for a hash: nothing where it has no key, else the successor's owner.
abbrev pub IsAnswer : ℕ → List (ℕ × String) → List ℕ → String → Type 0
IsAnswer hash m ks id =
    ((ks ≡ []) × (id ≡ "")) ⊎ ((k : ℕ) × IsSuccessor hash k ks × (id ≡ owner_of k m))

owner_at-IsAnswer :
    (hash : ℕ) (m : List (ℕ × String)) (ks : List ℕ)
    → IsSorted ks
    → IsAnswer hash m ks (owner_at hash m ks)
unfolding owner_at
owner_at-IsAnswer hash m [] h = inl (refl, refl)
owner_at-IsAnswer hash m (first ∷ ks) h =
    inr (search hash first (first ∷ ks), search-IsSuccessor hash first ks h, refl)

no_key : (k : ℕ) (ks : List ℕ) → ks ≡ [] → IsIn k ks → ⊥
no_key k [] e i = i
no_key k (j ∷ ks) e i = ground arith

apart : (h k : ℕ) → (h == k) ≡ false → k ≡ h → ⊥
apart h k d e = ground arith

module _ (sum : String → ℕ → ℕ) where
  -- On a ring with sorted keys `Get` returns the empty text where there is no key, else the owner
  -- of the nearest key at or after the hash of its argument, or of the least key where all are less.
  pub get-IsAnswer :
      (ring : Ring) (key : String)
      → IsSorted ring.keys
      → IsAnswer (hash_key sum key) ring.hash_map ring.keys (get sum ring key)
  unfolding get
  get-IsAnswer ring key h = owner_at-IsAnswer (hash_key sum key) ring.hash_map ring.keys h

  get_successor :
      (ring : Ring) (key : String) (k : ℕ)
      → IsSorted ring.keys
      → IsSuccessor (hash_key sum key) k ring.keys
      → get sum ring key ≡ owner_of k ring.hash_map
  get_successor ring key k h s = elim (get-IsAnswer ring key h) [
    | inl (e, nothing) ↦ elim (no_key k ring.keys e s.is_in) [ ]
    | inr (j, t, e) ↦ rw (e, IsSuccessor-unique (hash_key sum key) j k ring.keys t s)
  ]

  -- On a ring whose keys are sorted and are the hashes that have an owner, for a node whose id is not
  -- empty: after `Remove` the node is given no key, and every key that another node had stays with
  -- it.
  pub get-remove :
      (node : String) (ring : Ring) (key : String)
      → IsRing ring
      → node ≢ ""
      → (get sum (remove node ring) key ≢ node)
        × (get sum ring key ≢ node → get sum (remove node ring) key ≡ get sum ring key)
  unfolding remove
  get-remove node ring key h some_node = (gone, kept)
    where
      hash : ℕ
      hash = hash_key sum key

      left : Ring
      left = remove node ring

      is_left : (k : ℕ) → IsIn k left.keys ↔ IsIn k (hashes (without_owner node ring.hash_map))
      is_left k = (remove-IsRing node ring).owned k

      sub : (k : ℕ) → IsIn k left.keys → IsIn k ring.keys
      sub k i = (h.owned k).1 (without_owner_lem k node ring.hash_map ((is_left k).0 i)).0

      gone : get sum left key ≢ node
      gone same = elim (get-IsAnswer left key (remove-IsRing node ring).sorted) [
        | inl (e, nothing) ↦ some_node (sym same ∙ nothing)
        | inr (k, s, e) ↦
            (without_owner_lem k node ring.hash_map ((is_left k).0 s.is_in)).1 (sym e ∙ same)
      ]

      kept : get sum ring key ≢ node → get sum left key ≡ get sum ring key
      kept other = elim (get-IsAnswer ring key h.sorted) [
        | inl (e, nothing) ↦ elim (get-IsAnswer left key (remove-IsRing node ring).sorted) [
          | inl (d, none_left) ↦ none_left ∙ sym nothing
          | inr (k, s, d) ↦ elim (no_key k ring.keys e (sub k s.is_in)) [ ]
        ]
        | inr (k, s, e) ↦
            let was = (h.owned k).0 s.is_in in
            let (stays, same) =
              owner_of-without_owner k node ring.hash_map was (λ d. other (e ∙ d)) in
            let s' = IsSuccessor-subset hash k ring.keys left.keys sub ((is_left k).1 stays) s in
            get_successor left key k (remove-IsRing node ring).sorted s' ∙ same ∙ sym e
      ]

  -- What a round of `Add` does to a hash: it goes to the node, or it stays as it was.
  IsAdded : String → ℕ → Ring → Ring → Type 0
  IsAdded node k ring added =
      (IsIn k ring.keys → IsIn k added.keys)
      × ((owner_of k added.hash_map ≡ node)
          ⊎ ((owner_of k added.hash_map ≡ owner_of k ring.hash_map)
              × (IsIn k added.keys → IsIn k ring.keys)))

  add_from-IsAdded :
      (node : String) (rounds i : ℕ) (ring : Ring) (k : ℕ)
      → IsAdded node k ring (add_from sum node rounds i ring)
  unfolding IsAdded add_from
  add_from-IsAdded node zero i ring k = (λ h. h, inr (refl, λ h. h))
  add_from-IsAdded node (suc rounds) i ring k =
      let hash = virtual_key sum node i in
      let next : Ring = record {
        hash_map = set_owner hash node ring.hash_map;
        keys = hash ∷ ring.keys;
      } in
      let (keeps, rest) = add_from-IsAdded node rounds (suc i) next k in
      (
        λ h. keeps (inr h),
        elim rest [
          | inl e ↦ inl e
          | inr (e, f) ↦
              let owner = owner_of-set_owner k hash node ring.hash_map in
              elim (Bool-cases (hash == k)) [
                | inl d ↦ inl (e ∙ owner ∙ rw d)
                | inr d ↦ inr (
                  e ∙ owner ∙ rw d,
                  λ h. elim (f h) [ inl same ↦ elim (apart hash k d same) [ ] | inr old ↦ old ],
                )
              ]
        ],
      )

  add_from-owned :
      (node : String) (rounds i : ℕ) (ring : Ring)
      → ((k : ℕ) → IsIn k ring.keys ↔ IsIn k (hashes ring.hash_map))
      → (k : ℕ)
      → IsIn k (add_from sum node rounds i ring).keys
        ↔ IsIn k (hashes (add_from sum node rounds i ring).hash_map)
  unfolding add_from
  add_from-owned node zero i ring h k = h k
  add_from-owned node (suc rounds) i ring h k =
      let hash = virtual_key sum node i in
      let next : Ring = record {
        hash_map = set_owner hash node ring.hash_map;
        keys = hash ∷ ring.keys;
      } in
      add_from-owned node rounds (suc i) next
        (λ j. ground (arith, h j, hashes-set_owner j hash node ring.hash_map)) k

  pub add-IsRing : (node : String) (ring : Ring) → IsRing ring → IsRing (add sum node ring)
  unfolding add
  add-IsRing node ring h =
      let added = add_from sum node virtual_nodes 0 ring in
      record {
        sorted = sort_keys-IsSorted added.keys;
        owned = λ k.
            let (to, from) = sort_keys_iff k added.keys in
            let (to', from') = add_from-owned node virtual_nodes 0 ring h.owned k in
            (λ i. to' (to i), λ i. from (from' i));
      }

  -- On a ring whose keys are sorted and are the hashes that have an owner: after `Add`, a key belongs
  -- to the new node or to the node that had it.
  pub get-add :
      (node : String) (ring : Ring) (key : String)
      → IsRing ring
      → (get sum (add sum node ring) key ≡ node)
        ⊎ (get sum (add sum node ring) key ≡ get sum ring key)
  unfolding add IsAdded
  get-add node ring key h = elim (get-IsAnswer now key (add-IsRing node ring h).sorted) [
    | inl (e, nothing) ↦ elim (get-IsAnswer ring key h.sorted) [
      | inl (d, nothing_before) ↦ inr (nothing ∙ sym nothing_before)
      | inr (k, s, d) ↦ elim (no_key k now.keys e (into k s.is_in)) [ ]
    ]
    | inr (k, s, e) ↦
        let (keeps, goes) = at k in
        elim goes [
          | inl to_node ↦ inl (e ∙ to_node)
          | inr (same, was_in) ↦
              let s' =
                IsSuccessor-subset hash k now.keys ring.keys (λ j. into j)
                  (was_in ((sort_keys_iff k added.keys).0 s.is_in)) s in
              inr (e ∙ same ∙ sym (get_successor ring key k h.sorted s'))
        ]
  ]
    where
      hash : ℕ
      hash = hash_key sum key

      added : Ring
      added = add_from sum node virtual_nodes 0 ring

      now : Ring
      now = add sum node ring

      at : (k : ℕ) → IsAdded node k ring added
      at k = add_from-IsAdded node virtual_nodes 0 ring k

      into : (k : ℕ) → IsIn k ring.keys → IsIn k now.keys
      into k i = (sort_keys_iff k added.keys).1 ((at k).0 i)

-- ===== src/Orchestrator/Ring.antt =====
-- The consistent hash ring of internal/orchestrator/node_manager.go. SHA-256 is a parameter:
-- `sum key i` is the i-th byte of the digest of a text.
pub mod Order
pub mod Owners
pub mod Disruption
use go_sentinel.Base.{
  ℕ, zero, suc, ◌+◌, ◌*◌, ◌^◌, String, List, [], ◌∷◌, Option, none, some, Bool, true, false, str_eq,
  leb, ltb, ◌==◌, if◌then◌else◌,
}
use go_sentinel.Base.Text.{decimal}
use Prim.Native.String

pub record Ring : Type 0 where
  pub keys : List ℕ
  pub hash_map : List (ℕ × String)

abbrev pub new_ring : Ring
new_ring = record { keys = []; hash_map = [] }

unfoldable pub owner_of : ℕ → List (ℕ × String) → String
owner_of h [] = ""
owner_of h ((k, id) ∷ m) = if k == h then id else owner_of h m

-- `hashMap[h] = id`
unfoldable pub set_owner : ℕ → String → List (ℕ × String) → List (ℕ × String)
set_owner h id [] = (h, id) ∷ []
set_owner h id ((k, j) ∷ m) = if k == h then (k, id) ∷ m else (k, j) ∷ set_owner h id m

insert_key : ℕ → List ℕ → List ℕ
insert_key k [] = k ∷ []
insert_key k (j ∷ ks) = let rest = insert_key k ks in if ltb j k then j ∷ rest else k ∷ j ∷ ks

-- `sort.Slice` of numbers by <
unfoldable pub sort_keys : List ℕ → List ℕ
unfolding insert_key
sort_keys [] = []
sort_keys (k ∷ ks) = insert_key k (sort_keys ks)

abbrev pub virtual_nodes : ℕ
virtual_nodes = 100

-- The entries whose owner is not `node_id`; `Remove` keeps their hashes as keys.
unfoldable pub without_owner : String → List (ℕ × String) → List (ℕ × String)
without_owner node_id [] = []
without_owner node_id ((k, id) ∷ m) =
    let rest = without_owner node_id m in if str_eq id node_id then rest else (k, id) ∷ rest

unfoldable pub hashes : List (ℕ × String) → List ℕ
hashes [] = []
hashes ((k, id) ∷ m) = k ∷ hashes m

unfoldable pub remove : String → Ring → Ring
unfolding without_owner hashes sort_keys
remove node_id ring = record {
  hash_map = without_owner node_id ring.hash_map;
  keys = sort_keys (hashes (without_owner node_id ring.hash_map));
}

-- `sort.Search` for the first key that is not less than `hash`, with the wrap-around to the first
-- key of all.
unfoldable pub search : ℕ → ℕ → List ℕ → ℕ
search hash first [] = first
search hash first (k ∷ ks) = let rest = search hash first ks in if leb hash k then k else rest

unfoldable pub owner_at : ℕ → List (ℕ × String) → List ℕ → String
owner_at hash m [] = ""
owner_at hash m (first ∷ ks) = owner_of (search hash first (first ∷ ks)) m

module _ (sum : String → ℕ → ℕ) where
  unfoldable pub hash_key : String → ℕ
  hash_key key = sum key 0 * 2 ^ 24 + sum key 1 * 2 ^ 16 + sum key 2 * 2 ^ 8 + sum key 3

  unfoldable pub virtual_key : String → ℕ → ℕ
  virtual_key node_id i = hash_key (String.◌++◌ node_id (String.◌++◌ ":" (decimal i)))

  -- The loop of `Add` from its i-th round, `rounds` of which are left.
  unfoldable pub add_from : String → ℕ → ℕ → Ring → Ring
  add_from node_id zero i ring = ring
  add_from node_id (suc rounds) i ring =
      let hash = virtual_key node_id i in
      add_from node_id rounds (suc i)
        (record { hash_map = set_owner hash node_id ring.hash_map; keys = hash ∷ ring.keys })

  unfoldable pub add : String → Ring → Ring
  add node_id ring =
      let added = add_from node_id virtual_nodes 0 ring in
      record { hash_map = added.hash_map; keys = sort_keys added.keys }

  unfoldable pub get : Ring → String → String
  unfolding owner_at
  get ring key = owner_at (hash_key key) ring.hash_map ring.keys

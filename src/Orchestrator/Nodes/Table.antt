-- ===== src/Orchestrator/Nodes/Table.antt =====
-- The node table and the ring name the same nodes.
use go_sentinel.Base.{
  ℕ, String, none, Bool, str_eq, eq_iff, arith, ◌≡◌, ◌≢◌, ◌⊎◌, inl, inr, Bool-cases, Option-cases,
}
use go_sentinel.Base.Int.{ℤ}
use go_sentinel.Base.Dict.{Dict, lookup, insert, delete, lookup-insert, lookup-delete}
use go_sentinel.Base.Result.{ok, err}
use go_sentinel.Models.{WorkerNode, WorkerStatus}
use go_sentinel.Orchestrator.Ring.{virtual_nodes, add, remove, get, hashes}
use go_sentinel.Orchestrator.Ring.Owners.{
  IsRing, IsRing-new, remove-IsRing, AllOwners, AllOwners-map, AllOwners-owner_of,
  AllOwners-add_from, AllOwners-without_owner,
}
use go_sentinel.Orchestrator.Ring.Disruption.{add-IsRing, get-IsAnswer}
use go_sentinel.Orchestrator.Nodes.{
  NodeManager, no_nodes_available, new_node_manager, change_node, update_last_seen, update_status,
  register_node, unregister_node, get_node_for_key,
}

abbrev IsKnown : Dict WorkerNode → String → Type 0
IsKnown nodes id = lookup id nodes ≢ none

IsKnown-insert :
    (k : String) (node : WorkerNode) (nodes : Dict WorkerNode) (id : String)
    → IsKnown nodes id
    → IsKnown (insert k node nodes) id
IsKnown-insert k node nodes id h = ground (arith, h, lookup-insert k id node nodes)

IsKnown-inserted :
    (k : String) (node : WorkerNode) (nodes : Dict WorkerNode) → IsKnown (insert k node nodes) k
IsKnown-inserted k node nodes = ground (arith, lookup-insert k k node nodes, eq_iff k k)

IsKnown-delete :
    (k : String) (nodes : Dict WorkerNode) (id : String)
    → id ≢ k
    → IsKnown nodes id
    → IsKnown (delete k nodes) id
IsKnown-delete k nodes id other h = ground (arith, lookup-delete k id nodes, eq_iff k id)

module _ (hash : String → ℕ → ℕ) where
  -- The manager's states: what its methods make of a new one, in any order, whatever etcd answers.
  pub data Reached : NodeManager → Type 0 where
    reached_new : Reached new_node_manager
    reached_register :
        (failed : Bool) (nm : NodeManager) (node : WorkerNode)
        → Reached nm
        → Reached (register_node hash failed nm node).0
    reached_unregister :
        (failed : Bool) (nm : NodeManager) (node_id : String)
        → Reached nm
        → Reached (unregister_node failed nm node_id).0
    reached_seen :
        (now : ℤ) (nm : NodeManager) (node_id : String)
        → Reached nm
        → Reached (update_last_seen now nm node_id)
    reached_status :
        (nm : NodeManager) (node_id : String) (status : WorkerStatus)
        → Reached nm
        → Reached (update_status nm node_id status)

  -- A node that the ring names is in the table.
  record IsLinked (nm : NodeManager) : Type 0 where
    ring : IsRing nm.ring
    linked : AllOwners (IsKnown nm.nodes) nm.ring.hash_map

  change_node-IsLinked :
      (f : WorkerNode → WorkerNode) (nm : NodeManager) (node_id : String)
      → IsLinked nm
      → IsLinked (change_node f nm node_id)
  unfolding change_node
  change_node-IsLinked f nm node_id h = elim (Option-cases (lookup node_id nm.nodes)) [
    | inl e ↦ rw (e, change_node) h
    | inr (node, e) ↦
        rw (e, change_node)
          (record {
            ring = h.ring;
            linked =
                AllOwners-map (IsKnown nm.nodes) (IsKnown (insert node_id (f node) nm.nodes))
                  nm.ring.hash_map (IsKnown-insert node_id (f node) nm.nodes) h.linked;
          })
  ]

  register_node-IsLinked :
      (failed : Bool) (nm : NodeManager) (node : WorkerNode)
      → IsLinked nm
      → IsLinked (register_node hash failed nm node).0
  unfolding register_node add
  register_node-IsLinked failed nm node h =
      let nodes = insert node.id node nm.nodes in
      record {
        ring = add-IsRing hash node.id nm.ring h.ring;
        linked =
            AllOwners-add_from hash (IsKnown nodes) node.id virtual_nodes 0 nm.ring
              (IsKnown-inserted node.id node nm.nodes)
              (AllOwners-map (IsKnown nm.nodes) (IsKnown nodes) nm.ring.hash_map
                (IsKnown-insert node.id node nm.nodes) h.linked);
      }

  unregister_node-IsLinked :
      (failed : Bool) (nm : NodeManager) (node_id : String)
      → IsLinked nm
      → IsLinked (unregister_node failed nm node_id).0
  unfolding unregister_node remove
  unregister_node-IsLinked failed nm node_id h = record {
    ring = remove-IsRing node_id nm.ring;
    linked =
        AllOwners-without_owner (IsKnown nm.nodes) (IsKnown (delete node_id nm.nodes)) node_id
          nm.ring.hash_map (IsKnown-delete node_id nm.nodes) h.linked;
  }

  Reached-IsLinked : (nm : NodeManager) → Reached nm → IsLinked nm
  unfolding new_node_manager hashes update_last_seen update_status
  Reached-IsLinked _ reached_new = record { ring = IsRing-new; linked = tt }
  Reached-IsLinked _ (reached_register failed nm node r) =
      register_node-IsLinked failed nm node (Reached-IsLinked nm r)
  Reached-IsLinked _ (reached_unregister failed nm node_id r) =
      unregister_node-IsLinked failed nm node_id (Reached-IsLinked nm r)
  Reached-IsLinked _ (reached_seen now nm node_id r) =
      change_node-IsLinked (λ node. record node { last_seen = now }) nm node_id
        (Reached-IsLinked nm r)
  Reached-IsLinked _ (reached_status nm node_id status r) =
      change_node-IsLinked (λ node. record node { status = status }) nm node_id
        (Reached-IsLinked nm r)

  -- In a state that the manager's methods reach, `GetNodeForKey` finds a node in its table, or the
  -- ring is empty or gives the key to a node whose id is the empty text: it never fails with
  -- "node not found".
  pub get_node_for_key_lem :
      (nm : NodeManager) (key : String)
      → Reached nm
      → ((node : WorkerNode) × (get_node_for_key hash nm key ≡ ok node))
        ⊎ ((get_node_for_key hash nm key ≡ err no_nodes_available) × (get hash nm.ring key ≡ ""))
  unfolding get_node_for_key
  get_node_for_key_lem nm key r =
      let h = Reached-IsLinked nm r in
      elim (get-IsAnswer hash nm.ring key h.ring.sorted) [
        | inl (e, nothing) ↦ inr (rw (nothing, get_node_for_key), nothing)
        | inr (k, s, e) ↦
            let known =
              AllOwners-owner_of (IsKnown nm.nodes) k nm.ring.hash_map ((h.ring.owned k).0 s.is_in)
                h.linked in
            found (rw (← e) at known)
      ]
    where
      found :
          IsKnown nm.nodes (get hash nm.ring key)
          → ((node : WorkerNode) × (get_node_for_key hash nm key ≡ ok node))
            ⊎ ((get_node_for_key hash nm key ≡ err no_nodes_available)
                × (get hash nm.ring key ≡ ""))
      found known = elim (Option-cases (lookup (get hash nm.ring key) nm.nodes)) [
        | inl e ↦ elim (known e) [ ]
        | inr (node, e) ↦ elim (Bool-cases (str_eq (get hash nm.ring key) "")) [
          | inl d ↦ inr (rw (d, get_node_for_key), (eq_iff (get hash nm.ring key) "").0 d)
          | inr d ↦ inl (node, rw (d, e, get_node_for_key))
        ]
      ]

-- ===== src/Orchestrator/Nodes.antt =====
-- The node table of internal/orchestrator/node_manager.go. `hash` is the digest of the ring; what
-- etcd answered is a parameter of the methods that call it, true where it failed.
pub mod Table
use go_sentinel.Base.{
  ℕ, String, List, [], ◌∷◌, Option, none, some, Bool, true, false, str_eq, if◌then◌else◌,
}
use go_sentinel.Base.Int.{ℤ}
use go_sentinel.Base.Dict.{Dict, lookup, insert, delete}
use go_sentinel.Base.Result.{Result, ok, err}
use go_sentinel.Models.{WorkerNode, WorkerStatus}
use go_sentinel.Orchestrator.Ring.{Ring, new_ring, add, remove, get}

pub record NodeManager : Type 0 where
  pub nodes : Dict WorkerNode
  pub ring : Ring

pub data Error : Type 0 where
  etcd_failed : Error
  no_nodes_available : Error
  node_not_found : String → Error

unfoldable pub new_node_manager : NodeManager
new_node_manager = record { nodes = []; ring = new_ring }

-- `GetNode`
unfoldable pub get_node : NodeManager → String → Option WorkerNode
get_node nm node_id = lookup node_id nm.nodes

values : Dict WorkerNode → List WorkerNode
values [] = []
values ((id, node) ∷ rest) = node ∷ values rest

unfoldable pub get_nodes : NodeManager → List WorkerNode
unfolding values
get_nodes nm = values nm.nodes

-- A write through the pointer that the table holds.
change_node : (WorkerNode → WorkerNode) → NodeManager → String → NodeManager
change_node f nm node_id = elim (lookup node_id nm.nodes) [
  | none ↦ nm
  | some node ↦ record nm { nodes = insert node_id (f node) nm.nodes }
]

unfoldable pub update_last_seen : ℤ → NodeManager → String → NodeManager
unfolding change_node
update_last_seen now = change_node (λ node. record node { last_seen = now })

unfoldable pub update_status : NodeManager → String → WorkerStatus → NodeManager
unfolding change_node
update_status nm node_id status = change_node (λ node. record node { status = status }) nm node_id

abbrev answered : Bool → Result Error (Unit {0})
answered failed = if failed then err etcd_failed else ok tt

module _ (hash : String → ℕ → ℕ) where
  -- The table and the ring are changed before etcd is asked.
  unfoldable pub register_node :
      Bool → NodeManager → WorkerNode → NodeManager × Result Error (Unit {0})
  register_node failed nm node = (
    record { nodes = insert node.id node nm.nodes; ring = add hash node.id nm.ring },
    answered failed,
  )

  unfoldable pub get_node_for_key : NodeManager → String → Result Error WorkerNode
  get_node_for_key nm key =
      let node_id = get hash nm.ring key in
      let found = lookup node_id nm.nodes in
      if str_eq node_id ""
      then err no_nodes_available
      else elim found [ none ↦ err (node_not_found node_id) | some node ↦ ok node ]

unfoldable pub unregister_node : Bool → NodeManager → String → NodeManager × Result Error (Unit {0})
unregister_node failed nm node_id =
    (record { nodes = delete node_id nm.nodes; ring = remove node_id nm.ring }, answered failed)

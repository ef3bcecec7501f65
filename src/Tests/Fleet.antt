-- ===== src/Tests/Fleet.antt =====
-- The ring, the node table and what is sent to the workers, at a concrete fleet.
use go_sentinel.Base.{ℕ, String, [], ◌∷◌, none, false, ◌≡◌, ◌≢◌, ◌⊎◌, refl, arith}
use go_sentinel.Base.Int.{pos}
use go_sentinel.Base.Dict.{lookup}
use go_sentinel.Base.Result.{ok, err}
use go_sentinel.Models.{WorkerNode}
use go_sentinel.Proto
use go_sentinel.Orchestrator.Ring.{Ring, new_ring, add, remove, get, hash_key}
use go_sentinel.Orchestrator.Ring.Owners.{IsRing, IsRing-new}
use go_sentinel.Orchestrator.Ring.Disruption.{IsAnswer, get-IsAnswer, get-remove, add-IsRing}
use go_sentinel.Orchestrator.Nodes.{
  NodeManager, new_node_manager, register_node, get_node, get_node_for_key, no_nodes_available,
}
use go_sentinel.Orchestrator.Nodes.Table.{reached_new, reached_register, get_node_for_key_lem}
use go_sentinel.Orchestrator.Server.{dispatch_to_workers}
use go_sentinel.Orchestrator.Server.Dispatch.{IsSentTo, dispatch_to_workers-IsSentTo}
use go_sentinel.Tests.{rational, apart, node, two_workers}
use Prim.Native.String.{count}

-- A digest that depends on the length only.
abbrev digest : String → ℕ → ℕ
digest key i = count key

abbrev one_node : Ring
one_node = add digest "w1" new_ring

one_node-IsRing : IsRing one_node
one_node-IsRing = add-IsRing digest "w1" new_ring IsRing-new

get-IsAnswer_example :
    IsAnswer (hash_key digest "k") one_node.hash_map one_node.keys (get digest one_node "k")
get-IsAnswer_example = get-IsAnswer digest one_node "k" one_node-IsRing.sorted

get-remove_example :
    (get digest (remove "w2" one_node) "k" ≢ "w2")
    × (get digest one_node "k" ≢ "w2"
        → get digest (remove "w2" one_node) "k" ≡ get digest one_node "k")
get-remove_example = get-remove digest "w2" one_node "k" one_node-IsRing (apart "w2" "" refl)

abbrev manager : NodeManager
manager = (register_node digest false new_node_manager (node "w1" 4)).0

get_node_for_key_lem_example :
    ((n : WorkerNode) × (get_node_for_key digest manager "k" ≡ ok n))
    ⊎ ((get_node_for_key digest manager "k" ≡ err no_nodes_available)
        × (get digest manager.ring "k" ≡ ""))
get_node_for_key_lem_example =
    get_node_for_key_lem digest manager "k"
      (reached_register false new_node_manager (node "w1" 4) reached_new)

abbrev both : NodeManager
both = record { nodes = ("w1", node "w1" 4) ∷ ("w2", node "w2" 3) ∷ []; ring = new_ring }

abbrev sent_plan : Proto.TestPlan
sent_plan = record {
  id = "t1";
  name = "load";
  stages = record { duration = "1s"; target_vus = pos 5; ramp_up = "" } ∷ [];
  http = none;
  variables = [];
  total_virtual_users = pos 5;
}

known : (get_node both "w1" ≢ none) × (get_node both "w2" ≢ none) × Unit {0}
unfolding get_node lookup
known = ((λ e. ground arith), (λ e. ground arith), tt)

dispatch_to_workers-IsSentTo_example :
    IsSentTo rational both sent_plan two_workers two_workers
      (dispatch_to_workers rational both sent_plan two_workers)
dispatch_to_workers-IsSentTo_example =
    dispatch_to_workers-IsSentTo rational both sent_plan two_workers (known.0, (known.1, tt))

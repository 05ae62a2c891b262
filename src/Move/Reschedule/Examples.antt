-- ===== src/Move/Reschedule/Examples.antt =====
-- An action that moves a pod to a node of a cluster with two nodes. The state is not looked at.
use mathlib.Core.Option
use kubeturbo.Prelude.{
  ℕ, ◌≡◌, ◌⊎◌, true, Option, none, some, List, [], ◌∷◌, String, ◌==◌, string_eq, if◌then◌else◌,
}
use kubeturbo.Owner.{OwnerInfo}
use kubeturbo.Move.Clone.{Pod, empty_pod}
use kubeturbo.Move.Reschedule.{Node, Host, virtual_machine, get_node, execute}
use kubeturbo.Move.Reschedule.Guards.{MayMove, execute-MayMove}

abbrev node : String → Node
node name = record {
  name = name;
  system_uuid = "4C4C";
  addresses = "10.0.0.1" ∷ [];
  conditions = record { is_node_ready = true; is_true = true } ∷ [];
}

abbrev node_of_name : ℕ → String → Option Node
node_of_name s name = if name == "n2" then some (node "n2") else none

abbrev all_nodes : ℕ → Option (List Node)
all_nodes s = some (node "n1" ∷ node "n2" ∷ [])

abbrev new_host : Host
new_host = record {
  entity_type = virtual_machine;
  properties = record { namespace = "DEFAULT"; name = "KubernetesNodeName"; value = "n2" } ∷ [];
  display_name = "n2";
  id = "4c4c";
  ip_addresses = none;
}

abbrev pod : Pod
pod = record empty_pod { name = "web"; spec = record empty_pod.spec { node_name = "n1" } }

abbrev unmarshal : String → Option OwnerInfo
unmarshal s = none

abbrev move : Pod → String → OwnerInfo → ℕ → ℕ × Option Pod
move p name owner s = (1, some (record p { name = "web-1" }))

execute-MayMove_example :
    (execute node_of_name all_nodes unmarshal [] move (some new_host) pod 0 ≡ (0, none))
    ⊎ ((n : Node) × (owner : OwnerInfo) × (get_node node_of_name all_nodes 0 (some new_host)
          ≡ some n)
        × MayMove node_of_name all_nodes unmarshal [] move pod n owner
        × (let moved = move pod n.name owner 0 in
            execute node_of_name all_nodes unmarshal [] move (some new_host) pod 0
            ≡ (moved.0, Option.map (λ new. (pod, new)) moved.1)))
execute-MayMove_example =
    execute-MayMove node_of_name all_nodes unmarshal [] move (some new_host) pod 0

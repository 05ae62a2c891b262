-- ===== src/Compliance/TaintExamples.antt =====
-- Taints, nodes and pods as taint_toleration_processor.go of pkg/discovery/worker/compliance meets them.
use kubeturbo.Prelude.{
  zero, suc, ◌≡◌, refl, Bool, true, false, Option, none, some, [], ◌∷◌, String, ◌==◌, nat_eq,
  string_eq, ap, false≢true,
}
use kubeturbo.Prelude.Dict.{Dict, lookup, insert}
use kubeturbo.Compliance.Dto.{
  CommodityDto, CommodityBought, Addr, Heap, virtual_machine, container_pod, taint,
}
use kubeturbo.Compliance.Taints.{
  Taint, taint_eq, taint_beq, TaintCollection, Node, is_relevant, taint_key, get_taint_collection,
  create_taint_comms_sold, create_taint_comms_bought, collect_nodes, collect_taints, collect_taint,
  taint_comms, contains,
}
use kubeturbo.Compliance.Taints.Commodities.{has_key, Builds}
use kubeturbo.Compliance.Taints.Placement.{
  Tolerated, Offered, OneTextEach, placement, same_text_sold,
}
use kubeturbo.Compliance.Taints.Process.{
  Pod, ClusterSummary, TaintTolerationProcessor, process, buy_taints, pod_buys_commodities,
  buy_at_first,
}
use kubeturbo.Compliance.Taints.Process.Effects.{processed, NoRunningPods}
use kubeturbo.Compliance.Taints.Process.Changes.{Changes, process-Changes}

abbrev cpu : CommodityDto
cpu = record { commodity_type = 40; key = ""; capacity = 4 }

abbrev mem : CommodityDto
mem = record { commodity_type = 53; key = ""; capacity = 8 }

abbrev bought : CommodityBought
bought = record { provider_id = "n1"; provider_type = virtual_machine; bought = cpu ∷ [] }

-- The VM of a node at 0, and a pod elsewhere.
abbrev heap : Heap
heap zero = record {
  entity_type = virtual_machine;
  id = "n1";
  powered_on = true;
  commodities_sold = cpu ∷ [];
  commodities_bought = [];
}
heap (suc a) = record {
  entity_type = container_pod;
  id = "p1";
  powered_on = true;
  commodities_sold = [];
  commodities_bought = bought ∷ [];
}

abbrev gpu : Taint
gpu = record { key = "gpu"; value = "yes"; effect = "NoSchedule"; time_added = none }

abbrev soft : Taint
soft = record { key = "disk"; value = "slow"; effect = "PreferNoSchedule"; time_added = none }

abbrev gpu_node : Node
gpu_node = record { name = "node-1"; taints = gpu ∷ soft ∷ [] }

abbrev plain_node : Node
plain_node = record { name = "node-2"; taints = [] }

abbrev nodes : Dict String Node
nodes = ("n1", gpu_node) ∷ ("n2", plain_node) ∷ []

abbrev build : String → Option CommodityDto
build key = some (record { commodity_type = taint; key = key; capacity = 100000 })

builds : Builds build
builds key = (record { commodity_type = taint; key = key; capacity = 100000 }, refl, refl)

-- A toleration is the key of the taints that it tolerates.
abbrev tolerates : String → Taint → Bool
tolerates key t = t.key == key

abbrev coll : TaintCollection
coll = (gpu, "gpu=yes:NoSchedule") ∷ []

abbrev gpu_comm : CommodityDto
gpu_comm = record { commodity_type = taint; key = "gpu=yes:NoSchedule"; capacity = 100000 }

gpu_node-sold : create_taint_comms_sold build gpu_node (get_taint_collection nodes) ≡ some []
unfolding create_taint_comms_sold taint_comms collect_nodes collect_taints collect_taint is_relevant
    taint_key taint_beq lookup insert
gpu_node-sold = refl

pod-bought :
    create_taint_comms_bought build tolerates ("db" ∷ []) (get_taint_collection nodes)
    ≡ some (gpu_comm ∷ [])
unfolding create_taint_comms_bought taint_comms collect_nodes collect_taints collect_taint
    is_relevant taint_key taint_beq lookup insert
pod-bought = refl

lookup_nodes : lookup "n1" nodes ≡ some gpu_node
unfolding lookup
lookup_nodes = refl

placement_example :
    (Tolerated build builds nodes tolerates ("db" ∷ []) gpu_node
      → Offered build builds nodes tolerates [] (gpu_comm ∷ []))
    × (OneTextEach nodes
        → Offered build builds nodes tolerates [] (gpu_comm ∷ [])
        → Tolerated build builds nodes tolerates ("db" ∷ []) gpu_node)
placement_example =
    placement build builds nodes tolerates gpu_node ("db" ∷ []) [] (gpu_comm ∷ []) gpu_node-sold
      pod-bought "n1" lookup_nodes

-- The same taint, set on two nodes at different times.
abbrev early : Taint
early = record { key = "gpu"; value = "yes"; effect = "NoExecute"; time_added = some 1 }

abbrev late : Taint
late = record early { time_added = some 2 }

abbrev early_node : Node
early_node = record { name = "node-1"; taints = early ∷ [] }

abbrev two_nodes : Dict String Node
two_nodes = ("n1", early_node) ∷ ("n2", record { name = "node-2"; taints = late ∷ [] }) ∷ []

abbrev evict : CommodityDto
evict = record { commodity_type = taint; key = "gpu=yes:NoExecute"; capacity = 100000 }

early_node-sold :
    create_taint_comms_sold build early_node (get_taint_collection two_nodes) ≡ some (evict ∷ [])
unfolding create_taint_comms_sold taint_comms collect_nodes collect_taints collect_taint is_relevant
    taint_key taint_beq lookup insert
early_node-sold = refl

pod-evicted :
    create_taint_comms_bought build tolerates [] (get_taint_collection two_nodes)
    ≡ some (evict ∷ [])
unfolding create_taint_comms_bought taint_comms collect_nodes collect_taints collect_taint
    is_relevant taint_key taint_beq lookup insert
pod-evicted = refl

same_text_sold_example :
    (has_key (evict ∷ []) "gpu=yes:NoExecute" ≡ true)
    × (has_key (evict ∷ []) "gpu=yes:NoExecute" ≡ true)
unfolding is_relevant taint_key taint_beq
same_text_sold_example =
    same_text_sold build builds two_nodes tolerates early_node [] early late (evict ∷ [])
      (evict ∷ []) early_node-sold pod-evicted refl refl refl refl refl refl refl refl

abbrev pod : Pod String
pod = record { uid = "p1"; node_name = "node-1"; tolerations = "db" ∷ [] }

abbrev cluster : ClusterSummary String
cluster = record {
  node_to_running_pods = ("node-1", pod ∷ []) ∷ [];
  node_map =
      ("node-1", record { uid = "u1"; node = gpu_node })
      ∷ ("node-2", record { uid = "n1"; node = plain_node })
      ∷ [];
  node_name_uid_map = ("node-1", "u1") ∷ ("node-2", "n1") ∷ [];
}

abbrev processor : TaintTolerationProcessor String
processor = record {
  nodes = nodes;
  pods = ("p1", pod) ∷ [];
  node_name_to_uid = ("node-1", "n1") ∷ [];
}

process-Changes_example :
    let after = process build tolerates processor heap (0 ∷ 1 ∷ []) in
    (contains {A = Addr} (0 ∷ 1 ∷ []) 1 ≡ true
      → Changes build builds tolerates processor (heap 1) (after 1))
    × (contains {A = Addr} (0 ∷ 1 ∷ []) 1 ≡ false → after 1 ≡ heap 1)
process-Changes_example =
    process-Changes build builds tolerates processor heap (0 ∷ 1 ∷ []) 1 (refl, (refl, tt))

-- The pod at 1 gets the commodity of the taint that it does not tolerate.
pod-processed :
    (processed build tolerates processor (heap 1)).commodities_bought
    ≡ record bought { bought = cpu ∷ gpu_comm ∷ [] } ∷ []
unfolding buy_taints pod_buys_commodities buy_at_first create_taint_comms_bought taint_comms
    collect_nodes collect_taints collect_taint is_relevant taint_key taint_beq lookup insert
pod-processed = refl

abbrev is_n1 : Option String → Bool
is_n1 none = false
is_n1 (some uid) = uid == "n1"

no_running_pods : NoRunningPods cluster "n1"
unfolding lookup
no_running_pods = (λ e. false≢true (ap is_n1 e), tt)

-- ===== src/Compliance/Taints/Process.antt =====
-- `Process` of taint_toleration_processor.go in pkg/discovery/worker/compliance: the entities are
-- changed in place, through the pointers of one list.
pub mod Effects
pub mod Changes
use kubeturbo.Prelude.{
  ℕ, Bool, true, false, ◌&&◌, ◌||◌, not, Option, none, some, List, [], ◌∷◌, ◌++◌, String, ◌==◌,
  nat_eq, string_eq, if◌then◌else◌,
}
use kubeturbo.Prelude.Dict.{Dict, lookup, insert}
use kubeturbo.Compliance.Dto.{
  CommodityDto, CommodityBought, EntityDto, Addr, Heap, update, virtual_machine, container_pod,
}
use kubeturbo.Compliance.Taints.{
  Taint, TaintCollection, Node, get_taint_collection, create_taint_comms_sold,
  create_taint_comms_bought,
}

pub record Pod (Toleration : Type 0) : Type 0 where
  pub uid : String
  pub node_name : String
  pub tolerations : List Toleration

pub record KubeNode : Type 0 where
  pub uid : String
  pub node : Node

-- The fields of `repository.ClusterSummary` that the processor reads.
pub record ClusterSummary (Toleration : Type 0) : Type 0 where
  pub node_to_running_pods : Dict String (List (Pod Toleration))
  pub node_map : Dict String KubeNode
  pub node_name_uid_map : Dict String String

pub record TaintTolerationProcessor (Toleration : Type 0) : Type 0 where
  pub nodes : Dict String Node
  pub pods : Dict String (Pod Toleration)
  pub node_name_to_uid : Dict String String

abbrev pub for_each : (EntityDto → EntityDto) → List Addr → Heap → Heap
for_each f [] heap = heap
for_each f (a ∷ as') heap = for_each f as' (update heap a (f (heap a)))

-- The DTOs whose type is VIRTUAL_MACHINE.
unfoldable pub retrieve_nodes : Heap → List Addr → List Addr
retrieve_nodes heap [] = []
retrieve_nodes heap (a ∷ as') =
    let rest = retrieve_nodes heap as' in
    if (heap a).entity_type == virtual_machine then a ∷ rest else rest

-- The others whose type is CONTAINER_POD and whose power state is POWERED_ON.
unfoldable pub retrieve_pods : Heap → List Addr → List Addr
retrieve_pods heap [] = []
retrieve_pods heap (a ∷ as') =
    let rest = retrieve_pods heap as' in
    let e = heap a in
    if e.entity_type == virtual_machine
    then rest
    else (if e.entity_type == container_pod && e.powered_on then a ∷ rest else rest)

-- The first provider of that id gets the commodities.
unfoldable pub buy_at_first :
    String → List CommodityDto → List CommodityBought → List CommodityBought
buy_at_first provider_id comms [] = []
buy_at_first provider_id comms (b ∷ bs) =
    if b.provider_id == provider_id
    then record b { bought = b.bought ++ comms } ∷ bs
    else b ∷ buy_at_first provider_id comms bs

unfoldable pub pod_buys_commodities : EntityDto → List CommodityDto → String → EntityDto
pod_buys_commodities e [] provider_id = e
pod_buys_commodities e (c ∷ cs) provider_id = record e {
  commodities_bought = buy_at_first provider_id (c ∷ cs) e.commodities_bought;
}

module _ {Toleration : Type 0} where
  unfoldable pub add_pods :
      List (Pod Toleration) → Dict String (Pod Toleration) → Dict String (Pod Toleration)
  add_pods [] pods = pods
  add_pods (p ∷ ps) pods = add_pods ps (insert p.uid p pods)

  -- The loop of NewTaintTolerationProcessor over the nodes that have running pods.
  unfoldable pub running_loop :
      Dict String KubeNode
      → Dict String (List (Pod Toleration))
      → Dict String Node
      → Dict String (Pod Toleration)
      → Dict String Node × Dict String (Pod Toleration)
  running_loop node_map [] nodes pods = (nodes, pods)
  running_loop node_map ((name, ps) ∷ rest) nodes pods = elim (lookup name node_map) [
    | none ↦ running_loop node_map rest nodes pods
    | some node ↦ running_loop node_map rest (insert node.uid node.node nodes) (add_pods ps pods)
  ]

  unfoldable pub new_taint_toleration_processor :
      ClusterSummary Toleration → TaintTolerationProcessor Toleration
  new_taint_toleration_processor cluster =
      let maps = running_loop cluster.node_map cluster.node_to_running_pods [] [] in
      record { nodes = maps.0; pods = maps.1; node_name_to_uid = cluster.node_name_uid_map }

  module _ (build : String → Option CommodityDto) (tolerates : Toleration → Taint → Bool) where
    -- The body of createTaintCommoditiesSoldByNode's loop; `continue` leaves the DTO as it is.
    unfoldable pub sell_taints : Dict String Node → TaintCollection → EntityDto → EntityDto
    sell_taints nodes coll e = elim (lookup e.id nodes) [
      | none ↦ e
      | some node ↦ elim (create_taint_comms_sold build node coll) [
        | none ↦ e
        | some comms ↦ record e { commodities_sold = e.commodities_sold ++ comms }
      ]
    ]

    -- The body of createTaintCommoditiesBoughtByPod's loop.
    unfoldable pub buy_taints :
        Dict String (Pod Toleration) → Dict String String → TaintCollection → EntityDto → EntityDto
    buy_taints pods node_name_to_uid coll e = elim (lookup e.id pods) [
      | none ↦ e
      | some pod ↦ elim (lookup pod.node_name node_name_to_uid) [
        | none ↦ e
        | some provider_id ↦ elim (create_taint_comms_bought build tolerates pod.tolerations coll) [
          | none ↦ e
          | some comms ↦ pod_buys_commodities e comms provider_id
        ]
      ]
    ]

    unfoldable pub process : TaintTolerationProcessor Toleration → Heap → List Addr → Heap
    process p heap entity_dtos =
        let coll = get_taint_collection p.nodes in
        let sold = for_each (sell_taints p.nodes coll) (retrieve_nodes heap entity_dtos) heap in
        for_each (buy_taints p.pods p.node_name_to_uid coll) (retrieve_pods heap entity_dtos) sold

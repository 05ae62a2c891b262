-- ===== src/Compliance/Affinity/Process.antt =====
-- pkg/discovery/worker/compliance/affinity_processor.go: nodes sell and pods buy the access commodities
-- of the pods' affinity rules.
pub mod Adds
pub mod Effects
pub mod Rules
use kubeturbo.Prelude.{
  ℕ, Bool, true, false, ◌&&◌, not, Option, none, some, List, [], ◌∷◌, ◌++◌, String, ◌==◌, string_eq,
  nat_eq, if◌then◌else◌,
}
use Prim.Native.String.{◌++◌ as str_append}
use kubeturbo.Prelude.Dict.{Dict, lookup, insert}
use kubeturbo.Compliance.Dto.{CommodityDto, Addr, virtual_machine, container_pod}
use kubeturbo.Compliance.Processor.{
  State, Provider, Result, ok, err, get_entity_dto, add_commodities_sold, add_commodities_bought,
  group_entity_dtos,
}
use kubeturbo.Compliance.Affinity.{
  AffinityCommodityManager, new_affinity_commodity_manager, Pair,
  get_access_commodities_for_node_affinity, get_access_commodities_for_pod_affinity_anti_affinity,
}

pub record Node : Type 0 where
  pub name : String
  pub uid : String

-- The parts of `api.Affinity` that are read: the terms that are required during scheduling. A pointer
-- that is nil is `none`.
pub record Affinity (NodeTerm PodTerm : Type 0) : Type 0 where
  pub node_affinity : Option (Option (List NodeTerm))
  pub pod_affinity : Option (List PodTerm)
  pub pod_anti_affinity : Option (List PodTerm)

pub record Pod (NodeTerm PodTerm : Type 0) : Type 0 where
  pub uid : String
  pub namespace : String
  pub name : String
  pub node_name : String
  pub affinity : Option (Affinity NodeTerm PodTerm)

-- `podsNodesMap` at one pod: the last node of that name.
unfoldable pub nodes_map : Dict String Node → List Node → Dict String Node
nodes_map m [] = m
nodes_map m (n ∷ nodes) = nodes_map (insert n.name n m) nodes

abbrev pub required : {A : Type 0} → Option (List A) → List A
required none = []
required (some terms) = terms

-- A volume's node affinity and what is required there; a pointer that is nil on the way is `none`.
abbrev pub MountedVolume : Type 0 → Type 0
MountedVolume NodeTerm = Option (List NodeTerm)

unfoldable pub volume_terms : {NodeTerm : Type 0} → List (MountedVolume NodeTerm) → List NodeTerm
volume_terms [] = []
volume_terms (v ∷ vs) = required v ++ volume_terms vs

module _ {NodeTerm PodTerm : Type 0} where
  abbrev pub get_all_pv_affinity_terms :
      Dict String (List (MountedVolume NodeTerm)) → Pod NodeTerm PodTerm → List NodeTerm
  get_all_pv_affinity_terms volumes pod =
      elim (lookup (str_append pod.namespace (str_append "/" pod.name)) volumes) [
        | none ↦ []
        | some mounts ↦ volume_terms mounts
      ]

  abbrev pub host_node : List Node → Pod NodeTerm PodTerm → Option Node
  host_node nodes pod = lookup pod.node_name (nodes_map [] nodes)

  abbrev pub get_all_node_selectors : Option (Affinity NodeTerm PodTerm) → List NodeTerm
  get_all_node_selectors none = []
  get_all_node_selectors (some a) = elim a.node_affinity [
    | none ↦ []
    | some none ↦ []
    | some (some terms) ↦ terms
  ]

  abbrev pub get_all_pod_affinity_terms : Option (Affinity NodeTerm PodTerm) → List PodTerm
  get_all_pod_affinity_terms none = []
  get_all_pod_affinity_terms (some a) = required a.pod_affinity ++ required a.pod_anti_affinity

-- The entity of the node, if there is one, sells the commodities too.
unfoldable pub add_commodity_sold_by_node : State → Node → List CommodityDto → State
add_commodity_sold_by_node s node comms =
    elim (get_entity_dto s.entity_maps virtual_machine node.uid) [
      | err e ↦ s
      | ok a ↦ (add_commodities_sold s (some a) (some comms)).0
    ]

unfoldable pub add_commodity_bought_by_pod : State → String → Node → List CommodityDto → State
add_commodity_bought_by_pod s pod_uid node comms =
    let provider : Provider = record { provider_type = virtual_machine; id = node.uid } in
    elim (get_entity_dto s.entity_maps container_pod pod_uid) [
      | err e ↦ s
      | ok a ↦ (add_commodities_bought s (some a) (some provider) (some comms)).0
    ]

abbrev pub is_empty : List CommodityDto → Bool
is_empty [] = true
is_empty (c ∷ cs) = false

abbrev pub provider_node : Option Node → Node → Node
provider_node none node = node
provider_node (some hosting) node = hosting

unfoldable pub add_affinity_access_commodities :
    State → String → Node → Option Node → (sold bought : List CommodityDto) → State
add_affinity_access_commodities s pod_uid node hosting sold bought =
    let s' = if is_empty sold then s else add_commodity_sold_by_node s node sold in
    if is_empty bought
    then s'
    else add_commodity_bought_by_pod s' pod_uid (provider_node hosting node) bought

-- The loop over the nodes: `by_node` and `by_pods` are the tests, with the commodities for each.
unfoldable pub match_nodes :
    (by_node by_pods : Node → Bool) (pod_uid : String) (hosting : Option Node)
    (node_comms pod_comms : List CommodityDto × List CommodityDto)
    → State
    → List Node
    → State
match_nodes by_node by_pods pod_uid hosting node_comms pod_comms s [] = s
match_nodes by_node by_pods pod_uid hosting node_comms pod_comms s (node ∷ nodes) =
    let s' =
      if by_node node
      then add_affinity_access_commodities s pod_uid node hosting node_comms.0 node_comms.1
      else s in
    let s'' =
      if by_pods node
      then add_affinity_access_commodities s' pod_uid node hosting pod_comms.0 pod_comms.1
      else s' in
    match_nodes by_node by_pods pod_uid hosting node_comms pod_comms s'' nodes

-- The tests are those of affinity_helper.go, which follows the scheduler: `matches_node` and
-- `matches_pv` on node affinity, `matches_pods` on the affinity between pods. `honor` says whether the
-- feature HonorAzLabelPvAffinity is on.
module _ (hash : String → Option String) (build_sold build_bought : String → Option CommodityDto)
    {NodeTerm PodTerm : Type 0} (node_readable node_text : NodeTerm → String)
    (pod_readable pod_text : PodTerm → String) (nodes : List Node)
    (matches_node matches_pods : Pod NodeTerm PodTerm → Node → Bool)
    (matches_pv : List NodeTerm → Node → Bool) (honor : Bool)
    (volumes : Dict String (List (MountedVolume NodeTerm))) where
  abbrev pub pv_terms : Pod NodeTerm PodTerm → List NodeTerm
  pv_terms pod = if honor then get_all_pv_affinity_terms volumes pod else []

  unfoldable pub process_affinity_per_pod :
      AffinityCommodityManager × State → Pod NodeTerm PodTerm → AffinityCommodityManager × State
  process_affinity_per_pod (m, s) pod =
      let (m', for_nodes) =
        get_access_commodities_for_node_affinity hash build_sold build_bought node_readable
          node_text m (get_all_node_selectors pod.affinity ++ pv_terms pod) in
      let (m'', for_pods) =
        get_access_commodities_for_pod_affinity_anti_affinity hash build_sold build_bought
          pod_readable pod_text m' (get_all_pod_affinity_terms pod.affinity) pod.namespace
          pod.name in
      elim for_nodes [
        | none ↦ (m', s)
        | some node_comms ↦ elim for_pods [
          | none ↦ (m'', s)
          | some pod_comms ↦ (
            m'',
            match_nodes (λ n. matches_node pod n && matches_pv (pv_terms pod) n) (matches_pods pod)
                pod.uid (host_node nodes pod) node_comms pod_comms s nodes,
          )
        ]
      ]

  unfoldable pub process_pods :
      AffinityCommodityManager × State
      → List (Pod NodeTerm PodTerm)
      → AffinityCommodityManager × State
  process_pods ms [] = ms
  process_pods ms (pod ∷ pods) = process_pods (process_affinity_per_pod ms pod) pods

  -- The state before GetAllEntityDTOs lists its entities.
  unfoldable pub process_affinity_rules :
      State → List Addr → List (Pod NodeTerm PodTerm) → AffinityCommodityManager × State
  process_affinity_rules s dtos pods =
      process_pods
        (
          new_affinity_commodity_manager,
          record s { entity_maps = group_entity_dtos s.heap s.entity_maps dtos },
        )
        pods

-- ===== src/Compliance/Taints/Process/Effects.antt =====
-- What `Process` of taint_toleration_processor.go in pkg/discovery/worker/compliance does to each
-- entity.
use kubeturbo.Prelude.{
  ◌≡◌, ◌≢◌, refl, ◌∙◌, ap, Bool, true, false, ◌&&◌, not, Option, none, some, List, [], ◌∷◌, String,
  ◌==◌, nat_eq, string_eq, if◌then◌else◌, arith, All, Option-cases, Bool-cases, inl, inr,
}
use kubeturbo.Prelude.Dict.{Dict, lookup, insert, lookup-insert}
use kubeturbo.Compliance.Dto.{
  CommodityDto, EntityDto, Addr, Heap, update, virtual_machine, container_pod,
}
use kubeturbo.Compliance.Taints.{Taint, TaintCollection, Node, get_taint_collection, contains}
use kubeturbo.Compliance.Taints.Process.{
  Pod, KubeNode, ClusterSummary, TaintTolerationProcessor, for_each, retrieve_nodes, retrieve_pods,
  running_loop, add_pods, new_taint_toleration_processor, sell_taints, buy_taints, process,
}

-- Every pointer stands in the list once.
abbrev pub Nodup : List Addr → Type 0
Nodup [] = Unit {0}
Nodup (a ∷ as') = (contains as' a ≡ false) × Nodup as'

for_each_lem :
    (f : EntityDto → EntityDto) (as' : List Addr) (heap : Heap) (b : Addr)
    → Nodup as'
    → for_each f as' heap b ≡ (if contains as' b then f (heap b) else heap b)
for_each_lem f [] heap b u = refl
for_each_lem f (a ∷ as') heap b u = elim (Bool-cases (a == b)) [
  | inl same ↦ for_each_lem f as' (update heap a (f (heap a))) b u.1 ∙ ground (arith, same)
  | inr other ↦ for_each_lem f as' (update heap a (f (heap a))) b u.1 ∙ ground (arith, other)
]

abbrev pub is_node : EntityDto → Bool
is_node e = e.entity_type == virtual_machine

abbrev pub is_running_pod : EntityDto → Bool
is_running_pod e = not (is_node e) && e.entity_type == container_pod && e.powered_on

contains-retrieve_nodes :
    (heap : Heap) (as' : List Addr) (b : Addr)
    → contains (retrieve_nodes heap as') b ≡ (contains as' b && is_node (heap b))
unfolding retrieve_nodes
contains-retrieve_nodes heap [] b = refl
contains-retrieve_nodes heap (a ∷ as') b = ground (arith, contains-retrieve_nodes heap as' b)

contains-retrieve_pods :
    (heap : Heap) (as' : List Addr) (b : Addr)
    → contains (retrieve_pods heap as') b ≡ (contains as' b && is_running_pod (heap b))
unfolding retrieve_pods
contains-retrieve_pods heap [] b = refl
contains-retrieve_pods heap (a ∷ as') b = ground (arith, contains-retrieve_pods heap as' b)

retrieve_nodes-Nodup : (heap : Heap) (as' : List Addr) → Nodup as' → Nodup (retrieve_nodes heap as')
unfolding retrieve_nodes
retrieve_nodes-Nodup heap [] u = tt
retrieve_nodes-Nodup heap (a ∷ as') u =
    ground (arith, contains-retrieve_nodes heap as' a, retrieve_nodes-Nodup heap as' u.1)

retrieve_pods-Nodup : (heap : Heap) (as' : List Addr) → Nodup as' → Nodup (retrieve_pods heap as')
unfolding retrieve_pods
retrieve_pods-Nodup heap [] u = tt
retrieve_pods-Nodup heap (a ∷ as') u =
    ground (arith, contains-retrieve_pods heap as' a, retrieve_pods-Nodup heap as' u.1)

module _ {Toleration : Type 0} (build : String → Option CommodityDto)
    (tolerates : Toleration → Taint → Bool) (p : TaintTolerationProcessor Toleration) where
  abbrev coll : TaintCollection
  coll = get_taint_collection p.nodes

  -- What becomes of one entity.
  abbrev pub processed : EntityDto → EntityDto
  processed e =
      if is_node e
      then sell_taints build tolerates p.nodes coll e
      else (if is_running_pod e
          then buy_taints build tolerates p.pods p.node_name_to_uid coll e
          else e)

  -- `Process` works entity by entity: of a list without repetitions it makes every VM sell its taint
  -- commodities, every ContainerPod that is powered on buy its own, each once, and it leaves all
  -- other entities alone, those outside the list too.
  pub process-processed :
      (heap : Heap) (entity_dtos : List Addr) (b : Addr)
      → Nodup entity_dtos
      → process build tolerates p heap entity_dtos b
        ≡ (if contains entity_dtos b then processed (heap b) else heap b)
  unfolding process
  process-processed heap l b u =
      let sell = sell_taints build tolerates p.nodes coll in
      let buy = buy_taints build tolerates p.pods p.node_name_to_uid coll in
      let sold = for_each sell (retrieve_nodes heap l) heap in
      for_each_lem buy (retrieve_pods heap l) sold b (retrieve_pods-Nodup heap l u)
      ∙ ground (
        arith,
        for_each_lem sell (retrieve_nodes heap l) heap b (retrieve_nodes-Nodup heap l u),
        contains-retrieve_nodes heap l b,
        contains-retrieve_pods heap l b,
      )

abbrev uid_of : Option KubeNode → Option String
uid_of none = none
uid_of (some n) = some n.uid

module _ {Toleration : Type 0} where
  -- No node with running pods has the uid.
  abbrev pub NoRunningPods : ClusterSummary Toleration → String → Type 0
  NoRunningPods cluster uid =
      All (λ e. uid_of (lookup e.0 cluster.node_map) ≢ some uid) cluster.node_to_running_pods

  running_loop-absent :
      (node_map : Dict String KubeNode) (running : Dict String (List (Pod Toleration)))
      (nodes : Dict String Node) (pods : Dict String (Pod Toleration)) (uid : String)
      → All (λ e. uid_of (lookup e.0 node_map) ≢ some uid) running
      → lookup uid nodes ≡ none
      → lookup uid (running_loop node_map running nodes pods).0 ≡ none
  unfolding running_loop
  running_loop-absent node_map [] nodes pods uid h absent = absent
  running_loop-absent node_map ((name, ps) ∷ rest) nodes pods uid h absent =
      elim (Option-cases (lookup name node_map)) [
        | inl missing ↦
            rw (missing, running_loop) (running_loop-absent node_map rest nodes pods uid h.1 absent)
        | inr (node, there) ↦
            rw (there, running_loop)
              (running_loop-absent node_map rest (insert node.uid node.node nodes)
                (add_pods ps pods) uid h.1
                (lookup-insert node.uid uid node.node nodes
                  ∙ ground (
                    arith,
                    string_eq.beq_iff node.uid uid,
                    ap some {x = node.uid} {y = uid},
                    there,
                    h.0,
                  )))
      ]

  -- The bug: the processor knows only the nodes that have running pods, so the VM of a node without
  -- any sells no taint commodity, not even for the taints that it does not have.
  pub process_idle_node :
      (build : String → Option CommodityDto) (tolerates : Toleration → Taint → Bool)
      (cluster : ClusterSummary Toleration) (heap : Heap) (entity_dtos : List Addr) (b : Addr)
      → Nodup entity_dtos
      → is_node (heap b) ≡ true
      → NoRunningPods cluster (heap b).id
      → process build tolerates (new_taint_toleration_processor cluster) heap entity_dtos b ≡ heap b
  unfolding new_taint_toleration_processor sell_taints
  process_idle_node build tolerates cluster heap l b u vm idle =
      process-processed build tolerates (new_taint_toleration_processor cluster) heap l b u
      ∙ ground (
        arith,
        vm,
        running_loop-absent cluster.node_map cluster.node_to_running_pods [] [] (heap b).id idle
            (unfold lookup in refl),
      )

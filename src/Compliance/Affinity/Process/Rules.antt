-- ===== src/Compliance/Affinity/Process/Rules.antt =====
-- ProcessAffinityRules of affinity_processor.go in pkg/discovery/worker/compliance over all pods.
use kubeturbo.Prelude.{
  ℕ, ◌≡◌, refl, ◌∙◌, sym, subst, Bool, false, ◌&&◌, Option, none, some, List, [], ◌∷◌, ◌++◌, map,
  String, string_eq, nat_eq, any, arith, Option-cases, Bool-cases, inl, inr,
}
use kubeturbo.Prelude.Dict.{Dict, lookup}
use kubeturbo.Compliance.Dto.{CommodityDto, Addr, Heap}
use kubeturbo.Compliance.Processor.{State, group_entity_dtos}
use kubeturbo.Compliance.Processor.Grouping.{
  find, is_at, last_at, found-get_entity_dto, get_entity_dto-group_entity_dtos,
}
use kubeturbo.Compliance.Affinity.Store.{IsCache, built, access_commodities-built}
use kubeturbo.Compliance.Affinity.Process.Adds.{
  Indexed, Adds, Adds-none, Adds-trans, Adds-map, Adds-Indexed,
}
use kubeturbo.Compliance.Affinity.Process.Effects.{match_sells, match_takes, match_nodes-Adds}
use kubeturbo.Compliance.Affinity.Process.{
  Node, Pod, MountedVolume, host_node, get_all_node_selectors, get_all_pod_affinity_terms, pv_terms,
  process_affinity_per_pod, process_pods, process_affinity_rules,
}
use kubeturbo.Compliance.Affinity.{
  AffinityCommodityManager, new_affinity_commodity_manager, access_commodities, pod_display,
}

find-group :
    (heap : Heap) (dtos : List Addr) (t : ℕ) (i : String)
    → find (group_entity_dtos heap [] dtos) t i ≡ last_at heap t i dtos
find-group heap dtos t i =
    sym (found-get_entity_dto (group_entity_dtos heap [] dtos) t i)
    ∙ get_entity_dto-group_entity_dtos heap dtos t i

last_at-is_at :
    (heap : Heap) (t : ℕ) (i : String) (dtos : List Addr) (a : Addr)
    → last_at heap t i dtos ≡ some a
    → ((heap a).entity_type ≡ t) × ((heap a).id ≡ i)
last_at-is_at heap t i [] a e = cc
last_at-is_at heap t i (b ∷ dtos) a e = elim (Option-cases (last_at heap t i dtos)) [
  | inr (c, later) ↦ last_at-is_at heap t i dtos a (ground (arith, later))
  | inl last ↦ elim (Bool-cases (is_at heap t i b)) [
    | inl here ↦
        let same : b ≡ a = ground (arith, last, here) in
        subst (λ c. ((heap c).entity_type ≡ t) × ((heap c).id ≡ i)) same
          (
            (nat_eq.beq_iff (heap b).entity_type t).0 (ground (arith, here)),
            (string_eq.beq_iff (heap b).id i).0 (ground (arith, here)),
          )
    | inr other ↦ ground (arith, last, other)
  ]
]

group-Indexed :
    (heap : Heap) (dtos : List Addr)
    → Indexed (record { entity_maps = group_entity_dtos heap [] dtos; heap = heap })
group-Indexed heap dtos t i a e = last_at-is_at heap t i dtos a (sym (find-group heap dtos t i) ∙ e)

module _ (hash : String → Option String) (build_sold build_bought : String → Option CommodityDto)
    {NodeTerm PodTerm : Type 0} (node_readable node_text : NodeTerm → String)
    (pod_readable pod_text : PodTerm → String) (nodes : List Node)
    (matches_node matches_pods : Pod NodeTerm PodTerm → Node → Bool)
    (matches_pv : List NodeTerm → Node → Bool) (honor : Bool)
    (volumes : Dict String (List (MountedVolume NodeTerm))) where
  abbrev pub volume_terms_of : Pod NodeTerm PodTerm → List NodeTerm
  volume_terms_of pod =
      pv_terms hash build_sold build_bought node_readable node_text pod_readable pod_text nodes
        matches_node matches_pods matches_pv honor volumes pod

  -- The texts of the pod's terms on nodes, and of those on pods.
  abbrev pub node_texts : Pod NodeTerm PodTerm → List (String × String)
  node_texts pod =
      map (λ t. (node_readable t, node_text t))
        (get_all_node_selectors pod.affinity ++ volume_terms_of pod)

  abbrev pub pod_texts : Pod NodeTerm PodTerm → List (String × String)
  pod_texts pod =
      map
        (λ t. (
          pod_display hash build_sold build_bought pod_readable pod_text pod.namespace pod.name t,
          pod_text t,
        ))
        (get_all_pod_affinity_terms pod.affinity)

  -- The commodities of those terms, sold and bought.
  abbrev pub node_comms : Pod NodeTerm PodTerm → Option (List CommodityDto × List CommodityDto)
  node_comms pod = built hash build_sold build_bought (node_texts pod)

  abbrev pub pod_comms : Pod NodeTerm PodTerm → Option (List CommodityDto × List CommodityDto)
  pod_comms pod = built hash build_sold build_bought (pod_texts pod)

  abbrev pub by_node : Pod NodeTerm PodTerm → Node → Bool
  by_node pod n = matches_node pod n && matches_pv (volume_terms_of pod) n

  -- What one pod's rules make the entity at an address sell and buy; nothing, if the commodities of the
  -- pod cannot all be built.
  abbrev pub pod_sells :
      (ℕ → String → Option Addr) → Pod NodeTerm PodTerm → Addr → CommodityDto → Bool
  pod_sells f pod b d = elim (node_comms pod) [
    | none ↦ false
    | some nc ↦ elim (pod_comms pod) [
      | none ↦ false
      | some pc ↦
          match_sells (by_node pod) (matches_pods pod) pod.uid (host_node nodes pod) nc pc f nodes b
            d
    ]
  ]

  abbrev pub pod_takes :
      (ℕ → String → Option Addr) → Pod NodeTerm PodTerm → Addr → String → CommodityDto → Bool
  pod_takes f pod b j d = elim (node_comms pod) [
    | none ↦ false
    | some nc ↦ elim (pod_comms pod) [
      | none ↦ false
      | some pc ↦
          match_takes (by_node pod) (matches_pods pod) pod.uid (host_node nodes pod) nc pc f nodes b
            j d
    ]
  ]

  abbrev per_pod :
      AffinityCommodityManager × State → Pod NodeTerm PodTerm → AffinityCommodityManager × State
  per_pod =
      process_affinity_per_pod hash build_sold build_bought node_readable node_text pod_readable
        pod_text nodes matches_node matches_pods matches_pv honor volumes

  per_pod-Adds :
      (f : ℕ → String → Option Addr) (m : AffinityCommodityManager) (s : State)
      (pod : Pod NodeTerm PodTerm)
      → IsCache hash build_sold build_bought m
      → Indexed s
      → ((t : ℕ) (i : String) → find s.entity_maps t i ≡ f t i)
      → IsCache hash build_sold build_bought (per_pod (m, s) pod).0
        × Adds s (per_pod (m, s) pod).1 (pod_sells f pod) (pod_takes f pod)
  unfolding process_affinity_per_pod
  per_pod-Adds f m s pod cache h same =
      let (first, cache') =
        access_commodities-built hash build_sold build_bought m (node_texts pod) cache in
      let m' = (access_commodities hash build_sold build_bought m (node_texts pod)).0 in
      let (second, cache'') =
        access_commodities-built hash build_sold build_bought m' (pod_texts pod) cache' in
      elim (Option-cases (node_comms pod)) [
        | inl failed ↦
            rw (first ∙ failed, process_affinity_per_pod)
              (
                cache',
                Adds-map (Adds-none s) (λ b d. rw (failed, pod_sells) refl)
                    (λ b j d. rw (failed, pod_takes) refl),
              )
        | inr (nc, made) ↦ elim (Option-cases (pod_comms pod)) [
          | inl failed ↦
              rw (first ∙ made, process_affinity_per_pod)
                (rw (second ∙ failed) (
                  cache'',
                  Adds-map (Adds-none s) (λ b d. rw (made, pod_sells) (rw failed refl))
                      (λ b j d. rw (made, pod_takes) (rw failed refl)),
                ))
          | inr (pc, made') ↦
              rw (first ∙ made, process_affinity_per_pod)
                (rw (second ∙ made') (
                  cache'',
                  Adds-map
                      (match_nodes-Adds (by_node pod) (matches_pods pod) pod.uid
                        (host_node nodes pod) nc pc f s nodes h same)
                      (λ b d. rw (made, pod_sells) (rw made' refl))
                      (λ b j d. rw (made, pod_takes) (rw made' refl)),
                ))
        ]
      ]

  process_pods-Adds :
      (f : ℕ → String → Option Addr) (m : AffinityCommodityManager) (s : State)
      (pods : List (Pod NodeTerm PodTerm))
      → IsCache hash build_sold build_bought m
      → Indexed s
      → ((t : ℕ) (i : String) → find s.entity_maps t i ≡ f t i)
      → Adds s
          (process_pods hash build_sold build_bought node_readable node_text pod_readable pod_text
            nodes matches_node matches_pods matches_pv honor volumes
            (m, s)
            pods).1
          (λ b d. any (λ pod. pod_sells f pod b d) pods)
          (λ b j d. any (λ pod. pod_takes f pod b j d) pods)
  unfolding process_pods
  process_pods-Adds f m s [] cache h same = Adds-none s
  process_pods-Adds f m s (pod ∷ pods) cache h same =
      let (cache', one) = per_pod-Adds f m s pod cache h same in
      let next = per_pod (m, s) pod in
      let rest =
        process_pods-Adds f next.0 next.1 pods cache' (Adds-Indexed one h)
          (λ t i. one.finds t i ∙ same t i) in
      Adds-trans one rest

  new-IsCache : IsCache hash build_sold build_bought new_affinity_commodity_manager
  new-IsCache = record {
    sold_built = λ key c e. unfold lookup in cc;
    bought_built = λ key c e. unfold lookup in cc;
  }

  -- ProcessAffinityRules on a new processor keeps the entities' types and ids and what they sell and
  -- buy, and adds exactly this: for each pod whose commodities can all be built, every node where the
  -- pod's node affinity holds sells the commodities of its node terms, and every node where its
  -- affinity to other pods holds sells those of its pod terms; and the pod buys, from the node that
  -- it runs on, the commodities of each of the two kinds if there is a node at all where that kind
  -- holds (a pod that runs on no node buys them from every such node). An entity is that of a node or
  -- a pod if it is the last VM or ContainerPod of the list with its uid.
  pub process_affinity_rules-Adds :
      (heap : Heap) (dtos : List Addr) (pods : List (Pod NodeTerm PodTerm))
      → let f : ℕ → String → Option Addr = λ t i. last_at heap t i dtos in
        Adds
          (record { entity_maps = group_entity_dtos heap [] dtos; heap = heap })
          (process_affinity_rules hash build_sold build_bought node_readable node_text pod_readable
            pod_text nodes matches_node matches_pods matches_pv honor volumes
            (record { entity_maps = []; heap = heap })
            dtos
            pods).1
          (λ b d. any (λ pod. pod_sells f pod b d) pods)
          (λ b j d. any (λ pod. pod_takes f pod b j d) pods)
  unfolding process_affinity_rules
  process_affinity_rules-Adds heap dtos pods =
      process_pods-Adds (λ t i. last_at heap t i dtos) new_affinity_commodity_manager
        (record { entity_maps = group_entity_dtos heap [] dtos; heap = heap }) pods new-IsCache
        (group-Indexed heap dtos) (find-group heap dtos)

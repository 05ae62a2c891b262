-- ===== src/Compliance/AffinityExamples.antt =====
-- A pod that must run on one of two nodes, as the affinity files of pkg/discovery/worker/compliance meet it.
use kubeturbo.Prelude.{
  ℕ, zero, suc, ◌≡◌, refl, Bool, true, false, Option, none, some, List, [], ◌∷◌, String, ◌==◌,
  nat_eq, string_eq, any, Bool-cases, inl, inr, ap, sym, ◌∙◌, arith,
}
use kubeturbo.Prelude.Dict.{lookup, insert}
use kubeturbo.Compliance.Dto.{
  CommodityDto, EntityDto, Addr, Heap, virtual_machine, container_pod, has_commodity,
}
use kubeturbo.Compliance.Processor.{group_entity_dtos}
use kubeturbo.Compliance.Processor.Grouping.{last_at}
use kubeturbo.Compliance.Affinity.{AffinityCommodityManager, access_commodities}
use kubeturbo.Compliance.Affinity.Store.{IsCache, built, access_commodities-built}
use kubeturbo.Compliance.Affinity.Process.{Node, Pod, process_affinity_rules, nodes_map}
use kubeturbo.Compliance.Affinity.Process.Adds.{Adds}
use kubeturbo.Compliance.Affinity.Process.Rules.{pod_sells, pod_takes, process_affinity_rules-Adds}

abbrev access : String → CommodityDto
access key = record { commodity_type = 24; key = key; capacity = 10000000000 }

abbrev build : String → Option CommodityDto
build key = some (access key)

abbrev hash : String → Option String
hash term = some "7"

-- The store has the commodity of one of the keys already.
abbrev manager : AffinityCommodityManager
manager = record {
  commodity_sold_store = ("ssd|7", access "ssd|7") ∷ [];
  commodity_bought_store = [];
}

abbrev terms : List (String × String)
terms = ("ssd", "disk in ssd") ∷ ("gpu", "gpu exists") ∷ []

manager-IsCache : IsCache hash build build manager
unfolding lookup
manager-IsCache = record {
  sold_built = λ key c e. elim (Bool-cases ("ssd|7" == key)) [
    | inl same ↦ ap build (sym ((string_eq.beq_iff "ssd|7" key).0 same)) ∙ ground (arith, same, e)
    | inr other ↦ ground (arith, other, e)
  ];
  bought_built = λ key c e. cc;
}

access_commodities-built_example :
    ((access_commodities hash build build manager terms).1 ≡ built hash build build terms)
    × IsCache hash build build (access_commodities hash build build manager terms).0
access_commodities-built_example =
    access_commodities-built hash build build manager terms manager-IsCache

built-terms :
    built hash build build terms
    ≡ some (access "ssd|7" ∷ access "gpu|7" ∷ [], access "ssd|7" ∷ access "gpu|7" ∷ [])
built-terms = refl

abbrev nodes : List Node
nodes = record { name = "node-1"; uid = "n1" } ∷ record { name = "node-2"; uid = "n2" } ∷ []

-- A term on nodes is the name of a node.
abbrev pod : Pod String String
pod = record {
  uid = "p1";
  namespace = "shop";
  name = "web";
  node_name = "node-1";
  affinity = some (record {
    node_affinity = some (some ("node-2" ∷ []));
    pod_affinity = none;
    pod_anti_affinity = none;
  });
}

abbrev text : String → String
text t = t

abbrev matches_node : Pod String String → Node → Bool
matches_node p n = n.name == "node-2"

abbrev matches_pods : Pod String String → Node → Bool
matches_pods p n = true

abbrev matches_pv : List String → Node → Bool
matches_pv pv n = true

abbrev entity : ℕ → String → EntityDto
entity type id = record {
  entity_type = type;
  id = id;
  powered_on = true;
  commodities_sold = [];
  commodities_bought = [];
}

abbrev heap : Heap
heap zero = entity virtual_machine "n1"
heap (suc zero) = entity virtual_machine "n2"
heap (suc (suc a)) = entity container_pod "p1"

abbrev dtos : List Addr
dtos = 0 ∷ 1 ∷ 2 ∷ []

abbrev at : ℕ → String → Option Addr
at t i = last_at heap t i dtos

process_affinity_rules-Adds_example :
    Adds
      (record { entity_maps = group_entity_dtos heap [] dtos; heap = heap })
      (process_affinity_rules hash build build text text text text nodes matches_node matches_pods
        matches_pv false []
        (record { entity_maps = []; heap = heap })
        dtos
        (pod ∷ [])).1
      (λ b d.
        any
          (λ p.
            pod_sells hash build build text text text text nodes matches_node matches_pods
              matches_pv false [] at p b d)
          (pod ∷ []))
      (λ b j d.
        any
          (λ p.
            pod_takes hash build build text text text text nodes matches_node matches_pods
              matches_pv false [] at p b j d)
          (pod ∷ []))
process_affinity_rules-Adds_example =
    process_affinity_rules-Adds hash build build text text text text nodes matches_node matches_pods
      matches_pv false [] heap dtos (pod ∷ [])

-- The second node sells the commodity, and the pod buys it from the first, where it runs.
pod-rule :
    (pod_sells hash build build text text text text nodes matches_node matches_pods matches_pv false
        [] at pod 1
        (access "node-2|7")
      ≡ true)
    × (pod_takes hash build build text text text text nodes matches_node matches_pods matches_pv
          false [] at pod 2 "n1"
          (access "node-2|7")
        ≡ true)
unfolding has_commodity nodes_map lookup insert
pod-rule = (refl, refl)

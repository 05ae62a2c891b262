-- ===== src/Compliance/Examples.antt =====
-- A few entities, nodes and pods of pkg/discovery/worker/compliance.
use kubeturbo.Prelude.{zero, suc, ◌≡◌, ◌≢◌, refl, true, ◌||◌, some, [], ◌∷◌, nat_eq, string_eq}
use kubeturbo.Prelude.Dict.{lookup}
use kubeturbo.Compliance.Dto.{
  CommodityDto, CommodityBought, Addr, Heap, virtual_machine, container_pod, has_commodity,
}
use kubeturbo.Compliance.Processor.{State, Provider, add_commodities_sold}
use kubeturbo.Compliance.Processor.Grouping.{find}
use kubeturbo.Compliance.Processor.Sold.{Distinct, add_commodities_sold-union}
use kubeturbo.Compliance.Taints.{taint_eq}

abbrev cpu : CommodityDto
cpu = record { commodity_type = 40; key = ""; capacity = 4 }

abbrev mem : CommodityDto
mem = record { commodity_type = 53; key = ""; capacity = 8 }

abbrev bought : CommodityBought
bought = record { provider_id = "n1"; provider_type = virtual_machine; bought = cpu ∷ [] }

-- The VM of a node at 0, and a pod elsewhere.
abbrev heap : Heap
heap zero = record {
  entity_type = virtual_machine;
  id = "n1";
  powered_on = true;
  commodities_sold = cpu ∷ [];
  commodities_bought = [];
}
heap (suc a) = record {
  entity_type = container_pod;
  id = "p1";
  powered_on = true;
  commodities_sold = [];
  commodities_bought = bought ∷ [];
}

abbrev state : State
state = record { entity_maps = (virtual_machine, ("n1", 0) ∷ []) ∷ []; heap = heap }

add_commodities_sold-union_example :
    let e' = (add_commodities_sold state (some 0) (some (cpu ∷ mem ∷ []))).0.heap 0 in
    ((d : CommodityDto)
      → has_commodity e'.commodities_sold d
        ≡ (has_commodity (cpu ∷ []) d || has_commodity (cpu ∷ mem ∷ []) d))
    × (Distinct (cpu ∷ []) → Distinct e'.commodities_sold)
    × (e'.commodities_bought ≡ [])
    × ((e'.entity_type ≡ virtual_machine) × (e'.id ≡ "n1") × (e'.powered_on ≡ true))
    × ((b : Addr)
        → b ≢ 0
        → (add_commodities_sold state (some 0) (some (cpu ∷ mem ∷ []))).0.heap b ≡ heap b)
add_commodities_sold-union_example = add_commodities_sold-union state 0 (cpu ∷ mem ∷ [])

find_state : find state.entity_maps virtual_machine "n1" ≡ some 0
unfolding lookup
find_state = refl

abbrev provider : Provider
provider = record { provider_type = virtual_machine; id = "n1" }

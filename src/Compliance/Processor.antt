-- ===== src/Compliance/Processor.antt =====
-- pkg/discovery/worker/compliance/compliance_processor.go.
pub mod Sold
pub mod Bought
pub mod Grouping
use kubeturbo.Prelude.{
  ℕ, ◌+◌, Bool, true, false, ◌&&◌, ◌||◌, Option, none, some, List, [], ◌∷◌, ◌++◌, map, String, ◌==◌,
  nat_eq, string_eq, if◌then◌else◌, nat_beq,
}
use kubeturbo.Prelude.Dict.{Dict, lookup, insert}
use kubeturbo.Compliance.Dto.{
  CommodityDto, CommodityBought, EntityDto, Addr, Heap, update, same_commodity, has_commodity,
}

-- `entityMaps`: for each entity type the entities by id.
abbrev pub EntityMaps : Type 0
EntityMaps = Dict ℕ (Dict String Addr)

pub record State : Type 0 where
  pub entity_maps : EntityMaps
  pub heap : Heap

pub data Error : Type 0 where
  nil_entity nil_commodity nil_provider unknown_type unknown_id : Error

pub data Result (A : Type 0) : Type 0 where
  ok : A → Result A
  err : Error → Result A

abbrev pub or_empty : Option (Dict String Addr) → Dict String Addr
or_empty none = []
or_empty (some m) = m

-- One entity of the loop of GroupEntityDTOs.
unfoldable pub group_entity_dto : Heap → EntityMaps → Addr → EntityMaps
group_entity_dto heap maps a =
    let e = heap a in
    insert e.entity_type (insert e.id a (or_empty (lookup e.entity_type maps))) maps

unfoldable pub group_entity_dtos : Heap → EntityMaps → List Addr → EntityMaps
group_entity_dtos heap maps [] = maps
group_entity_dtos heap maps (a ∷ as') = group_entity_dtos heap (group_entity_dto heap maps a) as'

unfoldable pub get_all_entity_dtos : EntityMaps → List Addr
get_all_entity_dtos [] = []
get_all_entity_dtos ((entity_type, m) ∷ maps) = map (λ p. p.1) m ++ get_all_entity_dtos maps

unfoldable pub get_entity_dto : EntityMaps → ℕ → String → Result Addr
get_entity_dto maps entity_type id = elim (lookup entity_type maps) [
  | none ↦ err unknown_type
  | some m ↦ elim (lookup id m) [ some a ↦ ok a | none ↦ err unknown_id ]
]

-- `entityMaps[eType][eId] = entityDTO`, where both keys are known.
unfoldable pub update_entity_dto : State → Addr → State × Option Error
update_entity_dto s a =
    let e = s.heap a in
    elim (lookup e.entity_type s.entity_maps) [
      | none ↦ (s, some unknown_type)
      | some m ↦ elim (lookup e.id m) [
        | none ↦ (s, some unknown_id)
        | some old ↦
            (record s { entity_maps = insert e.entity_type (insert e.id a m) s.entity_maps }, none)
      ]
    ]

-- The loop that both `Add…` methods share: what is not there yet is appended.
unfoldable pub add_missing : List CommodityDto → List CommodityDto → List CommodityDto
add_missing found [] = found
add_missing found (c ∷ cs) =
    add_missing (if has_commodity found c then found else found ++ c ∷ []) cs

-- Nil pointers and nil slices are `none`. The entity is changed in place before the error of
-- UpdateEntityDTO is known.
unfoldable pub add_commodities_sold :
    State → Option Addr → Option (List CommodityDto) → State × Option Error
add_commodities_sold s none commodities = (s, some nil_entity)
add_commodities_sold s (some a) none = (s, some nil_commodity)
add_commodities_sold s (some a) (some commodities) =
    let e = s.heap a in
    let e' = record e { commodities_sold = add_missing e.commodities_sold commodities } in
    update_entity_dto (record s { heap = update s.heap a e' }) a

pub record Provider : Type 0 where
  pub provider_type : ℕ
  pub id : String

-- The loop over the providers bought from; it does not stop at the first match.
unfoldable pub buy_from : String → List CommodityDto → List CommodityBought → List CommodityBought
buy_from id commodities [] = []
buy_from id commodities (b ∷ bs) =
    (if b.provider_id == id then record b { bought = add_missing b.bought commodities } else b)
    ∷ buy_from id commodities bs

abbrev pub has_provider : String → List CommodityBought → Bool
has_provider id [] = false
has_provider id (b ∷ bs) = b.provider_id == id || has_provider id bs

unfoldable pub add_commodities_bought :
    State → Option Addr → Option Provider → Option (List CommodityDto) → State × Option Error
add_commodities_bought s none provider commodities = (s, some nil_entity)
add_commodities_bought s (some a) provider none = (s, some nil_commodity)
add_commodities_bought s (some a) none (some commodities) = (s, some nil_provider)
add_commodities_bought s (some a) (some provider) (some commodities) =
    let e = s.heap a in
    let bought = buy_from provider.id commodities e.commodities_bought in
    let from_provider : CommodityBought = record {
      provider_id = provider.id;
      provider_type = provider.provider_type;
      bought = commodities;
    } in
    let longer = record e { commodities_bought = bought ++ from_provider ∷ [] } in
    if has_provider provider.id e.commodities_bought
    then (record s { heap = update s.heap a (record e { commodities_bought = bought }) }, none)
    else update_entity_dto (record s { heap = update s.heap a longer }) a

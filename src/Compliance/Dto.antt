-- ===== src/Compliance/Dto.antt =====
-- The parts of the SDK's EntityDTO that pkg/discovery/worker/compliance reads and writes. Entities
-- are shared by pointers, so they live in a heap; a commodity is never changed once it is built.
use kubeturbo.Prelude.{ℕ, Bool, ◌&&◌, List, String, ◌==◌, nat_eq, string_eq, any, if◌then◌else◌}

-- The commodity and entity types are the numbers of the SDK's enumerations. The pointer to a
-- commodity is not kept: two equal pointers have equal types and keys.
pub record CommodityDto : Type 0 where
  pub commodity_type : ℕ
  pub key : String
  pub capacity : ℕ

pub record CommodityBought : Type 0 where
  pub provider_id : String
  pub provider_type : ℕ
  pub bought : List CommodityDto

pub record EntityDto : Type 0 where
  pub entity_type : ℕ
  pub id : String
  pub powered_on : Bool
  pub commodities_sold : List CommodityDto
  pub commodities_bought : List CommodityBought

abbrev pub Addr : Type 0
Addr = ℕ

abbrev pub Heap : Type 0
Heap = Addr → EntityDto

abbrev pub update : Heap → Addr → EntityDto → Heap
update heap a dto b = if a == b then dto else heap b

-- `EntityDTO_VIRTUAL_MACHINE`, `EntityDTO_CONTAINER_POD` and `CommodityDTO_TAINT`.
abbrev pub virtual_machine : ℕ
virtual_machine = 10

abbrev pub container_pod : ℕ
container_pod = 41

abbrev pub taint : ℕ
taint = 129

-- The test of hasCommodity in compliance_processor.go.
abbrev pub same_commodity : CommodityDto → CommodityDto → Bool
same_commodity a b = a.commodity_type == b.commodity_type && a.key == b.key

unfoldable pub has_commodity : List CommodityDto → CommodityDto → Bool
has_commodity commodities comm = any (λ c. same_commodity comm c) commodities

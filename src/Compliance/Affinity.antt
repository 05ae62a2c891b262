-- ===== src/Compliance/Affinity.antt =====
-- pkg/discovery/worker/compliance/affinity_commodity_manager.go: the access commodities that stand for
-- the terms of affinity rules, each made once and kept in a store.
pub mod Store
pub mod Helper
pub mod NodeTerms
pub mod Process
use Prim.Native.String.{◌++◌ as str_append}
use kubeturbo.Prelude.{Option, none, some, List, [], ◌∷◌, map, String, string_eq}
use kubeturbo.Prelude.Dict.{Dict, lookup, insert}
use kubeturbo.Compliance.Dto.{CommodityDto}

pub record AffinityCommodityManager : Type 0 where
  pub commodity_sold_store : Dict String CommodityDto
  pub commodity_bought_store : Dict String CommodityDto

abbrev pub new_affinity_commodity_manager : AffinityCommodityManager
new_affinity_commodity_manager = record { commodity_sold_store = []; commodity_bought_store = [] }

-- A commodity sold and one bought, or one list of each; `none` is an error.
abbrev pub Pair : Type 0 → Type 0
Pair A = Option (A × A)

-- `hash` is the library's hash of a text as a number in decimal; `build_sold` and `build_bought` are
-- the SDK's builders of a VMPM_ACCESS commodity, the first with the default capacity.
module _ (hash : String → Option String)
    (build_sold build_bought : String → Option CommodityDto) where
  unfoldable pub get_commodity_sold :
      AffinityCommodityManager → String → AffinityCommodityManager × Option CommodityDto
  get_commodity_sold m key = elim (lookup key m.commodity_sold_store) [
    | some c ↦ (m, some c)
    | none ↦ elim (build_sold key) [
      | none ↦ (m, none)
      | some c ↦ (record m { commodity_sold_store = insert key c m.commodity_sold_store }, some c)
    ]
  ]

  unfoldable pub get_commodity_bought :
      AffinityCommodityManager → String → AffinityCommodityManager × Option CommodityDto
  get_commodity_bought m key = elim (lookup key m.commodity_bought_store) [
    | some c ↦ (m, some c)
    | none ↦ elim (build_bought key) [
      | none ↦ (m, none)
      | some c ↦
          (record m { commodity_bought_store = insert key c m.commodity_bought_store }, some c)
    ]
  ]

  abbrev pub comm_key : String → String → String
  comm_key display hashed = str_append display (str_append "|" hashed)

  unfoldable pub get_commodity_sold_and_bought :
      AffinityCommodityManager → String → String → AffinityCommodityManager × Pair CommodityDto
  get_commodity_sold_and_bought m display term = elim (hash term) [
    | none ↦ (m, none)
    | some hashed ↦
        let (m', sold) = get_commodity_sold m (comm_key display hashed) in
        let (m'', bought) = get_commodity_bought m' (comm_key display hashed) in
        elim sold [
          | none ↦ (m', none)
          | some s ↦ elim bought [ none ↦ (m'', none) | some b ↦ (m'', some (s, b)) ]
        ]
  ]

  abbrev pub prepend :
      CommodityDto × CommodityDto → Pair (List CommodityDto) → Pair (List CommodityDto)
  prepend p none = none
  prepend p (some (sold, bought)) = some (p.0 ∷ sold, p.1 ∷ bought)

  -- The loop that both `GetAccessCommodities…` share, over the texts for display and for the hash.
  unfoldable pub access_commodities :
      AffinityCommodityManager
      → List (String × String)
      → AffinityCommodityManager × Pair (List CommodityDto)
  access_commodities m [] = (m, some ([], []))
  access_commodities m ((display, term) ∷ terms) =
      let (m', pair) = get_commodity_sold_and_bought m display term in
      let (m'', rest) = access_commodities m' terms in
      elim pair [ none ↦ (m', none) | some p ↦ (m'', prepend p rest) ]

  -- `readable` makes a term's text for display, `text` is its method String.
  module _ {Term : Type 0} (readable text : Term → String) where
    abbrev pub get_access_commodities_for_node_affinity :
        AffinityCommodityManager → List Term → AffinityCommodityManager × Pair (List CommodityDto)
    get_access_commodities_for_node_affinity m terms =
        access_commodities m (map (λ t. (readable t, text t)) terms)

    abbrev pub pod_display : String → String → Term → String
    pod_display namespace name t =
        str_append (readable t) (str_append "|" (str_append namespace (str_append "/" name)))

    abbrev pub get_access_commodities_for_pod_affinity_anti_affinity :
        AffinityCommodityManager
        → List Term
        → (namespace name : String) → AffinityCommodityManager × Pair (List CommodityDto)
    get_access_commodities_for_pod_affinity_anti_affinity m terms namespace name =
        access_commodities m (map (λ t. (pod_display namespace name t, text t)) terms)

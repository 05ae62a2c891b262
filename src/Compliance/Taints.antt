-- ===== src/Compliance/Taints.antt =====
-- pkg/discovery/worker/compliance/taint_toleration_processor.go: taints as commodities that nodes
-- sell and pods buy.
pub mod Collection
pub mod Commodities
pub mod Placement
pub mod Process
use Prim.Native.String.{◌++◌ as str_append}
use mathlib.Core.Option
use kubeturbo.Prelude.{
  ℕ, ◌≡◌, refl, ◌↔◌, ◌∙◌, ap, Bool, true, false, ◌&&◌, ◌||◌, not, Option, none, some, List, [], ◌∷◌,
  ◌++◌, String, ◌==◌, Eq, nat_eq, string_eq, any, arith, if◌then◌else◌, is_some,
}
use kubeturbo.Prelude.Dict.{Dict, lookup, insert}
use kubeturbo.Compliance.Dto.{
  CommodityDto, CommodityBought, EntityDto, Addr, Heap, update, virtual_machine, container_pod,
}

-- `api.Taint`. Its `TimeAdded` is a pointer, so two taints with equal times differ as map keys.
pub record Taint : Type 0 where
  pub key : String
  pub value : String
  pub effect : String
  pub time_added : Option Addr

abbrev pub same_pointer : Option Addr → Option Addr → Bool
same_pointer none none = true
same_pointer none (some b) = false
same_pointer (some a) none = false
same_pointer (some a) (some b) = a == b

unfoldable pub taint_beq : Taint → Taint → Bool
taint_beq a b =
    a.key == b.key
    && a.value == b.value
    && a.effect == b.effect
    && same_pointer a.time_added b.time_added

same_pointer_iff : (a b : Option Addr) → (same_pointer a b ≡ true) ↔ (a ≡ b)
same_pointer_iff none none = ground arith
same_pointer_iff none (some b) = ground arith
same_pointer_iff (some a) none = ground arith
same_pointer_iff (some a) (some b) = ground arith

pub taint_beq_iff : (a b : Taint) → (taint_beq a b ≡ true) ↔ (a ≡ b)
unfolding taint_beq
taint_beq_iff a b = (
  λ h. ground (
    arith,
    string_eq.beq_iff a.key b.key,
    string_eq.beq_iff a.value b.value,
    string_eq.beq_iff a.effect b.effect,
    same_pointer_iff a.time_added b.time_added,
  ),
  λ e. ground (
    arith,
    string_eq.beq_iff a.key b.key,
    string_eq.beq_iff a.value b.value,
    string_eq.beq_iff a.effect b.effect,
    same_pointer_iff a.time_added b.time_added,
  ),
)

instance abbrev pub taint_eq : Eq Taint
taint_eq = record { beq = taint_beq; beq_iff = taint_beq_iff }

abbrev pub TaintCollection : Type 0
TaintCollection = Dict Taint String

pub record Node : Type 0 where
  pub name : String
  pub taints : List Taint

abbrev pub unschedulable_node_taint_key : String
unschedulable_node_taint_key = "node.kubernetes.io/unschedulable"

abbrev pub is_unschedulable_node_taint : Taint → Bool
is_unschedulable_node_taint t = t.key == unschedulable_node_taint_key

-- The test of getTaintCollection.
unfoldable pub is_relevant : Taint → Bool
is_relevant t =
    not (is_unschedulable_node_taint t) && (t.effect == "NoExecute" || t.effect == "NoSchedule")

unfoldable pub taint_key : Taint → String
taint_key t = str_append t.key (str_append "=" (str_append t.value (str_append ":" t.effect)))

-- The inner loop of getTaintCollection, over the taints of one node.
unfoldable pub collect_taint : TaintCollection → Taint → TaintCollection
collect_taint coll t =
    if is_relevant t && not (is_some (lookup t coll)) then insert t (taint_key t) coll else coll

unfoldable pub collect_taints : TaintCollection → List Taint → TaintCollection
collect_taints coll [] = coll
collect_taints coll (t ∷ ts) = collect_taints (collect_taint coll t) ts

-- The outer loop; the nodes are a map by uid.
unfoldable pub collect_nodes : TaintCollection → Dict String Node → TaintCollection
collect_nodes coll [] = coll
collect_nodes coll ((uid, node) ∷ nodes) = collect_nodes (collect_taints coll node.taints) nodes

abbrev pub get_taint_collection : Dict String Node → TaintCollection
get_taint_collection nodes = collect_nodes [] nodes

abbrev pub contains : {A : Type 0} ⦃e : Eq A⦄ → List A → A → Bool
contains xs a = any (λ x. x == a) xs

-- `tolerates` is the method `ToleratesTaint` of the Kubernetes API.
abbrev pub tolerations_tolerate_taint :
    {Toleration : Type 0} (tolerates : Toleration → Taint → Bool) → List Toleration → Taint → Bool
tolerations_tolerate_taint tolerates tolerations t = any (λ x. tolerates x t) tolerations

-- One loop serves nodes and pods: `wanted` is the test for a commodity of the taint. `build` is the
-- SDK's builder of a TAINT commodity with the key and the default capacity; it may fail. `visited`
-- are the keys for which a commodity was made.
module _ (build : String → Option CommodityDto) where
  unfoldable pub taint_comms :
      (Taint → Bool) → List String → TaintCollection → Option (List CommodityDto)
  taint_comms wanted visited [] = some []
  taint_comms wanted visited ((t, key) ∷ coll) =
      let fresh = not (contains visited key) && wanted t in
      let rest = taint_comms wanted (if fresh then key ∷ visited else visited) coll in
      elim fresh [
        | false ↦ rest
        | true ↦ elim (build key) [ none ↦ none | some c ↦ Option.map (λ cs. c ∷ cs) rest ]
      ]

  -- The node sells a commodity for each taint that it does not have.
  unfoldable pub create_taint_comms_sold : Node → TaintCollection → Option (List CommodityDto)
  create_taint_comms_sold node coll = taint_comms (λ t. not (contains node.taints t)) [] coll

  -- The pod buys a commodity for each taint that it does not tolerate.
  unfoldable pub create_taint_comms_bought :
      {Toleration : Type 0} (tolerates : Toleration → Taint → Bool)
      → List Toleration
      → TaintCollection
      → Option (List CommodityDto)
  create_taint_comms_bought tolerates tolerations coll =
      taint_comms (λ t. not (tolerations_tolerate_taint tolerates tolerations t)) [] coll

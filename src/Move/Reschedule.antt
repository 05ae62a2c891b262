-- ===== src/Move/Reschedule.antt =====
-- pkg/action/executor/rescheduler.go, the executor of the moves of pods, with what it calls of
-- pkg/action/util/util.go.
pub mod Guards
mod Examples
use kubeturbo.Prelude.{
  ℕ, Bool, true, false, ◌&&◌, ◌||◌, not, Option, none, some, List, [], ◌∷◌, String, ◌==◌, string_eq,
  if◌then◌else◌, any,
}
use kubeturbo.Prelude.Dict.{Dict, lookup}
use kubeturbo.Prelude.Text.{equal_fold}
use kubeturbo.Owner.{OwnerInfo, get_pod_parent_info, is_owner_info_empty}
use kubeturbo.Owner.{Pod as OwnedPod}
use kubeturbo.Quota.{or_empty}
use kubeturbo.Move.Clone.{Pod}

-- A condition of a node: whether it is NodeReady, and whether its status is ConditionTrue.
pub record Condition : Type 0 where
  pub is_node_ready : Bool
  pub is_true : Bool

pub record Node : Type 0 where
  pub name : String
  pub system_uuid : String
  pub addresses : List String
  pub conditions : List Condition

-- The type of the new host; `other` is any other entity.
pub data HostType : Type 0 where
  virtual_machine physical_machine other : HostType

pub record Property : Type 0 where
  pub namespace : String
  pub name : String
  pub value : String

-- The new host of the action. `ip_addresses` are none without the data of a virtual machine.
pub record Host : Type 0 where
  pub entity_type : HostType
  pub properties : List Property
  pub display_name : String
  pub id : String
  pub ip_addresses : Option (List String)

abbrev pub is_machine : HostType → Bool
is_machine other = false
is_machine virtual_machine = true
is_machine physical_machine = true

abbrev pub os_scc_annotation : String
os_scc_annotation = "openshift.io/scc"

abbrev pub os_scc_allow_all : String
os_scc_allow_all = "*"

abbrev pub k8s_property_namespace : String
k8s_property_namespace = "DEFAULT"

abbrev pub k8s_node_name : String
k8s_node_name = "KubernetesNodeName"

unfoldable pub get_node_name_from_property : List Property → String
get_node_name_from_property [] = ""
get_node_name_from_property (p ∷ ps) =
    if (p.namespace == k8s_property_namespace) && (p.name == k8s_node_name)
    then p.value
    else get_node_name_from_property ps

abbrev pub allowed : String → List String → Bool
allowed scc sccs = any (λ s. s == scc) sccs

unfoldable pub support_privilege_pod : Pod → List String → Bool
support_privilege_pod pod scc_allowed_set =
    elim (lookup os_scc_annotation (or_empty pod.annotations)) [
      | none ↦ true
      | some scc ↦
          (scc == "") || allowed os_scc_allow_all scc_allowed_set || allowed scc scc_allowed_set
    ]

unfoldable pub supported_parent : OwnerInfo → Bool → Bool
supported_parent owner is_resize =
    is_owner_info_empty owner
    || (is_resize && equal_fold owner.kind "DaemonSet")
    || equal_fold owner.kind "ReplicaSet"
    || equal_fold owner.kind "ReplicationController"

-- The loop over the conditions; false is an error.
unfoldable pub conditions_allow : List Condition → Bool
conditions_allow [] = true
conditions_allow (c ∷ cs) =
    let rest = conditions_allow cs in if c.is_node_ready && not c.is_true then false else rest

unfoldable pub pre_action_check : List String → Pod → Node → Bool
pre_action_check scc_allowed_set pod node =
    support_privilege_pod pod scc_allowed_set && conditions_allow node.conditions

unfoldable pub first_node : (Node → Bool) → List Node → Option Node
first_node test [] = none
first_node test (n ∷ ns) = if test n then some n else first_node test ns

-- What GetPodParentInfo reads of a pod.
abbrev pub owned : Pod → OwnedPod
owned pod = record {
  namespace = pod.namespace;
  name = pod.name;
  owner_references = pod.owner_references;
  annotations = or_empty pod.annotations;
  containers = [];
}

-- The API server's node of a name, and all its nodes; no value is an error. The state does not change.
module _ {S : Type 0} (node_of_name : S → String → Option Node)
    (get_all_nodes : S → Option (List Node)) where
  abbrev pub get_node_from_properties : S → List Property → Option Node
  get_node_from_properties s properties =
      let name = get_node_name_from_property properties in
      if name == "" then none else node_of_name s name

  abbrev pub first_of : (Node → Bool) → Option (List Node) → Option Node
  first_of test none = none
  first_of test (some nodes) = first_node test nodes

  abbrev pub get_node_by_uuid : S → String → Option Node
  get_node_by_uuid s uuid = first_of (λ n. equal_fold uuid n.system_uuid) (get_all_nodes s)

  abbrev pub get_node_by_ip : S → List String → Option Node
  get_node_by_ip s ips =
      first_of (λ n. any (λ a. any (λ ip. a == ip) ips) n.addresses) (get_all_nodes s)

  abbrev pub get_vm_ips : Host → List String
  get_vm_ips host = elim host.entity_type [
    | virtual_machine ↦ elim host.ip_addresses [ none ↦ [] | some ips ↦ ips ]
    | physical_machine ↦ []
    | other ↦ []
  ]

  abbrev pub or_else : Option Node → Option Node → Option Node
  or_else none next = next
  or_else (some n) next = some n

  unfoldable pub get_node : S → Option Host → Option Node
  unfolding get_node_name_from_property first_node
  get_node s none = none
  get_node s (some host) =
      if not (is_machine host.entity_type)
      then none
      else or_else (get_node_from_properties s host.properties) (
          or_else (node_of_name s host.display_name) (
            or_else (get_node_by_uuid s host.id)
              (elim (get_vm_ips host) [ [] ↦ none | ip ∷ ips ↦ get_node_by_ip s (ip ∷ ips) ])))

  -- `move` is movePod, with the name of the node and the owner that it is given.
  module _ (unmarshal : String → Option OwnerInfo) (scc_allowed_set : List String)
      (move : Pod → String → OwnerInfo → S → S × Option Pod) where
    unfoldable pub re_schedule : Pod → Node → S → S × Option Pod
    re_schedule pod node s =
        if not (pre_action_check scc_allowed_set pod node)
        then (s, none)
        else if pod.spec.node_name == node.name
        then (s, none)
        else elim (get_pod_parent_info unmarshal (owned pod)) [
          | none ↦ (s, none)
          | some owner ↦
              if supported_parent owner false then move pod node.name owner s else (s, none)
        ]

    -- The old and the new pod, or an error.
    unfoldable pub execute : Option Host → Pod → S → S × Option (Pod × Pod)
    unfolding get_node re_schedule
    execute new_se pod s = elim (get_node s new_se) [
      | none ↦ (s, none)
      | some node ↦
          let (s', npod) = re_schedule pod node s in
          (s', elim npod [ none ↦ none | some new ↦ some (pod, new) ])
    ]

-- ===== src/Resize/Scale/Controller.antt =====
-- Which controller an action is on: getWorkloadControllerInfo of
-- pkg/action/executor/workload_controller_resizer.go with
-- pkg/discovery/dtofactory/property/workload_controller_properties.go, and
-- GetSupportedResUsingKind of pkg/action/executor/k8s_controller_updater.go.
use kubeturbo.Prelude.{
  ◌&&◌, not, Option, none, some, List, [], ◌∷◌, String, ◌==◌, string_eq, if◌then◌else◌,
}
use kubeturbo.Move.Reschedule.{Property, k8s_property_namespace}

pub record Resource : Type 0 where
  pub group : String
  pub version : String
  pub resource : String

abbrev apps : String → Resource
apps name = record { group = "apps"; version = "v1"; resource = name }

unfoldable pub get_supported_res_using_kind : String → Option Resource
get_supported_res_using_kind kind =
    if kind == "ReplicationController"
    then some (record { group = ""; version = "v1"; resource = "replicationcontrollers" })
    else if kind == "ReplicaSet"
    then some (apps "replicasets")
    else if kind == "Deployment"
    then some (apps "deployments")
    else if kind == "DeploymentConfig"
    then some
        (record { group = "apps.openshift.io"; version = "v1"; resource = "deploymentconfigs" })
    else if kind == "DaemonSet"
    then some (apps "daemonsets")
    else if kind == "StatefulSet"
    then some (apps "statefulsets")
    else none

-- The cases of the type switch; `other_type` is any other, also nil.
pub data ControllerType : Type 0 where
  daemon_set deployment job replica_set replication_controller stateful_set : ControllerType
  custom_controller : String → ControllerType
  other_type : ControllerType

-- The entity of a workload controller; `controller_data` is `none` where the data is nil.
pub record WorkloadController : Type 0 where
  pub controller_data : Option ControllerType
  pub properties : List Property
  pub display_name : String

pub record ControllerInfo : Type 0 where
  pub namespace : String
  pub name : String
  pub kind : String

abbrev k8s_namespace : String
k8s_namespace = "KubernetesNamespace"

-- The namespace that the loop keeps is empty until it returns.
unfoldable pub get_workload_namespace_from_property : List Property → Option String
get_workload_namespace_from_property [] = none
get_workload_namespace_from_property (p ∷ ps) =
    let rest = get_workload_namespace_from_property ps in
    if not (p.namespace == k8s_property_namespace)
    then rest
    else if (p.name == k8s_namespace) && not (p.value == "")
    then some p.value
    else rest

unfoldable pub kind_of : ControllerType → Option String
kind_of daemon_set = some "DaemonSet"
kind_of deployment = some "Deployment"
kind_of job = some "Job"
kind_of replica_set = some "ReplicaSet"
kind_of replication_controller = some "ReplicationController"
kind_of stateful_set = some "StatefulSet"
kind_of (custom_controller kind) = if kind == "DeploymentConfig" then some kind else none
kind_of other_type = none

-- A nil pointer or an error ends the function.
infixl 5 ◌>>=◌
abbrev ◌>>=◌ : {A B : Type 0} → Option A → (A → Option B) → Option B
◌>>=◌ m f = elim m [ none ↦ none | some a ↦ f a ]

unfoldable pub get_workload_controller_info : Option WorkloadController → Option ControllerInfo
get_workload_controller_info target = do
  entity ← target
  data_type ← entity.controller_data
  kind ← kind_of data_type
  namespace ← get_workload_namespace_from_property entity.properties
  some (record { namespace = namespace; name = entity.display_name; kind = kind })

-- ===== src/Resize/Scale/Examples.antt =====
-- The scaler of pkg/action/executor/horizontal_scaler.go on a deployment, and on a daemon set.
use kubeturbo.Prelude.{
  ℕ, ◌≡◌, ◌≢◌, refl, Bool, true, Option, none, some, [], ◌∷◌, String, string_eq, arith,
}
use kubeturbo.Prelude.Dict.{lookup}
use kubeturbo.Owner.{Pod, OwnerInfo, get_owner_info, owner_loop}
use kubeturbo.Locks.Retry.{Attempt, success}
use kubeturbo.Resize.Scale.{succeeded}
use kubeturbo.Resize.Scale.Parent.{Object, should_skip_operator}
use kubeturbo.Resize.Scale.Replicas.{IsDirect, scale, execute-replicas, execute-daemon_set}
use kubeturbo.Resize.Scale.Controller.{
  Resource, WorkloadController, ControllerInfo, ControllerType, deployment, daemon_set,
  get_supported_res_using_kind, kind_of, get_workload_namespace_from_property,
  get_workload_controller_info,
}

-- The world is the object of the one controller.
abbrev object : String → ℕ → Object
object kind n = record {
  kind = kind;
  replicas = some n;
  containers = some [];
  owner_references = [];
  labels = none;
}

abbrev no_info : Object → Pod → Option OwnerInfo
no_info w pod = none

abbrev has_pod : Object → String → String → Bool
has_pod w namespace name = true

abbrev drop_pod : Object → String → String → Object × Bool
drop_pod w namespace name = (w, true)

abbrev fetch : Resource → String → String → Object → Option Object
fetch res namespace name w = some w

abbrev write : Resource → String → Object → Object → Object × Bool
write res namespace w obj = (obj, true)

abbrev fine : Object → Object → Object × Attempt
fine w obj = (w, success)

abbrev unchanged : ℕ → Object → Object
unchanged i w = w

abbrev stopped : ℕ → ℕ
stopped i = 0

abbrev web : ControllerType → WorkloadController
web type = record {
  controller_data = some type;
  properties = record { namespace = "DEFAULT"; name = "KubernetesNamespace"; value = "shop" } ∷ [];
  display_name = "web";
}

abbrev web_info : ControllerInfo
web_info = record { namespace = "shop"; name = "web"; kind = "Deployment" }

abbrev deployments : Resource
deployments = record { group = "apps"; version = "v1"; resource = "deployments" }

web-known : get_workload_controller_info (some (web deployment)) ≡ some web_info
unfolding get_workload_controller_info kind_of get_workload_namespace_from_property
web-known = refl

web-supported : get_supported_res_using_kind "Deployment" ≡ some deployments
unfolding get_supported_res_using_kind
web-supported = refl

object-IsDirect : (kind : String) (n : ℕ) → IsDirect (object kind n)
unfolding should_skip_operator lookup get_owner_info owner_loop
object-IsDirect kind n = refl

other_kind : (object "Deployment" 4).kind ≢ "DaemonSet"
other_kind e = cc

execute-replicas_example :
    scale no_info has_pod drop_pod fetch write fine fine unchanged stopped 0
      (web deployment)
      3
      1
      none
      (object "Deployment" 4)
    ≡ some ((object "Deployment" 2, some (object "Deployment" 2)), succeeded)
execute-replicas_example =
    execute-replicas no_info has_pod drop_pod fetch write fine fine unchanged stopped 0
      (web deployment) web_info deployments 3 1 4 (object "Deployment" 4) [] none
      (object "Deployment" 4) (object "Deployment" 2) (object "Deployment" 2) web-known
      web-supported (omega arith) (omega arith) (omega arith) refl other_kind
      (object-IsDirect "Deployment" 4) refl refl (omega arith) (omega arith) (omega arith) refl refl

abbrev agent_info : ControllerInfo
agent_info = record { namespace = "shop"; name = "web"; kind = "DaemonSet" }

abbrev daemon_sets : Resource
daemon_sets = record { group = "apps"; version = "v1"; resource = "daemonsets" }

agent-known : get_workload_controller_info (some (web daemon_set)) ≡ some agent_info
unfolding get_workload_controller_info kind_of get_workload_namespace_from_property
agent-known = refl

agent-supported : get_supported_res_using_kind "DaemonSet" ≡ some daemon_sets
unfolding get_supported_res_using_kind
agent-supported = refl

execute-daemon_set_example :
    scale no_info has_pod drop_pod fetch write fine fine unchanged stopped 0
      (web daemon_set)
      1
      3
      none
      (object "DaemonSet" 4)
    ≡ some ((object "DaemonSet" 4, some (object "DaemonSet" 4)), succeeded)
execute-daemon_set_example =
    execute-daemon_set no_info has_pod drop_pod fetch write fine fine unchanged stopped 0
      (web daemon_set) agent_info daemon_sets 1 3 (object "DaemonSet" 4) [] none
      (object "DaemonSet" 4) (object "DaemonSet" 4) (object "DaemonSet" 4) agent-known
      agent-supported (omega arith) (omega arith) refl refl (object-IsDirect "DaemonSet" 4) refl
      refl refl

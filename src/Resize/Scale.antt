-- ===== src/Resize/Scale.antt =====
-- The horizontal scaler: pkg/action/executor/horizontal_scaler.go, with the construction of
-- k8s_controller_updater.go and the controller that workload_controller_resizer.go reads.
pub mod Controller
pub mod Parent
pub mod Replicas
pub mod Exact
mod Examples
use kubeturbo.Prelude.{ℕ, ◌+◌, ◌-◌, ◌%◌, Bool, Option, none, some, [], String, if◌then◌else◌}
use kubeturbo.Owner.{Pod, OwnerInfo, is_owner_info_empty}
use kubeturbo.Handler.{
  ActionType, provision, suspend, horizontal_scale, move, right_size, other_action,
}
use kubeturbo.Locks.Retry.{Attempt, RetryResult, succeeded as done, skipped, timed_out, exhausted}
use kubeturbo.Resize.Updater.{ControllerState, ControllerSpec, int32_mod, update_with_retry}
use kubeturbo.Resize.Scale.Controller.{
  Resource, WorkloadController, get_supported_res_using_kind, get_workload_controller_info,
}

-- A capacity is a float64 in the source. The numbers of replicas are whole, and those below 2^53
-- are exact.
pub data ℤ : Type 0 where
  pos negsuc : ℕ → ℤ

pub data CommodityType : Type 0 where
  number_replicas : CommodityType
  other_commodity : ℕ → CommodityType

pub record Commodity : Type 0 where
  pub commodity_type : CommodityType
  pub capacity : ℤ

-- A nil pointer is `none`.
pub record ScaleItem : Type 0 where
  pub action_type : ActionType
  pub target_se : Option WorkloadController
  pub current_comm : Option Commodity
  pub new_comm : Option Commodity

-- A capacity of the type NUMBER_REPLICAS that is not negative.
unfoldable pub replicas_of : Option Commodity → Option ℕ
replicas_of none = none
replicas_of (some commodity) = elim commodity.commodity_type [
  | other_commodity n ↦ none
  | number_replicas ↦ elim commodity.capacity [ pos n ↦ some n | negsuc n ↦ none ]
]

-- `int32(newReplicas - oldReplicas)`; for a difference beyond an int32, which Go leaves to the
-- implementation, the low bits.
unfoldable pub int32_diff : ℕ → ℕ → ℕ
int32_diff new old = (new + (int32_mod - old % int32_mod)) % int32_mod

-- The pattern of the int32, or `none` with an error.
unfoldable pub get_replica_diff : ScaleItem → Option ℕ
get_replica_diff item = elim item.action_type [
  | provision ↦ some 1
  | suspend ↦ some 4294967295
  | horizontal_scale ↦ elim (replicas_of item.current_comm) [
    | none ↦ none
    | some old ↦ elim (replicas_of item.new_comm) [
      | none ↦ none
      | some new ↦ some (int32_diff new old)
    ]
  ]
  | move ↦ none
  | right_size ↦ none
  | other_action n ↦ none
]

-- What `Execute` returns: nil and an error, an empty output and an error, or an output that says
-- that the action succeeded.
pub data Outcome : Type 0 where
  no_output failed succeeded : Outcome

-- What a k8sControllerUpdater knows of its controller, besides the clients.
pub record Updater : Type 0 where
  pub resource : Resource
  pub name : String
  pub namespace : String
  pub pod_name : String

unfoldable pub new_k8s_controller_updater :
    (kind controller_name pod_name namespace : String) → Option Updater
new_k8s_controller_updater kind controller_name pod_name namespace =
    elim (get_supported_res_using_kind kind) [
      | none ↦ none
      | some res ↦ some (record {
        resource = res;
        name = controller_name;
        namespace = namespace;
        pod_name = pod_name;
      })
    ]

-- `controller_info` is GetPodControllerInfo, which asks the cluster; the rest is what the updater
-- uses: `get` and `put` are the methods `get` and `update` of the parentController of the resource,
-- the namespace and the name.
module _ {Server : Type 0} (controller_info : Server → Pod → Option OwnerInfo)
    (get_pod : Server → String → String → Bool)
    (delete_pod : Server → String → String → Server × Bool)
    (get : Resource → String → String → Server → Server × Option ControllerState)
    (put : Resource → String → String → Server → ControllerState → Server × Attempt) where
  unfoldable pub new_k8s_controller_updater_via_pod : Server → Pod → Option Updater
  new_k8s_controller_updater_via_pod s pod = elim (controller_info s pod) [
    | none ↦ none
    | some owner ↦
        if is_owner_info_empty owner
        then none
        else new_k8s_controller_updater owner.kind owner.name pod.name pod.namespace
  ]

  abbrev pub updater_for_target : Option WorkloadController → Option Updater
  updater_for_target target = elim (get_workload_controller_info target) [
    | none ↦ none
    | some info ↦ new_k8s_controller_updater info.kind info.name "" info.namespace
  ]

  -- A pod serves but for the type HORIZONTAL_SCALE.
  unfoldable pub updater_for : Server → ScaleItem → Option Pod → Option Updater
  updater_for s item none = updater_for_target item.target_se
  updater_for s item (some pod) = elim item.action_type [
    | horizontal_scale ↦ updater_for_target item.target_se
    | provision ↦ new_k8s_controller_updater_via_pod s pod
    | suspend ↦ new_k8s_controller_updater_via_pod s pod
    | move ↦ new_k8s_controller_updater_via_pod s pod
    | right_size ↦ new_k8s_controller_updater_via_pod s pod
    | other_action n ↦ new_k8s_controller_updater_via_pod s pod
  ]

  unfoldable pub outcome : RetryResult → Outcome
  outcome done = succeeded
  outcome skipped = failed
  outcome timed_out = failed
  outcome exhausted = failed

  -- `none` if the fuel of the retries runs out, which it does not.
  unfoldable pub execute :
      (between : ℕ → Server → Server) (clock : ℕ → ℕ) (t0 : ℕ)
      → ScaleItem
      → Option Pod
      → Server
      → Option (Server × Outcome)
  execute between clock t0 item pod s = elim (get_replica_diff item) [
    | none ↦ some (s, no_output)
    | some diff ↦ elim (updater_for s item pod) [
      | none ↦ some (s, failed)
      | some u ↦
          let desired : ControllerSpec = record { replicas_diff = diff; resize_specs = [] } in
          elim (update_with_retry get_pod delete_pod (get u.resource u.namespace u.name)
            (put u.resource u.namespace u.name) u.namespace u.pod_name between clock t0 desired s) [
              | none ↦ none
              | some r ↦ some (r.0, outcome r.2)
            ]
    ]
  ]

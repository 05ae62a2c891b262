-- ===== src/Metrics.antt =====
-- pkg/discovery/metrics: what the monitors measured, and the sink that keeps it.
pub mod Sink
pub mod Points
mod Examples
use Prim.Native.String.{◌++◌ as str_append}
use kubeturbo.Prelude.{
  ℕ, ◌-◌, Bool, true, false, Option, none, some, List, [], ◌∷◌, ◌++◌, String, if◌then◌else◌, ltb,
  length, drop,
}

pub data DiscoveredEntityType : Type 0 where
  cluster_type namespace_type node_type controller_type pod_type : DiscoveredEntityType
  container_type application_type service_type volume_type : DiscoveredEntityType

abbrev pub entity_type_text : DiscoveredEntityType → String
entity_type_text cluster_type = "VMCluster"
entity_type_text namespace_type = "Namespace"
entity_type_text node_type = "Node"
entity_type_text controller_type = "Controller"
entity_type_text pod_type = "Pod"
entity_type_text container_type = "Container"
entity_type_text application_type = "Application"
entity_type_text service_type = "Service"
entity_type_text volume_type = "Volume"

pub data ResourceType : Type 0 where
  cpu memory cpu_request memory_request cpu_limit_quota memory_limit_quota : ResourceType
  cpu_request_quota memory_request_quota cpu_provisioned memory_provisioned : ResourceType
  transaction num_pods v_storage storage_amount vcpu_throttling : ResourceType
  access cluster cpu_frequency owner owner_type owner_uid : ResourceType
  is_injected_sidecar metrics_availability : ResourceType

abbrev pub resource_type_text : ResourceType → String
resource_type_text cpu = "CPU"
resource_type_text memory = "Memory"
resource_type_text cpu_request = "CPURequest"
resource_type_text memory_request = "MemoryRequest"
resource_type_text cpu_limit_quota = "CPULimitQuota"
resource_type_text memory_limit_quota = "MemoryLimitQuota"
resource_type_text cpu_request_quota = "CPURequestQuota"
resource_type_text memory_request_quota = "MemoryRequestQuota"
resource_type_text cpu_provisioned = "CPUProvisioned"
resource_type_text memory_provisioned = "MemoryProvisioned"
resource_type_text transaction = "Transaction"
resource_type_text num_pods = "NumPods"
resource_type_text v_storage = "VStorage"
resource_type_text storage_amount = "StorageAmount"
resource_type_text vcpu_throttling = "VCPUThrottling"
resource_type_text access = "Access"
resource_type_text cluster = "Cluster"
resource_type_text cpu_frequency = "CpuFrequency"
resource_type_text owner = "Owner"
resource_type_text owner_type = "OwnerType"
resource_type_text owner_uid = "OwnerUID"
resource_type_text is_injected_sidecar = "IsInjectedSidecar"
resource_type_text metrics_availability = "MetricsAvailability"

-- The map from quota resources to compute resources, by its entries.
abbrev pub quota_to_compute : ResourceType → Option ResourceType
quota_to_compute cpu_limit_quota = some cpu
quota_to_compute memory_limit_quota = some memory
quota_to_compute cpu_request_quota = some cpu_request
quota_to_compute memory_request_quota = some memory_request
quota_to_compute _ = none

-- Its inverse, as `init` makes it.
abbrev pub compute_to_quota : ResourceType → Option ResourceType
compute_to_quota cpu = some cpu_limit_quota
compute_to_quota memory = some memory_limit_quota
compute_to_quota cpu_request = some cpu_request_quota
compute_to_quota memory_request = some memory_request_quota
compute_to_quota _ = none

abbrev pub is_quota_type : ResourceType → Bool
is_quota_type t = elim (quota_to_compute t) [ none ↦ false | some c ↦ true ]

abbrev pub is_compute_type : ResourceType → Bool
is_compute_type t = elim (compute_to_quota t) [ none ↦ false | some q ↦ true ]

pub data MetricProp : Type 0 where
  capacity used available threshold : MetricProp

abbrev pub metric_prop_text : MetricProp → String
metric_prop_text capacity = "Capacity"
metric_prop_text used = "Used"
metric_prop_text available = "Available"
metric_prop_text threshold = "Threshold"

-- `F` stands for float64. A time is a number of milliseconds.
pub record Point (F : Type 0) : Type 0 where
  pub value : F
  pub timestamp : ℕ

pub record ThrottlingCumulative (F : Type 0) : Type 0 where
  pub throttled : F
  pub total : F
  pub cpu_limit : F
  pub timestamp : ℕ
  pub throttled_time : F
  pub total_usage : F
  pub container_threads : F

-- The dynamic types of a value that the code tells apart; `V` stands for all others.
pub data Value (F V : Type 0) : Type 0 where
  points : List (Point F) → Value F V
  throttling : List (ThrottlingCumulative F) → Value F V
  scalar : V → Value F V

pub record EntityResourceMetric (F V : Type 0) : Type 0 where
  pub metric_uid : String
  pub entity_type : DiscoveredEntityType
  pub entity_id : String
  pub resource_type : ResourceType
  pub metric_prop : MetricProp
  pub value : Value F V

pub record EntityStateMetric (F V : Type 0) : Type 0 where
  pub metric_uid : String
  pub entity_type : DiscoveredEntityType
  pub entity_id : String
  pub resource_type : ResourceType
  pub value : Value F V

-- The types that implement the interface.
pub data Metric (F V : Type 0) : Type 0 where
  resource : EntityResourceMetric F V → Metric F V
  state : EntityStateMetric F V → Metric F V

unfoldable pub generate_entity_resource_metric_uid :
    DiscoveredEntityType → String → ResourceType → MetricProp → String
generate_entity_resource_metric_uid t id r p = str_append (entity_type_text t) (
    str_append "-" (
      str_append id
        (str_append "-" (str_append (resource_type_text r) (str_append "-" (metric_prop_text p))))))

unfoldable pub generate_entity_state_metric_uid :
    DiscoveredEntityType → String → ResourceType → String
generate_entity_state_metric_uid t id r =
    str_append (entity_type_text t)
      (str_append "-" (str_append id (str_append "-" (resource_type_text r))))

-- The latest elements of a slice that is longer than `max`.
unfoldable pub latest : {A : Type 0} → ℕ → List A → List A
latest max xs = if ltb max (length xs) then drop (length xs - max) xs else xs

module _ {F V : Type 0} where
  unfoldable pub new_entity_resource_metric :
      DiscoveredEntityType
      → String
      → ResourceType
      → MetricProp
      → Value F V
      → EntityResourceMetric F V
  unfolding generate_entity_resource_metric_uid
  new_entity_resource_metric t id r p v = record {
    metric_uid = generate_entity_resource_metric_uid t id r p;
    entity_type = t;
    entity_id = id;
    resource_type = r;
    metric_prop = p;
    value = v;
  }

  unfoldable pub new_entity_state_metric :
      DiscoveredEntityType → String → ResourceType → Value F V → EntityStateMetric F V
  unfolding generate_entity_state_metric_uid
  new_entity_state_metric t id r v = record {
    metric_uid = generate_entity_state_metric_uid t id r;
    entity_type = t;
    entity_id = id;
    resource_type = r;
    value = v;
  }

  abbrev pub get_uid : Metric F V → String
  get_uid (resource m) = m.metric_uid
  get_uid (state m) = m.metric_uid

  abbrev pub get_value : Metric F V → Value F V
  get_value (resource m) = m.value
  get_value (state m) = m.value

  -- A failed type assertion panics, `none`.
  unfoldable pub merge_value : ℕ → Value F V → Value F V → Option (Value F V)
  merge_value max (points new) (points old) = some (points (latest max (old ++ new)))
  merge_value max (points new) (throttling old) = none
  merge_value max (points new) (scalar old) = none
  merge_value max (throttling new) (throttling old) = some (throttling (latest max (old ++ new)))
  merge_value max (throttling new) (points old) = none
  merge_value max (throttling new) (scalar old) = none
  merge_value max (scalar new) old = some old

  -- `UpdateValue` of the new metric, with the existing one.
  unfoldable pub update_value : ℕ → Metric F V → Metric F V → Option (Metric F V)
  update_value max (resource m) (resource old) = elim (merge_value max m.value old.value) [
    | none ↦ none
    | some v ↦ some (resource (record m { value = v }))
  ]
  update_value max (resource m) (state old) = some (resource m)
  update_value max (state m) old = some (state m)

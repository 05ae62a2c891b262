-- ===== src/Discovery/Collector.antt =====
-- pkg/discovery/worker/result_collector.go: the results of the tasks, in the order in which they arrive
-- in the channel. The result of a task is TaskResult of pkg/discovery/task/task.go.
pub mod Order
use kubeturbo.Prelude.{ℕ, ◌+◌, Bool, true, false, List, [], ◌∷◌, ◌++◌, String, string_eq}
use kubeturbo.Prelude.Dict.{Dict, insert}
use kubeturbo.Discovery.Namespaces.{NamespaceMetrics}
use kubeturbo.Discovery.ContainerSpecs.{ContainerSpecMetrics}

-- The types of entities, groups, controllers, volume metrics and pods are parameters, and `F` stands
-- for float64. A pod comes with its id in the cluster. `failed` is whether the error is not nil.
pub record TaskResult (Dto Group Controller Volumes Pod F : Type 0) : Type 0 where
  pub failed : Bool
  pub content : List Dto
  pub namespace_metrics : List (NamespaceMetrics F)
  pub entity_groups : List Group
  pub pod_entities : List (String × Pod)
  pub kube_controllers : List Controller
  pub container_spec_metrics : List (ContainerSpecMetrics F)
  pub pod_volume_metrics : List Volumes
  pub sidecar_container_specs : List String
  pub pods_with_volumes : List String
  pub not_ready_nodes : List String
  pub mirror_pod_uids : List String

pub record DiscoveryResult (Dto Group Controller Volumes Pod F : Type 0) : Type 0 where
  pub entity_dtos : List Dto
  pub namespace_metrics : List (NamespaceMetrics F)
  pub entity_groups : List Group
  pub kube_controllers : List Controller
  pub container_spec_metrics : List (ContainerSpecMetrics F)
  pub pod_volume_metrics : List Volumes
  pub pod_entities_map : Dict String Pod
  pub sidecar_container_specs : List String
  pub pods_with_volumes : List String
  pub not_ready_nodes : List String
  pub mirror_pod_uids : List String
  pub success_count : ℕ
  pub error_count : ℕ

module _ {Pod : Type 0} where
  abbrev pub with_pods : Dict String Pod → List (String × Pod) → Dict String Pod
  with_pods pods [] = pods
  with_pods pods ((id, pod) ∷ found) = with_pods (insert id pod pods) found

module _ {Dto Group Controller Volumes Pod F : Type 0} where
  abbrev pub no_result : DiscoveryResult Dto Group Controller Volumes Pod F
  no_result = record {
    entity_dtos = [];
    namespace_metrics = [];
    entity_groups = [];
    kube_controllers = [];
    container_spec_metrics = [];
    pod_volume_metrics = [];
    pod_entities_map = [];
    sidecar_container_specs = [];
    pods_with_volumes = [];
    not_ready_nodes = [];
    mirror_pod_uids = [];
    success_count = 0;
    error_count = 0;
  }

  abbrev pub with_error :
      DiscoveryResult Dto Group Controller Volumes Pod F
      → DiscoveryResult Dto Group Controller Volumes Pod F
  with_error r = record r { error_count = r.error_count + 1 }

  abbrev pub with_success :
      DiscoveryResult Dto Group Controller Volumes Pod F
      → TaskResult Dto Group Controller Volumes Pod F
      → DiscoveryResult Dto Group Controller Volumes Pod F
  with_success r t = record {
    entity_dtos = r.entity_dtos ++ t.content;
    namespace_metrics = r.namespace_metrics ++ t.namespace_metrics;
    entity_groups = r.entity_groups ++ t.entity_groups;
    kube_controllers = r.kube_controllers ++ t.kube_controllers;
    container_spec_metrics = r.container_spec_metrics ++ t.container_spec_metrics;
    pod_volume_metrics = r.pod_volume_metrics ++ t.pod_volume_metrics;
    pod_entities_map = with_pods r.pod_entities_map t.pod_entities;
    sidecar_container_specs = r.sidecar_container_specs ++ t.sidecar_container_specs;
    pods_with_volumes = r.pods_with_volumes ++ t.pods_with_volumes;
    not_ready_nodes = r.not_ready_nodes ++ t.not_ready_nodes;
    mirror_pod_uids = r.mirror_pod_uids ++ t.mirror_pod_uids;
    success_count = r.success_count + 1;
    error_count = r.error_count;
  }

  abbrev pub with_task :
      Bool
      → DiscoveryResult Dto Group Controller Volumes Pod F
      → TaskResult Dto Group Controller Volumes Pod F
      → DiscoveryResult Dto Group Controller Volumes Pod F
  with_task true r t = with_error r
  with_task false r t = with_success r t

  -- The goroutine's loop over as many results as there are tasks.
  unfoldable pub collect_from :
      DiscoveryResult Dto Group Controller Volumes Pod F
      → List (TaskResult Dto Group Controller Volumes Pod F)
      → DiscoveryResult Dto Group Controller Volumes Pod F
  collect_from r [] = r
  collect_from r (t ∷ ts) = collect_from (with_task t.failed r t) ts

  unfoldable pub collect :
      List (TaskResult Dto Group Controller Volumes Pod F)
      → DiscoveryResult Dto Group Controller Volumes Pod F
  unfolding collect_from
  collect ts = collect_from no_result ts

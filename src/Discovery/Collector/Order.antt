-- ===== src/Discovery/Collector/Order.antt =====
-- The order of arrival of results in pkg/discovery/worker/result_collector.go.
use mathlib.Core.List.{Permᴰ}
use mathlib.Core.List.Permᴰ
use kubeturbo.Prelude.{
  ℕ, ◌+◌, ◌≡◌, Bool, true, false, Option, none, some, List, [], ◌∷◌, ◌++◌, String, ◌==◌, string_eq,
  not, if◌then◌else◌,
}
use kubeturbo.Prelude.Dict.{Dict, lookup}
use kubeturbo.Discovery.Collector.{TaskResult, DiscoveryResult}

module _ {A : Type 0} where
  -- How many elements pass.
  abbrev pub count : (A → Bool) → List A → ℕ
  count p [] = 0
  count p (x ∷ xs) = (if p x then 1 else 0) + count p xs

module _ {Pod : Type 0} where
  abbrev or_else : Option Pod → Option Pod → Option Pod
  or_else none b = b
  or_else (some a) b = some a

  abbrev pub has_id : String → String × Pod → Bool
  has_id id p = p.0 == id

  abbrev this : String → String × Pod → Option Pod
  this id p = if has_id id p then some p.1 else none

  -- The last pod of that id.
  abbrev pub pod_of : String → List (String × Pod) → Option Pod
  pod_of id [] = none
  pod_of id (p ∷ ps) = or_else (pod_of id ps) (this id p)

module _ {Dto Group Controller Volumes Pod F : Type 0} where
  -- What a task contributes: nothing if it failed.
  abbrev parts :
      {B : Type 0}
      → (TaskResult Dto Group Controller Volumes Pod F → List B)
      → Bool
      → TaskResult Dto Group Controller Volumes Pod F
      → List B
  parts part true t = []
  parts part false t = part t

  -- What the tasks that did not fail contribute, one after the other.
  abbrev pub gathered :
      {B : Type 0}
      → (TaskResult Dto Group Controller Volumes Pod F → List B)
      → List (TaskResult Dto Group Controller Volumes Pod F)
      → List B
  gathered part [] = []
  gathered part (t ∷ ts) = parts part t.failed t ++ gathered part ts

  -- Each list is a permutation of what the tasks that did not fail found, one after the other, the map
  -- of pods has under each id the pod that they found, and the counters are the numbers of tasks.
  abbrev pub Collects :
      List (TaskResult Dto Group Controller Volumes Pod F)
      → DiscoveryResult Dto Group Controller Volumes Pod F
      → Type 0
  Collects ts r =
      Permᴰ r.entity_dtos (gathered (λ t. t.content) ts)
      × Permᴰ r.namespace_metrics (gathered (λ t. t.namespace_metrics) ts)
      × Permᴰ r.entity_groups (gathered (λ t. t.entity_groups) ts)
      × Permᴰ r.kube_controllers (gathered (λ t. t.kube_controllers) ts)
      × Permᴰ r.container_spec_metrics (gathered (λ t. t.container_spec_metrics) ts)
      × Permᴰ r.pod_volume_metrics (gathered (λ t. t.pod_volume_metrics) ts)
      × Permᴰ r.sidecar_container_specs (gathered (λ t. t.sidecar_container_specs) ts)
      × Permᴰ r.pods_with_volumes (gathered (λ t. t.pods_with_volumes) ts)
      × Permᴰ r.not_ready_nodes (gathered (λ t. t.not_ready_nodes) ts)
      × Permᴰ r.mirror_pod_uids (gathered (λ t. t.mirror_pod_uids) ts)
      × ((id : String)
          → lookup id r.pod_entities_map ≡ pod_of id (gathered (λ t. t.pod_entities) ts))
      × (r.success_count ≡ count (λ t. not t.failed) ts)
      × (r.error_count ≡ count (λ t. t.failed) ts)

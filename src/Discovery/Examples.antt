-- ===== src/Discovery/Examples.antt =====
-- Results of three workers that pkg/discovery/worker brings together, numbers for float64.
use kubeturbo.Prelude.{
  ℕ, true, false, ◌+◌, ◌%◌, ◌^◌, ◌≡◌, refl, some, List, [], ◌∷◌, String, string_eq, map, arith,
}
use kubeturbo.Prelude.Dict.{Dict, lookup}
use kubeturbo.Metrics.{Point}
use kubeturbo.Metrics.Points.{points_of, or_nil}
use kubeturbo.Metrics.Points.Longest.{longest, of_length, add_all}
use kubeturbo.Discovery.Collector.{TaskResult}
use kubeturbo.Discovery.Namespaces.{NamespaceMetrics, combine_namespace_metrics}
use kubeturbo.Discovery.Namespaces.Totals.{combine_namespace_metrics-totals}
use kubeturbo.Discovery.ContainerSpecs.{
  points, ContainerMetrics, ContainerSpecMetrics, create_container_spec_metrics_map,
}
use kubeturbo.Discovery.ContainerSpecs.Replicas.{create_container_spec_metrics_map-replicas}

abbrev at : ℕ → Point ℕ
at n = record { value = n; timestamp = n }

abbrev report : String → ℕ → List (Point ℕ) → NamespaceMetrics ℕ
report namespace quota ps = record {
  namespace = namespace;
  quota_used = ("CPULimitQuota", quota) ∷ [];
  used = ("CPU", ps) ∷ [];
}

abbrev first : NamespaceMetrics ℕ
first = report "shop" 1 (at 1 ∷ at 2 ∷ [])

abbrev rest : List (NamespaceMetrics ℕ)
rest = report "shop" 5 (at 7 ∷ []) ∷ report "shop" 2 (at 10 ∷ at 20 ∷ []) ∷ []

abbrev reports : List (NamespaceMetrics ℕ)
reports = first ∷ report "bank" 9 [] ∷ rest

combine_namespace_metrics-totals_example :
    (let slices =
        points_of ◌+◌ "CPU" first.used ∷ map (points_of ◌+◌ "CPU") (map (λ n. n.used) rest) in
      (m : NamespaceMetrics ℕ) × (lookup "shop" (combine_namespace_metrics ◌+◌ 0 reports) ≡ some m)
      × (lookup "CPULimitQuota" m.quota_used ≡ some 8)
      × (points_of ◌+◌ "CPU" m.used ≡ add_all ◌+◌ (of_length 2 slices)))
unfolding lookup or_nil longest
combine_namespace_metrics-totals_example =
    combine_namespace_metrics-totals ◌+◌ 0 reports "shop" "CPULimitQuota" "CPU" first rest refl
      ((refl, tt), ((refl, tt), tt)) ((refl, tt), ((refl, tt), tt))

abbrev replica : String → Dict String (ContainerMetrics ℕ) → ContainerSpecMetrics ℕ
replica id metrics = record {
  namespace = "shop";
  controller_uid = "u";
  container_spec_name = "web";
  container_spec_id = id;
  container_replicas = 1;
  container_metrics = metrics;
}

abbrev cpu : ℕ → List (Point ℕ) → ContainerMetrics ℕ
cpu capacity ps = record { capacity = capacity ∷ []; used = points ps }

abbrev first_replica : ContainerSpecMetrics ℕ
first_replica = replica "u/web" (("CPU", cpu 10 (at 1 ∷ [])) ∷ [])

abbrev replicas : List (ContainerSpecMetrics ℕ)
replicas = replica "u/web" (("CPU", cpu 20 (at 2 ∷ [])) ∷ []) ∷ replica "u/web" [] ∷ []

create_container_spec_metrics_map-replicas_example :
    (s : ContainerSpecMetrics ℕ) × (n : ContainerMetrics ℕ) × (lookup "u/web"
        (create_container_spec_metrics_map (first_replica ∷ replicas))
      ≡ some s)
    × (s.container_replicas ≡ 3 % 2 ^ 32)
    × (lookup "CPU" s.container_metrics ≡ some n)
    × (n.capacity ≡ 10 ∷ 20 ∷ [])
    × (n.used ≡ points (at 1 ∷ at 2 ∷ []))
unfolding lookup
create_container_spec_metrics_map-replicas_example =
    create_container_spec_metrics_map-replicas (first_replica ∷ replicas) "u/web" "CPU"
      first_replica replicas (cpu 10 (at 1 ∷ [])) (at 1 ∷ []) refl (omega arith) refl refl

-- The numbers stand for entities and the like.
abbrev task : ℕ → TaskResult ℕ ℕ ℕ ℕ ℕ ℕ
task n = record {
  failed = false;
  content = n ∷ [];
  namespace_metrics = [];
  entity_groups = [];
  pod_entities = ("pod", n) ∷ [];
  kube_controllers = n ∷ [];
  container_spec_metrics = [];
  pod_volume_metrics = [];
  sidecar_container_specs = [];
  pods_with_volumes = [];
  not_ready_nodes = [];
  mirror_pod_uids = [];
}

abbrev failed_task : TaskResult ℕ ℕ ℕ ℕ ℕ ℕ
failed_task = record (task 0) { failed = true }

abbrev in_order : List (TaskResult ℕ ℕ ℕ ℕ ℕ ℕ)
in_order = task 1 ∷ failed_task ∷ record (task 2) { pod_entities = [] } ∷ []

abbrev late : List (TaskResult ℕ ℕ ℕ ℕ ℕ ℕ)
late = failed_task ∷ task 1 ∷ record (task 2) { pod_entities = [] } ∷ []

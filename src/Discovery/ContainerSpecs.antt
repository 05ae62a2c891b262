-- ===== src/Discovery/ContainerSpecs.antt =====
-- ContainerSpecMetrics of pkg/discovery/repository/entity_metrics.go, and how
-- pkg/discovery/worker/container_spec_discovery_worker.go brings those of the replicas together.
pub mod Replicas
use kubeturbo.Prelude.{ℕ, ◌+◌, ◌%◌, ◌^◌, Option, none, some, List, [], ◌∷◌, ◌++◌, String, string_eq}
use kubeturbo.Prelude.Dict.{Dict, lookup}
use kubeturbo.Metrics.{Point, ThrottlingCumulative}
use kubeturbo.Discovery.{merge_by}

-- The dynamic types that the code tells apart; `nothing` is nil.
pub data Used (F : Type 0) : Type 0 where
  points : List (Point F) → Used F
  throttling : List (List (ThrottlingCumulative F)) → Used F
  nothing : Used F

pub record ContainerMetrics (F : Type 0) : Type 0 where
  pub capacity : List F
  pub used : Used F

-- The maps are by the texts of resource types. `container_replicas` is an int32, as its bit pattern.
pub record ContainerSpecMetrics (F : Type 0) : Type 0 where
  pub namespace : String
  pub controller_uid : String
  pub container_spec_name : String
  pub container_spec_id : String
  pub container_replicas : ℕ
  pub container_metrics : Dict String (ContainerMetrics F)

module _ {F : Type 0} where
  abbrev pub new_container_spec_metrics : String → String → String → String → ContainerSpecMetrics F
  new_container_spec_metrics namespace controller_uid name id = record {
    namespace = namespace;
    controller_uid = controller_uid;
    container_spec_name = name;
    container_spec_id = id;
    container_replicas = 1;
    container_metrics = [];
  }

  unfoldable pub append_metrics_by_type : Used F → Used F → Used F
  append_metrics_by_type (points ps) (points qs) = points (ps ++ qs)
  append_metrics_by_type (points ps) (throttling us) = points ps
  append_metrics_by_type (points ps) nothing = points ps
  append_metrics_by_type (throttling ts) (throttling us) = throttling (ts ++ us)
  append_metrics_by_type (throttling ts) (points qs) = throttling ts
  append_metrics_by_type (throttling ts) nothing = throttling ts
  append_metrics_by_type nothing elements = nothing

  -- A resource that the second one does not have is only logged.
  unfoldable pub append_metrics :
      ContainerMetrics F → Option (ContainerMetrics F) → ContainerMetrics F
  unfolding append_metrics_by_type
  append_metrics existing none = existing
  append_metrics existing (some m) = record {
    capacity = existing.capacity ++ m.capacity;
    used = append_metrics_by_type existing.used m.used;
  }

  -- The loop over the metrics that are there.
  unfoldable pub merge_metrics :
      Dict String (ContainerMetrics F)
      → Dict String (ContainerMetrics F)
      → Dict String (ContainerMetrics F)
  unfolding append_metrics
  merge_metrics [] others = []
  merge_metrics ((r, m) ∷ ms) others =
      (r, append_metrics m (lookup r others)) ∷ merge_metrics ms others

  abbrev pub merge_spec : ContainerSpecMetrics F → ContainerSpecMetrics F → ContainerSpecMetrics F
  merge_spec existing s = record existing {
    container_replicas = (existing.container_replicas + 1) % 2 ^ 32;
    container_metrics = merge_metrics existing.container_metrics s.container_metrics;
  }

  unfoldable pub create_container_spec_metrics_map :
      List (ContainerSpecMetrics F) → Dict String (ContainerSpecMetrics F)
  unfolding merge_by merge_metrics
  create_container_spec_metrics_map specs = merge_by (λ s. s.container_spec_id) merge_spec [] specs

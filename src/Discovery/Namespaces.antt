-- ===== src/Discovery/Namespaces.antt =====
-- NamespaceMetrics of pkg/discovery/repository/entity_metrics.go, and how
-- pkg/discovery/worker/namespace_discovery_worker.go brings those of several workers together.
pub mod Totals
use kubeturbo.Prelude.{Option, none, some, List, [], ◌∷◌, String, string_eq}
use kubeturbo.Prelude.Dict.{Dict, lookup, insert}
use kubeturbo.Metrics.{Point}
use kubeturbo.Metrics.Points.{accumulate_multi_points}
use kubeturbo.Discovery.{merge_by}

-- The maps are by the texts of resource types; a nil map reads as an empty one.
pub record NamespaceMetrics (F : Type 0) : Type 0 where
  pub namespace : String
  pub quota_used : Dict String F
  pub used : Dict String (List (Point F))

-- The sum of float64 and its zero are parameters.
module _ {F : Type 0} (plus : F → F → F) (zero_value : F) where
  abbrev pub new_namespace_metrics : String → NamespaceMetrics F
  new_namespace_metrics namespace = record { namespace = namespace; quota_used = []; used = [] }

  abbrev pub or_zero : Option F → F
  or_zero none = zero_value
  or_zero (some v) = v

  -- The loop over the partial values.
  unfoldable pub add_quota_used : Dict String F → Dict String F → Dict String F
  add_quota_used used [] = used
  add_quota_used used ((r, v) ∷ partial) =
      add_quota_used (insert r (plus (or_zero (lookup r used)) v) used) partial

  abbrev pub aggregate_quota_used : NamespaceMetrics F → Dict String F → NamespaceMetrics F
  aggregate_quota_used m partial = record m { quota_used = add_quota_used m.quota_used partial }

  abbrev pub aggregate_used : NamespaceMetrics F → Dict String (List (Point F)) → NamespaceMetrics F
  aggregate_used m partial = record m { used = accumulate_multi_points plus m.used partial }

  abbrev pub aggregate : NamespaceMetrics F → NamespaceMetrics F → NamespaceMetrics F
  aggregate existing m = aggregate_used (aggregate_quota_used existing m.quota_used) m.used

  unfoldable pub combine_namespace_metrics :
      List (NamespaceMetrics F) → Dict String (NamespaceMetrics F)
  unfolding merge_by
  combine_namespace_metrics ms = merge_by (λ m. m.namespace) aggregate [] ms

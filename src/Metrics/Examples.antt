-- ===== src/Metrics/Examples.antt =====
-- The sink of pkg/discovery/metrics at concrete metrics, numbers for float64.
use kubeturbo.Prelude.{
  ℕ, ◌≤◌, ◌≡◌, refl, Bool, none, some, List, [], ◌∷◌, String, string_eq, arith, length,
}
use kubeturbo.Prelude.Dict.{lookup, insert, IsMap, All-lookup}
use kubeturbo.Metrics.{
  Metric, resource, points, Point, pod_type, cpu, used, generate_entity_resource_metric_uid,
  get_uid, get_value, merge_value, update_value, latest,
}
use kubeturbo.Metrics.Sink.{
  EntityMetricSink, add_all, add_new_metric_entries, entries_of, update_metric_entry, all_keys,
  merge_keys, merge_sink, get_metric,
}
use kubeturbo.Metrics.Sink.Merge.{Keyed}
use kubeturbo.Metrics.Sink.Joined.{joined, let_through, merge_sink-lookup}
use kubeturbo.Metrics.Sink.Bounds.{IsBounded, IsBoundedSink, merge_sink-IsBounded}

abbrev at : ℕ → Point ℕ
at n = record { value = n; timestamp = n }

abbrev cpu_of : List (Point ℕ) → Metric ℕ Bool
cpu_of ps = resource (record {
  metric_uid = "Pod-web-CPU-Used";
  entity_type = pod_type;
  entity_id = "web";
  resource_type = cpu;
  metric_prop = used;
  value = points ps;
})

abbrev holding : List (Point ℕ) → EntityMetricSink ℕ Bool
holding ps = record { items = ("Pod-web-CPU-Used", cpu_of ps) ∷ []; max_metric_points_size = 2 }

cpu_of-uid : generate_entity_resource_metric_uid pod_type "web" cpu used ≡ "Pod-web-CPU-Used"
unfolding generate_entity_resource_metric_uid
cpu_of-uid = refl

holding-Keyed : (ps : List (Point ℕ)) → Keyed (holding ps).items
holding-Keyed ps k m e = All-lookup (λ j n. get_uid n ≡ j) k m (holding ps).items (refl, tt) e

holding-IsBoundedSink : (ps : List (Point ℕ)) → length ps ≤ 2 → IsBoundedSink (holding ps) 2
holding-IsBoundedSink ps b k m e =
    All-lookup (λ j n. IsBounded 2 (get_value n)) k m (holding ps).items (b, tt) e

holding-IsMap : (ps : List (Point ℕ)) → IsMap (holding ps).items
unfolding lookup
holding-IsMap ps = (refl, tt)

holding-merge :
    merge_sink (holding (at 1 ∷ at 2 ∷ [])) (holding (at 3 ∷ [])) none
    ≡ some (holding (at 2 ∷ at 3 ∷ []))
unfolding merge_sink merge_keys all_keys update_metric_entry add_new_metric_entries entries_of
    add_all lookup insert merge_value update_value latest
holding-merge = refl

merge_sink-lookup_example :
    ((holding (at 2 ∷ at 3 ∷ [])).max_metric_points_size ≡ 2)
    × ((k : String)
        → get_metric (holding (at 2 ∷ at 3 ∷ [])) k
          ≡ joined 2
              (get_metric (holding (at 1 ∷ at 2 ∷ [])) k)
              (let_through none (get_metric (holding (at 3 ∷ [])) k)))
merge_sink-lookup_example =
    merge_sink-lookup (holding (at 1 ∷ at 2 ∷ [])) (holding (at 3 ∷ []))
      (holding (at 2 ∷ at 3 ∷ [])) none (holding-IsMap (at 3 ∷ [])) (holding-Keyed (at 3 ∷ []))
      holding-merge

merge_sink-IsBounded_example : IsBoundedSink (holding (at 2 ∷ at 3 ∷ [])) 2
merge_sink-IsBounded_example =
    merge_sink-IsBounded (holding (at 1 ∷ at 2 ∷ [])) (holding (at 3 ∷ []))
      (holding (at 2 ∷ at 3 ∷ [])) none (holding-IsMap (at 3 ∷ [])) (holding-Keyed (at 3 ∷ []))
      (holding-IsBoundedSink (at 1 ∷ at 2 ∷ []) (omega arith))
      (holding-IsBoundedSink (at 3 ∷ []) (omega arith)) holding-merge

-- ===== src/Metrics/Sink.antt =====
-- pkg/discovery/metrics/metric_sink.go, on the store of pkg/turbostore/turbo_store.go.
pub mod Updates
pub mod Merge
pub mod Joined
pub mod Bounds
use kubeturbo.Prelude.{
  ℕ, Bool, true, false, Option, none, some, List, [], ◌∷◌, String, string_eq, if◌then◌else◌,
}
use kubeturbo.Prelude.Dict.{Dict, lookup, insert, delete}
use kubeturbo.Metrics.{Metric, get_uid, update_value}

-- pkg/turbostore/turbo_store.go: each operation runs under the lock of the store.
module _ {A : Type 0} where
  abbrev pub add : Dict String A → String → A → Dict String A
  add items key obj = insert key obj items

  unfoldable pub add_all : Dict String A → Dict String A → Dict String A
  add_all items [] = items
  add_all items ((key, obj) ∷ entries) = add_all (insert key obj items) entries

  abbrev pub remove : Dict String A → String → Dict String A
  remove items key = delete key items

  unfoldable pub all_keys : Dict String A → List String
  all_keys [] = []
  all_keys ((key, obj) ∷ items) = key ∷ all_keys items

pub record EntityMetricSink (F V : Type 0) : Type 0 where
  pub items : Dict String (Metric F V)
  pub max_metric_points_size : ℕ

module _ {F V : Type 0} where
  abbrev pub new_entity_metric_sink : EntityMetricSink F V
  new_entity_metric_sink = record { items = []; max_metric_points_size = 0 }

  abbrev pub with_max_metric_points_size : EntityMetricSink F V → ℕ → EntityMetricSink F V
  with_max_metric_points_size s max = record s { max_metric_points_size = max }

  -- The map from UIDs that AddNewMetricEntries makes.
  unfoldable pub entries_of :
      Dict String (Metric F V) → List (Metric F V) → Dict String (Metric F V)
  entries_of entries [] = entries
  entries_of entries (m ∷ ms) = entries_of (insert (get_uid m) m entries) ms

  unfoldable pub add_new_metric_entries :
      EntityMetricSink F V → List (Metric F V) → EntityMetricSink F V
  unfolding entries_of add_all
  add_new_metric_entries s ms = record s { items = add_all s.items (entries_of [] ms) }

  -- No sink after a panic.
  unfoldable pub update_metric_entry :
      EntityMetricSink F V → Metric F V → Option (EntityMetricSink F V)
  unfolding add_new_metric_entries
  update_metric_entry s metric = elim (lookup (get_uid metric) s.items) [
    | none ↦ some (add_new_metric_entries s (metric ∷ []))
    | some m ↦ elim (update_value s.max_metric_points_size metric m) [
      | none ↦ none
      | some metric' ↦ some (add_new_metric_entries s (metric' ∷ []))
    ]
  ]

  abbrev pub get_metric : EntityMetricSink F V → String → Option (Metric F V)
  get_metric s uid = lookup uid s.items

  -- No filter is `none`.
  abbrev pub passes : Option (Metric F V → Bool) → Metric F V → Bool
  passes none m = true
  passes (some filter) m = filter m

  -- The loop over the keys of the other sink; its stored values are metrics.
  unfoldable pub merge_keys :
      EntityMetricSink F V
      → Dict String (Metric F V)
      → Option (Metric F V → Bool)
      → List String
      → Option (EntityMetricSink F V)
  merge_keys s other filter [] = some s
  merge_keys s other filter (key ∷ keys) = elim (lookup key other) [
    | none ↦ merge_keys s other filter keys
    | some m ↦ elim (passes filter m) [
      | false ↦ merge_keys s other filter keys
      | true ↦ elim (update_metric_entry s m) [
        | none ↦ none
        | some s' ↦ merge_keys s' other filter keys
      ]
    ]
  ]

  unfoldable pub merge_sink :
      EntityMetricSink F V
      → EntityMetricSink F V
      → Option (Metric F V → Bool)
      → Option (EntityMetricSink F V)
  unfolding all_keys
  merge_sink s another filter = merge_keys s another.items filter (all_keys another.items)

  abbrev pub clear_cache : EntityMetricSink F V → EntityMetricSink F V
  clear_cache s = record s { items = [] }

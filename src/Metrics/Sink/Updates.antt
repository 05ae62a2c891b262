-- ===== src/Metrics/Sink/Updates.antt =====
-- What an update of one metric does to the sink of pkg/discovery/metrics/metric_sink.go.
use kubeturbo.Prelude.{
  ℕ, ◌≡◌, refl, subst, Option, none, some, String, ◌==◌, string_eq, if◌then◌else◌, arith,
  Option-cases, inl, inr,
}
use kubeturbo.Prelude.Dict.{lookup, insert, lookup-insert}
use kubeturbo.Metrics.{Metric, resource, state, get_uid, merge_value, update_value}
use kubeturbo.Metrics.Sink.{
  EntityMetricSink, add_all, entries_of, add_new_metric_entries, update_metric_entry,
}

module _ {F V : Type 0} where
  get_uid-update_value :
      (max : ℕ) (m old m' : Metric F V) → update_value max m old ≡ some m' → get_uid m' ≡ get_uid m
  unfolding update_value
  get_uid-update_value max (resource m) (resource old) m' e =
      elim (Option-cases (merge_value max m.value old.value)) [
        | inl panics ↦ ground (arith, panics)
        | inr (v, merges) ↦ ground (arith, merges)
      ]
  get_uid-update_value max (resource m) (state old) m' e = ground (arith, e)
  get_uid-update_value max (state m) old m' e = ground (arith, e)

  -- What the sink has of a metric after an update, if the update does not panic.
  abbrev pub merged : ℕ → Option (Metric F V) → Option (Metric F V) → Option (Metric F V)
  merged max old none = old
  merged max none (some m) = some m
  merged max (some old) (some m) = update_value max m old

  abbrev pub Updated : EntityMetricSink F V → EntityMetricSink F V → Metric F V → String → Type 0
  Updated s s' m k =
      (s'.max_metric_points_size ≡ s.max_metric_points_size)
      × (lookup k s'.items ≡ (
          if get_uid m == k
          then merged s.max_metric_points_size (lookup k s.items) (some m)
          else lookup k s.items))

  Updated-from :
      (s s' : EntityMetricSink F V) (m : Metric F V) (k : String) (m' : Metric F V)
      → record s { items = insert (get_uid m') m' s.items } ≡ s'
      → lookup k (insert (get_uid m') m' s.items) ≡ (
          if get_uid m == k
          then merged s.max_metric_points_size (lookup k s.items) (some m)
          else lookup k s.items)
      → Updated s s' m k
  Updated-from s s' m k m' same read = subst (λ t. Updated s t m k) same (refl, read)

  pub lookup-update_metric_entry :
      (s s' : EntityMetricSink F V) (m : Metric F V) (k : String)
      → update_metric_entry s m ≡ some s'
      → Updated s s' m k
  unfolding update_metric_entry add_new_metric_entries entries_of add_all insert
  lookup-update_metric_entry s s' m k e =
      let max = s.max_metric_points_size in
      elim (Option-cases (lookup (get_uid m) s.items)) [
        | inl new ↦
            let same : record s { items = insert (get_uid m) m s.items } ≡ s' =
              ground (arith, new) in
            Updated-from s s' m k m same (
              ground
                (arith, lookup-insert (get_uid m) k m s.items, string_eq.beq_iff (get_uid m) k))
        | inr (old, found) ↦ elim (Option-cases (update_value max m old)) [
          | inl panics ↦ ground (arith, found, panics)
          | inr (m', updates) ↦
              let uid = get_uid-update_value max m old m' updates in
              let same : record s { items = insert (get_uid m') m' s.items } ≡ s' =
                ground (arith, found, updates) in
              Updated-from s s' m k m' same (
                ground
                  (arith, lookup-insert (get_uid m') k m' s.items, string_eq.beq_iff (get_uid m) k))
        ]
      ]

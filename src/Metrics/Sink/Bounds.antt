-- ===== src/Metrics/Sink/Bounds.antt =====
-- The bound on the points of a metric in pkg/discovery/metrics/metric_sink.go.
use kubeturbo.Prelude.{
  ℕ, ◌-◌, ◌≤◌, ◌≡◌, refl, ◌∙◌, sym, subst, Bool, Option, none, some, List, ◌++◌, String, string_eq,
  length, length-drop, arith, Option-cases, Bool-cases, inl, inr,
}
use kubeturbo.Prelude.Dict.{IsMap}
use kubeturbo.Metrics.{
  Metric, resource, state, Value, points, throttling, scalar, get_value, latest, merge_value,
  update_value,
}
use kubeturbo.Metrics.Sink.{EntityMetricSink, passes, merge_sink, get_metric}
use kubeturbo.Metrics.Sink.Updates.{merged}
use kubeturbo.Metrics.Sink.Merge.{Keyed, filtered, merge_sink-merged}

module _ {A : Type 0} where
  length-latest : (max : ℕ) (xs : List A) → length (latest max xs) ≤ max
  unfolding latest
  length-latest max xs = ground (arith, length-drop (length xs - max) xs)

module _ {F V : Type 0} where
  abbrev pub IsBounded : ℕ → Value F V → Type 0
  IsBounded max (points ps) = length ps ≤ max
  IsBounded max (throttling ps) = length ps ≤ max
  IsBounded max (scalar v) = Unit {0}

  pub merge_value-IsBounded :
      (max : ℕ) (new old v : Value F V)
      → IsBounded max old
      → merge_value max new old ≡ some v
      → IsBounded max v
  unfolding merge_value
  merge_value-IsBounded max (points new) (points old) v b e =
      let same : points (latest max (old ++ new)) ≡ v = ground (arith, e) in
      subst (λ w. IsBounded max w) same (length-latest max (old ++ new))
  merge_value-IsBounded max (points new) (throttling old) v b e = ground (arith, e)
  merge_value-IsBounded max (points new) (scalar old) v b e = ground (arith, e)
  merge_value-IsBounded max (throttling new) (throttling old) v b e =
      let same : throttling (latest max (old ++ new)) ≡ v = ground (arith, e) in
      subst (λ w. IsBounded max w) same (length-latest max (old ++ new))
  merge_value-IsBounded max (throttling new) (points old) v b e = ground (arith, e)
  merge_value-IsBounded max (throttling new) (scalar old) v b e = ground (arith, e)
  merge_value-IsBounded max (scalar new) old v b e =
      let same : old ≡ v = ground (arith, e) in subst (λ w. IsBounded max w) same b

  pub update_value-IsBounded :
      (max : ℕ) (m old m' : Metric F V)
      → IsBounded max (get_value old)
      → IsBounded max (get_value m)
      → update_value max m old ≡ some m'
      → IsBounded max (get_value m')
  unfolding update_value
  update_value-IsBounded max (resource m) (resource old) m' b c e =
      elim (Option-cases (merge_value max m.value old.value)) [
        | inl panics ↦ absurd (ground (arith, panics))
        | inr (v, merges) ↦
            let same : resource (record m { value = v }) ≡ m' = ground (arith, merges) in
            subst (λ t. IsBounded max (get_value t)) same
              (merge_value-IsBounded max m.value old.value v b merges)
      ]
  update_value-IsBounded max (resource m) (state old) m' b c e =
      let same : resource m ≡ m' = ground (arith, e) in
      subst (λ t. IsBounded max (get_value t)) same c
  update_value-IsBounded max (state m) old m' b c e =
      let same : state m ≡ m' = ground (arith, e) in subst (λ t. IsBounded max (get_value t)) same c

  abbrev pub IsBoundedSink : EntityMetricSink F V → ℕ → Type 0
  IsBoundedSink s max =
      (k : String) (m : Metric F V) → get_metric s k ≡ some m → IsBounded max (get_value m)

  merged-IsBounded :
      (max : ℕ) (old new : Option (Metric F V)) (m : Metric F V)
      → ((o : Metric F V) → old ≡ some o → IsBounded max (get_value o))
      → ((n : Metric F V) → new ≡ some n → IsBounded max (get_value n))
      → merged max old new ≡ some m
      → IsBounded max (get_value m)
  merged-IsBounded max old none m b c e = b m e
  merged-IsBounded max none (some n) m b c e = c m e
  merged-IsBounded max (some o) (some n) m b c e =
      update_value-IsBounded max n o m (b o refl) (c n refl) e

  filtered-some :
      (filter : Option (Metric F V → Bool)) (o : Option (Metric F V)) (m : Metric F V)
      → filtered filter o ≡ some m
      → o ≡ some m
  filtered-some filter none m e = e
  filtered-some filter (some n) m e = elim (Bool-cases (passes filter n)) [
    | inl pass ↦ ground (arith, pass)
    | inr stops ↦ absurd (ground (arith, stops))
  ]

  -- Where no metric of the two sinks has more points than the bound of the sink that is merged into,
  -- none has more after a merge that does not panic. The other sink has each UID once, under the
  -- metric with it.
  pub merge_sink-IsBounded :
      (s another s' : EntityMetricSink F V) (filter : Option (Metric F V → Bool))
      → IsMap another.items
      → Keyed another.items
      → IsBoundedSink s s.max_metric_points_size
      → IsBoundedSink another s.max_metric_points_size
      → merge_sink s another filter ≡ some s'
      → IsBoundedSink s' s'.max_metric_points_size
  merge_sink-IsBounded s another s' filter is_map keyed b c e =
      let (max, reads) = merge_sink-merged s another s' filter is_map keyed e in
      λ k m found.
        subst (λ n. IsBounded n (get_value m)) (sym max)
          (merged-IsBounded s.max_metric_points_size (get_metric s k)
            (filtered filter (get_metric another k)) m (b k)
            (λ n through. c k n (filtered-some filter (get_metric another k) n through))
            (sym (reads k) ∙ found))

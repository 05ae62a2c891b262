-- ===== src/Metrics/Sink/Joined.antt =====
-- A merge of sinks in pkg/discovery/metrics/metric_sink.go, by what each metric is afterwards.
use kubeturbo.Prelude.{
  ℕ, ◌-◌, ◌++◌, ltb, drop, length, ◌≡◌, refl, ◌∙◌, ap, Bool, Option, none, some, List, String,
  string_eq, if◌then◌else◌, arith, Bool-cases, inl, inr,
}
use kubeturbo.Prelude.Dict.{IsMap}
use kubeturbo.Metrics.{
  Metric, resource, state, Value, points, throttling, scalar, latest, merge_value, update_value,
}
use kubeturbo.Metrics.Sink.{EntityMetricSink, merge_sink, get_metric}
use kubeturbo.Metrics.Sink.Updates.{merged}
use kubeturbo.Metrics.Sink.Merge.{Keyed, filtered, merge_sink-merged}

-- The last `max` elements.
abbrev pub kept : {A : Type 0} → ℕ → List A → List A
kept max xs = drop (length xs - max) xs

latest-kept : {A : Type 0} (max : ℕ) (xs : List A) → latest max xs ≡ kept max xs
unfolding latest
latest-kept max xs = elim (Bool-cases (ltb max (length xs))) [
  | inl longer ↦ rw longer refl
  | inr fits ↦
      let nothing : 0 ≡ length xs - max = ground (arith, fits) in
      rw fits (ap (λ n. drop n xs) nothing)
]

module _ {F V : Type 0} where
  -- A value with a new one added to it; points and throttling do not mix.
  abbrev pub combined : ℕ → (old new : Value F V) → Option (Value F V)
  combined max (points old) (points new) = some (points (kept max (old ++ new)))
  combined max (throttling old) (throttling new) = some (throttling (kept max (old ++ new)))
  combined max old (scalar new) = some old
  combined max (throttling old) (points new) = none
  combined max (scalar old) (points new) = none
  combined max (points old) (throttling new) = none
  combined max (scalar old) (throttling new) = none

  -- The metric of the sink with that of the other one.
  abbrev pub joined : ℕ → (old new : Option (Metric F V)) → Option (Metric F V)
  joined max old none = old
  joined max none (some m) = some m
  joined max (some (resource old)) (some (resource m)) = elim (combined max old.value m.value) [
    | none ↦ none
    | some v ↦ some (resource (record m { value = v }))
  ]
  joined max (some (state old)) (some (resource m)) = some (resource m)
  joined max (some old) (some (state m)) = some (state m)

  -- The metric if the filter, where there is one, is true of it.
  abbrev pub let_through : Option (Metric F V → Bool) → Option (Metric F V) → Option (Metric F V)
  let_through none m = m
  let_through (some filter) none = none
  let_through (some filter) (some m) = if filter m then some m else none

  filtered-let_through :
      (filter : Option (Metric F V → Bool)) (m : Option (Metric F V))
      → filtered filter m ≡ let_through filter m
  filtered-let_through none none = refl
  filtered-let_through none (some m) = refl
  filtered-let_through (some filter) none = refl
  filtered-let_through (some filter) (some m) = refl

  merge_value-combined :
      (max : ℕ) (new old : Value F V) → merge_value max new old ≡ combined max old new
  unfolding merge_value
  merge_value-combined max (points new) (points old) =
      ap (λ ps. some (points ps)) (latest-kept max (old ++ new))
  merge_value-combined max (points new) (throttling old) = refl
  merge_value-combined max (points new) (scalar old) = refl
  merge_value-combined max (throttling new) (throttling old) =
      ap (λ ps. some (throttling ps)) (latest-kept max (old ++ new))
  merge_value-combined max (throttling new) (points old) = refl
  merge_value-combined max (throttling new) (scalar old) = refl
  merge_value-combined max (scalar new) (points old) = refl
  merge_value-combined max (scalar new) (throttling old) = refl
  merge_value-combined max (scalar new) (scalar old) = refl

  merged-joined :
      (max : ℕ) (old new : Option (Metric F V)) → merged max old new ≡ joined max old new
  unfolding update_value
  merged-joined max none none = refl
  merged-joined max (some old) none = refl
  merged-joined max none (some m) = refl
  merged-joined max (some (resource old)) (some (resource m)) =
      ap
        (λ o. elim o as (λ x. Option (Metric F V)) [
          | none ↦ none
          | some v ↦ some (resource (record m { value = v }))
        ])
        (merge_value-combined max m.value old.value)
  merged-joined max (some (state old)) (some (resource m)) = refl
  merged-joined max (some (resource old)) (some (state m)) = refl
  merged-joined max (some (state old)) (some (state m)) = refl

  -- A merge that does not panic keeps the bound on points. Under each key it leaves what the sink has
  -- there, with what the other sink has there and the filter, if any, lets through: points and
  -- throttling values are appended to those of the sink, of which the last ones are kept up to the
  -- bound, any other value of the sink stays as it is, a state is replaced, and a metric that the
  -- sink does not have is added. The other sink has each UID once, under the metric with it.
  pub merge_sink-lookup :
      (s another s' : EntityMetricSink F V) (filter : Option (Metric F V → Bool))
      → IsMap another.items
      → Keyed another.items
      → merge_sink s another filter ≡ some s'
      → (s'.max_metric_points_size ≡ s.max_metric_points_size)
        × ((k : String)
            → get_metric s' k
              ≡ joined s.max_metric_points_size
                  (get_metric s k)
                  (let_through filter (get_metric another k)))
  merge_sink-lookup s another s' filter m keyed e =
      let (size, reads) = merge_sink-merged s another s' filter m keyed e in
      let max = s.max_metric_points_size in
      (
        size,
        λ k.
            reads k
            ∙ ap (merged max (get_metric s k)) (filtered-let_through filter (get_metric another k))
            ∙ merged-joined max (get_metric s k) (let_through filter (get_metric another k)),
      )

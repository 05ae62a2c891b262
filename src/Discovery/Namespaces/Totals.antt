-- ===== src/Discovery/Namespaces/Totals.antt =====
-- The totals of a namespace over the workers of pkg/discovery/worker.
use kubeturbo.Prelude.{
  ◌≡◌, refl, ◌∙◌, ap, subst, Option, none, some, List, [], ◌∷◌, String, ◌==◌, string_eq, map, All,
  Bool-cases, inl, inr,
}
use kubeturbo.Prelude.Dict.{Dict, lookup, insert, lookup-insert, IsMap}
use kubeturbo.Metrics.Points.{points_of, accumulate_pods}
use kubeturbo.Metrics.Points.Longest.{longest, of_length, add_all}
use kubeturbo.Metrics.Points.Accumulated.{accumulate_pods-longest}
use kubeturbo.Discovery.Grouped.{with_key, merge_all, merged, lookup-merge_by}
use kubeturbo.Discovery.Namespaces.{
  NamespaceMetrics, or_zero, add_quota_used, aggregate, combine_namespace_metrics,
}

module _ {F : Type 0} (plus : F → F → F) (zero_value : F) where
  -- The used quota of a resource after a further value, if there is one.
  abbrev pub plus_option : Option F → Option F → Option F
  plus_option total none = total
  plus_option total (some v) = some (plus (or_zero plus zero_value total) v)

  abbrev pub total_quota : Option F → List (Option F) → Option F
  total_quota total [] = total
  total_quota total (o ∷ os) = total_quota (plus_option total o) os

  lookup-add_quota_used :
      (k : String) (used partial : Dict String F)
      → IsMap partial
      → lookup k (add_quota_used plus zero_value used partial)
        ≡ plus_option (lookup k used) (lookup k partial)
  unfolding add_quota_used lookup
  lookup-add_quota_used k used [] m = refl
  lookup-add_quota_used k used ((r, v) ∷ partial) m =
      let v' = plus (or_zero plus zero_value (lookup r used)) v in
      lookup-add_quota_used k (insert r v' used) partial m.1
      ∙ ap (λ o. plus_option o (lookup k partial)) (lookup-insert r k v' used)
      ∙ elim (Bool-cases (r == k)) [
        | inl hit ↦
            let same = (string_eq.beq_iff r k).0 hit in
            let gone : lookup k partial ≡ none = subst (λ j. lookup j partial ≡ none) same m.0 in
            rw hit (
              ap (plus_option (some v')) gone
              ∙ ap (λ j. some (plus (or_zero plus zero_value (lookup j used)) v)) same)
        | inr miss ↦ rw miss refl
      ]

  merge_all-used :
      (m : NamespaceMetrics F) (ms : List (NamespaceMetrics F))
      → (merge_all (λ n. n.namespace) (aggregate plus zero_value) m ms).used
        ≡ accumulate_pods plus m.used (map (λ n. n.used) ms)
  unfolding accumulate_pods
  merge_all-used m [] = refl
  merge_all-used m (n ∷ ms) = merge_all-used (aggregate plus zero_value m n) ms

  merge_all-quota :
      (k : String) (m : NamespaceMetrics F) (ms : List (NamespaceMetrics F))
      → All (λ n. IsMap n.quota_used) ms
      → lookup k (merge_all (λ n. n.namespace) (aggregate plus zero_value) m ms).quota_used
        ≡ total_quota (lookup k m.quota_used) (map (λ n. lookup k n.quota_used) ms)
  merge_all-quota k m [] maps = refl
  merge_all-quota k m (n ∷ ms) maps =
      merge_all-quota k (aggregate plus zero_value m n) ms maps.1
      ∙ ap (λ o. total_quota o (map (λ i. lookup k i.quota_used) ms))
          (lookup-add_quota_used k m.quota_used n.quota_used maps.0)

  -- The metrics of a namespace after the results of all workers are combined: the used quota of each
  -- resource is the sum of those that the workers report, in their order, and the used points are,
  -- of the slices that they report, the sum of the longest. At least one of the workers reports the
  -- namespace, and each report has a resource at most once.
  pub combine_namespace_metrics-totals :
      (ms : List (NamespaceMetrics F)) (namespace quota r : String) (first : NamespaceMetrics F)
      (rest : List (NamespaceMetrics F))
      → with_key (λ m. m.namespace) (aggregate plus zero_value) namespace ms ≡ first ∷ rest
      → All (λ n. IsMap n.quota_used) rest
      → All IsMap (map (λ n. n.used) rest)
      → (let slices =
            points_of plus r first.used ∷ map (points_of plus r) (map (λ n. n.used) rest) in
          (m : NamespaceMetrics F) × (lookup namespace
              (combine_namespace_metrics plus zero_value ms)
            ≡ some m)
          × (lookup quota m.quota_used
              ≡ total_quota
                  (lookup quota first.quota_used)
                  (map (λ n. lookup quota n.quota_used) rest))
          × (points_of plus r m.used ≡ add_all plus (of_length (longest slices) slices)))
  unfolding combine_namespace_metrics lookup
  combine_namespace_metrics-totals ms namespace quota r first rest found quota_maps used_maps =
      let key = λ (m : NamespaceMetrics F). m.namespace in
      (
        merge_all key (aggregate plus zero_value) first rest,
        lookup-merge_by key (aggregate plus zero_value) namespace [] ms
            ∙ ap (merged key (aggregate plus zero_value) none) found,
        merge_all-quota quota first rest quota_maps,
        ap (points_of plus r) (merge_all-used first rest)
            ∙ accumulate_pods-longest plus first.used (map (λ n. n.used) rest) r used_maps,
      )

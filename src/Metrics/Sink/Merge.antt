-- ===== src/Metrics/Sink/Merge.antt =====
-- What a merge of sinks in pkg/discovery/metrics/metric_sink.go keeps of each metric.
use kubeturbo.Prelude.{
  ◌≡◌, refl, ◌∙◌, ap, subst, Bool, true, false, Option, none, some, List, [], ◌∷◌, String, ◌==◌,
  string_eq, if◌then◌else◌, any, arith, Option-cases, Bool-cases, inl, inr,
}
use kubeturbo.Prelude.Dict.{Dict, lookup, IsMap}
use kubeturbo.Metrics.{Metric, get_uid}
use kubeturbo.Metrics.Sink.{
  EntityMetricSink, all_keys, update_metric_entry, passes, merge_keys, merge_sink, get_metric,
}
use kubeturbo.Metrics.Sink.Updates.{merged, lookup-update_metric_entry}

abbrev pub member : String → List String → Bool
member k ks = any (λ j. j == k) ks

abbrev pub Distinct : List String → Type 0
Distinct [] = Unit {0}
Distinct (k ∷ ks) = (member k ks ≡ false) × Distinct ks

module _ {F V : Type 0} where
  abbrev pub filtered : Option (Metric F V → Bool) → Option (Metric F V) → Option (Metric F V)
  filtered filter none = none
  filtered filter (some m) = if passes filter m then some m else none

  -- The metrics are stored under their UIDs.
  abbrev pub Keyed : Dict String (Metric F V) → Type 0
  Keyed items = (k : String) (m : Metric F V) → lookup k items ≡ some m → get_uid m ≡ k

  module _ (other : Dict String (Metric F V)) (keyed : Keyed other)
      (filter : Option (Metric F V → Bool)) where
    abbrev Merges : (String → Bool) → EntityMetricSink F V → EntityMetricSink F V → Type 0
    Merges done s s' =
        (s'.max_metric_points_size ≡ s.max_metric_points_size)
        × ((k : String)
            → lookup k s'.items ≡ (
                if done k
                then merged s.max_metric_points_size (lookup k s.items)
                    (filtered filter (lookup k other))
                else lookup k s.items))

    -- The key is done, then the others.
    Merges-cons :
        (j : String) (js : List String) (s t s' : EntityMetricSink F V)
        → member j js ≡ false
        → Merges (λ k. j == k) s t
        → Merges (λ k. member k js) t s'
        → Merges (λ k. member k (j ∷ js)) s s'
    Merges-cons j js s t s' new (max_t, at_t) (max_s, at_s) = (
      max_s ∙ max_t,
      λ k. elim (Bool-cases (j == k)) [
        | inl hit ↦
            let same = (string_eq.beq_iff j k).0 hit in
            let absent : member k js ≡ false = subst (λ i. member i js ≡ false) same new in
            rw hit (at_s k ∙ rw absent (at_t k ∙ rw hit refl))
        | inr miss ↦
            let kept : lookup k t.items ≡ lookup k s.items = at_t k ∙ rw miss refl in
            rw miss (
              at_s k ∙ λ i.
              if member k js
              then merged (max_t i) (kept i) (filtered filter (lookup k other))
              else kept i)
      ],
    )

    -- The sink is left as it is where the filter lets nothing through.
    Merges-skip :
        (j : String) (s : EntityMetricSink F V)
        → filtered filter (lookup j other) ≡ none
        → Merges (λ k. j == k) s s
    Merges-skip j s nothing = (
      refl,
      λ k. elim (Bool-cases (j == k)) [
        | inl hit ↦
            let at_k : filtered filter (lookup k other) ≡ none =
              subst (λ i. filtered filter (lookup i other) ≡ none) ((string_eq.beq_iff j k).0 hit)
                nothing in
            rw hit (rw at_k refl)
        | inr miss ↦ rw miss refl
      ],
    )

    Merges-update :
        (j : String) (m : Metric F V) (s t : EntityMetricSink F V)
        → lookup j other ≡ some m
        → passes filter m ≡ true
        → update_metric_entry s m ≡ some t
        → Merges (λ k. j == k) s t
    Merges-update j m s t found pass updated =
        let uid = keyed j m found in
        let through : filtered filter (lookup j other) ≡ some m =
          ap (filtered filter) found ∙ rw pass refl in
        (
          (lookup-update_metric_entry s t m j updated).0,
          λ k. (lookup-update_metric_entry s t m k updated).1 ∙ elim (Bool-cases (j == k)) [
            | inl hit ↦
                let at_k : filtered filter (lookup k other) ≡ some m =
                  subst (λ i. filtered filter (lookup i other) ≡ some m)
                    ((string_eq.beq_iff j k).0 hit) through in
                rw uid (rw hit (rw at_k refl))
            | inr miss ↦ rw uid (rw miss refl)
          ],
        )

    merge_keys-Merges :
        (ks : List String) (s s' : EntityMetricSink F V)
        → Distinct ks
        → merge_keys s other filter ks ≡ some s'
        → Merges (λ k. member k ks) s s'
    unfolding merge_keys
    merge_keys-Merges [] s s' distinct e =
        let same : s ≡ s' = ground arith in
        subst (λ t. Merges (λ k. false) s t) same (refl, λ k. refl)
    merge_keys-Merges (j ∷ js) s s' distinct e = elim (Option-cases (lookup j other)) [
      | inl missing ↦
          Merges-cons j js s s s' distinct.0 (Merges-skip j s (ap (filtered filter) missing))
            (merge_keys-Merges js s s' distinct.1 (ground (arith, missing)))
      | inr (m, found) ↦ elim (Bool-cases (passes filter m)) [
        | inr stops ↦
            Merges-cons j js s s s' distinct.0
              (Merges-skip j s (ap (filtered filter) found ∙ rw stops refl))
              (merge_keys-Merges js s s' distinct.1 (ground (arith, found, stops)))
        | inl pass ↦ elim (Option-cases (update_metric_entry s m)) [
          | inl panics ↦ absurd (ground (arith, found, pass, panics))
          | inr (t, updated) ↦
              Merges-cons j js s t s' distinct.0 (Merges-update j m s t found pass updated)
                (merge_keys-Merges js t s' distinct.1 (ground (arith, found, pass, updated)))
        ]
      ]
    ]

  member-all_keys :
      (k : String) (items : Dict String (Metric F V))
      → (member k (all_keys items) ≡ false → lookup k items ≡ none)
        × (lookup k items ≡ none → member k (all_keys items) ≡ false)
  unfolding all_keys lookup
  member-all_keys k [] = (λ out. refl, λ out. refl)
  member-all_keys k ((j, m) ∷ items) = ground (arith, member-all_keys k items)

  IsMap-Distinct : (items : Dict String (Metric F V)) → IsMap items → Distinct (all_keys items)
  unfolding all_keys
  IsMap-Distinct [] m = tt
  IsMap-Distinct ((k, v) ∷ items) (new, m) =
      ((member-all_keys k items).1 new, IsMap-Distinct items m)

  pub merge_sink-merged :
      (s another s' : EntityMetricSink F V) (filter : Option (Metric F V → Bool))
      → IsMap another.items
      → Keyed another.items
      → merge_sink s another filter ≡ some s'
      → (s'.max_metric_points_size ≡ s.max_metric_points_size)
        × ((k : String)
            → get_metric s' k
              ≡ merged s.max_metric_points_size
                  (get_metric s k)
                  (filtered filter (get_metric another k)))
  unfolding merge_sink
  merge_sink-merged s another s' filter m keyed e =
      let done =
        merge_keys-Merges another.items keyed filter (all_keys another.items) s s'
          (IsMap-Distinct another.items m) e in
      (
        done.0,
        λ k. done.1 k ∙ elim (Bool-cases (member k (all_keys another.items))) [
          | inl there ↦ rw there refl
          | inr out ↦ rw out (rw ((member-all_keys k another.items).0 out) refl)
        ],
      )

-- ===== src/Discovery/ContainerSpecs/Replicas.antt =====
-- The metrics of a container spec over its replicas: container_spec_discovery_worker.go of
-- pkg/discovery/worker.
use kubeturbo.Prelude.{
  ◌+◌, ◌<◌, ◌%◌, ◌^◌, ◌≡◌, refl, ◌∙◌, ap, Option, none, some, List, [], ◌∷◌, ◌++◌, String, ◌==◌,
  string_eq, map, length, Bool-cases, inl, inr, arith,
}
use kubeturbo.Prelude.Dict.{Dict, lookup}
use kubeturbo.Metrics.{Point}
use kubeturbo.Discovery.Grouped.{with_key, merge_all, merged, lookup-merge_by}
use kubeturbo.Discovery.ContainerSpecs.{
  Used, points, throttling, nothing, ContainerMetrics, ContainerSpecMetrics, append_metrics_by_type,
  append_metrics, merge_metrics, merge_spec, create_container_spec_metrics_map,
}

module _ {A : Type 0} where
  abbrev pub appended : List A → List (List A) → List A
  appended xs [] = xs
  appended xs (ys ∷ yss) = appended (xs ++ ys) yss

  append-nil : (xs : List A) → xs ≡ xs ++ []
  append-nil [] = refl
  append-nil (x ∷ xs) = ap (λ ys. x ∷ ys) (append-nil xs)

module _ {F : Type 0} where
  abbrev pub points_in : Used F → List (Point F)
  points_in (points ps) = ps
  points_in (throttling ts) = []
  points_in nothing = []

  -- What a replica has of a resource.
  abbrev pub capacity_in : Option (ContainerMetrics F) → List F
  capacity_in none = []
  capacity_in (some m) = m.capacity

  abbrev pub points_of_metrics : Option (ContainerMetrics F) → List (Point F)
  points_of_metrics none = []
  points_of_metrics (some m) = points_in m.used

  abbrev appends :
      Option (ContainerMetrics F) → Option (ContainerMetrics F) → Option (ContainerMetrics F)
  appends none o = none
  appends (some m) o = some (append_metrics m o)

  lookup-merge_metrics :
      (r : String) (ms others : Dict String (ContainerMetrics F))
      → lookup r (merge_metrics ms others) ≡ appends (lookup r ms) (lookup r others)
  unfolding merge_metrics lookup
  lookup-merge_metrics r [] others = refl
  lookup-merge_metrics r ((j, m) ∷ ms) others = elim (Bool-cases (j == r)) [
    | inl hit ↦
        rw hit (ap (λ k. some (append_metrics m (lookup k others))) ((string_eq.beq_iff j r).0 hit))
    | inr miss ↦ rw miss (lookup-merge_metrics r ms others)
  ]

  -- The metrics of a resource, after those of further replicas.
  abbrev appends_all :
      Option (ContainerMetrics F) → List (Option (ContainerMetrics F)) → Option (ContainerMetrics F)
  appends_all o [] = o
  appends_all o (p ∷ ps) = appends_all (appends o p) ps

  merge_all-metrics :
      (r : String) (s : ContainerSpecMetrics F) (ss : List (ContainerSpecMetrics F))
      → lookup r (merge_all (λ i. i.container_spec_id) merge_spec s ss).container_metrics
        ≡ appends_all (lookup r s.container_metrics) (map (λ i. lookup r i.container_metrics) ss)
  merge_all-metrics r s [] = refl
  merge_all-metrics r s (t ∷ ts) =
      merge_all-metrics r (merge_spec s t) ts
      ∙ ap (λ o. appends_all o (map (λ i. lookup r i.container_metrics) ts))
          (lookup-merge_metrics r s.container_metrics t.container_metrics)

  appends_all-none : (os : List (Option (ContainerMetrics F))) → appends_all none os ≡ none
  appends_all-none [] = refl
  appends_all-none (o ∷ os) = appends_all-none os

  append_metrics-capacity :
      (m : ContainerMetrics F) (o : Option (ContainerMetrics F))
      → (append_metrics m o).capacity ≡ m.capacity ++ capacity_in o
  unfolding append_metrics
  append_metrics-capacity m none = append-nil m.capacity
  append_metrics-capacity m (some n) = refl

  append_metrics-points :
      (m : ContainerMetrics F) (ps : List (Point F)) (o : Option (ContainerMetrics F))
      → m.used ≡ points ps
      → (append_metrics m o).used ≡ points (ps ++ points_of_metrics o)
  unfolding append_metrics append_metrics_by_type
  append_metrics-points m ps none e = e ∙ ap points (append-nil ps)
  append_metrics-points m ps (some n) e =
      ap (λ u. append_metrics_by_type u n.used) e ∙ points_append ps n.used
    where
      points_append :
          (ps : List (Point F)) (u : Used F)
          → append_metrics_by_type (points ps) u ≡ points (ps ++ points_in u)
      points_append ps (points qs) = refl
      points_append ps (throttling us) = ap points (append-nil ps)
      points_append ps nothing = ap points (append-nil ps)

  appends_all-some :
      (m : ContainerMetrics F) (ps : List (Point F)) (os : List (Option (ContainerMetrics F)))
      → m.used ≡ points ps
      → (n : ContainerMetrics F) × (appends_all (some m) os ≡ some n)
        × (n.capacity ≡ appended m.capacity (map capacity_in os))
        × (n.used ≡ points (appended ps (map points_of_metrics os)))
  appends_all-some m ps [] e = (m, refl, refl, e)
  appends_all-some m ps (o ∷ os) e =
      let (n, all, capacity, used) =
        appends_all-some (append_metrics m o) (ps ++ points_of_metrics o) os
          (append_metrics-points m ps o e) in
      (
        n,
        all,
        capacity ∙ ap (λ c. appended c (map capacity_in os)) (append_metrics-capacity m o),
        used,
      )

  merge_all-replicas :
      (s : ContainerSpecMetrics F) (ss : List (ContainerSpecMetrics F))
      → s.container_replicas < 2 ^ 32
      → (merge_all (λ i. i.container_spec_id) merge_spec s ss).container_replicas
        ≡ (s.container_replicas + length ss) % 2 ^ 32
  merge_all-replicas s [] small = omega arith
  merge_all-replicas s (t ∷ ts) small = omega (arith, merge_all-replicas (merge_spec s t) ts)

  merged_spec :
      (specs : List (ContainerSpecMetrics F)) (id : String) (first : ContainerSpecMetrics F)
      (rest : List (ContainerSpecMetrics F))
      → with_key (λ s. s.container_spec_id) merge_spec id specs ≡ first ∷ rest
      → lookup id (create_container_spec_metrics_map specs)
        ≡ some (merge_all (λ s. s.container_spec_id) merge_spec first rest)
  unfolding create_container_spec_metrics_map lookup
  merged_spec specs id first rest found =
      let key = λ (s : ContainerSpecMetrics F). s.container_spec_id in
      lookup-merge_by key merge_spec id [] specs ∙ ap (merged key merge_spec none) found

  -- The metrics of a container spec over all its replicas, of which the first has a count below 2^32,
  -- and has a resource with points: the count grows by one with each further replica, modulo 2^32,
  -- and the resource gets the capacities and the points of all replicas that have it, one after the
  -- other.
  pub create_container_spec_metrics_map-replicas :
      (specs : List (ContainerSpecMetrics F)) (id r : String) (first : ContainerSpecMetrics F)
      (rest : List (ContainerSpecMetrics F)) (m : ContainerMetrics F) (ps : List (Point F))
      → with_key (λ s. s.container_spec_id) merge_spec id specs ≡ first ∷ rest
      → first.container_replicas < 2 ^ 32
      → lookup r first.container_metrics ≡ some m
      → m.used ≡ points ps
      → (let others = map (λ s. lookup r s.container_metrics) rest in
          (s : ContainerSpecMetrics F) × (n : ContainerMetrics F) × (lookup id
              (create_container_spec_metrics_map specs)
            ≡ some s)
          × (s.container_replicas ≡ (first.container_replicas + length rest) % 2 ^ 32)
          × (lookup r s.container_metrics ≡ some n)
          × (n.capacity ≡ appended m.capacity (map capacity_in others))
          × (n.used ≡ points (appended ps (map points_of_metrics others))))
  create_container_spec_metrics_map-replicas specs id r first rest m ps found small there used =
      let others = map (λ (s : ContainerSpecMetrics F). lookup r s.container_metrics) rest in
      let (n, all, capacity, points_used) = appends_all-some m ps others used in
      (
        merge_all (λ s. s.container_spec_id) merge_spec first rest,
        n,
        merged_spec specs id first rest found,
        merge_all-replicas first rest small,
        merge_all-metrics r first rest ∙ ap (λ o. appends_all o others) there ∙ all,
        capacity,
        points_used,
      )

  -- A resource that the first replica does not have is lost, whatever the others have.
  create_container_spec_metrics_map_lost :
      (specs : List (ContainerSpecMetrics F)) (id r : String) (first : ContainerSpecMetrics F)
      (rest : List (ContainerSpecMetrics F))
      → with_key (λ s. s.container_spec_id) merge_spec id specs ≡ first ∷ rest
      → lookup r first.container_metrics ≡ none
      → (s : ContainerSpecMetrics F) × (lookup id (create_container_spec_metrics_map specs)
          ≡ some s)
        × (lookup r s.container_metrics ≡ none)
  create_container_spec_metrics_map_lost specs id r first rest found missing =
      let others = map (λ (s : ContainerSpecMetrics F). lookup r s.container_metrics) rest in
      (
        merge_all (λ s. s.container_spec_id) merge_spec first rest,
        merged_spec specs id first rest found,
        merge_all-metrics r first rest
            ∙ ap (λ o. appends_all o others) missing
            ∙ appends_all-none others,
      )

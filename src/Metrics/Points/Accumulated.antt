-- ===== src/Metrics/Points/Accumulated.antt =====
-- What accumulated points are: the sum of the longest slices. The code is AccumulateMultiPoints of
-- pkg/discovery/metrics/metric.go.
use kubeturbo.Prelude.{
  ◌≡◌, refl, ◌∙◌, sym, ap, subst, none, some, List, [], ◌∷◌, String, ◌==◌, string_eq, nat_eq,
  if◌then◌else◌, ltb, length, map, All, arith, Option-cases, Bool-cases, inl, inr,
}
use kubeturbo.Prelude.Dict.{Dict, lookup, insert, lookup-insert, IsMap}
use kubeturbo.Metrics.{Point}
use kubeturbo.Metrics.Points.{
  or_nil, add_points, points_of, accumulate_entry, accumulate_multi_points, accumulate_pods,
}
use kubeturbo.Metrics.Points.Longest.{
  longest, of_length, add_all, combine, combine_all, combine-longer, combine-shorter, combine-same,
  combine-nil, combine-new, nil, combine_all-longest,
}

module _ {F : Type 0} (plus : F → F → F) where
  points_of-insert :
      (r k : String) (ps : List (Point F)) (acc : Dict String (List (Point F)))
      → points_of plus k (insert r ps acc) ≡ (if r == k then ps else points_of plus k acc)
  unfolding or_nil
  points_of-insert r k ps acc = elim (Bool-cases (r == k)) [
    | inl hit ↦ ap or_nil (lookup-insert r k ps acc) ∙ rw hit refl
    | inr miss ↦ ap or_nil (lookup-insert r k ps acc) ∙ rw miss refl
  ]

  -- The slice under the key is the combined one, and the others are as they were.
  IsCombined : (acc : Dict String (List (Point F))) (r : String) (used : List (Point F)) → Type 0
  IsCombined acc r used =
      (k : String)
      → points_of plus k (accumulate_entry plus acc r used)
        ≡ (if r == k then combine plus (points_of plus r acc) used else points_of plus k acc)

  entry-unchanged :
      (acc : Dict String (List (Point F))) (r : String) (used : List (Point F))
      → accumulate_entry plus acc r used ≡ acc
      → combine plus (points_of plus r acc) used ≡ points_of plus r acc
      → IsCombined acc r used
  unfolding IsCombined
  entry-unchanged acc r used same kept k = elim (Bool-cases (r == k)) [
    | inl hit ↦
        rw same
          (rw hit (rw kept (ap (λ j. points_of plus j acc) (sym ((string_eq.beq_iff r k).0 hit)))))
    | inr miss ↦ rw same (rw miss refl)
  ]

  entry-inserted :
      (acc : Dict String (List (Point F))) (r : String) (used ps : List (Point F))
      → accumulate_entry plus acc r used ≡ insert r ps acc
      → combine plus (points_of plus r acc) used ≡ ps
      → IsCombined acc r used
  unfolding IsCombined
  entry-inserted acc r used ps same new k = rw same (points_of-insert r k ps acc ∙ rw new refl)

  points_of-accumulate_entry :
      (acc : Dict String (List (Point F))) (r : String) (used : List (Point F))
      → IsCombined acc r used
  unfolding accumulate_entry or_nil
  points_of-accumulate_entry acc r used = elim (Option-cases (lookup r acc)) [
    | inl new ↦
        let nothing : points_of plus r acc ≡ [] = ap or_nil new in
        elim (Bool-cases (ltb 0 (length used))) [
          | inl some_points ↦
              entry-inserted acc r used used (ground (arith, new))
                (ap (λ t. combine plus t used) nothing ∙ combine-new plus used)
          | inr empty ↦ entry-unchanged acc r used (ground (arith, new)) (
              ap (combine plus (points_of plus r acc)) (nil plus used empty)
              ∙ combine-nil plus (points_of plus r acc))
        ]
    | inr (old, found) ↦
        let at_r : points_of plus r acc ≡ old = ap or_nil found in
        elim (Bool-cases (ltb (length old) (length used))) [
          | inl longer ↦
              entry-inserted acc r used used (ground (arith, found, longer))
                (ap (λ t. combine plus t used) at_r ∙ combine-longer plus old used longer)
          | inr not_longer ↦ elim (Bool-cases (ltb (length used) (length old))) [
            | inl shorter ↦
                entry-unchanged acc r used
                  (rw (found, accumulate_entry) (rw (not_longer, if◌then◌else◌) (rw shorter refl)))
                  (ap (λ t. combine plus t used) at_r
                    ∙ combine-shorter plus old used shorter
                    ∙ sym at_r)
            | inr not_shorter ↦
                entry-inserted acc r used (add_points plus old used)
                  (rw (found, accumulate_entry) (rw not_longer (rw not_shorter refl)))
                  (ap (λ t. combine plus t used) at_r
                    ∙ combine-same plus old used not_longer not_shorter)
          ]
        ]
  ]

  points_of-accumulate_multi_points :
      (acc portion : Dict String (List (Point F))) (k : String)
      → IsMap portion
      → points_of plus k (accumulate_multi_points plus acc portion)
        ≡ combine plus (points_of plus k acc) (points_of plus k portion)
  unfolding accumulate_multi_points IsCombined lookup or_nil
  points_of-accumulate_multi_points acc [] k m = sym (combine-nil plus (points_of plus k acc))
  points_of-accumulate_multi_points acc ((r, used) ∷ portion) k m =
      points_of-accumulate_multi_points (accumulate_entry plus acc r used) portion k m.1
      ∙ elim (Bool-cases (r == k)) [
        | inl hit ↦
            let same = (string_eq.beq_iff r k).0 hit in
            let gone : lookup k portion ≡ none = subst (λ j. lookup j portion ≡ none) same m.0 in
            ap (λ t. combine plus t (points_of plus k portion))
              (points_of-accumulate_entry acc r used k
                ∙ rw hit (ap (λ j. combine plus (points_of plus j acc) used) same))
            ∙ ap (λ t. combine plus (combine plus (points_of plus k acc) used) (or_nil t)) gone
            ∙ combine-nil plus (combine plus (points_of plus k acc) used)
            ∙ ap
                (λ t.
                  combine plus (points_of plus k acc)
                    (or_nil (if t then some used else lookup k portion)))
                (sym hit)
        | inr miss ↦
            ap (λ t. combine plus t (points_of plus k portion))
              (points_of-accumulate_entry acc r used k ∙ rw miss refl)
            ∙ ap
                (λ t.
                  combine plus (points_of plus k acc)
                    (or_nil (if t then some used else lookup k portion)))
                (sym miss)
      ]

  points_of-accumulate_pods :
      (acc : Dict String (List (Point F))) (portions : List (Dict String (List (Point F))))
      (k : String)
      → All IsMap portions
      → points_of plus k (accumulate_pods plus acc portions)
        ≡ combine_all plus (points_of plus k acc) (map (points_of plus k) portions)
  unfolding accumulate_pods
  points_of-accumulate_pods acc [] k ms = refl
  points_of-accumulate_pods acc (portion ∷ portions) k ms =
      points_of-accumulate_pods (accumulate_multi_points plus acc portion) portions k ms.1
      ∙ ap (λ ps. combine_all plus ps (map (points_of plus k) portions))
          (points_of-accumulate_multi_points acc portion k ms.0)

  -- The points of a resource after the portions of several pods are, of the accumulated slice and
  -- the slices of the pods, those of the greatest length: the first of them, with the values of the
  -- others added. Each portion has a resource at most once.
  pub accumulate_pods-longest :
      (acc : Dict String (List (Point F))) (portions : List (Dict String (List (Point F))))
      (k : String)
      → All IsMap portions
      → (let slices = points_of plus k acc ∷ map (points_of plus k) portions in
          points_of plus k (accumulate_pods plus acc portions)
          ≡ add_all plus (of_length (longest slices) slices))
  accumulate_pods-longest acc portions k ms =
      points_of-accumulate_pods acc portions k ms
      ∙ combine_all-longest plus (points_of plus k acc) (map (points_of plus k) portions)

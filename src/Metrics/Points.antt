-- ===== src/Metrics/Points.antt =====
-- AccumulateMultiPoints of pkg/discovery/metrics/metric.go, the sum of points over pods.
pub mod Longest
pub mod Accumulated
use kubeturbo.Prelude.{
  ℕ, Bool, true, false, Option, none, some, List, [], ◌∷◌, String, string_eq, if◌then◌else◌, ltb,
  length,
}
use kubeturbo.Prelude.Dict.{Dict, lookup, insert}
use kubeturbo.Metrics.{Point}

unfoldable pub or_nil : {A : Type 0} → Option (List A) → List A
or_nil none = []
or_nil (some xs) = xs

-- The sum of two float64 is a parameter.
module _ {F : Type 0} (plus : F → F → F) where
  -- The loop that adds the points in place; the time of the existing point stays.
  unfoldable pub add_points : List (Point F) → List (Point F) → List (Point F)
  add_points [] used = []
  add_points (p ∷ ps) [] = p ∷ ps
  add_points (p ∷ ps) (q ∷ qs) = record p { value = plus p.value q.value } ∷ add_points ps qs

  -- A read of a missing key gives the nil slice.
  abbrev pub points_of : String → Dict String (List (Point F)) → List (Point F)
  points_of r dict = or_nil (lookup r dict)

  -- The accumulated map is nowhere changed where the new slice is shorter. Adding to the elements of
  -- a slice that is not there changes nothing either, so that no key is made for a new empty slice.
  unfoldable pub accumulate_entry :
      Dict String (List (Point F)) → String → List (Point F) → Dict String (List (Point F))
  unfolding add_points
  accumulate_entry accumulated r pod_used = elim (lookup r accumulated) [
    | none ↦ if ltb 0 (length pod_used) then insert r pod_used accumulated else accumulated
    | some existing ↦
        if ltb (length existing) (length pod_used)
        then insert r pod_used accumulated
        else if ltb (length pod_used) (length existing)
        then accumulated
        else insert r (add_points existing pod_used) accumulated
  ]

  unfoldable pub accumulate_multi_points :
      Dict String (List (Point F)) → Dict String (List (Point F)) → Dict String (List (Point F))
  unfolding accumulate_entry
  accumulate_multi_points accumulated [] = accumulated
  accumulate_multi_points accumulated ((r, pod_used) ∷ portion) =
      accumulate_multi_points (accumulate_entry accumulated r pod_used) portion

  -- The portions of the pods, one after the other.
  unfoldable pub accumulate_pods :
      Dict String (List (Point F))
      → List (Dict String (List (Point F)))
      → Dict String (List (Point F))
  unfolding accumulate_multi_points
  accumulate_pods accumulated [] = accumulated
  accumulate_pods accumulated (portion ∷ portions) =
      accumulate_pods (accumulate_multi_points accumulated portion) portions

-- ===== src/Handler/Pods.antt =====
-- pkg/action/util/pod_manager.go, the pods that the actions renamed, with the reads of pods in
-- pkg/discovery/util/pod_util.go.
pub mod Renamed
use kubeturbo.Prelude.{
  ℕ, zero, suc, Bool, true, false, ◌||◌, Option, none, some, List, [], ◌∷◌, String, ◌==◌, string_eq,
  if◌then◌else◌,
}
use kubeturbo.Prelude.Dict.{Dict, lookup, insert}
use kubeturbo.Prelude.Text.{split, trim_space}
use kubeturbo.Owner.{Pod}

-- A pod as the API server has it.
pub record PodObject : Type 0 where
  pub uid : String
  pub phase : String
  pub pod : Pod

abbrev pub max_ite_for_latest_value : ℕ
max_ite_for_latest_value = 20

abbrev pub pod_running : String
pod_running = "Running"

-- The clients of the API server: a pod by namespace and name, which may be nil, and the pods of a
-- namespace in a phase. No value is an error.
pub record PodsGetter : Type 0 where
  pub get : String → String → Option (Option PodObject)
  pub list_in_phase : String → String → Option (List PodObject)

unfoldable pub get_pod_in_phase : PodsGetter → String → String → String → Option PodObject
get_pod_in_phase client namespace name phase = elim (client.get namespace name) [
  | none ↦ none
  | some none ↦ none
  | some (some pod) ↦ if pod.phase == phase then some pod else none
]

unfoldable pub first_with_uid : String → List PodObject → Option PodObject
first_with_uid uid [] = none
first_with_uid uid (pod ∷ pods) = if pod.uid == uid then some pod else first_with_uid uid pods

unfoldable pub get_pod_in_phase_by_uid : PodsGetter → String → String → String → Option PodObject
unfolding first_with_uid
get_pod_in_phase_by_uid client namespace uid phase = elim (client.list_in_phase namespace phase) [
  | none ↦ none
  | some pods ↦ first_with_uid uid pods
]

unfoldable pub trimmed : String → String → Option (String × String)
trimmed namespace name =
    if namespace == "" then none else if name == "" then none else some (namespace, name)

-- The code of the separator "/" is 47.
unfoldable pub parse_pod_display_name : String → Option (String × String)
unfolding trimmed
parse_pod_display_name display_name = elim (split 47 display_name) [
  | [] ↦ none
  | namespace ∷ [] ↦ none
  | namespace ∷ name ∷ items ↦ trimmed (trim_space namespace) (trim_space name)
]

-- The cache, with what has not expired yet.
abbrev pub PodCache : Type 0
PodCache = Dict String String

unfoldable pub cache_pod : PodCache → PodObject → PodObject → PodCache
cache_pod cache old new =
    if (old.pod.name == new.pod.name) || (old.uid == new.uid)
    then cache
    else insert old.uid new.uid (insert old.pod.name new.pod.name cache)

-- The loop, over the variable `val`.
unfoldable pub further_values : PodCache → ℕ → String → String
further_values cache zero val = val
further_values cache (suc n) val = elim (lookup val cache) [
  | none ↦ val
  | some val' ↦ further_values cache n val'
]

unfoldable pub get_latest_value : PodCache → String → Option String
unfolding further_values
get_latest_value cache key = elim (lookup key cache) [
  | none ↦ none
  | some val ↦ some (further_values cache max_ite_for_latest_value val)
]

unfoldable pub get_running_pod : PodsGetter → PodCache → String → String → String → Option PodObject
get_running_pod client cache namespace name uid = elim (get_latest_value cache name) [
  | some cached_name ↦ get_pod_in_phase client namespace cached_name pod_running
  | none ↦ elim (get_pod_in_phase client namespace name pod_running) [
    | some pod ↦ some pod
    | none ↦ elim (get_latest_value cache uid) [
      | some cached_uid ↦ get_pod_in_phase_by_uid client namespace cached_uid pod_running
      | none ↦ get_pod_in_phase_by_uid client namespace uid pod_running
    ]
  ]
]

unfoldable pub get_pod_from_display_name_or_uuid :
    PodsGetter → PodCache → String → String → Option PodObject
unfolding get_running_pod
get_pod_from_display_name_or_uuid getter cache display_name uuid =
    elim (parse_pod_display_name display_name) [
      | none ↦ none
      | some (namespace, name) ↦ get_running_pod getter cache namespace name uuid
    ]

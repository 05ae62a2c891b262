-- ===== src/Move/Workloads.antt =====
-- The controllers of a pod that is moved, and how pkg/action/executor/move_util.go changes them:
-- ResourceRollout and ChangeScheduler, with the retries of pkg/util/common_util.go.
pub mod Retries
pub mod Settings
use kubeturbo.Prelude.{
  ℕ, Bool, true, false, not, Option, none, some, List, [], ◌∷◌, String, if◌then◌else◌, is_some,
  string_eq,
}
use kubeturbo.Prelude.Dict.{Dict, lookup, insert, delete}
use kubeturbo.Quota.{or_empty, turbo_gc_label_key, turbo_gc_label_val}
use kubeturbo.Move.Workloads.Retries.{retried}

-- The fields of an unstructured object that are read or set. SetNestedField of the Kubernetes library
-- fails where its path leads through something that is no map, which `has_paths` tells.
pub record Workload : Type 0 where
  pub name : String
  pub labels : Option (Dict String String)
  pub paused : Bool
  pub scheduler_name : String
  pub has_paths : Bool

abbrev pub dummy_scheduler : String
dummy_scheduler = "turbo-scheduler"

abbrev pub default_scheduler : String
default_scheduler = "default-scheduler"

unfoldable pub add_gc_label : Workload → Workload
add_gc_label w = record w {
  labels = some (insert turbo_gc_label_key turbo_gc_label_val (or_empty w.labels));
}

unfoldable pub remove_gc_label : Workload → Workload
remove_gc_label w = elim w.labels [
  | none ↦ w
  | some labels ↦
      if is_some (lookup turbo_gc_label_key labels)
      then record w { labels = some (delete turbo_gc_label_key labels) }
      else w
]

-- The API server for one kind of workload in a namespace: a read by name, and an update with whether
-- it succeeds.
pub record Client (S : Type 0) : Type 0 where
  pub get : S → String → Option Workload
  pub put : S → Workload → S × Bool

-- `conflict_retry` is `retry.RetryOnConflict` of the Kubernetes library.
module _ {S : Type 0} (conflict_retry : (S → S × Bool) → S → S × Bool) (client : Client S) where
  -- The function that ResourceRollout retries.
  unfoldable pub rollout_once : String → Bool → S → S × Bool
  rollout_once name pause s = elim (client.get s name) [
    | none ↦ (s, false)
    | some w ↦
        if not w.has_paths
        then (s, false)
        else client.put s (
            let w' = record w { paused = pause } in
            if pause then add_gc_label w' else remove_gc_label w')
  ]

  unfoldable pub resource_rollout : String → Bool → S → S × Bool
  resource_rollout name pause s = conflict_retry (rollout_once name pause) s

  -- The function that ChangeScheduler retries.
  unfoldable pub scheduler_once : String → Bool → S → S × Bool
  scheduler_once name valid s = elim (client.get s name) [
    | none ↦ (s, false)
    | some w ↦
        if not w.has_paths
        then (s, false)
        else client.put s (
            if valid
            then remove_gc_label (record w { scheduler_name = default_scheduler })
            else add_gc_label (record w { scheduler_name = dummy_scheduler }))
  ]

  -- No object is no error.
  unfoldable pub change_scheduler : Option String → Bool → S → S × Bool
  change_scheduler none valid s = (s, true)
  change_scheduler (some name) valid s = conflict_retry (scheduler_once name valid) s

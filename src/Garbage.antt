-- ===== src/Garbage.antt =====
-- pkg/discovery/worker/garbage_collector.go: what the program cleans up when it starts, after actions
-- that were interrupted.
pub mod Quotas
pub mod Controllers
mod Examples
use kubeturbo.Prelude.{
  ℕ, ◌+◌, Bool, true, false, ◌&&◌, ◌||◌, Option, none, some, List, [], ◌∷◌, String, ◌==◌, string_eq,
  if◌then◌else◌, is_some, ltb,
}
use kubeturbo.Prelude.Dict.{Dict, lookup, delete}
use kubeturbo.Quota.{
  ResourceQuota, quota_annotation_key, turbo_gc_label_key, turbo_gc_label_val, or_empty,
  remove_gc_label_from_quota,
}
use kubeturbo.Move.Workloads.{Client, change_scheduler, resource_rollout, dummy_scheduler}
use kubeturbo.Move.Workloads.Retries.{Timing, retried}

-- The fields of a pod that isLeakedPod reads; a time is a number of nanoseconds.
pub record LeakedPod : Type 0 where
  pub name : String
  pub labels : Option (Dict String String)
  pub creation : ℕ
  pub scheduler_name : String

abbrev is_marked : Option String → Bool
is_marked none = false
is_marked (some val) = val == turbo_gc_label_val

-- `first` and `second` are the two readings of the clock.
unfoldable pub is_leaked_pod : ℕ → ℕ → ℕ → LeakedPod → Bool
is_leaked_pod pod_age first second pod =
    (is_marked (lookup turbo_gc_label_key (or_empty pod.labels))
      && ltb (pod.creation + pod_age) first)
    || (pod.scheduler_name == dummy_scheduler && ltb (pod.creation + pod_age) second)

unfoldable pub remove_turbo_annotation_from_quota : ResourceQuota → ResourceQuota
remove_turbo_annotation_from_quota q = elim q.annotations [
  | none ↦ q
  | some annotations ↦
      if is_some (lookup quota_annotation_key annotations)
      then record q { annotations = some (delete quota_annotation_key annotations) }
      else q
]

-- The quota that is written back; `decode` is DecodeQuota.
unfoldable pub reverted_quota : (String → Option ResourceQuota) → ResourceQuota → ResourceQuota
unfolding remove_turbo_annotation_from_quota
reverted_quota decode q = elim (lookup quota_annotation_key (or_empty q.annotations)) [
  | none ↦ remove_gc_label_from_quota q
  | some text ↦ elim (decode text) [
    | none ↦ remove_gc_label_from_quota q
    | some original ↦
        remove_gc_label_from_quota
          (remove_turbo_annotation_from_quota (record q { hard = original.hard }))
  ]
]

-- The clock of a RetryDuring that begins in that state.
module _ {S : Type 0} (timing : S → Timing) where
  module _ (put : S → ResourceQuota → S × Bool) (decode : String → Option ResourceQuota) where
    unfoldable pub revert_quota : S → ResourceQuota → S
    revert_quota s q = (retried 0 (timing s) (λ t. put t (reverted_quota decode q)) s).0

    unfoldable pub revert_quotas : S → List ResourceQuota → S
    revert_quotas s [] = s
    revert_quotas s (q ∷ qs) = revert_quotas (revert_quota s q) qs

    -- `list` is the list of the marked quotas by the API server, with its retries; no list if all of
    -- them fail.
    unfoldable pub cleanup_quotas : (S → Option (List ResourceQuota)) → S → S
    cleanup_quotas list s = elim (list s) [ none ↦ s | some quotas ↦ revert_quotas s quotas ]

  -- The pods that the API server lists, by the label or by the scheduler; an error of a deletion is
  -- only logged.
  module _ (delete_pod : S → LeakedPod → S × Bool) (pod_age : ℕ) (now : S → ℕ) where
    unfoldable pub delete_leaked : List LeakedPod → S → S
    delete_leaked [] s = s
    delete_leaked (p ∷ ps) s =
        delete_leaked ps (if is_leaked_pod pod_age (now s) (now s) p then (delete_pod s p).0 else s)

    unfoldable pub cleanup_leaked_pods : (S → Option (List LeakedPod)) → S → S
    cleanup_leaked_pods list s = elim (list s) [ none ↦ s | some ps ↦ delete_leaked ps s ]

  -- A kind of controllers: its client, and the list of the marked ones, with its retries. The name
  -- of a workload stands for its namespace too.
  module _ (conflict_retry : (S → S × Bool) → S → S × Bool) where
    unfoldable pub change_back : Client S → List String → S → S
    change_back client [] s = s
    change_back client (n ∷ ns) s =
        change_back client ns
          (retried 0 (timing s) (change_scheduler conflict_retry client (some n) true) s).0

    unfoldable pub revert_schedulers : List (Client S × (S → Option (List String))) → S → S
    revert_schedulers [] s = s
    revert_schedulers ((client, list) ∷ kinds) s =
        revert_schedulers kinds (elim (list s) [ none ↦ s | some ns ↦ change_back client ns s ])

    unfoldable pub resume : Client S → List String → S → S
    resume client [] s = s
    resume client (n ∷ ns) s =
        resume client ns (retried 0 (timing s) (resource_rollout conflict_retry client n false) s).0

    unfoldable pub unpause_rollouts : List (Client S × (S → Option (List String))) → S → S
    unpause_rollouts [] s = s
    unpause_rollouts ((client, list) ∷ kinds) s =
        unpause_rollouts kinds (elim (list s) [ none ↦ s | some ns ↦ resume client ns s ])

    -- `parents` are the replication controllers and the replica sets, `grand_parents` the deployments
    -- and the deployment configs.
    unfoldable pub revert_controllers :
        (parents grand_parents : List (Client S × (S → Option (List String)))) → S → S
    revert_controllers parents grand_parents s =
        unpause_rollouts grand_parents (revert_schedulers parents s)

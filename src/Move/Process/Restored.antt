-- ===== src/Move/Process/Restored.antt =====
-- The controllers of the pod after movePod of pkg/action/executor/move_util.go.
use kubeturbo.Prelude.{
  ℕ, ◌≡◌, refl, ◌∙◌, ◌⊎◌, inl, inr, Bool, true, false, Option, some, String, Option-cases,
  Bool-cases,
}
use kubeturbo.Move.Workloads.{Workload, change_scheduler, resource_rollout}
use kubeturbo.Move.Workloads.Retries.{Calls, Calls-keep, Timing, retried, retried-Calls}
use kubeturbo.Move.Workloads.Settings.{
  IsClient, IsScheduled, IsRolling, retried-IsScheduled, retried-IsRolling, resource_rollout-keep,
}
use kubeturbo.Move.Clone.{Pod}
use kubeturbo.Move.Process.{
  Env, QuotaSteps, Owners, with_scheduler, with_rollout, move_pod, default_retry_short_timeout,
}
use kubeturbo.Move.Process.Frame.{
  KeepsPods, KeepsQuotas, KeptOr, KeptOr-then, KeptOr-after, move_pod-KeptOr,
}

module _ {S : Type 0} (env : Env S) (quotas : QuotaSteps S)
    (get_pod_owners_info : S → Option Owners) (owners : Owners) (parent grand : String)
    (parent_is : owners.parent ≡ some parent) (grand_is : owners.grand_parent ≡ some grand)
    (calls : (f : S → S × Bool) (s : S) → Calls f s (env.conflict_retry f s))
    (parents_ok : IsClient env.parents) (grands_ok : IsClient env.grand_parents)
    (separate_grands : (s : S) (w : Workload)
      → env.parents.get (env.grand_parents.put s w).0 parent ≡ env.parents.get s parent)
    (pods_parent : KeepsPods env.pods (λ s. env.parents.get s parent))
    (pods_grand : KeepsPods env.pods (λ s. env.grand_parents.get s grand))
    (quotas_parent : KeepsQuotas quotas (λ s. env.parents.get s parent))
    (quotas_grand : KeepsQuotas quotas (λ s. env.grand_parents.get s grand))
    (schedules : (s : S)
      → (retried default_retry_short_timeout
          (env.timing s)
          (change_scheduler env.conflict_retry env.parents (some parent) true)
          s).1
        ≡ true)
    (resumes : (s : S)
      → (retried default_retry_short_timeout
          (env.timing s)
          (resource_rollout env.conflict_retry env.grand_parents grand false)
          s).1
        ≡ true) where
  abbrev ParentKept : S → S → Type 0
  ParentKept = KeptOr (λ t. env.parents.get t parent) (λ t. IsScheduled env.parents t parent)

  abbrev GrandKept : S → S → Type 0
  GrandKept = KeptOr (λ t. env.grand_parents.get t grand) (λ t. IsRolling env.grand_parents t grand)

  IsScheduled-keep :
      (s t : S)
      → env.parents.get t parent ≡ env.parents.get s parent
      → IsScheduled env.parents s parent
      → IsScheduled env.parents t parent
  IsScheduled-keep s t same (w, found, set, unmarked) = (w, same ∙ found, set, unmarked)

  IsRolling-keep :
      (s t : S)
      → env.grand_parents.get t grand ≡ env.grand_parents.get s grand
      → IsRolling env.grand_parents s grand
      → IsRolling env.grand_parents t grand
  IsRolling-keep s t same (w, found, set, unmarked) = (w, same ∙ found, set, unmarked)

  module _ (pod : Pod) (node_name : String) (retry_num : ℕ) (npod : Pod) where
    with_scheduler-parent :
        (s : S) → ParentKept s (with_scheduler env pod node_name retry_num owners npod s).0
    unfolding with_scheduler
    with_scheduler-parent s = elim (Option-cases (env.pods.list s)) [
      | inl error ↦ rw (error, with_scheduler) (inl refl)
      | inr (list, listed) ↦
          rw (listed, with_scheduler)
            (inr (
              rw parent_is (
                retried-IsScheduled env.parents parents_ok env.conflict_retry calls
                  default_retry_short_timeout _ parent _ (schedules _))))
    ]

    with_rollout-parent :
        (s : S) → ParentKept s (with_rollout env pod node_name retry_num owners npod s).0
    unfolding with_rollout
    with_rollout-parent s =
        let view = λ (t : S). env.parents.get t parent in
        let R = λ (t : S). IsScheduled env.parents t parent in
        let pause = resource_rollout env.conflict_retry env.grand_parents grand true s in
        let resume = resource_rollout env.conflict_retry env.grand_parents grand false in
        let kept_first : view pause.0 ≡ view s =
          resource_rollout-keep env.grand_parents env.conflict_retry calls view separate_grands
            grand true s in
        let kept_last : (t : S) (timing : Timing)
            → view (retried default_retry_short_timeout timing resume t).0 ≡ view t =
          λ t timing.
            Calls-keep view
              (resource_rollout-keep env.grand_parents env.conflict_retry calls view separate_grands
                grand false)
              (retried-Calls default_retry_short_timeout timing resume t) in
        rw (grand_is, with_rollout)
          (elim (Bool-cases pause.1) [
            | inl paused ↦ rw paused (
                KeptOr-then env view R IsScheduled-keep s _ _
                  (KeptOr-after view R s pause.0 _ kept_first (with_scheduler-parent pause.0))
                  (kept_last _ _))
            | inr refused ↦ rw refused (inl (kept_last _ _ ∙ kept_first))
          ])

    with_rollout-grand :
        (s : S) → GrandKept s (with_rollout env pod node_name retry_num owners npod s).0
    unfolding with_rollout
    with_rollout-grand s =
        rw (grand_is, with_rollout)
          (inr (
            retried-IsRolling env.grand_parents grands_ok env.conflict_retry calls
              default_retry_short_timeout _ grand _ (resumes _)))

  -- However a move of a pod that has a parent and a grand parent ends, with the new pod, with an error
  -- or by a refusal: the parent is as it was before, or has the default scheduler and no mark for the
  -- garbage collector, and the grand parent is as it was before, or its rollout is not paused and it
  -- has no mark. The API server accepts one of the attempts of each restoring update, updates of one
  -- workload and calls for pods and quotas do not change another workload, and nothing else changes
  -- the two meanwhile.
  pub move_pod-restored :
      (stamp : String) (pod : Pod) (node_name : String) (retry_num : ℕ)
      (fail_volume update_quota : Bool) (s : S)
      → get_pod_owners_info s ≡ some owners
      → let final =
          (move_pod env quotas get_pod_owners_info stamp pod node_name retry_num fail_volume
            update_quota s).0 in
        ((env.parents.get final parent ≡ env.parents.get s parent)
          ⊎ IsScheduled env.parents final parent)
        × ((env.grand_parents.get final grand ≡ env.grand_parents.get s grand)
            ⊎ IsRolling env.grand_parents final grand)
  move_pod-restored stamp pod node_name retry_num fail_volume update_quota s got = (
    move_pod-KeptOr env (λ t. env.parents.get t parent) (λ t. IsScheduled env.parents t parent)
        IsScheduled-keep pods_parent quotas quotas_parent get_pod_owners_info stamp pod node_name
        retry_num fail_volume update_quota s owners got
        (with_rollout-parent pod node_name retry_num),
    move_pod-KeptOr env (λ t. env.grand_parents.get t grand)
        (λ t. IsRolling env.grand_parents t grand) IsRolling-keep pods_grand quotas quotas_grand
        get_pod_owners_info stamp pod node_name retry_num fail_volume update_quota s owners got
        (with_rollout-grand pod node_name retry_num),
  )

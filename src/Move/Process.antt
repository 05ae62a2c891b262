-- ===== src/Move/Process.antt =====
-- movePod of pkg/action/executor/move_util.go: its steps, and what its deferred calls do on each way
-- out.
pub mod Frame
pub mod Restored
mod Examples
use kubeturbo.Prelude.{
  ℕ, ◌*◌, Bool, true, false, ◌&&◌, ◌||◌, not, Option, none, some, List, [], ◌∷◌, String, ◌==◌,
  string_eq, if◌then◌else◌, is_some,
}
use kubeturbo.Prelude.Dict.{Dict}
use kubeturbo.Locks.ExpirationMap.{second}
use kubeturbo.Move.Workloads.{Workload, Client, change_scheduler, resource_rollout}
use kubeturbo.Move.Workloads.Retries.{Timing, retried}
use kubeturbo.Move.Clone.{
  Pod, Template, Probe, clone_pod, is_pod_using_volume, readiness_thresholds,
  new_pending_invalid_pods,
}

abbrev pub default_retry_short_timeout : ℕ
default_retry_short_timeout = second * 20

abbrev pub default_pod_create_sleep : ℕ
default_pod_create_sleep = second * 10

-- The API server for the pods of the namespace. `create` is the creation that createClonePod polls
-- for, `wait_for_pod_ready` that of pod_util.go, with the name of the pod, the node and the
-- thresholds. `list` is parentsPods: an error, no list for a pod without controller, or a list.
pub record PodClient (S : Type 0) : Type 0 where
  pub create : S → Pod → S × Option Pod
  pub delete : S → String → S × Bool
  pub get : S → String → Option Pod
  pub update : S → Pod → S × Bool
  pub list : S → Option (Option (List Pod))
  pub wait_for_pod_ready : S → String → String → ℕ × ℕ × ℕ → S × Bool

-- What an accessor of quota_util.go and the lock of the namespace do: Get, with whether there are
-- quotas, lockForQuota, checkQuotas, Revert and ReleaseLock.
pub record QuotaSteps (S : Type 0) : Type 0 where
  pub has_quotas : S → Option Bool
  pub lock : S → S × Bool
  pub check : S → S × Bool
  pub revert : S → S
  pub release : S → S

-- getPodOwnersInfo: the names of the parent and of the grand parent, with what the steps read of the
-- object that has the pod's template: the template and the containers, or errors.
pub record Owners : Type 0 where
  pub parent : Option String
  pub grand_parent : Option String
  pub template : Option (Option Template)
  pub containers : Option (List (Option Probe))

-- The API server for the parents and the grand parents of pods and for pods; `conflict_retry` is
-- `retry.RetryOnConflict`, and `timing` the clock of a RetryDuring that begins in that state.
pub record Env (S : Type 0) : Type 0 where
  pub conflict_retry : (S → S × Bool) → S → S × Bool
  pub parents : Client S
  pub grand_parents : Client S
  pub pods : PodClient S
  pub timing : S → Timing

module _ {S : Type 0} (env : Env S) where
  open env use {conflict_retry, parents, grand_parents, pods, timing}

  -- Each pod is deleted with retries, one after the other.
  unfoldable pub delete_all : List String → S → S
  delete_all [] s = s
  delete_all (name ∷ names) s =
      delete_all names
        (retried default_retry_short_timeout (timing s) (λ t. pods.delete t name) s).0

  -- deleteInvalidPendingPods
  unfoldable pub delete_invalid_pending_pods : Option String → Option (List Pod) → S → S
  delete_invalid_pending_pods none old s = s
  delete_invalid_pending_pods (some parent) old s = elim (pods.list s) [
    | none ↦ s
    | some new ↦ delete_all (new_pending_invalid_pods new old) s
  ]

  module _ (pod : Pod) (node_name : String) (retry_num : ℕ) (owners : Owners) where
    -- Step 6: the clone gets the pod's labels.
    unfoldable pub relabel : Pod → S → S × Option Pod
    relabel npod s = elim (pods.get s npod.name) [
      | none ↦ (s, none)
      | some xpod ↦
          let xpod' = record xpod {
            labels = some (elim pod.labels [ none ↦ [] | some ls ↦ ls ]);
          } in
          let (s', done) = pods.update s xpod' in (s', if done then some xpod' else none)
    ]

    -- Steps 5, 4 without a volume, and 6.
    unfoldable pub wait_and_replace : Pod → S → S × Option Pod
    wait_and_replace npod s = elim owners.containers [
      | none ↦ (s, none)
      | some containers ↦
          let limits = readiness_thresholds containers (default_pod_create_sleep, retry_num, 0) in
          let (s', ready) = pods.wait_for_pod_ready s npod.name node_name limits in
          if not ready
          then (s', none)
          else if is_pod_using_volume pod
          then relabel npod s'
          else (let (s'', deleted) = pods.delete s' pod.name in
              if deleted then relabel npod s'' else (s'', none))
    ]

    -- Step 4 with a volume, and all steps after it.
    unfoldable pub replace : Pod → S → S × Option Pod
    replace npod s =
        let (s', deleted) = pods.delete s pod.name in
        if is_pod_using_volume pod
        then (if deleted then wait_and_replace npod s' else (s', none))
        else wait_and_replace npod s

    -- Steps 3 to 7, with the list of the parent's pods.
    unfoldable pub with_scheduler : Pod → S → S × Option Pod × Option (List Pod)
    with_scheduler npod s = elim (pods.list s) [
      | none ↦ (s, none, none)
      | some list ↦
          let (s1, changed) = change_scheduler conflict_retry parents owners.parent false s in
          let (s2, result) = if changed then replace npod s1 else (s1, none) in
          let back = change_scheduler conflict_retry parents owners.parent true in
          ((retried default_retry_short_timeout (timing s2) back s2).0, result, list)
    ]

    -- Steps 2 to 8.
    unfoldable pub with_rollout : Pod → S → S × Option Pod × Option (List Pod)
    with_rollout npod s = elim owners.grand_parent [
      | none ↦ with_scheduler npod s
      | some grand ↦
          let (s1, paused) = resource_rollout conflict_retry grand_parents grand true s in
          let (s2, result, list) = if paused then with_scheduler npod s1 else (s1, none, none) in
          let resume = resource_rollout conflict_retry grand_parents grand false in
          ((retried default_retry_short_timeout (timing s2) resume s2).0, result, list)
    ]

    -- All steps with the clone: it is deleted unless its labels were set.
    unfoldable pub with_clone : Pod → S → S × Option Pod
    with_clone npod s =
        let (s1, result, list) = with_rollout npod s in
        let s2 = if is_some result then s1 else (pods.delete s1 npod.name).0 in
        (delete_invalid_pending_pods owners.parent list s2, result)

    -- Step 1 and all steps after it.
    unfoldable pub clone_and_move : String → S → S × Option Pod
    clone_and_move stamp s = elim owners.template [
      | none ↦ (s, none)
      | some template ↦
          let (s', created) = pods.create s (clone_pod stamp pod template node_name) in
          elim created [ none ↦ (s', none) | some npod ↦ with_clone npod s' ]
    ]

  module _ (quotas : QuotaSteps S) where
    -- The quotas around the rest of the move.
    unfoldable pub with_quotas : (S → S × Option Pod) → S → S × Option Pod
    with_quotas move s = elim (quotas.has_quotas s) [
      | none ↦ (s, none)
      | some false ↦ move s
      | some true ↦
          let (s1, locked) = quotas.lock s in
          let (s2, checked) = quotas.check s1 in
          let (s3, result) = move s2 in
          if not locked
          then (s1, none)
          else if not checked
          then (quotas.release s2, none)
          else (quotas.release (quotas.revert s3), result)
    ]

    -- `get_pod_owners_info` may return an error. The result is the new pod, or none with an error.
    unfoldable pub move_pod :
        (get_pod_owners_info : S → Option Owners) (stamp : String) (pod : Pod) (node_name : String)
        (retry_num : ℕ) (fail_volume_pod_moves update_quota_to_allow_moves : Bool)
        → S
        → S × Option Pod
    move_pod get_pod_owners_info stamp pod node_name retry_num fail_volume update_quota s =
        if is_pod_using_volume pod && fail_volume then (s, none) else elim (get_pod_owners_info s) [
          | none ↦ (s, none)
          | some owners ↦
              let move = clone_and_move pod node_name retry_num owners stamp in
              if update_quota then with_quotas move s else move s
        ]

-- ===== src/Resize/Scale/Exact.antt =====
-- The number of replicas that a horizontal scale of pkg/action/executor/horizontal_scaler.go leaves.
use kubeturbo.Prelude.{
  ℕ, ◌+◌, ◌-◌, ◌<◌, ◌≡◌, ◌≢◌, suc, refl, ◌∙◌, Bool, true, Option, some, none, [], String, ◌==◌,
  nat_eq, string_eq, arith, Bool-cases, inl, inr,
}
use kubeturbo.Owner.{Pod, OwnerInfo}
use kubeturbo.Handler.{horizontal_scale}
use kubeturbo.Locks.Retry.{Attempt, success, succeeded as done, retry_loop, retry_during}
use kubeturbo.Resize.Updater.{
  ControllerState, ControllerSpec, int32_mod, is_negative, suspend_pod, update, attempt,
  retry_timeout, update_with_retry,
}
use kubeturbo.Resize.Replicas.{plus, minus, InRange, suspended, update-replicas}
use kubeturbo.Resize.Scale.{
  ScaleItem, Commodity, pos, number_replicas, int32_diff, replicas_of, get_replica_diff, succeeded,
  outcome, execute, updater_for, new_k8s_controller_updater,
}
use kubeturbo.Resize.Scale.Controller.{
  Resource, WorkloadController, ControllerInfo, get_supported_res_using_kind,
  get_workload_controller_info,
}

abbrev pub replicas : ℕ → Commodity
replicas n = record { commodity_type = number_replicas; capacity = pos n }

-- The action that scales the controller from `old` replicas to `new`.
abbrev pub scaling : WorkloadController → (old new : ℕ) → ScaleItem
scaling target old new = record {
  action_type = horizontal_scale;
  target_se = some target;
  current_comm = some (replicas old);
  new_comm = some (replicas new);
}

-- The difference and what an addition of it comes to.
abbrev IsExact : (old new n diff : ℕ) → Type 0
IsExact old new n diff =
    (diff < int32_mod) × (diff ≢ 0) × InRange n diff × (n + plus diff - minus diff ≡ n + new - old)

int32_diff-IsExact :
    (old new n : ℕ)
    → old < 2147483648
    → new < 2147483648
    → old ≢ new
    → old < n + new
    → n + new < 2147483648 + old
    → IsExact old new n (int32_diff new old)
unfolding int32_diff
int32_diff-IsExact old new n old_small new_small differ low high =
    elim (Bool-cases (is_negative (int32_diff new old))) [
      | inl negative ↦ ground arith
      | inr positive ↦ ground arith
    ]

retry_loop_once :
    {S : Type 0} (attempts timeout t0 : ℕ) (clock : ℕ → ℕ) (body : ℕ → S → S × Attempt) (fuel i : ℕ)
    (s s' : S)
    → body i s ≡ (s', success)
    → retry_loop attempts timeout t0 clock body (suc fuel) i s ≡ some (s', i, done)
unfolding retry_loop
retry_loop_once attempts timeout t0 clock body fuel i s s' e = ground arith

scaling-diff :
    (target : WorkloadController) (old new : ℕ)
    → get_replica_diff (scaling target old new) ≡ some (int32_diff new old)
unfolding get_replica_diff replicas_of
scaling-diff target old new = refl

update_with_retry_once :
    {Server : Type 0} (get_pod : Server → String → String → Bool)
    (delete_pod : Server → String → String → Server × Bool)
    (get : Server → Server × Option ControllerState)
    (put : Server → ControllerState → Server × Attempt) (namespace pod_name : String)
    (between : ℕ → Server → Server) (clock : ℕ → ℕ) (t0 : ℕ) (desired : ControllerSpec)
    (s after : Server)
    → update get_pod delete_pod get put namespace pod_name (between 0 s) desired ≡ (after, success)
    → update_with_retry get_pod delete_pod get put namespace pod_name between clock t0 desired s
      ≡ some (after, 0, done)
unfolding update_with_retry retry_during attempt
update_with_retry_once get_pod delete_pod get put namespace pod_name between clock t0 desired s
      after updated =
    retry_loop_once 3 (retry_timeout get_pod delete_pod get put namespace pod_name) t0 clock
      (attempt get_pod delete_pod get put namespace pod_name between desired) 3 0 s after updated

module _ {Server : Type 0} (controller_info : Server → Pod → Option OwnerInfo)
    (get_pod : Server → String → String → Bool)
    (delete_pod : Server → String → String → Server × Bool)
    (get : Resource → String → String → Server → Server × Option ControllerState)
    (put : Resource → String → String → Server → ControllerState → Server × Attempt) where
  suspended_unnamed :
      (res : Resource) (namespace name : String) (s : Server) (diff : ℕ)
      → suspended get_pod delete_pod
          (get res namespace name)
          (put res namespace name)
          namespace
          ""
          s
          diff
        ≡ (s, true)
  unfolding suspend_pod
  suspended_unnamed res namespace name s diff = elim (Bool-cases (is_negative diff)) [
    | inl negative ↦ elim (Bool-cases (namespace == "")) [
      | inl nameless ↦ rw (negative, nameless) refl
      | inr named ↦ rw (negative, named) refl
    ]
    | inr positive ↦ rw positive refl
  ]

  scaling-updater :
      (target : WorkloadController) (info : ControllerInfo) (res : Resource) (old new : ℕ)
      (pod : Option Pod) (s : Server)
      → get_workload_controller_info (some target) ≡ some info
      → get_supported_res_using_kind info.kind ≡ some res
      → updater_for controller_info get_pod delete_pod get put s (scaling target old new) pod
        ≡ some
            (record { resource = res; name = info.name; namespace = info.namespace; pod_name = "" })
  unfolding updater_for new_k8s_controller_updater
  scaling-updater target info res old new none s known supported = ground arith
  scaling-updater target info res old new (some pod) s known supported = ground arith

  update_unnamed :
      (res : Resource) (namespace name : String) (s read after : Server) (current : ControllerState)
      (old new diff : ℕ)
      → get res namespace name s ≡ (read, some current)
      → current.replicas < 2147483648
      → IsExact old new current.replicas diff
      → put res namespace name read (record current { replicas = current.replicas + new - old })
        ≡ (after, success)
      → update get_pod delete_pod
          (get res namespace name)
          (put res namespace name)
          namespace
          ""
          s
          (record { replicas_diff = diff; resize_specs = [] })
        ≡ (after, success)
  update_unnamed res namespace name s read after current old new diff got small exact stored =
      let updated =
        update-replicas get_pod delete_pod (get res namespace name) (put res namespace name)
          namespace "" s read current (record { replicas_diff = diff; resize_specs = [] }) got small
          exact.0 exact.1 in
      updated.0 exact.2 ∙ rw (suspended_unnamed res namespace name read diff, exact.3, stored) refl

  -- What a horizontal scale of a known controller makes of its `get` and `update`.
  pub execute_once :
      (between : ℕ → Server → Server) (clock : ℕ → ℕ) (t0 : ℕ) (target : WorkloadController)
      (info : ControllerInfo) (res : Resource) (old new : ℕ) (current : ControllerState)
      (pod : Option Pod) (s read after : Server)
      → get_workload_controller_info (some target) ≡ some info
      → get_supported_res_using_kind info.kind ≡ some res
      → old < 2147483648
      → new < 2147483648
      → old ≢ new
      → get res info.namespace info.name (between 0 s) ≡ (read, some current)
      → current.replicas < 2147483648
      → old < current.replicas + new
      → current.replicas + new < 2147483648 + old
      → put res info.namespace info.name read
          (record current { replicas = current.replicas + new - old })
        ≡ (after, success)
      → execute controller_info get_pod delete_pod get put between clock t0
          (scaling target old new)
          pod
          s
        ≡ some (after, succeeded)
  unfolding execute outcome
  execute_once between clock t0 target info res old new current pod s read after known supported
        old_small new_small differ got small low high stored =
      let exact = int32_diff-IsExact old new current.replicas old_small new_small differ low high in
      let known_diff = scaling-diff target old new in
      let known_updater = scaling-updater target info res old new pod s known supported in
      let updated =
        update_with_retry_once get_pod delete_pod (get res info.namespace info.name)
          (put res info.namespace info.name) info.namespace "" between clock t0
          (record { replicas_diff = int32_diff new old; resize_specs = [] }) s after
          (update_unnamed res info.namespace info.name (between 0 s) read after current old new
            (int32_diff new old) got small exact stored) in
      ground arith

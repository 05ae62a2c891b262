-- ===== src/Resize/Updater.antt =====
-- pkg/action/executor/k8s_controller_updater.go: the update of a workload controller, to another
-- number of replicas or to other resources of its containers.
use kubeturbo.Prelude.{
  ℕ, ◌+◌, ◌%◌, Bool, true, false, ◌||◌, not, Option, none, some, List, String, ◌==◌, nat_eq,
  string_eq, if◌then◌else◌, leb,
}
use kubeturbo.Resize.{Container, ContainerResizeSpec, update_resource_amount}
use kubeturbo.Locks.Retry.{Attempt, success, failed, RetryResult, retry_during}

-- An int32 is its bit pattern, below 2^32.
abbrev pub int32_mod : ℕ
int32_mod = 4294967296

abbrev pub is_negative : ℕ → Bool
is_negative n = leb 2147483648 n

abbrev pub add_int32 : ℕ → ℕ → ℕ
add_int32 a b = (a + b) % int32_mod

-- The part of a controller that the update reads and writes, `k8sControllerSpec`.
pub record ControllerState : Type 0 where
  pub replicas : ℕ
  pub containers : List Container

pub record ControllerSpec : Type 0 where
  pub replicas_diff : ℕ
  pub resize_specs : List ContainerResizeSpec

-- The cluster: whether it has the pod and the deletion of a pod, with whether it succeeds; and the
-- methods `get` and `update` of the interface k8sController, which are those of parentController in
-- k8s_controller.go. `get` gives what it reads of the controller, or an error. `put` is `update`: what
-- becomes of the state it is given, which need not reach the controller, is up to its kind and to
-- who manages it, and an error may ask for no retry. What the controller keeps between the two calls,
-- the object that it read, is part of the state.
module _ {Server : Type 0} (get_pod : Server → String → String → Bool)
    (delete_pod : Server → String → String → Server × Bool)
    (get : Server → Server × Option ControllerState)
    (put : Server → ControllerState → Server × Attempt) (namespace pod_name : String) where
  unfoldable pub suspend_pod : Server → Server × Bool
  suspend_pod s =
      if namespace == "" || pod_name == ""
      then (s, true)
      else if not (get_pod s namespace pod_name)
      then (s, false)
      else delete_pod s namespace pod_name

  -- The new number of replicas, or `none` with an error.
  unfoldable pub suspend_or_provision : Server → ℕ → ℕ → Server × Option ℕ
  suspend_or_provision s current diff =
      let result = add_int32 current diff in
      if is_negative result || result == 0
      then (s, none)
      else (let (s', done) = suspend_pod s in
          if is_negative diff
          then (if done then (s', some result) else (s', none))
          else (s, some result))

  -- The new state and whether it differs, or `none` with an error.
  unfoldable pub reconcile :
      Server → ControllerState → ControllerSpec → Server × Option (ControllerState × Bool)
  reconcile s current desired =
      if not (desired.replicas_diff == 0)
      then (let (s', result) = suspend_or_provision s current.replicas desired.replicas_diff in
          (
            s',
            elim result [ none ↦ none | some num ↦ some (record current { replicas = num }, true) ],
          ))
      else (let (cs, updated) =
            update_resource_amount current.containers desired.resize_specs false in
          (s, some (record current { containers = cs }, updated)))

  -- No error is a success.
  unfoldable pub update : Server → ControllerSpec → Server × Attempt
  update s desired =
      let (s', read) = get s in
      elim read [
        | none ↦ (s', failed)
        | some current ↦
            let (s'', result) = reconcile s' current desired in
            elim result [
              | none ↦ (s'', failed)
              | some (state, updated) ↦ if updated then put s'' state else (s'', success)
            ]
      ]

  -- What one attempt of the retries does; `between i` is what happens to the server before it.
  unfoldable pub attempt : (ℕ → Server → Server) → ControllerSpec → ℕ → Server → Server × Attempt
  attempt between desired i s = update (between i s) desired

  abbrev pub default_execution_retry : ℕ
  default_execution_retry = 3

  -- `timeout` is `(retryNum+1) * interval`, with the interval of twenty seconds in nanoseconds.
  abbrev pub retry_timeout : ℕ
  retry_timeout = 80000000000

  unfoldable pub update_with_retry :
      (ℕ → Server → Server)
      → (clock : ℕ → ℕ) → (t0 : ℕ) → ControllerSpec
      → Server
      → Option (Server × ℕ × RetryResult)
  update_with_retry between clock t0 desired s =
      retry_during default_execution_retry retry_timeout t0 clock (attempt between desired) s

-- ===== src/Locks/ActionLockStore.antt =====
-- pkg/action/action_lock_store.go: the lock of an action, by the controller of the pod it is about.
pub mod Keys
use Prim.Native.String.{◌++◌ as str_append}
use kubeturbo.Prelude.{
  ℕ, ◌+◌, ◌*◌, Bool, true, false, Option, none, some, List, [], ◌∷◌, String, if◌then◌else◌,
}
use kubeturbo.Owner.{Pod, Container, OwnerInfo, get_pod_parent_info, is_owner_info_empty}
use kubeturbo.Locks.ExpirationMap.{second}
use kubeturbo.Locks.ExpirationMap.Steps.{Event}
use kubeturbo.Locks.Retry.{RetryResult, succeeded, skipped, timed_out, exhausted}
use kubeturbo.Locks.LockHelper.{LockHelper, LockMap, new_lock_helper, trylock}

-- A value, an error, or a panic for an index out of range.
pub data Result (A : Type 0) : Type 0 where
  ok : A → Result A
  err : Result A
  panic : Result A

abbrev pub default_wait_lock_time_out : ℕ
default_wait_lock_time_out = second * 300

-- `Containers[0]`
unfoldable pub bare_pod_key : List Container → Result String
bare_pod_key [] = panic
bare_pod_key (c ∷ cs) = ok (str_append c.image c.name)

-- "%v-%v/%v"
unfoldable pub owner_key : OwnerInfo → String → String
owner_key owner namespace =
    str_append owner.kind (str_append "-" (str_append namespace (str_append "/" owner.name)))

-- The clock and the other goroutines' operations during the wait, as for `trylock`.
module _ {Call : Type 0} (noop : Call) (t0 : ℕ) (now after : ℕ → ℕ)
    (between : ℕ → List (Event String Call)) where
  -- The shared map afterwards, and the helper that has the lock.
  abbrev pub waited :
      LockMap noop
      → Option ((LockMap noop × LockHelper) × ℕ × RetryResult)
      → LockMap noop × Result LockHelper
  waited emap none = (emap, err)
  waited emap (some ((emap', h), i, succeeded)) = (emap', ok h)
  waited emap (some ((emap', h), i, _)) = (emap', err)

  unfoldable pub get_lock_helper : String → LockMap noop → LockMap noop × Result LockHelper
  get_lock_helper key emap = elim (new_lock_helper noop key emap) [
    | none ↦ (emap, err)
    | some helper ↦
        waited emap (trylock noop default_wait_lock_time_out t0 now after between emap helper)
  ]

module _ (unmarshal : String → Option OwnerInfo) where
  unfoldable pub get_pod_lock_key : Pod → Result String
  get_pod_lock_key pod = elim (get_pod_parent_info unmarshal pod) [
    | none ↦ err
    | some owner ↦
        if is_owner_info_empty owner
        then bare_pod_key pod.containers
        else ok (owner_key owner pod.namespace)
  ]

  -- `podFunc` is a function that the store is given; it returns an error, no pod, or a pod. The id
  -- is that of the action's target.
  module _ {ActionItem : Type 0} (pod_func : ActionItem → Result (Option Pod))
      (target_id : ActionItem → String) where
    unfoldable pub get_lock_key : ActionItem → Result String
    get_lock_key item = elim (pod_func item) [
      | err ↦ err
      | panic ↦ panic
      | ok none ↦ ok (target_id item)
      | ok (some pod) ↦ get_pod_lock_key pod
    ]

    unfoldable pub get_lock :
        {Call : Type 0} (noop : Call) (t0 : ℕ) (now after : ℕ → ℕ)
        (between : ℕ → List (Event String Call))
        → ActionItem
        → LockMap noop
        → LockMap noop × Result LockHelper
    get_lock noop t0 now after between item emap = elim (get_lock_key item) [
      | ok key ↦ get_lock_helper noop t0 now after between key emap
      | err ↦ (emap, err)
      | panic ↦ (emap, panic)
    ]

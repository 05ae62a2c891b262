-- ===== src/Handler.antt =====
-- pkg/action/action_handler.go: how an action of the market is carried out, under the lock of its pod.
pub mod Pods
pub mod Locking
mod Examples
use kubeturbo.Prelude.{
  ℕ, Bool, true, false, ◌||◌, Option, none, some, List, [], ◌∷◌, String, if◌then◌else◌,
}
use kubeturbo.Owner.{Pod, OwnerInfo}
use kubeturbo.Locks.ExpirationMap.{del}
use kubeturbo.Locks.ExpirationMap.Steps.{Event, run}
use kubeturbo.Locks.LockHelper.{
  LockHelper, LockMap, Round, keep_renew_lock, release_lock, renew_rounds,
}
use kubeturbo.Locks.LockHelper.{Result as Released, ok as released, panic as release_panics}
use kubeturbo.Locks.ActionLockStore.{Result, ok, err, panic, get_lock}
use kubeturbo.Handler.Pods.{
  PodObject, PodsGetter, PodCache, cache_pod, get_pod_from_display_name_or_uuid,
}

-- The types that the code names; the number stands for any other.
pub data ActionType : Type 0 where
  provision suspend horizontal_scale move right_size : ActionType
  other_action : ℕ → ActionType

pub data EntityType : Type 0 where
  container_pod workload_controller container virtual_machine : EntityType
  other_entity : ℕ → EntityType

pub record Entity : Type 0 where
  pub entity_type : EntityType
  pub id : String
  pub display_name : String

-- A nil pointer is `none`.
pub record ActionItem : Type 0 where
  pub action_type : ActionType
  pub target_se : Option Entity
  pub hosted_by_se : Option Entity

-- What is registered for a type.
pub data Executor : Type 0 where
  re_scheduler horizontal_scaler container_resizer controller_resizer machine_scaler : Executor

-- The map that `registerActionExecutors` fills, by the type of the action and of its target.
unfoldable pub action_executors : ActionType → EntityType → Option Executor
action_executors move container_pod = some re_scheduler
action_executors provision container_pod = some horizontal_scaler
action_executors suspend container_pod = some horizontal_scaler
action_executors horizontal_scale workload_controller = some horizontal_scaler
action_executors right_size container = some container_resizer
action_executors right_size workload_controller = some controller_resizer
action_executors provision virtual_machine = some machine_scaler
action_executors suspend virtual_machine = some machine_scaler
action_executors _ _ = none

-- What `getRelatedPod` does for a type.
pub data Related : Type 0 where
  hosted_by target no_pod unsupported : Related

unfoldable pub related : ActionType → EntityType → Related
related right_size container = hosted_by
related move container_pod = target
related provision container_pod = target
related suspend container_pod = target
related horizontal_scale workload_controller = no_pod
related provision virtual_machine = no_pod
related suspend virtual_machine = no_pod
related _ _ = unsupported

abbrev pub is_pod_relevant : EntityType → Bool
is_pod_relevant container_pod = true
is_pod_relevant container = true
is_pod_relevant _ = false

pub record Output : Type 0 where
  pub succeeded : Bool
  pub old_pod : Option PodObject
  pub new_pod : Option PodObject

pub data State : Type 0 where
  succeeded failed : State

-- The response, without its text.
pub record ActionResult : Type 0 where
  pub state : State
  pub progress : ℕ

abbrev pub good_result : ActionResult
good_result = record { state = succeeded; progress = 100 }

abbrev pub failed_result : ActionResult
failed_result = record { state = failed; progress = 0 }

-- The cache of the pod manager, and the rest of the cluster.
pub record World (C : Type 0) : Type 0 where
  pub cache : PodCache
  pub cluster : C

-- What the getters of a nil entity return.
module _ (nil_entity : Entity) where
  abbrev pub target_of : ActionItem → Entity
  target_of item = elim item.target_se [ none ↦ nil_entity | some entity ↦ entity ]

  abbrev pub is_pod_relevant_action : ActionItem → Bool
  is_pod_relevant_action item = is_pod_relevant (target_of item).entity_type

  -- `checkActionExecutionDTO`: whether there is no error. A nil item is `none`.
  unfoldable pub check_action_execution_dto : List (Option ActionItem) → Bool
  check_action_execution_dto [] = false
  check_action_execution_dto (none ∷ items) = false
  check_action_execution_dto (some item ∷ items) = elim item.target_se [
    | none ↦ false
    | some entity ↦ elim (action_executors item.action_type entity.entity_type) [
      | none ↦ false
      | some executor ↦ true
    ]
  ]

  module _ {C : Type 0} (getter : C → PodsGetter) where
    abbrev pub found_pod : Option PodObject → Result (Option Pod)
    found_pod none = err
    found_pod (some p) = ok (some p.pod)

    abbrev pub pod_of_entity : World C → Option Entity → Result (Option Pod)
    pod_of_entity w none = err
    pod_of_entity w (some entity) =
        found_pod (
          get_pod_from_display_name_or_uuid (getter w.cluster) w.cache entity.display_name
            entity.id)

    unfoldable pub get_related_pod : World C → ActionItem → Result (Option Pod)
    unfolding related
    get_related_pod w item = elim (related item.action_type (target_of item).entity_type) [
      | hosted_by ↦ pod_of_entity w item.hosted_by_se
      | target ↦ pod_of_entity w item.target_se
      | no_pod ↦ ok none
      | unsupported ↦ err
    ]

  unfoldable pub process_output : PodCache → Option Output → PodCache
  process_output cache none = cache
  process_output cache (some output) = elim output.succeeded [
    | false ↦ cache
    | true ↦ elim output.old_pod [
      | none ↦ cache
      | some old ↦ elim output.new_pod [ none ↦ cache | some new ↦ cache_pod cache old new ]
    ]
  ]

  -- The executors are parameters: the input, the world before, the world after, and the output, which
  -- may be nil, or an error.
  module _ {C : Type 0} (getter : C → PodsGetter)
      (worker : Executor
        → List (Option ActionItem)
        → Option Pod
        → World C
        → World C × Option (Option Output)) where
    abbrev pub worked : World C × Option (Option Output) → World C × Result (Unit {0})
    worked (w, none) = (w, err)
    worked (w, some output) = (record w { cache = process_output w.cache output }, ok tt)

    -- A call of the nil executor panics.
    unfoldable pub work :
        ActionItem → List (Option ActionItem) → Option Pod → World C → World C × Result (Unit {0})
    unfolding process_output
    work item items pod w = elim (action_executors item.action_type (target_of item).entity_type) [
      | none ↦ (w, panic)
      | some executor ↦ worked (worker executor items pod w)
    ]

    -- The pod is read again, once the lock is there.
    unfoldable pub work_on_pod :
        ActionItem → List (Option ActionItem) → World C → World C × Result (Unit {0})
    unfolding work get_related_pod
    work_on_pod item items w = elim (get_related_pod getter w item) [
      | err ↦ (w, err)
      | panic ↦ (w, panic)
      | ok pod ↦ work item items pod w
    ]

    -- The lock: as for `getLock`, and what happens to the cluster during the wait, the rounds of the
    -- goroutine that renews the lock until the return, and the events in the lock map after the last.
    module _ {Call : Type 0} (noop : Call) (unmarshal : String → Option OwnerInfo) (t0 : ℕ)
        (now after : ℕ → ℕ) (between : ℕ → List (Event String Call)) (wait : World C → World C)
        (rounds : List (Round noop)) (last : List (Event String Call)) where
      -- The deferred `ReleaseLock`. Where it panics, the entry is deleted already.
      abbrev pub after_release :
          World C × Result (Unit {0})
          → LockMap noop
          → Released (LockMap noop × LockHelper)
          → World C × LockMap noop × Result (Unit {0})
      after_release done emap (released r) = (done.0, r.0, done.1)
      after_release done emap release_panics = (done.0, emap, panic)

      abbrev pub unlock :
          LockMap noop
          → LockHelper
          → World C × Result (Unit {0})
          → World C × LockMap noop × Result (Unit {0})
      unlock emap h done =
          after_release done (del emap h.key h.version).0 (release_lock noop emap h)

      abbrev pub lock_item : World C → LockMap noop → ActionItem → LockMap noop × Result LockHelper
      lock_item w emap item =
          get_lock unmarshal (get_related_pod getter w) (λ i. (target_of i).id) noop t0 now after
            between item emap

      abbrev pub under_lock :
          ActionItem
          → List (Option ActionItem)
          → World C
          → LockMap noop × Result LockHelper
          → World C × LockMap noop × Result (Unit {0})
      under_lock item items w (emap, err) = (w, emap, err)
      under_lock item items w (emap, panic) = (w, emap, panic)
      under_lock item items w (emap, ok h) =
          unlock (run (renew_rounds noop emap h rounds).0 last) (keep_renew_lock noop h)
            (work_on_pod item items (wait w))

      -- An index out of range and the getters' results for a nil item do not occur after the check.
      unfoldable pub execute :
          List (Option ActionItem)
          → World C
          → LockMap noop
          → World C × LockMap noop × Result (Unit {0})
      unfolding work_on_pod
      execute [] w emap = (w, emap, panic)
      execute (none ∷ items) w emap = (w, emap, panic)
      execute (some item ∷ items) w emap =
          if is_pod_relevant_action item
          then under_lock item (some item ∷ items) w (lock_item w emap item)
          else (let (w', r) = work item (some item ∷ items) none w in (w', emap, r))

      abbrev pub result_of : Result (Unit {0}) → Option ActionResult
      result_of (ok u) = some good_result
      result_of err = some failed_result
      result_of panic = none

      -- `ExecuteAction`, without the progress that it reports; no result is a panic.
      unfoldable pub execute_action :
          List (Option ActionItem)
          → World C
          → LockMap noop
          → World C × LockMap noop × Option ActionResult
      unfolding execute
      execute_action items w emap =
          if check_action_execution_dto items
          then (let (w', emap', r) = execute items w emap in (w', emap', result_of r))
          else (w, emap, some failed_result)

-- ===== src/Handler/Examples.antt =====
-- A move of a pod, and a second action on it, as pkg/action carries them out.
use kubeturbo.Prelude.{
  ℕ, ◌+◌, ◌≡◌, ◌≢◌, refl, sym, ◌∙◌, false≢true, true, false, Option, none, some, List, [], ◌∷◌,
  String, ◌==◌, string_eq, if◌then◌else◌, arith,
}
use kubeturbo.Prelude.Dict.{lookup, insert, delete}
use kubeturbo.Prelude.Text.{split, before_first, is_space, trim_left, trim_right}
use kubeturbo.Owner.{
  Pod, OwnerInfo, OwnerReference, is_controller, is_valid_owner, owner_loop, get_owner_info,
  get_pod_parent_info, is_owner_info_empty,
}
use kubeturbo.Locks.ExpirationMap.{Node, add}
use kubeturbo.Locks.ExpirationMap.Steps.{Event, run}
use kubeturbo.Locks.ExpirationMap.Exclusive.{HeldUntil}
use kubeturbo.Locks.Retry.{retry_loop, retry_during}
use kubeturbo.Locks.LockHelper.{
  LockHelper, LockMap, Round, new_lock_helper, acquire_lock, try_once, trylock, renew_rounds,
}
use kubeturbo.Locks.ActionLockStore.{
  ok, owner_key, get_pod_lock_key, get_lock_key, get_lock_helper, get_lock,
}
use kubeturbo.Handler.Pods.{
  PodObject, PodsGetter, PodCache, trimmed, parse_pod_display_name, cache_pod, get_latest_value,
  get_pod_in_phase, get_running_pod, get_pod_from_display_name_or_uuid,
}
use kubeturbo.Handler.Pods.Renamed.{Renamed, cache_pod-get_pod}
use kubeturbo.Handler.{
  ActionItem, Entity, Executor, Output, World, container_pod, other_entity, move, related,
  action_executors, check_action_execution_dto, get_related_pod, lock_item, work_on_pod, result_of,
  execute_action,
}
use kubeturbo.Handler.Locking.{execute_action-released}

abbrev owner : OwnerReference
owner = record { kind = "ReplicaSet"; name = "web"; uid = "u"; controller = some true }

abbrev pod_named : String → String → PodObject
pod_named name uid = record {
  uid = uid;
  phase = "Running";
  pod = record {
    namespace = "shop";
    name = name;
    owner_references = owner ∷ [];
    annotations = [];
    containers = [];
  };
}

abbrev web : PodObject
web = pod_named "web-1" "uid-1"

abbrev moved : PodObject
moved = pod_named "web-1c" "uid-2"

-- The pods that are there, by name.
abbrev getter : List PodObject → PodsGetter
getter pods = record {
  get = λ namespace name. some (named name pods);
  list_in_phase = λ namespace phase. some pods;
}
  where
    named : String → List PodObject → Option PodObject
    named name [] = none
    named name (p ∷ ps) = if p.pod.name == name then some p else named name ps

abbrev nil_entity : Entity
nil_entity = record { entity_type = other_entity 0; id = ""; display_name = "" }

abbrev item : ActionItem
item = record {
  action_type = move;
  target_se =
      some (record { entity_type = container_pod; id = "uid-1"; display_name = "shop/web-1" });
  hosted_by_se = none;
}

abbrev before : World (List PodObject)
before = record { cache = []; cluster = web ∷ [] }

abbrev output : Output
output = record { succeeded = true; old_pod = some web; new_pod = some moved }

abbrev worker :
    Executor
    → List (Option ActionItem)
    → Option Pod
    → World (List PodObject)
    → World (List PodObject) × Option (Option Output)
worker executor items pod w = (record w { cluster = moved ∷ [] }, some (some output))

-- The number stands for the callback.
abbrev noop : ℕ
noop = 0

abbrev emap : LockMap noop
emap = record { items = []; generation = 0; ttl = 4000000000 }

abbrev entry : Node String ℕ
entry = record { obj = "ReplicaSet-shop/web"; version = 1; expire = 4000000005; call_back = 0 }

abbrev locked_map : LockMap noop
locked_map = record {
  items = ("ReplicaSet-shop/web", entry) ∷ [];
  generation = 1;
  ttl = 4000000000;
}

abbrev helper : LockHelper
helper = record { key = "ReplicaSet-shop/web"; version = 1; stop = false; is_renewing = false }

abbrev five : ℕ → ℕ
five i = 5

abbrev nothing : ℕ → List (Event String ℕ)
nothing i = []

abbrev unmarshal : String → Option OwnerInfo
unmarshal s = none

abbrev rounds : List (Round noop)
rounds = record { between = []; stopped = false; now = 2000000005; again = 2000000006 } ∷ []

abbrev stays : World (List PodObject) → World (List PodObject)
stays w = w

locked :
    lock_item nil_entity getter worker noop unmarshal 4 five five nothing stays rounds [] before
      emap item
    ≡ (locked_map, ok helper)
unfolding get_related_pod related get_pod_from_display_name_or_uuid get_running_pod get_latest_value
    get_pod_in_phase parse_pod_display_name trimmed split before_first is_space trim_left trim_right
    lookup get_lock get_lock_key get_pod_lock_key get_pod_parent_info get_owner_info owner_loop
    is_valid_owner is_controller is_owner_info_empty owner_key get_lock_helper new_lock_helper
    trylock retry_during retry_loop try_once acquire_lock add run insert
locked = refl

valid : check_action_execution_dto nil_entity (some item ∷ []) ≡ true
unfolding check_action_execution_dto action_executors
valid = refl

execute_action-released_example :
    (let m : LockMap noop = run (renew_rounds noop locked_map helper rounds).0 [] in
      let done = work_on_pod nil_entity getter worker item (some item ∷ []) before in
      HeldUntil m "ReplicaSet-shop/web" 1 (2000000006 + 4000000000)
      × (execute_action nil_entity getter worker noop unmarshal 4 five five nothing stays rounds []
            (some item ∷ [])
            before
            emap
          ≡ (
            done.0,
            record m { items = delete "ReplicaSet-shop/web" m.items },
            result_of nil_entity getter worker noop unmarshal 4 five five nothing stays rounds []
                done.1,
          )))
unfolding lookup
execute_action-released_example =
    execute_action-released nil_entity getter worker noop unmarshal 4 five five nothing stays rounds
      [] item [] before emap locked_map helper 5 0 valid refl locked refl (refl, omega arith)
      (omega arith) (omega arith) (refl, omega arith, omega arith, omega arith, tt, tt, tt) tt tt

-- The pod was moved before, from "web-0".
abbrev cached : PodCache
cached = ("web-0", "web-1") ∷ ("uid-0", "uid-1") ∷ []

cached-Renamed : Renamed cached 1 "web-0" "web-1"
unfolding lookup
cached-Renamed = ("web-1", refl, (refl, refl))

cached-fresh : (lookup "uid-1" cached ≡ none) × (lookup "web-1c" cached ≡ none)
unfolding lookup
cached-fresh = (refl, refl)

parsed : parse_pod_display_name "shop/web-0" ≡ some ("shop", "web-0")
unfolding parse_pod_display_name trimmed split before_first is_space trim_left trim_right
parsed = refl

apart : (a b : String) → (a == b) ≡ false → a ≢ b
apart a b differ same = false≢true (sym differ ∙ (string_eq.beq_iff a b).1 same)

cache_pod-get_pod_example :
    get_pod_from_display_name_or_uuid
      (getter (moved ∷ []))
      (cache_pod cached web moved)
      "shop/web-0"
      "uid-0"
    ≡ some moved
cache_pod-get_pod_example =
    cache_pod-get_pod cached web moved cached-fresh.0 cached-fresh.1 (apart "web-1" "web-1c" refl)
      (apart "uid-1" "uid-2" refl) (apart "uid-1" "web-1" refl) (apart "uid-1" "web-1c" refl)
      (getter (moved ∷ [])) 1 "shop/web-0" "shop" "web-0" "uid-0" cached-Renamed (omega arith)
      parsed refl refl

-- ===== src/Locks/HelperExamples.antt =====
-- Lock helpers of pkg/action/util at small maps, and the actions' keys of pkg/action.
use kubeturbo.Prelude.{
  ℕ, ◌+◌, ◌<◌, ◌≤◌, ◌≡◌, ◌↔◌, All, refl, true, false, inr, Option, none, some, List, [], ◌∷◌,
  String, arith, string_eq, nat_eq, zero, suc, if◌then◌else◌, nat_beq,
}
use kubeturbo.Prelude.Dict.{lookup, insert, delete}
use kubeturbo.Owner.{
  Pod, OwnerInfo, OwnerReference, no_owner, is_controller, is_valid_owner, owner_loop,
  get_owner_info, get_pod_parent_info,
}
use kubeturbo.Owner.Choice.{first, is_managing, IncompleteOwner}
use kubeturbo.Locks.ExpirationMap.{Node, add, expire_item}
use kubeturbo.Locks.ExpirationMap.Steps.{Event, adds, dels, expires, run}
use kubeturbo.Locks.ExpirationMap.Exclusive.{HeldUntil}
use kubeturbo.Locks.ExpirationMap.Invariant.{IsValid}
use kubeturbo.Locks.Retry.{
  Attempt, success, failed, RetryResult, succeeded, retry_loop, retry_during,
}
use kubeturbo.Locks.Retry.Outcome.{Run, retry_during-Run}
use kubeturbo.Locks.LockHelper.{
  LockHelper, LockMap, Round, ok, new_lock_helper, acquire_lock, release_lock, renew_rounds,
  trylock,
}
use kubeturbo.Locks.LockHelper.Renewal.{keep_renew-HeldUntil}
use kubeturbo.Locks.LockHelper.Ownership.{acquire_lock-release_lock}
use kubeturbo.Locks.LockHelper.Waiting.{State, Waited, trylock-Waited}
use kubeturbo.Locks.ActionLockStore.{get_pod_lock_key, get_lock_key, get_lock, Result, panic}
use kubeturbo.Locks.ActionLockStore.{ok as key_ok}
use kubeturbo.Locks.ActionLockStore.Keys.{
  Owns, NoCreator, get_lock-Owns, get_pod_lock_key-managed, get_pod_lock_key-panic,
}

-- The number stands for the callback.
abbrev noop : ℕ
noop = 0

abbrev emap : LockMap noop
emap = record { items = []; generation = 0; ttl = 4000000000 }

abbrev helper : LockHelper
helper = record { key = "web"; version = 0; stop = false; is_renewing = false }

abbrev owner : LockHelper
owner = record helper { version = 1 }

abbrev entry : Node String ℕ
entry = record { obj = "web"; version = 1; expire = 4000000005; call_back = 0 }

abbrev taken : LockMap noop
taken = record { items = ("web", entry) ∷ []; generation = 1; ttl = 4000000000 }

emap-IsValid : IsValid emap 5
emap-IsValid = record { unique = tt; sound = tt }

new_helper : new_lock_helper 0 "web" emap ≡ some helper
unfolding new_lock_helper
new_helper = refl

take : acquire_lock 0 emap helper none 5 ≡ (taken, owner, true)
unfolding acquire_lock add lookup insert
take = refl

abbrev others : List (Event String ℕ)
others = adds "db" "db" 0 7 ∷ dels "web" 9 ∷ expires "web" 4000000005 ∷ []

acquire_lock-release_lock_example :
    (acquire_lock 0 (run taken others) helper none 9 ≡ (run taken others, helper, false))
    × ((r : LockMap noop × LockHelper) × (release_lock 0 (run taken others) owner ≡ ok r)
        × ((acquire_lock 0 r.0 helper none 9).2 ≡ true))
acquire_lock-release_lock_example =
    acquire_lock-release_lock 0 emap taken helper owner helper none none 5 9 others take refl refl
      ((omega arith, omega arith), (tt, (omega arith, tt))) (tt, (inr (omega arith), (tt, tt)))

taken-IsValid : IsValid taken 5
unfolding lookup
taken-IsValid = record { unique = (refl, tt); sound = omega arith }

lookup_taken : lookup "web" taken.items ≡ some entry
unfolding lookup
lookup_taken = refl

abbrev expired : LockMap noop
expired = record { items = []; generation = 1; ttl = 4000000000 }

expire_taken : expire_item taken "web" 4000000006 ≡ (expired, true, some (0, "web"))
unfolding expire_item lookup delete
expire_taken = refl

abbrev successor : List (Event String ℕ)
successor = adds "web" "web" 0 4000000010 ∷ []

-- Two renewals, each half a second late.
abbrev rounds : List (Round noop)
rounds =
    record {
      between = adds "db" "db" 0 7 ∷ dels "web" 9 ∷ [];
      stopped = false;
      now = 1500000005;
      again = 1500000006;
    }
    ∷ record { between = []; stopped = false; now = 3000000006; again = 3000000007 }
    ∷ []

keep_renew-HeldUntil_example :
    ((renew_rounds 0 taken owner rounds).1 ≡ true)
    × HeldUntil (renew_rounds 0 taken owner rounds).0 "web" 1 (3000000007 + 4000000000)
keep_renew-HeldUntil_example =
    keep_renew-HeldUntil 0 "web" emap taken helper owner none 5 500000000 rounds new_helper take
      (omega arith)
      (
        refl,
        omega arith,
        omega arith,
        omega arith,
        ((omega arith, omega arith), (tt, tt)),
        (tt, (inr (omega arith), tt)),
        (refl, omega arith, omega arith, omega arith, tt, tt, tt),
      )

abbrev free_time : ℕ → ℕ
free_time i = 10 + i

abbrev lapse : ℕ → List (Event String ℕ)
lapse zero = []
lapse (suc i) = expires "web" 4000000006 ∷ []

trylock-Waited_example :
    (r : State 0 300 4000000000 free_time free_time lapse × ℕ × RetryResult) × (trylock 0 300
        4000000000 free_time free_time lapse taken helper
      ≡ some r)
    × (r.1 < 1000)
    × Waited 0 300 4000000000 free_time free_time lapse helper r
trylock-Waited_example = trylock-Waited 0 300 4000000000 free_time free_time lapse taken helper

-- The third attempt succeeds.
abbrev third : ℕ → ℕ → ℕ × Attempt
third i s = if nat_beq i 2 then (s + 1, success) else (s, failed)

retry_during-Run_example :
    (r : ℕ × ℕ × RetryResult) × (retry_during 5 0 0 free_time third 7 ≡ some r)
    × Run 5 0 0 free_time third 0 7 r
    × (r.1 ≤ 4)
retry_during-Run_example = retry_during-Run 5 0 0 free_time third 7

retry_third : retry_during 5 0 0 free_time third 7 ≡ some (8, 2, succeeded)
unfolding retry_during retry_loop
retry_third = refl

abbrev managing : OwnerReference
managing = record { kind = "ReplicaSet"; name = "web"; uid = "u2"; controller = some true }

abbrev pod : Pod
pod = record {
  namespace = "shop";
  name = "web-1";
  owner_references = managing ∷ [];
  annotations = [];
  containers = [];
}

abbrev other_pod : Pod
other_pod = record pod { name = "web-2"; owner_references = record managing { uid = "u3" } ∷ [] }

abbrev unmarshal : String → Option OwnerInfo
unmarshal s = none

pod-managed : first is_managing pod.owner_references ≡ some managing
unfolding is_valid_owner is_controller
pod-managed = refl

other_pod-managed :
    first is_managing other_pod.owner_references ≡ some (record managing { uid = "u3" })
unfolding is_valid_owner is_controller
other_pod-managed = refl

get_pod_lock_key-managed_example :
    get_pod_lock_key unmarshal pod ≡ get_pod_lock_key unmarshal other_pod
get_pod_lock_key-managed_example =
    get_pod_lock_key-managed unmarshal pod other_pod managing (record managing { uid = "u3" })
      pod-managed other_pod-managed refl refl refl

abbrev bare : Pod
bare = record pod { owner_references = [] }

get_pod_lock_key-panic_example : (get_pod_lock_key unmarshal bare ≡ panic) ↔ (
    All IncompleteOwner bare.owner_references × NoCreator unmarshal bare × (bare.containers ≡ []))
get_pod_lock_key-panic_example = get_pod_lock_key-panic unmarshal bare

bare-no_owner : get_pod_parent_info unmarshal bare ≡ some no_owner
unfolding get_pod_parent_info get_owner_info owner_loop lookup
bare-no_owner = refl

-- An action's item is the id of its target.
abbrev pod_func : String → Result (Option Pod)
pod_func item = key_ok none

get_lock_key_vm : get_lock_key unmarshal pod_func (λ item. item) "vm-1" ≡ key_ok "vm-1"
unfolding get_lock_key
get_lock_key_vm = refl

get_lock-Owns_example :
    Owns 0 4 free_time free_time lapse "vm-1" emap
      (get_lock unmarshal pod_func (λ item. item) 0 4 free_time free_time lapse "vm-1" emap)
get_lock-Owns_example =
    get_lock-Owns 0 4 free_time free_time lapse unmarshal pod_func (λ item. item) "vm-1" emap "vm-1"
      get_lock_key_vm

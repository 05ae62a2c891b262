-- ===== src/Resize/Scale/Replicas.antt =====
-- What a horizontal scale of pkg/action/executor/horizontal_scaler.go makes of the object of the
-- controller, by the get and update of k8s_controller.go.
use kubeturbo.Prelude.{
  ℕ, ◌+◌, ◌-◌, ◌%◌, ◌<◌, ◌≡◌, ◌≢◌, refl, sym, Bool, true, false, ◌&&◌, not, Option, none, some,
  List, String, ◌==◌, string_eq, if◌then◌else◌, arith,
}
use kubeturbo.Owner.{Pod, OwnerInfo, get_owner_info}
use kubeturbo.Locks.Retry.{Attempt, success}
use kubeturbo.Resize.{Container}
use kubeturbo.Resize.Updater.{ControllerState, int32_mod}
use kubeturbo.Resize.Scale.{Outcome, succeeded, execute}
use kubeturbo.Resize.Scale.Exact.{scaling, execute_once}
use kubeturbo.Resize.Scale.Parent.{
  Object, should_skip_operator, replicas_read, state_of, int64_of, with_state, ParentController,
  parent_get, send, parent_update,
}
use kubeturbo.Resize.Scale.Controller.{
  Resource, WorkloadController, ControllerInfo, get_supported_res_using_kind,
  get_workload_controller_info,
}

-- No operator manages the controller, or its label says to go past it.
abbrev pub IsDirect : Object → Type 0
IsDirect obj = (not (should_skip_operator obj) && (get_owner_info obj.owner_references).1) ≡ false

state_of-scaled :
    (obj : Object) (n : ℕ) (cs : List Container)
    → obj.kind ≢ "DaemonSet"
    → obj.replicas ≡ some n
    → n < 2147483648
    → obj.containers ≡ some cs
    → state_of obj ≡ some (record { replicas = n; containers = cs })
unfolding state_of replicas_read
state_of-scaled obj n cs kind has small template =
    let same : n % int32_mod ≡ n = omega arith in
    ground (arith, string_eq.beq_iff obj.kind "DaemonSet", same)

with_state-scaled :
    (obj : Object) (m : ℕ) (cs : List Container)
    → obj.kind ≢ "DaemonSet"
    → m < 2147483648
    → obj.containers ≡ some cs
    → with_state obj (record { replicas = m; containers = cs }) ≡ record obj { replicas = some m }
unfolding with_state int64_of
with_state-scaled obj m cs kind small template =
    let number : (if not (obj.kind == "DaemonSet") then some (int64_of m) else obj.replicas)
        ≡ some m =
      ground (arith, string_eq.beq_iff obj.kind "DaemonSet") in
    λ i. record obj { replicas = number i; containers = sym template i }

module _ {World : Type 0} (controller_info : World → Pod → Option OwnerInfo)
    (get_pod : World → String → String → Bool) (delete_pod : World → String → String → World × Bool)
    (client_get : Resource → String → String → World → Option Object)
    (client_update : Resource → String → World → Object → World × Bool)
    (update_owners : World → Object → World × Attempt)
    (settle : World → Object → World × Attempt) where
  abbrev get :
      Resource
      → String
      → String
      → ParentController World
      → ParentController World × Option ControllerState
  get res namespace name =
      parent_get (client_get res namespace name) (client_update res namespace) update_owners settle

  abbrev put :
      Resource
      → String
      → String
      → ParentController World
      → ControllerState
      → ParentController World × Attempt
  put res namespace name =
      parent_update (client_get res namespace name) (client_update res namespace) update_owners
        settle

  abbrev delete : ParentController World → String → String → ParentController World × Bool
  delete s namespace name = let (w, done) = delete_pod s.0 namespace name in ((w, s.1), done)

  -- The scaler, with a controller that has read nothing yet; `between i` is what happens to the world
  -- before the attempt `i`.
  abbrev pub scale :
      (ℕ → World → World)
      → (ℕ → ℕ)
      → ℕ
      → (target : WorkloadController) (old new : ℕ) → Option Pod
      → World
      → Option (ParentController World × Outcome)
  scale between clock t0 target old new pod w =
      execute (λ s. controller_info s.0) (λ s. get_pod s.0) delete get put
        (λ i s. (between i s.0, s.1)) clock t0 (scaling target old new) pod (w, none)

  get-state :
      (res : Resource) (namespace name : String) (w : World) (kept : Option Object) (obj : Object)
      (state : ControllerState)
      → client_get res namespace name w ≡ some obj
      → state_of obj ≡ some state
      → get res namespace name (w, kept) ≡ ((w, some obj), some state)
  unfolding parent_get
  get-state res namespace name w kept obj state there read = rw (there, parent_get) (rw read refl)

  put-direct :
      (res : Resource) (namespace name : String) (w sent after : World) (obj obj' : Object)
      (state : ControllerState)
      → with_state obj state ≡ obj'
      → IsDirect obj'
      → client_update res namespace w obj' ≡ (sent, true)
      → settle sent obj' ≡ (after, success)
      → put res namespace name (w, some obj) state ≡ ((after, some obj'), success)
  unfolding parent_update send
  put-direct res namespace name w sent after obj obj' state set direct updated settled =
      rw (set, parent_update) (rw (direct, send) (rw updated (rw settled refl)))

  -- A horizontal scale of a known controller, that is not a DaemonSet and not up to an operator, from
  -- `old` to `new` replicas, two different numbers below 2^31, updates the object that it reads
  -- at the first attempt with their difference added to its number of replicas, if the sum lies
  -- between 1 and the largest int32, and with nothing else changed. If the API server takes that
  -- update and the wait for the new replicas ends well, the action succeeds, with no
  -- second attempt and no deletion of a pod, also where the number falls, and whether or not a pod
  -- is given.
  pub execute-replicas :
      (between : ℕ → World → World) (clock : ℕ → ℕ) (t0 : ℕ) (target : WorkloadController)
      (info : ControllerInfo) (res : Resource) (old new n : ℕ) (obj : Object) (cs : List Container)
      (pod : Option Pod) (w sent after : World)
      → get_workload_controller_info (some target) ≡ some info
      → get_supported_res_using_kind info.kind ≡ some res
      → old < 2147483648
      → new < 2147483648
      → old ≢ new
      → client_get res info.namespace info.name (between 0 w) ≡ some obj
      → obj.kind ≢ "DaemonSet"
      → IsDirect obj
      → obj.replicas ≡ some n
      → obj.containers ≡ some cs
      → n < 2147483648
      → old < n + new
      → n + new < 2147483648 + old
      → let obj' = record obj { replicas = some (n + new - old) } in
        client_update res info.namespace (between 0 w) obj' ≡ (sent, true)
        → settle sent obj' ≡ (after, success)
        → scale between clock t0 target old new pod w ≡ some ((after, some obj'), succeeded)
  unfolding should_skip_operator
  execute-replicas between clock t0 target info res old new n obj cs pod w sent after known
        supported old_small new_small differ there kind direct has template small low high updated
        settled =
      let obj' : Object = record obj { replicas = some (n + new - old) } in
      let current : ControllerState = record { replicas = n; containers = cs } in
      let got =
        get-state res info.namespace info.name (between 0 w) none obj current there
          (state_of-scaled obj n cs kind has small template) in
      let stored =
        put-direct res info.namespace info.name (between 0 w) sent after obj obj'
          (record current { replicas = n + new - old })
          (with_state-scaled obj (n + new - old) cs kind (omega arith) template) direct updated
          settled in
      execute_once (λ s. controller_info s.0) (λ s. get_pod s.0) delete get put
        (λ i s. (between i s.0, s.1)) clock t0 target info res old new current pod (w, none)
        (between 0 w, some obj) (after, some obj') known supported old_small new_small differ got
        small low high stored

  -- The bug: a horizontal scale of a DaemonSet to more replicas updates the object as it is, with no
  -- number of replicas set, and succeeds, under the same conditions.
  pub execute-daemon_set :
      (between : ℕ → World → World) (clock : ℕ → ℕ) (t0 : ℕ) (target : WorkloadController)
      (info : ControllerInfo) (res : Resource) (old new : ℕ) (obj : Object) (cs : List Container)
      (pod : Option Pod) (w sent after : World)
      → get_workload_controller_info (some target) ≡ some info
      → get_supported_res_using_kind info.kind ≡ some res
      → old < new
      → new < 2147483648
      → client_get res info.namespace info.name (between 0 w) ≡ some obj
      → obj.kind ≡ "DaemonSet"
      → IsDirect obj
      → obj.containers ≡ some cs
      → client_update res info.namespace (between 0 w) obj ≡ (sent, true)
      → settle sent obj ≡ (after, success)
      → scale between clock t0 target old new pod w ≡ some ((after, some obj), succeeded)
  unfolding state_of replicas_read with_state
  execute-daemon_set between clock t0 target info res old new obj cs pod w sent after known
        supported more small there kind direct template updated settled =
      let current : ControllerState = record { replicas = 0; containers = cs } in
      let is_set = (string_eq.beq_iff obj.kind "DaemonSet").1 kind in
      let read : state_of obj ≡ some current = ground (arith, is_set, template) in
      let number : (new_number : Option ℕ)
          → (if not (obj.kind == "DaemonSet") then new_number else obj.replicas) ≡ obj.replicas =
        λ new_number. rw is_set refl in
      let got = get-state res info.namespace info.name (between 0 w) none obj current there read in
      let stored =
        put-direct res info.namespace info.name (between 0 w) sent after obj obj
          (record current { replicas = 0 + new - old })
          (λ i. record obj {
            replicas = number (some (int64_of (0 + new - old))) i;
            containers = sym template i;
          })
          direct updated settled in
      execute_once (λ s. controller_info s.0) (λ s. get_pod s.0) delete get put
        (λ i s. (between i s.0, s.1)) clock t0 target info res old new current pod (w, none)
        (between 0 w, some obj) (after, some obj) known supported (omega arith) small (omega arith)
        got (omega arith) (omega arith) (omega arith) stored

-- ===== src/Resize/Scale/Parent.antt =====
-- pkg/action/executor/k8s_controller.go: how a controller is read and updated, where no GitOps
-- manager is set, as the horizontal scaler does not set one.
use kubeturbo.Prelude.{
  ℕ, ◌+◌, ◌-◌, ◌%◌, ltb, Bool, false, ◌&&◌, not, Option, none, some, List, String, ◌==◌, string_eq,
  if◌then◌else◌,
}
use kubeturbo.Prelude.Dict.{lookup}
use kubeturbo.Prelude.Text.{equal_fold}
use kubeturbo.Quota.{or_empty}
use kubeturbo.Owner.{OwnerReference, get_owner_info}
use kubeturbo.Locks.Retry.{Attempt, failed}
use kubeturbo.Resize.{Container}
use kubeturbo.Resize.Updater.{ControllerState, int32_mod}
use kubeturbo.Prelude.Dict.{Dict}

-- What is read of the unstructured object of a controller. `replicas` is the int64 at
-- `spec.replicas` by its bit pattern, and `containers` those of the template at
-- `spec.template.spec`; either is `none` where it is missing or has another type.
pub record Object : Type 0 where
  pub kind : String
  pub replicas : Option ℕ
  pub containers : Option (List Container)
  pub owner_references : List OwnerReference
  pub labels : Option (Dict String String)

-- daemonsets do not have replica field
abbrev pub daemon_set : String
daemon_set = "DaemonSet"

abbrev pub skip_operator_label : String
skip_operator_label = "kubeturbo.io/skipOperator"

unfoldable pub should_skip_operator : Object → Bool
should_skip_operator obj = elim (lookup skip_operator_label (or_empty obj.labels)) [
  | none ↦ false
  | some val ↦ equal_fold val "true"
]

-- The number of replicas, cut to an int32.
unfoldable pub replicas_read : Object → Option ℕ
replicas_read obj =
    if obj.kind == daemon_set
    then some 0
    else elim obj.replicas [ none ↦ none | some n ↦ some (n % int32_mod) ]

unfoldable pub state_of : Object → Option ControllerState
state_of obj = elim (replicas_read obj) [
  | none ↦ none
  | some n ↦ elim obj.containers [
    | none ↦ none
    | some cs ↦ some (record { replicas = n; containers = cs })
  ]
]

-- The int64 of an int32, by their bit patterns.
unfoldable pub int64_of : ℕ → ℕ
int64_of n = if ltb n 2147483648 then n else n + (18446744073709551616 - int32_mod)

-- The object with the state set; the conversion of the template does not fail.
unfoldable pub with_state : Object → ControllerState → Object
with_state obj state = record obj {
  replicas = if not (obj.kind == daemon_set) then some (int64_of state.replicas) else obj.replicas;
  containers = some state.containers;
}

-- The world, with the field `obj` of a parentController, which `get` sets.
abbrev pub ParentController : Type 0 → Type 0
ParentController World = World × Option Object

-- The API server, by its objects: the read of the controller and its update, with whether it
-- succeeds. `update_owners` stands for the ORM client, which updates the custom resource of an
-- operator, and `settle` for the rollout and the wait for the new replicas, by feature gates.
module _ {World : Type 0} (client_get : World → Option Object)
    (client_update : World → Object → World × Bool)
    (update_owners : World → Object → World × Attempt)
    (settle : World → Object → World × Attempt) where
  unfoldable pub parent_get :
      ParentController World → ParentController World × Option ControllerState
  parent_get (w, kept) = elim (client_get w) [
    | none ↦ ((w, kept), none)
    | some obj ↦ elim (state_of obj) [
      | none ↦ ((w, kept), none)
      | some state ↦ ((w, some obj), some state)
    ]
  ]

  -- The update of an object that is set, with the object.
  unfoldable pub send : World → Object → World × Attempt
  send w obj =
      if not (should_skip_operator obj) && (get_owner_info obj.owner_references).1
      then update_owners w obj
      else (let (w', updated) = client_update w obj in
          if updated then settle w' obj else (w', failed))

  -- Without an object, which `get` has set, the code would panic.
  unfoldable pub parent_update :
      ParentController World → ControllerState → ParentController World × Attempt
  parent_update (w, none) state = ((w, none), failed)
  parent_update (w, some obj) state =
      let obj' = with_state obj state in let (w', result) = send w obj' in ((w', some obj'), result)

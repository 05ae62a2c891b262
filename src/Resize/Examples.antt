-- ===== src/Resize/Examples.antt =====
-- Resizes and updates at concrete inputs.
use kubeturbo.Prelude.{
  ◌+◌, ◌-◌, ℕ, ◌↔◌, ◌⊎◌, ◌≡◌, refl, Bool, true, false, ◌||◌, Option, some, [], ◌∷◌, String,
  string_eq, nat_eq, arith, if◌then◌else◌,
}
use kubeturbo.Prelude.Dict.{lookup}
use kubeturbo.Resize.{
  Container, ContainerResizeSpec, entries, resize, update_resource_amount, update_limits,
  apply_patch,
}
use kubeturbo.Resize.Patch.{overridden, patch_differs, asked_requests, resize_lem}
use kubeturbo.Resize.Effect.{
  get_elem?, apply_to, Reports, resize_all, update_resource_amount-get_elem?,
}
use kubeturbo.Locks.Retry.{Attempt, success, failed}
use kubeturbo.Resize.Updater.{
  ControllerState, ControllerSpec, update, reconcile, suspend_or_provision, suspend_pod,
}
use kubeturbo.Resize.Replicas.{update-replicas, InRange, suspended, plus, minus}

abbrev web : Container
web = record {
  name = "web";
  limits = some (("cpu", 500) ∷ ("memory", 64) ∷ []);
  requests = some (("cpu", 200) ∷ []);
}

-- Both the limit and the request of the CPU are to rise.
abbrev bigger : ContainerResizeSpec
bigger = record {
  new_capacity = some (("cpu", 800) ∷ []);
  new_request = some (("cpu", 400) ∷ []);
  index = 0;
}

abbrev limits_changed : Bool
limits_changed = patch_differs (entries web.limits) (entries bigger.new_capacity)

resize_example :
    ((k : String)
      → lookup k (entries (resize web bigger).0.limits)
        ≡ overridden (lookup k (entries web.limits)) (lookup k (entries bigger.new_capacity)))
    × ((k : String)
        → lookup k (entries (resize web bigger).0.requests)
          ≡ overridden
              (lookup k (entries web.requests))
              (lookup k (asked_requests limits_changed bigger)))
    × ((resize web bigger).0.name ≡ web.name)
    × ((resize web bigger).1 ≡ (
        limits_changed
        || patch_differs (entries web.requests) (asked_requests limits_changed bigger)))
unfolding lookup
resize_example = resize_lem web bigger (refl, tt) (refl, tt)

-- The request stays.
resize-web : lookup "cpu" (entries (resize web bigger).0.requests) ≡ some 200
unfolding resize lookup update_limits apply_patch
resize-web = refl

update_resource_amount-get_elem?_example :
    let result = update_resource_amount (web ∷ web ∷ []) (bigger ∷ []) false in
    ((j : ℕ)
      → get_elem? result.0 j ≡ apply_to (get_elem? (web ∷ web ∷ []) j) (resize_all j (bigger ∷ [])))
    × ((result.1 ≡ true) ↔ ((false ≡ true) ⊎ Reports (web ∷ web ∷ []) (bigger ∷ [])))
update_resource_amount-get_elem?_example =
    update_resource_amount-get_elem? (web ∷ web ∷ []) (bigger ∷ []) false

-- A server that has the controller only; every pod can be deleted.
abbrev two : ControllerState
two = record { replicas = 2; containers = web ∷ [] }

abbrev minus_one : ControllerSpec
minus_one = record { replicas_diff = 4294967295; resize_specs = [] }

abbrev has_pod : ControllerState → String → String → Bool
has_pod s namespace name = true

abbrev drop_pod : ControllerState → String → String → ControllerState × Bool
drop_pod s namespace name = (s, true)

abbrev fetch : ControllerState → ControllerState × Option ControllerState
fetch s = (s, some s)

abbrev write : ControllerState → ControllerState → ControllerState × Attempt
write s s' = (s', success)

update-replicas_example :
    let after = suspended has_pod drop_pod fetch write "shop" "web-1" two 4294967295 in
    (InRange 2 4294967295
      → update has_pod drop_pod fetch write "shop" "web-1" two minus_one ≡ (
          if after.1
          then write after.0 (record two { replicas = 2 + plus 4294967295 - minus 4294967295 })
          else (after.0, failed)))
    × (¬ (InRange 2 4294967295)
        → update has_pod drop_pod fetch write "shop" "web-1" two minus_one ≡ (two, failed))
update-replicas_example =
    update-replicas has_pod drop_pod fetch write "shop" "web-1" two two two minus_one refl
      (omega arith) (omega arith) (omega arith)

update-two :
    update has_pod drop_pod fetch write "shop" "web-1" two minus_one
    ≡ (record two { replicas = 1 }, success)
unfolding update reconcile suspend_or_provision suspend_pod
update-two = refl

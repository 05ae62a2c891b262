-- ===== src/Resize.antt =====
-- pkg/action/executor/resize_container_util.go: new limits and requests for the containers of a pod.
pub mod Patch
pub mod Effect
pub mod Updater
pub mod Replicas
pub mod Scale
pub mod Spec
mod Examples
use kubeturbo.Prelude.{
  ℕ, zero, suc, Bool, true, false, ◌&&◌, ◌||◌, not, Option, none, some, List, [], ◌∷◌, String, ◌==◌,
  nat_eq, string_eq, if◌then◌else◌, ltb,
}
use kubeturbo.Prelude.Dict.{Dict, lookup, insert}
use kubeturbo.Quota.Resources.{ResourceList}

-- The fields of a container that are read or written; nil maps are `none`.
pub record Container : Type 0 where
  pub name : String
  pub limits : Option ResourceList
  pub requests : Option ResourceList

-- An index comes from the id of a container and is never negative.
pub record ContainerResizeSpec : Type 0 where
  pub new_capacity : Option ResourceList
  pub new_request : Option ResourceList
  pub index : ℕ

-- What a read of, or a loop over, a map sees.
abbrev pub entries : Option ResourceList → ResourceList
entries none = []
entries (some m) = m

-- `!exist || oldv.Cmp(v) != 0`
abbrev pub differs : Option ℕ → ℕ → Bool
differs none v = true
differs (some old) v = not (old == v)

-- The loop over the patch, over its variables `result` and `changed`.
unfoldable pub apply_patch : ResourceList → Bool → ResourceList → ResourceList × Bool
apply_patch result changed [] = (result, changed)
apply_patch result changed ((k, v) ∷ patch) =
    let new = differs (lookup k result) v in
    apply_patch (if new then insert k v result else result) (changed || new) patch

unfoldable pub update_requests : Container → ResourceList → Container × Bool
update_requests c patch =
    let (result, changed) = apply_patch (entries c.requests) false patch in
    (if changed then record c { requests = some result } else c, changed)

unfoldable pub update_limits : Container → ResourceList → Container × Bool
update_limits c patch =
    let (result, changed) = apply_patch (entries c.limits) false patch in
    (if changed then record c { limits = some result } else c, changed)

-- The loop over the limits; false is an error.
unfoldable pub requests_within : ResourceList → ResourceList → Bool
requests_within [] requests = true
requests_within ((k, v) ∷ limits) requests =
    let rest = requests_within limits requests in
    elim (lookup k requests) [ none ↦ rest | some rv ↦ if ltb v rv then false else rest ]

unfoldable pub check_limits_requests : Container → Bool
check_limits_requests c = elim c.limits [
  | none ↦ true
  | some limits ↦ elim c.requests [ none ↦ true | some requests ↦ requests_within limits requests ]
]

-- `m != nil && len(m) > 0`
abbrev pub is_given : Option ResourceList → Bool
is_given none = false
is_given (some []) = false
is_given (some (entry ∷ more)) = true

-- `||` calls `updateRequests` only where the limits did not change.
unfoldable pub resize : Container → ContainerResizeSpec → Container × Bool
resize c spec =
    let (c', changed) =
      if is_given spec.new_capacity
      then update_limits c (entries spec.new_capacity)
      else (c, false) in
    if is_given spec.new_request && not changed
    then update_requests c' (entries spec.new_request)
    else (c', changed)

-- `none` where the index is out of range.
unfoldable pub resize_at : List Container → ℕ → ContainerResizeSpec → Option (List Container × Bool)
resize_at [] i spec = none
resize_at (c ∷ cs) zero spec =
    let (c', changed) = resize c spec in some (c' ∷ cs, changed && check_limits_requests c')
resize_at (c ∷ cs) (suc i) spec = elim (resize_at cs i spec) [
  | none ↦ none
  | some (cs', changed) ↦ some (c ∷ cs', changed)
]

-- The containers and `changed` after one spec.
abbrev pub with_spec :
    List Container → Bool → Option (List Container × Bool) → List Container × Bool
with_spec cs changed none = (cs, changed)
with_spec cs changed (some (cs', this_changed)) = (cs', changed || this_changed)

-- The loop over the specs, over the containers and its variable `changed`. No error is returned.
unfoldable pub update_resource_amount :
    List Container → List ContainerResizeSpec → Bool → List Container × Bool
update_resource_amount cs [] changed = (cs, changed)
update_resource_amount cs (spec ∷ specs) changed =
    let next = with_spec cs changed (resize_at cs spec.index spec) in
    update_resource_amount next.0 specs next.1

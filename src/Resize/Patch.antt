-- ===== src/Resize/Patch.antt =====
-- The patches of limits and requests in pkg/action/executor/resize_container_util.go.
use kubeturbo.Prelude.{
  ℕ, ◌≡◌, refl, ◌∙◌, ap, Bool, true, false, ◌&&◌, ◌||◌, not, Option, none, some, [], ◌∷◌, String,
  ◌==◌, nat_eq, string_eq, if◌then◌else◌, arith, Bool-cases, inl, inr, Option-cases,
}
use kubeturbo.Prelude.Dict.{lookup, insert, lookup-insert, IsMap}
use kubeturbo.Quota.Resources.{ResourceList}
use kubeturbo.Resize.{
  Container, ContainerResizeSpec, entries, differs, apply_patch, update_requests, update_limits,
  is_given, resize,
}

-- The value of the patch, or else the old one.
abbrev pub overridden : Option ℕ → Option ℕ → Option ℕ
overridden old none = old
overridden old (some v) = some v

-- Whether the patch asks for a value that is not there.
abbrev pub patch_differs : ResourceList → ResourceList → Bool
patch_differs old [] = false
patch_differs old ((k, v) ∷ patch) = differs (lookup k old) v || patch_differs old patch

-- A map does not change where it has the value already.
lookup_patched :
    (k j : String) (v : ℕ) (old : ResourceList)
    → lookup j (if differs (lookup k old) v then insert k v old else old)
      ≡ (if k == j then some v else lookup j old)
lookup_patched k j v old = elim (Option-cases (lookup k old)) [
  | inl new ↦ rw new (lookup-insert k j v old)
  | inr (w, found) ↦ elim (Bool-cases (w == v)) [
    | inl same ↦ rw found (
        rw same (elim (Bool-cases (k == j)) [
          | inl hit ↦ rw hit (ground (arith, string_eq.beq_iff k j, nat_eq.beq_iff w v))
          | inr miss ↦ rw miss refl
        ]))
    | inr other ↦ rw found (rw other (lookup-insert k j v old))
  ]
]

pub lookup-apply_patch :
    (j : String) (old : ResourceList) (changed : Bool) (patch : ResourceList)
    → IsMap patch
    → lookup j (apply_patch old changed patch).0 ≡ overridden (lookup j old) (lookup j patch)
unfolding apply_patch lookup
lookup-apply_patch j old changed [] unique = refl
lookup-apply_patch j old changed ((k, v) ∷ patch) unique =
    let old' = if differs (lookup k old) v then insert k v old else old in
    let ih = lookup-apply_patch j old' (changed || differs (lookup k old) v) patch unique.1 in
    ground (arith, ih, lookup_patched k j v old, string_eq.beq_iff k j)

patch_differs_patched :
    (k : String) (v : ℕ) (old patch : ResourceList)
    → lookup k patch ≡ none
    → patch_differs (if differs (lookup k old) v then insert k v old else old) patch
      ≡ patch_differs old patch
unfolding lookup
patch_differs_patched k v old [] absent = refl
patch_differs_patched k v old ((j, w) ∷ patch) absent = ground (
  arith,
  lookup_patched k j v old,
  string_eq.beq_iff k j,
  string_eq.beq_iff j k,
  patch_differs_patched k v old patch,
)

pub apply_patch_changed :
    (old : ResourceList) (changed : Bool) (patch : ResourceList)
    → IsMap patch
    → (apply_patch old changed patch).1 ≡ (changed || patch_differs old patch)
unfolding apply_patch
apply_patch_changed old changed [] unique = ground arith
apply_patch_changed old changed ((k, v) ∷ patch) unique =
    let old' = if differs (lookup k old) v then insert k v old else old in
    let ih = apply_patch_changed old' (changed || differs (lookup k old) v) patch unique.1 in
    ih
    ∙ ap (λ b. (changed || differs (lookup k old) v) || b)
        (patch_differs_patched k v old patch unique.0)
    ∙ ground arith

-- The requests after a resize, as far as they are asked for: not at all where the limits changed.
abbrev pub asked_requests : Bool → ContainerResizeSpec → ResourceList
asked_requests limits_changed spec = if limits_changed then [] else entries spec.new_request

unchanged :
    (old patch : ResourceList) (k : String)
    → patch_differs old patch ≡ false
    → lookup k old ≡ overridden (lookup k old) (lookup k patch)
unfolding lookup
unchanged old [] k h = refl
unchanged old ((j, v) ∷ patch) k h = elim (Option-cases (lookup j old)) [
  | inl new ↦ cc (ap (λ o. differs o v || patch_differs old patch) new, h)
  | inr (w, found) ↦ elim (Bool-cases (j == k)) [
    | inl hit ↦ ground (arith, found, string_eq.beq_iff j k, nat_eq.beq_iff w v)
    | inr miss ↦ rw miss (unchanged old patch k (ground (arith, found)))
  ]
]

-- The map after a patch, which is set only if something changed.
lookup_patch :
    (m : Option ResourceList) (patch : ResourceList) (k : String)
    → IsMap patch
    → lookup k (
        entries (
          if (apply_patch (entries m) false patch).1
          then some (apply_patch (entries m) false patch).0
          else m))
      ≡ overridden (lookup k (entries m)) (lookup k patch)
lookup_patch m patch k unique =
    let same = apply_patch_changed (entries m) false patch unique in
    elim (Bool-cases (apply_patch (entries m) false patch).1) [
      | inl changed ↦ rw changed (lookup-apply_patch k (entries m) false patch unique)
      | inr kept ↦ rw kept (unchanged (entries m) patch k (rw same at kept))
    ]

limits_step : Container → Option ResourceList → Container × Bool
limits_step c capacity =
    if is_given capacity then update_limits c (entries capacity) else (c, false)

limits_step_lem :
    (c : Container) (capacity : Option ResourceList)
    → IsMap (entries capacity)
    → ((k : String)
        → lookup k (entries (limits_step c capacity).0.limits)
          ≡ overridden (lookup k (entries c.limits)) (lookup k (entries capacity)))
      × ((limits_step c capacity).0.requests ≡ c.requests)
      × ((limits_step c capacity).0.name ≡ c.name)
      × ((limits_step c capacity).1 ≡ patch_differs (entries c.limits) (entries capacity))
unfolding limits_step update_limits lookup
limits_step_lem c none unique = (λ k. refl, refl, refl, refl)
limits_step_lem c (some []) unique = (λ k. refl, refl, refl, refl)
limits_step_lem c (some (entry ∷ more)) unique =
    let patch = entry ∷ more in
    (
      λ k. ground (arith, lookup_patch c.limits patch k unique),
      ground arith,
      ground arith,
      apply_patch_changed (entries c.limits) false patch unique,
    )

requests_step : Container → Bool → Option ResourceList → Container × Bool
requests_step c changed request =
    if is_given request && not changed then update_requests c (entries request) else (c, changed)

requests_step_lem :
    (c : Container) (changed : Bool) (request : Option ResourceList)
    → IsMap (entries request)
    → let asked = if changed then [] else entries request in
      ((k : String)
        → lookup k (entries (requests_step c changed request).0.requests)
          ≡ overridden (lookup k (entries c.requests)) (lookup k asked))
      × ((requests_step c changed request).0.limits ≡ c.limits)
      × ((requests_step c changed request).0.name ≡ c.name)
      × ((requests_step c changed request).1
          ≡ (changed || patch_differs (entries c.requests) asked))
unfolding requests_step update_requests lookup
requests_step_lem c true none unique = (λ k. refl, refl, refl, refl)
requests_step_lem c false none unique = (λ k. refl, refl, refl, refl)
requests_step_lem c true (some []) unique = (λ k. refl, refl, refl, refl)
requests_step_lem c false (some []) unique = (λ k. refl, refl, refl, refl)
requests_step_lem c true (some (entry ∷ more)) unique = (λ k. refl, refl, refl, refl)
requests_step_lem c false (some (entry ∷ more)) unique =
    let patch = entry ∷ more in
    (
      λ k. ground (arith, lookup_patch c.requests patch k unique),
      ground arith,
      ground arith,
      apply_patch_changed (entries c.requests) false patch unique,
    )

-- A resize overrides the limits, and the requests only if it has left the limits as they are: where
-- a new capacity changes a limit, the new requests of the same spec are ignored. It reports whether
-- it changed anything.
pub resize_lem :
    (c : Container) (spec : ContainerResizeSpec)
    → IsMap (entries spec.new_capacity)
    → IsMap (entries spec.new_request)
    → let limits_changed = patch_differs (entries c.limits) (entries spec.new_capacity) in
      let asked = asked_requests limits_changed spec in
      ((k : String)
        → lookup k (entries (resize c spec).0.limits)
          ≡ overridden (lookup k (entries c.limits)) (lookup k (entries spec.new_capacity)))
      × ((k : String)
          → lookup k (entries (resize c spec).0.requests)
            ≡ overridden (lookup k (entries c.requests)) (lookup k asked))
      × ((resize c spec).0.name ≡ c.name)
      × ((resize c spec).1 ≡ (limits_changed || patch_differs (entries c.requests) asked))
unfolding resize limits_step requests_step
resize_lem c spec capacity_map request_map =
    let l = limits_step c spec.new_capacity in
    let first = limits_step_lem c spec.new_capacity capacity_map in
    let second = requests_step_lem l.0 l.1 spec.new_request request_map in
    (
      λ k. ap (λ m. lookup k (entries m)) second.1 ∙ first.0 k,
      λ k. second.0 k ∙ λ i.
          overridden (lookup k (entries (first.1 i))) (lookup k (asked_requests (first.3 i) spec)),
      second.2 ∙ first.2,
      second.3 ∙ λ i.
          first.3 i || patch_differs (entries (first.1 i)) (asked_requests (first.3 i) spec),
    )

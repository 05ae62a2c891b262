-- ===== src/Resize/Spec/Ignored.antt =====
-- What becomes of the zero requests of setZeroRequest in pkg/action/executor/resize_container.go when
-- resize_container_util.go applies the spec.
use kubeturbo.Prelude.{
  ℕ, zero, suc, ◌<◌, ◌≡◌, ◌≢◌, refl, ap, ◌∙◌, Bool-cases, inl, inr, true, false, ◌||◌, Option, none,
  some, List, [], ◌∷◌, String, ◌==◌, nat_eq, string_eq, length, arith,
}
use kubeturbo.Prelude.Dict.{lookup, insert}
use kubeturbo.Resize.{Container, ContainerResizeSpec, entries, differs, resize}
use kubeturbo.Resize.Effect.{get_elem?}
use kubeturbo.Resize.Patch.{resize_lem}
use kubeturbo.Resize.Spec.{
  ResizeCommodity, vcpu, vmem, vcpu_request, vmem_request, other_commodity, ResizeItem, same_type,
  get_new_amount, rounded, built, zero_requests, made_requests, make_requests, not_empty,
  set_zero_request, build_resource_list, as_capacity, build_resource_lists, build_resize_spec,
}

-- The resource that a commodity is the limit of, and the suffix of its quantities.
abbrev pub limited : ResizeCommodity → Option (String × String)
limited vcpu = some ("cpu", "m")
limited vmem = some ("memory", "Ki")
limited vcpu_request = none
limited vmem_request = none
limited (other_commodity n) = none

abbrev pub change : ResizeCommodity → (old new : ℕ) → ResizeItem
change type old new = record {
  current_type = type;
  current_capacity = old;
  new_type = type;
  new_capacity = new;
}

abbrev pub raised : String → ℕ → ℕ → ContainerResizeSpec
raised key q i = record {
  new_capacity = some ((key, q) ∷ []);
  new_request = some ((key, 0) ∷ []);
  index = i;
}

get_elem?_bound :
    (cs : List Container) (i : ℕ) (c : Container) → get_elem? cs i ≡ some c → i < length cs
get_elem?_bound [] i c e = cc
get_elem?_bound (d ∷ cs) zero c e = omega arith
get_elem?_bound (d ∷ cs) (suc i) c e = omega (arith, get_elem?_bound cs i c e)

get_elem?-make_requests :
    (cs : List Container) (i : ℕ) (c : Container)
    → get_elem? cs i ≡ some c
    → get_elem? (make_requests cs i) i ≡ some (made_requests c)
unfolding make_requests
get_elem?-make_requests [] i c e = cc
get_elem?-make_requests (d ∷ cs) zero c e = cc
get_elem?-make_requests (d ∷ cs) (suc i) c e = get_elem?-make_requests cs i c e

other_value_differs : (o : Option ℕ) (q : ℕ) → o ≢ some q → (differs o q || false) ≡ true
other_value_differs none q differ = refl
other_value_differs (some old) q differ = elim (Bool-cases (old == q)) [
  | inl same ↦ absurd (differ (ap some ((nat_eq.beq_iff old q).0 same)))
  | inr other ↦ rw other refl
]

same_key : (key : String) → (key == key) ≡ true
same_key key = (string_eq.beq_iff key key).1 refl

resize-raised :
    (c : Container) (key : String) (q i : ℕ)
    → lookup key (entries c.limits) ≢ some q
    → (lookup key (entries (resize c (raised key q i)).0.limits) ≡ some q)
      × (lookup key (entries (resize c (raised key q i)).0.requests)
          ≡ lookup key (entries c.requests))
unfolding lookup
resize-raised c key q i differ =
    let (limits, requests, same, reported) = resize_lem c (raised key q i) (refl, tt) (refl, tt) in
    (
      limits key ∙ rw (same_key key) refl,
      requests key ∙ rw (other_value_differs (lookup key (entries c.limits)) q differ) refl,
    )

module _ (parse : ℕ → String → Option ℕ) where
  build_resource_lists-limited :
      (type : ResizeCommodity) (key suffix : String) (old new amount q : ℕ)
      → limited type ≡ some (key, suffix)
      → get_new_amount old new ≡ some amount
      → parse (rounded amount) suffix ≡ some q
      → build_resource_lists parse (change type old new)
        ≡ some (record { capacity = (key, q) ∷ []; request = [] })
  unfolding build_resource_lists as_capacity build_resource_list same_type insert
  build_resource_lists-limited vcpu key suffix old new amount q is moved parsed = ground arith
  build_resource_lists-limited vmem key suffix old new amount q is moved parsed = ground arith
  build_resource_lists-limited vcpu_request key suffix old new amount q is moved parsed = cc
  build_resource_lists-limited vmem_request key suffix old new amount q is moved parsed = cc
  build_resource_lists-limited (other_commodity n) key suffix old new amount q is moved parsed = cc

  set_zero_request-raised :
      (cs : List Container) (i : ℕ) (c : Container) (key : String) (q : ℕ)
      → get_elem? cs i ≡ some c
      → lookup key (entries c.requests) ≡ none
      → set_zero_request cs i (record { capacity = (key, q) ∷ []; request = [] })
        ≡ built (raised key q i) (make_requests cs i)
  unfolding set_zero_request not_empty zero_requests lookup insert
  set_zero_request-raised cs i c key q at unset = ground arith

  -- For an action that changes the limit of a resource that the container has no request of: the
  -- spec that is built asks for the new limit and for a request of zero, and the resize by that spec
  -- sets the limit but leaves the container without the request, if it had another limit or none.
  -- The quantity of the new amount can be parsed and the index is that of a container.
  pub build_resize_spec-resize :
      (type : ResizeCommodity) (key suffix : String) (old new amount q : ℕ) (cs : List Container)
      (i : ℕ) (c : Container)
      → limited type ≡ some (key, suffix)
      → get_new_amount old new ≡ some amount
      → parse (rounded amount) suffix ≡ some q
      → get_elem? cs i ≡ some c
      → lookup key (entries c.requests) ≡ none
      → lookup key (entries c.limits) ≢ some q
      → let spec = raised key q i in
        (build_resize_spec parse (change type old new) cs i ≡ built spec (make_requests cs i))
        × (get_elem? (make_requests cs i) i ≡ some (made_requests c))
        × (lookup key (entries (resize (made_requests c) spec).0.limits) ≡ some q)
        × (lookup key (entries (resize (made_requests c) spec).0.requests) ≡ none)
  unfolding build_resize_spec
  build_resize_spec-resize type key suffix old new amount q cs i c is moved parsed at unset differ =
      let lists = build_resource_lists-limited type key suffix old new amount q is moved parsed in
      let spec = set_zero_request-raised cs i c key q at unset in
      let bound = get_elem?_bound cs i c at in
      let (limit, request) = resize-raised (made_requests c) key q i differ in
      (ground arith, get_elem?-make_requests cs i c at, limit, request ∙ unset)

-- ===== src/Resize/Spec/Examples.antt =====
-- A container without requests whose memory limit is raised, and the index past the last container:
-- pkg/action/executor/resize_container.go.
use kubeturbo.Prelude.{
  ℕ, ◌*◌, ◌≡◌, ◌≢◌, refl, Option, none, some, [], ◌∷◌, String, ◌==◌, string_eq, if◌then◌else◌,
  arith,
}
use kubeturbo.Prelude.Dict.{lookup, insert}
use kubeturbo.Resize.{Container, entries, resize}
use kubeturbo.Resize.Effect.{get_elem?}
use kubeturbo.Resize.Spec.{
  vmem, get_new_amount, rounded, panic, built, made_requests, make_requests, build_resize_spec,
  build_resource_lists, as_capacity, build_resource_list, same_type, set_zero_request,
}
use kubeturbo.Resize.Spec.Ignored.{change, raised, build_resize_spec-resize}

abbrev parse : ℕ → String → Option ℕ
parse n suffix = if suffix == "m" then some n else some (n * 1024000)

abbrev bare : Container
bare = record { name = "web"; limits = some (("memory", 1024000) ∷ []); requests = none }

amount-two : get_new_amount 1000 2000 ≡ some 2000
unfolding get_new_amount
amount-two = refl

parsed-two : parse (rounded 2000) "Ki" ≡ some 2048000
unfolding rounded
parsed-two = refl

bare-limit : lookup "memory" (entries bare.limits) ≡ some 1024000
unfolding lookup
bare-limit = refl

bare-other_limit : lookup "memory" (entries bare.limits) ≢ some 2048000
bare-other_limit h = ground (arith, bare-limit)

bare-no_request : lookup "memory" (entries bare.requests) ≡ none
unfolding lookup
bare-no_request = refl

build_resize_spec-resize_example :
    let spec = raised "memory" 2048000 0 in
    (build_resize_spec parse (change vmem 1000 2000) (bare ∷ []) 0
      ≡ built spec (make_requests (bare ∷ []) 0))
    × (get_elem? (make_requests (bare ∷ []) 0) 0 ≡ some (made_requests bare))
    × (lookup "memory" (entries (resize (made_requests bare) spec).0.limits) ≡ some 2048000)
    × (lookup "memory" (entries (resize (made_requests bare) spec).0.requests) ≡ none)
build_resize_spec-resize_example =
    build_resize_spec-resize parse vmem "memory" "Ki" 1000 2000 2000 2048000 (bare ∷ []) 0 bare refl
      amount-two parsed-two refl bare-no_request bare-other_limit

-- The index passes the test although there is one container only.
index_past_last : build_resize_spec parse (change vmem 1000 2000) (bare ∷ []) 1 ≡ panic
unfolding build_resize_spec build_resource_lists as_capacity build_resource_list same_type
    get_new_amount rounded set_zero_request insert
index_past_last = refl

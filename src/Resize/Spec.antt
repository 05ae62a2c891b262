-- ===== src/Resize/Spec.antt =====
-- What a resize of a container asks for: buildResizeSpec of pkg/action/executor/resize_container.go,
-- with the quantities of resize_container_util.go.
pub mod Ignored
mod Examples
use kubeturbo.Prelude.{
  ℕ, zero, suc, ◌+◌, ◌*◌, ◌/◌, Bool, true, false, ◌||◌, not, Option, none, some, List, [], ◌∷◌,
  String, ◌==◌, nat_eq, string_eq, if◌then◌else◌, ltb, length,
}
use kubeturbo.Prelude.Dict.{lookup, insert}
use kubeturbo.Quota.Resources.{ResourceList}
use kubeturbo.Resize.{Container, ContainerResizeSpec, entries}
use kubeturbo.Resize.Effect.{get_elem?}

-- The types that the code names; the number stands for any other.
pub data ResizeCommodity : Type 0 where
  vcpu vmem vcpu_request vmem_request : ResizeCommodity
  other_commodity : ℕ → ResizeCommodity

unfoldable pub same_type : ResizeCommodity → ResizeCommodity → Bool
same_type vcpu vcpu = true
same_type vmem vmem = true
same_type vcpu_request vcpu_request = true
same_type vmem_request vmem_request = true
same_type (other_commodity m) (other_commodity n) = m == n
same_type _ _ = false

-- The current and the new commodity of an action, which are both there. A capacity is a float64
-- that is not negative, here in thousandths.
pub record ResizeItem : Type 0 where
  pub current_type : ResizeCommodity
  pub current_capacity : ℕ
  pub new_type : ResizeCommodity
  pub new_capacity : ℕ

-- `epsilon` is 0.001 and `smallestAmount` is 1.0; `none` where nothing changes.
unfoldable pub get_new_amount : ℕ → ℕ → Option ℕ
get_new_amount current new =
    if current == new then none else (if ltb new 1000 then some 1000 else some new)

-- `math.Round`, and 1 at least.
unfoldable pub rounded : ℕ → ℕ
rounded value = let n = (value + 500) / 1000 in if ltb n 1 then 1 else n

-- The maps whose names the code has, as the spec before the zero requests. Both are made, so not nil.
pub record Lists : Type 0 where
  pub capacity : ResourceList
  pub request : ResourceList

-- An error, a panic by an index out of range, or the spec with the containers, as they are left.
pub data Built : Type 0 where
  failed panic : Built
  built : ContainerResizeSpec → List Container → Built

-- The loop over the new capacities, over the new requests.
unfoldable pub zero_requests : ResourceList → ResourceList → ResourceList → ResourceList
zero_requests orig [] request = request
zero_requests orig ((k, v) ∷ capacity) request =
    zero_requests orig capacity (elim (lookup k request) [
      | some r ↦ request
      | none ↦ elim (lookup k orig) [ some r ↦ request | none ↦ insert k 0 request ]
    ])

abbrev pub made_requests : Container → Container
made_requests c = record c { requests = some (entries c.requests) }

-- The map of requests of the container is made where it is nil.
unfoldable pub make_requests : List Container → ℕ → List Container
make_requests [] i = []
make_requests (c ∷ cs) zero = made_requests c ∷ cs
make_requests (c ∷ cs) (suc i) = c ∷ make_requests cs i

unfoldable pub not_empty : ℕ → Lists → List Container → Built
not_empty i lists cs = elim lists.capacity [
  | e ∷ es ↦
      built (record { new_capacity = some (e ∷ es); new_request = some lists.request; index = i })
        cs
  | [] ↦ elim lists.request [
    | [] ↦ failed
    | e ∷ es ↦ built (record { new_capacity = some []; new_request = some (e ∷ es); index = i }) cs
  ]
]

-- setZeroRequest, which reads the container only if there is a new capacity, and the test that
-- follows it.
unfoldable pub set_zero_request : List Container → ℕ → Lists → Built
set_zero_request cs i lists = elim lists.capacity [
  | [] ↦ not_empty i lists cs
  | e ∷ es ↦ elim (get_elem? cs i) [
    | none ↦ panic
    | some c ↦
        not_empty i
          (record lists { request = zero_requests (entries c.requests) (e ∷ es) lists.request })
          (make_requests cs i)
  ]
]

-- `parse` is ParseQuantity of the Kubernetes library, of a whole number and a suffix.
module _ (parse : ℕ → String → Option ℕ) where
  -- The resource of a commodity and its quantity.
  unfoldable pub build_resource_list : ResizeCommodity → ℕ → ResourceList → Option ResourceList
  build_resource_list type amount result =
      let cpu : Option ResourceList = elim (parse (rounded amount) "m") [
        | none ↦ none
        | some q ↦ some (insert "cpu" q result)
      ] in
      let memory : Option ResourceList = elim (parse (rounded amount) "Ki") [
        | none ↦ none
        | some q ↦ some (insert "memory" q result)
      ] in
      elim type [
        | vcpu ↦ cpu
        | vcpu_request ↦ cpu
        | vmem ↦ memory
        | vmem_request ↦ memory
        | other_commodity n ↦ none
      ]

  unfoldable pub as_capacity : ResizeCommodity → ℕ → Option Lists
  as_capacity type amount = elim (build_resource_list type amount []) [
    | none ↦ none
    | some m ↦ some (record { capacity = m; request = [] })
  ]

  unfoldable pub as_request : ResizeCommodity → ℕ → Option Lists
  as_request type amount = elim (build_resource_list type amount []) [
    | none ↦ none
    | some m ↦ some (record { capacity = []; request = m })
  ]

  unfoldable pub build_resource_lists : ResizeItem → Option Lists
  build_resource_lists item =
      if not (same_type item.current_type item.new_type)
      then none
      else elim (get_new_amount item.current_capacity item.new_capacity) [
        | none ↦ some (record { capacity = []; request = [] })
        | some amount ↦ elim item.new_type [
          | vcpu ↦ as_capacity vcpu amount
          | vmem ↦ as_capacity vmem amount
          | vcpu_request ↦ as_request vcpu_request amount
          | vmem_request ↦ as_request vmem_request amount
          | other_commodity n ↦ none
        ]
      ]

  -- The index is compared with `>`.
  unfoldable pub build_resize_spec : ResizeItem → List Container → ℕ → Built
  build_resize_spec item cs i =
      if ltb (length cs) i then failed else elim (build_resource_lists item) [
        | none ↦ failed
        | some lists ↦ set_zero_request cs i lists
      ]

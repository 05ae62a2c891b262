-- ===== src/Quota/Concrete.antt =====
-- An instance of the interface to the Kubernetes library for resource lists.
use kubeturbo.Prelude.{
  ◌+◌, ◌≡◌, ◌∙◌, ap, refl, ◌↔◌, Bool, true, false, ◌&&◌, none, some, List, [], ◌∷◌, String, ◌==◌,
  string_eq, if◌then◌else◌, is_some, arith, Bool-cases, inl, inr, subst,
}
use kubeturbo.Prelude.Dict.{lookup, insert, lookup-insert}
use kubeturbo.Quota.Resources.{ResourceList, ResourceOps, in_list, amount, above}

unfoldable pub add_lists : ResourceList → ResourceList → ResourceList
add_lists [] b = b
add_lists ((k, v) ∷ a) b = insert k (v + amount (lookup k b)) (add_lists a b)

pub lookup-add :
    (j : String) (a b : ResourceList)
    → lookup j (add_lists a b) ≡ (
        if is_some (lookup j a)
        then some (amount (lookup j a) + amount (lookup j b))
        else lookup j b)
unfolding add_lists lookup
lookup-add j [] b = refl
lookup-add j ((k, v) ∷ a) b =
    lookup-insert k j (v + amount (lookup k b)) (add_lists a b) ∙ elim (Bool-cases (k == j)) [
      | inl same ↦ ground (arith, same, (string_eq.beq_iff k j).0 same)
      | inr other ↦ ground (arith, other, lookup-add j a b)
    ]

unfoldable pub mask : ResourceList → List String → ResourceList
mask [] names = []
mask ((k, v) ∷ a) names = if in_list k names then (k, v) ∷ mask a names else mask a names

pub lookup-mask :
    (j : String) (a : ResourceList) (names : List String)
    → lookup j (mask a names) ≡ (if in_list j names then lookup j a else none)
unfolding mask lookup
lookup-mask j [] names = ground arith
lookup-mask j ((k, v) ∷ a) names = elim (Bool-cases (k == j)) [
  | inl same ↦
      subst
        (λ i.
          lookup i (mask ((k, v) ∷ a) names)
          ≡ (if in_list i names then lookup i ((k, v) ∷ a) else none))
        ((string_eq.beq_iff k j).0 same)
        (ground (arith, string_eq.beq_iff k k, lookup-mask k a names))
  | inr other ↦ ground (arith, other, lookup-mask j a names)
]

unfoldable pub resource_names : ResourceList → List String
resource_names [] = []
resource_names ((k, v) ∷ a) = k ∷ resource_names a

pub in_list-resource_names :
    (j : String) (a : ResourceList) → in_list j (resource_names a) ≡ is_some (lookup j a)
unfolding in_list resource_names lookup
in_list-resource_names j [] = refl
in_list-resource_names j ((k, v) ∷ a) =
    ground (arith, string_eq.beq_iff j k, string_eq.beq_iff k j, in_list-resource_names j a)

unfoldable pub filter : (String → Bool) → List String → List String
filter p [] = []
filter p (x ∷ xs) = if p x then x ∷ filter p xs else filter p xs

in_list-filter :
    (p : String → Bool) (j : String) (names : List String)
    → in_list j (filter p names) ≡ (in_list j names && p j)
unfolding in_list filter
in_list-filter p j [] = refl
in_list-filter p j (x ∷ xs) = elim (Bool-cases (j == x)) [
  | inl same ↦ ground (arith, same, ap p ((string_eq.beq_iff j x).0 same), in_list-filter p j xs)
  | inr other ↦ ground (arith, other, in_list-filter p j xs)
]

abbrev pub is_empty : List String → Bool
is_empty [] = true
is_empty (x ∷ xs) = false

unfoldable pub less_than_or_equal : ResourceList → ResourceList → Bool × List String
less_than_or_equal a b =
    let exceeded = filter (λ k. above (lookup k a) (lookup k b)) (resource_names b) in
    (is_empty exceeded, exceeded)

pub in_list-exceeded :
    (k : String) (a b : ResourceList)
    → in_list k (less_than_or_equal a b).1 ≡ above (lookup k a) (lookup k b)
unfolding less_than_or_equal
in_list-exceeded k a b =
    in_list-filter (λ j. above (lookup j a) (lookup j b)) k (resource_names b)
    ∙ ground (arith, in_list-resource_names k b)

is_empty-in_list :
    (names : List String) → (is_empty names ≡ true) ↔ ((k : String) → in_list k names ≡ false)
unfolding in_list
is_empty-in_list [] = (λ e k. refl, λ h. refl)
is_empty-in_list (x ∷ xs) = (λ e k. ground arith, λ h. ground (arith, h x, string_eq.beq_iff x x))

pub allowed-exceeded :
    (a b : ResourceList)
    → ((less_than_or_equal a b).0 ≡ true)
      ↔ ((k : String) → in_list k (less_than_or_equal a b).1 ≡ false)
unfolding less_than_or_equal
allowed-exceeded a b =
    is_empty-in_list (filter (λ k. above (lookup k a) (lookup k b)) (resource_names b))

abbrev pub concrete_ops : ResourceOps
concrete_ops = record {
  add = add_lists;
  lookup-add = lookup-add;
  mask = mask;
  lookup-mask = lookup-mask;
  resource_names = resource_names;
  in_list-resource_names = in_list-resource_names;
  less_than_or_equal = less_than_or_equal;
  in_list-exceeded = in_list-exceeded;
  allowed-exceeded = allowed-exceeded;
}

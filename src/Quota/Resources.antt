-- ===== src/Quota/Resources.antt =====
-- The Kubernetes library for resource lists that pkg/action/executor/quota_util.go calls, as an
-- interface: its operations and what is documented of them.
use kubeturbo.Prelude.{
  ℕ, ◌+◌, ◌≡◌, ◌↔◌, Bool, true, false, Option, none, some, List, String, ◌==◌, string_eq, any,
  if◌then◌else◌, is_some, ltb,
}
use kubeturbo.Prelude.Dict.{Dict, lookup}

-- A quantity is a number of a unit that is small enough for all of them.
abbrev pub ResourceList : Type 0
ResourceList = Dict String ℕ

-- `inList` of quota_util.go.
unfoldable pub in_list : String → List String → Bool
in_list k keys = any (λ key. k == key) keys

abbrev pub amount : Option ℕ → ℕ
amount none = 0
amount (some v) = v

-- A resource of both lists that the first one has more of.
abbrev pub above : Option ℕ → Option ℕ → Bool
above (some v) (some limit) = ltb limit v
above _ _ = false

pub record ResourceOps : Type 0 where
  -- `quota.Add`: the sum, over the resources of either list.
  pub add : ResourceList → ResourceList → ResourceList
  pub lookup-add :
      (k : String) (a b : ResourceList)
      → lookup k (add a b) ≡ (
          if is_some (lookup k a)
          then some (amount (lookup k a) + amount (lookup k b))
          else lookup k b)
  -- `quota.Mask`: the resources that are named.
  pub mask : ResourceList → List String → ResourceList
  pub lookup-mask :
      (k : String) (a : ResourceList) (names : List String)
      → lookup k (mask a names) ≡ (if in_list k names then lookup k a else none)
  -- `quota.ResourceNames`.
  pub resource_names : ResourceList → List String
  pub in_list-resource_names :
      (k : String) (a : ResourceList) → in_list k (resource_names a) ≡ is_some (lookup k a)
  -- `quota.LessThanOrEqual`: whether no resource is above the limit, and those that are.
  pub less_than_or_equal : ResourceList → ResourceList → Bool × List String
  pub in_list-exceeded :
      (k : String) (a b : ResourceList)
      → in_list k (less_than_or_equal a b).1 ≡ above (lookup k a) (lookup k b)
  pub allowed-exceeded :
      (a b : ResourceList)
      → ((less_than_or_equal a b).0 ≡ true)
        ↔ ((k : String) → in_list k (less_than_or_equal a b).1 ≡ false)

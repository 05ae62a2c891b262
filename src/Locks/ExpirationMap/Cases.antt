-- ===== src/Locks/ExpirationMap/Cases.antt =====
-- Case rules for the operations of pkg/action/util/expiration_map.go: what to show of each outcome.
use kubeturbo.Prelude.{
  ℕ, ◌≡◌, inl, inr, Bool-cases, true, none, some, String, ◌==◌, nat_eq, string_eq, Option-cases,
}
use kubeturbo.Prelude.Dict.{lookup, insert, delete}
use kubeturbo.Locks.ExpirationMap.{
  ExpirationMap, Node, new_item, is_expire, add, del, touch, touch_node, expire_item,
}

module _ {ℓ} {Obj Call : Type 0} (P : ExpirationMap Obj Call → Type ℓ) (s : ExpirationMap Obj Call)
    (k : String) where
  pub add_cases :
      (o : Obj) (c : Call) (now : ℕ)
      → P s
      → (lookup k s.items ≡ none
          → P (record s {
            items = insert k (new_item s o c now) s.items;
            generation = (new_item s o c now).version;
          }))
      → P (add s k o c now).0
  unfolding add
  add_cases o c now refused granted = elim (Option-cases (lookup k s.items)) [
    | inl absent ↦ rw (absent, add) (granted absent)
    | inr (item, found) ↦ rw (found, add) refused
  ]

  pub del_cases : (w : ℕ) → P s → P (record s { items = delete k s.items }) → P (del s k w).0
  unfolding del
  del_cases w refused gone = elim (Option-cases (lookup k s.items)) [
    | inl absent ↦ rw (absent, del) refused
    | inr (item, found) ↦ elim (Bool-cases (item.version == w)) [
      | inl own ↦ rw (found, del) (rw own gone)
      | inr other ↦ rw (found, del) (rw other refused)
    ]
  ]

  pub touch_cases :
      (w now again : ℕ)
      → P s
      → ((item : Node Obj Call)
          → lookup k s.items ≡ some item
          → item.version ≡ w
          → P (record s { items = insert k (touch_node item s.ttl now again).0 s.items }))
      → P (touch s k w now again).0
  unfolding touch
  touch_cases w now again refused touched = elim (Option-cases (lookup k s.items)) [
    | inl absent ↦ rw (absent, touch) refused
    | inr (item, found) ↦ elim (Bool-cases (item.version == w)) [
      | inl own ↦ rw (found, touch) (rw own (touched item found ((nat_eq.beq_iff _ _).0 own)))
      | inr other ↦ rw (found, touch) (rw other refused)
    ]
  ]

  pub expire_item_cases :
      (now : ℕ)
      → P s
      → ((item : Node Obj Call)
          → lookup k s.items ≡ some item
          → is_expire item now ≡ true
          → P (record s { items = delete k s.items }))
      → P (expire_item s k now).0
  unfolding expire_item
  expire_item_cases now kept expired = elim (Option-cases (lookup k s.items)) [
    | inl absent ↦ rw (absent, expire_item) kept
    | inr (item, found) ↦ elim (Bool-cases (is_expire item now)) [
      | inl late ↦ rw (found, expire_item) (rw late (expired item found late))
      | inr early ↦ rw (found, expire_item) (rw early kept)
    ]
  ]

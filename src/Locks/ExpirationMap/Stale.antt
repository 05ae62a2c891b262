-- ===== src/Locks/ExpirationMap/Stale.antt =====
-- Versions of pkg/action/util/expiration_map.go whose entry is gone, and the late holder that still
-- has one.
use kubeturbo.Prelude.{
  ℕ, ◌+◌, ◌≤◌, ◌<◌, ◌≡◌, ◌≢◌, true, false, Option, none, some, List, [], ◌∷◌, String, nat_eq,
  string_eq, arith, Option-cases, inl, inr,
}
use kubeturbo.Prelude.Dict.{lookup, delete, lookup-insert, lookup-delete, All-lookup}
use kubeturbo.Locks.ExpirationMap.{
  ExpirationMap, Node, int64_mod, new_item, del, touch, touch_node, expire_item,
}
use kubeturbo.Locks.ExpirationMap.Cases.{add_cases, del_cases, touch_cases, expire_item_cases}
use kubeturbo.Locks.ExpirationMap.Invariant.{IsValid, Sound, generation-step_room}
use kubeturbo.Locks.ExpirationMap.Steps.{Event, adds, dels, touches, expires, step, run, count_adds}

module _ {Obj Call : Type 0} where
  abbrev pub version_of : Option (Node Obj Call) → Option ℕ
  version_of none = none
  version_of (some item) = some item.version

  -- The version was given out, and the key does not carry it.
  abbrev pub IsSpent : String → ℕ → ExpirationMap Obj Call → Type 0
  IsSpent key version s =
      (version ≤ s.generation) × (version_of (lookup key s.items) ≢ some version)

  module _ (s : ExpirationMap Obj Call) (key : String) (version : ℕ)
      (gone : IsSpent key version s) where
    step-IsSpent :
        (e : Event Obj Call) → s.generation + 1 < int64_mod → IsSpent key version (step s e)
    unfolding step touch_node
    step-IsSpent (adds k o c now) room = add_cases (IsSpent key version) s k o c now gone λ absent.
        ground (arith, string_eq.beq_iff k key, lookup-insert k key (new_item s o c now) s.items)
    step-IsSpent (dels k w) room =
        del_cases (IsSpent key version) s k w gone
          (ground (arith, string_eq.beq_iff k key, lookup-delete k key s.items))
    step-IsSpent (touches k w now again) room =
        touch_cases (IsSpent key version) s k w now again gone λ item found own. ground (
          arith,
          string_eq.beq_iff k key,
          lookup-insert k key (touch_node item s.ttl now again).0 s.items,
        )
    step-IsSpent (expires k now) room =
        expire_item_cases (IsSpent key version) s k now gone
          λ item found late. ground (arith, string_eq.beq_iff k key, lookup-delete k key s.items)

    IsSpent-refused :
        (now again : ℕ)
        → (del s key version ≡ (s, false)) × (touch s key version now again ≡ (s, false))
    unfolding del touch
    IsSpent-refused now again = (ground arith, ground arith)

  run-IsSpent :
      (s : ExpirationMap Obj Call) (key : String) (version : ℕ) (es : List (Event Obj Call))
      → IsSpent key version s
      → s.generation + count_adds es + 1 < int64_mod
      → IsSpent key version (run s es)
  unfolding run
  run-IsSpent s key version [] gone room = gone
  run-IsSpent s key version (e ∷ es) gone room =
      run-IsSpent (step s e) key version es (step-IsSpent s key version gone e (omega arith))
        (generation-step_room s e es room)

  -- What is left of the entry `item` once it is deleted.
  delete-IsSpent :
      (s : ExpirationMap Obj Call) (key : String) (item : Node Obj Call) (now : ℕ)
      → IsValid s now
      → lookup key s.items ≡ some item
      → IsSpent key item.version (record s { items = delete key s.items })
  delete-IsSpent s key item now v found =
      let old : Sound s.generation (now + s.ttl) key item =
        All-lookup (Sound s.generation (now + s.ttl)) key item s.items v.sound found in
      (old.1, ground (arith, string_eq.beq_iff key key, lookup-delete key key s.items))

  del-IsSpent :
      (s t : ExpirationMap Obj Call) (key : String) (version now : ℕ)
      → IsValid s now
      → del s key version ≡ (t, true)
      → IsSpent key version t × (t.generation ≡ s.generation)
  unfolding del
  del-IsSpent s t key version now v e = elim (Option-cases (lookup key s.items)) [
    | inl absent ↦ ground (arith, absent)
    | inr (item, found) ↦ ground (arith, found, delete-IsSpent s key item now v found)
  ]

  expire_item-IsSpent :
      (s t : ExpirationMap Obj Call) (key : String) (item : Node Obj Call) (now at : ℕ)
      (call : Option (Call × Obj))
      → IsValid s now
      → lookup key s.items ≡ some item
      → expire_item s key at ≡ (t, true, call)
      → IsSpent key item.version t × (t.generation ≡ s.generation)
  unfolding expire_item
  expire_item-IsSpent s t key item now at call v found e =
      ground (arith, found, delete-IsSpent s key item now v found)

  -- After a `Del` that succeeded in a well-formed map, its version is dead: whatever happens in the map afterwards, also
  -- if the key is added again, neither `Del` nor `Touch` with that version changes anything or
  -- reports success. The counter must not wrap.
  pub del-run-stale :
      (s t : ExpirationMap Obj Call) (key : String) (version now later again : ℕ)
      (es : List (Event Obj Call))
      → IsValid s now
      → del s key version ≡ (t, true)
      → s.generation + count_adds es + 1 < int64_mod
      → (del (run t es) key version ≡ (run t es, false))
        × (touch (run t es) key version later again ≡ (run t es, false))
  del-run-stale s t key version now later again es v e room =
      let (gone, same) = del-IsSpent s t key version now v e in
      IsSpent-refused (run t es) key version (run-IsSpent t key version es gone (omega arith)) later
        again

  -- The version of an entry that expired in a well-formed map is dead too: a holder that still has it
  -- can neither release nor renew the entry of a successor. The counter must not wrap.
  pub expire_item-run-stale :
      (s t : ExpirationMap Obj Call) (key : String) (item : Node Obj Call) (now at later again : ℕ)
      (call : Option (Call × Obj)) (es : List (Event Obj Call))
      → IsValid s now
      → lookup key s.items ≡ some item
      → expire_item s key at ≡ (t, true, call)
      → s.generation + count_adds es + 1 < int64_mod
      → (del (run t es) key item.version ≡ (run t es, false))
        × (touch (run t es) key item.version later again ≡ (run t es, false))
  expire_item-run-stale s t key item now at later again call es v found e room =
      let (gone, same) = expire_item-IsSpent s t key item now at call v found e in
      IsSpent-refused (run t es) key item.version
        (run-IsSpent t key item.version es gone (omega arith)) later again

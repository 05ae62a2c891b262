-- ===== src/Locks/ExpirationMap/Exclusive.antt =====
-- What a holder of an entry of pkg/action/util/expiration_map.go may rely on until the deadline.
use kubeturbo.Prelude.{
  ℕ, ◌+◌, ◌≤◌, ◌≡◌, refl, ◌∙◌, ◌≢◌, ◌⊎◌, inl, inr, true, false, Option, none, some, List, [], ◌∷◌,
  String, All, nat_eq, string_eq, arith, Option-cases,
}
use kubeturbo.Prelude.Dict.{lookup, lookup-insert, lookup-delete}
use kubeturbo.Locks.ExpirationMap.{
  new_item, ExpirationMap, Node, add, del, touch, touch_node, expire_item,
}
use kubeturbo.Locks.ExpirationMap.Steps.{Event, adds, dels, touches, expires, step, run, Within}

module _ {Obj Call : Type 0} where
  abbrev pub Holds : ℕ → ℕ → Option (Node Obj Call) → Type 0
  Holds version deadline none = ⊥
  Holds version deadline (some item) = (item.version ≡ version) × (deadline ≤ item.expire)

  -- The entry of the key carries the version, and does not expire before the deadline.
  abbrev pub HeldUntil : ExpirationMap Obj Call → String → ℕ → ℕ → Type 0
  HeldUntil s key version deadline = Holds version deadline (lookup key s.items)

  -- The event is not the holder's own release.
  abbrev pub Keeps : String → ℕ → Event Obj Call → Type 0
  Keeps key version (dels k w) = (k ≢ key) ⊎ (w ≢ version)
  Keeps key version _ = Unit {0}

  module _ (s : ExpirationMap Obj Call) (key : String) (version deadline : ℕ)
      (h : HeldUntil s key version deadline) where
    add-HeldUntil :
        (k : String) (o : Obj) (c : Call) (now : ℕ)
        → HeldUntil (add s k o c now).0 key version deadline
    unfolding add
    add-HeldUntil k o c now =
        ground (arith, string_eq.beq_iff k key, lookup-insert k key (new_item s o c now) s.items)

    del-HeldUntil :
        (k : String) (w : ℕ)
        → (k ≢ key) ⊎ (w ≢ version)
        → HeldUntil (del s k w).0 key version deadline
    unfolding del
    del-HeldUntil k w other = ground (arith, string_eq.beq_iff k key, lookup-delete k key s.items)

    expire_item-HeldUntil :
        (k : String) (now : ℕ)
        → now ≤ deadline
        → HeldUntil (expire_item s k now).0 key version deadline
    unfolding expire_item
    expire_item-HeldUntil k now early =
        ground (arith, string_eq.beq_iff k key, lookup-delete k key s.items)

    touch-HeldUntil :
        (k : String) (w now again : ℕ)
        → deadline ≤ again + s.ttl
        → HeldUntil (touch s k w now again).0 key version deadline
    unfolding touch
    touch-HeldUntil k w now again late = elim (Option-cases (lookup k s.items)) [
      | inl absent ↦ rw (absent, touch) h
      | inr (item, found) ↦ ground (
        arith,
        string_eq.beq_iff k key,
        lookup-insert k key (touch_node item s.ttl now again).0 s.items,
      )
    ]

    step-HeldUntil :
        (from : ℕ) (e : Event Obj Call)
        → deadline ≤ from + s.ttl
        → Within from deadline e
        → Keeps key version e
        → HeldUntil (step s e) key version deadline
    unfolding step
    step-HeldUntil from (adds k o c now) late w keep = add-HeldUntil k o c now
    step-HeldUntil from (dels k v) late w keep = del-HeldUntil k v keep
    step-HeldUntil from (touches k v now again) late w keep =
        touch-HeldUntil k v now again (omega arith)
    step-HeldUntil from (expires k now) late w keep = expire_item-HeldUntil k now w.1

  pub ttl-step : (s : ExpirationMap Obj Call) (e : Event Obj Call) → (step s e).ttl ≡ s.ttl
  unfolding step add del touch expire_item
  ttl-step s (adds k o c now) = ground arith
  ttl-step s (dels k v) = ground arith
  ttl-step s (touches k v now again) = ground arith
  ttl-step s (expires k now) = ground arith

  pub run-HeldUntil :
      (s : ExpirationMap Obj Call) (key : String) (version deadline from : ℕ)
      (es : List (Event Obj Call))
      → HeldUntil s key version deadline
      → deadline ≤ from + s.ttl
      → All (Within from deadline) es
      → All (Keeps key version) es
      → HeldUntil (run s es) key version deadline
  unfolding run
  run-HeldUntil s key version deadline from [] h late w keep = h
  run-HeldUntil s key version deadline from (e ∷ es) h late w keep =
      run-HeldUntil (step s e) key version deadline from es
        (step-HeldUntil s key version deadline h from e late w.0 keep.0)
        (omega (arith, ttl-step s e)) w.1 keep.1

  pub ttl-run : (s : ExpirationMap Obj Call) (es : List (Event Obj Call)) → (run s es).ttl ≡ s.ttl
  unfolding run
  ttl-run s [] = refl
  ttl-run s (e ∷ es) = ttl-run (step s e) es ∙ ttl-step s e

  -- A holder's `Touch` in time succeeds.
  pub touch_held :
      (s : ExpirationMap Obj Call) (key : String) (version deadline now again : ℕ)
      → HeldUntil s key version deadline
      → now ≤ deadline
      → (touch s key version now again).1 ≡ true
  unfolding touch touch_node
  touch_held s key version deadline now again h early = ground arith

  pub add_refused :
      (s : ExpirationMap Obj Call) (key : String) (o : Obj) (c : Call) (now version deadline : ℕ)
      → HeldUntil s key version deadline
      → add s key o c now ≡ (s, 0, false)
  unfolding add
  add_refused s key o c now version deadline h = ground arith

  pub add_grants :
      (s t : ExpirationMap Obj Call) (key : String) (o : Obj) (c : Call) (now version : ℕ)
      → add s key o c now ≡ (t, version, true)
      → HeldUntil t key version (now + t.ttl)
  unfolding add
  add_grants s t key o c now version e =
      ground (arith, string_eq.beq_iff key key, lookup-insert key key (new_item s o c now) s.items)

  -- Once `Add` has granted the key, an `Add` of it that follows any history of the map within the time
  -- to live is refused without effect, unless the history has a `Del` of the granted version.
  pub add-run-add :
      (s t : ExpirationMap Obj Call) (key : String) (o o' : Obj) (c c' : Call)
      (now version later : ℕ) (es : List (Event Obj Call))
      → add s key o c now ≡ (t, version, true)
      → All (Within now (now + t.ttl)) es
      → All (Keeps key version) es
      → add (run t es) key o' c' later ≡ (run t es, 0, false)
  add-run-add s t key o o' c c' now version later es e w keep =
      add_refused (run t es) key o' c' later version (now + t.ttl) (
        run-HeldUntil t key version (now + t.ttl) now es (add_grants s t key o c now version e)
          (omega arith) w keep)

  pub touch_grants :
      (s t : ExpirationMap Obj Call) (key : String) (version now again : ℕ)
      → touch s key version now again ≡ (t, true)
      → HeldUntil t key version (again + t.ttl)
  unfolding touch touch_node
  touch_grants s t key version now again e = elim (Option-cases (lookup key s.items)) [
    | inl absent ↦ ground (arith, absent)
    | inr (item, found) ↦ ground (
      arith,
      string_eq.beq_iff key key,
      lookup-insert key key (record item { expire = again + s.ttl }) s.items,
    )
  ]

  -- A successful `Touch` starts the time to live anew: an `Add` of the key that follows any history of
  -- the map within it is refused without effect, unless the history has a `Del` of that version.
  pub touch-run-add :
      (s t : ExpirationMap Obj Call) (key : String) (o : Obj) (c : Call)
      (version now again later : ℕ) (es : List (Event Obj Call))
      → touch s key version now again ≡ (t, true)
      → All (Within again (again + t.ttl)) es
      → All (Keeps key version) es
      → add (run t es) key o c later ≡ (run t es, 0, false)
  touch-run-add s t key o c version now again later es e w keep =
      add_refused (run t es) key o c later version (again + t.ttl) (
        run-HeldUntil t key version (again + t.ttl) again es
          (touch_grants s t key version now again e) (omega arith) w keep)

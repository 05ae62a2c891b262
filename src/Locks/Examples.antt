-- ===== src/Locks/Examples.antt =====
-- Small histories of the lock map of pkg/action/util, and the theorems about it at them.
use kubeturbo.Prelude.{
  ℕ, ◌+◌, ◌<◌, ◌≤◌, ◌≡◌, refl, true, false, inr, none, some, List, [], ◌∷◌, map, String, arith,
  string_eq, nat_eq, length,
}
use kubeturbo.Prelude.Dict.{lookup, insert, delete, IsMap}
use kubeturbo.Locks.ExpirationMap.{
  ExpirationMap, Node, add, del, touch, touch_node, expire_item, expired_keys, expire_items, size,
}
use kubeturbo.Locks.ExpirationMap.Steps.{Event, adds, dels, touches, expires, step, run}
use kubeturbo.Locks.ExpirationMap.Exclusive.{add-run-add, touch-run-add}
use kubeturbo.Locks.ExpirationMap.Invariant.{IsValid, run-IsValid}
use kubeturbo.Locks.ExpirationMap.Stale.{del-run-stale}
use kubeturbo.Locks.ExpirationMap.Leases.{view, table_run, replies, run-table_run}
use kubeturbo.Locks.ExpirationMap.Sweep.{expire_items_lem}

abbrev empty : ExpirationMap String ℕ
empty = record { items = []; generation = 0; ttl = 10 }

abbrev entry : Node String ℕ
entry = record { obj = "a"; version = 1; expire = 15; call_back = 0 }

-- After `Add("a")` at 5.
abbrev held : ExpirationMap String ℕ
held = record { items = ("a", entry) ∷ []; generation = 1; ttl = 10 }

-- Another key comes and is renewed, `a` is swept too early and deleted with a wrong version.
abbrev busy : List (Event String ℕ)
busy = adds "b" "b" 0 7 ∷ touches "b" 2 8 9 ∷ expires "a" 15 ∷ dels "a" 9 ∷ []

add-empty : add empty "a" "a" 0 5 ≡ (held, 1, true)
unfolding add lookup insert
add-empty = refl

add-run-add_example : add (run held busy) "a" "x" 0 14 ≡ (run held busy, 0, false)
add-run-add_example =
    add-run-add empty held "a" "a" "x" 0 0 5 1 14 busy add-empty (omega arith)
      (tt, (tt, (tt, (inr (omega arith), tt))))

-- After `Touch("a", 1)` at 12 and 13.
abbrev renewed : ExpirationMap String ℕ
renewed = record { items = ("a", record entry { expire = 23 }) ∷ []; generation = 1; ttl = 10 }

touch-held : touch held "a" 1 12 13 ≡ (renewed, true)
unfolding touch touch_node lookup insert
touch-held = refl

touch-run-add_example :
    add (run renewed (expires "a" 20 ∷ [])) "a" "x" 0 22
    ≡ (run renewed (expires "a" 20 ∷ []), 0, false)
touch-run-add_example =
    touch-run-add held renewed "a" "x" 0 1 12 13 22 (expires "a" 20 ∷ []) touch-held (omega arith)
      (tt, tt)

held-IsValid : IsValid held 5
unfolding lookup
held-IsValid = record { unique = (refl, tt); sound = omega arith }

abbrev freed : ExpirationMap String ℕ
freed = record { items = []; generation = 1; ttl = 10 }

del-held : del held "a" 1 ≡ (freed, true)
unfolding del lookup delete
del-held = refl

abbrev again : List (Event String ℕ)
again = adds "a" "a" 0 30 ∷ []

del-run-stale_example :
    (del (run freed again) "a" 1 ≡ (run freed again, false))
    × (touch (run freed again) "a" 1 31 32 ≡ (run freed again, false))
del-run-stale_example =
    del-run-stale held freed "a" 1 5 31 32 again held-IsValid del-held (omega arith)

lookup_held : lookup "a" held.items ≡ some entry
unfolding lookup
lookup_held = refl

expire_held : expire_item held "a" 16 ≡ (freed, true, some (0, "a"))
unfolding expire_item lookup delete
expire_held = refl

abbrev orderly : List (Event String ℕ)
orderly = adds "b" "b" 0 7 ∷ touches "a" 1 8 9 ∷ dels "a" 1 ∷ expires "b" 30 ∷ []

run-IsValid_example : IsValid (run held orderly) 30
run-IsValid_example = run-IsValid held 5 orderly held-IsValid (omega arith) (omega arith)

run-table_run_example :
    (view (run held busy) ≡ (table_run (view held) busy).0)
    × (replies held busy ≡ (table_run (view held) busy).1)
run-table_run_example = run-table_run held busy

replies-busy : map (λ r. r.done) (replies held busy) ≡ true ∷ true ∷ false ∷ false ∷ []
unfolding step add del touch touch_node expire_item lookup insert delete
replies-busy = refl

-- Of two entries the sweep between 20 and 23 deletes the one that is late.
abbrev two : ExpirationMap String ℕ
two = record {
  items = ("a", entry) ∷ ("b", record entry { obj = "b"; version = 2; expire = 90 }) ∷ [];
  generation = 2;
  ttl = 10;
}

expire_items-two : (expire_items two (λ i. 20 + i)).1 ≡ 1
unfolding expire_items expired_keys
expire_items-two = refl

two-IsMap : IsMap two.items
unfolding lookup
two-IsMap = (refl, (refl, tt))

expire_items_lem_example :
    let (t, deleted) = expire_items two (λ i. 20 + i) in
    (size t + deleted ≡ size two)
    × ((key : String) → lookup key two.items ≡ none → lookup key t.items ≡ none)
    × ((key : String) (item : Node String ℕ)
        → lookup key two.items ≡ some item
        → item.expire < 20 + 0
        → lookup key t.items ≡ none)
    × ((key : String) (item : Node String ℕ)
        → lookup key two.items ≡ some item
        → 20 + length two.items ≤ item.expire
        → lookup key t.items ≡ some item)
expire_items_lem_example = expire_items_lem (λ i. 20 + i) two (λ i j h. omega arith) two-IsMap

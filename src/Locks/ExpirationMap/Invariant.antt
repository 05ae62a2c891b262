-- ===== src/Locks/ExpirationMap/Invariant.antt =====
-- The well-formedness of the map of pkg/action/util/expiration_map.go and its operations.
use kubeturbo.Prelude.{ℕ, ◌+◌, ◌≤◌, ◌<◌, ◌≡◌, List, [], ◌∷◌, String, All, string_eq, arith}
use kubeturbo.Prelude.Dict.{
  Dict, IsMap, insert-IsMap, delete-IsMap, All-insert, All-delete, All-lookup,
}
use kubeturbo.Locks.ExpirationMap.{
  ExpirationMap, Node, int64_mod, new_item, new_expiration_map, add, del, touch, touch_node,
  expire_item,
}
use kubeturbo.Locks.ExpirationMap.Cases.{add_cases, del_cases, touch_cases, expire_item_cases}
use kubeturbo.Locks.ExpirationMap.Steps.{
  Event, adds, dels, touches, expires, step, run, Within, count_adds, until, until_end, Timely,
}

module _ {Obj Call : Type 0} where
  -- Versions are positive and were all given out; no deadline is further away than the time to live.
  abbrev pub Sound : ℕ → ℕ → String → Node Obj Call → Type 0
  Sound generation latest key item =
      (0 < item.version) × (item.version ≤ generation) × (item.expire ≤ latest)

  pub record IsValid (s : ExpirationMap Obj Call) (now : ℕ) : Type 0 where
    pub unique : IsMap s.items
    pub sound : All (λ p. Sound s.generation (now + s.ttl) p.0 p.1) s.items

  Sound-mono :
      {g g' t t' : ℕ} (m : Dict String (Node Obj Call))
      → g ≤ g'
      → t ≤ t'
      → All (λ p. Sound g t p.0 p.1) m
      → All (λ p. Sound g' t' p.0 p.1) m
  Sound-mono [] hg ht h = tt
  Sound-mono ((k, n) ∷ m) hg ht h = (omega arith, Sound-mono m hg ht h.1)

  pub new_expiration_map-IsValid : (ttl now : ℕ) → IsValid (new_expiration_map ttl) now
  unfolding new_expiration_map
  new_expiration_map-IsValid ttl now = record { unique = tt; sound = tt }

  pub later-IsValid : {s : ExpirationMap Obj Call} {t u : ℕ} → t ≤ u → IsValid s t → IsValid s u
  later-IsValid {s} h v = record {
    unique = v.unique;
    sound = Sound-mono s.items (omega arith) (omega arith) v.sound;
  }

  module _ (s : ExpirationMap Obj Call) (now : ℕ) (v : IsValid s now) where
    abbrev SoundNow : String → Node Obj Call → Type 0
    SoundNow = Sound s.generation (now + s.ttl)

    add-IsValid :
        (k : String) (o : Obj) (c : Call) (again : ℕ)
        → now ≤ again
        → s.generation + 1 < int64_mod
        → IsValid (add s k o c again).0 again
    add-IsValid k o c again h room =
        add_cases (λ t. IsValid t again) s k o c again (later-IsValid h v)
          λ absent. record {
            unique = insert-IsMap k _ s.items v.unique;
            sound =
                All-insert (Sound (new_item s o c again).version (again + s.ttl)) k
                  (new_item s o c again) s.items (omega arith)
                  (Sound-mono s.items (omega arith) (omega arith) v.sound);
          }

    del-IsValid : (k : String) (w : ℕ) → IsValid (del s k w).0 now
    del-IsValid k w =
        del_cases (λ t. IsValid t now) s k w v
          (record {
            unique = delete-IsMap k s.items v.unique;
            sound = All-delete SoundNow k s.items v.sound;
          })

    expire_item-IsValid :
        (k : String) (again : ℕ) → now ≤ again → IsValid (expire_item s k again).0 again
    expire_item-IsValid k again h = later-IsValid h (
        expire_item_cases (λ t. IsValid t now) s k again v
          λ item found late. record {
            unique = delete-IsMap k s.items v.unique;
            sound = All-delete SoundNow k s.items v.sound;
          })

    touch-IsValid :
        (k : String) (w later again : ℕ) → now ≤ again → IsValid (touch s k w later again).0 again
    unfolding touch_node
    touch-IsValid k w later again h =
        touch_cases (λ t. IsValid t again) s k w later again (later-IsValid h v)
          λ item found own.
            let old : SoundNow k item = All-lookup SoundNow k item s.items v.sound found in
            record {
              unique = insert-IsMap k _ s.items v.unique;
              sound =
                  All-insert (Sound s.generation (again + s.ttl)) k _ s.items (ground (arith, old))
                    (Sound-mono s.items (omega arith) (omega arith) v.sound);
            }

    -- Every operation keeps the map well formed: each key once, versions positive and no greater
    -- than the counter, no deadline further away than the time to live. The clock must not run
    -- backwards, and the counter must not wrap.
    pub step-IsValid :
        (e : Event Obj Call)
        → Within now (until now e) e
        → s.generation + 1 < int64_mod
        → IsValid (step s e) (until now e)
    unfolding step
    step-IsValid (adds k o c again) w room = add-IsValid k o c again w.0 room
    step-IsValid (dels k version) w room = del-IsValid k version
    step-IsValid (touches k version later again) w room =
        touch-IsValid k version later again (omega arith)
    step-IsValid (expires k again) w room = expire_item-IsValid k again w.0

  pub generation-step :
      (s : ExpirationMap Obj Call) (e : Event Obj Call)
      → s.generation + 1 < int64_mod
      → (s.generation ≤ (step s e).generation)
        × ((step s e).generation ≤ s.generation + count_adds (e ∷ []))
  unfolding step add del touch expire_item
  generation-step s (adds k o c now) room = ground arith
  generation-step s (dels k v) room = ground arith
  generation-step s (touches k v now again) room = ground arith
  generation-step s (expires k now) room = ground arith

  count_adds-cons :
      (e : Event Obj Call) (es : List (Event Obj Call))
      → count_adds (e ∷ es) ≡ count_adds (e ∷ []) + count_adds es
  count_adds-cons (adds k o c now) es = omega arith
  count_adds-cons (dels k v) es = omega arith
  count_adds-cons (touches k v now again) es = omega arith
  count_adds-cons (expires k now) es = omega arith

  pub generation-step_room :
      (s : ExpirationMap Obj Call) (e : Event Obj Call) (es : List (Event Obj Call))
      → s.generation + count_adds (e ∷ es) + 1 < int64_mod
      → (step s e).generation + count_adds es + 1 < int64_mod
  generation-step_room s e es room =
      omega (arith, count_adds-cons e es, generation-step s e (omega arith))

  -- Any history keeps the map well formed, as long as the clock does not run backwards and the version
  -- counter does not wrap at 2^64.
  pub run-IsValid :
      (s : ExpirationMap Obj Call) (now : ℕ) (es : List (Event Obj Call))
      → IsValid s now
      → Timely now es
      → s.generation + count_adds es + 1 < int64_mod
      → IsValid (run s es) (until_end now es)
  unfolding run
  run-IsValid s now [] v t room = v
  run-IsValid s now (e ∷ es) v t room =
      run-IsValid (step s e) (until now e) es (step-IsValid s now v e t.0 (omega arith)) t.1
        (generation-step_room s e es room)

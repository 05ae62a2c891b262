-- ===== src/Locks/LockHelper/Ownership.antt =====
-- Who may release a lock of pkg/action/util/lock_helper.go.
use kubeturbo.Prelude.{
  ℕ, ◌+◌, ◌<◌, ◌≡◌, true, false, Option, none, some, List, String, All, arith, string_eq, nat_eq,
  sym, subst, ◌∙◌, if◌then◌else◌, Option-cases, inl, inr,
}
use kubeturbo.Prelude.Dict.{lookup, delete, lookup-delete, All-lookup}
use kubeturbo.Locks.ExpirationMap.{Node, int64_mod, add, del, expire_item}
use kubeturbo.Locks.ExpirationMap.Steps.{Event, run, Within, count_adds}
use kubeturbo.Locks.ExpirationMap.Exclusive.{HeldUntil, Keeps, run-HeldUntil, add_grants}
use kubeturbo.Locks.ExpirationMap.Invariant.{IsValid, Sound}
use kubeturbo.Locks.ExpirationMap.Stale.{expire_item-run-stale}
use kubeturbo.Locks.LockHelper.{
  LockHelper, LockMap, ok, new_lock_helper, or_default, acquire_lock, release_lock, stop_renew,
}

module _ {Call : Type 0} (noop : Call) where
  -- In a well-formed map a helper that `NewLockHelper` has just made releases nothing, since no entry
  -- carries the version 0 with which it begins, and its release does not panic.
  pub new_lock_helper-release_lock :
      (podkey : String) (emap : LockMap noop) (h : LockHelper) (now : ℕ)
      → IsValid emap now
      → new_lock_helper noop podkey emap ≡ some h
      → release_lock noop emap h ≡ ok (emap, h)
  unfolding new_lock_helper release_lock del
  new_lock_helper-release_lock podkey emap h now v created =
      elim (Option-cases (lookup h.key emap.items)) [
        | inl absent ↦ ground (arith, absent)
        | inr (item, found) ↦
            let old : Sound emap.generation (now + emap.ttl) h.key item =
              All-lookup (Sound emap.generation (now + emap.ttl)) h.key item emap.items v.sound
                found in
            ground (arith, old, found)
      ]

  acquire_lock-add :
      (emap s : LockMap noop) (h h' : LockHelper) (callback : Option Call) (now : ℕ)
      → acquire_lock noop emap h callback now ≡ (s, h', true)
      → (add emap h.key h.key (or_default noop callback) now ≡ (s, h'.version, true))
        × (h'.key ≡ h.key)
        × (h'.stop ≡ h.stop)
        × (h'.is_renewing ≡ h.is_renewing)
  unfolding acquire_lock
  acquire_lock-add emap s h h' callback now e = ground arith

  HeldUntil-del :
      (s : LockMap noop) (key : String) (version deadline : ℕ)
      → HeldUntil s key version deadline
      → (del s key version).0 ≡ record s { items = delete key s.items }
  unfolding del
  HeldUntil-del s key version deadline held = ground arith

  acquire_lock_free :
      (s : LockMap noop) (g : LockHelper) (callback : Option Call) (now : ℕ)
      → lookup g.key s.items ≡ none
      → (acquire_lock noop s g callback now).2 ≡ true
  unfolding acquire_lock add
  acquire_lock_free s g callback now absent = ground arith

  acquire_lock_taken :
      (s : LockMap noop) (g : LockHelper) (callback : Option Call) (now version deadline : ℕ)
      → HeldUntil s g.key version deadline
      → acquire_lock noop s g callback now ≡ (s, g, false)
  unfolding acquire_lock add
  acquire_lock_taken s g callback now version deadline held = ground arith

  -- The helper after `StopRenew`.
  abbrev pub after_stop : LockHelper → LockHelper
  after_stop h = if h.is_renewing then record h { is_renewing = false; stop = true } else h

  stop_renew_open : (h : LockHelper) → h.stop ≡ false → stop_renew h ≡ ok (after_stop h)
  unfolding stop_renew
  stop_renew_open h open_yet = ground arith

  pub release_lock_held :
      (s : LockMap noop) (h : LockHelper) (deadline : ℕ)
      → h.stop ≡ false
      → HeldUntil s h.key h.version deadline
      → release_lock noop s h ≡ ok (record s { items = delete h.key s.items }, after_stop h)
  unfolding release_lock
  release_lock_held s h deadline open_yet held =
      ground (arith, stop_renew_open h open_yet, HeldUntil-del s h.key h.version deadline held)

  -- The life of a lock: once a helper has it, another helper of the same key is turned away while
  -- the time to live lasts, whatever else happens in the map, unless it deletes the holder's version;
  -- and when the first one, whose channel is open, then releases, which does not panic, the other one
  -- gets it.
  pub acquire_lock-release_lock :
      (emap s : LockMap noop) (h h' g : LockHelper) (callback other : Option Call) (now later : ℕ)
      (es : List (Event String Call))
      → acquire_lock noop emap h callback now ≡ (s, h', true)
      → g.key ≡ h.key
      → h.stop ≡ false
      → All (Within now (now + s.ttl)) es
      → All (Keeps h.key h'.version) es
      → (acquire_lock noop (run s es) g other later ≡ (run s es, g, false))
        × ((r : LockMap noop × LockHelper) × (release_lock noop (run s es) h' ≡ ok r)
            × ((acquire_lock noop r.0 g other later).2 ≡ true))
  acquire_lock-release_lock emap s h h' g callback other now later es taken same open_yet w keep =
      let (added, key, stop, renewing) = acquire_lock-add emap s h h' callback now taken in
      let deadline = now + s.ttl in
      let held : HeldUntil (run s es) h.key h'.version deadline =
        run-HeldUntil s h.key h'.version deadline now es
          (add_grants emap s h.key h.key (or_default noop callback) now h'.version added)
          (omega arith) w keep in
      let t : LockMap noop = record (run s es) { items = delete h'.key (run s es).items } in
      (
        acquire_lock_taken (run s es) g other later h'.version deadline
            (subst (λ k. HeldUntil (run s es) k h'.version deadline) (sym same) held),
        (
          (t, after_stop h'),
          release_lock_held (run s es) h' deadline (stop ∙ open_yet)
              (subst (λ k. HeldUntil (run s es) k h'.version deadline) (sym key) held),
          acquire_lock_free t g other later (
              lookup-delete h'.key g.key (run s es).items
              ∙ ground (arith, string_eq.beq_iff h'.key g.key)),
        ),
      )

  -- A holder whose entry in a well-formed map expired has lost its lock: whatever happened in the map
  -- since, a successor that took the lock included, its release leaves the map as it is, as long as
  -- the version counter does not wrap. The holder's channel is open.
  pub expire_item-release_lock :
      (s t : LockMap noop) (h : LockHelper) (item : Node String Call) (now at : ℕ)
      (call : Option (Call × String)) (es : List (Event String Call))
      → IsValid s now
      → lookup h.key s.items ≡ some item
      → item.version ≡ h.version
      → expire_item s h.key at ≡ (t, true, call)
      → s.generation + count_adds es + 1 < int64_mod
      → h.stop ≡ false
      → release_lock noop (run t es) h ≡ ok (run t es, after_stop h)
  unfolding release_lock
  expire_item-release_lock s t h item now at call es v found own expired room open_yet =
      let stale =
        expire_item-run-stale s t h.key item now at now now call es v found expired room in
      ground (arith, stop_renew_open h open_yet, stale.0)

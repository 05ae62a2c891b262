-- ===== src/Handler/Locking.antt =====
-- The lock of an action in pkg/action/action_handler.go, from the wait for it to its release.
use kubeturbo.Prelude.{
  ℕ, ◌+◌, ◌*◌, ◌/◌, ◌≤◌, ◌≡◌, refl, ◌∙◌, ap, true, false, Option, some, List, ◌∷◌, String, All,
  string_eq, arith,
}
use kubeturbo.Prelude.Dict.{delete}
use kubeturbo.Owner.{Pod, OwnerInfo}
use kubeturbo.Locks.ExpirationMap.{second, del}
use kubeturbo.Locks.ExpirationMap.Steps.{Event, run, Within}
use kubeturbo.Locks.ExpirationMap.Exclusive.{HeldUntil, Keeps, run-HeldUntil}
use kubeturbo.Locks.LockHelper.{LockHelper, LockMap, Round, renew_rounds, keep_renew_lock}
use kubeturbo.Locks.LockHelper.Ownership.{release_lock_held}
use kubeturbo.Locks.LockHelper.Renewal.{
  Punctual, last_renewal, renew_rounds-ttl, renew_rounds-HeldUntil,
}
use kubeturbo.Locks.ActionLockStore.{Result, ok}
use kubeturbo.Handler.Pods.{PodsGetter}
use kubeturbo.Handler.{
  ActionItem, Entity, Executor, Output, World, is_pod_relevant_action, check_action_execution_dto,
  work_on_pod, after_release, unlock, lock_item, under_lock, execute, result_of, execute_action,
}

module _ (nil_entity : Entity) {C : Type 0} (getter : C → PodsGetter)
    (worker : Executor
      → List (Option ActionItem)
      → Option Pod
      → World C
      → World C × Option (Option Output))
    {Call : Type 0} (noop : Call) (unmarshal : String → Option OwnerInfo) (t0 : ℕ)
    (now after : ℕ → ℕ) (between : ℕ → List (Event String Call)) (wait : World C → World C)
    (rounds : List (Round noop)) (last : List (Event String Call)) where
  kept-HeldUntil :
      (s : LockMap noop) (h : LockHelper) (from slack : ℕ)
      → HeldUntil s h.key h.version (from + s.ttl)
      → second * 2 ≤ s.ttl
      → slack + s.ttl / 2 ≤ s.ttl
      → Punctual noop h s.ttl slack from rounds
      → All (Within (last_renewal noop from rounds) (last_renewal noop from rounds + s.ttl)) last
      → All (Keeps h.key h.version) last
      → HeldUntil
          (run (renew_rounds noop s h rounds).0 last)
          h.key
          h.version
          (last_renewal noop from rounds + s.ttl)
  kept-HeldUntil s h from slack held long small punctual within keep =
      let renewed =
        renew_rounds-HeldUntil noop s.ttl slack from h s rounds refl long small held punctual in
      run-HeldUntil (renew_rounds noop s h rounds).0 h.key h.version
        (last_renewal noop from rounds + s.ttl) (last_renewal noop from rounds) last renewed.1
        (omega (arith, renew_rounds-ttl noop h s rounds)) within keep

  unlock-held :
      (m : LockMap noop) (h : LockHelper) (deadline : ℕ) (done : World C × Result (Unit {0}))
      → h.stop ≡ false
      → HeldUntil m h.key h.version deadline
      → unlock nil_entity getter worker noop unmarshal t0 now after between wait rounds last m
          (keep_renew_lock noop h)
          done
        ≡ (done.0, record m { items = delete h.key m.items }, done.1)
  unlock-held m h deadline done open_yet held =
      ap
        (after_release nil_entity getter worker noop unmarshal t0 now after between wait rounds last
          done (del m h.key h.version).0)
        (release_lock_held noop m (keep_renew_lock noop h) deadline open_yet held)

  execute-locked :
      (item : ActionItem) (items : List (Option ActionItem)) (w : World C) (emap s : LockMap noop)
      (h : LockHelper)
      → is_pod_relevant_action nil_entity item ≡ true
      → lock_item nil_entity getter worker noop unmarshal t0 now after between wait rounds last w
          emap item
        ≡ (s, ok h)
      → execute nil_entity getter worker noop unmarshal t0 now after between wait rounds last
          (some item ∷ items)
          w
          emap
        ≡ unlock nil_entity getter worker noop unmarshal t0 now after between wait rounds last
            (run (renew_rounds noop s h rounds).0 last)
            (keep_renew_lock noop h)
            (work_on_pod nil_entity getter worker item (some item ∷ items) (wait w))
  unfolding execute
  execute-locked item items w emap s h relevant locked = rw relevant (
      ap
        (under_lock nil_entity getter worker noop unmarshal t0 now after between wait rounds last
          item (some item ∷ items) w)
        locked)

  execute_action-execute :
      (items : List (Option ActionItem)) (w : World C) (emap : LockMap noop)
      (r : World C × LockMap noop × Result (Unit {0}))
      → check_action_execution_dto nil_entity items ≡ true
      → execute nil_entity getter worker noop unmarshal t0 now after between wait rounds last items
          w emap
        ≡ r
      → execute_action nil_entity getter worker noop unmarshal t0 now after between wait rounds last
          items w emap
        ≡ (
          r.0,
          r.1,
          result_of nil_entity getter worker noop unmarshal t0 now after between wait rounds last
              r.2,
        )
  unfolding execute_action
  execute_action-execute items w emap r valid same = rw valid (
      ap
        (λ (q : World C × LockMap noop × Result (Unit {0})). (
          q.0,
          q.1,
          result_of nil_entity getter worker noop unmarshal t0 now after between wait rounds last
              q.2,
        ))
        same)

  -- An action on a pod that got its lock, and holds it for the time to live from `from` on, keeps the
  -- lock until it returns, and then the lock is gone from the map, whether the pod is found and
  -- whatever the executor returns; the world and the result are those of the work on the pod after
  -- the wait. The item passes the check, the helper's channel is open, the time to live is two
  -- seconds or more, each renewal is late by no more than half of it, and no other call deletes
  -- the holder's version.
  pub execute_action-released :
      (item : ActionItem) (items : List (Option ActionItem)) (w : World C) (emap s : LockMap noop)
      (h : LockHelper) (from slack : ℕ)
      → check_action_execution_dto nil_entity (some item ∷ items) ≡ true
      → is_pod_relevant_action nil_entity item ≡ true
      → lock_item nil_entity getter worker noop unmarshal t0 now after between wait rounds last w
          emap item
        ≡ (s, ok h)
      → h.stop ≡ false
      → HeldUntil s h.key h.version (from + s.ttl)
      → second * 2 ≤ s.ttl
      → slack + s.ttl / 2 ≤ s.ttl
      → Punctual noop h s.ttl slack from rounds
      → All (Within (last_renewal noop from rounds) (last_renewal noop from rounds + s.ttl)) last
      → All (Keeps h.key h.version) last
      → (let m : LockMap noop = run (renew_rounds noop s h rounds).0 last in
          let done = work_on_pod nil_entity getter worker item (some item ∷ items) (wait w) in
          HeldUntil m h.key h.version (last_renewal noop from rounds + s.ttl)
          × (execute_action nil_entity getter worker noop unmarshal t0 now after between wait rounds
                last
                (some item ∷ items)
                w
                emap
              ≡ (
                done.0,
                record m { items = delete h.key m.items },
                result_of nil_entity getter worker noop unmarshal t0 now after between wait rounds
                    last done.1,
              )))
  execute_action-released item items w emap s h from slack valid relevant locked open_yet held long
        small punctual within keep =
      let kept = kept-HeldUntil s h from slack held long small punctual within keep in
      let done = work_on_pod nil_entity getter worker item (some item ∷ items) (wait w) in
      let m : LockMap noop = run (renew_rounds noop s h rounds).0 last in
      (
        kept,
        execute_action-execute (some item ∷ items) w emap
            (done.0, record m { items = delete h.key m.items }, done.1) valid
            (execute-locked item items w emap s h relevant locked
              ∙ unlock-held m h (last_renewal noop from rounds + s.ttl) done open_yet kept),
      )

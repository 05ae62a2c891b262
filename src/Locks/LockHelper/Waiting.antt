-- ===== src/Locks/LockHelper/Waiting.antt =====
-- `Trylock` of pkg/action/util/lock_helper.go: waiting for a lock that another helper holds.
use kubeturbo.Prelude.{
  ℕ, ◌+◌, ◌<◌, ◌≡◌, ◌≢◌, refl, some, List, String, arith, sym, ap, subst, ◌∙◌, Bool-cases, inl, inr,
}
use kubeturbo.Locks.ExpirationMap.{add}
use kubeturbo.Locks.ExpirationMap.Steps.{Event, run}
use kubeturbo.Locks.ExpirationMap.Exclusive.{HeldUntil, add_grants}
use kubeturbo.Locks.Retry.{
  Attempt, success, failed, skip_retry, RetryResult, succeeded, skipped, timed_out, exhausted,
}
use kubeturbo.Locks.Retry.Outcome.{Run, last, next, Ends, retry_during-Run}
use kubeturbo.Locks.LockHelper.{LockHelper, LockMap, acquire_lock, try_once, trylock}

module _ {Call : Type 0} (noop : Call) (timeout t0 : ℕ) (now after : ℕ → ℕ)
    (between : ℕ → List (Event String Call)) where
  abbrev pub State : Type 0
  State = LockMap noop × LockHelper

  abbrev pub body : ℕ → State → State × Attempt
  body = try_once noop between now

  -- An attempt that fails leaves the helper as it was; one that succeeds has the lock.
  try_once_failed :
      (i : ℕ) (emap : LockMap noop) (h : LockHelper)
      → (body i (emap, h)).1 ≡ failed
      → (body i (emap, h)).0.1 ≡ h
  unfolding try_once acquire_lock
  try_once_failed i emap h e = ground arith

  try_once_skip : (i : ℕ) (s : State) → (body i s).1 ≢ skip_retry
  unfolding try_once
  try_once_skip i (emap, h) = ground arith

  abbrev pub Has : String → ℕ → State → Type 0
  Has key from (emap, h) = (h.key ≡ key) × HeldUntil emap key h.version (from + emap.ttl)

  try_once_success :
      (i : ℕ) (emap : LockMap noop) (h : LockHelper)
      → (body i (emap, h)).1 ≡ success
      → Has h.key (now i) (body i (emap, h)).0
  unfolding try_once acquire_lock
  try_once_success i emap h e =
      let before = run emap (between i) in
      let t = add before h.key h.key noop (now i) in
      elim (Bool-cases t.2) [
        | inl granted ↦
            rw granted (
              refl,
              add_grants before t.0 h.key h.key noop (now i) t.1 (λ j. (t.0, t.1, granted j)),
            )
        | inr refused ↦ ground arith
      ]

  -- What is true of the helper `h` when the wait is over.
  abbrev pub Waited : LockHelper → State × ℕ × RetryResult → Type 0
  Waited h (s, i, succeeded) = Has h.key (now i) s
  Waited h (s, i, skipped) = ⊥
  Waited h (s, i, timed_out) = s.1 ≡ h
  Waited h (s, i, exhausted) = s.1 ≡ h

  last-Waited :
      (i : ℕ) (s : State) (why : RetryResult)
      → Ends 1000 timeout t0 after body i s why
      → Waited s.1 ((body i s).0, i, why)
  last-Waited i (emap, h) succeeded e = try_once_success i emap h e
  last-Waited i (emap, h) skipped e = try_once_skip i (emap, h) e
  last-Waited i (emap, h) timed_out e = try_once_failed i emap h e.0
  last-Waited i (emap, h) exhausted e = try_once_failed i emap h e.0

  Run-Waited :
      {i : ℕ} {s : State} {r : State × ℕ × RetryResult}
      → Run 1000 timeout t0 after body i s r
      → Waited s.1 r
  Run-Waited {i} {s} {r} (last state number ends) =
      subst (λ (q : State × ℕ × RetryResult). Waited s.1 q) (λ j. (sym state j, sym number j, r.2))
        (last-Waited i s r.2 ends)
  Run-Waited {i} {s} {r} (next goes number state rest) =
      subst (λ h. Waited h r) (ap (λ (q : State). q.1) state ∙ try_once_failed i s.0 s.1 goes.0)
        (Run-Waited rest)

  -- `Trylock` ends, after a thousand attempts at most. If it succeeds, the helper has the lock under
  -- the version that it notes, for the whole time to live from its last attempt on; if it gives up,
  -- because the time is up or the attempts are, the helper is as it was before.
  pub trylock-Waited :
      (emap : LockMap noop) (h : LockHelper)
      → (r : State × ℕ × RetryResult) × (trylock noop timeout t0 now after between emap h ≡ some r)
        × (r.1 < 1000)
        × Waited h r
  unfolding trylock
  trylock-Waited emap h =
      let (r, returned, ran, bound) = retry_during-Run 1000 timeout t0 after body (emap, h) in
      (r, returned, omega arith, Run-Waited ran)

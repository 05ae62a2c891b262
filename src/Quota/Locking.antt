-- ===== src/Quota/Locking.antt =====
-- The lock that pkg/action/executor/quota_util.go takes before it touches the quotas of a namespace.
use Prim.Native.String.{◌++◌ as str_append}
use kubeturbo.Prelude.{
  ℕ, ◌+◌, ◌*◌, ◌≡◌, refl, ◌∙◌, subst, true, Option, none, some, List, String, arith, Option-cases,
  inl, inr,
}
use kubeturbo.Locks.ExpirationMap.{second}
use kubeturbo.Locks.ExpirationMap.Steps.{Event}
use kubeturbo.Locks.ExpirationMap.Exclusive.{HeldUntil}
use kubeturbo.Locks.Retry.{RetryResult, succeeded, skipped, timed_out, exhausted}
use kubeturbo.Locks.LockHelper.{LockHelper, LockMap, new_lock_helper, trylock, keep_renew_lock}
use kubeturbo.Locks.LockHelper.Waiting.{trylock-Waited, Waited}

abbrev pub default_wait_lock_time_out : ℕ
default_wait_lock_time_out = second * 300

abbrev pub quota_lock_key : String → String
quota_lock_key namespace = str_append "quota-lock-" namespace

-- The clock and the other goroutines' operations during the wait, as for `trylock`.
module _ {Call : Type 0} (noop : Call) (t0 : ℕ) (now after : ℕ → ℕ)
    (between : ℕ → List (Event String Call)) where
  abbrev pub renewing :
      LockMap noop
      → Option ((LockMap noop × LockHelper) × ℕ × RetryResult)
      → LockMap noop × Option LockHelper
  renewing emap none = (emap, none)
  renewing emap (some ((emap', h), i, succeeded)) = (emap', some (keep_renew_lock noop h))
  renewing emap (some ((emap', h), i, _)) = (emap', none)

  -- No helper is an error.
  unfoldable pub lock_for_quota : String → LockMap noop → LockMap noop × Option LockHelper
  lock_for_quota namespace emap = elim (new_lock_helper noop (quota_lock_key namespace) emap) [
    | none ↦ (emap, none)
    | some helper ↦
        renewing emap (trylock noop default_wait_lock_time_out t0 now after between emap helper)
  ]

  -- The helper has the lock of the namespace, taken at the last attempt `i`, and renews it.
  abbrev pub Guards : String → LockMap noop × Option LockHelper → Type 0
  Guards namespace (emap, some h) =
      (h.key ≡ quota_lock_key namespace)
      × (h.is_renewing ≡ true)
      × ((i : ℕ) × HeldUntil emap (quota_lock_key namespace) h.version (now i + emap.ttl))
  Guards namespace (emap, none) = Unit {0}

  renewing-Guards :
      (namespace : String) (emap : LockMap noop) (h : LockHelper)
      (r : (LockMap noop × LockHelper) × ℕ × RetryResult)
      → h.key ≡ quota_lock_key namespace
      → Waited noop default_wait_lock_time_out t0 now after between h r
      → Guards namespace (renewing emap (some r))
  renewing-Guards namespace emap h ((s, g), i, succeeded) key w =
      (w.0 ∙ key, refl, (i, subst (λ k. HeldUntil s k g.version (now i + s.ttl)) key w.1))
  renewing-Guards namespace emap h ((s, g), i, skipped) key w = tt
  renewing-Guards namespace emap h ((s, g), i, timed_out) key w = tt
  renewing-Guards namespace emap h ((s, g), i, exhausted) key w = tt

  -- If `lockForQuota` returns a lock, it is the one lock of the namespace, held for the whole time to
  -- live from the helper's last attempt on, and the helper is renewing it.
  pub lock_for_quota-Guards :
      (namespace : String) (emap : LockMap noop) → Guards namespace (lock_for_quota namespace emap)
  unfolding lock_for_quota new_lock_helper
  lock_for_quota-Guards namespace emap =
      elim (Option-cases (new_lock_helper noop (quota_lock_key namespace) emap)) [
        | inl short ↦ rw (short, lock_for_quota) tt
        | inr (h, created) ↦
            let (r, returned, attempts, w) =
              trylock-Waited noop default_wait_lock_time_out t0 now after between emap h in
            rw (created, lock_for_quota)
              (rw returned (renewing-Guards namespace emap h r (ground arith) w))
      ]

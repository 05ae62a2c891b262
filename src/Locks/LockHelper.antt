-- ===== src/Locks/LockHelper.antt =====
-- pkg/action/util/lock_helper.go: a lock on a key, as an entry of the expiration map that several
-- helpers share. The map is passed explicitly; the goroutine of `KeepRenewLock` is a function over
-- its rounds.
pub mod Ownership
pub mod Renewal
pub mod Waiting
use kubeturbo.Prelude.{
  ℕ, ◌+◌, ◌*◌, ◌/◌, Bool, true, false, not, Option, none, some, List, [], ◌∷◌, String, ltb,
  if◌then◌else◌,
}
use kubeturbo.Locks.ExpirationMap.{ExpirationMap, second, add, del, touch, get_ttl}
use kubeturbo.Locks.ExpirationMap.Steps.{Event, run}
use kubeturbo.Locks.Retry.{Attempt, success, failed, RetryResult, succeeded, retry_during}

-- `stop` says whether the channel is closed. The field `callback` of the struct is never used.
pub record LockHelper : Type 0 where
  pub key : String
  pub version : ℕ
  pub stop : Bool
  pub is_renewing : Bool

-- `close` of a closed channel panics.
pub data Result (A : Type 0) : Type 0 where
  ok : A → Result A
  panic : Result A

unfoldable pub stop_renew : LockHelper → Result LockHelper
stop_renew h =
    if h.is_renewing
    then (if h.stop then panic else ok (record h { is_renewing = false; stop = true }))
    else ok h

abbrev pub setkey : LockHelper → String → LockHelper
setkey h key = record h { key = key }

abbrev pub max_second : ℕ → ℕ
max_second interval = if ltb interval second then second else interval

-- The callbacks that an entry may have; `lock_call_back` is the one that does nothing.
module _ {Call : Type 0} (lock_call_back : Call) where
  -- The map that lock helpers share: `AcquireLock` stores the key as the object.
  abbrev pub LockMap : Type 0
  LockMap = ExpirationMap String Call

  unfoldable pub new_lock_helper : String → LockMap → Option LockHelper
  new_lock_helper podkey emap =
      if ltb (get_ttl emap) (second * 2)
      then none
      else some (record { key = podkey; version = 0; stop = false; is_renewing = false })

  abbrev pub or_default : Option Call → Call
  or_default none = lock_call_back
  or_default (some callback) = callback

  unfoldable pub acquire_lock : LockMap → LockHelper → Option Call → ℕ → LockMap × LockHelper × Bool
  acquire_lock emap h callback now =
      let (emap', version, flag) = add emap h.key h.key (or_default callback) now in
      if not flag then (emap', h, false) else (emap', record h { version = version }, true)

  unfoldable pub release_lock : LockMap → LockHelper → Result (LockMap × LockHelper)
  unfolding stop_renew
  release_lock emap h =
      let emap' = (del emap h.key h.version).0 in
      elim (stop_renew h) [ ok h' ↦ ok (emap', h') | panic ↦ panic ]

  abbrev pub renew_lock : LockMap → LockHelper → ℕ → ℕ → LockMap × Bool
  renew_lock emap h now again = touch emap h.key h.version now again

  -- `KeepRenewLock` sets the flag and starts the goroutine, which sleeps this long between rounds.
  abbrev pub renew_interval : LockMap → ℕ
  renew_interval emap = max_second (get_ttl emap / 2)

  abbrev pub keep_renew_lock : LockHelper → LockHelper
  keep_renew_lock h = record h { is_renewing = true }

  -- One round: what the other goroutines did to the map since the round before, whether the channel
  -- is closed by now, and the two readings of the clock in `RenewLock`.
  pub record Round : Type 0 where
    pub between : List (Event String Call)
    pub stopped : Bool
    pub now : ℕ
    pub again : ℕ

  -- The map, and whether the goroutine is still running.
  unfoldable pub renew_rounds : LockMap → LockHelper → List Round → LockMap × Bool
  renew_rounds emap h [] = (emap, true)
  renew_rounds emap h (r ∷ rounds) =
      let before = run emap r.between in
      let touched = renew_lock before h r.now r.again in
      let rest = renew_rounds touched.0 h rounds in
      elim r.stopped [
        | true ↦ (before, false)
        | false ↦ elim touched.1 [ true ↦ rest | false ↦ (touched.0, false) ]
      ]

  -- One attempt of `Trylock`, after what the others did to the map since the attempt before.
  unfoldable pub try_once :
      (ℕ → List (Event String Call))
      → (ℕ → ℕ)
      → ℕ
      → LockMap × LockHelper
      → (LockMap × LockHelper) × Attempt
  try_once between clock i (emap, h) =
      let (emap', h', done) = acquire_lock (run emap (between i)) h none (clock i) in
      ((emap', h'), if done then success else failed)

  -- `goutil.RetryDuring(1000, timeout, interval, …)`. The readings `now i` and `after i` are those of
  -- the i-th `Add` and of the loop's test behind it.
  unfoldable pub trylock :
      ℕ
      → ℕ
      → (now after : ℕ → ℕ) → (ℕ → List (Event String Call))
      → LockMap
      → LockHelper
      → Option ((LockMap × LockHelper) × ℕ × RetryResult)
  trylock timeout t0 now after between emap h =
      retry_during 1000 timeout t0 after (try_once between now) (emap, h)

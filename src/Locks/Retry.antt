-- ===== src/Locks/Retry.antt =====
-- RetryDuring of pkg/util/common_util.go.
pub mod Outcome
use kubeturbo.Prelude.{
  ℕ, zero, suc, ◌+◌, ◌-◌, ◌&&◌, Bool, true, false, Option, none, some, ltb, leb, if◌then◌else◌,
}

-- What one call of `myfunc` returns: nil, an `*ErrorSkipRetry`, or another error.
pub data Attempt : Type 0 where
  success skip_retry failed : Attempt

pub data RetryResult : Type 0 where
  succeeded skipped timed_out exhausted : RetryResult

-- `S` is the state that `myfunc` works on. `body i` is the i-th call, with all that happens to the
-- state since the call before it; `clock i` is the clock's reading after the i-th call, and `t0` the
-- reading at the start. The loop's `sleep` only lets time pass, so it shows in these alone.
module _ {S : Type 0} (attempts timeout t0 : ℕ) (clock : ℕ → ℕ) (body : ℕ → S → S × Attempt) where
  -- The tests after a failed attempt, in the order of the loop.
  abbrev pub stops : ℕ → Option RetryResult
  stops i =
      if leb (attempts - 1) i
      then some exhausted
      else (if ltb 0 timeout && ltb timeout (clock i - t0) then some timed_out else none)

  -- The state, the number of the last attempt and the result; `none` if the fuel runs out.
  unfoldable pub retry_loop : ℕ → ℕ → S → Option (S × ℕ × RetryResult)
  retry_loop zero i s = none
  retry_loop (suc fuel) i s =
      let r = body i s in
      let again = retry_loop fuel (i + 1) r.0 in
      elim r.1 [
        | success ↦ some (r.0, i, succeeded)
        | skip_retry ↦ some (r.0, i, skipped)
        | failed ↦ elim (stops i) [ some why ↦ some (r.0, i, why) | none ↦ again ]
      ]

  -- The loop with fuel for `attempts + 1` rounds.
  unfoldable pub retry_during : S → Option (S × ℕ × RetryResult)
  retry_during s = retry_loop (attempts + 1) 0 s

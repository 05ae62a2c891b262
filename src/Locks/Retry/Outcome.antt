-- ===== src/Locks/Retry/Outcome.antt =====
-- The ways RetryDuring of pkg/util/common_util.go ends.
use kubeturbo.Prelude.{
  ℕ, zero, suc, ◌+◌, ◌-◌, ◌≤◌, ◌<◌, ◌≡◌, refl, ◌⊎◌, inl, inr, Option, none, some, arith,
  Option-cases,
}
use kubeturbo.Locks.Retry.{
  Attempt, success, skip_retry, failed, RetryResult, succeeded, skipped, timed_out, exhausted,
  stops, retry_loop, retry_during,
}

module _ {S : Type 0} (attempts timeout t0 : ℕ) (clock : ℕ → ℕ) (body : ℕ → S → S × Attempt) where
  -- The attempt failed, more attempts are allowed, and the time is not up, if it is limited.
  abbrev pub Continues : ℕ → S → Type 0
  Continues i s =
      ((body i s).1 ≡ failed) × (i + 1 < attempts) × (0 < timeout → clock i - t0 ≤ timeout)

  -- Why the attempt is the last one.
  abbrev pub Ends : ℕ → S → RetryResult → Type 0
  Ends i s succeeded = (body i s).1 ≡ success
  Ends i s skipped = (body i s).1 ≡ skip_retry
  Ends i s timed_out = ((body i s).1 ≡ failed) × (0 < timeout) × (timeout < clock i - t0)
  Ends i s exhausted = ((body i s).1 ≡ failed) × (attempts ≤ i + 1)

  -- From the attempt `i` in the state `s` on: attempts that fail and let the loop go on, each in the
  -- state that the one before it left, and a last one that explains the result.
  pub data Run : ℕ → S → S × ℕ × RetryResult → Type 0 where
    last :
        {i : ℕ} {s : S} {r : S × ℕ × RetryResult}
        → r.0 ≡ (body i s).0
        → r.1 ≡ i
        → Ends i s r.2
        → Run i s r
    next :
        {i j : ℕ} {s t : S} {r : S × ℕ × RetryResult}
        → Continues i s
        → j ≡ i + 1
        → t ≡ (body i s).0
        → Run j t r
        → Run i s r

  Attempt-cases : (a : Attempt) → (a ≡ success) ⊎ (a ≡ skip_retry) ⊎ (a ≡ failed)
  Attempt-cases success = inl refl
  Attempt-cases skip_retry = inr (inl refl)
  Attempt-cases failed = inr (inr refl)

  -- The loop from the attempt `i` on returns, by a run, and no later than the last attempt allowed.
  abbrev Returns : ℕ → S → Option (S × ℕ × RetryResult) → Type 0
  Returns i s found =
      (r : S × ℕ × RetryResult) × (found ≡ some r) × Run i s r × (r.1 ≤ attempts - 1)

  stops-Ends :
      (i : ℕ) (s : S) (why : RetryResult)
      → (body i s).1 ≡ failed
      → stops attempts timeout t0 clock body i ≡ some why
      → Ends i s why
  stops-Ends i s succeeded e h = ground arith
  stops-Ends i s skipped e h = ground arith
  stops-Ends i s timed_out e h = ground arith
  stops-Ends i s exhausted e h = ground arith

  stops-none :
      (i : ℕ)
      → stops attempts timeout t0 clock body i ≡ none
      → (i + 1 < attempts) × (0 < timeout → clock i - t0 ≤ timeout)
  stops-none i h = (ground arith, λ limited. ground arith)

  retry_loop-Returns :
      (fuel i : ℕ) (s : S)
      → attempts + 1 ≤ i + fuel
      → i ≤ attempts - 1
      → Returns i s (retry_loop attempts timeout t0 clock body fuel i s)
  unfolding retry_loop
  retry_loop-Returns zero i s enough h = absurd (omega arith)
  retry_loop-Returns (suc fuel) i s enough h = elim (Attempt-cases (body i s).1) [
    | inl done ↦ (((body i s).0, i, succeeded), rw (done, retry_loop), last refl refl done, h)
    | inr (inl skip) ↦ (((body i s).0, i, skipped), rw (skip, retry_loop), last refl refl skip, h)
    | inr (inr fail) ↦ elim (Option-cases (stops attempts timeout t0 clock body i)) [
      | inl none_yet ↦
          let (r, e, ran, bound) =
            retry_loop-Returns fuel (i + 1) (body i s).0 (omega arith)
              (omega (arith, (stops-none i none_yet).0)) in
          let (more, in_time) = stops-none i none_yet in
          (
            r,
            rw (fail, retry_loop) (rw none_yet e),
            next (fail, more, in_time) refl refl ran,
            bound,
          )
      | inr (why, e) ↦ (
        ((body i s).0, i, why),
        rw (fail, retry_loop) (rw e),
        last refl refl (stops-Ends i s why fail e),
        h,
      )
    ]
  ]

  -- The loop always returns, after at most `attempts` attempts (one, if `attempts` is 0): every
  -- attempt but the last failed when more attempts were allowed and the time, if it is limited, was
  -- not up, and the result says of the last one
  -- that it succeeded, that it asked for no retry, that the time was up, or that it was the last
  -- attempt allowed.
  pub retry_during-Run :
      (s : S)
      → (r : S × ℕ × RetryResult) × (retry_during attempts timeout t0 clock body s ≡ some r)
        × Run 0 s r
        × (r.1 ≤ attempts - 1)
  unfolding retry_during
  retry_during-Run s = retry_loop-Returns (attempts + 1) 0 s (omega arith) (omega arith)

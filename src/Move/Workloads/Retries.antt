-- ===== src/Move/Workloads/Retries.antt =====
-- Calls that are tried again, by RetryDuring of pkg/util/common_util.go and by the Kubernetes library.
use kubeturbo.Prelude.{
  ℕ, ◌≡◌, ◌∙◌, sym, ap, Bool, true, false, Option, none, some, arith, if◌then◌else◌,
}
use kubeturbo.Locks.Retry.{
  Attempt, success, skip_retry, failed, RetryResult, succeeded, skipped, timed_out, exhausted,
  retry_during,
}
use kubeturbo.Locks.Retry.Outcome.{Run, last, next, retry_during-Run}

-- When a RetryDuring begins, and the clock after each attempt.
pub record Timing : Type 0 where
  pub start : ℕ
  pub clock : ℕ → ℕ

abbrev pub default_execution_retry : ℕ
default_execution_retry = 3

module _ {S : Type 0} where
  -- A call, or a failed call and the calls after it, in the state that it left.
  pub data Calls (f : S → S × Bool) : S → S × Bool → Type 0 where
    once : {s : S} {r : S × Bool} → r ≡ f s → Calls f s r
    again : {s t : S} {r : S × Bool} → t ≡ (f s).0 → (f s).1 ≡ false → Calls f t r → Calls f s r

  abbrev as_attempt : (S → S × Bool) → ℕ → S → S × Attempt
  as_attempt f i s = let (s', done) = f s in (s', if done then success else failed)

  abbrev outcome : S → Option (S × ℕ × RetryResult) → S × Bool
  outcome s none = (s, false)
  outcome s (some (s', i, succeeded)) = (s', true)
  outcome s (some (s', i, _)) = (s', false)

  -- `RetryDuring(DefaultExecutionRetry, timeout, …)` of a call.
  unfoldable pub retried : ℕ → Timing → (S → S × Bool) → S → S × Bool
  retried timeout timing f s =
      outcome s
        (retry_during default_execution_retry timeout timing.start timing.clock (as_attempt f) s)

  pub Calls-success :
      {f : S → S × Bool} {s : S} {r : S × Bool} → Calls f s r → r.1 ≡ true → (t : S) × (f t ≡ r)
  Calls-success (once {s = s} e) h = (s, sym e)
  Calls-success (again at refused calls) h = Calls-success calls h

  -- What no single call changes stays the same.
  pub Calls-keep :
      {A : Type 0} (view : S → A) {f : S → S × Bool} {s : S} {r : S × Bool}
      → ((t : S) → view (f t).0 ≡ view t)
      → Calls f s r
      → view r.0 ≡ view s
  Calls-keep view keeps (once {s = s} e) = ap (λ p. view p.0) e ∙ keeps s
  Calls-keep view keeps (again {s = s} at refused calls) =
      Calls-keep view keeps calls ∙ ap view at ∙ keeps s

  module _ (timeout : ℕ) (timing : Timing) (f : S → S × Bool) where
    is_refused : (s : S) → (if (f s).1 then success else failed) ≡ failed → (f s).1 ≡ false
    is_refused s h = ground arith

    outcome-Calls :
        (first : S) {i : ℕ} {s : S} {r : S × ℕ × RetryResult}
        → Run default_execution_retry timeout timing.start timing.clock (as_attempt f) i s r
        → Calls f s (outcome first (some r))
    outcome-Calls first {s = s} {r = (s', j, succeeded)} (last at number end) =
        once (λ i. (at i, sym (done s end) i))
      where
        done : (s : S) → (if (f s).1 then success else failed) ≡ success → (f s).1 ≡ true
        done s h = ground arith
    outcome-Calls first {s = s} {r = (s', j, skipped)} (last at number end) =
        once (λ i. (at i, sym (unasked s end) i))
      where
        unasked : (s : S) → (if (f s).1 then success else failed) ≡ skip_retry → (f s).1 ≡ false
        unasked s h = ground arith
    outcome-Calls first {s = s} {r = (s', j, timed_out)} (last at number end) =
        once (λ i. (at i, sym (is_refused s end.0) i))
    outcome-Calls first {s = s} {r = (s', j, exhausted)} (last at number end) =
        once (λ i. (at i, sym (is_refused s end.0) i))
    outcome-Calls first {s = s} (next goes number at run) =
        again at (is_refused s goes.0) (outcome-Calls first run)

    pub retried-Calls : (s : S) → Calls f s (retried timeout timing f s)
    unfolding retried
    retried-Calls s =
        let (r, returns, run, bound) =
          retry_during-Run default_execution_retry timeout timing.start timing.clock (as_attempt f)
            s in
        rw returns (outcome-Calls s run)

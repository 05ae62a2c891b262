-- ===== src/Resize/Replicas.antt =====
-- The number of replicas that pkg/action/executor/k8s_controller_updater.go asks for.
use kubeturbo.Prelude.{
  ℕ, ◌+◌, ◌-◌, ◌<◌, ◌≡◌, ◌≢◌, Bool, true, false, ◌||◌, Option, some, String, ◌==◌, nat_eq,
  if◌then◌else◌, arith, Bool-cases, inl, inr,
}
use kubeturbo.Locks.Retry.{Attempt, failed}
use kubeturbo.Resize.Updater.{
  ControllerState, ControllerSpec, int32_mod, is_negative, add_int32, suspend_pod,
  suspend_or_provision, reconcile, update,
}

-- An int32 as a difference of numbers.
abbrev pub plus : ℕ → ℕ
plus n = if is_negative n then 0 else n

abbrev pub minus : ℕ → ℕ
minus n = if is_negative n then int32_mod - n else 0

-- The sum lies between 1 and the largest int32.
abbrev pub InRange : ℕ → ℕ → Type 0
InRange current diff =
    (minus diff < current + plus diff) × (current + plus diff < 2147483648 + minus diff)

add_int32-InRange :
    (current diff : ℕ)
    → current < 2147483648
    → diff < int32_mod
    → InRange current diff
    → (add_int32 current diff ≡ current + plus diff - minus diff)
      × ((is_negative (add_int32 current diff) || add_int32 current diff == 0) ≡ false)
add_int32-InRange current diff small diff_small fits = elim (Bool-cases (is_negative diff)) [
  | inl negative ↦ ground arith
  | inr positive ↦ ground arith
]

add_int32_out :
    (current diff : ℕ)
    → current < 2147483648
    → diff < int32_mod
    → ¬ (InRange current diff)
    → (is_negative (add_int32 current diff) || add_int32 current diff == 0) ≡ true
add_int32_out current diff small diff_small wrong = elim (Bool-cases (is_negative diff)) [
  | inl negative ↦ ground arith
  | inr positive ↦ ground arith
]

module _ {Server : Type 0} (get_pod : Server → String → String → Bool)
    (delete_pod : Server → String → String → Server × Bool)
    (get : Server → Server × Option ControllerState)
    (put : Server → ControllerState → Server × Attempt) (namespace pod_name : String) where
  -- Only a suspension deletes the pod.
  abbrev pub suspended : Server → ℕ → Server × Bool
  suspended s diff =
      if is_negative diff
      then suspend_pod get_pod delete_pod get put namespace pod_name s
      else (s, true)

  -- With a number of replicas that is not negative, an update by a difference other than 0 puts the
  -- exact sum, after `suspendPod` if the difference is negative, if that sum lies between 1 and the
  -- largest int32; it does not put if `suspendPod` fails. Otherwise, also where the addition
  -- wraps around, it fails and does nothing but read the controller.
  pub update-replicas :
      (s read : Server) (current : ControllerState) (desired : ControllerSpec)
      → get s ≡ (read, some current)
      → current.replicas < 2147483648
      → desired.replicas_diff < int32_mod
      → desired.replicas_diff ≢ 0
      → let diff = desired.replicas_diff in
        let after = suspended read diff in
        let sum = current.replicas + plus diff - minus diff in
        (InRange current.replicas diff
          → update get_pod delete_pod get put namespace pod_name s desired ≡ (
              if after.1
              then put after.0 (record current { replicas = sum })
              else (after.0, failed)))
        × (¬ (InRange current.replicas diff)
            → update get_pod delete_pod get put namespace pod_name s desired ≡ (read, failed))
  unfolding update reconcile suspend_or_provision
  update-replicas s read current desired got small diff_small moves =
      let diff = desired.replicas_diff in
      (
        λ fits.
            let (exact, fine) = add_int32-InRange current.replicas diff small diff_small fits in
            ground (arith, nat_eq.beq_iff diff 0),
        λ wrong.
            let refused = add_int32_out current.replicas diff small diff_small wrong in
            ground (arith, nat_eq.beq_iff diff 0),
      )

-- ===== src/Move/Workloads/Settings.antt =====
-- What ChangeScheduler and ResourceRollout of pkg/action/executor/move_util.go leave behind.
use kubeturbo.Prelude.{
  ℕ, ◌≡◌, refl, ◌∙◌, ap, subst, Bool, true, false, ◌&&◌, Option, none, some, String, ◌==◌,
  string_eq, if◌then◌else◌, arith, Option-cases, Bool-cases, inl, inr,
}
use kubeturbo.Prelude.Dict.{lookup, lookup-delete}
use kubeturbo.Quota.{or_empty, turbo_gc_label_key}
use kubeturbo.Move.Workloads.{
  Workload, Client, default_scheduler, remove_gc_label, rollout_once, resource_rollout,
  scheduler_once, change_scheduler,
}
use kubeturbo.Move.Workloads.Retries.{
  Calls, Calls-success, Calls-keep, Timing, retried, retried-Calls,
}

no_label : lookup turbo_gc_label_key (or_empty none) ≡ none
unfolding lookup
no_label = refl

pub remove_gc_label_lem :
    (w : Workload)
    → (lookup turbo_gc_label_key (or_empty (remove_gc_label w).labels) ≡ none)
      × ((remove_gc_label w).name ≡ w.name)
      × ((remove_gc_label w).paused ≡ w.paused)
      × ((remove_gc_label w).scheduler_name ≡ w.scheduler_name)
unfolding remove_gc_label
remove_gc_label_lem w = elim (Option-cases w.labels) [
  | inl nil ↦
      (rw (nil, remove_gc_label) (rw nil no_label), ground arith, ground arith, ground arith)
  | inr (labels, given) ↦ elim (Option-cases (lookup turbo_gc_label_key labels)) [
    | inl absent ↦ (
      rw (given, remove_gc_label) (rw absent (rw given absent)),
      ground arith,
      ground arith,
      ground arith,
    )
    | inr (v, found) ↦ (
      rw (given, remove_gc_label)
          (rw found (lookup-delete turbo_gc_label_key turbo_gc_label_key labels)),
      ground arith,
      ground arith,
      ground arith,
    )
  ]
]

-- A read finds what the last successful update wrote.
pub record IsClient {S : Type 0} (client : Client S) : Type 0 where
  pub get-put :
      (s : S) (w : Workload) (n : String)
      → client.get (client.put s w).0 n
        ≡ (if (client.put s w).1 && w.name == n then some w else client.get s n)
  pub get-name : (s : S) (n : String) (w : Workload) → client.get s n ≡ some w → w.name ≡ n

module _ {S : Type 0} (client : Client S) where
  -- The workload has the default scheduler and is not marked for the garbage collector.
  abbrev pub IsScheduled : S → String → Type 0
  IsScheduled s n =
      (w : Workload) × (client.get s n ≡ some w)
      × (w.scheduler_name ≡ default_scheduler)
      × (lookup turbo_gc_label_key (or_empty w.labels) ≡ none)

  -- Its rollout goes on, and it is not marked for the garbage collector.
  abbrev pub IsRolling : S → String → Type 0
  IsRolling s n =
      (w : Workload) × (client.get s n ≡ some w)
      × (w.paused ≡ false)
      × (lookup turbo_gc_label_key (or_empty w.labels) ≡ none)

  module _ (is_client : IsClient client) (conflict_retry : (S → S × Bool) → S → S × Bool)
      (calls : (f : S → S × Bool) (s : S) → Calls f s (conflict_retry f s)) where
    scheduler_once-IsScheduled :
        (n : String) (s : S) (r : S × Bool)
        → scheduler_once conflict_retry client n true s ≡ r
        → r.1 ≡ true
        → IsScheduled r.0 n
    unfolding scheduler_once
    scheduler_once-IsScheduled n s r e done = elim (Option-cases (client.get s n)) [
      | inl missing ↦ absurd (ground (arith, missing))
      | inr (w, found) ↦
          let w' = remove_gc_label (record w { scheduler_name = default_scheduler }) in
          let removed = remove_gc_label_lem (record w { scheduler_name = default_scheduler }) in
          let same = is_client.get-name s n w found in
          let put = is_client.get-put s w' n in
          (w', ground (arith, string_eq.beq_iff w'.name n), removed.3, removed.0)
    ]

    rollout_once-IsRolling :
        (n : String) (s : S) (r : S × Bool)
        → rollout_once conflict_retry client n false s ≡ r
        → r.1 ≡ true
        → IsRolling r.0 n
    unfolding rollout_once
    rollout_once-IsRolling n s r e done = elim (Option-cases (client.get s n)) [
      | inl missing ↦ absurd (ground (arith, missing))
      | inr (w, found) ↦
          let w' = remove_gc_label (record w { paused = false }) in
          let removed = remove_gc_label_lem (record w { paused = false }) in
          let same = is_client.get-name s n w found in
          let put = is_client.get-put s w' n in
          (w', ground (arith, string_eq.beq_iff w'.name n), removed.2, removed.0)
    ]

    pub change_scheduler-IsScheduled :
        (n : String) (s : S)
        → (change_scheduler conflict_retry client (some n) true s).1 ≡ true
        → IsScheduled (change_scheduler conflict_retry client (some n) true s).0 n
    unfolding change_scheduler
    change_scheduler-IsScheduled n s done =
        let (t, e) = Calls-success (calls (scheduler_once conflict_retry client n true) s) done in
        scheduler_once-IsScheduled n t _ e done

    pub resource_rollout-IsRolling :
        (n : String) (s : S)
        → (resource_rollout conflict_retry client n false s).1 ≡ true
        → IsRolling (resource_rollout conflict_retry client n false s).0 n
    unfolding resource_rollout
    resource_rollout-IsRolling n s done =
        let (t, e) = Calls-success (calls (rollout_once conflict_retry client n false) s) done in
        rollout_once-IsRolling n t _ e done

    module _ (timeout : ℕ) (timing : Timing) where
      pub retried-IsScheduled :
          (n : String) (s : S)
          → let r =
              retried timeout timing (change_scheduler conflict_retry client (some n) true) s in
            r.1 ≡ true → IsScheduled r.0 n
      retried-IsScheduled n s done =
          let f = change_scheduler conflict_retry client (some n) true in
          let (t, e) = Calls-success (retried-Calls timeout timing f s) done in
          subst (λ r. IsScheduled r.0 n) e
            (change_scheduler-IsScheduled n t (ap (λ r. r.1) e ∙ done))

      pub retried-IsRolling :
          (n : String) (s : S)
          → let r = retried timeout timing (resource_rollout conflict_retry client n false) s in
            r.1 ≡ true → IsRolling r.0 n
      retried-IsRolling n s done =
          let f = resource_rollout conflict_retry client n false in
          let (t, e) = Calls-success (retried-Calls timeout timing f s) done in
          subst (λ r. IsRolling r.0 n) e (resource_rollout-IsRolling n t (ap (λ r. r.1) e ∙ done))

  -- What an update of a workload does not change, its changes of the scheduler and of the rollout do
  -- not change either.
  module _ (conflict_retry : (S → S × Bool) → S → S × Bool)
      (calls : (f : S → S × Bool) (s : S) → Calls f s (conflict_retry f s)) {A : Type 0}
      (view : S → A) (keeps : (s : S) (w : Workload) → view (client.put s w).0 ≡ view s) where
    scheduler_once-keep :
        (n : String) (valid : Bool) (s : S)
        → view (scheduler_once conflict_retry client n valid s).0 ≡ view s
    unfolding scheduler_once
    scheduler_once-keep n valid s = elim (Option-cases (client.get s n)) [
      | inl missing ↦ rw (missing, scheduler_once) refl
      | inr (w, found) ↦ elim (Bool-cases w.has_paths) [
        | inl paths ↦ rw (found, scheduler_once) (rw paths (keeps s _))
        | inr no_paths ↦ rw (found, scheduler_once) (rw no_paths refl)
      ]
    ]

    rollout_once-keep :
        (n : String) (pause : Bool) (s : S)
        → view (rollout_once conflict_retry client n pause s).0 ≡ view s
    unfolding rollout_once
    rollout_once-keep n pause s = elim (Option-cases (client.get s n)) [
      | inl missing ↦ rw (missing, rollout_once) refl
      | inr (w, found) ↦ elim (Bool-cases w.has_paths) [
        | inl paths ↦ rw (found, rollout_once) (rw paths (keeps s _))
        | inr no_paths ↦ rw (found, rollout_once) (rw no_paths refl)
      ]
    ]

    pub change_scheduler-keep :
        (parent : Option String) (valid : Bool) (s : S)
        → view (change_scheduler conflict_retry client parent valid s).0 ≡ view s
    unfolding change_scheduler
    change_scheduler-keep none valid s = refl
    change_scheduler-keep (some n) valid s =
        Calls-keep view (scheduler_once-keep n valid) (calls _ s)

    pub resource_rollout-keep :
        (n : String) (pause : Bool) (s : S)
        → view (resource_rollout conflict_retry client n pause s).0 ≡ view s
    unfolding resource_rollout
    resource_rollout-keep n pause s = Calls-keep view (rollout_once-keep n pause) (calls _ s)

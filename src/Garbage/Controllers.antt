-- ===== src/Garbage/Controllers.antt =====
-- The controllers after the cleanup of pkg/discovery/worker/garbage_collector.go.
use kubeturbo.Prelude.{
  ◌≡◌, ◌∙◌, sym, subst, Bool, true, false, ◌&&◌, not, none, some, List, [], ◌∷◌, String, ◌==◌,
  string_eq, if◌then◌else◌, All, arith, Option-cases, Bool-cases, inl, inr,
}
use kubeturbo.Move.Workloads.{
  Workload, Client, default_scheduler, remove_gc_label, scheduler_once, change_scheduler,
  rollout_once, resource_rollout,
}
use kubeturbo.Move.Workloads.Retries.{Calls, once, again, Timing, retried, retried-Calls}
use kubeturbo.Move.Workloads.Settings.{
  IsClient, IsScheduled, IsRolling, remove_gc_label_lem, retried-IsScheduled, retried-IsRolling,
}
use kubeturbo.Prelude.Dict.{lookup}
use kubeturbo.Quota.{or_empty, turbo_gc_label_key}
use kubeturbo.Garbage.{change_back, resume}

-- What each call keeps, any number of calls keep.
Calls-invariant {κ} :
    {S : Type 0} (P : S → Type κ) {f : S → S × Bool} {s : S} {r : S × Bool}
    → ((t : S) → P t → P (f t).0)
    → Calls f s r
    → P s
    → P r.0
Calls-invariant P keeps (once {s = s} e) p = subst (λ r. P r.0) (sym e) (keeps s p)
Calls-invariant P keeps (again {s = s} at refused calls) p =
    Calls-invariant P keeps calls (subst P (sym at) (keeps s p))

module _ {S : Type 0} (client : Client S) (is_client : IsClient client)
    (conflict_retry : (S → S × Bool) → S → S × Bool)
    (calls : (f : S → S × Bool) (s : S) → Calls f s (conflict_retry f s))
    (timing : S → Timing) where
  put-IsScheduled :
      (w : Workload) (n : String) (s : S)
      → w.scheduler_name ≡ default_scheduler
      → lookup turbo_gc_label_key (or_empty w.labels) ≡ none
      → IsScheduled client s n
      → IsScheduled client (client.put s w).0 n
  put-IsScheduled w n s set unmarked (old, found, old_set, old_unmarked) =
      let read = is_client.get-put s w n in
      elim (Bool-cases ((client.put s w).1 && w.name == n)) [
        | inl written ↦ (w, ground (arith, string_eq.beq_iff w.name n), set, unmarked)
        | inr kept ↦ (old, read ∙ rw kept found, old_set, old_unmarked)
      ]

  put-IsRolling :
      (w : Workload) (n : String) (s : S)
      → w.paused ≡ false
      → lookup turbo_gc_label_key (or_empty w.labels) ≡ none
      → IsRolling client s n
      → IsRolling client (client.put s w).0 n
  put-IsRolling w n s set unmarked (old, found, old_set, old_unmarked) =
      let read = is_client.get-put s w n in
      elim (Bool-cases ((client.put s w).1 && w.name == n)) [
        | inl written ↦ (w, ground (arith, string_eq.beq_iff w.name n), set, unmarked)
        | inr kept ↦ (old, read ∙ rw kept found, old_set, old_unmarked)
      ]

  -- Setting the scheduler of one controller keeps another one that has it.
  scheduler_once-keep :
      (m n : String) (s : S)
      → IsScheduled client s n
      → IsScheduled client (scheduler_once conflict_retry client m true s).0 n
  unfolding scheduler_once
  scheduler_once-keep m n s h = elim (Option-cases (client.get s m)) [
    | inl missing ↦ rw (missing, scheduler_once) h
    | inr (w, found) ↦
        let written = remove_gc_label_lem (record w { scheduler_name = default_scheduler }) in
        let kept = put-IsScheduled _ n s written.3 written.0 h in
        elim (Bool-cases w.has_paths) [
          | inr broken ↦
              rw (found, scheduler_once)
                (subst
                  (λ b.
                    IsScheduled client
                      (if not b
                        then (s, false)
                        else client.put s
                            (remove_gc_label (record w { scheduler_name = default_scheduler }))).0
                      n)
                  (sym broken) h)
          | inl fine ↦
              rw (found, scheduler_once)
                (subst
                  (λ b.
                    IsScheduled client
                      (if not b
                        then (s, false)
                        else client.put s
                            (remove_gc_label (record w { scheduler_name = default_scheduler }))).0
                      n)
                  (sym fine) kept)
        ]
  ]

  rollout_once-keep :
      (m n : String) (s : S)
      → IsRolling client s n
      → IsRolling client (rollout_once conflict_retry client m false s).0 n
  unfolding rollout_once
  rollout_once-keep m n s h = elim (Option-cases (client.get s m)) [
    | inl missing ↦ rw (missing, rollout_once) h
    | inr (w, found) ↦
        let written = remove_gc_label_lem (record w { paused = false }) in
        let kept = put-IsRolling _ n s written.2 written.0 h in
        elim (Bool-cases w.has_paths) [
          | inr broken ↦
              rw (found, rollout_once)
                (subst
                  (λ b.
                    IsRolling client
                      (if not b
                        then (s, false)
                        else client.put s (remove_gc_label (record w { paused = false }))).0
                      n)
                  (sym broken) h)
          | inl fine ↦
              rw (found, rollout_once)
                (subst
                  (λ b.
                    IsRolling client
                      (if not b
                        then (s, false)
                        else client.put s (remove_gc_label (record w { paused = false }))).0
                      n)
                  (sym fine) kept)
        ]
  ]

  change_back-keep :
      (ms : List String) (n : String) (s : S)
      → IsScheduled client s n
      → IsScheduled client (change_back timing conflict_retry client ms s) n
  unfolding change_back change_scheduler
  change_back-keep [] n s h = h
  change_back-keep (m ∷ ms) n s h = change_back-keep ms n _ (
      Calls-invariant (λ t. IsScheduled client t n)
        (λ t p.
          Calls-invariant (λ t. IsScheduled client t n) (scheduler_once-keep m n) (calls _ t) p)
        (retried-Calls 0 (timing s) (change_scheduler conflict_retry client (some m) true) s) h)

  resume-keep :
      (ms : List String) (n : String) (s : S)
      → IsRolling client s n
      → IsRolling client (resume timing conflict_retry client ms s) n
  unfolding resume resource_rollout
  resume-keep [] n s h = h
  resume-keep (m ∷ ms) n s h = resume-keep ms n _ (
      Calls-invariant (λ t. IsRolling client t n)
        (λ t p. Calls-invariant (λ t. IsRolling client t n) (rollout_once-keep m n) (calls _ t) p)
        (retried-Calls 0 (timing s) (resource_rollout conflict_retry client m false) s) h)

  -- When the cleanup has gone through the marked controllers of a kind, each of them has the default
  -- scheduler and no mark. The API server accepts one of the attempts at each update.
  pub change_back-IsScheduled :
      (ns : List String) (s : S)
      → All
          (λ n.
            (t : S)
            → (retried 0 (timing t) (change_scheduler conflict_retry client (some n) true) t).1
              ≡ true)
          ns
      → All (IsScheduled client (change_back timing conflict_retry client ns s)) ns
  unfolding change_back
  change_back-IsScheduled [] s accepts = tt
  change_back-IsScheduled (n ∷ ns) s accepts =
      let r = retried 0 (timing s) (change_scheduler conflict_retry client (some n) true) s in
      (
        change_back-keep ns n r.0 (
            retried-IsScheduled client is_client conflict_retry calls 0 (timing s) n s
              (accepts.0 s)),
        change_back-IsScheduled ns r.0 accepts.1,
      )

  -- Likewise the rollouts of the marked controllers go on, and they have no mark.
  pub resume-IsRolling :
      (ns : List String) (s : S)
      → All
          (λ n.
            (t : S)
            → (retried 0 (timing t) (resource_rollout conflict_retry client n false) t).1 ≡ true)
          ns
      → All (IsRolling client (resume timing conflict_retry client ns s)) ns
  unfolding resume
  resume-IsRolling [] s accepts = tt
  resume-IsRolling (n ∷ ns) s accepts =
      let r = retried 0 (timing s) (resource_rollout conflict_retry client n false) s in
      (
        resume-keep ns n r.0 (
            retried-IsRolling client is_client conflict_retry calls 0 (timing s) n s (accepts.0 s)),
        resume-IsRolling ns r.0 accepts.1,
      )

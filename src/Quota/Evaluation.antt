-- ===== src/Quota/Evaluation.antt =====
-- Evaluate of pkg/action/executor/quota_util.go as a whole: which quotas it raises, and for what.
use kubeturbo.Prelude.{
  ℕ, zero, suc, ◌+◌, ◌*◌, ◌≡◌, refl, ◌∙◌, subst, ◌⊎◌, inl, inr, Bool, true, false, Option, none,
  some, List, [], ◌∷◌, String, ◌==◌, string_eq, nat_eq, if◌then◌else◌, is_some, All, Any, All-map,
  arith, Option-cases, Bool-cases,
}
use kubeturbo.Prelude.Dict.{lookup, IsMap}
use kubeturbo.Quota.Resources.{ResourceList, ResourceOps, amount, above}
use kubeturbo.Quota.Admission.{InOrder, Admits, raised-Admits, lookup-masked, new_usage}
use kubeturbo.Quota.Verdicts.{evaluate_quota_cases}
use kubeturbo.Quota.{
  ResourceQuota, copy_quota, remove_zeros, has_usage_stats, Verdict, keep, raise, failed,
  total_delta_usage, masked_new_total_usage, evaluate_quota, evaluate_quotas, evaluate,
}

lookup-remove_zeros :
    (k : String) (a : ResourceList)
    → IsMap a
    → amount (lookup k (remove_zeros a)) ≡ amount (lookup k a)
unfolding remove_zeros lookup
lookup-remove_zeros k [] u = refl
lookup-remove_zeros k ((key, value) ∷ rest) u = elim (Bool-cases (key == k)) [
  | inl same ↦ ground (arith, (string_eq.beq_iff key k).0 same, lookup-remove_zeros k rest u.1)
  | inr other ↦ ground (arith, other, lookup-remove_zeros k rest u.1)
]

above_nothing : (used limit : Option ℕ) → above (new_usage used none limit) limit ≡ false
above_nothing used none = refl
above_nothing used (some l) = refl

lookup_nil : (k : String) → amount (lookup k []) ≡ 0
unfolding lookup
lookup_nil k = refl

amount_sum :
    (x y : Option ℕ)
    → amount (if is_some x then some (amount x + amount y) else y) ≡ amount x + amount y
amount_sum none y = omega arith
amount_sum (some v) y = refl

lookup-total_delta_usage :
    (ops : ResourceOps) (k : String) (delta : ResourceList) (n : ℕ) (total : ResourceList)
    → amount (lookup k (total_delta_usage ops delta n total))
      ≡ n * amount (lookup k delta) + amount (lookup k total)
unfolding total_delta_usage
lookup-total_delta_usage ops k delta zero total = omega arith
lookup-total_delta_usage ops k delta (suc n) total =
    lookup-total_delta_usage ops k delta n (ops.add total delta)
    ∙ grind (arith, ops.lookup-add k total delta, amount_sum (lookup k total) (lookup k delta))

module _ (ops : ResourceOps) {Pod : Type 0} (usage : Pod → Option ResourceList)
    (matches : ResourceQuota → Pod → Option Bool) (matching_resources : List String → List String)
    (encode : ResourceQuota → Option String) (pod : Pod) where
  -- A quota that applies to the pod, reports usage and is in order admits the pods, as it is or by
  -- its update.
  abbrev pub Served : ResourceList → List ResourceQuota → ResourceQuota → Type 0
  Served total updates q =
      matches q pod ≡ some true
      → has_usage_stats q (matching_resources (ops.resource_names q.status_hard)) ≡ true
      → InOrder q
      → Admits ops total q q.status_hard
        ⊎ Any (λ u. (u.name ≡ q.name) × Admits ops total q u.hard) updates

  abbrev verdict : ResourceList → ResourceQuota → Verdict
  verdict total q = evaluate_quota ops usage matches matching_resources encode pod total q

  -- What one verdict says of its quota.
  abbrev Explained : ResourceList → ResourceQuota → Verdict → Type 0
  Explained total q keep =
      matches q pod ≡ some true
      → has_usage_stats q (matching_resources (ops.resource_names q.status_hard)) ≡ true
      → Admits ops total q q.status_hard
  Explained total q (raise u) = (u.name ≡ q.name) × (InOrder q → Admits ops total q u.hard)
  Explained total q failed = Unit {0}

  evaluate_quota-Explained :
      (total : ResourceList) (q : ResourceQuota) → Explained total q (verdict total q)
  unfolding copy_quota
  evaluate_quota-Explained total q =
      evaluate_quota_cases ops usage matches matching_resources encode pod total q
        (Explained total q) tt (λ fits. fits) (λ text kept. (refl, raised-Admits ops total q text))

  Served-cons :
      (total : ResourceList) (u : ResourceQuota) (updates : List ResourceQuota) (q : ResourceQuota)
      → Served total updates q
      → Served total (u ∷ updates) q
  Served-cons total u updates q h applies stats order = elim (h applies stats order) [
    | inl fits ↦ inl fits
    | inr later ↦ inr (inr later)
  ]

  Explained-Served :
      (total : ResourceList) (q u : ResourceQuota) (updates : List ResourceQuota)
      → Explained total q (raise u)
      → Served total (u ∷ updates) q
  Explained-Served total q u updates (same, admits) applies stats order =
      inr (inl (same, admits order))

  evaluate_quotas-Served :
      (total : ResourceList) (qs updates : List ResourceQuota)
      → evaluate_quotas ops usage matches matching_resources encode pod total qs ≡ some updates
      → All (Served total updates) qs
  unfolding evaluate_quotas
  evaluate_quotas-Served total [] updates e = tt
  evaluate_quotas-Served total (q ∷ qs) updates e =
      go (verdict total q)
        (evaluate_quotas ops usage matches matching_resources encode pod total qs) refl refl
        (evaluate_quota-Explained total q) (evaluate_quotas-Served total qs)
    where
      go :
          (v : Verdict) (rest : Option (List ResourceQuota))
          → verdict total q ≡ v
          → evaluate_quotas ops usage matches matching_resources encode pod total qs ≡ rest
          → Explained total q v
          → ((us : List ResourceQuota)
              → evaluate_quotas ops usage matches matching_resources encode pod total qs ≡ some us
              → All (Served total us) qs)
          → All (Served total updates) (q ∷ qs)
      go failed rest ev er h later = ground (arith, ev)
      go keep none ev er h later = ground (arith, ev, er)
      go keep (some rs) ev er h later =
          (λ applies stats order. inl (h applies stats), later updates (ground (arith, ev, er)))
      go (raise u) none ev er h later = ground (arith, ev, er)
      go (raise u) (some rs) ev er h later =
          let same : u ∷ rs ≡ updates = ground (arith, ev, er) in
          subst (λ us. All (Served total us) (q ∷ qs)) same
            (
              Explained-Served total q u rs h,
              All-map (Served total rs) (Served total (u ∷ rs)) qs (Served-cons total u rs)
                  (later rs er),
            )

  nothing-Admits : (q : ResourceQuota) → Admits ops [] q q.status_hard
  nothing-Admits q =
      let masked = masked_new_total_usage ops [] q in
      (ops.allowed-exceeded masked q.status_hard).1 (λ k.
        ops.in_list-exceeded k masked q.status_hard
        ∙ rw (lookup-masked ops [] q k)
            (unfold lookup in above_nothing (lookup k q.status_used) (lookup k q.status_hard)))

  nothing-Served : (updates qs : List ResourceQuota) → All (Served [] updates) qs
  nothing-Served updates [] = tt
  nothing-Served updates (q ∷ qs) =
      (λ applies stats order. inl (nothing-Admits q), nothing-Served updates qs)

  -- Let Evaluate report no error for a number of replicas of a pod, whose usage has each resource
  -- once. Then the usage that it reckons with is that of the pod times the replicas, and each quota
  -- that applies to the pod, reports some usage, is not exceeded yet and has its spec in force
  -- admits this usage on top of its own: as it is, or by the limits of a quota of its name among the
  -- updates.
  pub evaluate-Served :
      (before quotas updates : List ResourceQuota) (replicas : ℕ) (delta : ResourceList)
      → usage pod ≡ some delta
      → IsMap delta
      → evaluate ops usage matches matching_resources encode before quotas pod replicas
        ≡ (updates, true)
      → let total = total_delta_usage ops (remove_zeros delta) replicas [] in
        ((k : String) → amount (lookup k total) ≡ replicas * amount (lookup k delta))
        × All (Served total updates) quotas
  unfolding evaluate
  evaluate-Served before quotas updates replicas delta known u e = (
    λ k.
        lookup-total_delta_usage ops k (remove_zeros delta) replicas []
        ∙ rw (lookup-remove_zeros k delta u) (omega (arith, lookup_nil k)),
    go (total_delta_usage ops (remove_zeros delta) replicas []) refl,
  )
    where
      go :
          (total : ResourceList)
          → total_delta_usage ops (remove_zeros delta) replicas [] ≡ total
          → All (Served total updates) quotas
      go [] et = nothing-Served updates quotas
      go (entry ∷ more) et =
          elim (Option-cases (
            evaluate_quotas ops usage matches matching_resources encode pod (entry ∷ more)
              quotas)) [
                | inl error ↦ ground (arith, known, et, error)
                | inr (found, fine) ↦
                    evaluate_quotas-Served (entry ∷ more) quotas updates
                      (ground (arith, known, et, fine))
              ]

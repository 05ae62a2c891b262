-- ===== src/Quota/Verdicts.antt =====
-- The ways in which one round of Evaluate of pkg/action/executor/quota_util.go ends.
use kubeturbo.Prelude.{
  ◌≡◌, sym, ◌∙◌, inl, inr, Bool, true, false, Option, some, List, String, arith, Option-cases,
  Bool-cases, false≢true,
}
use kubeturbo.Quota.Resources.{ResourceList, ResourceOps}
use kubeturbo.Quota.{
  ResourceQuota, copy_quota, has_usage_stats, Verdict, keep, raise, failed, masked_new_total_usage,
  raised, evaluate_quota,
}

module _ (ops : ResourceOps) {Pod : Type 0} (usage : Pod → Option ResourceList)
    (matches : ResourceQuota → Pod → Option Bool) (matching_resources : List String → List String)
    (encode : ResourceQuota → Option String) (pod : Pod) (total : ResourceList)
    (q : ResourceQuota) where
  -- What is true of the three verdicts, a kept quota that applies and reports usage being one that is
  -- not exceeded, is true of the round's.
  pub evaluate_quota_cases :
      let masked = masked_new_total_usage ops total q in
      let (allowed, exceeded) = ops.less_than_or_equal masked q.status_hard in
      (P : Verdict → Type 0)
      → P failed
      → ((matches q pod ≡ some true
            → has_usage_stats q (matching_resources (ops.resource_names q.status_hard)) ≡ true
            → allowed ≡ true)
          → P keep)
      → ((text : String)
          → encode (copy_quota q) ≡ some text
          → P (raise (raised ops total q exceeded text)))
      → P (evaluate_quota ops usage matches matching_resources encode pod total q)
  unfolding evaluate_quota
  evaluate_quota_cases P fails keeps raises = elim (Option-cases (matches q pod)) [
    | inl error ↦ rw (error, evaluate_quota) fails
    | inr (false, other) ↦ rw (other, evaluate_quota) (keeps (λ yes stats. ground (arith, other)))
    | inr (true, applies) ↦
        elim (Bool-cases
          (has_usage_stats q (matching_resources (ops.resource_names q.status_hard)))) [
            | inr unused ↦
                rw (applies, evaluate_quota)
                  (rw unused (keeps (λ yes stats. absurd (false≢true (sym unused ∙ stats)))))
            | inl used ↦
                elim (Bool-cases
                  (ops.less_than_or_equal (masked_new_total_usage ops total q) q.status_hard).0) [
                    | inl fits ↦
                        rw (applies, evaluate_quota) (rw used (rw fits (keeps (λ yes stats. fits))))
                    | inr over ↦ elim (Option-cases (encode (copy_quota q))) [
                      | inl lost ↦ rw (applies, evaluate_quota) (rw used (rw over (rw lost fails)))
                      | inr (text, kept) ↦
                          rw (applies, evaluate_quota)
                            (rw used (rw over (rw kept (raises text kept))))
                    ]
                  ]
          ]
  ]

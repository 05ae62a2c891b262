-- ===== src/Quota/Reversal.antt =====
-- Update and Revert of pkg/action/executor/quota_util.go, one after the other.
use kubeturbo.Prelude.{
  ℕ, ◌≡◌, refl, ◌∙◌, sym, ap, inl, inr, Bool, true, false, ◌&&◌, Option, some, List, [], ◌∷◌,
  String, ◌==◌, string_eq, nat_eq, if◌then◌else◌, All, Any, any, arith, Option-cases, Bool-cases,
}
use kubeturbo.Prelude.Dict.{lookup}
use kubeturbo.Quota.Backup.{Backup, RoundTrips, evaluate-Backup}
use kubeturbo.Quota.Resources.{ResourceList, ResourceOps}
use kubeturbo.Quota.{
  ResourceQuota, quota_annotation_key, or_empty, remove_gc_label_from_quota, evaluate, update,
  revert, check_quotas,
}

module _ {Server : Type 0} (read_hard : Server → String → Option ResourceList) where
  -- An update that succeeds sets the limits of the quota of that name, and nothing else; one that
  -- fails does nothing.
  abbrev pub Stores : (Server → ResourceQuota → Server × Bool) → Type 0
  Stores put =
      (s : Server) (q : ResourceQuota) (n : String)
      → read_hard (put s q).0 n
        ≡ (if (put s q).1 && q.name == n then some q.hard else read_hard s n)

  abbrev pub named : String → List ResourceQuota → Bool
  named n us = any (λ u. u.name == n) us

  module _ (put : Server → ResourceQuota → Server × Bool) (stores : Stores put) where
    read_hard-update :
        (us : List ResourceQuota) (s : Server) (n : String)
        → named n us ≡ false
        → read_hard (update put s us).0 n ≡ read_hard s n
    unfolding update
    read_hard-update [] s n h = refl
    read_hard-update (u ∷ us) s n h =
        ground (arith, stores s u n, read_hard-update us (put s u).0 n)

  pub remove_gc_label_from_quota_lem :
      (q : ResourceQuota)
      → ((remove_gc_label_from_quota q).name ≡ q.name)
        × ((remove_gc_label_from_quota q).hard ≡ q.hard)
  unfolding remove_gc_label_from_quota
  remove_gc_label_from_quota_lem q = ground arith

  pub original-hard :
      (first : Server) (o : ResourceQuota) (qs : List ResourceQuota)
      → All (λ q. read_hard first q.name ≡ some q.hard) qs
      → Any (λ q. (q.name ≡ o.name) × (q.hard ≡ o.hard)) qs
      → read_hard first o.name ≡ some o.hard
  original-hard first o [] f a = absurd a
  original-hard first o (q ∷ qs) f (inl (name, hard)) =
      ap (read_hard first) (sym name) ∙ f.0 ∙ ap some hard
  original-hard first o (q ∷ qs) f (inr later) = original-hard first o qs f.1 later

  module _ (put : Server → ResourceQuota → Server × Bool) (stores : Stores put)
      (succeeds : (s : Server) (q : ResourceQuota) → (put s q).1 ≡ true)
      (decode : String → Option ResourceQuota) (first : Server) (quotas : List ResourceQuota)
      (fetched : All (λ q. read_hard first q.name ≡ some q.hard) quotas) where
    revert-cons :
        (u o : ResourceQuota) (us : List ResourceQuota) (s : Server) (text : String)
        → lookup quota_annotation_key (or_empty u.annotations) ≡ some text
        → decode text ≡ some o
        → revert put decode s (u ∷ us)
          ≡ revert put decode (put s (remove_gc_label_from_quota o)).0 us
    unfolding revert
    revert-cons u o us s text at back = rw (at, revert) (rw back refl)

    read_hard-put :
        (o : ResourceQuota) (s : Server) (m : String)
        → read_hard (put s (remove_gc_label_from_quota o)).0 m
          ≡ (if o.name == m then some o.hard else read_hard s m)
    read_hard-put o s m =
        let o' = remove_gc_label_from_quota o in
        let (name, hard) = remove_gc_label_from_quota_lem o in
        stores s o' m
        ∙ rw (succeeds s o') (λ i. if name i == m then some (hard i) else read_hard s m)

    read_hard-revert :
        (us : List ResourceQuota) (s : Server)
        → All (Backup decode quotas) us
        → ((n : String) → named n us ≡ false → read_hard s n ≡ read_hard first n)
        → (n : String) → read_hard (revert put decode s us) n ≡ read_hard first n
    read_hard-revert [] s h agrees n = unfold revert in agrees n refl
    read_hard-revert (u ∷ us) s ((text, o, at, back, same, origin), later) agrees n =
        let o' = remove_gc_label_from_quota o in
        let known = original-hard first o quotas fetched origin in
        ap (λ t. read_hard t n) (revert-cons u o us s text at back)
        ∙ read_hard-revert us (put s o').0 later
            (λ m absent. read_hard-put o s m ∙ elim (Bool-cases (o.name == m)) [
              | inl hit ↦
                  rw hit (sym known ∙ ap (read_hard first) ((string_eq.beq_iff o.name m).0 hit))
              | inr miss ↦ rw miss (agrees m (ground (arith, miss, absent, same)))
            ])
            n

module _ (ops : ResourceOps) {Pod : Type 0} (usage : Pod → Option ResourceList)
    (matches : ResourceQuota → Pod → Option Bool) (matching_resources : List String → List String)
    (encode : ResourceQuota → Option String) (decode : String → Option ResourceQuota)
    {Server : Type 0} (read_hard : Server → String → Option ResourceList) where
  revert-evaluate :
      (later_put : Server → ResourceQuota → Server × Bool) (first s : Server)
      (quotas : List ResourceQuota) (pod : Pod) (replicas : ℕ)
      → Stores read_hard later_put
      → ((s : Server) (q : ResourceQuota) → (later_put s q).1 ≡ true)
      → All (λ q. read_hard first q.name ≡ some q.hard) quotas
      → All (RoundTrips ops usage matches matching_resources encode pod decode) quotas
      → let updates =
          (evaluate ops usage matches matching_resources encode [] quotas pod replicas).0 in
        ((n : String) → named read_hard n updates ≡ false → read_hard s n ≡ read_hard first n)
        → (n : String) → read_hard (revert later_put decode s updates) n ≡ read_hard first n
  revert-evaluate later_put first s quotas pod replicas stores succeeds fetched back =
      read_hard-revert read_hard later_put stores succeeds decode first quotas fetched
        (evaluate ops usage matches matching_resources encode [] quotas pod replicas).0 s
        (evaluate-Backup ops usage matches matching_resources encode pod decode quotas replicas
          back)

  -- Whatever `checkQuotas` with a new accessor did, also if it failed or gave up half way through its
  -- updates, Revert gives every quota of the server the limits that it had, provided that the updates
  -- of Revert succeed. The decoder undoes the encoder, the server lists the limits that it has, an
  -- update of a quota changes no other one, and no one else writes to the server meanwhile.
  pub revert-check_quotas :
      (get : Server → Option (List ResourceQuota))
      (put later_put : Server → ResourceQuota → Server × Bool) (first : Server) (pod : Pod)
      (replicas : ℕ) (n : String)
      → Stores read_hard put
      → Stores read_hard later_put
      → ((s : Server) (q : ResourceQuota) → (later_put s q).1 ≡ true)
      → ((quotas : List ResourceQuota)
          → get first ≡ some quotas
          → All (λ q. read_hard first q.name ≡ some q.hard) quotas
            × All (RoundTrips ops usage matches matching_resources encode pod decode) quotas)
      → let (updates, s, fine) =
          check_quotas ops usage matches matching_resources encode get put [] pod replicas first in
        read_hard (revert later_put decode s updates) n ≡ read_hard first n
  unfolding check_quotas
  revert-check_quotas get put later_put first pod replicas n stores later_stores succeeds fetches =
      elim (Option-cases (get first)) [
        | inl down ↦ rw (down, check_quotas) (unfold revert in refl)
        | inr (quotas, got) ↦
            let evaluated =
              evaluate ops usage matches matching_resources encode [] quotas pod replicas in
            let reverts = revert-evaluate later_put first in
            elim (Bool-cases evaluated.1) [
              | inl fine ↦
                  rw (got, check_quotas)
                    (rw fine (
                      reverts (update put first evaluated.0).0 quotas pod replicas later_stores
                        succeeds (fetches quotas got).0 (fetches quotas got).1
                        (read_hard-update read_hard put stores evaluated.0 first) n))
              | inr error ↦
                  rw (got, check_quotas)
                    (rw error (
                      reverts first quotas pod replicas later_stores succeeds (fetches quotas got).0
                        (fetches quotas got).1 (λ m absent. refl) n))
            ]
      ]

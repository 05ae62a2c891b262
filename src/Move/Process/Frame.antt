-- ===== src/Move/Process/Frame.antt =====
-- What the steps of movePod in pkg/action/executor/move_util.go leave as it is, as far as the calls
-- they make do.
use kubeturbo.Prelude.{
  ℕ, ◌≡◌, refl, ◌∙◌, ◌⊎◌, inl, inr, Bool, true, false, ◌&&◌, Option, none, some, List, [], ◌∷◌,
  String, if◌then◌else◌, arith, Option-cases, Bool-cases, is_some,
}
use kubeturbo.Move.Workloads.Retries.{Calls-keep, retried, retried-Calls}
use kubeturbo.Move.Clone.{
  Pod, clone_pod, is_pod_using_volume, new_pending_invalid_pods, readiness_thresholds,
}
use kubeturbo.Move.Process.{
  Env, PodClient, QuotaSteps, Owners, delete_all, delete_invalid_pending_pods, relabel,
  wait_and_replace, replace, with_rollout, with_clone, clone_and_move, with_quotas, move_pod,
  default_retry_short_timeout, default_pod_create_sleep,
}

-- The calls for pods leave what `view` reads as it is.
pub record KeepsPods {S A : Type 0} (pods : PodClient S) (view : S → A) : Type 0 where
  pub create : (s : S) (p : Pod) → view (pods.create s p).0 ≡ view s
  pub delete : (s : S) (n : String) → view (pods.delete s n).0 ≡ view s
  pub update : (s : S) (p : Pod) → view (pods.update s p).0 ≡ view s
  pub wait :
      (s : S) (name node : String) (limits : ℕ × ℕ × ℕ)
      → view (pods.wait_for_pod_ready s name node limits).0 ≡ view s

module _ {S : Type 0} (env : Env S) {A : Type 0} (view : S → A)
    (keeps : KeepsPods env.pods view) where
  open env use {pods, timing}

  delete_all-keep : (names : List String) (s : S) → view (delete_all env names s) ≡ view s
  unfolding delete_all
  delete_all-keep [] s = refl
  delete_all-keep (name ∷ names) s =
      let call = λ (t : S). pods.delete t name in
      delete_all-keep names (retried default_retry_short_timeout (timing s) call s).0
      ∙ Calls-keep view (λ t. keeps.delete t name)
          (retried-Calls default_retry_short_timeout (timing s) call s)

  delete_invalid_pending_pods-keep :
      (parent : Option String) (old : Option (List Pod)) (s : S)
      → view (delete_invalid_pending_pods env parent old s) ≡ view s
  unfolding delete_invalid_pending_pods
  delete_invalid_pending_pods-keep none old s = refl
  delete_invalid_pending_pods-keep (some parent) old s = elim (Option-cases (pods.list s)) [
    | inl error ↦ rw (error, delete_invalid_pending_pods) refl
    | inr (new, listed) ↦
        rw (listed, delete_invalid_pending_pods)
          (delete_all-keep (new_pending_invalid_pods new old) s)
  ]

  module _ (pod : Pod) (node_name : String) (retry_num : ℕ) (owners : Owners) where
    relabel-keep :
        (npod : Pod) (s : S) → view (relabel env pod node_name retry_num owners npod s).0 ≡ view s
    unfolding relabel
    relabel-keep npod s = elim (Option-cases (pods.get s npod.name)) [
      | inl gone ↦ rw (gone, relabel) refl
      | inr (xpod, found) ↦ rw (found, relabel) (keeps.update s _)
    ]

    wait_and_replace-keep :
        (npod : Pod) (s : S)
        → view (wait_and_replace env pod node_name retry_num owners npod s).0 ≡ view s
    unfolding wait_and_replace
    wait_and_replace-keep npod s = elim (Option-cases owners.containers) [
      | inl unreadable ↦ rw (unreadable, wait_and_replace) refl
      | inr (containers, readable) ↦
          let limits = readiness_thresholds containers (default_pod_create_sleep, retry_num, 0) in
          let s' = (pods.wait_for_pod_ready s npod.name node_name limits).0 in
          ground (
            arith,
            readable,
            keeps.wait s npod.name node_name limits,
            keeps.delete s' pod.name,
            relabel-keep npod s',
            relabel-keep npod (pods.delete s' pod.name).0,
          )
    ]

    pub replace-keep :
        (npod : Pod) (s : S) → view (replace env pod node_name retry_num owners npod s).0 ≡ view s
    unfolding replace
    replace-keep npod s = ground (
      arith,
      keeps.delete s pod.name,
      wait_and_replace-keep npod (pods.delete s pod.name).0,
      wait_and_replace-keep npod s,
    )

-- The calls for the quotas leave what `view` reads as it is.
pub record KeepsQuotas {S A : Type 0} (quotas : QuotaSteps S) (view : S → A) : Type 0 where
  pub lock : (s : S) → view (quotas.lock s).0 ≡ view s
  pub check : (s : S) → view (quotas.check s).0 ≡ view s
  pub revert : (s : S) → view (quotas.revert s) ≡ view s
  pub release : (s : S) → view (quotas.release s) ≡ view s

-- What `view` reads is as it was, or `R` holds of it.
module _ {S A : Type 0} (view : S → A) (R : S → Type 0) where
  abbrev pub KeptOr : S → S → Type 0
  KeptOr s t = (view t ≡ view s) ⊎ R t

  pub KeptOr-after : (s t u : S) → view t ≡ view s → KeptOr t u → KeptOr s u
  KeptOr-after s t u e (inl same) = inl (same ∙ e)
  KeptOr-after s t u e (inr r) = inr r

module _ {S : Type 0} (env : Env S) {A : Type 0} (view : S → A) (R : S → Type 0)
    (R-keep : (s t : S) → view t ≡ view s → R s → R t) where
  open env use {pods, timing}

  pub KeptOr-then : (s t u : S) → KeptOr view R s t → view u ≡ view t → KeptOr view R s u
  KeptOr-then s t u (inl same) e = inl (e ∙ same)
  KeptOr-then s t u (inr r) e = inr (R-keep t u e r)

  module _ (keeps : KeepsPods env.pods view) (pod : Pod) (node_name : String) (retry_num : ℕ)
      (owners : Owners)
      (rollout-KeptOr : (npod : Pod) (s : S)
        → KeptOr view R s (with_rollout env pod node_name retry_num owners npod s).0) where
    with_clone-KeptOr :
        (npod : Pod) (s : S)
        → KeptOr view R s (with_clone env pod node_name retry_num owners npod s).0
    unfolding with_clone
    with_clone-KeptOr npod s =
        let r = with_rollout env pod node_name retry_num owners npod s in
        let s2 = if is_some r.1 then r.0 else (pods.delete r.0 npod.name).0 in
        let kept : view s2 ≡ view r.0 = ground (arith, keeps.delete r.0 npod.name) in
        KeptOr-then s r.0 (with_clone env pod node_name retry_num owners npod s).0
          (rollout-KeptOr npod s)
          (delete_invalid_pending_pods-keep env view keeps owners.parent r.2 s2 ∙ kept)

    clone_and_move-KeptOr :
        (stamp : String) (s : S)
        → KeptOr view R s (clone_and_move env pod node_name retry_num owners stamp s).0
    unfolding clone_and_move
    clone_and_move-KeptOr stamp s = elim (Option-cases owners.template) [
      | inl unreadable ↦ rw (unreadable, clone_and_move) (inl refl)
      | inr (template, readable) ↦
          let made = pods.create s (clone_pod stamp pod template node_name) in
          let kept = keeps.create s (clone_pod stamp pod template node_name) in
          elim (Option-cases made.1) [
            | inl refused ↦ rw (readable, clone_and_move) (rw refused (inl kept))
            | inr (npod, created) ↦
                rw (readable, clone_and_move)
                  (rw created (KeptOr-after view R s made.0 _ kept (with_clone-KeptOr npod made.0)))
          ]
    ]

  with_quotas-KeptOr :
      (quotas : QuotaSteps S) (move : S → S × Option Pod) (s : S)
      → KeepsQuotas quotas view
      → ((t : S) → KeptOr view R t (move t).0)
      → KeptOr view R s (with_quotas env quotas move s).0
  unfolding with_quotas
  with_quotas-KeptOr quotas move s keeps moves = go (quotas.has_quotas s) refl
    where
      go :
          (o : Option Bool)
          → quotas.has_quotas s ≡ o
          → KeptOr view R s (with_quotas env quotas move s).0
      go none e = rw (e, with_quotas) (inl refl)
      go (some false) e = rw (e, with_quotas) (moves s)
      go (some true) e =
          let s1 = (quotas.lock s).0 in
          let s2 = (quotas.check s1).0 in
          let s3 = (move s2).0 in
          let before : view s2 ≡ view s = keeps.check s1 ∙ keeps.lock s in
          let behind = keeps.release (quotas.revert s3) ∙ keeps.revert s3 in
          elim (Bool-cases (quotas.lock s).1) [
            | inl locked ↦ elim (Bool-cases (quotas.check s1).1) [
              | inl checked ↦
                  rw (e, with_quotas)
                    (rw locked (
                      rw checked (
                        KeptOr-after view R s s2 _ before (KeptOr-then s2 s3 _ (moves s2) behind))))
              | inr failed ↦
                  rw (e, with_quotas) (rw locked (rw failed (inl (keeps.release s2 ∙ before))))
            ]
            | inr busy ↦ rw (e, with_quotas) (rw busy (inl (keeps.lock s)))
          ]

  pub move_pod-KeptOr :
      (keeps : KeepsPods env.pods view) (quotas : QuotaSteps S)
      (keeps_quotas : KeepsQuotas quotas view) (get_pod_owners_info : S → Option Owners)
      (stamp : String) (pod : Pod) (node_name : String) (retry_num : ℕ)
      (fail_volume update_quota : Bool) (s : S) (owners : Owners)
      → get_pod_owners_info s ≡ some owners
      → ((npod : Pod) (t : S)
          → KeptOr view R t (with_rollout env pod node_name retry_num owners npod t).0)
      → KeptOr view R s
          (move_pod env quotas get_pod_owners_info stamp pod node_name retry_num fail_volume
            update_quota s).0
  unfolding move_pod
  move_pod-KeptOr keeps quotas keeps_quotas get_pod_owners_info stamp pod node_name retry_num
        fail_volume update_quota s owners got rollout =
      let move = clone_and_move env pod node_name retry_num owners stamp in
      let moves = clone_and_move-KeptOr keeps pod node_name retry_num owners rollout stamp in
      elim (Bool-cases (is_pod_using_volume pod && fail_volume)) [
        | inl refused ↦ rw refused (inl refl)
        | inr goes ↦ elim (Bool-cases update_quota) [
          | inl with ↦
              rw goes
                (rw (got, move_pod) (rw with (with_quotas-KeptOr quotas move s keeps_quotas moves)))
          | inr without ↦ rw goes (rw (got, move_pod) (rw without (moves s)))
        ]
      ]

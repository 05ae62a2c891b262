-- ===== src/Locks/ActionLockStore/Keys.antt =====
-- The keys of pkg/action/action_lock_store.go, and what an action has once it has its lock.
use kubeturbo.Prelude.{
  ℕ, ◌+◌, ◌≡◌, refl, ◌∙◌, ◌↔◌, ◌⊎◌, true, Option, none, some, List, [], String, string_eq, All,
  arith, Option-cases, Bool-cases, inl, inr, subst,
}
use kubeturbo.Prelude.Dict.{lookup}
use kubeturbo.Owner.{
  Pod, OwnerInfo, OwnerReference, no_owner, info_of, get_owner_info, get_pod_parent_info,
  is_owner_info_empty,
}
use kubeturbo.Owner.Choice.{
  first, is_managing, get_owner_info_lem, valid_owner-nonempty, first-valid, Incomplete,
  IncompleteOwner, is_owner_info_empty-Incomplete, get_owner_info-nonempty,
  get_owner_info-incomplete, incomplete-get_owner_info,
}
use kubeturbo.Locks.ExpirationMap.Steps.{Event}
use kubeturbo.Locks.ExpirationMap.Exclusive.{HeldUntil}
use kubeturbo.Locks.Retry.{RetryResult, succeeded, skipped, timed_out, exhausted}
use kubeturbo.Locks.LockHelper.{LockHelper, LockMap, new_lock_helper, trylock}
use kubeturbo.Locks.LockHelper.Waiting.{trylock-Waited, Waited}
use kubeturbo.Locks.ActionLockStore.{
  Result, ok, err, panic, bare_pod_key, owner_key, get_pod_lock_key, get_lock_key, get_lock_helper,
  get_lock, waited, default_wait_lock_time_out,
}

module _ (unmarshal : String → Option OwnerInfo) where
  managed_parent :
      (pod : Pod) (owner : OwnerReference)
      → first is_managing pod.owner_references ≡ some owner
      → get_pod_parent_info unmarshal pod ≡ some (info_of owner)
  unfolding get_pod_parent_info
  managed_parent pod owner managed = ground (arith, get_owner_info_lem pod.owner_references)

  managed_key :
      (pod : Pod) (owner : OwnerReference)
      → first is_managing pod.owner_references ≡ some owner
      → get_pod_lock_key unmarshal pod ≡ ok (owner_key (info_of owner) pod.namespace)
  unfolding get_pod_lock_key
  managed_key pod owner managed = ground (
    arith,
    managed_parent pod owner managed,
    valid_owner-nonempty owner,
    first-valid is_managing pod.owner_references managed,
  )

  -- The pods of one controller share one lock: two pods of a namespace whose managing controllers
  -- have the same kind and name have the same key, whatever else differs between them.
  pub get_pod_lock_key-managed :
      (p q : Pod) (a b : OwnerReference)
      → first is_managing p.owner_references ≡ some a
      → first is_managing q.owner_references ≡ some b
      → a.kind ≡ b.kind
      → a.name ≡ b.name
      → p.namespace ≡ q.namespace
      → get_pod_lock_key unmarshal p ≡ get_pod_lock_key unmarshal q
  unfolding owner_key
  get_pod_lock_key-managed p q a b ma mb kind name namespace =
      cc (managed_key p a ma, managed_key q b mb)

  -- The annotation of the creator is missing, or names an object without a kind, a name or a UID.
  abbrev pub NoCreator : Pod → Type 0
  NoCreator pod =
      (lookup "kubernetes.io/created-by" pod.annotations ≡ none)
      ⊎ ((value : String) × (ref : OwnerInfo) × (lookup "kubernetes.io/created-by" pod.annotations
            ≡ some value)
          × (unmarshal value ≡ some ref)
          × Incomplete ref.kind ref.name ref.uid)

  parent-Incomplete :
      (pod : Pod) (owner : OwnerInfo)
      → get_pod_parent_info unmarshal pod ≡ some owner
      → Incomplete owner.kind owner.name owner.uid
      → All IncompleteOwner pod.owner_references × NoCreator pod
  unfolding get_pod_parent_info
  parent-Incomplete pod owner found bare =
      let empty = (is_owner_info_empty-Incomplete owner).1 bare in
      elim (Bool-cases (get_owner_info pod.owner_references).1) [
        | inl set ↦
            absurd
              (ground (arith, set, found, empty, get_owner_info-nonempty pod.owner_references set))
        | inr unset ↦ (
          get_owner_info-incomplete pod.owner_references unset,
          elim (Option-cases (lookup "kubernetes.io/created-by" pod.annotations)) [
            | inl missing ↦ inl missing
            | inr (value, there) ↦
                inr (value, owner, there, ground (arith, unset, there, found), bare)
          ],
        )
      ]

  Incomplete-parent :
      (pod : Pod)
      → All IncompleteOwner pod.owner_references
      → NoCreator pod
      → (owner : OwnerInfo) × (get_pod_parent_info unmarshal pod ≡ some owner)
        × Incomplete owner.kind owner.name owner.uid
  unfolding get_pod_parent_info
  Incomplete-parent pod none_set (inl missing) = (
    no_owner,
    ground (arith, incomplete-get_owner_info pod.owner_references none_set, missing),
    inl refl,
  )
  Incomplete-parent pod none_set (inr (value, ref, there, read, bare)) = (
    ref,
    ground (arith, incomplete-get_owner_info pod.owner_references none_set, there, read),
    bare,
  )

  -- The lock key of a pod panics, by an index out of range, exactly if none of its owner references
  -- has a kind, a name and a UID, its annotation of the creator is missing or names an object that
  -- lacks one of the three, and it has no container.
  pub get_pod_lock_key-panic :
      (pod : Pod)
      → (get_pod_lock_key unmarshal pod ≡ panic)
        ↔ (All IncompleteOwner pod.owner_references × NoCreator pod × (pod.containers ≡ []))
  unfolding get_pod_lock_key bare_pod_key
  get_pod_lock_key-panic pod = (
    λ e. elim (Option-cases (get_pod_parent_info unmarshal pod)) [
      | inl failed ↦ absurd (ground (arith, failed, e))
      | inr (owner, found) ↦
          let empty : is_owner_info_empty owner ≡ true = ground (arith, found, e) in
          let (refs, creator) =
            parent-Incomplete pod owner found ((is_owner_info_empty-Incomplete owner).0 empty) in
          (refs, creator, ground (arith, found, empty, e))
    ],
    λ (refs, creator, bare).
        let (owner, found, lacks) = Incomplete-parent pod refs creator in
        ground (arith, found, (is_owner_info_empty-Incomplete owner).1 lacks, bare),
  )

module _ {Call : Type 0} (noop : Call) (t0 : ℕ) (now after : ℕ → ℕ)
    (between : ℕ → List (Event String Call)) where
  -- The helper has the lock of the key, which it took at the last attempt `i` of its wait, that which
  -- began in the map `before` and succeeded.
  abbrev pub Owns : String → LockMap noop → LockMap noop × Result LockHelper → Type 0
  Owns key before (emap, ok h) =
      (fresh : LockHelper) × (i : ℕ) × (new_lock_helper noop key before ≡ some fresh)
      × (trylock noop default_wait_lock_time_out t0 now after between before fresh
          ≡ some ((emap, h), i, succeeded))
      × (h.key ≡ key)
      × HeldUntil emap key h.version (now i + emap.ttl)
  Owns key before (emap, err) = Unit {0}
  Owns key before (emap, panic) = ⊥

  waited-Owns :
      (key : String) (emap : LockMap noop) (h : LockHelper)
      (r : (LockMap noop × LockHelper) × ℕ × RetryResult)
      → new_lock_helper noop key emap ≡ some h
      → h.key ≡ key
      → trylock noop default_wait_lock_time_out t0 now after between emap h ≡ some r
      → Waited noop default_wait_lock_time_out t0 now after between h r
      → Owns key emap (waited noop t0 now after between emap (some r))
  waited-Owns key emap h ((s, g), i, succeeded) created named returned w = (
    h,
    i,
    created,
    returned,
    w.0 ∙ named,
    subst (λ k. HeldUntil s k g.version (now i + s.ttl)) named w.1,
  )
  waited-Owns key emap h ((s, g), i, skipped) created named returned w = tt
  waited-Owns key emap h ((s, g), i, timed_out) created named returned w = tt
  waited-Owns key emap h ((s, g), i, exhausted) created named returned w = tt

  get_lock_helper-Owns :
      (key : String) (emap : LockMap noop)
      → Owns key emap (get_lock_helper noop t0 now after between key emap)
  unfolding get_lock_helper new_lock_helper
  get_lock_helper-Owns key emap = elim (Option-cases (new_lock_helper noop key emap)) [
    | inl short ↦ rw (short, get_lock_helper) tt
    | inr (h, created) ↦
        let (r, returned, attempts, w) =
          trylock-Waited noop default_wait_lock_time_out t0 now after between emap h in
        rw (created, get_lock_helper)
          (rw returned
            (waited-Owns key emap h r created (new_lock_helper-key key emap h created) returned w))
  ]
    where
      new_lock_helper-key :
          (key : String) (emap : LockMap noop) (h : LockHelper)
          → new_lock_helper noop key emap ≡ some h
          → h.key ≡ key
      new_lock_helper-key key emap h e = ground arith

  -- If `getLock` returns a lock to an action that has a key, it is the lock of that key, the wait of
  -- a new helper for it succeeded, and the returned helper holds it for the whole time to live from
  -- the reading of the clock in the last attempt of that wait on. It never panics there.
  pub get_lock-Owns :
      (unmarshal : String → Option OwnerInfo) {ActionItem : Type 0}
      (pod_func : ActionItem → Result (Option Pod)) (target_id : ActionItem → String)
      (item : ActionItem) (emap : LockMap noop) (key : String)
      → get_lock_key unmarshal pod_func target_id item ≡ ok key
      → Owns key emap (get_lock unmarshal pod_func target_id noop t0 now after between item emap)
  unfolding get_lock
  get_lock-Owns unmarshal pod_func target_id item emap key e =
      rw (e, get_lock) (get_lock_helper-Owns key emap)

-- ===== src/Handler/Pods/Renamed.antt =====
-- Which pod an action finds after earlier actions replaced the pod: pkg/action/util/pod_manager.go.
use kubeturbo.Prelude.{
  ℕ, zero, suc, ◌≤◌, ◌≡◌, ◌≢◌, refl, sym, ap, subst, none, some, String, ◌==◌, string_eq,
  if◌then◌else◌, arith,
}
use kubeturbo.Prelude.Dict.{lookup, insert, lookup-insert}
use kubeturbo.Handler.Pods.{
  PodObject, PodsGetter, PodCache, pod_running, get_pod_in_phase, parse_pod_display_name, cache_pod,
  further_values, get_latest_value, get_running_pod, get_pod_from_display_name_or_uuid,
}

-- The first text was replaced this many times, and the second is what it is now.
abbrev pub Renamed : PodCache → ℕ → String → String → Type 0
Renamed cache zero name latest = (name ≡ latest) × (lookup latest cache ≡ none)
Renamed cache (suc n) name latest =
    (next : String) × (lookup name cache ≡ some next) × Renamed cache n next latest

Renamed-none :
    (cache : PodCache) (n : ℕ) (name latest : String)
    → Renamed cache n name latest
    → lookup latest cache ≡ none
Renamed-none cache zero name latest r = r.1
Renamed-none cache (suc n) name latest (next, at, r) = Renamed-none cache n next latest r

further_values-Renamed :
    (cache : PodCache) (n m : ℕ) (name latest : String)
    → Renamed cache n name latest
    → n ≤ m
    → further_values cache m name ≡ latest
unfolding further_values
further_values-Renamed cache zero zero name latest r le = r.0
further_values-Renamed cache zero (suc m) name latest (same, end) le =
    subst (λ t. further_values cache (suc m) t ≡ latest) (sym same) (rw (end, further_values) refl)
further_values-Renamed cache (suc n) zero name latest r le = absurd (omega arith)
further_values-Renamed cache (suc n) (suc m) name latest (next, at, r) le =
    rw (at, further_values) (further_values-Renamed cache n m next latest r (omega arith))

get_latest_value-Renamed :
    (cache : PodCache) (n : ℕ) (name latest : String)
    → Renamed cache (suc n) name latest
    → n ≤ 20
    → get_latest_value cache name ≡ some latest
unfolding get_latest_value
get_latest_value-Renamed cache n name latest (next, at, r) le =
    rw (at, get_latest_value) (ap some (further_values-Renamed cache n 20 next latest r le))

module _ (cache : PodCache) (old new : PodObject) (fresh : lookup old.uid cache ≡ none)
    (new_name : lookup new.pod.name cache ≡ none) (other_name : old.pod.name ≢ new.pod.name)
    (other_uid : old.uid ≢ new.uid) (old_apart : old.uid ≢ old.pod.name)
    (new_apart : old.uid ≢ new.pod.name) where
  lookup-cache_pod :
      (k : String)
      → lookup k (cache_pod cache old new) ≡ (
          if old.uid == k
          then some new.uid
          else if old.pod.name == k
          then some new.pod.name
          else lookup k cache)
  unfolding cache_pod
  lookup-cache_pod k = ground (
    arith,
    string_eq.beq_iff old.pod.name new.pod.name,
    string_eq.beq_iff old.uid new.uid,
    lookup-insert old.uid k new.uid (insert old.pod.name new.pod.name cache),
    lookup-insert old.pod.name k new.pod.name cache,
  )

  Renamed-cache_pod :
      (n : ℕ) (name : String)
      → Renamed cache n name old.pod.name
      → Renamed (cache_pod cache old new) (suc n) name new.pod.name
  Renamed-cache_pod zero name (same, end) = (
    new.pod.name,
    subst (λ k. lookup k (cache_pod cache old new) ≡ some new.pod.name) (sym same)
        (ground (
          arith,
          lookup-cache_pod old.pod.name,
          string_eq.beq_iff old.uid old.pod.name,
          string_eq.beq_iff old.pod.name old.pod.name,
        )),
    (
      refl,
      ground (
        arith,
        lookup-cache_pod new.pod.name,
        string_eq.beq_iff old.uid new.pod.name,
        string_eq.beq_iff old.pod.name new.pod.name,
      ),
    ),
  )
  Renamed-cache_pod (suc n) name (next, at, r) = (
    next,
    ground (
      arith,
      at,
      Renamed-none cache n next old.pod.name r,
      lookup-cache_pod name,
      string_eq.beq_iff old.uid name,
      string_eq.beq_iff old.pod.name name,
    ),
    Renamed-cache_pod n next r,
  )

  -- After an action that replaced the pod is cached, a later action finds the new pod, which is
  -- running, by the name that the market still has, if that name was replaced at most twenty times
  -- before, up to the name of the old pod, and the cache has neither a replacement of the old
  -- pod's UID nor one of the new pod's name. The names and UIDs of the two pods differ, and the old
  -- UID is no name of them. None of these replacements has expired in the cache meanwhile.
  pub cache_pod-get_pod :
      (getter : PodsGetter) (n : ℕ) (display_name namespace name uuid : String)
      → Renamed cache n name old.pod.name
      → n ≤ 20
      → parse_pod_display_name display_name ≡ some (namespace, name)
      → getter.get namespace new.pod.name ≡ some (some new)
      → new.phase ≡ pod_running
      → get_pod_from_display_name_or_uuid getter (cache_pod cache old new) display_name uuid
        ≡ some new
  unfolding get_pod_from_display_name_or_uuid get_running_pod get_pod_in_phase
  cache_pod-get_pod getter n display_name namespace name uuid r le parsed there running =
      let latest =
        get_latest_value-Renamed (cache_pod cache old new) n name new.pod.name
          (Renamed-cache_pod n name r) le in
      ground (arith, parsed, latest, there, running, string_eq.beq_iff new.phase pod_running)

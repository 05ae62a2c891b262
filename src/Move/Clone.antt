-- ===== src/Move/Clone.antt =====
-- The clone of a pod that pkg/action/executor/move_util.go makes, and the helpers of that file that
-- look at pods.
pub mod Labels
use Prim.Native.String.{◌++◌ as str_append}
use kubeturbo.Prelude.{
  ℕ, ◌*◌, Bool, true, false, ◌&&◌, ◌||◌, not, Option, none, some, List, [], ◌∷◌, String, ◌==◌,
  string_eq, if◌then◌else◌, is_some, any, ltb,
}
use kubeturbo.Prelude.Dict.{Dict, lookup, insert}
use kubeturbo.Prelude.Text.{cut_last}
use kubeturbo.Owner.{OwnerReference}
use kubeturbo.Locks.ExpirationMap.{second}
use kubeturbo.Quota.{or_empty, turbo_gc_label_key, turbo_gc_label_val}
use kubeturbo.Move.Workloads.{dummy_scheduler}

-- The source of a volume. The code names the first nine; all else is `other`.
pub data Volume : Type 0 where
  persistent_volume_claim gce_persistent_disk aws_elastic_block_store azure_disk ceph_fs : Volume
  cinder portworx_volume storage_os vsphere_volume other : Volume

pub record Probe : Type 0 where
  pub failure_threshold : ℕ
  pub initial_delay_seconds : ℕ
  pub period_seconds : ℕ

-- `rest` stands for the fields that no code of this file reads or sets. A container is its readiness
-- probe here.
pub record PodSpec : Type 0 where
  pub hostname : String
  pub subdomain : String
  pub node_name : String
  pub scheduler_name : String
  pub volumes : List Volume
  pub containers : List (Option Probe)
  pub rest : String

-- `uid`, `version` and `creation` stand for what the API server sets: the fields that the code leaves
-- at their zero in a new pod.
pub record Pod : Type 0 where
  pub namespace : String
  pub name : String
  pub uid : String
  pub version : String
  pub labels : Option (Dict String String)
  pub annotations : Option (Dict String String)
  pub owner_references : List OwnerReference
  pub spec : PodSpec
  pub is_pending : Bool

-- `&api.Pod{}`
abbrev pub empty_pod : Pod
empty_pod = record {
  namespace = "";
  name = "";
  uid = "";
  version = "";
  labels = none;
  annotations = none;
  owner_references = [];
  spec = record {
    hostname = "";
    subdomain = "";
    node_name = "";
    scheduler_name = "";
    volumes = [];
    containers = [];
    rest = "";
  };
  is_pending = false;
}

unfoldable pub copy_pod_info : Pod → Pod → Bool → Pod
copy_pod_info old new copy_spec =
    let bare = record new { namespace = old.namespace; version = "" } in
    if copy_spec
    then record bare {
      spec = record old.spec { hostname = ""; subdomain = ""; node_name = "" };
      annotations = old.annotations;
    }
    else bare

unfoldable pub copy_pod_without_label : Pod → Pod → Pod
unfolding copy_pod_info
copy_pod_without_label old new = record (copy_pod_info old new true) {
  labels = some [];
  owner_references = [];
}

unfoldable pub key_in_keys : String → List String → Bool
key_in_keys key keys = any (λ k. k == key) keys

unfoldable pub exclude_from_labels : Dict String String → List String → Dict String String
exclude_from_labels [] exclude = []
exclude_from_labels ((key, val) ∷ labels) exclude =
    let rest = exclude_from_labels labels exclude in
    if key_in_keys key exclude then rest else (key, val) ∷ rest

-- The labels that are filtered are the new pod's.
unfoldable pub copy_pod_without_selected_labels : Pod → Pod → List String → Bool → Pod
unfolding copy_pod_info exclude_from_labels
copy_pod_without_selected_labels old new exclude copy_spec =
    let copy = copy_pod_info old new copy_spec in
    record copy {
      labels = some (exclude_from_labels (or_empty copy.labels) exclude);
      owner_references = [];
    }

abbrev pub turbo_action_annotation_key : String
turbo_action_annotation_key = "kubeturbo.io/action"

abbrev pub turbo_move_annotation_value : String
turbo_move_annotation_value = "move"

-- `stamp` is the current time in base 32.
unfoldable pub gen_new_pod_name : String → Pod → String
gen_new_pod_name stamp old =
    let original =
      if is_some (lookup turbo_action_annotation_key (or_empty old.annotations))
      then elim (cut_last b'-' old.name) [ none ↦ old.name | some (before, after) ↦ before ]
      else old.name in
    str_append original (str_append "-" stamp)

-- pkg/action/util/util.go
unfoldable pub add_annotation : Pod → String → String → Pod
add_annotation pod key value = record pod {
  annotations = some (insert key value (or_empty pod.annotations));
}

unfoldable pub add_label : Pod → String → String → Pod
add_label pod key value = record pod { labels = some (insert key value (or_empty pod.labels)) }

-- The pod template of the controller: its spec, and the annotations of its metadata.
pub record Template : Type 0 where
  pub spec : PodSpec
  pub annotations : Dict String String

abbrev pub exclude_keys : List String
exclude_keys = "pod-template-hash" ∷ "deployment" ∷ "deploymentconfig" ∷ []

-- The pod that createClonePod asks the API server to create.
unfoldable pub clone_pod : String → Pod → Option Template → String → Pod
unfolding copy_pod_without_selected_labels gen_new_pod_name add_annotation add_label
clone_pod stamp pod template node_name =
    let start : Pod = elim template [
      | none ↦ empty_pod
      | some t ↦ record empty_pod { spec = t.spec; annotations = some t.annotations }
    ] in
    let copy = copy_pod_without_selected_labels pod start exclude_keys (not (is_some template)) in
    let placed = record copy {
      spec = record copy.spec { node_name = node_name };
      name = gen_new_pod_name stamp pod;
    } in
    add_label (add_annotation placed turbo_action_annotation_key turbo_move_annotation_value)
      turbo_gc_label_key turbo_gc_label_val

abbrev pub is_persistent : Volume → Bool
is_persistent other = false
is_persistent persistent_volume_claim = true
is_persistent gce_persistent_disk = true
is_persistent aws_elastic_block_store = true
is_persistent azure_disk = true
is_persistent ceph_fs = true
is_persistent cinder = true
is_persistent portworx_volume = true
is_persistent storage_os = true
is_persistent vsphere_volume = true

unfoldable pub is_pod_using_volume : Pod → Bool
is_pod_using_volume pod = any is_persistent pod.spec.volumes

abbrev pub get_container_readiness_probe_details : Option Probe → ℕ × ℕ × ℕ
get_container_readiness_probe_details none = (0, 0, 0)
get_container_readiness_probe_details (some p) =
    (p.failure_threshold, p.initial_delay_seconds, p.period_seconds)

abbrev pub larger : ℕ → ℕ → ℕ
larger a b = if ltb b a then a else b

-- The retry interval, the failure threshold and the initial delay.
unfoldable pub calculate_readiness_threshold : Option Probe → ℕ × ℕ × ℕ → ℕ × ℕ × ℕ
calculate_readiness_threshold container (retry_interval, failure_threshold, init_delay) =
    let (threshold, delay, period) = get_container_readiness_probe_details container in
    (
      larger (second * period) retry_interval,
      larger threshold failure_threshold,
      larger delay init_delay,
    )

unfoldable pub readiness_thresholds : List (Option Probe) → ℕ × ℕ × ℕ → ℕ × ℕ × ℕ
readiness_thresholds [] limits = limits
readiness_thresholds (c ∷ cs) limits =
    readiness_thresholds cs (calculate_readiness_threshold c limits)

-- The names of the pods of the first list that are not in the second, and wait for the scheduler that
-- does not exist. A nil list is `none`.
abbrev pub pods_of : Option (List Pod) → List Pod
pods_of none = []
pods_of (some pods) = pods

unfoldable pub pending_invalid : List Pod → List Pod → List String
pending_invalid [] old = []
pending_invalid (p ∷ ps) old =
    let rest = pending_invalid ps old in
    if any (λ q. p.name == q.name) old
    then rest
    else (if p.is_pending && p.spec.scheduler_name == dummy_scheduler then p.name ∷ rest else rest)

abbrev pub new_pending_invalid_pods : Option (List Pod) → Option (List Pod) → List String
new_pending_invalid_pods new old = pending_invalid (pods_of new) (pods_of old)

-- ===== src/Move/Clone/Labels.antt =====
-- What the clone of createClonePod in pkg/action/executor/move_util.go carries.
use kubeturbo.Prelude.{◌≡◌, refl, Option, none, some, [], String, ◌==◌, string_eq, if◌then◌else◌}
use kubeturbo.Prelude.Dict.{lookup, lookup-insert}
use kubeturbo.Quota.{or_empty, turbo_gc_label_key, turbo_gc_label_val}
use kubeturbo.Move.Clone.{Pod, PodSpec, Template, clone_pod, exclude_from_labels}

-- The spec that the clone is made of: the template's, or else the pod's without its names.
abbrev pub source_spec : Pod → Option Template → PodSpec
source_spec pod none = record pod.spec { hostname = ""; subdomain = "" }
source_spec pod (some t) = t.spec

-- The clone is on the node that was asked for, in the pod's namespace and without an owner, with the
-- spec of the controller's template, or of a pod without controller. Its only label is that of the
-- garbage collector, so no controller adopts it: the labels that are filtered are those of the new
-- pod, which has none, and not the pod's.
pub clone_pod_lem :
    (stamp : String) (pod : Pod) (template : Option Template) (node_name k : String)
    → let clone = clone_pod stamp pod template node_name in
      (clone.spec ≡ record (source_spec pod template) { node_name = node_name })
      × (clone.namespace ≡ pod.namespace)
      × (clone.owner_references ≡ [])
      × (lookup k (or_empty clone.labels)
          ≡ (if turbo_gc_label_key == k then some turbo_gc_label_val else none))
unfolding clone_pod lookup exclude_from_labels
clone_pod_lem stamp pod none node_name k =
    (refl, refl, refl, lookup-insert turbo_gc_label_key k turbo_gc_label_val [])
clone_pod_lem stamp pod (some t) node_name k =
    (refl, refl, refl, lookup-insert turbo_gc_label_key k turbo_gc_label_val [])

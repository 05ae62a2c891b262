-- ===== src/Compliance/HelperExamples.antt =====
-- Two nodes in two zones, as affinity_helper.go of pkg/discovery/worker/compliance meets them.
use kubeturbo.Prelude.{
  List, ◌≡◌, Bool, false, not, none, some, [], ◌∷◌, String, ◌==◌, string_eq, any, Option,
  if◌then◌else◌,
}
use kubeturbo.Prelude.Dict.{lookup}
use kubeturbo.Compliance.Affinity.Helper.{
  Labels, LabelledNode, LabelledPod, PodAffinityTerm, satisfies_existing_pods_anti_affinity,
}
use kubeturbo.Compliance.Affinity.Helper.Existing.{parsed, keeps_off, satisfies_existing-keeps_off}

-- A selector is the value of the label `app` that it wants.
abbrev selects : String → Labels → Bool
selects app labels = elim (lookup "app" labels) [ none ↦ false | some v ↦ v == app ]

abbrev zone : PodAffinityTerm String
zone = record { topology_key = "zone"; namespaces = []; label_selector = "web" }

abbrev rack : PodAffinityTerm String
rack = record { topology_key = "rack"; namespaces = []; label_selector = "db" }

abbrev first_node : LabelledNode
first_node = record { name = "n1"; labels = some (("zone", "a") ∷ ("rack", "1") ∷ []) }

abbrev second_node : LabelledNode
second_node = record { name = "n2"; labels = some (("zone", "a") ∷ ("rack", "2") ∷ []) }

abbrev web : LabelledPod String
web = record {
  name = "web-1";
  namespace = "shop";
  labels = ("app", "web") ∷ [];
  pod_affinity = none;
  pod_anti_affinity = none;
}

-- It wants no web pod in its zone, and no db pod in its rack.
abbrev lone : LabelledPod String
lone = record {
  name = "lone";
  namespace = "shop";
  labels = [];
  pod_affinity = none;
  pod_anti_affinity = some (zone ∷ rack ∷ []);
}

satisfies_existing-keeps_off_example :
    satisfies_existing_pods_anti_affinity
      (parsed selects web first_node)
      web
      first_node
      ((lone, second_node) ∷ [])
    ≡ not (any (keeps_off selects web first_node) ((lone, second_node) ∷ []))
satisfies_existing-keeps_off_example =
    satisfies_existing-keeps_off selects web first_node ((lone, second_node) ∷ [])

-- A node is its name, and so is a term on nodes; the empty term cannot be parsed.
abbrev as_selector : String → Option (String → Bool)
as_selector t = if t == "" then none else some (λ n. t == n)

abbrev names : List String
names = "n1" ∷ "n2" ∷ []

-- ===== src/Owner.antt =====
-- Who controls a pod: pkg/discovery/util/owner_util.go and GetPodParentInfo of
-- pkg/discovery/util/pod_util.go.
pub mod Choice
mod Examples
use kubeturbo.Prelude.{
  Bool, true, false, ◌&&◌, ◌||◌, not, Option, none, some, List, [], ◌∷◌, String, ◌==◌, string_eq,
  if◌then◌else◌,
}
use kubeturbo.Prelude.Dict.{Dict, lookup}

-- `controller` is a pointer in the source.
pub record OwnerReference : Type 0 where
  pub kind : String
  pub name : String
  pub uid : String
  pub controller : Option Bool

-- The field `Containers` is left nil by all that is modelled here.
pub record OwnerInfo : Type 0 where
  pub kind : String
  pub name : String
  pub uid : String

pub record Container : Type 0 where
  pub name : String
  pub image : String

pub record Pod : Type 0 where
  pub namespace : String
  pub name : String
  pub owner_references : List OwnerReference
  pub annotations : Dict String String
  pub containers : List Container

abbrev pub no_owner : OwnerInfo
no_owner = record { kind = ""; name = ""; uid = "" }

unfoldable pub is_controller : OwnerReference → Bool
is_controller owner = elim owner.controller [ none ↦ false | some b ↦ b ]

-- `len(s) > 0`
abbrev pub is_set : String → Bool
is_set s = not (s == "")

unfoldable pub is_valid_owner : OwnerReference → Bool
is_valid_owner owner = is_set owner.kind && is_set owner.name && is_set owner.uid

abbrev pub info_of : OwnerReference → OwnerInfo
info_of owner = record { kind = owner.kind; name = owner.name; uid = owner.uid }

-- The loop, over its variables `ownerInfo` and `ownerSet`.
unfoldable pub owner_loop : OwnerInfo → Bool → List OwnerReference → OwnerInfo × Bool
owner_loop info set [] = (info, set)
owner_loop info set (owner ∷ owners) =
    let info' = if is_valid_owner owner && not set then info_of owner else info in
    let rest = owner_loop info' (is_valid_owner owner || set) owners in
    if is_valid_owner owner && is_controller owner then (info_of owner, true) else rest

unfoldable pub get_owner_info : List OwnerReference → OwnerInfo × Bool
get_owner_info owners = owner_loop no_owner false owners

unfoldable pub is_owner_info_empty : OwnerInfo → Bool
is_owner_info_empty info = info.kind == "" || info.name == "" || info.uid == ""

abbrev pub created_by : String
created_by = "kubernetes.io/created-by"

-- `json.Unmarshal` of an `api.SerializedReference`, and its reference; `none` if it fails. The
-- result is `none` if GetPodParentInfo returns an error.
module _ (unmarshal : String → Option OwnerInfo) where
  unfoldable pub get_pod_parent_info : Pod → Option OwnerInfo
  get_pod_parent_info pod =
      let (info, set) = get_owner_info pod.owner_references in
      if set then some info else elim (lookup created_by pod.annotations) [
        | none ↦ some no_owner
        | some value ↦ unmarshal value
      ]

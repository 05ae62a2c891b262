-- ===== src/Owner/Examples.antt =====
-- Owner references as the functions of pkg/discovery/util/owner_util.go meet them.
use kubeturbo.Prelude.{◌≡◌, refl, true, none, some, List, [], ◌∷◌}
use kubeturbo.Owner.{
  OwnerReference, get_owner_info, info_of, is_valid_owner, is_controller, owner_loop,
}
use kubeturbo.Owner.Choice.{get_owner_info_lem}

abbrev plain : OwnerReference
plain = record { kind = "Node"; name = "n1"; uid = "u1"; controller = none }

abbrev managing : OwnerReference
managing = record { kind = "ReplicaSet"; name = "web"; uid = "u2"; controller = some true }

abbrev both : List OwnerReference
both = plain ∷ managing ∷ []

get_owner_info_example : get_owner_info both ≡ (info_of managing, true)
unfolding is_valid_owner is_controller
get_owner_info_example = get_owner_info_lem both

get_owner_info-both : (get_owner_info both).1 ≡ true
unfolding get_owner_info owner_loop is_valid_owner is_controller
get_owner_info-both = refl

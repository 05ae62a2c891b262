-- ===== src/Owner/Choice.antt =====
-- Which owner reference GetOwnerInfo of pkg/discovery/util/owner_util.go picks.
use kubeturbo.Prelude.{
  ◌≡◌, refl, ◌↔◌, ◌⊎◌, Bool, true, false, ◌&&◌, not, Option, none, some, List, [], ◌∷◌, String,
  ◌==◌, string_eq, All, if◌then◌else◌, arith, Bool-cases, inl, inr,
}
use kubeturbo.Owner.{
  OwnerReference, OwnerInfo, no_owner, is_controller, is_valid_owner, info_of, owner_loop,
  get_owner_info, is_owner_info_empty,
}

-- The first element that passes.
abbrev pub first {ℓ} : {A : Type ℓ} → (A → Bool) → List A → Option A
first p [] = none
first p (x ∷ xs) = if p x then some x else first p xs

abbrev pub is_managing : OwnerReference → Bool
is_managing owner = is_valid_owner owner && is_controller owner

abbrev or_else {ℓ} : {A : Type ℓ} → Option A → Option A → Option A
or_else none b = b
or_else (some a) b = some a

abbrev to_result : Option OwnerReference → OwnerInfo × Bool
to_result none = (no_owner, false)
to_result (some owner) = (info_of owner, true)

-- With an owner set already only a managing controller replaces it.
owner_loop_set :
    (info : OwnerInfo) (owners : List OwnerReference)
    → owner_loop info true owners
      ≡ elim (first is_managing owners) [ none ↦ (info, true) | some owner ↦ (info_of owner, true) ]
unfolding owner_loop
owner_loop_set info [] = refl
owner_loop_set info (owner ∷ owners) =
    ground (arith, owner_loop_set info owners, owner_loop_set (info_of owner) owners)

-- `GetOwnerInfo` returns the first managing controller among the references whose kind, name and uid
-- are set; if there is none, the first such reference, a controller or not; and otherwise nothing.
pub get_owner_info_lem :
    (owners : List OwnerReference)
    → get_owner_info owners
      ≡ to_result (or_else (first is_managing owners) (first is_valid_owner owners))
unfolding get_owner_info owner_loop
get_owner_info_lem [] = refl
get_owner_info_lem (owner ∷ owners) = elim (Bool-cases (is_valid_owner owner)) [
  | inl valid ↦ elim (Bool-cases (is_controller owner)) [
    | inl managing ↦ ground (arith, valid, managing)
    | inr other ↦ ground (arith, valid, other, owner_loop_set (info_of owner) owners)
  ]
  | inr invalid ↦ ground (arith, invalid, get_owner_info_lem owners)
]

pub first-valid :
    (p : OwnerReference → Bool) (owners : List OwnerReference) {owner : OwnerReference}
    → first p owners ≡ some owner
    → p owner ≡ true
first-valid p [] e = cc
first-valid p (x ∷ owners) e = elim (Bool-cases (p x)) [
  | inl passes ↦ ground (arith, passes)
  | inr fails ↦ first-valid p owners (rw fails at e)
]

pub valid_owner-nonempty :
    (owner : OwnerReference)
    → is_valid_owner owner ≡ true
    → is_owner_info_empty (info_of owner) ≡ false
unfolding is_valid_owner is_owner_info_empty
valid_owner-nonempty owner valid = ground arith

-- An owner that `GetOwnerInfo` reports as found is never empty in the sense of `IsOwnerInfoEmpty`, so
-- a caller that tests for emptiness takes no found owner for a bare pod's.
pub get_owner_info-nonempty :
    (owners : List OwnerReference)
    → (get_owner_info owners).1 ≡ true
    → is_owner_info_empty (get_owner_info owners).0 ≡ false
get_owner_info-nonempty owners found = rw (get_owner_info_lem owners) (
    go (first is_managing owners) (first is_valid_owner owners) refl refl
      (rw (get_owner_info_lem owners) at found))
  where
    go :
        (m v : Option OwnerReference)
        → first is_managing owners ≡ m
        → first is_valid_owner owners ≡ v
        → (to_result (or_else m v)).1 ≡ true
        → is_owner_info_empty (to_result (or_else m v)).0 ≡ false
    go (some owner) v em ev h =
        valid_owner-nonempty owner (ground (arith, first-valid is_managing owners em))
    go none (some owner) em ev h = valid_owner-nonempty owner (first-valid is_valid_owner owners ev)
    go none none em ev h = cc

-- One of the three texts is empty.
abbrev pub Incomplete : (kind name uid : String) → Type 0
Incomplete kind name uid = (kind ≡ "") ⊎ ((name ≡ "") ⊎ (uid ≡ ""))

pub is_owner_info_empty-Incomplete :
    (info : OwnerInfo) → (is_owner_info_empty info ≡ true) ↔ Incomplete info.kind info.name info.uid
unfolding is_owner_info_empty
is_owner_info_empty-Incomplete info =
    let kind = string_eq.beq_iff info.kind "" in
    let name = string_eq.beq_iff info.name "" in
    let uid = string_eq.beq_iff info.uid "" in
    (
      λ e. elim (Bool-cases (info.kind == "")) [
        | inl no_kind ↦ inl (kind.0 no_kind)
        | inr has_kind ↦ elim (Bool-cases (info.name == "")) [
          | inl no_name ↦ inr (inl (name.0 no_name))
          | inr has_name ↦ inr (inr (uid.0 (ground (arith, has_kind, has_name, e))))
        ]
      ],
      λ h. elim h [
        | inl e ↦ ground (arith, kind.1 e)
        | inr (inl e) ↦ ground (arith, name.1 e)
        | inr (inr e) ↦ ground (arith, uid.1 e)
      ],
    )

abbrev pub IncompleteOwner : OwnerReference → Type 0
IncompleteOwner owner = Incomplete owner.kind owner.name owner.uid

is_valid_owner-empty :
    (owner : OwnerReference) → is_valid_owner owner ≡ not (is_owner_info_empty (info_of owner))
unfolding is_valid_owner is_owner_info_empty
is_valid_owner-empty owner = ground arith

-- `GetOwnerInfo` finds nothing exactly where no reference is complete.
pub get_owner_info-incomplete :
    (owners : List OwnerReference) → (get_owner_info owners).1 ≡ false → All IncompleteOwner owners
unfolding get_owner_info owner_loop
get_owner_info-incomplete [] e = tt
get_owner_info-incomplete (owner ∷ owners) e = elim (Bool-cases (is_valid_owner owner)) [
  | inl valid ↦ absurd (ground (arith, valid, get_owner_info_lem (owner ∷ owners), e))
  | inr invalid ↦ (
    (is_owner_info_empty-Incomplete (info_of owner)).0
        (ground (arith, is_valid_owner-empty owner, invalid)),
    get_owner_info-incomplete owners (ground (arith, invalid)),
  )
]

pub incomplete-get_owner_info :
    (owners : List OwnerReference)
    → All IncompleteOwner owners
    → get_owner_info owners ≡ (no_owner, false)
unfolding get_owner_info owner_loop
incomplete-get_owner_info [] h = refl
incomplete-get_owner_info (owner ∷ owners) h =
    let empty = (is_owner_info_empty-Incomplete (info_of owner)).1 h.0 in
    ground (arith, is_valid_owner-empty owner, empty, incomplete-get_owner_info owners h.1)

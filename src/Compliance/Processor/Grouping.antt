-- ===== src/Compliance/Processor/Grouping.antt =====
-- The index of compliance_processor.go in pkg/discovery/worker/compliance: entities by type and id.
use kubeturbo.Prelude.{
  ℕ, ◌≡◌, ◌≢◌, refl, ◌∙◌, Bool, ◌&&◌, Option, none, some, List, [], ◌∷◌, String, ◌==◌, nat_eq,
  string_eq, arith, if◌then◌else◌, Option-cases, inl, inr,
}
use kubeturbo.Prelude.Dict.{Dict, lookup, insert, lookup-insert}
use kubeturbo.Compliance.Dto.{Addr, Heap}
use kubeturbo.Compliance.Processor.{
  State, EntityMaps, Result, ok, err, or_empty, group_entity_dto, group_entity_dtos, get_entity_dto,
  update_entity_dto,
}

-- The entity that the maps give for a type and an id.
abbrev pub find : EntityMaps → ℕ → String → Option Addr
find maps entity_type id = lookup id (or_empty (lookup entity_type maps))

-- The entity has the type and the id.
abbrev pub is_at : Heap → ℕ → String → Addr → Bool
is_at heap entity_type id a = (heap a).entity_type == entity_type && (heap a).id == id

find-insert :
    (maps : EntityMaps) (k t : ℕ) (i j : String) (a : Addr)
    → find (insert k (insert i a (or_empty (lookup k maps))) maps) t j
      ≡ (if k == t && i == j then some a else find maps t j)
find-insert maps k t i j a = ground (
  arith,
  nat_eq.beq_iff k t,
  lookup-insert k t (insert i a (or_empty (lookup k maps))) maps,
  lookup-insert i j a (or_empty (lookup k maps)),
)

find-group_entity_dto :
    (heap : Heap) (maps : EntityMaps) (a : Addr) (t : ℕ) (i : String)
    → find (group_entity_dto heap maps a) t i ≡ (if is_at heap t i a then some a else find maps t i)
unfolding group_entity_dto
find-group_entity_dto heap maps a t i = find-insert maps (heap a).entity_type t (heap a).id i a

-- The last entity of the list that has the type and the id.
abbrev pub last_at : Heap → ℕ → String → List Addr → Option Addr
last_at heap t i [] = none
last_at heap t i (a ∷ as') =
    let later = last_at heap t i as' in
    elim later [ some b ↦ some b | none ↦ if is_at heap t i a then some a else none ]

abbrev or_else : Option Addr → Option Addr → Option Addr
or_else none b = b
or_else (some a) b = some a

find-group_entity_dtos :
    (heap : Heap) (maps : EntityMaps) (as' : List Addr) (t : ℕ) (i : String)
    → find (group_entity_dtos heap maps as') t i ≡ or_else (last_at heap t i as') (find maps t i)
unfolding group_entity_dtos
find-group_entity_dtos heap maps [] t i = refl
find-group_entity_dtos heap maps (a ∷ as') t i =
    find-group_entity_dtos heap (group_entity_dto heap maps a) as' t i
    ∙ ground (arith, find-group_entity_dto heap maps a t i)

abbrev pub found : Result Addr → Option Addr
found (ok a) = some a
found (err e) = none

pub found-get_entity_dto :
    (maps : EntityMaps) (t : ℕ) (i : String) → found (get_entity_dto maps t i) ≡ find maps t i
unfolding get_entity_dto
found-get_entity_dto maps t i = elim (Option-cases (lookup t maps)) [
  | inl absent ↦ rw (absent, get_entity_dto) (unfold lookup in refl)
  | inr (m, e) ↦ ground (arith, e)
]

-- After `GroupEntityDTOs` on empty maps, `GetEntityDTO` finds the last entity of the list that has
-- the type and the id, and fails if no entity has.
pub get_entity_dto-group_entity_dtos :
    (heap : Heap) (as' : List Addr) (t : ℕ) (i : String)
    → found (get_entity_dto (group_entity_dtos heap [] as') t i) ≡ last_at heap t i as'
get_entity_dto-group_entity_dtos heap as' t i =
    found-get_entity_dto (group_entity_dtos heap [] as') t i
    ∙ find-group_entity_dtos heap [] as' t i
    ∙ unfold lookup in (or_else_none (last_at heap t i as'))
  where
    or_else_none : (o : Option Addr) → or_else o none ≡ o
    or_else_none none = refl
    or_else_none (some a) = refl

module _ (s : State) (a : Addr) where
  abbrev own : Option Addr
  own = find s.entity_maps (s.heap a).entity_type (s.heap a).id

  pub heap-update_entity_dto : (update_entity_dto s a).0.heap ≡ s.heap
  unfolding update_entity_dto
  heap-update_entity_dto = ground arith

  known_type :
      {b : Addr}
      → own ≡ some b
      → (m : Dict String Addr) × (lookup (s.heap a).entity_type s.entity_maps ≡ some m)
        × (lookup (s.heap a).id m ≡ some b)
  known_type {b} e = elim (Option-cases (lookup (s.heap a).entity_type s.entity_maps)) [
    | inl absent ↦ ground (arith, absent, lookup_nil)
    | inr (m, there) ↦ (m, there, ground (arith, there))
  ]
    where
      lookup_nil : lookup (s.heap a).id (or_empty none) ≡ none
      lookup_nil = unfold lookup in refl

  -- Of a known entity only its own entry changes, to this address.
  pub update_entity_dto_known :
      {b : Addr}
      → own ≡ some b
      → ((update_entity_dto s a).1 ≡ none)
        × ((t : ℕ) (i : String)
            → find (update_entity_dto s a).0.entity_maps t i
              ≡ (if is_at s.heap t i a then some a else find s.entity_maps t i))
  unfolding update_entity_dto
  update_entity_dto_known e =
      let (m, there, at) = known_type e in
      (
        ground (arith, there, at),
        λ t i. ground (
          arith,
          there,
          at,
          find-insert s.entity_maps (s.heap a).entity_type t (s.heap a).id i a,
        ),
      )

  pub update_entity_dto_unknown :
      own ≡ none
      → ((update_entity_dto s a).1 ≢ none) × ((update_entity_dto s a).0.entity_maps ≡ s.entity_maps)
  unfolding update_entity_dto
  update_entity_dto_unknown e = elim (Option-cases (lookup (s.heap a).entity_type s.entity_maps)) [
    | inl absent ↦ (ground (arith, absent), ground (arith, absent))
    | inr (m, there) ↦ (ground (arith, there), ground (arith, there))
  ]

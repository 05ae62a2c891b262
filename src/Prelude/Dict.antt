-- ===== src/Prelude/Dict.antt =====
-- A Go map as an association list. A read of a missing key gives `none`; `delete` of a missing key
-- changes nothing. The order of the list is the order in which a `for … range` visits the keys.
use Prim.Native.Nat.{◌+◌}
use mathlib.Core.Path.{◌≡◌, refl}
use mathlib.Core.Logic.{inl, inr}
use mathlib.Core.Option.{Option, none, some}
use mathlib.Core.List.{List, [], ◌∷◌}
use native.Mathlib.Omega.{arith}
use kubeturbo.Prelude.Tests.{if◌then◌else◌, Bool-cases}
use kubeturbo.Prelude.Equality.{Eq, ◌==◌}
use kubeturbo.Prelude.Lists.{length, All}

abbrev pub Dict : Type 0 → Type 0 → Type 0
Dict K V = List (K × V)

module _ {K V : Type 0} ⦃e : Eq K⦄ where
  unfoldable pub lookup : K → Dict K V → Option V
  lookup key [] = none
  lookup key ((j, v) ∷ dict) = if j == key then some v else lookup key dict

  unfoldable pub insert : K → V → Dict K V → Dict K V
  insert key v [] = (key, v) ∷ []
  insert key v ((j, old) ∷ dict) =
      if j == key then (key, v) ∷ dict else (j, old) ∷ insert key v dict

  unfoldable pub delete : K → Dict K V → Dict K V
  delete key [] = []
  delete key ((j, old) ∷ dict) =
      let rest = delete key dict in if j == key then rest else (j, old) ∷ rest

  pub lookup-insert :
      (key j : K) (v : V) (dict : Dict K V)
      → lookup j (insert key v dict) ≡ (if key == j then some v else lookup j dict)
  unfolding lookup insert
  lookup-insert key j v [] = refl
  lookup-insert key j v ((i, old) ∷ dict) =
      ground (arith, e.beq_iff key j, e.beq_iff i key, e.beq_iff i j, lookup-insert key j v dict)

  pub lookup-delete :
      (key j : K) (dict : Dict K V)
      → lookup j (delete key dict) ≡ (if key == j then none else lookup j dict)
  unfolding lookup delete
  lookup-delete key j [] = ground arith
  lookup-delete key j ((i, old) ∷ dict) =
      ground (arith, e.beq_iff key j, e.beq_iff i key, e.beq_iff i j, lookup-delete key j dict)

  -- The predicate holds at every value that a read can return.
  pub All-lookup {κ} :
      (P : K → V → Type κ) (key : K) (v : V) (dict : Dict K V)
      → All (λ p. P p.0 p.1) dict
      → lookup key dict ≡ some v
      → P key v
  unfolding lookup
  All-lookup P key v [] h l = cc
  All-lookup P key v ((j, old) ∷ dict) h l = elim (Bool-cases (j == key)) [
    | inl same ↦ ground (arith, (e.beq_iff j key).0 same, h.0)
    | inr other ↦ All-lookup P key v dict h.1 (rw other at l)
  ]

  pub All-insert {κ} :
      (P : K → V → Type κ) (key : K) (v : V) (dict : Dict K V)
      → P key v
      → All (λ p. P p.0 p.1) dict
      → All (λ p. P p.0 p.1) (insert key v dict)
  unfolding insert
  All-insert P key v [] new h = (new, tt)
  All-insert P key v ((j, old) ∷ dict) new h = elim (Bool-cases (j == key)) [
    | inl same ↦ rw same (new, h.1)
    | inr other ↦ rw other (h.0, All-insert P key v dict new h.1)
  ]

  pub All-delete {κ} :
      (P : K → V → Type κ) (key : K) (dict : Dict K V)
      → All (λ p. P p.0 p.1) dict
      → All (λ p. P p.0 p.1) (delete key dict)
  unfolding delete
  All-delete P key [] h = tt
  All-delete P key ((j, old) ∷ dict) h = elim (Bool-cases (j == key)) [
    | inl same ↦ rw same (All-delete P key dict h.1)
    | inr other ↦ rw other (h.0, All-delete P key dict h.1)
  ]

  -- A map holds each key once.
  abbrev pub IsMap : Dict K V → Type 0
  IsMap [] = Unit {0}
  IsMap ((j, v) ∷ dict) = (lookup j dict ≡ none) × IsMap dict

  pub insert-IsMap : (key : K) (v : V) (dict : Dict K V) → IsMap dict → IsMap (insert key v dict)
  unfolding lookup insert
  insert-IsMap key v [] h = (refl, tt)
  insert-IsMap key v ((j, old) ∷ dict) h = ground (
    arith,
    e.beq_iff j key,
    e.beq_iff key j,
    lookup-insert key j v dict,
    insert-IsMap key v dict h.1,
  )

  pub delete-IsMap : (key : K) (dict : Dict K V) → IsMap dict → IsMap (delete key dict)
  unfolding lookup delete
  delete-IsMap key [] h = tt
  delete-IsMap key ((j, old) ∷ dict) h =
      ground (arith, lookup-delete key j dict, delete-IsMap key dict h.1)

  pub length-insert :
      (key : K) (v : V) (dict : Dict K V)
      → lookup key dict ≡ none
      → length (insert key v dict) ≡ length dict + 1
  unfolding lookup insert
  length-insert key v [] h = omega arith
  length-insert key v ((j, old) ∷ dict) h = ground (arith, length-insert key v dict)

  pub delete_absent : (key : K) (dict : Dict K V) → lookup key dict ≡ none → delete key dict ≡ dict
  unfolding lookup delete
  delete_absent key [] h = refl
  delete_absent key ((j, old) ∷ dict) h = ground (arith, delete_absent key dict)

  pub length-delete :
      (key : K) (v : V) (dict : Dict K V)
      → IsMap dict
      → lookup key dict ≡ some v
      → length (delete key dict) + 1 ≡ length dict
  unfolding lookup delete
  length-delete key v [] u h = cc
  length-delete key v ((j, old) ∷ dict) u h =
      ground (arith, e.beq_iff j key, delete_absent key dict, length-delete key v dict u.1)

-- ===== src/Discovery/Grouped.antt =====
-- What the map of a discovery worker in pkg/discovery/worker has under a key.
use kubeturbo.Prelude.{
  ◌≡◌, refl, ◌∙◌, ap, Option, none, some, List, [], ◌∷◌, String, ◌==◌, string_eq, if◌then◌else◌,
  Bool-cases, inl, inr,
}
use kubeturbo.Prelude.Dict.{Dict, lookup, insert, lookup-insert}
use kubeturbo.Discovery.{merge_by}

module _ {A : Type 0} (key : A → String) (merge : A → A → A) where
  abbrev pub with_key : String → List A → List A
  with_key k [] = []
  with_key k (a ∷ xs) = if key a == k then a ∷ with_key k xs else with_key k xs

  abbrev pub merge_all : A → List A → A
  merge_all a [] = a
  merge_all a (b ∷ bs) = merge_all (merge a b) bs

  abbrev pub merged : Option A → List A → Option A
  merged none [] = none
  merged none (a ∷ xs) = some (merge_all a xs)
  merged (some a) xs = some (merge_all a xs)

  merged-cons :
      (o : Option A) (a : A) (xs : List A)
      → merged (some (elim o [ none ↦ a | some b ↦ merge b a ])) xs ≡ merged o (a ∷ xs)
  merged-cons none a xs = refl
  merged-cons (some b) a xs = refl

  merged-nil : (o : Option A) → o ≡ merged o []
  merged-nil none = refl
  merged-nil (some a) = refl

  -- Under each key there is what was there, merged with the values of the key in their order.
  pub lookup-merge_by :
      (k : String) (dict : Dict String A) (xs : List A)
      → lookup k (merge_by key merge dict xs) ≡ merged (lookup k dict) (with_key k xs)
  unfolding merge_by
  lookup-merge_by k dict [] = merged-nil (lookup k dict)
  lookup-merge_by k dict (a ∷ xs) =
      let a' : A = elim (lookup (key a) dict) [ none ↦ a | some b ↦ merge b a ] in
      lookup-merge_by k (insert (key a) a' dict) xs
      ∙ ap (λ o. merged o (with_key k xs)) (lookup-insert (key a) k a' dict)
      ∙ elim (Bool-cases (key a == k)) [
        | inl hit ↦ rw hit (
            ap
              (λ j.
                merged (some (elim (lookup j dict) [ none ↦ a | some b ↦ merge b a ]))
                  (with_key k xs))
              ((string_eq.beq_iff (key a) k).0 hit)
            ∙ merged-cons (lookup k dict) a (with_key k xs))
        | inr miss ↦ rw miss refl
      ]

-- ===== src/Metrics/Points/Longest.antt =====
-- The longest of several slices, and their sum. The code is AccumulateMultiPoints of
-- pkg/discovery/metrics/metric.go.
use kubeturbo.Prelude.{
  ℕ, ◌≤◌, ◌≡◌, refl, ◌∙◌, sym, ap, true, false, List, [], ◌∷◌, ◌==◌, string_eq, nat_eq,
  if◌then◌else◌, ltb, length, arith, Bool-cases, inl, inr,
}
use kubeturbo.Metrics.{Point}
use kubeturbo.Metrics.Points.{add_points}

module _ {A : Type 0} where
  unfoldable pub longest : List (List A) → ℕ
  longest [] = 0
  longest (xs ∷ xss) = if ltb (length xs) (longest xss) then longest xss else length xs

  unfoldable pub of_length : ℕ → List (List A) → List (List A)
  of_length n [] = []
  of_length n (xs ∷ xss) = if length xs == n then xs ∷ of_length n xss else of_length n xss

module _ {F : Type 0} (plus : F → F → F) where
  -- The points of the first slice, with the values of the other slices added.
  abbrev add_to : List (Point F) → List (List (Point F)) → List (Point F)
  add_to ps [] = ps
  add_to ps (qs ∷ qss) = add_to (add_points plus ps qs) qss

  unfoldable pub add_all : List (List (Point F)) → List (Point F)
  add_all [] = []
  add_all (ps ∷ pss) = add_to ps pss

  unfoldable pub combine : List (Point F) → List (Point F) → List (Point F)
  combine old new =
      if ltb (length old) (length new)
      then new
      else if ltb (length new) (length old)
      then old
      else add_points plus old new

  length-add_points :
      (ps qs : List (Point F)) → length ps ≡ length qs → length (add_points plus ps qs) ≡ length ps
  unfolding add_points
  length-add_points [] qs e = refl
  length-add_points (p ∷ ps) [] e = refl
  length-add_points (p ∷ ps) (q ∷ qs) e = ground (arith, length-add_points ps qs)

  pub combine-longer :
      (old new : List (Point F)) → ltb (length old) (length new) ≡ true → combine old new ≡ new
  unfolding combine
  combine-longer old new e = rw e refl

  pub combine-shorter :
      (old new : List (Point F)) → ltb (length new) (length old) ≡ true → combine old new ≡ old
  unfolding combine
  combine-shorter old new e = ground (arith, e)

  pub combine-same :
      (old new : List (Point F))
      → ltb (length old) (length new) ≡ false
      → ltb (length new) (length old) ≡ false
      → combine old new ≡ add_points plus old new
  unfolding combine
  combine-same old new e f = rw e (rw f refl)

  pub combine-nil : (ps : List (Point F)) → combine ps [] ≡ ps
  unfolding combine add_points
  combine-nil [] = refl
  combine-nil (p ∷ ps) = combine-shorter (p ∷ ps) [] (ground arith)

  -- A new slice is stored as it is.
  pub combine-new : (used : List (Point F)) → combine [] used ≡ used
  unfolding combine add_points
  combine-new [] = refl
  combine-new (p ∷ used) = combine-longer [] (p ∷ used) (ground arith)

  pub nil : (ps : List (Point F)) → ltb 0 (length ps) ≡ false → ps ≡ []
  nil [] e = refl
  nil (p ∷ ps) e = ground (arith, e)

  abbrev pub combine_all : List (Point F) → List (List (Point F)) → List (Point F)
  combine_all ps [] = ps
  combine_all ps (qs ∷ qss) = combine_all (combine ps qs) qss

  length-combine :
      (ps qs : List (Point F))
      → length (combine ps qs) ≡ (if ltb (length ps) (length qs) then length qs else length ps)
  length-combine ps qs = elim (Bool-cases (ltb (length ps) (length qs))) [
    | inl longer ↦ ap length (combine-longer ps qs longer) ∙ rw longer refl
    | inr l ↦ elim (Bool-cases (ltb (length qs) (length ps))) [
      | inl shorter ↦ ap length (combine-shorter ps qs shorter) ∙ rw l refl
      | inr s ↦
          ap length (combine-same ps qs l s)
          ∙ length-add_points ps qs (ground (arith, l, s))
          ∙ rw l refl
    ]
  ]

  longest-combine :
      (ps qs : List (Point F)) (qss : List (List (Point F)))
      → longest (combine ps qs ∷ qss) ≡ longest (ps ∷ qs ∷ qss)
  unfolding longest
  longest-combine ps qs qss = ground (arith, length-combine ps qs)

  of_length-combine :
      (n : ℕ) (ps qs : List (Point F)) (qss : List (List (Point F)))
      → length ps ≤ n
      → length qs ≤ n
      → add_all (of_length n (combine ps qs ∷ qss)) ≡ add_all (of_length n (ps ∷ qs ∷ qss))
  unfolding of_length add_all
  of_length-combine n ps qs qss p q = elim (Bool-cases (ltb (length ps) (length qs))) [
    | inl longer ↦ rw (combine-longer ps qs longer) (elim (Bool-cases (length ps == n)) [
      | inl hit ↦ absurd (ground (arith, hit, longer))
      | inr miss ↦ rw miss refl
    ])
    | inr l ↦ elim (Bool-cases (ltb (length qs) (length ps))) [
      | inl shorter ↦ rw (combine-shorter ps qs shorter) (elim (Bool-cases (length qs == n)) [
        | inl hit ↦ absurd (ground (arith, hit, shorter))
        | inr miss ↦ rw miss refl
      ])
      | inr s ↦
          let same : length ps ≡ length qs = ground (arith, l, s) in
          let len = length-add_points ps qs same in
          let at_n : (length qs == n) ≡ (length ps == n) = ap (λ l. l == n) (sym same) in
          rw (combine-same ps qs l s) (elim (Bool-cases (length ps == n)) [
            | inl hit ↦ rw len (rw at_n (rw hit refl))
            | inr miss ↦ rw len (rw at_n (rw miss refl))
          ])
    ]
  ]

  pub combine_all-longest :
      (ps : List (Point F)) (qss : List (List (Point F)))
      → combine_all ps qss ≡ add_all (of_length (longest (ps ∷ qss)) (ps ∷ qss))
  unfolding longest of_length add_all
  combine_all-longest ps [] = ground arith
  combine_all-longest ps (qs ∷ qss) =
      combine_all-longest (combine ps qs) qss
      ∙ ap (λ n. add_all (of_length n (combine ps qs ∷ qss))) (longest-combine ps qs qss)
      ∙ of_length-combine (longest (ps ∷ qs ∷ qss)) ps qs qss (ground arith) (ground arith)

-- ===== src/Resize/Effect.antt =====
-- The loop over the specs of updateResourceAmount in
-- pkg/action/executor/resize_container_util.go, container by container.
use kubeturbo.Prelude.{
  ℕ, zero, suc, ◌≤◌, ◌≡◌, refl, sym, ◌∙◌, ap, ◌↔◌, ◌⊎◌, inl, inr, Bool, true, false, ◌&&◌, ◌||◌,
  ltb, All, string_eq, Option-cases, Bool-cases, Option, none, some, List, [], ◌∷◌, ◌==◌, nat_eq,
  if◌then◌else◌, arith,
}
use kubeturbo.Prelude.Dict.{lookup}
use kubeturbo.Quota.Resources.{ResourceList}
use kubeturbo.Resize.{
  Container, ContainerResizeSpec, entries, requests_within, check_limits_requests, resize,
  resize_at, update_resource_amount, with_spec,
}

abbrev pub get_elem? : List Container → ℕ → Option Container
get_elem? [] i = none
get_elem? (c ∷ cs) zero = some c
get_elem? (c ∷ cs) (suc i) = get_elem? cs i

-- A container after the specs for its index, in their order.
abbrev pub resize_all : ℕ → List ContainerResizeSpec → Container → Container
resize_all i [] c = c
resize_all i (spec ∷ specs) c =
    resize_all i specs (if spec.index == i then (resize c spec).0 else c)

abbrev pub apply_to : Option Container → (Container → Container) → Option Container
apply_to none f = none
apply_to (some c) f = some (f c)

-- The containers after one spec.
abbrev pub after : List Container → ContainerResizeSpec → ℕ → List Container
after cs spec i = (with_spec cs false (resize_at cs i spec)).0

after-get_elem? :
    (cs : List Container) (spec : ContainerResizeSpec) (i j : ℕ)
    → get_elem? (after cs spec i) j
      ≡ apply_to (get_elem? cs j) (λ c. if i == j then (resize c spec).0 else c)
unfolding resize_at
after-get_elem? [] spec i j = refl
after-get_elem? (c ∷ cs) spec zero zero = refl
after-get_elem? (c ∷ cs) spec zero (suc j) = ground arith
after-get_elem? (c ∷ cs) spec (suc i) zero = ground arith
after-get_elem? (c ∷ cs) spec (suc i) (suc j) = ground (arith, after-get_elem? cs spec i j)

with_spec-containers :
    (cs : List Container) (changed : Bool) (o : Option (List Container × Bool))
    → (with_spec cs changed o).0 ≡ (with_spec cs false o).0
with_spec-containers cs changed none = refl
with_spec-containers cs changed (some (cs', this_changed)) = refl

apply_to-apply_to :
    (o : Option Container) (f g : Container → Container)
    → apply_to (apply_to o f) g ≡ apply_to o (λ c. g (f c))
apply_to-apply_to none f g = refl
apply_to-apply_to (some c) f g = refl

update_resource_amount-containers :
    (cs : List Container) (specs : List ContainerResizeSpec) (changed : Bool) (j : ℕ)
    → get_elem? (update_resource_amount cs specs changed).0 j
      ≡ apply_to (get_elem? cs j) (resize_all j specs)
unfolding update_resource_amount
update_resource_amount-containers cs [] changed j = apply_to_self (get_elem? cs j)
  where
    apply_to_self : (o : Option Container) → o ≡ apply_to o (λ c. c)
    apply_to_self none = refl
    apply_to_self (some c) = refl
update_resource_amount-containers cs (spec ∷ specs) changed j =
    let next = with_spec cs changed (resize_at cs spec.index spec) in
    let moved = with_spec-containers cs changed (resize_at cs spec.index spec) in
    ap (λ l. get_elem? (update_resource_amount l specs next.1).0 j) moved
    ∙ update_resource_amount-containers (after cs spec spec.index) specs next.1 j
    ∙ ap (λ o. apply_to o (resize_all j specs)) (after-get_elem? cs spec spec.index j)
    ∙ apply_to-apply_to (get_elem? cs j) (λ c. if spec.index == j then (resize c spec).0 else c)
        (resize_all j specs)

-- No request exceeds the limit of the same resource, where both are there.
abbrev pub InLimits : Container → Type 0
InLimits c =
    All (λ limit. (r : ℕ) → lookup limit.0 (entries c.requests) ≡ some r → r ≤ limit.1)
      (entries c.limits)

requests_within-All :
    (limits requests : ResourceList)
    → (requests_within limits requests ≡ true)
      ↔ All (λ limit. (r : ℕ) → lookup limit.0 requests ≡ some r → r ≤ limit.1) limits
unfolding requests_within
requests_within-All [] requests = (λ e. tt, λ h. refl)
requests_within-All ((k, v) ∷ limits) requests =
    let (to, from) = requests_within-All limits requests in
    elim (Option-cases (lookup k requests)) [
      | inl absent ↦ (
        λ e. (λ r there. ground (arith, absent, there), to (ground (arith, absent, e))),
        λ h. ground (arith, absent, from h.1),
      )
      | inr (w, found) ↦ elim (Bool-cases (ltb v w)) [
        | inl over ↦
            (λ e. ground (arith, found, over, e), λ h. absurd (ground (arith, over, h.0 w found)))
        | inr fits ↦ (
          λ e. (λ r there. ground (arith, found, fits, there), to (ground (arith, found, fits, e))),
          λ h. ground (arith, found, fits, from h.1),
        )
      ]
    ]

check_limits_requests-InLimits : (c : Container) → (check_limits_requests c ≡ true) ↔ InLimits c
unfolding check_limits_requests lookup
check_limits_requests-InLimits c = go c.limits c.requests
  where
    no_requests :
        (limits : ResourceList)
        → All (λ limit. (r : ℕ) → lookup limit.0 (entries none) ≡ some r → r ≤ limit.1) limits
    no_requests [] = tt
    no_requests (limit ∷ limits) = (λ r there. cc, no_requests limits)

    go :
        (limits requests : Option ResourceList)
        → (elim limits [
          | none ↦ true
          | some ls ↦ elim requests [ none ↦ true | some rs ↦ requests_within ls rs ]
        ]
            ≡ true)
          ↔ All
              (λ limit. (r : ℕ) → lookup limit.0 (entries requests) ≡ some r → r ≤ limit.1)
              (entries limits)
    go none requests = (λ e. tt, λ h. refl)
    go (some ls) none = (λ e. no_requests ls, λ h. refl)
    go (some ls) (some rs) = requests_within-All ls rs

-- One of the specs, applied after those before it, changes its container and leaves it within its
-- limits.
abbrev pub Reports : List Container → List ContainerResizeSpec → Type 0
Reports cs [] = ⊥
Reports cs (spec ∷ specs) =
    ((c : Container) × (get_elem? cs spec.index ≡ some c)
      × ((resize c spec).1 ≡ true)
      × InLimits (resize c spec).0)
    ⊎ Reports (after cs spec spec.index) specs

-- What a spec reports of its container.
abbrev report_of : List Container → ContainerResizeSpec → ℕ → Bool
report_of cs spec i = elim (get_elem? cs i) [
  | none ↦ false
  | some c ↦ (resize c spec).1 && check_limits_requests (resize c spec).0
]

with_spec-report :
    (cs : List Container) (spec : ContainerResizeSpec) (i : ℕ) (changed : Bool)
    → (with_spec cs changed (resize_at cs i spec)).1 ≡ (changed || report_of cs spec i)
unfolding resize_at
with_spec-report [] spec i changed = ground arith
with_spec-report (c ∷ cs) spec zero changed = refl
with_spec-report (c ∷ cs) spec (suc i) changed = ground (arith, with_spec-report cs spec i changed)

report_of_iff :
    (cs : List Container) (spec : ContainerResizeSpec) (i : ℕ)
    → (report_of cs spec i ≡ true) ↔ (
        (c : Container) × (get_elem? cs i ≡ some c)
        × ((resize c spec).1 ≡ true)
        × InLimits (resize c spec).0)
report_of_iff cs spec i = elim (Option-cases (get_elem? cs i)) [
  | inl out ↦ (
    λ e. absurd (ground (arith, out, e)),
    λ (c, there, moved, within). ground (arith, out, there),
  )
  | inr (c, at) ↦
      let (to, from) = check_limits_requests-InLimits (resize c spec).0 in
      (
        λ e. (c, at, ground (arith, at, e), to (ground (arith, at, e))),
        λ (d, there, moved, within).
            let same : c ≡ d = ground (arith, at, there) in
            let ok : check_limits_requests (resize d spec).0 ≡ true =
              (check_limits_requests-InLimits (resize d spec).0).1 within in
            ground (arith, at, there, same, moved, ok),
      )
]

update_resource_amount-Reports :
    (cs : List Container) (specs : List ContainerResizeSpec) (changed : Bool)
    → ((update_resource_amount cs specs changed).1 ≡ true) ↔ ((changed ≡ true) ⊎ Reports cs specs)
unfolding update_resource_amount
update_resource_amount-Reports cs [] changed =
    (λ e. inl e, λ h. elim h [ inl e ↦ e | inr bad ↦ absurd bad ])
update_resource_amount-Reports cs (spec ∷ specs) changed =
    let next = with_spec cs changed (resize_at cs spec.index spec) in
    let moved = with_spec-containers cs changed (resize_at cs spec.index spec) in
    let told = with_spec-report cs spec spec.index changed in
    let (to, from) = update_resource_amount-Reports (after cs spec spec.index) specs next.1 in
    let (seen, shows) = report_of_iff cs spec spec.index in
    let same : (update_resource_amount next.0 specs next.1).1
        ≡ (update_resource_amount (after cs spec spec.index) specs next.1).1 =
      ap (λ l. (update_resource_amount l specs next.1).1) moved in
    (
      λ e. elim (to (sym same ∙ e)) [
        | inr later ↦ inr (inr later)
        | inl now ↦ elim (Bool-cases changed) [
          | inl before ↦ inl before
          | inr not_yet ↦ inr (inl (seen (sym (told ∙ rw not_yet refl) ∙ now)))
        ]
      ],
      λ h.
          same
          ∙ from (elim h [
            | inl before ↦ inl (told ∙ rw before refl)
            | inr (inl here) ↦ inl (told ∙ rw (shows here) (or_true changed))
            | inr (inr later) ↦ inr later
          ]),
    )
  where
    or_true : (b : Bool) → (b || true) ≡ true
    or_true true = refl
    or_true false = refl

-- Each container is resized by the specs that have its index, in their order, and by no others; a
-- spec whose index is out of range is skipped. A change is reported if there was one before, or if
-- one of the specs changes its container and leaves no request above the limit of the same resource;
-- a spec that leaves one above is applied all the same, and its change is not reported.
pub update_resource_amount-get_elem? :
    (cs : List Container) (specs : List ContainerResizeSpec) (changed : Bool)
    → ((j : ℕ)
        → get_elem? (update_resource_amount cs specs changed).0 j
          ≡ apply_to (get_elem? cs j) (resize_all j specs))
      × (((update_resource_amount cs specs changed).1 ≡ true)
          ↔ ((changed ≡ true) ⊎ Reports cs specs))
update_resource_amount-get_elem? cs specs changed = (
  update_resource_amount-containers cs specs changed,
  update_resource_amount-Reports cs specs changed,
)

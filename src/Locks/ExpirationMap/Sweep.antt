-- ===== src/Locks/ExpirationMap/Sweep.antt =====
-- `expireItems` of pkg/action/util/expiration_map.go, when no other call comes between its steps.
use kubeturbo.Prelude.{
  ℕ, ◌+◌, ◌≤◌, ◌<◌, ◌≡◌, refl, ◌∙◌, ap, false≢true, Bool, true, false, Option, none, some, List, [],
  ◌∷◌, String, ◌==◌, any, nat_eq, string_eq, arith, All, length, if◌then◌else◌, Option-cases,
  Bool-cases, inl, inr,
}
use kubeturbo.Prelude.Dict.{Dict, lookup, delete, lookup-delete, IsMap, delete-IsMap, length-delete}
use kubeturbo.Locks.ExpirationMap.{
  ExpirationMap, Node, size, is_expire, expire_item, expired_keys, expire_keys, expire_items,
}

abbrev has_key : String → List String → Bool
has_key key keys = any (λ k. k == key) keys

abbrev Nodup : List String → Type 0
Nodup [] = Unit {0}
Nodup (k ∷ ks) = (has_key k ks ≡ false) × Nodup ks

module _ {Obj Call : Type 0} where
  abbrev LateAt : ℕ → Option (Node Obj Call) → Type 0
  LateAt time none = ⊥
  LateAt time (some item) = item.expire < time

  abbrev AllLate : ℕ → Dict String (Node Obj Call) → List String → Type 0
  AllLate time m keys = All (λ k. LateAt time (lookup k m)) keys

  AllLate-cons :
      (time : ℕ) (key : String) (item : Node Obj Call) (m : Dict String (Node Obj Call))
      (keys : List String)
      → lookup key m ≡ none
      → AllLate time m keys
      → AllLate time ((key, item) ∷ m) keys
  unfolding lookup
  AllLate-cons time key item m [] new h = tt
  AllLate-cons time key item m (k ∷ ks) new h =
      (ground (arith, string_eq.beq_iff key k, h.0), AllLate-cons time key item m ks new h.1)

  has_key-AllLate :
      (time : ℕ) (key : String) (m : Dict String (Node Obj Call)) (keys : List String)
      → lookup key m ≡ none
      → AllLate time m keys
      → has_key key keys ≡ false
  has_key-AllLate time key m [] new h = refl
  has_key-AllLate time key m (k ∷ ks) new h =
      ground (arith, string_eq.beq_iff k key, h.0, has_key-AllLate time key m ks new h.1)

  has_key-LateAt :
      (time : ℕ) (key : String) (m : Dict String (Node Obj Call)) (keys : List String)
      → AllLate time m keys
      → has_key key keys ≡ true
      → LateAt time (lookup key m)
  has_key-LateAt time key m [] h found = absurd (false≢true found)
  has_key-LateAt time key m (k ∷ ks) h found =
      ground (arith, string_eq.beq_iff k key, h.0, has_key-LateAt time key m ks h.1)

  AllLate-delete :
      (time : ℕ) (key : String) (m : Dict String (Node Obj Call)) (keys : List String)
      → has_key key keys ≡ false
      → AllLate time m keys
      → AllLate time (delete key m) keys
  AllLate-delete time key m [] new h = tt
  AllLate-delete time key m (k ∷ ks) new h = ground (
    arith,
    string_eq.beq_iff k key,
    string_eq.beq_iff key k,
    lookup-delete key k m,
    h.0,
    AllLate-delete time key m ks (ground arith) h.1,
  )

  expire_item_late :
      (s : ExpirationMap Obj Call) (key : String) (time now : ℕ)
      → LateAt time (lookup key s.items)
      → time ≤ now
      → (expire_item s key now).0 ≡ record s { items = delete key s.items }
  unfolding expire_item
  expire_item_late s key time now late h = ground arith

  length-delete_late :
      (key : String) (time : ℕ) (m : Dict String (Node Obj Call))
      → IsMap m
      → LateAt time (lookup key m)
      → length (delete key m) + 1 ≡ length m
  length-delete_late key time m u late = elim (Option-cases (lookup key m)) [
    | inl absent ↦ absurd (rw absent at late)
    | inr (item, found) ↦ length-delete key item m u found
  ]

  module _ (clock : ℕ → ℕ) where
    expired_keys-AllLate :
        (time i : ℕ) (m : Dict String (Node Obj Call))
        → ((j : ℕ) → j < i + length m → clock j ≤ time)
        → IsMap m
        → AllLate time m (expired_keys clock i m)
    unfolding expired_keys
    expired_keys-AllLate time i [] before u = tt
    expired_keys-AllLate time i ((key, item) ∷ m) before u =
        let rest = expired_keys clock (i + 1) m in
        let late : AllLate time ((key, item) ∷ m) rest =
          AllLate-cons time key item m rest u.0
            (expired_keys-AllLate time (i + 1) m (λ j h. before j (omega arith)) u.1) in
        elim (Bool-cases (is_expire item (clock i))) [
          | inl past ↦ rw past (
            unfold lookup in (ground (arith, string_eq.beq_iff key key, before i (omega arith))),
            late,
          )
          | inr left ↦ rw left late
        ]

    expired_keys-Nodup :
        (time i : ℕ) (m : Dict String (Node Obj Call))
        → ((j : ℕ) → j < i + length m → clock j ≤ time)
        → IsMap m
        → Nodup (expired_keys clock i m)
    unfolding expired_keys
    expired_keys-Nodup time i [] before u = tt
    expired_keys-Nodup time i ((key, item) ∷ m) before u =
        let more = λ (j : ℕ) (h : j < i + 1 + length m). before j (omega arith) in
        let rest = expired_keys clock (i + 1) m in
        ground (
          arith,
          expired_keys-Nodup time (i + 1) m more u.1,
          has_key-AllLate time key m rest u.0 (expired_keys-AllLate time (i + 1) m more u.1),
        )

    has_key-expired_keys :
        (from i : ℕ) (key : String) (item : Node Obj Call) (m : Dict String (Node Obj Call))
        → ((j : ℕ) → from ≤ clock j)
        → lookup key m ≡ some item
        → item.expire < from
        → has_key key (expired_keys clock i m) ≡ true
    unfolding expired_keys lookup
    has_key-expired_keys from i key item [] after found late = cc
    has_key-expired_keys from i key item ((k, n) ∷ m) after found late = ground (
      arith,
      string_eq.beq_iff k key,
      after i,
      has_key-expired_keys from (i + 1) key item m after,
    )

    -- Every gathered key is still late when its turn comes, so each turn deletes one entry.
    expire_keys_lem :
        (time i : ℕ) (s : ExpirationMap Obj Call) (keys : List String)
        → ((j : ℕ) → i ≤ j → time ≤ clock j)
        → IsMap s.items
        → AllLate time s.items keys
        → Nodup keys
        → (size (expire_keys s keys clock i) + length keys ≡ size s)
          × ((key : String)
              → lookup key (expire_keys s keys clock i).items
                ≡ (if has_key key keys then none else lookup key s.items))
    unfolding expire_keys size
    expire_keys_lem time i s [] after u late distinct = (omega arith, λ key. refl)
    expire_keys_lem time i s (k ∷ ks) after u late distinct =
        let t : ExpirationMap Obj Call = record s { items = delete k s.items } in
        let (sizes, reads) =
          expire_keys_lem time (i + 1) t ks (λ j h. after j (omega arith))
            (delete-IsMap k s.items u) (AllLate-delete time k s.items ks distinct.0 late.1)
            distinct.1 in
        let turn : expire_keys s (k ∷ ks) clock i ≡ expire_keys t ks clock (i + 1) =
          ap (λ r. expire_keys r ks clock (i + 1))
            (expire_item_late s k time (clock i) late.0 (after i (omega arith))) in
        (
          omega (arith, ap size turn, sizes, length-delete_late k time s.items u late.0),
          λ key.
              ap (λ r. lookup key r.items) turn
              ∙ reads key
              ∙ ground (
                arith,
                string_eq.beq_iff k key,
                string_eq.beq_iff key k,
                lookup-delete k key s.items,
              ),
        )

    -- A sweep that no other call interrupts, although `expireItems` releases the lock between its
    -- steps, with a clock that does not run backwards and every key in the map once, deletes every
    -- entry that was late when it began, deletes none that is not late when it has gathered the
    -- keys, adds none, and returns the number of entries that it deleted.
    pub expire_items_lem :
        (s : ExpirationMap Obj Call)
        → ((i j : ℕ) → i ≤ j → clock i ≤ clock j)
        → IsMap s.items
        → let (t, deleted) = expire_items s clock in
          (size t + deleted ≡ size s)
          × ((key : String) → lookup key s.items ≡ none → lookup key t.items ≡ none)
          × ((key : String) (item : Node Obj Call)
              → lookup key s.items ≡ some item
              → item.expire < clock 0
              → lookup key t.items ≡ none)
          × ((key : String) (item : Node Obj Call)
              → lookup key s.items ≡ some item
              → clock (length s.items) ≤ item.expire
              → lookup key t.items ≡ some item)
    unfolding expire_items
    expire_items_lem s mono u =
        let time = clock (length s.items) in
        let keys = expired_keys clock 0 s.items in
        let before =
          λ (j : ℕ) (h : j < 0 + length s.items). mono j (length s.items) (omega arith) in
        let late = expired_keys-AllLate time 0 s.items before u in
        let (sizes, reads) =
          expire_keys_lem time (length s.items) s keys (λ j h. mono (length s.items) j h) u late
            (expired_keys-Nodup time 0 s.items before u) in
        (
          sizes,
          (λ key absent. reads key ∙ ground (arith, absent)),
          (λ key item found h.
              reads key
              ∙ rw (
                  has_key-expired_keys (clock 0) 0 key item s.items (λ j. mono 0 j (omega arith))
                    found h)),
          (λ key item found h.
              reads key ∙ ground (arith, found, has_key-LateAt time key s.items keys late)),
        )

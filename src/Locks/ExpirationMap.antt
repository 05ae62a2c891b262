-- ===== src/Locks/ExpirationMap.antt =====
-- pkg/action/util/expiration_map.go: a map whose entries expire. Each operation runs under the
-- map's mutex, so it is one step. A reading of `time.Now()` is an argument, in nanoseconds; the
-- operations that read the clock more than once take one argument for each reading.
pub mod Steps
mod Cases
pub mod Exclusive
pub mod Invariant
pub mod Stale
pub mod Leases
pub mod Sweep
use kubeturbo.Prelude.{
  ℕ, ◌+◌, ◌^◌, ◌%◌, Bool, true, false, Option, none, some, List, [], ◌∷◌, String, ltb,
  if◌then◌else◌, length, ◌==◌, nat_eq, string_eq,
}
use kubeturbo.Prelude.Dict.{Dict, lookup, insert, delete}

-- `generation` and `version` are int64 counters, kept as their bit patterns.
abbrev pub int64_mod : ℕ
int64_mod = 2 ^ 64

abbrev pub second : ℕ
second = 1000000000

-- `obj` and `callBack`: what is stored, and the function that expiry calls with it.
pub record Node (Obj Call : Type 0) : Type 0 where
  pub obj : Obj
  pub version : ℕ
  pub expire : ℕ
  pub call_back : Call

pub record ExpirationMap (Obj Call : Type 0) : Type 0 where
  pub items : Dict String (Node Obj Call)
  pub generation : ℕ
  pub ttl : ℕ

module _ {Obj Call : Type 0} where
  abbrev pub is_expire : Node Obj Call → ℕ → Bool
  is_expire n now = ltb n.expire now

  -- The node after the call, and the result. The clock is read again for the new deadline.
  unfoldable pub touch_node : Node Obj Call → ℕ → ℕ → ℕ → Node Obj Call × Bool
  touch_node n ttl now again =
      if is_expire n now then (n, false) else (record n { expire = again + ttl }, true)

  unfoldable pub new_expiration_map : ℕ → ExpirationMap Obj Call
  new_expiration_map ttl = record { items = []; generation = 0; ttl = ttl }

  abbrev pub new_item : ExpirationMap Obj Call → Obj → Call → ℕ → Node Obj Call
  new_item s obj fun now = record {
    obj = obj;
    version = (s.generation + 1) % int64_mod;
    expire = now + s.ttl;
    call_back = fun;
  }

  unfoldable pub add :
      ExpirationMap Obj Call → String → Obj → Call → ℕ → ExpirationMap Obj Call × ℕ × Bool
  add s key obj fun now = elim (lookup key s.items) [
    | some _ ↦ (s, 0, false)
    | none ↦
        let item = new_item s obj fun now in
        (
          record s { items = insert key item s.items; generation = item.version },
          item.version,
          true,
        )
  ]

  unfoldable pub size : ExpirationMap Obj Call → ℕ
  size s = length s.items

  unfoldable pub del : ExpirationMap Obj Call → String → ℕ → ExpirationMap Obj Call × Bool
  del s key version = elim (lookup key s.items) [
    | none ↦ (s, false)
    | some item ↦
        if item.version == version
        then (record s { items = delete key s.items }, true)
        else (s, false)
  ]

  -- The stored node is a pointer: `touch` changes the entry in place.
  unfoldable pub touch : ExpirationMap Obj Call → String → ℕ → ℕ → ℕ → ExpirationMap Obj Call × Bool
  unfolding touch_node
  touch s key version now again = elim (lookup key s.items) [
    | none ↦ (s, false)
    | some item ↦
        if item.version == version
        then (let (item', touched) = touch_node item s.ttl now again in
            (record s { items = insert key item' s.items }, touched))
        else (s, false)
  ]

  -- `clock i` is the i-th reading of the clock in the loop.
  unfoldable pub expired_keys : (ℕ → ℕ) → ℕ → Dict String (Node Obj Call) → List String
  expired_keys clock i [] = []
  expired_keys clock i ((key, item) ∷ rest) =
      let keys = expired_keys clock (i + 1) rest in
      if is_expire item (clock i) then key ∷ keys else keys

  abbrev pub get_expired_keys : ExpirationMap Obj Call → (ℕ → ℕ) → List String
  get_expired_keys s clock = expired_keys clock 0 s.items

  -- The map, the result, and the call of a callback that was made.
  unfoldable pub expire_item :
      ExpirationMap Obj Call → String → ℕ → ExpirationMap Obj Call × Bool × Option (Call × Obj)
  expire_item s key now = elim (lookup key s.items) [
    | none ↦ (s, false, none)
    | some item ↦
        if is_expire item now
        then (record s { items = delete key s.items }, true, some (item.call_back, item.obj))
        else (s, false, none)
  ]

  -- The loop of `expireItems` over the keys that it gathered.
  unfoldable pub expire_keys :
      ExpirationMap Obj Call → List String → (ℕ → ℕ) → ℕ → ExpirationMap Obj Call
  expire_keys s [] clock i = s
  expire_keys s (key ∷ keys) clock i =
      expire_keys (expire_item s key (clock i)).0 keys clock (i + 1)

  -- With no other call in between, where the code releases the lock; there the number that it returns
  -- need not be that of the entries deleted. Each expiry is an event of its own in `Steps`.
  unfoldable pub expire_items : ExpirationMap Obj Call → (ℕ → ℕ) → ExpirationMap Obj Call × ℕ
  expire_items s clock =
      let keys = get_expired_keys s clock in
      (expire_keys s keys clock (length s.items), length keys)

  abbrev pub get_ttl : ExpirationMap Obj Call → ℕ
  get_ttl s = s.ttl

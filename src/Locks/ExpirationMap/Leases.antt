-- ===== src/Locks/ExpirationMap/Leases.antt =====
-- The contract of pkg/action/util/expiration_map.go without its representation: a table of leases,
-- each a version, a deadline, a holder and a callback, and a counter, with an operation for each of the map.
use mathlib.Core.Path.{fun_ext}
use kubeturbo.Prelude.{
  ℕ, ◌+◌, ◌%◌, ◌≡◌, refl, ◌∙◌, ap, ◌&&◌, Bool, true, false, Option, none, some, List, [], ◌∷◌,
  String, ◌==◌, nat_eq, string_eq, arith, Option-cases, ltb, leb, if◌then◌else◌, inl, inr,
}
use kubeturbo.Prelude.Dict.{lookup, lookup-insert, lookup-delete}
use kubeturbo.Locks.ExpirationMap.{
  ExpirationMap, Node, int64_mod, new_item, add, del, touch, touch_node, expire_item,
}
use kubeturbo.Locks.ExpirationMap.Steps.{Event, adds, dels, touches, expires, step, run}

pub record Lease (Obj Call : Type 0) : Type 0 where
  pub version : ℕ
  pub deadline : ℕ
  pub holder : Obj
  pub on_expiry : Call

-- What a call returns: whether it did what it is for, the version of a lease that it granted, 0 where
-- there is none, and the call that it made of the callback of a lease that ran out.
pub record Reply (Obj Call : Type 0) : Type 0 where
  pub done : Bool
  pub version : ℕ
  pub called : Option (Call × Obj)

pub record Table (Obj Call : Type 0) : Type 0 where
  pub lease : String → Option (Lease Obj Call)
  pub counter : ℕ
  pub term : ℕ

Table-path :
    {Obj Call : Type 0} {t u : Table Obj Call}
    → ((k : String) → t.lease k ≡ u.lease k)
    → t.counter ≡ u.counter
    → t.term ≡ u.term
    → t ≡ u
Table-path l c d = λ i. record { lease = fun_ext l i; counter = c i; term = d i }

module _ {Obj Call : Type 0} where
  abbrev pub put :
      (String → Option (Lease Obj Call))
      → String
      → Option (Lease Obj Call)
      → String
      → Option (Lease Obj Call)
  put f k l j = if k == j then l else f j

  abbrev pub refusal : Reply Obj Call
  refusal = record { done = false; version = 0; called = none }

  abbrev pub success : Reply Obj Call
  success = record { done = true; version = 0; called = none }

  -- Grants a free key under the next version, and refuses one that is taken.
  abbrev pub grant : Table Obj Call → String → Obj → Call → ℕ → Table Obj Call × Reply Obj Call
  grant t k o c now = elim (t.lease k) [
    | some _ ↦ (t, refusal)
    | none ↦
        let next : ℕ = (t.counter + 1) % int64_mod in
        (
          record t {
            lease = put t.lease k (
                some
                  (record { version = next; deadline = now + t.term; holder = o; on_expiry = c }));
            counter = next;
          },
          record { done = true; version = next; called = none },
        )
  ]

  -- Ends the lease of that version.
  abbrev pub release : Table Obj Call → String → ℕ → Table Obj Call × Reply Obj Call
  release t k version = elim (t.lease k) [
    | none ↦ (t, refusal)
    | some l ↦
        if l.version == version
        then (record t { lease = put t.lease k none }, success)
        else (t, refusal)
  ]

  -- Extends the lease of that version, unless it has run out.
  abbrev pub renew : Table Obj Call → String → ℕ → ℕ → ℕ → Table Obj Call × Reply Obj Call
  renew t k version now again = elim (t.lease k) [
    | none ↦ (t, refusal)
    | some l ↦
        if l.version == version && leb now l.deadline
        then (
          record t { lease = put t.lease k (some (record l { deadline = again + t.term })) },
          success,
        )
        else (t, refusal)
  ]

  -- Ends a lease that has run out, and calls its callback with its holder.
  abbrev pub reclaim : Table Obj Call → String → ℕ → Table Obj Call × Reply Obj Call
  reclaim t k now = elim (t.lease k) [
    | none ↦ (t, refusal)
    | some l ↦
        if ltb l.deadline now
        then (
          record t { lease = put t.lease k none },
          record { done = true; version = 0; called = some (l.on_expiry, l.holder) },
        )
        else (t, refusal)
  ]

  abbrev pub lease_of : Option (Node Obj Call) → Option (Lease Obj Call)
  lease_of none = none
  lease_of (some item) = some (record {
    version = item.version;
    deadline = item.expire;
    holder = item.obj;
    on_expiry = item.call_back;
  })

  abbrev pub view : ExpirationMap Obj Call → Table Obj Call
  view s = record { lease = λ k. lease_of (lookup k s.items); counter = s.generation; term = s.ttl }

  -- What the code's call returns; `Del` and `Touch` return the Boolean alone, and `expireItem` makes
  -- a call of a callback.
  abbrev pub reply : ExpirationMap Obj Call → Event Obj Call → Reply Obj Call
  reply s (adds k o c now) =
      let r = add s k o c now in record { done = r.2; version = r.1; called = none }
  reply s (dels k version) = record { done = (del s k version).1; version = 0; called = none }
  reply s (touches k version now again) = record {
    done = (touch s k version now again).1;
    version = 0;
    called = none;
  }
  reply s (expires k now) =
      let r = expire_item s k now in record { done = r.1; version = 0; called = r.2 }

  abbrev pub table_step : Table Obj Call → Event Obj Call → Table Obj Call × Reply Obj Call
  table_step t (adds k o c now) = grant t k o c now
  table_step t (dels k version) = release t k version
  table_step t (touches k version now again) = renew t k version now again
  table_step t (expires k now) = reclaim t k now

  -- What the operation makes of the map and what it returns.
  abbrev Refines : ExpirationMap Obj Call → Event Obj Call → Type 0
  Refines s e =
      (view (step s e) ≡ (table_step (view s) e).0) × (reply s e ≡ (table_step (view s) e).1)

  module _ (s : ExpirationMap Obj Call) (k : String) where
    add-Refines : (o : Obj) (c : Call) (now : ℕ) → Refines s (adds k o c now)
    unfolding step add
    add-Refines o c now = (
      Table-path
          (λ j.
            ground (arith, string_eq.beq_iff k j, lookup-insert k j (new_item s o c now) s.items))
          (ground arith) (ground arith),
      ground arith,
    )

    del-Refines : (version : ℕ) → Refines s (dels k version)
    unfolding step del
    del-Refines version = (
      Table-path (λ j. ground (arith, string_eq.beq_iff k j, lookup-delete k j s.items))
          (ground arith) (ground arith),
      ground arith,
    )

    expire_item-Refines : (now : ℕ) → Refines s (expires k now)
    unfolding step expire_item
    expire_item-Refines now = (
      Table-path (λ j. ground (arith, string_eq.beq_iff k j, lookup-delete k j s.items))
          (ground arith) (ground arith),
      ground arith,
    )

    touch-Refines : (version now again : ℕ) → Refines s (touches k version now again)
    unfolding step touch touch_node
    touch-Refines version now again = (
      Table-path
          (λ j. elim (Option-cases (lookup k s.items)) [
            | inl absent ↦ ground (arith, absent)
            | inr (item, found) ↦ ground (
              arith,
              found,
              string_eq.beq_iff k j,
              lookup-insert k j item s.items,
              lookup-insert k j (record item { expire = again + s.ttl }) s.items,
            )
          ])
          (ground arith) (ground arith),
      ground arith,
    )

  step-Refines : (s : ExpirationMap Obj Call) (e : Event Obj Call) → Refines s e
  step-Refines s (adds k o c now) = add-Refines s k o c now
  step-Refines s (dels k version) = del-Refines s k version
  step-Refines s (touches k version now again) = touch-Refines s k version now again
  step-Refines s (expires k now) = expire_item-Refines s k now

  -- A history, with what each of its calls returned.
  abbrev pub replies : ExpirationMap Obj Call → List (Event Obj Call) → List (Reply Obj Call)
  replies s [] = []
  replies s (e ∷ es) = reply s e ∷ replies (step s e) es

  abbrev pub table_run :
      Table Obj Call → List (Event Obj Call) → Table Obj Call × List (Reply Obj Call)
  table_run t [] = (t, [])
  table_run t (e ∷ es) =
      let (t', done) = table_step t e in let (u, rest) = table_run t' es in (u, done ∷ rest)

  -- The map refines the table of leases: after any history it shows the table that the same history
  -- makes of the table that it showed before, with what is stored under each key, and every call
  -- returned what the table's call returns: its Boolean, for `Add` the version too, and for an
  -- expiry the call of the callback with the object that was stored.
  pub run-table_run :
      (s : ExpirationMap Obj Call) (es : List (Event Obj Call))
      → (view (run s es) ≡ (table_run (view s) es).0) × (replies s es ≡ (table_run (view s) es).1)
  unfolding run
  run-table_run s [] = (refl, refl)
  run-table_run s (e ∷ es) =
      let (state, result) = step-Refines s e in
      let (state', results) = run-table_run (step s e) es in
      (
        state' ∙ ap (λ t. (table_run t es).0) state,
        λ i. result i ∷ (results ∙ ap (λ t. (table_run t es).1) state) i,
      )

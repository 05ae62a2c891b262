-- ===== src/Locks/ExpirationMap/Steps.antt =====
-- The operations of pkg/action/util/expiration_map.go as the steps of a history: each one runs under
-- the mutex, so goroutines interleave them whole. A sweep interleaves by its single expiries.
use kubeturbo.Prelude.{ℕ, ◌+◌, ◌≤◌, List, [], ◌∷◌, String}
use kubeturbo.Locks.ExpirationMap.{ExpirationMap, add, del, touch, expire_item}

pub data Event (Obj Call : Type 0) : Type 0 where
  adds : (key : String) → Obj → Call → (now : ℕ) → Event Obj Call
  dels : (key : String) → (version : ℕ) → Event Obj Call
  touches : (key : String) → (version now again : ℕ) → Event Obj Call
  expires : (key : String) → (now : ℕ) → Event Obj Call

module _ {Obj Call : Type 0} where
  unfoldable pub step : ExpirationMap Obj Call → Event Obj Call → ExpirationMap Obj Call
  step s (adds key obj fun now) = (add s key obj fun now).0
  step s (dels key version) = (del s key version).0
  step s (touches key version now again) = (touch s key version now again).0
  step s (expires key now) = (expire_item s key now).0

  unfoldable pub run : ExpirationMap Obj Call → List (Event Obj Call) → ExpirationMap Obj Call
  run s [] = s
  run s (e ∷ es) = run (step s e) es

  -- Every reading of the clock in the event lies in the interval.
  abbrev pub Within : ℕ → ℕ → Event Obj Call → Type 0
  Within from until (adds key obj fun now) = (from ≤ now) × (now ≤ until)
  Within from until (dels key version) = Unit {0}
  Within from until (touches key version now again) = (from ≤ now) × (now ≤ again) × (again ≤ until)
  Within from until (expires key now) = (from ≤ now) × (now ≤ until)

  -- How often the event may use up a version.
  abbrev pub count_adds : List (Event Obj Call) → ℕ
  count_adds [] = 0
  count_adds (adds key obj fun now ∷ es) = 1 + count_adds es
  count_adds (dels key version ∷ es) = count_adds es
  count_adds (touches key version now again ∷ es) = count_adds es
  count_adds (expires key now ∷ es) = count_adds es

  -- The last reading of the clock, once the event is over.
  abbrev pub until : ℕ → Event Obj Call → ℕ
  until from (adds key obj fun now) = now
  until from (dels key version) = from
  until from (touches key version now again) = again
  until from (expires key now) = now

  abbrev pub until_end : ℕ → List (Event Obj Call) → ℕ
  until_end from [] = from
  until_end from (e ∷ es) = until_end (until from e) es

  -- The clock does not run backwards.
  abbrev pub Timely : ℕ → List (Event Obj Call) → Type 0
  Timely from [] = Unit {0}
  Timely from (e ∷ es) = Within from (until from e) e × Timely (until from e) es

-- ===== src/Locks/LockHelper/Renewal.antt =====
-- The renewing goroutine of pkg/action/util/lock_helper.go and the time it keeps a lock.
use kubeturbo.Prelude.{
  ℕ, ◌+◌, ◌*◌, ◌/◌, ◌≤◌, ◌≡◌, refl, Bool, true, false, Option, some, List, [], ◌∷◌, String, All,
  arith, string_eq, subst, ◌∙◌, sym, ap,
}
use kubeturbo.Locks.ExpirationMap.{second, add, touch}
use kubeturbo.Locks.ExpirationMap.Steps.{Event, step, run, Within}
use kubeturbo.Locks.ExpirationMap.Exclusive.{
  HeldUntil, Keeps, run-HeldUntil, ttl-run, add_grants, touch_held, touch_grants, ttl-step,
}
use kubeturbo.Locks.LockHelper.{
  LockHelper, LockMap, Round, new_lock_helper, or_default, acquire_lock, renew_rounds, max_second,
}

module _ {Call : Type 0} (noop : Call) where
  -- From one renewal at `from` to the next the goroutine sleeps its interval and is late by at most
  -- `slack`; the channel stays open, and the others do not delete this holder's entry.
  abbrev pub Punctual : LockHelper → (ttl slack from : ℕ) → List (Round noop) → Type 0
  Punctual h ttl slack from [] = Unit {0}
  Punctual h ttl slack from (r ∷ rounds) =
      (r.stopped ≡ false)
      × (from ≤ r.now)
      × (r.now ≤ from + max_second (ttl / 2) + slack)
      × (r.now ≤ r.again)
      × All (Within from r.now) r.between
      × All (Keeps h.key h.version) r.between
      × Punctual h ttl slack r.again rounds

  -- The reading of the clock at the last renewal.
  abbrev pub last_renewal : ℕ → List (Round noop) → ℕ
  last_renewal from [] = from
  last_renewal from (r ∷ rounds) = last_renewal r.again rounds

  Within-mono :
      (from until later : ℕ) (es : List (Event String Call))
      → until ≤ later
      → All (Within from until) es
      → All (Within from later) es
  Within-mono from until later [] h w = tt
  Within-mono from until later (e ∷ es) h w =
      (Within-one e w.0, Within-mono from until later es h w.1)
    where
      Within-one : (e : Event String Call) → Within from until e → Within from later e
      Within-one (Event.adds k o c now) w = omega arith
      Within-one (Event.dels k v) w = tt
      Within-one (Event.touches k v now again) w = omega arith
      Within-one (Event.expires k now) w = omega arith

  renew_rounds-cons :
      (emap : LockMap noop) (h : LockHelper) (r : Round noop) (rounds : List (Round noop))
      → r.stopped ≡ false
      → (touch (run emap r.between) h.key h.version r.now r.again).1 ≡ true
      → renew_rounds noop emap h (r ∷ rounds)
        ≡ renew_rounds noop (touch (run emap r.between) h.key h.version r.now r.again).0 h rounds
  unfolding renew_rounds
  renew_rounds-cons emap h r rounds open_yet success = ground arith

  pub renew_rounds-ttl :
      (h : LockHelper) (emap : LockMap noop) (rounds : List (Round noop))
      → (renew_rounds noop emap h rounds).0.ttl ≡ emap.ttl
  unfolding renew_rounds step
  renew_rounds-ttl h emap [] = refl
  renew_rounds-ttl h emap (r ∷ rounds) =
      let before : LockMap noop = run emap r.between in
      let touched = touch before h.key h.version r.now r.again in
      ground (
        arith,
        ttl-run emap r.between,
        ttl-step before (Event.touches h.key h.version r.now r.again),
        renew_rounds-ttl h touched.0 rounds,
      )

  pub renew_rounds-HeldUntil :
      (ttl slack from : ℕ) (h : LockHelper) (emap : LockMap noop) (rounds : List (Round noop))
      → emap.ttl ≡ ttl
      → second * 2 ≤ ttl
      → slack + ttl / 2 ≤ ttl
      → HeldUntil emap h.key h.version (from + ttl)
      → Punctual h ttl slack from rounds
      → ((renew_rounds noop emap h rounds).1 ≡ true)
        × HeldUntil
            (renew_rounds noop emap h rounds).0
            h.key
            h.version
            (last_renewal from rounds + ttl)
  unfolding step
  renew_rounds-HeldUntil ttl slack from h emap [] same long small held p =
      unfold renew_rounds in (refl, held)
  renew_rounds-HeldUntil ttl slack from h emap (r ∷ rounds) same long small held p =
      let before : LockMap noop = run emap r.between in
      let touched = touch before h.key h.version r.now r.again in
      let in_time : r.now ≤ from + ttl = ground (arith, p.2) in
      let kept : HeldUntil before h.key h.version (from + ttl) =
        run-HeldUntil emap h.key h.version (from + ttl) from r.between held (omega arith)
          (Within-mono from r.now (from + ttl) r.between in_time p.4) p.5 in
      let success : touched.1 ≡ true =
        touch_held before h.key h.version (from + ttl) r.now r.again kept in_time in
      let same' : touched.0.ttl ≡ ttl =
        ttl-step before (Event.touches h.key h.version r.now r.again)
        ∙ ttl-run emap r.between
        ∙ same in
      let renewed : HeldUntil touched.0 h.key h.version (r.again + ttl) =
        subst (λ t. HeldUntil touched.0 h.key h.version (r.again + t)) same'
          (touch_grants before touched.0 h.key h.version r.now r.again
            (λ i. (touched.0, success i))) in
      let rest =
        renew_rounds-HeldUntil ttl slack r.again h touched.0 rounds same' long small renewed p.6 in
      rw (renew_rounds-cons emap h r rounds p.0 success) rest

  acquire_lock_held :
      (h : LockHelper) (emap s : LockMap noop) (callback : Option Call) (now : ℕ) {h' : LockHelper}
      → acquire_lock noop emap h callback now ≡ (s, h', true)
      → HeldUntil s h.key h'.version (now + s.ttl) × (h'.key ≡ h.key) × (s.ttl ≡ emap.ttl)
  unfolding acquire_lock step
  acquire_lock_held h emap s callback now {h'} e =
      let t = add emap h.key h.key (or_default noop callback) now in
      let granted : t ≡ (s, h'.version, true) = ground arith in
      (
        add_grants emap s h.key h.key (or_default noop callback) now h'.version granted,
        ground arith,
        sym (ap (λ (r : LockMap noop × ℕ × Bool). r.0.ttl) granted)
            ∙ ttl-step emap (Event.adds h.key h.key (or_default noop callback) now),
      )

  -- A helper that `NewLockHelper` made and that takes its lock keeps it by renewing: if the clock does
  -- not run backwards, the goroutine's rounds are late by no more than half the time to live, its
  -- channel stays open and no other call deletes this holder's version, every renewal succeeds, and after the last one
  -- the entry still has the whole time to live. The bound of two seconds in `NewLockHelper` is what
  -- makes the interval short enough.
  pub keep_renew-HeldUntil :
      (podkey : String) (emap s : LockMap noop) (h h' : LockHelper) (callback : Option Call)
      (now slack : ℕ) (rounds : List (Round noop))
      → new_lock_helper noop podkey emap ≡ some h
      → acquire_lock noop emap h callback now ≡ (s, h', true)
      → slack + emap.ttl / 2 ≤ emap.ttl
      → Punctual h' emap.ttl slack now rounds
      → ((renew_rounds noop s h' rounds).1 ≡ true)
        × HeldUntil
            (renew_rounds noop s h' rounds).0
            podkey
            h'.version
            (last_renewal now rounds + emap.ttl)
  unfolding new_lock_helper
  keep_renew-HeldUntil podkey emap s h h' callback now slack rounds created taken small p =
      let (held, key, same) = acquire_lock_held h emap s callback now taken in
      let key' : h'.key ≡ podkey = key ∙ ground arith in
      let kept =
        renew_rounds-HeldUntil emap.ttl slack now h' s rounds same (ground arith) small
          (subst (λ k. HeldUntil s k h'.version (now + emap.ttl)) (sym key)
            (subst (λ t. HeldUntil s h.key h'.version (now + t)) same held))
          p in
      (
        kept.0,
        subst
            (λ k.
              HeldUntil (renew_rounds noop s h' rounds).0 k h'.version
                (last_renewal now rounds + emap.ttl))
            key' kept.1,
      )

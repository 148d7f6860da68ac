-- ===== src/QueueState/Lock.antt =====
-- The drain lock: `_dispatch_queue_drain_try_lock` and `_dispatch_queue_drain_try_unlock`
-- (src/inline_internal.h).
use swift_corelibs_libdispat.Common.{
  ℕ, ◌+◌, ◌-◌, ◌*◌, ◌%◌, ◌^◌, ◌≤◌, ◌<◌, ◌≡◌, refl, ◌∙◌, arith, Bool, true, false, none, Bool-cases,
  leb, ◌&&◌, inl, inr, ◌||◌, ltb, if◌then◌else◌,
}
use swift_corelibs_libdispat.Common.Bits.{field, test_bit, set_bit, clear_field}
use swift_corelibs_libdispat.QueueState.{
  DrainKind, stealing, manager_drain, plain, lock_fails, drain_locked_state, drain_try_lock,
  drain_try_unlock, dq_state_drain_owner, dq_state_is_dirty, dq_state_max_qos, dequeue_bits,
  drain_unlock_bits, dq_state_has_pending_barrier, width_interval, width_full_bit,
}

-- The enqueued bit that a drain of this kind keeps.
abbrev pub kept_enqueued : DrainKind → ℕ → ℕ
kept_enqueued plain s = 0
kept_enqueued kind s = field 31 1 s

-- The fields that a taken lock has, each from its part.
abbrev locked : ℕ → ℕ → ℕ → ℕ → ℕ → ℕ → ℕ
locked o e q r m b = e * 2 ^ 31 + q * 2 ^ 32 + (r * 2 ^ 36 + m * 2 ^ 38) + o + 2 ^ 53 + b * 2 ^ 54

field31 : (s : ℕ) → field 31 4 s ≡ field 31 1 s + 2 * field 32 3 s
field31 s = omega arith

field36 : (s : ℕ) → field 36 3 s ≡ field 36 2 s + 4 * field 38 1 s
field36 s = omega arith

abbrev barrier_bit : ℕ → ℕ → ℕ
barrier_bit width s =
    if dq_state_has_pending_barrier s || ltb (s + (width - 1) * width_interval) width_full_bit
    then 1
    else 0

drain_locked_state-locked :
    (width tid s : ℕ)
    → drain_locked_state width tid s
      ≡ locked
          (field 0 30 tid)
          (field 31 1 s)
          (field 32 3 s)
          (field 36 2 s)
          (field 38 1 s)
          (barrier_bit width s)
unfolding drain_locked_state
drain_locked_state-locked width tid s =
    rw (field31 s, field36 s)
      (elim (Bool-cases
        (dq_state_has_pending_barrier s || ltb (s + (width - 1) * width_interval) width_full_bit)) [
          | inl e ↦ rw e (omega arith)
          | inr e ↦ rw e (omega arith)
        ])

module _ (o e q r m b : ℕ) (ho : o < 2 ^ 30) (he : e < 2) (hq : q < 8) (hr : r < 4) (hm : m < 2)
    (hb : b < 2) where
  field53-locked : field 53 2 (locked o e q r m b) ≡ 1 + 2 * b
  field53-locked = omega arith

  field31-locked : field 31 1 (locked o e q r m b) ≡ e
  field31-locked = omega arith

  field38-locked : field 38 1 (locked o e q r m b) ≡ m
  field38-locked = omega arith

  field32-locked : field 32 3 (locked o e q r m b) ≡ q
  field32-locked = omega arith

  field0-locked : field 0 30 (locked o e q r m b) ≡ o
  field0-locked = omega arith

  dirty-locked : test_bit 39 (locked o e q r m b) ≡ false
  dirty-locked = ground arith

-- A state between the lock and the release of its bits: the drain lock's owner, the bits that the
-- lock preserves, and the width.
abbrev resting : ℕ → ℕ → ℕ → ℕ → ℕ → ℕ → ℕ
resting o e q r m w = e * 2 ^ 31 + q * 2 ^ 32 + (r * 2 ^ 36 + m * 2 ^ 38) + o + w * 2 ^ 41

module _ (o e q r m w : ℕ) (ho : o < 2 ^ 30) (he : e < 2) (hq : q < 8) (hr : r < 4) (hm : m < 2)
    (hw : w < 2 ^ 12) where
  drain_unlock_bits-resting : drain_unlock_bits (resting o e q r m w) ≡ resting 0 e q r m w
  drain_unlock_bits-resting = omega arith

  clear_qos-resting : clear_field 32 3 (resting 0 e q r m w) ≡ resting 0 e 0 r m w
  clear_qos-resting = omega arith

  set_dirty-resting : set_bit 39 (resting 0 e q r m w) ≡ resting 0 e q r m w + 2 ^ 39
  set_dirty-resting = omega arith

  -- Giving back what a plain drainer, or one that leaves the dequeue bits alone, owns.
  give_back :
      (b d : ℕ)
      → b < 2
      → d ≤ e * 2 ^ 31 + m * 2 ^ 38
      → (locked o e q r m b + 2 ^ 64 - ((1 + 2 * b) * 2 ^ 53 + d - w * 2 ^ 41)) % 2 ^ 64
        ≡ resting o e q r m w - d
  give_back b d hb hd = omega arith

module _ (o e q r m b : ℕ) (ho : o < 2 ^ 30) (he : e < 2) (hq : q < 8) (hr : r < 4) (hm : m < 2)
    (hb : b < 2) where
  override-locked : test_bit 35 (locked o e q r m b) ≡ false
  override-locked = ground arith

  suspended-locked : leb (2 ^ 55) (locked o e q r m b) ≡ false
  suspended-locked = ground arith

  and_false : (x : Bool) → (x && false) ≡ false
  and_false true = refl
  and_false false = refl

  -- An unlock of a state that the lock left.
  drain_try_unlock-locked :
      (owned : ℕ) (done : Bool)
      → (let new = drain_unlock_bits ((locked o e q r m b + 2 ^ 64 - owned) % 2 ^ 64) in
          drain_try_unlock owned done (locked o e q r m b)
          ≡ ((if done then clear_field 32 3 new else set_bit 39 new), true, none))
  unfolding drain_try_unlock
  drain_try_unlock-locked owned true =
      rw (suspended-locked, dirty-locked o e q r m b ho he hq hr hm hb, override-locked, and_false)
  drain_try_unlock-locked owned false =
      rw (suspended-locked, dirty-locked o e q r m b ho he hq hr hm hb, override-locked, and_false)

-- What a lock by `kind` of the state `s` leaves when it is released: the bits that the lock
-- preserves, less the one that the kind dequeues, and the width as it was; after a drain that is done
-- no QoS, else the QoS and the dirty bit.
abbrev pub released : DrainKind → Bool → ℕ → ℕ
released kind true s =
    kept_enqueued kind s * 2 ^ 31 + field 36 2 s * 2 ^ 36 + field 41 13 s * 2 ^ 41
released kind false s =
    kept_enqueued kind s * 2 ^ 31
    + dq_state_max_qos s * 2 ^ 32
    + field 36 2 s * 2 ^ 36
    + 2 ^ 39
    + field 41 13 s * 2 ^ 41

released-resting :
    (kind : DrainKind) (done : Bool) (s : ℕ)
    → (let e = kept_enqueued kind s in
        if done
        then resting 0 e 0 (field 36 2 s) 0 (field 41 13 s)
        else resting 0 e (field 32 3 s) (field 36 2 s) 0 (field 41 13 s) + 2 ^ 39)
      ≡ released kind done s
released-resting kind true s = omega arith
released-resting kind false s = omega arith

-- `s & dequeue_mask` from the two bits that a mask can name.
abbrev dequeued : DrainKind → ℕ → ℕ → ℕ
dequeued stealing e m = 0
dequeued manager_drain e m = m * 2 ^ 38
dequeued plain e m = e * 2 ^ 31

dequeue_bits-locked :
    (kind : DrainKind) (o e q r m b : ℕ)
    → o < 2 ^ 30
    → e < 2
    → q < 8
    → r < 4
    → m < 2
    → b < 2
    → dequeue_bits kind (locked o e q r m b) ≡ dequeued kind e m
dequeue_bits-locked stealing o e q r m b ho he hq hr hm hb = refl
dequeue_bits-locked manager_drain o e q r m b ho he hq hr hm hb =
    rw (field38-locked o e q r m b ho he hq hr hm hb)
dequeue_bits-locked plain o e q r m b ho he hq hr hm hb =
    rw (field31-locked o e q r m b ho he hq hr hm hb)

barrier_bit_lt : (width s : ℕ) → barrier_bit width s < 2
barrier_bit_lt width s = ground arith

-- What a lock that succeeds leaves and returns.
module _ (kind : DrainKind) (width tid floor s : ℕ) (free : lock_fails kind s ≡ false) where
  abbrev taken : ℕ
  taken =
      locked (field 0 30 tid) (field 31 1 s) (field 32 3 s) (field 36 2 s) (field 38 1 s)
        (barrier_bit width s)

  state-taken : (drain_try_lock kind width tid floor s).state ≡ taken
  unfolding drain_try_lock
  state-taken = rw free (drain_locked_state-locked width tid s)

  owned-taken :
      (drain_try_lock kind width tid floor s).owned
      ≡ (1 + 2 * barrier_bit width s) * 2 ^ 53
        + dequeued kind (field 31 1 s) (field 38 1 s)
        - field 41 13 s * 2 ^ 41
  unfolding drain_try_lock
  owned-taken = rw (
    free,
    drain_locked_state-locked width tid s,
    field53-locked (field 0 30 tid) (field 31 1 s) (field 32 3 s) (field 36 2 s) (field 38 1 s)
        (barrier_bit width s) (omega arith) (omega arith) (omega arith) (omega arith) (omega arith)
        (barrier_bit_lt width s),
    dequeue_bits-locked kind (field 0 30 tid) (field 31 1 s) (field 32 3 s) (field 36 2 s)
        (field 38 1 s) (barrier_bit width s) (omega arith) (omega arith) (omega arith) (omega arith)
        (omega arith) (barrier_bit_lt width s),
  )

module _ (o e q r m w b : ℕ) (ho : o < 2 ^ 30) (he : e < 2) (hq : q < 8) (hr : r < 4) (hm : m < 2)
    (hb : b < 2) (hw : w < 2 ^ 12) where
  unlock_taken :
      (d e' m' : ℕ) (done : Bool)
      → d ≤ e * 2 ^ 31 + m * 2 ^ 38
      → e' < 2
      → m' < 2
      → resting o e q r m w - d ≡ resting o e' q r m' w
      → drain_try_unlock ((1 + 2 * b) * 2 ^ 53 + d - w * 2 ^ 41) done (locked o e q r m b)
        ≡ ((if done then resting 0 e' 0 r m' w else resting 0 e' q r m' w + 2 ^ 39), true, none)
  unlock_taken d e' m' done hd he' hm' same =
      drain_try_unlock-locked o e q r m b ho he hq hr hm hb ((1 + 2 * b) * 2 ^ 53 + d - w * 2 ^ 41)
        done
      ∙ rw (
        give_back o e q r m w ho he hq hr hm hw b d hb hd,
        same,
        drain_unlock_bits-resting o e' q r m' w ho he' hq hr hm' hw,
        clear_qos-resting o e' q r m' w ho he' hq hr hm' hw,
        set_dirty-resting o e' q r m' w ho he' hq hr hm' hw,
      )

-- What each kind dequeues and what it keeps.
record Dequeues (kind : DrainKind) (o q r w s : ℕ) : Type 0 where
  le : dequeued kind (field 31 1 s) (field 38 1 s) ≤ field 31 1 s * 2 ^ 31 + field 38 1 s * 2 ^ 38
  kept_lt : kept_enqueued kind s < 2
  same :
      resting o (field 31 1 s) q r (field 38 1 s) w - dequeued kind (field 31 1 s) (field 38 1 s)
      ≡ resting o (kept_enqueued kind s) q r 0 w

dequeues : (kind : DrainKind) (o q r w s : ℕ) → lock_fails kind s ≡ false → Dequeues kind o q r w s
dequeues stealing o q r w s h =
    let m : field 38 1 s ≡ 0 = ground arith in
    record { le = omega arith; kept_lt = omega arith; same = omega arith }
dequeues manager_drain o q r w s h = record {
  le = omega arith;
  kept_lt = omega arith;
  same = omega arith;
}
dequeues plain o q r w s h =
    let m : field 38 1 s ≡ 0 = ground arith in
    record { le = omega arith; kept_lt = omega arith; same = omega arith }

width_below : (kind : DrainKind) (s : ℕ) → lock_fails kind s ≡ false → field 41 13 s < 2 ^ 12
width_below stealing s h = ground arith
width_below manager_drain s h = ground arith
width_below plain s h = ground arith

-- A drainer that takes the drain lock and, with no other update in between, unlocks with what it owns
-- succeeds, and leaves exactly the state of `released`: the width is what it was, the lock is free.
pub drain_try_lock-drain_try_unlock :
    (kind : DrainKind) (width tid floor s : ℕ) (done : Bool)
    → lock_fails kind s ≡ false
    → (let r = drain_try_lock kind width tid floor s in drain_try_unlock r.owned done r.state)
      ≡ (released kind done s, true, none)
drain_try_lock-drain_try_unlock kind width tid floor s done h =
    let d = dequeues kind (field 0 30 tid) (field 32 3 s) (field 36 2 s) (field 41 13 s) s h in
    rw
      (
        owned-taken kind width tid floor s h,
        state-taken kind width tid floor s h,
        ← released-resting kind done s,
      )
      (unlock_taken (field 0 30 tid) (field 31 1 s) (field 32 3 s) (field 36 2 s) (field 38 1 s)
        (field 41 13 s) (barrier_bit width s) (omega arith) (omega arith) (omega arith)
        (omega arith) (omega arith) (barrier_bit_lt width s) (width_below kind s h)
        (dequeued kind (field 31 1 s) (field 38 1 s)) (kept_enqueued kind s) 0 done d.le d.kept_lt
        (omega arith) d.same)

full_fails : (kind : DrainKind) (s : ℕ) → 2 ^ 53 ≤ s → lock_fails kind s ≡ true
full_fails stealing s h = ground arith
full_fails manager_drain s h = ground arith
full_fails plain s h = ground arith

owned_of_fail :
    (kind : DrainKind) (width tid floor s : ℕ)
    → lock_fails kind s ≡ true
    → (drain_try_lock kind width tid floor s).owned ≡ 0
unfolding drain_try_lock
owned_of_fail stealing width tid floor s h = rw h
owned_of_fail manager_drain width tid floor s h = rw h
owned_of_fail plain width tid floor s h = rw h

-- A lock that succeeds sets the owner to the thread, clears the dirty bit, keeps the max QoS, and
-- excludes every other drainer: whatever its kind, its width and its floor, it then fails and owns
-- nothing.
pub drain_try_lock-excludes :
    (kind other : DrainKind) (width width' tid tid' floor floor' s : ℕ)
    → lock_fails kind s ≡ false
    → let r = drain_try_lock kind width tid floor s in
      (dq_state_drain_owner r.state ≡ field 0 30 tid)
      × (dq_state_is_dirty r.state ≡ false)
      × (dq_state_max_qos r.state ≡ dq_state_max_qos s)
      × (lock_fails other r.state ≡ true)
      × ((drain_try_lock other width' tid' floor' r.state).owned ≡ 0)
drain_try_lock-excludes kind other width width' tid tid' floor floor' s h =
    rw (state-taken kind width tid floor s h) (
      excludes_taken (field 0 30 tid) (field 31 1 s) (field 32 3 s) (field 36 2 s) (field 38 1 s)
        (barrier_bit width s) (omega arith) (omega arith) (omega arith) (omega arith) (omega arith)
        (barrier_bit_lt width s))
  where
    excludes_taken :
        (o e q r m b : ℕ)
        → o < 2 ^ 30
        → e < 2
        → q < 8
        → r < 4
        → m < 2
        → b < 2
        → (dq_state_drain_owner (locked o e q r m b) ≡ o)
          × (dq_state_is_dirty (locked o e q r m b) ≡ false)
          × (dq_state_max_qos (locked o e q r m b) ≡ q)
          × (lock_fails other (locked o e q r m b) ≡ true)
          × ((drain_try_lock other width' tid' floor' (locked o e q r m b)).owned ≡ 0)
    excludes_taken o e q r m b ho he hq hr hm hb = (
      field0-locked o e q r m b ho he hq hr hm hb,
      dirty-locked o e q r m b ho he hq hr hm hb,
      field32-locked o e q r m b ho he hq hr hm hb,
      full_fails other (locked o e q r m b) (omega arith),
      owned_of_fail other width' tid' floor' (locked o e q r m b)
          (full_fails other (locked o e q r m b) (omega arith)),
    )

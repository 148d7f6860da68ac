-- ===== src/QueueState/Serial/Words.antt =====
-- The updates of a serial queue's state (src/queue.c, src/inline_internal.h) on the two kinds of states that
-- it has.
use swift_corelibs_libdispat.Common.{
  ltb, ◌&&◌, ◌∙◌, Bool-cases, ℕ, ◌+◌, ◌/◌, ◌%◌, ◌^◌, ◌≤◌, ◌<◌, ◌≡◌, inl, inr, refl, arith, Bool,
  true, false, ◌==◌, if◌then◌else◌,
}
use swift_corelibs_libdispat.Common.Bits.{field, set_bit}
use swift_corelibs_libdispat.QueueState.{
  dq_state_merge_qos, suspend_interval, in_barrier, width_interval,
}
use swift_corelibs_libdispat.QueueState.Serial.Updates.{wakeup_state, pushed}

-- No thread has the drain lock: the whole width is available. Only the suspend count lies above it.
pub record Free (s : ℕ) : Type 0 where
  pub width : field 41 17 s ≡ 0xfff
  pub owner : s % 2 ^ 31 ≡ 0
  pub fits : s < 2 ^ 64
  pub serial : (field 37 2 s ≡ 0) × (field 40 1 s ≡ 0)

-- A thread has the drain lock.
pub record Held (s : ℕ) : Type 0 where
  pub width : field 41 17 s ≡ 0x3000
  pub owner : (0 < s % 2 ^ 31) × (s % 2 ^ 31 < 2 ^ 30)
  pub fits : s < 2 ^ 64
  pub serial : (field 37 2 s ≡ 0) × (field 40 1 s ≡ 0)

-- What the drainer of a serial queue owns
abbrev pub serial_owned : ℕ
serial_owned = in_barrier + width_interval + 2 ^ 31

pub merge_qos_lem :
    (q s : ℕ)
    → q < 8
    → (dq_state_merge_qos s q / 2 ^ 36 ≡ s / 2 ^ 36)
      × (dq_state_merge_qos s q % 2 ^ 32 ≡ s % 2 ^ 32)
unfolding dq_state_merge_qos
merge_qos_lem q s h = (ground arith, ground arith)

-- What a wakeup leaves alone, whether it sets the enqueued bit or not.
record Woken (m : Bool) (s new : ℕ) : Type 0 where
  high : new / 2 ^ 40 ≡ s / 2 ^ 40
  middle : field 36 3 new ≡ field 36 3 s
  low : new % 2 ^ 31 ≡ s % 2 ^ 31
  dirty_kept : field 39 1 s ≤ field 39 1 new
  dirty_made : m ≡ true → field 39 1 new ≡ 1

set_dirty-Woken :
    (s t : ℕ) → t / 2 ^ 36 ≡ s / 2 ^ 36 → t % 2 ^ 31 ≡ s % 2 ^ 31 → Woken true s (set_bit 39 t)
set_dirty-Woken s t a b = record {
  high = omega arith;
  middle = omega arith;
  low = omega arith;
  dirty_kept = omega arith;
  dirty_made = λ e. omega arith;
}

keep-Woken : (s t : ℕ) → t / 2 ^ 36 ≡ s / 2 ^ 36 → t % 2 ^ 31 ≡ s % 2 ^ 31 → Woken false s t
keep-Woken s t a b = record {
  high = omega arith;
  middle = omega arith;
  low = omega arith;
  dirty_kept = omega arith;
  dirty_made = λ e. ground arith;
}

made-Woken :
    (m : Bool) (s t : ℕ)
    → t / 2 ^ 36 ≡ s / 2 ^ 36
    → t % 2 ^ 31 ≡ s % 2 ^ 31
    → Woken m s (if m then set_bit 39 t else t)
made-Woken true s t a b = set_dirty-Woken s t a b
made-Woken false s t a b = keep-Woken s t a b

made_enqueued : (m : Bool) (t : ℕ) → field 31 1 (if m then set_bit 39 t else t) ≡ field 31 1 t
made_enqueued true t = omega arith
made_enqueued false t = refl

-- A wakeup sets the enqueued bit if the queue is neither suspended, nor enqueued, nor drained.
abbrev enqueues : ℕ → ℕ → ℕ
enqueues q s =
    (if ltb s suspend_interval && field 31 1 s == 0 && s % 2 ^ 30 == 0
      then set_bit 31 (dq_state_merge_qos s q)
      else dq_state_merge_qos s q)

wakeup_lem :
    (m : Bool) (q s : ℕ)
    → field 37 2 s ≡ 0
    → field 55 3 s ≡ 0
    → let t = enqueues q s in wakeup_state m q s ≡ (if m then set_bit 39 t else t)
unfolding wakeup_state
wakeup_lem m q s z y = ground arith

enqueues_lem :
    (q s : ℕ)
    → q < 8
    → let t = enqueues q s in
      (t / 2 ^ 36 ≡ s / 2 ^ 36)
      × (t % 2 ^ 31 ≡ s % 2 ^ 31)
      × (field 31 1 t ≡ (
          if ltb s suspend_interval && field 31 1 s == 0 && s % 2 ^ 30 == 0
          then 1
          else field 31 1 s))
enqueues_lem q s h =
    let (a, b) = merge_qos_lem q s h in
    elim (Bool-cases (ltb s suspend_interval && field 31 1 s == 0 && s % 2 ^ 30 == 0)) [
      | inl e ↦ rw e (omega arith, omega arith, omega arith)
      | inr e ↦ rw e (omega arith, omega arith, omega arith)
    ]

Woken-Free : (m : Bool) (s new : ℕ) → Woken m s new → Free s → Free new
Woken-Free m s new w f =
    let a = w.high in
    let b = w.middle in
    let c = w.low in
    let d = f.width in
    let e = f.owner in
    let g = f.fits in
    let (i, j) = f.serial in
    record {
      width = omega arith;
      owner = omega arith;
      fits = omega arith;
      serial = (omega arith, omega arith);
    }

Woken-Held : (m : Bool) (s new : ℕ) → Woken m s new → Held s → Held new
Woken-Held m s new w f =
    let a = w.high in
    let b = w.middle in
    let c = w.low in
    let d = f.width in
    let (e, k) = f.owner in
    let g = f.fits in
    let (i, j) = f.serial in
    record {
      width = omega arith;
      owner = (omega arith, omega arith);
      fits = omega arith;
      serial = (omega arith, omega arith);
    }

wakeup-Woken :
    (m : Bool) (q s : ℕ)
    → q < 8
    → field 37 2 s ≡ 0
    → field 55 3 s ≡ 0
    → Woken m s (wakeup_state m q s)
      × (field 31 1 (wakeup_state m q s) ≡ (
          if ltb s suspend_interval && field 31 1 s == 0 && s % 2 ^ 30 == 0
          then 1
          else field 31 1 s))
wakeup-Woken m q s h z y =
    let (a, b, c) = enqueues_lem q s h in
    rw (wakeup_lem m q s z y)
      (made-Woken m s (enqueues q s) a b, made_enqueued m (enqueues q s) ∙ c)

-- A wakeup of a queue that is not drained sets the enqueued bit, unless it is suspended.
pub wakeup-Free :
    (m : Bool) (q s : ℕ)
    → q < 8
    → Free s
    → let new = wakeup_state m q s in
      Free new
      × (pushed s new + field 31 1 s ≡ field 31 1 new)
      × (new < suspend_interval → field 31 1 new ≡ 1)
wakeup-Free m q s h f =
    let (z, y) = f.serial in
    let u = f.width in
    let o = f.owner in
    let (w, c) = wakeup-Woken m q s h z (omega arith) in
    let a = w.high in (Woken-Free m s (wakeup_state m q s) w f, ground arith, λ k. ground arith)

-- The wakeup of a queue that is drained does not.
pub wakeup-Held :
    (m : Bool) (q s : ℕ)
    → q < 8
    → Held s
    → let new = wakeup_state m q s in
      Held new
      × (pushed s new ≡ 0)
      × (field 31 1 new ≡ field 31 1 s)
      × (new / suspend_interval ≡ s / suspend_interval)
      × (field 39 1 s ≤ field 39 1 new)
      × (m ≡ true → field 39 1 new ≡ 1)
wakeup-Held m q s h f =
    let (z, y) = f.serial in
    let u = f.width in
    let (o, o') = f.owner in
    let (w, c) = wakeup-Woken m q s h z (omega arith) in
    let a = w.high in
    let e : field 31 1 (wakeup_state m q s) ≡ field 31 1 s = ground arith in
    (
      Woken-Held m s (wakeup_state m q s) w f,
      ground arith,
      e,
      omega arith,
      w.dirty_kept,
      w.dirty_made,
    )

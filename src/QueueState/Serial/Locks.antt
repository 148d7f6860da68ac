-- ===== src/QueueState/Serial/Locks.antt =====
-- How a serial queue's state is locked and unlocked (src/queue.c, src/inline_internal.h).
use swift_corelibs_libdispat.Common.{
  ℕ, ◌+◌, ◌-◌, ◌/◌, ◌%◌, ◌^◌, ◌≤◌, ◌<◌, ◌≡◌, ◌⊎◌, arith, true, false, none, some,
}
use swift_corelibs_libdispat.Common.Bits.{field}
use swift_corelibs_libdispat.QueueState.{
  plain, drain_try_lock, drain_try_unlock, drain_locked_state, try_acquire_barrier_sync,
  suspend_interval,
}
use swift_corelibs_libdispat.QueueState.Serial.Updates.{
  finish_state, drained_owned, pushed, sync_unlock,
}
use swift_corelibs_libdispat.QueueState.Serial.Words.{Free, Held, serial_owned}

lock_state-Held :
    (tid s : ℕ)
    → 0 < field 0 30 tid
    → Free s
    → s < suspend_interval
    → field 31 1 s ≡ 1
    → let new = drain_locked_state 1 tid s in
      Held new × (field 31 1 new ≡ 1) × (field 39 1 new ≡ 0) × (new < suspend_interval)
unfolding drain_locked_state
lock_state-Held tid s t f k e = ground arith

pub lock-Held :
    (tid floor s : ℕ)
    → 0 < field 0 30 tid
    → Free s
    → s < suspend_interval
    → field 31 1 s ≡ 1
    → let r = drain_try_lock plain 1 tid floor s in
      Held r.state
      × (r.owned ≡ serial_owned)
      × (field 31 1 r.state ≡ 1)
      × (field 39 1 r.state ≡ 0)
      × (r.state < suspend_interval)
unfolding drain_try_lock
lock-Held tid floor s t f k e = let (h, b, d, i) = lock_state-Held tid s t f k e in ground arith

-- Where the lock fails, the queue is dequeued.
pub lock_fails-Free :
    (tid floor s : ℕ)
    → Free s
    → suspend_interval ≤ s
    → field 31 1 s ≡ 1
    → let r = drain_try_lock plain 1 tid floor s in
      Free r.state × (r.owned ≡ 0) × (field 31 1 r.state ≡ 0) × (suspend_interval ≤ r.state)
unfolding drain_try_lock
lock_fails-Free tid floor s f k e = ground arith

pub lock_fails-Held :
    (tid floor s : ℕ)
    → Held s
    → field 31 1 s ≡ 1
    → let r = drain_try_lock plain 1 tid floor s in
      Held r.state
      × (r.owned ≡ 0)
      × (field 31 1 r.state ≡ 0)
      × (field 39 1 r.state ≡ field 39 1 s)
      × (r.state / suspend_interval ≡ s / suspend_interval)
unfolding drain_try_lock
lock_fails-Held tid floor s f e = ground arith

-- The unlock after a drain that found the queue empty: it is refused where the state is dirty.
pub unlock-Free :
    (s : ℕ)
    → Held s
    → field 31 1 s ≡ 1
    → let (new, unlocked, override) = drain_try_unlock serial_owned true s in
      (unlocked ≡ true)
        × Free new
        × (field 31 1 new ≡ 0)
        × (new < suspend_interval → (field 39 1 s ≡ 0) × (s < suspend_interval))
      ⊎ (unlocked ≡ false) × (field 39 1 s ≡ 1) × Held new × (field 31 1 new ≡ 1)
unfolding drain_try_unlock
unlock-Free s h e = ground arith

pub finish-Free :
    (s : ℕ)
    → Held s
    → field 31 1 s ≡ 1
    → let new = finish_state serial_owned s in
      Free new
      × (pushed ((s + 2 ^ 64 - serial_owned) % 2 ^ 64) new ≡ field 31 1 new)
      × (new < suspend_interval → field 31 1 new ≡ 1)
unfolding finish_state
finish-Free s h e = ground arith

pub drained_owned-serial : drained_owned serial_owned ≡ serial_owned
unfolding drained_owned
drained_owned-serial = omega arith

-- A caller of dispatch_sync takes a queue that is neither drained nor enqueued.
pub sync_acquire-Held :
    (tid s new : ℕ)
    → 0 < field 0 30 tid
    → Free s
    → try_acquire_barrier_sync 1 tid s ≡ some new
    → Held new × (field 31 1 s ≡ 0) × (field 31 1 new ≡ 0)
unfolding try_acquire_barrier_sync
sync_acquire-Held tid s new t f e = ground arith

pub sync_acquire-none : (tid s : ℕ) → Held s → try_acquire_barrier_sync 1 tid s ≡ none
unfolding try_acquire_barrier_sync
sync_acquire-none tid s f = ground arith

pub sync_unlock-Free :
    (s new : ℕ)
    → Held s
    → sync_unlock s ≡ some new
    → Free new
      × (field 31 1 s ≡ 0)
      × (field 31 1 new ≡ 0)
      × (field 39 1 s ≡ 0)
      × (s < suspend_interval)
unfolding sync_unlock
sync_unlock-Free s new f e = ground arith

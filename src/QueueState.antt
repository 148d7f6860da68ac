-- ===== src/QueueState.antt =====
-- src/queue_internal.h (the layout of `dq_state`) and src/inline_internal.h (the state machine on it):
-- how drainers and synchronous callers acquire and release a queue. A state is the uint64_t as it
-- stands, in the layout of Linux (src/shims/lock.h: bits 0 to 29 hold the drain lock's owner, bit 30
-- the sync transfer, bit 31 the enqueued bit). Each operation is one atomic update: an
-- os_atomic_rmw_loop ends with its body run on the state that its exchange replaces.
mod Lock
mod Barrier
mod Unlock
mod Width
mod Serial
mod Tests
use swift_corelibs_libdispat.Common.{
  ℕ, suc, ◌+◌, ◌-◌, ◌*◌, ◌/◌, ◌%◌, ◌^◌, ◌≤◌, ◌<◌, Bool, true, false, not, ◌&&◌, ◌||◌, leb, ltb,
  ◌==◌, if◌then◌else◌, Option, none, some,
}
use swift_corelibs_libdispat.Common.Bits.{field, test_bit, set_bit, clear_bit, clear_field}
use swift_corelibs_libdispat.Common.Int.{ℤ, pos, negsuc}

-- DISPATCH_QUEUE_SUSPEND_INTERVAL
abbrev pub suspend_interval : ℕ
suspend_interval = 2 ^ 58

-- DISPATCH_QUEUE_NEEDS_ACTIVATION
abbrev pub needs_activation : ℕ
needs_activation = 2 ^ 55

-- DISPATCH_QUEUE_IN_BARRIER
abbrev pub in_barrier : ℕ
in_barrier = 2 ^ 54

-- DISPATCH_QUEUE_WIDTH_FULL_BIT
abbrev pub width_full_bit : ℕ
width_full_bit = 2 ^ 53

-- DISPATCH_QUEUE_WIDTH_FULL
abbrev pub width_full : ℕ
width_full = 0x1000

-- DISPATCH_QUEUE_WIDTH_INTERVAL
abbrev pub width_interval : ℕ
width_interval = 2 ^ 41

-- DISPATCH_QUEUE_PENDING_BARRIER
abbrev pub pending_barrier : ℕ
pending_barrier = 2 ^ 40

-- DISPATCH_QUEUE_DIRTY
abbrev pub dirty : ℕ
dirty = 2 ^ 39

-- DISPATCH_QUEUE_STATE_INIT_VALUE
abbrev pub state_init_value : ℕ → ℕ
state_init_value width = (width_full - width) * 2 ^ 41

abbrev pub dq_state_suspend_cnt : ℕ → ℕ
dq_state_suspend_cnt s = s / suspend_interval

abbrev pub dq_state_has_side_suspend_cnt : ℕ → Bool
dq_state_has_side_suspend_cnt s = test_bit 57 s

abbrev pub dq_state_extract_width_bits : ℕ → ℕ
dq_state_extract_width_bits s = field 41 13 s

-- The C code subtracts in int32_t; the difference is not negative below the full bit.
abbrev pub dq_state_available_width : ℕ → ℕ
dq_state_available_width s = if test_bit 53 s then 0 else width_full - dq_state_extract_width_bits s

abbrev pub dq_state_is_suspended : ℕ → Bool
dq_state_is_suspended s = leb needs_activation s

abbrev pub dq_state_is_inactive : ℕ → Bool
dq_state_is_inactive s = test_bit 56 s

abbrev pub dq_state_needs_activation : ℕ → Bool
dq_state_needs_activation s = test_bit 55 s

abbrev pub dq_state_is_in_barrier : ℕ → Bool
dq_state_is_in_barrier s = test_bit 54 s

abbrev pub dq_state_has_available_width : ℕ → Bool
dq_state_has_available_width s = not (test_bit 53 s)

abbrev pub dq_state_has_pending_barrier : ℕ → Bool
dq_state_has_pending_barrier s = test_bit 40 s

abbrev pub dq_state_is_dirty : ℕ → Bool
dq_state_is_dirty s = test_bit 39 s

abbrev pub dq_state_is_base_wlh : ℕ → Bool
dq_state_is_base_wlh s = test_bit 37 s

abbrev pub dq_state_is_base_anon : ℕ → Bool
dq_state_is_base_anon s = test_bit 36 s

abbrev pub dq_state_is_inner_queue : ℕ → Bool
dq_state_is_inner_queue s = field 36 2 s == 0

abbrev pub dq_state_is_enqueued_on_target : ℕ → Bool
dq_state_is_enqueued_on_target s = test_bit 31 s

abbrev pub dq_state_is_enqueued_on_manager : ℕ → Bool
dq_state_is_enqueued_on_manager s = test_bit 38 s

abbrev pub dq_state_is_enqueued : ℕ → Bool
dq_state_is_enqueued s = test_bit 31 s || test_bit 38 s

abbrev pub dq_state_in_sync_transfer : ℕ → Bool
dq_state_in_sync_transfer s = test_bit 30 s

abbrev pub dq_state_received_override : ℕ → Bool
dq_state_received_override s = dq_state_is_base_anon s && test_bit 35 s

abbrev pub dq_state_received_sync_wait : ℕ → Bool
dq_state_received_sync_wait s = dq_state_is_base_wlh s && test_bit 35 s

abbrev pub dq_state_max_qos : ℕ → ℕ
dq_state_max_qos s = field 32 3 s

abbrev pub dq_state_from_qos : ℕ → ℕ
dq_state_from_qos qos = qos * 2 ^ 32

-- `qos` is a dispatch_qos_t, below 8, so that the sum is the bitwise or.
pub dq_state_merge_qos : ℕ → ℕ → ℕ
dq_state_merge_qos s qos =
    if ltb (field 32 3 s * 2 ^ 32) (dq_state_from_qos qos)
    then (let t : ℕ = clear_field 32 3 s + dq_state_from_qos qos in
        if dq_state_is_base_anon t then set_bit 35 t else t)
    else s

abbrev pub dq_state_drain_owner : ℕ → ℕ
dq_state_drain_owner s = field 0 30 s

abbrev pub dq_state_drain_locked_by : ℕ → ℕ → Bool
dq_state_drain_locked_by s tid = field 0 30 s == field 0 30 tid

abbrev pub dq_state_drain_locked : ℕ → Bool
dq_state_drain_locked s = not (field 0 30 s == 0)

abbrev pub dq_state_is_sync_runnable : ℕ → Bool
dq_state_is_sync_runnable s = ltb s in_barrier

abbrev pub dq_state_is_runnable : ℕ → Bool
dq_state_is_runnable s = ltb s width_full_bit

abbrev pub dq_state_should_override : ℕ → Bool
dq_state_should_override s =
    if dq_state_is_suspended s || dq_state_is_enqueued_on_manager s
    then false
    else (if dq_state_is_enqueued_on_target s
        then true
        else (if dq_state_is_base_wlh s then false else dq_state_drain_locked s))

abbrev pub dq_state_needs_lock_override : ℕ → ℕ → Bool
dq_state_needs_lock_override s qos = dq_state_is_base_anon s && ltb qos (dq_state_max_qos s)

-- `_dispatch_lock_value_from_tid`
abbrev pub lock_value_from_tid : ℕ → ℕ
lock_value_from_tid tid = field 0 30 tid

-- `s & DISPATCH_QUEUE_DRAIN_PRESERVED_BITS_MASK`: bits 31 to 34, and 36 to 38
abbrev pub drain_preserved_bits : ℕ → ℕ
drain_preserved_bits s = field 31 4 s * 2 ^ 31 + field 36 3 s * 2 ^ 36

-- `s & ~DISPATCH_QUEUE_DRAIN_UNLOCK_MASK`: bits 0 to 30, and 35
abbrev pub drain_unlock_bits : ℕ → ℕ
drain_unlock_bits s = clear_bit 35 (clear_field 0 31 s)

-- The invoke flags that the drain lock looks at.
pub data DrainKind : Type 0 where
  stealing manager_drain plain : DrainKind

-- `s & dequeue_mask`, and `s ^ dequeue_mask`
abbrev pub dequeue_bits : DrainKind → ℕ → ℕ
dequeue_bits stealing s = 0
dequeue_bits manager_drain s = field 38 1 s * 2 ^ 38
dequeue_bits plain s = field 31 1 s * 2 ^ 31

abbrev pub toggle_bit : ℕ → ℕ → ℕ
toggle_bit k s = if test_bit k s then clear_bit k s else set_bit k s

-- `s & lock_fail_mask` is not 0
abbrev pub lock_fails : DrainKind → ℕ → Bool
lock_fails manager_drain s = leb width_full_bit s || dq_state_drain_locked s
lock_fails kind s =
    leb width_full_bit s || dq_state_drain_locked s || dq_state_is_enqueued_on_manager s

-- The state after the loop of `_dispatch_queue_drain_try_lock` where the lock is taken.
pub drain_locked_state : ℕ → ℕ → ℕ → ℕ
drain_locked_state width tid s =
    let locked : ℕ = drain_preserved_bits s + lock_value_from_tid tid + width_full_bit in
    if dq_state_has_pending_barrier s || ltb (s + (width - 1) * width_interval) width_full_bit
    then locked + in_barrier
    else locked

-- What `_dispatch_queue_drain_try_lock` leaves and returns: the new state, what the drainer owns (0
-- where it failed), and the override floor of the thread, which is raised to the queue's max QoS
-- before the lock is taken (`_dispatch_queue_override_self`, then `goto retry`).
pub record DrainTry : Type 0 where
  pub state : ℕ
  pub owned : ℕ
  pub floor : ℕ

-- `_dispatch_queue_drain_try_lock`
pub drain_try_lock : DrainKind → ℕ → ℕ → ℕ → ℕ → DrainTry
unfolding drain_locked_state
drain_try_lock kind width tid floor s =
    if lock_fails kind s
    then (elim kind [
      | stealing ↦ record { state = s; owned = 0; floor = floor }
      | manager_drain ↦ record { state = toggle_bit 38 s; owned = 0; floor = floor }
      | plain ↦ record { state = toggle_bit 31 s; owned = 0; floor = floor }
    ])
    else (let new : ℕ = drain_locked_state width tid s in
        record {
          state = new;
          owned = field 53 2 new * 2 ^ 53 + dequeue_bits kind new - field 41 13 s * 2 ^ 41;
          floor = if dq_state_needs_lock_override s floor then dq_state_max_qos s else floor;
        })

-- `_dispatch_queue_drain_try_lock_wlh`: the new state and whether the lock was taken, or `none` where
-- it crashes on a state that is not one of a workloop.
pub drain_try_lock_wlh : ℕ → ℕ → Option (ℕ × Bool)
drain_try_lock_wlh tid s =
    if not (dq_state_is_base_wlh s)
      || not (dq_state_is_enqueued_on_target s)
      || dq_state_is_enqueued_on_manager s
    then none
    else (if dq_state_is_suspended s
        then some (clear_bit 31 s, false)
        else (if dq_state_drain_locked s
            then some (s, false)
            else some (
              drain_preserved_bits s + lock_value_from_tid tid + width_full_bit + in_barrier,
              true,
            )))

-- `_dispatch_queue_try_acquire_barrier_sync_and_suspend`
pub try_acquire_barrier_sync_and_suspend : ℕ → ℕ → ℕ → ℕ → Option ℕ
try_acquire_barrier_sync_and_suspend width tid suspend_count s =
    let role : ℕ = field 36 2 s * 2 ^ 36 in
    if s == state_init_value width + role
    then some (
        width_full_bit
        + in_barrier
        + lock_value_from_tid tid
        + suspend_count * suspend_interval
        + role)
    else none

-- `_dispatch_queue_try_acquire_barrier_sync`
pub try_acquire_barrier_sync : ℕ → ℕ → ℕ → Option ℕ
unfolding try_acquire_barrier_sync_and_suspend
try_acquire_barrier_sync width tid s = try_acquire_barrier_sync_and_suspend width tid 0 s

-- `_dispatch_queue_reserve_sync_width`
pub reserve_sync_width : ℕ → ℕ
reserve_sync_width s = (s + width_interval) % 2 ^ 64

-- `_dispatch_queue_try_reserve_sync_width`; the first argument says that the queue has items.
pub try_reserve_sync_width : Bool → ℕ → Option ℕ
try_reserve_sync_width items_tail s =
    if items_tail
    then none
    else (if not (dq_state_is_sync_runnable s)
          || dq_state_is_dirty s
          || dq_state_has_pending_barrier s
        then none
        else some ((s + width_interval) % 2 ^ 64))

-- `_dispatch_queue_try_acquire_async`
pub try_acquire_async : ℕ → Option ℕ
try_acquire_async s =
    if not (dq_state_is_runnable s) || dq_state_is_dirty s || dq_state_has_pending_barrier s
    then none
    else some ((s + width_interval) % 2 ^ 64)

-- `_dispatch_queue_try_upgrade_full_width`: the new state, and whether the barrier was acquired.
pub try_upgrade_full_width : ℕ → ℕ → ℕ → ℕ × Bool
try_upgrade_full_width width owned s =
    let base : ℕ = (s + 2 ^ 64 - owned) % 2 ^ 64 in
    let reserved : ℕ =
      if dq_state_has_pending_barrier s
      then base
      else (base + (pending_barrier + (width - 1) * width_interval)) % 2 ^ 64 in
    let upgraded : ℕ =
      if dq_state_is_runnable reserved
      then (reserved + width_interval + in_barrier + 2 ^ 64 - pending_barrier) % 2 ^ 64
      else reserved in
    let new : ℕ = clear_bit 39 upgraded in (new, dq_state_is_in_barrier new)

-- `_dispatch_queue_adjust_owned`; the last argument says whether the next continuation is a barrier.
pub adjust_owned : ℕ → ℕ → Bool → ℕ
adjust_owned width owned next_is_barrier =
    if ltb 1 width && next_is_barrier
    then (owned + 2 ^ 64 - (pending_barrier + (width - 1) * width_interval)) % 2 ^ 64
    else owned

-- `_dispatch_queue_drain_try_unlock`: the new state, whether the queue was unlocked, and the QoS that
-- the thread is marked as overridden to, if any.
pub drain_try_unlock : ℕ → Bool → ℕ → ℕ × Bool × Option ℕ
drain_try_unlock owned done s =
    let new : ℕ = drain_unlock_bits ((s + 2 ^ 64 - owned) % 2 ^ 64) in
    let override : Option ℕ =
      if dq_state_received_override s then some (dq_state_max_qos s) else none in
    if dq_state_is_suspended s
    then (new, true, override)
    else (if dq_state_is_dirty s
        then (clear_bit 39 s, false, none)
        else (if done
            then (clear_field 32 3 new, true, override)
            else (set_bit 39 new, true, override)))

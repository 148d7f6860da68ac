-- ===== src/QueueState/Serial/Updates.antt =====
-- The updates of a serial queue's state in src/queue.c that are not in src/inline_internal.h: the bodies of
-- their loops, as functions of the state.
use swift_corelibs_libdispat.Common.{
  ℕ, ◌+◌, ◌-◌, ◌*◌, ◌%◌, ◌^◌, Bool, true, false, not, ◌&&◌, ◌||◌, leb, ◌==◌, if◌then◌else◌, Option,
  none, some,
}
use swift_corelibs_libdispat.Common.Bits.{field, test_bit, set_bit, clear_bit, clear_field}
use swift_corelibs_libdispat.QueueState.{
  drain_unlock_bits, dq_state_merge_qos, dq_state_is_suspended, dq_state_is_enqueued,
  dq_state_drain_locked, dq_state_is_base_wlh, dq_state_is_runnable, dq_state_is_dirty,
  needs_activation, in_barrier, width_interval,
}

-- The loop of `_dispatch_queue_wakeup` for the target queue: the new state, from DISPATCH_WAKEUP_MAKE_DIRTY,
-- the QoS and the old state.
unfoldable pub wakeup_state : Bool → ℕ → ℕ → ℕ
wakeup_state make_dirty qos s =
    let merged : ℕ = dq_state_merge_qos s qos in
    let enqueued : ℕ =
      if not (dq_state_is_suspended s)
        && not (dq_state_is_enqueued s)
        && (not (dq_state_drain_locked s) || dq_state_is_base_wlh s)
      then set_bit 31 merged
      else merged in
    if make_dirty then set_bit 39 enqueued else enqueued

-- The loop of `_dispatch_queue_invoke_finish` for the target queue
unfoldable pub finish_state : ℕ → ℕ → ℕ
finish_state owned s =
    let new : ℕ = set_bit 39 (drain_unlock_bits ((s + 2 ^ 64 - owned) % 2 ^ 64)) in
    if dq_state_is_runnable new && not (dq_state_is_enqueued new) then set_bit 31 new else new

-- What `_dispatch_lane_drain` of a serial queue owns when it has run items: the enqueued bits that it
-- owned, and the barrier with the width of 1.
unfoldable pub drained_owned : ℕ → ℕ
drained_owned owned =
    field 31 1 owned * 2 ^ 31 + field 38 1 owned * 2 ^ 38 + in_barrier + width_interval

-- The loop of `_dispatch_lane_barrier_sync_invoke_and_complete`: `none` where it leaves the unlock to
-- `_dispatch_lane_barrier_complete`, for a bit of `fail_unlock_mask`
unfoldable pub sync_unlock : ℕ → Option ℕ
sync_unlock s =
    if leb needs_activation s || test_bit 31 s || test_bit 39 s || test_bit 35 s || test_bit 30 s
    then none
    else some (
        clear_field 32 3
          (drain_unlock_bits ((s + 2 ^ 64 - (in_barrier + width_interval)) % 2 ^ 64)))

-- The loop of `_dispatch_lane_class_barrier_complete`, for whether the target is that of the
-- queue and for the QoS: the new state, and whether the lock was released and not renewed
unfoldable pub barrier_complete_state : Bool → ℕ → ℕ → ℕ × Bool
unfolding dq_state_merge_qos
barrier_complete_state target qos s =
    let released : ℕ = (s + 2 ^ 64 - (in_barrier + width_interval)) % 2 ^ 64 in
    let new : ℕ = drain_unlock_bits (dq_state_merge_qos released qos) in
    if dq_state_is_suspended s
    then ((if dq_state_is_base_wlh s then clear_bit 31 new else new), true)
    else (if target
        then ((if dq_state_is_enqueued s then new else set_bit 31 new), true)
        else (if dq_state_is_dirty s
            then (clear_bit 39 s, false)
            else (clear_field 32 3 new, true)))

-- `(old_state ^ new_state) & DISPATCH_QUEUE_ENQUEUED`, as the number of pushes on the target queue
abbrev pub pushed : ℕ → ℕ → ℕ
pushed old new = if field 31 1 old == field 31 1 new then 0 else 1

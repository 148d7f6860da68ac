-- ===== src/QueueState/Serial/Tests.antt =====
-- Instances and runs in the life of a serial queue (src/queue.c, src/inline_internal.h).
use swift_corelibs_libdispat.Common.{◌+◌, ◌-◌, ◌/◌, ◌≤◌, ◌<◌, ◌≡◌, refl, arith, true, false}
use swift_corelibs_libdispat.Common.Bits.{field}
use swift_corelibs_libdispat.QueueState.{
  dq_state_drain_locked, dq_state_is_enqueued_on_target, suspend_interval, width_interval,
  width_full, drain_try_lock, drain_locked_state, dq_state_merge_qos, try_acquire_barrier_sync,
  try_acquire_barrier_sync_and_suspend,
}
use swift_corelibs_libdispat.Suspend.{suspend_pass, resume_update, resume_end, resumed}
use swift_corelibs_libdispat.QueueState.Serial.{
  none_draining, in_sync, SerialQueue, is_drained, lane_push, lane_wakeup, queue_wakeup,
  class_invoke, sync_start, sync_end, suspend, resume, pushes, probes, wakes, invokes, drains,
  lane_drain, syncs, ends_sync, suspends, resumes, step, create, Reach, start, after,
}
use swift_corelibs_libdispat.QueueState.Serial.Updates.{
  wakeup_state, sync_unlock, barrier_complete_state,
}
use swift_corelibs_libdispat.QueueState.Serial.Safety.{one_at_a_time, strands_no_item}
use swift_corelibs_libdispat.QueueState.Serial.Suspended.{
  chosen, WhileSuspended, none_yet, goes_on, starts_nothing_suspended,
}
use swift_corelibs_libdispat.QueueState.Serial.Serve.{serve, serves_all}

-- A queue under a root queue with two items, on its target
abbrev ready : SerialQueue
ready = step pushes (step (wakes 4) (step probes (step pushes (create 1))))

ready-Reach : Reach ready
unfolding step lane_push lane_wakeup
ready-Reach =
    after
      (after (after (after (start 1 (omega arith)) pushes (omega arith)) probes (omega arith))
        (wakes 4) (omega arith, omega arith))
      pushes (omega arith)

one_at_a_time_example :
    (ready.clash ≡ false)
    × (dq_state_drain_locked ready.dq_state ≡ is_drained ready.drainer)
    × (ready.on_target ≤ 1)
    × (0 < ready.on_target → dq_state_is_enqueued_on_target ready.dq_state ≡ true)
one_at_a_time_example = one_at_a_time ready-Reach

-- A queue that a call of dispatch_sync has used
abbrev used : SerialQueue
used = step ends_sync (step ends_sync (step (syncs 5) (create 1)))

used-Reach : Reach used
used-Reach =
    after (after (after (start 1 (omega arith)) (syncs 5) (omega arith)) ends_sync (omega arith))
      ends_sync (omega arith)

used_runs :
    (used.dq_state < suspend_interval)
    × (used.drainer ≡ none_draining)
    × (used.on_target ≡ 0)
    × (used.pushing + used.waking ≡ 0)
unfolding step sync_start sync_end sync_unlock try_acquire_barrier_sync
    try_acquire_barrier_sync_and_suspend
used_runs = (omega arith, refl, refl, refl)

strands_no_item_example :
    (used.items ≡ 0)
    × (used.dq_state / width_interval ≡ width_full - 1)
    × (field 31 1 used.dq_state ≡ 0)
strands_no_item_example = strands_no_item used-Reach used_runs.0 used_runs.1 used_runs.2 used_runs.3

-- The queue with two items, suspended
abbrev suspended : SerialQueue
suspended = step suspends ready

-- The queue is suspended when the drainer has gone on with an item, which is then run; the drainer stops.
abbrev chosen_item : SerialQueue
chosen_item = step suspends (step (drains false) (step (drains false) (step (invokes 77 0) ready)))

abbrev after_item : SerialQueue
after_item = step (drains false) (step (drains false) chosen_item)

after_item-WhileSuspended : WhileSuspended chosen_item after_item
unfolding step lane_push lane_wakeup queue_wakeup wakeup_state dq_state_merge_qos class_invoke
    drain_try_lock drain_locked_state lane_drain suspend suspend_pass
after_item-WhileSuspended =
    goes_on (goes_on none_yet (omega arith) (drains false) (omega arith)) (omega arith)
      (drains false) (omega arith)

after_item_runs : (chosen_item.ran ≡ 0) × (after_item.ran ≡ 1) × (chosen after_item.drainer ≡ 0)
unfolding step lane_push lane_wakeup queue_wakeup wakeup_state dq_state_merge_qos class_invoke
    drain_try_lock drain_locked_state lane_drain suspend suspend_pass
after_item_runs = (refl, refl, refl)

starts_nothing_suspended_example :
    (after_item.ran + chosen after_item.drainer ≤ chosen_item.ran + chosen chosen_item.drainer)
    × (after_item.drainer ≡ in_sync → chosen_item.drainer ≡ in_sync)
starts_nothing_suspended_example = starts_nothing_suspended after_item-WhileSuspended

ready_runs :
    (ready.drainer ≡ none_draining) × (ready.dq_state < suspend_interval) × (0 < ready.on_target)
unfolding step lane_push lane_wakeup queue_wakeup wakeup_state dq_state_merge_qos
ready_runs = (refl, omega arith, omega arith)

serves_all_example :
    let r = serve 77 0 ready in
    (r.items ≡ 0)
    × (r.ran ≡ ready.ran + ready.items)
    × (r.drainer ≡ none_draining)
    × (r.on_target ≡ 0)
    × (r.dq_state / width_interval ≡ width_full - 1)
    × (field 31 1 r.dq_state ≡ 0)
serves_all_example =
    serves_all 77 0 ready-Reach ready_runs.0 ready_runs.1 ready_runs.2 (omega arith)

-- The suspended queue is invoked and leaves its target; its resume takes the lock, and puts it back.
abbrev resumed_queue : SerialQueue
resumed_queue = step ends_sync (step ends_sync (step (resumes 6) (step (invokes 77 0) suspended)))

resumed_runs :
    ((step (invokes 77 0) suspended).on_target ≡ 0)
    × (resumed_queue.on_target ≡ 1)
    × (resumed_queue.drainer ≡ none_draining)
    × (resumed_queue.items ≡ 2)
unfolding step lane_push lane_wakeup queue_wakeup wakeup_state dq_state_merge_qos suspend
    suspend_pass class_invoke drain_try_lock resume resume_update resumed resume_end sync_end
    barrier_complete_state
resumed_runs = (refl, refl, refl, refl)

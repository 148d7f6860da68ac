-- ===== src/Group/Tests.antt =====
-- Runs of a group with two threads (src/semaphore.c).
use swift_corelibs_libdispat.Common.{
  ◌+◌, ◌-◌, ◌*◌, ◌^◌, ◌≡◌, refl, arith, true, false, [], ◌∷◌, length,
}
use swift_corelibs_libdispat.Group.{
  Group, idle, notifying, leaving, waking, releasing, waiting, Choice, System, Reach, here, later,
  take, step, blocked, crash, next, quiet, enter_state, leave_state, enter_group, leave_group,
  dg_state_value, dg_state_gen, dispose_crashes,
}
use swift_corelibs_libdispat.Group.Safety.{clean_at_rest}

-- A group that was created entered, with the notification 7; it was left, and the first thread is in
-- `_dispatch_group_wake`.
abbrev firing : System
firing = record {
  group = record { dg_state = 2 ^ 32; dg_notify = 7 ∷ []; refs = 2 };
  threads = waking (2 ^ 32 + 2) true ∷ idle ∷ [];
  notified = 1;
  submitted = 0;
}

-- The notification was submitted and both references were released.
abbrev rested : System
rested = record {
  group = record { dg_state = 2 ^ 32; dg_notify = []; refs = 0 };
  threads = idle ∷ idle ∷ [];
  notified = 1;
  submitted = 1;
}

firing_reached : Reach 1 2 firing
unfolding step swift_corelibs_libdispat.Group.create_with_count
firing_reached =
    later {before = []} {after = idle ∷ []}
      (later {before = []} {after = idle ∷ []}
        (later {before = idle ∷ []} {after = []}
          (later {before = idle ∷ []} {after = []} here (take (Choice.notify 7) refl))
          (take Choice.proceed refl))
        (take Choice.leave refl))
      (take Choice.proceed refl)

rested_reached : Reach 1 2 rested
unfolding step
rested_reached =
    later {before = []} {after = idle ∷ []}
      (later {before = []} {after = idle ∷ []} firing_reached (take Choice.proceed refl))
      (take Choice.proceed refl)

clean_at_rest_example :
    (dispose_crashes rested.group.dg_state ≡ false)
    × (length rested.group.dg_notify ≡ 0)
    × (rested.group.refs ≡ 0)
unfolding dg_state_value
clean_at_rest_example = clean_at_rest (omega arith) rested_reached refl refl

-- A group that is entered twice, with a waiter.
abbrev twice : Group
twice = record { dg_state = 5 * 2 ^ 32 + (2 ^ 32 - 8) + 1; dg_notify = []; refs = 1 }

-- ===== src/Group/Value.antt =====
-- The value and the generation of a group under enter and leave (src/semaphore.c).
use swift_corelibs_libdispat.Common.{ℕ, ◌+◌, ◌-◌, ◌%◌, ◌^◌, ◌<◌, ◌≡◌, arith, ◌==◌, if◌then◌else◌}
use swift_corelibs_libdispat.Group.{
  Group, dg_state_value, dg_state_gen, idle, leaving, quiet, next, crash, enter_state, leave_state,
  enter_group, leave_group,
}

-- Below the largest count, `dispatch_group_enter` adds one to the value, takes a reference exactly if
-- the value was 0, and changes neither the generation nor the flags; at the largest count it crashes.
pub enter_group-value :
    (g : Group)
    → g.dg_state < 2 ^ 64
    → (enter_group g ≡ (
        if dg_state_value g.dg_state == 2 ^ 30 - 1
        then crash
        else next
            (record g {
              dg_state = enter_state g.dg_state;
              refs = if dg_state_value g.dg_state == 0 then g.refs + 1 else g.refs;
            })
            idle
            quiet))
      × (dg_state_value (enter_state g.dg_state) ≡ (dg_state_value g.dg_state + 1) % 2 ^ 30)
      × (dg_state_gen (enter_state g.dg_state) ≡ dg_state_gen g.dg_state)
      × (enter_state g.dg_state % 4 ≡ g.dg_state % 4)
unfolding enter_group dg_state_value dg_state_gen enter_state
enter_group-value g w = (ground arith, ground arith, ground arith, ground arith)

-- `dispatch_group_leave` crashes on a group that is not entered; else it takes one from the value,
-- goes on to clear the flags exactly if the value was 1, and then and only then the generation is
-- incremented; the flags stay.
pub leave_group-value :
    (g : Group)
    → g.dg_state < 2 ^ 64
    → (leave_group g ≡ (
        if dg_state_value g.dg_state == 0
        then crash
        else next
            (record g { dg_state = leave_state g.dg_state })
            (if dg_state_value g.dg_state == 1 then leaving (leave_state g.dg_state) else idle)
            quiet))
      × (dg_state_value (leave_state g.dg_state)
          ≡ (dg_state_value g.dg_state + (2 ^ 30 - 1)) % 2 ^ 30)
      × (dg_state_gen (leave_state g.dg_state)
          ≡ (dg_state_gen g.dg_state + (if dg_state_value g.dg_state == 1 then 1 else 0)) % 2 ^ 32)
      × (leave_state g.dg_state % 4 ≡ g.dg_state % 4)
unfolding leave_group dg_state_value dg_state_gen leave_state
leave_group-value g w = (ground arith, ground arith, ground arith, ground arith)

-- An enter and a leave give back the state word, except that the generation is incremented where the
-- group was not entered.
pub leave_state-enter_state :
    (s : ℕ)
    → s < 2 ^ 64
    → leave_state (enter_state s) ≡ (s + (if dg_state_value s == 0 then 2 ^ 32 else 0)) % 2 ^ 64
unfolding leave_state enter_state dg_state_value
leave_state-enter_state s w = ground arith

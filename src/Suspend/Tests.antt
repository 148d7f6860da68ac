-- ===== src/Suspend/Tests.antt =====
-- Instances and runs of suspension (src/queue.c).
use swift_corelibs_libdispat.Common.{
  ◌+◌, ◌-◌, ◌*◌, ◌/◌, ◌^◌, ◌<◌, ◌≡◌, ◌⊎◌, refl, arith, Bool, true, false, not, ◌&&◌, ◌==◌,
  if◌then◌else◌, some, leb,
}
use swift_corelibs_libdispat.QueueState.{dq_state_is_inactive, needs_activation, suspend_interval}
use swift_corelibs_libdispat.Common.Bits.{clear_field}
use swift_corelibs_libdispat.Suspend.{
  inactive, Lane, Next, done, slow, again, release_2, wakeup, Resumer, suspend_pass, suspend_slow,
  resume_pass, resume_slow, activate_pass, lane_suspend, lane_resume, lane_activate,
  try_inactive_suspend, queue_init,
}
use swift_corelibs_libdispat.Suspend.Passes.{
  suspend_count, view, IsValid, suspended, view_eq, suspend_slow_lem, try_inactive_suspend-wraps,
}
use swift_corelibs_libdispat.Suspend.Contract.{quiet, load, restart, resume_view, Kept}
use swift_corelibs_libdispat.Suspend.Resume.{resume_pass_lem}
use swift_corelibs_libdispat.Suspend.Calls.{
  running, lane_activate-releases, lane_resume-lane_suspend,
}

-- A serial queue that is suspended 63 times, all inline.
abbrev full : Lane
full = record { dq_state = 0xfff * 2 ^ 41 + 63 * 2 ^ 58; side_suspend_cnt = 0; retained = 2 }

full-IsValid : IsValid full
full-IsValid = omega arith

-- The queue with 32 of its suspensions on the side, and no other.
abbrev halved : Lane
halved = record { dq_state = 0xfff * 2 ^ 41 + 2 ^ 57; side_suspend_cnt = 32; retained = 2 }

halved-IsValid : IsValid halved
halved-IsValid = omega arith

-- A serial queue that is suspended once, with a drain lock that thread 7 holds.
abbrev once : Lane
once = record { dq_state = 0xfff * 2 ^ 41 + 2 ^ 58 + 7; side_suspend_cnt = 0; retained = 2 }

once-IsValid : IsValid once
once-IsValid = omega arith

-- A serial queue that starts inactive.
abbrev idle : Lane
idle = record { dq_state = 0xfff * 2 ^ 41 + 3 * 2 ^ 55; side_suspend_cnt = 0; retained = 2 }

idle-IsValid : IsValid idle
idle-IsValid = omega arith

-- The same with 63 suspensions.
abbrev idle_full : Lane
idle_full = record {
  dq_state = 0xfff * 2 ^ 41 + 3 * 2 ^ 55 + 63 * 2 ^ 58;
  side_suspend_cnt = 0;
  retained = 2;
}

idle_full-IsValid : IsValid idle_full
idle_full-IsValid = omega arith

abbrev main : Resumer
main = record { is_source = false; width = 1; tid = 9 }

abbrev keep : Lane → Lane × Bool
keep l = (l, true)

suspend_slow_lem_example :
    ((suspend_slow full).1 ≡ done)
      × IsValid (suspend_slow full).0
      × (view (suspend_slow full).0 ≡ suspended (view full))
    ⊎ (suspend_slow full ≡ (full, again)) × (full.dq_state / 2 ^ 58 < 31)
suspend_slow_lem_example = suspend_slow_lem full full-IsValid (omega arith)

resume_pass_lem_example :
    Kept 9 (resume_pass main once) (resume_view false (load once.dq_state) (view once))
    ⊎ (resume_pass main once ≡ (once, slow))
      × (once.dq_state / 2 ^ 58 ≡ 0)
      × (0 < once.side_suspend_cnt)
resume_pass_lem_example = resume_pass_lem main once once-IsValid

try_inactive_suspend-wraps_example :
    (m : Lane) × (try_inactive_suspend idle_full ≡ some (m, done)) × (suspend_count m ≡ 0)
try_inactive_suspend-wraps_example =
    try_inactive_suspend-wraps idle_full idle_full-IsValid refl refl refl

-- The finalizer sets the QoS to 4.
abbrev sets_qos : Lane → Lane × Bool
sets_qos l = (record l { dq_state = clear_field 32 3 l.dq_state + 4 * 2 ^ 32 }, true)

sets_qos-keeps :
    (l : Lane) → IsValid l → (m : Lane) × (sets_qos l ≡ (m, true)) × IsValid m × (view m ≡ view l)
sets_qos-keeps l v =
    let m = (sets_qos l).0 in
    let h : m.dq_state / 2 ^ 55 ≡ l.dq_state / 2 ^ 55 = omega arith in
    let t : leb (2 ^ 55) m.dq_state ≡ leb (2 ^ 55) l.dq_state = ground arith in
    (
      m,
      refl,
      (
        omega arith,
        omega arith,
        omega arith,
        omega arith,
        omega arith,
        omega arith,
        omega arith,
        rw t v.7,
      ),
      view_eq l m (suspend_count l) (omega arith) (omega arith) (omega arith),
    )

lane_activate-releases_example :
    (let m : Lane = record idle {
      dq_state = idle.dq_state - inactive - needs_activation + suspend_interval;
    } in
      let o = (sets_qos m).0 in
      (lane_activate 1 sets_qos main idle ≡ lane_resume 1 sets_qos main o)
      × Kept 9 (lane_activate 1 sets_qos main idle) (running, restart (load o.dq_state)))
lane_activate-releases_example =
    lane_activate-releases 0 sets_qos main sets_qos-keeps idle idle-IsValid refl refl

lane_resume-lane_suspend_example : Kept 9 (lane_resume 1 keep main (lane_suspend 1 full).0) (
  view full,
  if suspend_count full == 0 && not (dq_state_is_inactive full.dq_state)
      then restart (load full.dq_state)
      else quiet,
)
lane_resume-lane_suspend_example =
    lane_resume-lane_suspend 0 keep main full full-IsValid (omega arith)

run_suspend : lane_suspend 1 full ≡ (
  record { dq_state = 0xfff * 2 ^ 41 + 2 ^ 57 + 32 * 2 ^ 58; side_suspend_cnt = 32; retained = 2 },
  done,
)
unfolding lane_suspend suspend_pass suspend_slow
run_suspend = refl

run_activate : (lane_activate 1 keep main idle).1 ≡ wakeup 0 true
unfolding lane_activate activate_pass lane_resume resume_pass
    swift_corelibs_libdispat.Suspend.resume_update swift_corelibs_libdispat.Suspend.resume_end
    swift_corelibs_libdispat.Suspend.resumed
run_activate = refl

run_init : queue_init 1 0 true ≡ idle
unfolding queue_init
run_init = refl

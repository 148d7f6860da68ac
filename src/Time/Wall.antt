-- ===== src/Time/Wall.antt =====
-- Wall times: `dispatch_time` from DISPATCH_WALLTIME_NOW against `dispatch_walltime` (src/time.c).
use swift_corelibs_libdispat.Common.{ℕ, suc, ◌+◌, ◌-◌, ◌^◌, ◌≤◌, ◌<◌, ◌≡◌, arith, none}
use swift_corelibs_libdispat.Common.Int.{ℤ, pos, negsuc}
use swift_corelibs_libdispat.Time.{
  monotonic, Now, time_forever, walltime_now, time_max_value, neg64, time_to_clock_and_value,
  dispatch_time, dispatch_walltime,
}

-- The wall clock plus the delta is the time `sum`, in the integers.
abbrev pub IsSum : ℕ → ℤ → ℕ → Type 0
IsSum start (pos d) sum = start + d ≡ sum
IsSum start (negsuc d) sum = start ≡ sum + suc d

-- Where the wall clock plus the delta lies from 2 up to below DISPATCH_TIME_MAX_VALUE, the two ways to
-- name a wall time agree, and give the encoding of that sum.
pub dispatch_time-dispatch_walltime :
    (now : Now) (delta : ℤ) (sum : ℕ)
    → now.nanoseconds < time_max_value
    → IsSum now.nanoseconds delta sum
    → 2 ≤ sum
    → sum < time_max_value
    → (dispatch_time now walltime_now delta ≡ neg64 sum)
      × (dispatch_walltime now none delta ≡ neg64 sum)
unfolding dispatch_time dispatch_walltime
dispatch_time-dispatch_walltime now (pos d) sum n e l u = ground arith
dispatch_time-dispatch_walltime now (negsuc d) sum n e l u = ground arith

-- Where a negative delta takes the wall clock to exactly 1 ns after the epoch, `dispatch_time` gives
-- DISPATCH_TIME_FOREVER, and `dispatch_walltime` gives (dispatch_time_t)-2.
pub wall_underflow_to_one :
    (now : Now) (d : ℕ)
    → now.nanoseconds < time_max_value
    → now.nanoseconds ≡ 1 + suc d
    → (dispatch_time now walltime_now (negsuc d) ≡ time_forever)
      × (dispatch_walltime now none (negsuc d) ≡ walltime_now)
unfolding dispatch_time dispatch_walltime
wall_underflow_to_one now d n e = ground arith

-- Where the delta takes the wall clock above 2^62 ns and below 2^63 ns, `dispatch_time` saturates to
-- DISPATCH_TIME_FOREVER, but `dispatch_walltime` gives a value that is read back as the monotonic
-- time 2^63 - sum.
pub walltime_becomes_monotonic :
    (now later : Now) (d sum : ℕ)
    → now.nanoseconds < time_max_value
    → now.nanoseconds + d ≡ sum
    → 2 ^ 62 < sum
    → sum < 2 ^ 63
    → (dispatch_time now walltime_now (pos d) ≡ time_forever)
      × (time_to_clock_and_value later (dispatch_walltime now none (pos d))
          ≡ (monotonic, 2 ^ 63 - sum))
unfolding dispatch_time dispatch_walltime
walltime_becomes_monotonic now later d sum n e l u = ground arith

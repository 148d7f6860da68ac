-- ===== src/Time/Encoding.antt =====
-- The two directions of the encoding of `dispatch_time_t` (src/shims/time.h).
use swift_corelibs_libdispat.Common.{ℕ, ◌^◌, ◌<◌, ◌≡◌, ◌≢◌, refl, arith}
use swift_corelibs_libdispat.Time.{
  Clock, uptime, monotonic, wall, Now, walltime_now, time_max_value, time_to_clock_and_value,
  clock_and_value_to_time,
}

-- A value below DISPATCH_TIME_MAX_VALUE is read back with its clock after it is encoded, for a
-- wall time when it is above 2 (the encodings of 0, 1 and 2 have other meanings).
pub to_clock_and_value-to_time :
    (now : Now) (clock : Clock) (value : ℕ)
    → value < time_max_value
    → (clock ≡ wall → 2 < value)
    → time_to_clock_and_value now (clock_and_value_to_time clock value) ≡ (clock, value)
unfolding time_to_clock_and_value clock_and_value_to_time
to_clock_and_value-to_time now uptime value h w = ground arith
to_clock_and_value-to_time now monotonic value h w = ground arith
to_clock_and_value-to_time now wall value h w = ground (arith, w refl)

-- Conversely, a 64-bit time other than DISPATCH_WALLTIME_NOW whose value is below
-- DISPATCH_TIME_MAX_VALUE is the encoding of the clock and the value that are read from it.
pub to_time-to_clock_and_value :
    (now : Now) (time : ℕ)
    → time < 2 ^ 64
    → time ≢ walltime_now
    → (time_to_clock_and_value now time).1 < time_max_value
    → (let r = time_to_clock_and_value now time in clock_and_value_to_time r.0 r.1) ≡ time
unfolding time_to_clock_and_value clock_and_value_to_time
to_time-to_clock_and_value now time h n r = ground arith

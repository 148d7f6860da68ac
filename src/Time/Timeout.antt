-- ===== src/Time/Timeout.antt =====
-- `_dispatch_timeout` and `_dispatch_time_nanoseconds_since_epoch` (src/time.c).
use swift_corelibs_libdispat.Common.{ℕ, ◌+◌, ◌-◌, ◌^◌, ◌<◌, ◌≡◌, ◌≢◌, refl, arith}
use swift_corelibs_libdispat.Common.Int.{pos}
use swift_corelibs_libdispat.Time.{
  Clock, uptime, monotonic, wall, Now, time_max_value, time_now, clock_and_value_to_time,
  read_clock, dispatch_time, timeout, time_nanoseconds_since_epoch,
}
use swift_corelibs_libdispat.Time.Add.{dispatch_time-saturates}

-- The timeout of an encoded time is what is left of it on its clock, and 0 once the clock reached it.
pub timeout-to_time :
    (now : Now) (clock : Clock) (value : ℕ)
    → value < time_max_value
    → (clock ≡ wall → 2 < value)
    → timeout now (clock_and_value_to_time clock value) ≡ value - read_clock now clock
unfolding timeout clock_and_value_to_time
timeout-to_time now uptime value h w = ground arith
timeout-to_time now monotonic value h w = ground arith
timeout-to_time now wall value h w = ground (arith, w refl)

-- A timeout set `delta` from now on the up or the monotonic clock, and read when that clock shows
-- `later`, is `delta` less the time that has passed, and 0 when it has all passed.
pub timeout-dispatch_time :
    (now later : Now) (clock : Clock) (delta : ℕ)
    → clock ≢ wall
    → 0 < read_clock now clock
    → read_clock now clock + delta < time_max_value
    → timeout later (dispatch_time now (clock_and_value_to_time clock time_now) (pos delta))
      ≡ read_clock now clock + delta - read_clock later clock
timeout-dispatch_time now later clock delta c p q =
    rw
      (dispatch_time-saturates now clock time_now (pos delta) c (omega arith) (omega arith) p
        (omega arith))
      (timeout-to_time later clock (read_clock now clock + delta) q (λ e. absurd (c e)))

-- For a monotonic time the conversion to the epoch negates the encoding, as it does for a wall time:
-- it gives 2^63 less the time's value, whatever the clocks show.
pub epoch_of_monotonic :
    (now : Now) (value : ℕ)
    → value < time_max_value
    → time_nanoseconds_since_epoch now (clock_and_value_to_time monotonic value) ≡ 2 ^ 63 - value
unfolding time_nanoseconds_since_epoch clock_and_value_to_time
epoch_of_monotonic now value h = ground arith

-- What a time of a clock means in nanoseconds since the epoch: a wall time itself, another time as
-- long after the wall clock as it is after its own.
unfoldable pub epoch_of : Now → Clock → ℕ → ℕ
epoch_of now uptime value = now.nanoseconds + (value - now.up)
epoch_of now monotonic value = now.nanoseconds + (value - now.mono)
epoch_of now wall value = value

-- Unless the clock is monotonic, the conversion of an encoded time to the epoch gives what the time
-- means, for a wall clock below 2^63.
pub time_nanoseconds_since_epoch-to_time :
    (now : Now) (clock : Clock) (value : ℕ)
    → clock ≢ monotonic
    → value < time_max_value
    → (clock ≡ wall → 2 < value)
    → now.nanoseconds < 2 ^ 63
    → time_nanoseconds_since_epoch now (clock_and_value_to_time clock value)
      ≡ epoch_of now clock value
unfolding time_nanoseconds_since_epoch clock_and_value_to_time epoch_of
time_nanoseconds_since_epoch-to_time now uptime value c h w n = ground arith
time_nanoseconds_since_epoch-to_time now monotonic value c h w n = absurd (c refl)
time_nanoseconds_since_epoch-to_time now wall value c h w n = ground (arith, w refl)

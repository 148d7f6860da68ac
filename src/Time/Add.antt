-- ===== src/Time/Add.antt =====
-- `dispatch_time` on the up and monotonic clocks: saturating addition (src/time.c).
use swift_corelibs_libdispat.Common.{
  ℕ, suc, ◌+◌, ◌-◌, ◌^◌, ◌≤◌, ◌<◌, ◌≡◌, ◌≢◌, refl, arith, if◌then◌else◌, ltb, ◌==◌,
}
use swift_corelibs_libdispat.Common.Int.{ℤ, pos, negsuc, pos_part, neg_part}
use swift_corelibs_libdispat.Time.{
  Clock, uptime, monotonic, wall, Now, time_max_value, time_now, time_to_clock_and_value,
  clock_and_value_to_time, read_clock, add_to, dispatch_time,
}

-- Addition of an interval to a point of a clock, in the integers: from below it stops at 1, and from
-- DISPATCH_TIME_MAX_VALUE on the result is DISPATCH_TIME_FOREVER.
abbrev pub saturating_add : ℕ → ℤ → ℕ
saturating_add base (pos delta) = base + delta
saturating_add base (negsuc delta) = if ltb (suc delta) base then base - suc delta else 1

-- The delta is an int64_t.
abbrev pub IsInt64 : ℤ → Type 0
IsInt64 (pos n) = n < 2 ^ 63
IsInt64 (negsuc n) = n < 2 ^ 63

pub add_to-saturates :
    (now : Now) (clock : Clock) (value : ℕ) (delta : ℤ)
    → clock ≢ wall
    → IsInt64 delta
    → value < 2 ^ 63
    → 0 < read_clock now clock
    → read_clock now clock < 2 ^ 63
    → add_to now clock value delta
      ≡ clock_and_value_to_time clock
          (saturating_add (if value == time_now then read_clock now clock else value) delta)
unfolding add_to clock_and_value_to_time
add_to-saturates now wall value delta c i v p q = absurd (c refl)
add_to-saturates now uptime value (pos d) c i v p q = ground arith
add_to-saturates now uptime value (negsuc d) c i v p q = ground arith
add_to-saturates now monotonic value (pos d) c i v p q = ground arith
add_to-saturates now monotonic value (negsuc d) c i v p q = ground arith

dispatch_time-encoded :
    (now : Now) (clock : Clock) (value : ℕ) (delta : ℤ)
    → clock ≢ wall
    → value < time_max_value
    → dispatch_time now (clock_and_value_to_time clock value) delta ≡ add_to now clock value delta
unfolding dispatch_time time_to_clock_and_value clock_and_value_to_time
dispatch_time-encoded now wall value delta c v = absurd (c refl)
dispatch_time-encoded now uptime value delta c v = ground arith
dispatch_time-encoded now monotonic value delta c v = ground arith

-- `dispatch_time` on an encoded up or monotonic time is the saturating addition of its delta to the
-- time, or to the clock's reading where the time is DISPATCH_TIME_NOW on that clock. (The reading is
-- positive and below 2^63, and the delta is an int64_t.)
pub dispatch_time-saturates :
    (now : Now) (clock : Clock) (value : ℕ) (delta : ℤ)
    → clock ≢ wall
    → IsInt64 delta
    → value < time_max_value
    → 0 < read_clock now clock
    → read_clock now clock < 2 ^ 63
    → dispatch_time now (clock_and_value_to_time clock value) delta
      ≡ clock_and_value_to_time clock
          (saturating_add (if value == time_now then read_clock now clock else value) delta)
dispatch_time-saturates now clock value delta c i v p q =
    rw (dispatch_time-encoded now clock value delta c v)
      (add_to-saturates now clock value delta c i (omega arith) p q)

abbrev pub ◌≤ℤ◌ : ℤ → ℤ → Type 0
◌≤ℤ◌ a b = pos_part a + neg_part b ≤ pos_part b + neg_part a

pub saturating_add_mono :
    (base : ℕ) (a b : ℤ) → ◌≤ℤ◌ a b → 0 < base → saturating_add base a ≤ saturating_add base b
saturating_add_mono base (pos a) (pos b) h p = omega arith
saturating_add_mono base (pos a) (negsuc b) h p = absurd (omega arith)
saturating_add_mono base (negsuc a) (pos b) h p = ground arith
saturating_add_mono base (negsuc a) (negsuc b) h p = ground arith

pub to_time_mono :
    (clock : Clock) (a b : ℕ)
    → clock ≢ wall
    → a ≤ b
    → clock_and_value_to_time clock a ≤ clock_and_value_to_time clock b
unfolding clock_and_value_to_time
to_time_mono wall a b c h = absurd (c refl)
to_time_mono uptime a b c h = ground arith
to_time_mono monotonic a b c h = ground arith

-- On an encoded up or monotonic time a larger delta never gives an earlier result, over the whole
-- range of int64_t deltas, also where the addition saturates.
pub dispatch_time_mono :
    (now : Now) (clock : Clock) (value : ℕ) (a b : ℤ)
    → clock ≢ wall
    → IsInt64 a
    → IsInt64 b
    → ◌≤ℤ◌ a b
    → value < time_max_value
    → 0 < read_clock now clock
    → read_clock now clock < 2 ^ 63
    → dispatch_time now (clock_and_value_to_time clock value) a
      ≤ dispatch_time now (clock_and_value_to_time clock value) b
dispatch_time_mono now clock value a b c i j h v p q =
    rw
      (
        dispatch_time-saturates now clock value a c i v p q,
        dispatch_time-saturates now clock value b c j v p q,
      )
      (to_time_mono clock _ _ c (saturating_add_mono _ a b h (ground arith)))

-- ===== src/Time.antt =====
-- src/time.c and src/shims/time.h: the encoding of `dispatch_time_t` and the operations on it, with
-- time units of a nanosecond (DISPATCH_TIME_UNIT_USES_NANOSECONDS). The clocks are read from the
-- system: a reading of all three is a parameter.
mod Encoding
mod Add
mod Wall
mod Timeout
mod Tests
use swift_corelibs_libdispat.Common.{
  ℕ, suc, ◌+◌, ◌-◌, ◌%◌, ◌^◌, ◌≤◌, ◌<◌, ◌≡◌, Bool, true, false, ◌||◌, leb, ltb, ◌==◌, if◌then◌else◌,
  Option, none, some,
}
use swift_corelibs_libdispat.Common.Bits.{test_bit, set_bit, clear_bit}
use swift_corelibs_libdispat.Common.Int.{ℤ, pos, negsuc}

-- `dispatch_clock_t`
pub data Clock : Type 0 where
  uptime monotonic wall : Clock

-- One reading of the system's clocks, in nanoseconds.
pub record Now : Type 0 where
  pub up : ℕ
  pub mono : ℕ
  pub nanoseconds : ℕ

-- A uint64_t.
abbrev pub u64 : ℕ → ℕ
u64 n = n % 2 ^ 64

-- (uint64_t)-n
abbrev pub neg64 : ℕ → ℕ
neg64 n = (2 ^ 64 - n % 2 ^ 64) % 2 ^ 64

-- (uint64_t)z, for an int64_t z
abbrev pub of_int64 : ℤ → ℕ
of_int64 (pos n) = n
of_int64 (negsuc n) = 2 ^ 64 - suc n

-- (int64_t)n < 1, which is also (int64_t)n <= 0
abbrev pub int64_lt_one : ℕ → Bool
int64_lt_one n = leb (2 ^ 63) n || n == 0

-- (int64_t)n <= 1
abbrev pub int64_le_one : ℕ → Bool
int64_le_one n = leb (2 ^ 63) n || leb n 1

abbrev pub time_forever : ℕ
time_forever = 2 ^ 64 - 1

abbrev pub time_now : ℕ
time_now = 0

abbrev pub walltime_now : ℕ
walltime_now = 2 ^ 64 - 2

abbrev pub time_max_value : ℕ
time_max_value = 2 ^ 62 - 1

-- The actual value of `_dispatch_time_to_clock_and_value`, before its range check.
pub decode : Now → ℕ → Clock × ℕ
decode now time =
    if leb (2 ^ 63) time
    then (if test_bit 62 time
        then (wall, (if time == walltime_now then now.nanoseconds else neg64 time))
        else (monotonic, clear_bit 63 time))
    else (uptime, time)

pub check_range : ℕ → ℕ
check_range value = if ltb time_max_value value then time_forever else value

-- `_dispatch_time_to_clock_and_value`
pub time_to_clock_and_value : Now → ℕ → Clock × ℕ
unfolding decode check_range
time_to_clock_and_value now time =
    let (clock, value) = decode now time in (clock, check_range value)

encode : Clock → ℕ → ℕ
encode uptime value = value
encode monotonic value = set_bit 63 value
encode wall value = neg64 value

-- `_dispatch_clock_and_value_to_time`
pub clock_and_value_to_time : Clock → ℕ → ℕ
unfolding encode
clock_and_value_to_time clock value =
    if leb time_max_value value then time_forever else encode clock value

-- The branch of `dispatch_time` for the wall clock.
add_wall : ℕ → ℤ → ℕ
unfolding clock_and_value_to_time
add_wall value (pos delta) =
    let sum : ℕ = u64 (value + delta) in
    if int64_lt_one sum then time_forever else clock_and_value_to_time wall sum
add_wall value (negsuc delta) =
    let sum : ℕ = u64 (value + of_int64 (negsuc delta)) in
    clock_and_value_to_time wall (if int64_lt_one sum then 2 else sum)

-- The branch for up time and monotonic time, after DISPATCH_TIME_NOW is replaced.
add_up : Clock → ℕ → ℤ → ℕ
unfolding clock_and_value_to_time
add_up clock value (pos delta) =
    let sum : ℕ = u64 (value + delta) in
    if int64_lt_one sum then time_forever else clock_and_value_to_time clock sum
add_up clock value (negsuc delta) =
    let diff : ℕ = u64 (value + 2 ^ 64 - suc delta) in
    if int64_lt_one diff
    then clock_and_value_to_time clock 1
    else clock_and_value_to_time clock diff

-- `_dispatch_time_now`
abbrev pub read_clock : Now → Clock → ℕ
read_clock now uptime = now.up
read_clock now monotonic = now.mono
read_clock now wall = now.nanoseconds

pub add_to : Now → Clock → ℕ → ℤ → ℕ
unfolding add_wall add_up
add_to now wall value delta = add_wall value delta
add_to now clock value delta =
    add_up clock (if value == time_now then read_clock now clock else value) delta

-- `dispatch_time`
pub dispatch_time : Now → ℕ → ℤ → ℕ
unfolding time_to_clock_and_value add_to
dispatch_time now inval delta =
    if inval == time_forever
    then time_forever
    else (let (clock, value) = time_to_clock_and_value now inval in
        if value == time_forever then value else add_to now clock value delta)

-- `dispatch_walltime`; `inval` is the given time in nanoseconds, or `none` for NULL.
pub dispatch_walltime : Now → Option ℕ → ℤ → ℕ
dispatch_walltime now inval delta =
    let start : ℕ = elim inval [ none ↦ now.nanoseconds | some nsec ↦ nsec ] in
    let nsec : ℕ = u64 (start + of_int64 delta) in
    if int64_le_one nsec
    then elim delta [ pos _ ↦ time_forever | negsuc _ ↦ walltime_now ]
    else neg64 nsec

-- `_dispatch_timeout`
pub timeout : Now → ℕ → ℕ
unfolding time_to_clock_and_value
timeout now when =
    if when == time_forever
    then time_forever
    else (if when == time_now
        then 0
        else (let (clock, value) = time_to_clock_and_value now when in
            let t : ℕ = read_clock now clock in if leb value t then 0 else value - t))

-- `_dispatch_time_nanoseconds_since_epoch`
pub time_nanoseconds_since_epoch : Now → ℕ → ℕ
unfolding timeout
time_nanoseconds_since_epoch now when =
    if when == time_forever
    then time_forever
    else (if leb (2 ^ 63) when then neg64 when else u64 (now.nanoseconds + timeout now when))

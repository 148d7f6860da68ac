-- ===== src/Time/Tests.antt =====
-- Instances and runs of the operations on times (src/time.c).
use swift_corelibs_libdispat.Common.{◌-◌, ◌^◌, ◌≡◌, ◌≢◌, refl, arith}
use swift_corelibs_libdispat.Common.Int.{pos, negsuc}
use swift_corelibs_libdispat.Time.{
  uptime, monotonic, wall, Now, clock_and_value_to_time, dispatch_time, timeout,
  time_nanoseconds_since_epoch,
}
use swift_corelibs_libdispat.Time.Add.{dispatch_time-saturates}
use swift_corelibs_libdispat.Time.Timeout.{epoch_of_monotonic}

abbrev clocks : Now
clocks = record { up = 1000; mono = 2000; nanoseconds = 1_700_000_000_000_000_000 }

abbrev later : Now
later = record { up = 1600; mono = 2600; nanoseconds = 1_700_000_000_000_000_600 }

uptime≢wall : uptime ≢ wall
uptime≢wall e = cc

uptime≢monotonic : uptime ≢ monotonic
uptime≢monotonic e = cc

monotonic≢wall : monotonic ≢ wall
monotonic≢wall e = cc

dispatch_time-saturates_example :
    dispatch_time clocks (clock_and_value_to_time monotonic 0) (negsuc 499)
    ≡ clock_and_value_to_time monotonic 1500
dispatch_time-saturates_example =
    dispatch_time-saturates clocks monotonic 0 (negsuc 499) monotonic≢wall (omega arith)
      (omega arith) (omega arith) (omega arith)

epoch_of_monotonic_example :
    time_nanoseconds_since_epoch clocks (clock_and_value_to_time monotonic 2600) ≡ 2 ^ 63 - 2600
epoch_of_monotonic_example = epoch_of_monotonic clocks 2600 (omega arith)

-- dispatch_time(DISPATCH_TIME_NOW, 500) and its timeout 600 ns later.
run_timeout : timeout later (dispatch_time clocks 0 (pos 500)) ≡ 0
unfolding timeout dispatch_time
run_timeout = refl

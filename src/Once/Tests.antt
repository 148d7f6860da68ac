-- ===== src/Once/Tests.antt =====
-- Instances and runs of `dispatch_once_f` (src/once.c).
use swift_corelibs_libdispat.Common.{
  ℕ, suc, ◌+◌, ◌^◌, ◌≤◌, ◌<◌, ◌≡◌, refl, arith, [], ◌∷◌, ◌++◌, total,
}
use swift_corelibs_libdispat.Once.{
  once_done, Pc, idle, running, waiting, asleep, returned, step, once_wait, once_gate_broadcast,
  gate_broadcast_slow, Call, System, take, wake, Reach, here, later,
}
use swift_corelibs_libdispat.Once.Places.{runner, waker}
use swift_corelibs_libdispat.Once.Safety.{runs_at_most_once, returns_after_run, sleeper_has_waker}

-- A call of thread `self`.
abbrev call : ℕ → Pc → Call
call self p = record { self = self; pc = p }

-- Two calls, of the threads 5 and `second`.
abbrev two : ℕ → ℕ → Pc → Pc → ℕ → System
two second v p q n = record { word = v; calls = call 5 p ∷ call second q ∷ []; runs = n }

-- The first call runs the function, and the second waits for it, or for itself.
run_waits : (second : ℕ) → 0 < second → second < 2 ^ 30 → Reach (two second 5 running waiting 1)
unfolding step
run_waits second p q =
    later {before = call 5 running ∷ []} {after = []}
      (later {before = call 5 running ∷ []} {after = []}
        (later {before = []} {after = call second idle ∷ []}
          (later {before = []} {after = call second idle ∷ []}
            (here (call 5 idle ∷ call second idle ∷ [])
              (omega arith, omega arith, refl, (p, q, refl, tt)))
            (take refl))
          (take refl))
        (take refl))
      (take refl)

run_sleeps : Reach (two 7 (5 + 2 ^ 31) running asleep 1)
unfolding step once_wait
run_sleeps =
    later {before = call 5 running ∷ []} {after = []}
      (later {before = call 5 running ∷ []} {after = []} (run_waits 7 (omega arith) (omega arith))
        (take refl))
      (take refl)

run_returns : Reach (two 7 once_done returned waiting 1)
unfolding step once_gate_broadcast gate_broadcast_slow
run_returns =
    later {before = []} {after = call 7 asleep ∷ []}
      (later {before = []} {after = call 7 asleep ∷ []} run_sleeps (take refl)) (wake refl)

runs_at_most_once_example : 1 ≤ 1
runs_at_most_once_example = runs_at_most_once (two 7 once_done returned waiting 1) run_returns

returns_after_run_example :
    (suc 0 ≡ 1)
    × (once_done ≡ once_done)
    × (total runner ([] ++ call 5 returned ∷ call 7 waiting ∷ []) ≡ 0)
returns_after_run_example = returns_after_run [] (call 7 waiting ∷ []) once_done 1 5 run_returns

sleeper_has_waker_example :
    0
    < total runner (two 7 (5 + 2 ^ 31) running asleep 1).calls
      + total waker (two 7 (5 + 2 ^ 31) running asleep 1).calls
sleeper_has_waker_example =
    sleeper_has_waker (two 7 (5 + 2 ^ 31) running asleep 1) run_sleeps (omega arith)

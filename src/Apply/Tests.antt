-- ===== src/Apply/Tests.antt =====
-- Instances and runs of dispatch_apply's threads (src/apply.c).
use swift_corelibs_libdispat.Common.{
  ℕ, ◌-◌, ◌*◌, ◌^◌, ◌≤◌, ◌<◌, ◌≡◌, refl, arith, Bool, true, false, List, [], ◌∷◌, ◌++◌, map, total,
  All,
}
use swift_corelibs_libdispat.Apply.{
  Pc, starting, asleep, gone, Next, next, wake, corrupt, assertion_failed, blocked, step,
  thread_event_signal, thread_event_wait, thread_event_wait_slow, thread_event_destroy, Thread,
  woken, System, counted, goes, wakes, begin, Reach, here, later,
}
use swift_corelibs_libdispat.Apply.Counts.{sleeper, past, user, releaser}
use swift_corelibs_libdispat.Apply.Width.{Queue, redirect, with_width, try_reserve_apply_width}
use swift_corelibs_libdispat.Apply.Restore.{Restores, redirect-Restores}
use swift_corelibs_libdispat.Apply.Safety.{
  runs_each_index_once, returns_when_all_run, at_work, caller_has_waker, frees_once,
}

-- The system after a step of the thread `t`
abbrev result : List Thread → Thread → List Thread → System → Next → System
result before t after s (next m q) = counted s t.pc m (before ++ record t { pc = q } ∷ after)
result before t after s (wake m q) =
    counted s t.pc m (map woken before ++ record t { pc = q } ∷ map woken after)
result before t after s _ = s

-- The first or the second of two threads takes a step.
abbrev turn : Bool → List Thread → System → System
turn true (a ∷ b ∷ []) s = result [] a (b ∷ []) s (step a.waits s.shared a.pc)
turn false (a ∷ b ∷ []) s = result (a ∷ []) b [] s (step b.waits s.shared b.pc)
turn _ _ s = s

abbrev play : List Bool → System → System
play [] s = s
play (k ∷ ks) s = play ks (turn k s.threads s)

result-Reach :
    (before : List Thread) (t : Thread) (after : List Thread) (s : System) (x : Next)
    → Reach s
    → s.threads ≡ before ++ t ∷ after
    → step t.waits s.shared t.pc ≡ x
    → Reach (result before t after s x)
result-Reach before t after s (next m q) r e f = later r e (goes f)
result-Reach before t after s (wake m q) r e f = later r e (wakes f)
result-Reach before t after s corrupt r e f = r
result-Reach before t after s assertion_failed r e f = r
result-Reach before t after s blocked r e f = r

turn-Reach :
    (k : Bool) (ts : List Thread) (s : System) → Reach s → s.threads ≡ ts → Reach (turn k ts s)
turn-Reach true (a ∷ b ∷ []) s r e =
    result-Reach [] a (b ∷ []) s (step a.waits s.shared a.pc) r e refl
turn-Reach false (a ∷ b ∷ []) s r e =
    result-Reach (a ∷ []) b [] s (step b.waits s.shared b.pc) r e refl
turn-Reach true [] s r e = r
turn-Reach true (a ∷ []) s r e = r
turn-Reach true (a ∷ b ∷ c ∷ ts) s r e = r
turn-Reach false [] s r e = r
turn-Reach false (a ∷ []) s r e = r
turn-Reach false (a ∷ b ∷ c ∷ ts) s r e = r

play-Reach : (ks : List Bool) (s : System) → Reach s → Reach (play ks s)
play-Reach [] s r = r
play-Reach (k ∷ ks) s r = play-Reach ks (turn k s.threads s) (turn-Reach k s.threads s r refl)

-- Two iterations for the thread that calls dispatch_apply and one other
abbrev two : System
two =
    begin 2 (record { waits = true; pc = starting } ∷ record { waits = false; pc = starting } ∷ [])

two-Reach : Reach two
two-Reach =
    here 2 (record { waits = true; pc = starting } ∷ record { waits = false; pc = starting } ∷ [])
      (omega arith) (omega arith) (omega arith) refl (refl, (refl, tt))

-- The other thread takes index 0, and the caller runs index 1 and falls asleep.
abbrev to_sleep : List Bool
to_sleep = false ∷ true ∷ true ∷ true ∷ true ∷ true ∷ true ∷ true ∷ []

-- The other thread finishes, signals, wakes the caller and leaves, and the caller returns from the wait.
abbrev to_return : List Bool
to_return = false ∷ false ∷ false ∷ false ∷ false ∷ false ∷ true ∷ []

abbrev to_end : List Bool
to_end = true ∷ true ∷ true ∷ []

sleeping-Reach : Reach (play to_sleep two)
sleeping-Reach = play-Reach to_sleep two two-Reach

returned-Reach : Reach (play to_return (play to_sleep two))
returned-Reach = play-Reach to_return (play to_sleep two) sleeping-Reach

ended : System
ended = play to_end (play to_return (play to_sleep two))

ended-Reach : Reach ended
unfolding ended
ended-Reach = play-Reach to_end (play to_return (play to_sleep two)) returned-Reach

caller_sleeps : 0 < total sleeper (play to_sleep two).threads
unfolding step thread_event_wait thread_event_wait_slow
caller_sleeps = omega arith

caller_has_waker_example : 0 < total at_work (play to_sleep two).threads
caller_has_waker_example = caller_has_waker sleeping-Reach caller_sleeps

caller_past : 0 < total past (play to_return (play to_sleep two)).threads
unfolding step thread_event_signal thread_event_wait thread_event_wait_slow thread_event_destroy
caller_past = omega arith

iterations_stay : (play to_return (play to_sleep two)).shared.iterations ≡ 2
unfolding step thread_event_signal thread_event_wait thread_event_wait_slow thread_event_destroy
iterations_stay = refl

returns_when_all_run_example : (play to_return (play to_sleep two)).runs 1 ≡ 1
returns_when_all_run_example =
    returns_when_all_run returned-Reach caller_past 1 (omega (arith, iterations_stay))

runs_each_index_once_example :
    ((play to_sleep two).runs 1 ≤ 1)
    × ((play to_sleep two).shared.iterations ≤ 1 → (play to_sleep two).runs 1 ≡ 0)
runs_each_index_once_example = runs_each_index_once sleeping-Reach 1

asleep_and_calling :
    (play to_sleep two).threads
    ≡ []
      ++ record { waits = true; pc = asleep } ∷ record { waits = false; pc = Pc.calling 0 0 } ∷ []
unfolding step thread_event_wait thread_event_wait_slow
asleep_and_calling = refl

frees_once_example :
    (ended.frees ≤ 1)
    × (0 < ended.frees → (total user ended.threads ≡ 0) × (total releaser ended.threads ≡ 0))
    × (All (λ (t : Thread). t.pc ≡ gone) ended.threads
        → (ended.frees ≡ 1) × ((i : ℕ) → i < ended.shared.iterations → ended.runs i ≡ 1))
frees_once_example = frees_once ended-Reach

everyone_left : All (λ (t : Thread). t.pc ≡ gone) ended.threads
unfolding ended step thread_event_signal thread_event_wait thread_event_wait_slow
    thread_event_destroy
everyone_left = (refl, (refl, tt))

-- A queue of width 4 that targets one of width 2, and three additional threads
abbrev targets : List Queue
targets =
    record { dq_state = (0x1000 - 4) * 2 ^ 41; dq_width = 4 }
    ∷ record { dq_state = (0x1000 - 2) * 2 ^ 41; dq_width = 2 }
    ∷ []

redirect-Restores_example : Restores targets 3 (redirect [] targets 3)
redirect-Restores_example =
    redirect-Restores targets 3 (omega arith) (omega arith, (omega arith, tt))

-- The second queue has width for two only, and the third is given back to the first.
redirect-targets :
    redirect [] targets 3
    ≡ with_width
        (record { dq_state = (0x1000 - 2) * 2 ^ 41; dq_width = 4 }
          ∷ record { dq_state = 0x1000 * 2 ^ 41; dq_width = 2 }
          ∷ [])
        2
unfolding redirect try_reserve_apply_width
redirect-targets = refl

-- ===== src/Semaphore/Tests.antt =====
-- Runs of a semaphore with two threads (src/semaphore.c).
use swift_corelibs_libdispat.Common.{◌+◌, ◌≡◌, refl, arith, ◌⊎◌, [], ◌∷◌, total}
use swift_corelibs_libdispat.Common.Int.{pos, negsuc, neg_part}
use swift_corelibs_libdispat.Semaphore.{
  Timeout, idle, draining, Choice, System, take, Reach, here, later, step,
}
use swift_corelibs_libdispat.Semaphore.Invariant.{waits}
use swift_corelibs_libdispat.Semaphore.Safety.{waits_only_without_permits}

-- A semaphore of value 0, the first thread in the system wait.
abbrev waiting : System
waiting = record {
  shared = record { value = negsuc 0; orig = 0; tokens = 0 };
  threads = draining ∷ idle ∷ [];
  signals = 0;
  acquires = 0;
}

-- The second thread has signalled, and the first has returned 0.
abbrev finished : System
finished = record {
  shared = record { value = pos 0; orig = 0; tokens = 0 };
  threads = idle ∷ idle ∷ [];
  signals = 1;
  acquires = 1;
}

waiting_reached : Reach 0 2 waiting
unfolding step
waiting_reached =
    later {before = []} {after = idle ∷ []}
      (later {before = []} {after = idle ∷ []} here (take (Choice.wait Timeout.forever) refl))
      (take Choice.proceed refl)

finished_reached : Reach 0 2 finished
unfolding step
finished_reached =
    later {before = []} {after = idle ∷ []}
      (later {before = draining ∷ []} {after = []}
        (later {before = draining ∷ []} {after = []} waiting_reached (take Choice.signal refl))
        (take Choice.proceed refl))
      (take Choice.proceed refl)

waits_only_without_permits_example :
    (total waits waiting.threads ≡ 0)
    ⊎ ((waiting.acquires ≡ 0 + waiting.signals)
        × (neg_part waiting.shared.value ≡ total waits waiting.threads))
waits_only_without_permits_example =
    waits_only_without_permits (omega arith) (omega arith) waiting_reached refl refl

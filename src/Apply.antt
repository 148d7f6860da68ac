-- ===== src/Apply.antt =====
-- src/apply.c: `_dispatch_apply_invoke2`, as steps of any number of threads that share one dispatch_apply_t,
-- each step one access of it or one call of the client's function, and the thread event of
-- src/shims/lock.h and src/shims/lock.c (with the futex of Linux) on which the thread that called
-- dispatch_apply waits. Atomic counters wrap around. The runs of each index, the signals of the event and
-- the releases of the memory are counted beside; the code keeps none of these.
mod Counts
mod Outcome
mod Account
mod Event
mod Users
mod Bounds
mod Width
mod Restore
mod Woken
mod Runs
mod EventSteps
mod Invariant
mod Preserved
mod Safety
mod Tests
use swift_corelibs_libdispat.Common.{
  ℕ, suc, zero, ◌+◌, ◌-◌, ◌%◌, ◌^◌, ◌≤◌, ◌<◌, ◌≡◌, Bool, true, false, ◌==◌, if◌then◌else◌, List, [],
  ◌∷◌, ◌++◌, map, total, length, ltb,
}

-- da_iterations, da_index, da_todo, da_thr_cnt and the dte_value of da_event
pub record Shared : Type 0 where
  pub iterations : ℕ
  pub index : ℕ
  pub todo : ℕ
  pub thr_cnt : ℕ
  pub dte_value : ℕ

-- Where a thread stands.
pub data Pc : Type 0 where
  starting : Pc  -- before the first increment of da_index
  calling : (idx done : ℕ) → Pc  -- in the client's function
  called : (done : ℕ) → Pc  -- before the next increment of da_index
  finishing : (done : ℕ) → Pc  -- before the subtraction from da_todo
  signalling : Pc  -- at `_dispatch_thread_event_signal`
  waking : Pc  -- at `_dispatch_thread_event_signal_slow`
  awaiting : Pc  -- at `_dispatch_thread_event_wait`
  waiting : Pc  -- at the loop of `_dispatch_thread_event_wait_slow`
  at_futex : Pc  -- at its `_dispatch_futex_wait`
  asleep : Pc  -- in the system call
  destroying : Pc  -- at `_dispatch_thread_event_destroy`
  leaving : Pc  -- before the decrement of da_thr_cnt
  freeing : Pc  -- at `_dispatch_continuation_free`
  gone : Pc

-- What a step leaves, whether it wakes the sleeper, and where the thread goes on.
pub data Next : Type 0 where
  next : (m : Shared) (p : Pc) → Next
  wake : (m : Shared) (p : Pc) → Next
  corrupt : Next  -- "Corrupt thread event value"
  assertion_failed : Next
  blocked : Next

-- The label `out`, for a thread that waits (DISPATCH_APPLY_INVOKE_WAIT) and one that does not
abbrev pub out : Bool → Pc
out waits = if waits then awaiting else leaving

-- What is done with the index that an increment gave.
abbrev pub with_index : Shared → ℕ → Pc → Pc
with_index m done past = if ltb m.index m.iterations then calling m.index done else past

abbrev pub inc_index : Shared → Shared
inc_index m = record m { index = (m.index + 1) % 2 ^ 64 }

-- `_dispatch_thread_event_signal`
pub thread_event_signal : Bool → Shared → Next
thread_event_signal waits m =
    next (record m { dte_value = (m.dte_value + 1) % 2 ^ 32 })
      (if m.dte_value == 0 then out waits else waking)

-- `_dispatch_thread_event_wait`
pub thread_event_wait : Shared → Next
thread_event_wait m =
    let value : ℕ = (m.dte_value + (2 ^ 32 - 1)) % 2 ^ 32 in
    next (record m { dte_value = value }) (if value == 0 then destroying else waiting)

-- The loop of `_dispatch_thread_event_wait_slow`, up to the futex
pub thread_event_wait_slow : Shared → Next
thread_event_wait_slow m =
    if m.dte_value == 0
    then next m destroying
    else (if m.dte_value == 2 ^ 32 - 1 then next m at_futex else corrupt)

-- `_dispatch_thread_event_destroy`
pub thread_event_destroy : Shared → Next
thread_event_destroy m = if m.dte_value == 0 then next m leaving else assertion_failed

-- One step of a thread that waits or does not.
pub step : Bool → Shared → Pc → Next
unfolding thread_event_signal thread_event_wait thread_event_wait_slow thread_event_destroy
step waits m starting = next (inc_index m) (with_index m 0 (out waits))
step waits m (calling idx done) = next m (called (done + 1))
step waits m (called done) = next (inc_index m) (with_index m done (finishing done))
step waits m (finishing done) =
    let todo : ℕ = (m.todo + (2 ^ 64 - done)) % 2 ^ 64 in
    next (record m { todo = todo }) (if todo == 0 then signalling else out waits)
step waits m signalling = thread_event_signal waits m
step waits m waking = wake m (out waits)
step waits m awaiting = thread_event_wait m
step waits m waiting = thread_event_wait_slow m
step waits m at_futex = next m (if m.dte_value == 2 ^ 32 - 1 then asleep else waiting)
step waits m asleep = next m waiting
step waits m destroying = thread_event_destroy m
step waits m leaving =
    let thr_cnt : ℕ = (m.thr_cnt + (2 ^ 32 - 1)) % 2 ^ 32 in
    next (record m { thr_cnt = thr_cnt }) (if thr_cnt == 0 then freeing else gone)
step waits m freeing = next m gone
step waits m gone = blocked

pub record Thread : Type 0 where
  pub waits : Bool
  pub pc : Pc

abbrev pub woken_pc : Pc → Pc
woken_pc asleep = waiting
woken_pc p = p

-- The futex wakes the sleeper.
abbrev pub woken : Thread → Thread
woken t = record t { pc = woken_pc t.pc }

-- What a step from a place adds to the runs of an index, the signals and the releases.
abbrev pub ran : Pc → ℕ → ℕ
ran (calling idx done) i = if i == idx then 1 else 0
ran _ i = 0

abbrev pub signalled : Pc → ℕ
signalled signalling = 1
signalled _ = 0

abbrev pub freed : Pc → ℕ
freed freeing = 1
freed _ = 0

pub record System : Type 0 where
  pub shared : Shared
  pub threads : List Thread
  pub runs : ℕ → ℕ
  pub signals : ℕ
  pub frees : ℕ

-- The system after a step from `p`
abbrev pub counted : System → Pc → Shared → List Thread → System
counted s p m threads = record {
  shared = m;
  threads = threads;
  runs = λ i. s.runs i + ran p i;
  signals = s.signals + signalled p;
  frees = s.frees + freed p;
}

-- One of the threads takes a step.
pub data Step (s : System) (before after : List Thread) (waits : Bool) (p : Pc)
    : System → Type 0 where
  goes :
      {m : Shared} {p' : Pc}
      → step waits s.shared p ≡ next m p'
      → Step s before after waits p
          (counted s p m (before ++ record { waits = waits; pc = p' } ∷ after))
  wakes :
      {m : Shared} {p' : Pc}
      → step waits s.shared p ≡ wake m p'
      → Step s before after waits p
          (counted s p m (map woken before ++ record { waits = waits; pc = p' } ∷ map woken after))

-- Is this the thread that waits?
abbrev pub waiter : Thread → ℕ
waiter t = if t.waits then 1 else 0

abbrev pub AreNew : List Thread → Type 0
AreNew [] = Unit
AreNew (t ∷ ts) = (t.pc ≡ starting) × AreNew ts

-- What dispatch_apply_f sets up for its threads. The indices that the threads take do not wrap around.
abbrev pub begin : ℕ → List Thread → System
begin iterations threads = record {
  shared = record {
    iterations = iterations;
    index = 0;
    todo = iterations;
    thr_cnt = length threads;
    dte_value = 0;
  };
  threads = threads;
  runs = λ i. 0;
  signals = 0;
  frees = 0;
}

pub data Reach : System → Type 0 where
  here :
      (iterations : ℕ) (threads : List Thread)
      → 0 < iterations
      → iterations + length threads < 2 ^ 64
      → length threads < 2 ^ 31
      → total waiter threads ≡ 1
      → AreNew threads
      → Reach (begin iterations threads)
  later :
      {s t : System} {before after : List Thread} {waits : Bool} {p : Pc}
      → Reach s
      → s.threads ≡ before ++ record { waits = waits; pc = p } ∷ after
      → Step s before after waits p t
      → Reach t

-- ===== src/Semaphore.antt =====
-- src/semaphore.c, dispatch_semaphore_t: the atomic counter over a counting semaphore of the system
-- (`_dispatch_sema4_t`), with any number of threads that wait and signal. A thread takes one shared
-- access at a time. The system semaphore is a number of tokens: `_dispatch_sema4_signal` adds one, and
-- a wait takes one when there is one.
mod Invariant
mod Safety
mod Tests
use swift_corelibs_libdispat.Common.{
  ℕ, zero, suc, ◌+◌, ◌-◌, ◌^◌, ◌≤◌, ◌<◌, ◌≡◌, Bool, true, false, leb, ltb, ◌==◌, if◌then◌else◌,
  Option, none, some, List, [], ◌∷◌, ◌++◌, replicate,
}
use swift_corelibs_libdispat.Common.Int.{ℤ, pos, negsuc, eq_ℤ, long_min, inc_long, dec_long}

-- `struct dispatch_semaphore_s`
pub record Semaphore : Type 0 where
  pub value : ℤ
  pub orig : ℕ
  pub tokens : ℕ

-- The cases of `switch (timeout)`: DISPATCH_TIME_NOW, DISPATCH_TIME_FOREVER and any other time.
pub data Timeout : Type 0 where
  now forever until : Timeout

-- Where a thread stands in the calls.
pub data Pc : Type 0 where
  idle : Pc
  posting : Pc  -- in `_dispatch_semaphore_signal_slow`
  slow : Timeout → Pc  -- at the switch of `_dispatch_semaphore_wait_slow`
  undoing : (k : ℕ) → Pc  -- at the exchange of its loop, with `orig` -(k + 1)
  draining : Pc  -- at the `_dispatch_sema4_wait`

-- What the thread or its surroundings choose: the call that an idle thread makes, and how a timed
-- wait or a weak exchange ends.
pub data Choice : Type 0 where
  signal : Choice
  wait : Timeout → Choice
  proceed : Choice
  expire : Choice  -- the timed wait times out
  spurious : Choice  -- the weak exchange fails though the values agree

-- What has happened for the client: a signal was counted, a wait returned 0, or it timed out.
pub data Event : Type 0 where
  quiet signalled acquired timed_out : Event

pub data Next : Type 0 where
  next : Semaphore → Pc → Event → Next
  blocked : Next
  crash : Next

-- `dispatch_semaphore_create`
pub create : ℤ → Option Semaphore
create (pos n) = some (record { value = pos n; orig = n; tokens = 0 })
create (negsuc n) = none

-- `dispatch_semaphore_signal`, from its increment on
signal_value : Semaphore → ℤ → Next
signal_value m (pos zero) = next (record m { value = pos 0 }) posting signalled
signal_value m (pos (suc n)) = next (record m { value = pos (suc n) }) idle signalled
signal_value m (negsuc n) =
    if eq_ℤ (negsuc n) long_min
    then crash
    else next (record m { value = negsuc n }) posting signalled

-- `dispatch_semaphore_wait`, from its decrement on
wait_value : Semaphore → Timeout → ℤ → Next
wait_value m t (pos n) = next (record m { value = pos n }) idle acquired
wait_value m t (negsuc n) = next (record m { value = negsuc n }) (slow t) quiet

-- `orig = dsema->dsema_value; while (orig < 0)`
pub load_orig : ℤ → Pc
load_orig (pos n) = draining
load_orig (negsuc k) = undoing k

sema4_wait : Semaphore → Next
sema4_wait m = elim m.tokens [
  | zero ↦ blocked
  | suc n ↦ next (record m { tokens = n }) idle acquired
]

-- The exchange of `orig` by `orig + 1`; where it fails it loads `orig` again.
exchange : Semaphore → ℕ → Next
exchange m k =
    if eq_ℤ m.value (negsuc k)
    then next (record m { value = inc_long (negsuc k) }) idle timed_out
    else next m (load_orig m.value) quiet

-- One step of a thread.
pub step : Choice → Semaphore → Pc → Next
unfolding signal_value wait_value load_orig sema4_wait exchange inc_long dec_long
step signal m idle = signal_value m (inc_long m.value)
step (wait t) m idle = wait_value m t (dec_long m.value)
step proceed m posting = next (record m { tokens = m.tokens + 1 }) idle quiet
step proceed m (slow now) = next m (load_orig m.value) quiet
step proceed m (slow forever) = next m draining quiet
step proceed m (slow until) = sema4_wait m
step expire m (slow until) = next m (load_orig m.value) quiet
step proceed m (undoing k) = exchange m k
step spurious m (undoing _) = next m (load_orig m.value) quiet
step proceed m draining = sema4_wait m
step c m p = blocked

-- All threads, and how often a signal was counted and a wait returned 0.
pub record System : Type 0 where
  pub shared : Semaphore
  pub threads : List Pc
  pub signals : ℕ
  pub acquires : ℕ

abbrev pub count_signal : Event → ℕ
count_signal signalled = 1
count_signal _ = 0

abbrev pub count_acquire : Event → ℕ
count_acquire acquired = 1
count_acquire _ = 0

-- One thread of the list takes a step.
pub data Step (before after : List Pc) (n a : ℕ) (m : Semaphore) (p : Pc) : System → Type 0 where
  take :
      (c : Choice) {m' : Semaphore} {p' : Pc} {e : Event}
      → step c m p ≡ next m' p' e
      → Step before after n a m p (record {
        shared = m';
        threads = before ++ p' ∷ after;
        signals = n + count_signal e;
        acquires = a + count_acquire e;
      })

-- The states that a new semaphore with `threads` idle threads reaches.
pub data Reach (orig threads : ℕ) : System → Type 0 where
  here : Reach orig threads (record {
    shared = record { value = pos orig; orig = orig; tokens = 0 };
    threads = replicate threads idle;
    signals = 0;
    acquires = 0;
  })
  later :
      {before after : List Pc} {n a : ℕ} {m : Semaphore} {p : Pc} {t : System}
      → Reach orig threads
          (record { shared = m; threads = before ++ p ∷ after; signals = n; acquires = a })
      → Step before after n a m p t
      → Reach orig threads t

-- `_dispatch_semaphore_dispose`: it crashes on a semaphore in use.
pub dispose_crashes : Semaphore → Bool
dispose_crashes m = elim m.value [ pos n ↦ ltb n m.orig | negsuc n ↦ true ]
